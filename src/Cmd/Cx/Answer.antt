-- ===== src/Cmd/Cx/Answer.antt =====
-- `diaCxUar_getServerName` and `diaCxUar_getServerCap` (diaCx/src/diaCxUar.c), which read an answer. `none`
-- is a read of a union member that was not the one written.
use diameter.Common.{ℕ, Option, none, some, ◌==◌, if◌then◌else◌, List, [], ◌∷◌, ◌++◌, ◌>>=◌}
use diameter.Msg.{
  DataType, grouped_type, Avp, AvpData, str, group, Avps, nil, cons, avp_code, avp_type, avp_data,
  MsgDecoded, avp_list_lookup, data_u32,
}

abbrev pub data_str : AvpData → Option (List ℕ)
data_str (str l) = some l
data_str _ = none

-- The null pointer is the inner `none`.
unfoldable pub get_server_name : Option MsgDecoded → Option (Option (List ℕ))
unfolding avp_list_lookup
get_server_name none = some none
get_server_name (some m) = elim (avp_list_lookup m.avp_list 602) [
  | none ↦ some none
  | some a ↦ data_str (avp_data a) >>= λ l. some (some l)
]

-- `diaCxServerCap_t`.
pub record CapLists : Type 0 where
  pub man_cap : List ℕ
  pub opt_cap : List ℕ
  pub server_name : List (List ℕ)

abbrev pub no_caps : CapLists
no_caps = record { man_cap = []; opt_cap = []; server_name = [] }

-- One round of the loop: the switch reads the AVP that was looked up, and not its member.
unfoldable pub add_cap : Avp → CapLists → Option CapLists
unfolding data_u32
add_cap a c =
    if avp_code a == 604
    then (data_u32 (avp_data a) >>= λ n. some (record {
      man_cap = c.man_cap ++ (n ∷ []);
      opt_cap = c.opt_cap;
      server_name = c.server_name;
    }))
    else (if avp_code a == 605
        then (data_u32 (avp_data a) >>= λ n. some (record {
          man_cap = c.man_cap;
          opt_cap = c.opt_cap ++ (n ∷ []);
          server_name = c.server_name;
        }))
        else (if avp_code a == 602
            then (data_str (avp_data a) >>= λ l. some (record {
              man_cap = c.man_cap;
              opt_cap = c.opt_cap;
              server_name = c.server_name ++ (l ∷ []);
            }))
            else some c))

unfoldable pub add_caps : Avp → Avps → CapLists → Option CapLists
unfolding add_cap
add_caps a nil c = some c
add_caps a (cons x l) c = add_cap a c >>= add_caps a l

unfoldable pub caps_of : Avp → AvpData → Option CapLists
unfolding add_caps
caps_of a (group l) = add_caps a l no_caps
caps_of a _ = none

unfoldable pub caps_by_type : Avp → DataType → Option CapLists
unfolding add_caps
caps_by_type a grouped_type = caps_of a (avp_data a)
caps_by_type a _ = some no_caps

-- The status is `status_ok` on all ways out. The message is not null.
unfoldable pub get_server_cap : MsgDecoded → Option CapLists
unfolding avp_list_lookup caps_by_type
get_server_cap m = elim (avp_list_lookup m.avp_list 603) [
  | none ↦ some no_caps
  | some a ↦ caps_by_type a (avp_type a)
]
