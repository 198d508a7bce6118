-- ===== src/Cmd/Parts.antt =====
-- The steps that the encoders of the commands are made of. `none` is undefined behaviour, the read of a
-- pointer that is not initialised, or a loop that does not end.
use diameter.Common.{
  ℕ, suc, Bool, Option, none, some, true, false, if◌then◌else◌, List, [], ◌∷◌, ◌++◌, length, ◌>>=◌,
}
use diameter.Wire.Encode.{EncData, enc_avp}
use diameter.Wire.Message.{MsgAvp, plain}
use diameter.Cmd.Lists.{ListOps, find_and_remove, get_next_and_remove, move_loop}

-- The list of the message, `optAvpList`, and the list that the application gives.
pub record AvpLists : Type 0 where
  pub out : List MsgAvp
  pub opt : List MsgAvp
  pub extra : List MsgAvp

abbrev pub Step : Type 0
Step = AvpLists → Option AvpLists

infixl 6 ◌then◌
abbrev pub ◌then◌ : Step → Step → Step
(f then g) l = f l >>= g

-- `osList_append` of an AVP of the encoder.
abbrev pub append : MsgAvp → Step
append a l = some (record { out = l.out ++ (a ∷ []); opt = l.opt; extra = l.extra })

abbrev pub append_value : ℕ → EncData → Step
append_value code v = append (plain (enc_avp code v))

unfoldable pub append_if : Bool → MsgAvp → Step
append_if b a l = if b then append a l else some l

abbrev pub or_nothing : List MsgAvp → Option MsgAvp → List MsgAvp
or_nothing out none = out
or_nothing out (some a) = out ++ (a ∷ [])

-- `diaOptListFindAndRemoveAvp`, and an append of what is found.
abbrev pub opt_found : AvpLists → Option MsgAvp × List MsgAvp → Option AvpLists
opt_found l (found, opt) =
    some (record { out = or_nothing l.out found; opt = opt; extra = l.extra })

abbrev pub extra_found : AvpLists → Option MsgAvp × List MsgAvp → Option AvpLists
extra_found l (found, extra) =
    some (record { out = or_nothing l.out found; opt = l.opt; extra = extra })

unfoldable pub move_opt : ListOps → ℕ → Step
unfolding find_and_remove
move_opt d code l = opt_found l (find_and_remove d code l.opt)

unfoldable pub move_extra : ListOps → ℕ → Step
unfolding find_and_remove
move_extra d code l = extra_found l (find_and_remove d code l.extra)

abbrev pub opt_moved : AvpLists → List MsgAvp × List MsgAvp → Option AvpLists
opt_moved l (out, opt) = some (record { out = out; opt = opt; extra = l.extra })

abbrev pub extra_moved : AvpLists → List MsgAvp × List MsgAvp → Option AvpLists
extra_moved l (out, extra) = some (record { out = out; opt = l.opt; extra = extra })

-- The loop over `diaOptListFindAndRemoveAvp`.
unfoldable pub move_all_opt : ListOps → ℕ → Step
unfolding move_loop find_and_remove
move_all_opt d code l =
    move_loop (suc (length l.opt)) (find_and_remove d code) l.out l.opt >>= opt_moved l

-- `osList_getCount(l) > 0`.
abbrev pub has_any : List MsgAvp → Bool
has_any [] = false
has_any (x ∷ l) = true

-- `osList_getCount` and the loop over `diaOptListGetNextAndRemoveAvp`.
unfoldable pub move_rest_opt : Step
unfolding move_loop get_next_and_remove
move_rest_opt l =
    if has_any l.opt
    then move_loop (suc (length l.opt)) get_next_and_remove l.out l.opt >>= opt_moved l
    else some l

unfoldable pub move_rest_extra : Step
unfolding move_loop get_next_and_remove
move_rest_extra l =
    if has_any l.extra
    then move_loop (suc (length l.extra)) get_next_and_remove l.out l.extra >>= extra_moved l
    else some l

abbrev pub proxy_info : ℕ
proxy_info = 284

abbrev pub route_record : ℕ
route_record = 282

-- `pAvpProxyInfo` and `pAvpRRInfo` have a value only where the AVP was found.
abbrev pub append_initialised : Option MsgAvp → Step
append_initialised none l = none
append_initialised (some a) l = append a l

-- The application's AVPs without those two, and then those two.
unfoldable pub last_two : (ℕ → List MsgAvp → Option MsgAvp × List MsgAvp) → Step
unfolding move_loop get_next_and_remove
last_two find l =
    let (proxy, extra1) = find proxy_info l.extra in
    let (rr, extra2) = find route_record extra1 in
    move_loop (suc (length extra2)) get_next_and_remove l.out extra2
    >>= extra_moved l
    >>= append_initialised proxy
    >>= append_initialised rr

unfoldable pub move_extra_last : ListOps → Step
unfolding find_and_remove last_two move_loop get_next_and_remove
move_extra_last d l = if has_any l.extra then last_two (find_and_remove d) l else some l
