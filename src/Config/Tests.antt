-- ===== src/Config/Tests.antt =====
-- A parser, and a configuration of it (common/src/diaConfig.c), with messages on their way.
use Prim.Native.String.{count}
use diameter.Common.{
  ℕ, suc, ◌≡◌, refl, subst, arith, Bool, true, false, ◌&&◌, ◌==◌, leb, some, List, [], ◌∷◌,
}
use diameter.Msg.{MsgDecoded}
use diameter.Dict.Rows.{find_row}
use diameter.Dict.Base.{base_rows_1, base_rows_2}
use diameter.Dict.Info.{get_avp_info, base_get_avp_info}
use diameter.Wire.Words.{be3, be4}
use diameter.Wire.Buf.{MBuf}
use diameter.Wire.Shape.{wire}
use diameter.Wire.Decode.{done, decode_msg}
use diameter.Wire.Decoded.{decoded_all}
use diameter.Wire.Message.{MsgOut}
use diameter.Wire.MessageTrip.{received}
use diameter.Wire.Demo.{given_ids, blank, ops, ops-BufLaws}
use diameter.Cmd.Lists.{first_ops, first_ops-ListLaws}
use diameter.Cmd.Demo.{env}
use diameter.Conn.Types.{client_wait_cea, opened, rcv_cea}
use diameter.Conn.Os.{cer}
use diameter.Conn.Steps.{Sys}
use diameter.Conn.Connecting.{client_wait_cea_on_msg}
use diameter.Conn.Demo.{demo, in_state}
use diameter.Conn.Provision.{cx}
use diameter.Config.Table.{
  XmlName, orig_host, orig_realm, max_same_avp_num, max_host_ip_num, config_local_ip, XmlType,
  xs_long, xs_boolean, xs_string, xs_short, XmlValue, is_true, int, str, XmlData, xml_data,
  get_config, index, get_int, get_str, int_at, str_at, entry,
}
use diameter.Config.Typed.{Parser, ParserLaws, Filled, HasType, PointsTo, get_config-PointsTo}
use diameter.Config.Init.{Config, Platform, host_ip_bytes, config_init, unread, returned}
use diameter.Config.Profile.{Profile, Says, config_init-Says}
use diameter.Config.Common.{enough, common_msg}
use diameter.Config.Caps.{caps_list}
use diameter.Config.CapsTrip.{Short, caps_len, common_msg-decoded, common_msg-opened}

abbrev text_of : XmlName → List ℕ
text_of orig_host = 104 ∷ 50 ∷ []
text_of orig_realm = 114 ∷ 50 ∷ []
text_of _ = 112 ∷ []

abbrev value_of : XmlName → XmlType → XmlValue
value_of n xs_string = str (text_of n)
value_of n xs_boolean = is_true true
value_of n _ = int 3

abbrev filled : List XmlData → List XmlData
filled [] = []
filled (r ∷ t) = record r { value = value_of r.name r.data_type } ∷ filled t

abbrev parser : Parser
parser = record { get_leaf_value = λ t. some (filled t) }

value_of-HasType : (n : XmlName) (ty : XmlType) → HasType ty (value_of n ty)
unfolding HasType
value_of-HasType n xs_string = tt
value_of-HasType n xs_boolean = tt
value_of-HasType n xs_long = omega arith
value_of-HasType n xs_short = omega arith

filled-Filled : (t : List XmlData) → Filled t (filled t)
unfolding Filled
filled-Filled [] = tt
filled-Filled (r ∷ t) = (refl, refl, value_of-HasType r.name r.data_type, filled-Filled t)

parser-ParserLaws : ParserLaws parser
parser-ParserLaws = record { fills = λ t t' e. subst (Filled t) (injective e) (filled-Filled t) }
  where
    injective : {a b : List XmlData} → some a ≡ some b → a ≡ b
    injective e = cc

abbrev table : List XmlData
table = filled xml_data

-- Whether the names are in the order of their lengths, which the parser needs, and each row is at its index.
abbrev is_ordered : ℕ → ℕ → List XmlData → Bool
is_ordered i len [] = true
is_ordered i len (r ∷ t) =
    index r.name == i && leb len (count r.data_name) && is_ordered (suc i) (count r.data_name) t

rows_ordered : is_ordered 0 0 xml_data ≡ true
unfolding xml_data
rows_ordered = refl

get_config-PointsTo_example : PointsTo table max_same_avp_num (get_config max_same_avp_num)
get_config-PointsTo_example =
    get_config-PointsTo parser parser-ParserLaws table refl max_same_avp_num

-- A platform where the descriptor of a text has 24 bytes and the family of IPv4 is 1.
abbrev platform : Platform
platform = record {
  parser = parser;
  array_memory = true;
  ip_memory = true;
  vpl_size = 24;
  af_ipv4 = 1;
  s_addr = λ ip. 10 ∷ 0 ∷ 0 ∷ 7 ∷ [];
}

addresses : get_int table max_host_ip_num ≡ some 3
unfolding get_int int_at get_config entry xml_data
addresses = refl

config_init-Says_example :
    (c : Config) × (f : Profile) × (ip : List ℕ) × (config_init platform unread ≡ some (returned c))
    × (c.table ≡ table)
    × Says c f
    × (get_str table config_local_ip ≡ some ip)
    × (f.ip ≡ host_ip_bytes 1 (10 ∷ 0 ∷ 0 ∷ 7 ∷ []))
config_init-Says_example =
    config_init-Says platform parser-ParserLaws table 3 refl refl refl addresses (omega arith)
      (omega arith)

abbrev profile : Profile
profile = record {
  host = 104 ∷ 50 ∷ [];
  realm = 114 ∷ 50 ∷ [];
  product = 112 ∷ [];
  ip = 0 ∷ 1 ∷ 10 ∷ 0 ∷ 0 ∷ 7 ∷ [];
  revision = 3;
  max_members = 3;
}

abbrev conf : Config
conf = record { table = table; host_ip = some profile.ip; host_num = 1 }

conf-Says : Says conf profile
unfolding get_int get_str int_at str_at get_config entry xml_data
conf-Says = record {
  host_read = refl;
  realm_read = refl;
  product_read = refl;
  revision_read = refl;
  members_read = refl;
  ip_kept = refl;
  one_ip = refl;
}

profile-Short : Short profile
profile-Short = record {
  host_len = omega arith;
  realm_len = omega arith;
  product_len = omega arith;
  ip_len = omega arith;
}

lengths :
    (caps_len true 0 profile 16777216 9 ≡ 176) × (caps_len false 5010 profile 16777216 9 ≡ 188)
unfolding caps_len wire be3 be4 get_avp_info base_get_avp_info find_row base_rows_1 base_rows_2
lengths = (refl, refl)

common_msg-decoded_example :
    (out : MsgOut) × (m : MBuf) × (common_msg enough env first_ops conf 9 cx cer true 0 given_ids
      ≡ some (some out))
    × (out.msg ≡ some m)
    × (decode_msg ops 220 (received m)
        ≡ done (
            some (record {
              cmd_code = 257;
              cmd_flag = 0x80;
              len = caps_len true 0 profile 16777216 9;
              app_id = 0;
              h2h_id = out.hdr_info.h2h_id;
              e2e_id = out.hdr_info.e2e_id;
              avp_list = decoded_all 257 (caps_list profile 16777216 9);
            })))
common_msg-decoded_example =
    common_msg-decoded conf profile conf-Says (omega arith) (omega arith) profile-Short env
      ops-BufLaws first_ops first_ops-ListLaws blank refl cx 16777216 refl (omega arith) 220 9 0
      given_ids (omega arith) (omega arith) true (omega (arith, lengths.0))
      (omega (arith, lengths.0)) (omega (arith, lengths.0))

-- The answer says that there is no common application.
common_msg-opened_example :
    (out : MsgOut) × (m : MBuf) × (r : MsgDecoded) × (s' : Sys demo) × (common_msg enough env
        first_ops conf 9 cx cer false 5010 given_ids
      ≡ some (some out))
    × (out.msg ≡ some m)
    × (decode_msg ops 220 (received m) ≡ done (some r))
    × (client_wait_cea_on_msg demo rcv_cea (some r) 0 (in_state client_wait_cea) ≡ some s')
    × (s'.dcb.conn_state ≡ opened)
    × (s'.dcb.peer_host ≡ 104 ∷ 50 ∷ [])
    × (s'.dcb.peer_realm ≡ 114 ∷ 50 ∷ [])
common_msg-opened_example =
    common_msg-opened conf profile conf-Says (omega arith) (omega arith) profile-Short env
      ops-BufLaws first_ops first_ops-ListLaws blank refl cx 16777216 refl (omega arith) 220 9 5010
      given_ids (omega arith) (omega arith) demo 0 (in_state client_wait_cea)
      (omega (arith, lengths.1)) (omega (arith, lengths.1)) (omega (arith, lengths.1))
