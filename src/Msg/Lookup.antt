-- ===== src/Msg/Lookup.antt =====
-- Reading a received message: `diaListFindAvp`, `diaAvpListLookup` (common/src/diaAvpHelper.c),
-- `dia_GetResultCode`, `diaMsg_getSessId` (common/src/diaMsg.c) and `diaCx_getExpCode`
-- (diaCx/src/diaCx.c). `none` is a read of a union member that was not the one written.
use diameter.Common.{ℕ, Option, none, some, List, ◌==◌, if◌then◌else◌}
use diameter.Msg.Types.{
  DataType, octet_string_type, grouped_type, Avp, AvpData, unset, num32, str, group, Avps, nil,
  cons, avp_code, avp_type, avp_data, MsgDecoded, code_result_code, code_session_id,
  code_experimental_result, code_experimental_result_code, result_code_none,
}

-- The first AVP with the code: `osList_lookup` from the head with `diaListFindAvp`.
unfoldable pub avp_list_lookup : Avps → ℕ → Option Avp
avp_list_lookup nil code = none
avp_list_lookup (cons a l) code = if avp_code a == code then some a else avp_list_lookup l code

-- `avpData.dataU32` and `avpData.data32`, as a bit pattern.
unfoldable pub data_u32 : AvpData → Option ℕ
data_u32 unset = some 0
data_u32 (num32 n) = some n
data_u32 _ = none

unfoldable pub get_result_code : MsgDecoded → Option ℕ
get_result_code m = elim (avp_list_lookup m.avp_list code_result_code) [
  | none ↦ some result_code_none
  | some a ↦ data_u32 (avp_data a)
]

in_group : AvpData → Option ℕ
in_group (group l) = elim (avp_list_lookup l code_experimental_result_code) [
  | none ↦ some 0
  | some a ↦ data_u32 (avp_data a)
]
in_group _ = none

is_grouped : DataType → Option ℕ → Option ℕ
is_grouped grouped_type r = r
is_grouped _ r = some 0

unfoldable pub get_exp_code : MsgDecoded → Option ℕ
unfolding in_group is_grouped
get_exp_code m = elim (avp_list_lookup m.avp_list code_experimental_result) [
  | none ↦ some 0
  | some a ↦ is_grouped (avp_type a) (in_group (avp_data a))
]

as_session_id : DataType → AvpData → Option (List ℕ)
as_session_id octet_string_type (str s) = some s
as_session_id _ _ = none

sess_id_of : Avps → Option (List ℕ)
unfolding as_session_id
sess_id_of nil = none
sess_id_of (cons a l) =
    if avp_code a == code_session_id then as_session_id (avp_type a) (avp_data a) else none

-- The session id, which has to be the first AVP; `none` is NULL.
unfoldable pub get_sess_id : MsgDecoded → Option (List ℕ)
unfolding sess_id_of
get_sess_id m = sess_id_of m.avp_list
