-- ===== src/Dict/Info.antt =====
-- `diaGetAvpInfo`, `diaGetAvpDataType` and `diaGetAvpEncodeDataType` (common/src/diaAvpHelper.c).
use diameter.Common.{ℕ, Bool, ◌||◌, Option, none, some, List, ◌++◌, ◌==◌, if◌then◌else◌}
use diameter.Msg.{
  DataType, unknown_type, enum_type, int32_type, int64_type, grouped_type, octet_string_type,
  utf8_string_type, ip_filter_type, time_type, diam_iden_type, cmd_code_base,
}
use diameter.Dict.Rows.{AvpRow, row, find_row}
use diameter.Dict.Base.{base_rows_1, base_rows_2}
use diameter.Dict.Cx.{cx_rows_1, cx_rows_2, cx_reused_rows}

abbrev pub vendor_3gpp : ℕ
vendor_3gpp = 10415

-- What `diaGetAvpInfo` returns and writes: the type, `*avpFlag` and `*vendorId`.
pub record AvpInfo : Type 0 where
  pub data_type : DataType
  pub flag : ℕ
  pub vendor_id : ℕ

abbrev pub base_rows : List AvpRow
unfolding base_rows_1 base_rows_2
base_rows = base_rows_1 ++ base_rows_2

abbrev pub cx_rows : List AvpRow
unfolding cx_rows_1 cx_rows_2
cx_rows = cx_rows_1 ++ cx_rows_2

-- The row that was found, the flags and the vendor of the default.
abbrev pub info_of : Option AvpRow → ℕ → ℕ → AvpInfo
info_of none flag vendor = record { data_type = unknown_type; flag = flag; vendor_id = vendor }
info_of (some (row code flag type)) _ vendor = record {
  data_type = type;
  flag = flag;
  vendor_id = vendor;
}

-- `diaBaseGetAvpInfo` does not write the vendor: it stays what it was.
unfoldable pub base_get_avp_info : ℕ → ℕ → AvpInfo
base_get_avp_info code vendor = info_of (find_row code base_rows) 0x40 vendor

unfoldable pub cx_get_avp_info : ℕ → AvpInfo
cx_get_avp_info code = info_of (find_row code cx_rows) 0 vendor_3gpp

unfoldable pub cx_get_reused_avp_info : ℕ → AvpInfo
cx_get_reused_avp_info code = info_of (find_row code cx_reused_rows) 0 vendor_3gpp

-- LIR, MAR, SAR, UAR, PPR and RTR.
abbrev pub is_cx_cmd : ℕ → Bool
is_cx_cmd c = c == 302 || c == 303 || c == 301 || c == 300 || c == 305 || c == 304

-- Goes on with `next` where the type is unknown.
abbrev pub if_unknown : AvpInfo → AvpInfo → AvpInfo
if_unknown i next = or_next i.data_type
  where
    or_next : DataType → AvpInfo
    or_next unknown_type = next
    or_next _ = i

-- For the Sh commands and any other command the base protocol is left.
unfoldable pub get_avp_info : ℕ → ℕ → AvpInfo
unfolding base_get_avp_info cx_get_avp_info cx_get_reused_avp_info
get_avp_info cmd code =
    if cmd == cmd_code_base
    then if_unknown (base_get_avp_info code 0) (base_get_avp_info code 0)
    else if is_cx_cmd cmd
    then if_unknown (if_unknown (cx_get_avp_info code) (cx_get_reused_avp_info code))
        (base_get_avp_info code vendor_3gpp)
    else base_get_avp_info code 0

-- The type of a code when no command is known.
unfoldable pub get_avp_data_type : ℕ → DataType
unfolding base_get_avp_info cx_get_avp_info cx_get_reused_avp_info
get_avp_data_type code =
    (if_unknown (base_get_avp_info code 0)
      (if_unknown (cx_get_avp_info code) (cx_get_reused_avp_info code))).data_type

-- `diaAvpEncodeDataType_e`.
pub data EncodeDataType : Type 0 where
  enc_int32 enc_int64 enc_u32 enc_u64 enc_str enc_group enc_func_arg enc_unknown : EncodeDataType

-- The switch of `diaGetAvpEncodeDataType` compares the values of `diaDataType_e` with constants of
-- `diaAvpEncodeDataType_e` in four cases, and there returns values of `diaDataType_e` (2, 3, 4, 5),
-- here named as the values of the result type that they are. `case …_INT32` (0) is DATA_TYPE_UNKNOWN,
-- `…_INT64` (1) is ENUM, `…_U32` (2) is INT32 and `…_U64` (3) is INT64.
unfoldable pub encode_data_type_of : DataType → EncodeDataType
encode_data_type_of unknown_type = enc_u32
encode_data_type_of enum_type = enc_u64
encode_data_type_of int32_type = enc_str
encode_data_type_of int64_type = enc_group
encode_data_type_of grouped_type = enc_group
encode_data_type_of octet_string_type = enc_str
encode_data_type_of utf8_string_type = enc_str
encode_data_type_of ip_filter_type = enc_str
encode_data_type_of time_type = enc_str
encode_data_type_of diam_iden_type = enc_str
encode_data_type_of _ = enc_unknown

unfoldable pub get_avp_encode_data_type : ℕ → EncodeDataType
unfolding encode_data_type_of
get_avp_encode_data_type code = encode_data_type_of (get_avp_data_type code)
