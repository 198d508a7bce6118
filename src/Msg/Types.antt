-- ===== src/Msg/Types.antt =====
-- The types of common/include/diaMsg.h, diaAvp.h and diaBaseAvp.h that the components share.
use diameter.Common.{ℕ, List}

pub data OsStatus : Type 0 where
  status_ok null_pointer invalid_value system_failure network_failure event_failure : OsStatus

-- `diaDataType_e`.
pub data DataType : Type 0 where
  unknown_type enum_type int32_type int64_type uint32_type uint64_type : DataType
  float32_type float64_type octet_string_type utf8_string_type ip_filter_type : DataType
  time_type diam_iden_type grouped_type : DataType

pub DataType-discrete : Discrete DataType
DataType-discrete = hlevel

-- `diaAvp_t`. The union of `diaAvpData_t` with the member that the decoder has written: nothing
-- (`unset`: the memory comes zeroed), a 32-bit or 64-bit number, a string or the list of a group.
mutual
  pub data Avp : Type 0 where
    avp : (code flag vendor_id : ℕ) → DataType → AvpData → Avp

  pub data AvpData : Type 0 where
    unset : AvpData
    num32 num64 : ℕ → AvpData
    str : List ℕ → AvpData
    group : Avps → AvpData

  pub data Avps : Type 0 where
    nil : Avps
    cons : Avp → Avps → Avps

abbrev pub avp_code : Avp → ℕ
avp_code (avp code flag vendor_id type value) = code

abbrev pub avp_type : Avp → DataType
avp_type (avp code flag vendor_id type value) = type

abbrev pub avp_data : Avp → AvpData
avp_data (avp code flag vendor_id type value) = value

-- `diaMsgDecoded_t`.
pub record MsgDecoded : Type 0 where
  pub cmd_code : ℕ
  pub cmd_flag : ℕ
  pub len : ℕ
  pub app_id : ℕ
  pub h2h_id : ℕ
  pub e2e_id : ℕ
  pub avp_list : Avps

-- `diaCmdHdrInfo_t`.
pub record CmdHdrInfo : Type 0 where
  pub h2h_id : ℕ
  pub e2e_id : ℕ

abbrev pub cmd_code_base : ℕ
cmd_code_base = 0

abbrev pub cmd_code_cer : ℕ
cmd_code_cer = 257

abbrev pub cmd_code_dwr : ℕ
cmd_code_dwr = 280

abbrev pub cmd_code_dpr : ℕ
cmd_code_dpr = 282

abbrev pub result_code_none : ℕ
result_code_none = 0

abbrev pub result_code_diameter_success : ℕ
result_code_diameter_success = 2001

abbrev pub code_result_code : ℕ
code_result_code = 268

abbrev pub code_experimental_result : ℕ
code_experimental_result = 297

abbrev pub code_experimental_result_code : ℕ
code_experimental_result_code = 298

abbrev pub code_orig_host : ℕ
code_orig_host = 264

abbrev pub code_orig_realm : ℕ
code_orig_realm = 296

abbrev pub code_session_id : ℕ
code_session_id = 263
