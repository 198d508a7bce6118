-- ===== src/Dict/Facts.antt =====
-- What the tables of the dictionary give to the code that reads them.
use diameter.Common.{ℕ, ◌≡◌, refl, ◌<◌, ltb, Bool, true, false, ◌&&◌, some, ◌++◌, arith}
use mathlib.Core.Logic.{◌↔◌}
use diameter.Msg.{
  DataType, unknown_type, int32_type, int64_type, float32_type, float64_type, grouped_type,
  octet_string_type, utf8_string_type, ip_filter_type, time_type, diam_iden_type,
}
use diameter.Dict.Rows.{
  AvpRow, row_flag, row_type, find_row, find_row-append, all_rows, Passes, find_row-Passes,
}
use diameter.Dict.Base.{base_rows_1, base_rows_2}
use diameter.Dict.Cx.{cx_rows_1, cx_rows_2, cx_reused_rows}
use diameter.Dict.Info.{
  base_rows, cx_rows, get_avp_info, is_cx_cmd, get_avp_data_type, get_avp_encode_data_type, enc_str,
  enc_group, vendor_3gpp,
}

-- The types that a row names are known, no signed or floating number, and its flags fit a byte.
abbrev pub is_listed_type : DataType → Bool
is_listed_type unknown_type = false
is_listed_type int32_type = false
is_listed_type int64_type = false
is_listed_type float32_type = false
is_listed_type float64_type = false
is_listed_type _ = true

abbrev pub is_sound_row : AvpRow → Bool
is_sound_row r = is_listed_type (row_type r) && ltb (row_flag r) 256

base_sound : all_rows is_sound_row base_rows ≡ true
unfolding all_rows base_rows_1 base_rows_2
base_sound = refl

cx_sound : all_rows is_sound_row cx_rows ≡ true
unfolding all_rows cx_rows_1 cx_rows_2
cx_sound = refl

reused_sound : all_rows is_sound_row cx_reused_rows ≡ true
unfolding all_rows cx_reused_rows
reused_sound = refl

pub base-Passes : (c : ℕ) → Passes is_sound_row (find_row c base_rows)
base-Passes c = find_row-Passes is_sound_row c base_rows base_sound

pub cx-Passes : (c : ℕ) → Passes is_sound_row (find_row c cx_rows)
cx-Passes c = find_row-Passes is_sound_row c cx_rows cx_sound

pub reused-Passes : (c : ℕ) → Passes is_sound_row (find_row c cx_reused_rows)
reused-Passes c = find_row-Passes is_sound_row c cx_reused_rows reused_sound

abbrev pub is_string_type : DataType → Bool
is_string_type octet_string_type = true
is_string_type utf8_string_type = true
is_string_type ip_filter_type = true
is_string_type time_type = true
is_string_type diam_iden_type = true
is_string_type _ = false

-- The flags that the encoder writes fit the byte that it writes them to, for every command and code.
pub flag-lt : (cmd code : ℕ) → (get_avp_info cmd code).flag < 256
unfolding get_avp_info
flag-lt cmd code = ground (arith, base-Passes code, cx-Passes code, reused-Passes code)

-- The code that frees an AVP takes it for a group exactly when the dictionary types it as grouped,
-- and for a string exactly when the dictionary gives it one of the five string types.
pub encode_type_agrees :
    (code : ℕ)
    → ((get_avp_encode_data_type code ≡ enc_group) ↔ (get_avp_data_type code ≡ grouped_type))
      × ((get_avp_encode_data_type code ≡ enc_str)
          ↔ (is_string_type (get_avp_data_type code) ≡ true))
unfolding get_avp_encode_data_type get_avp_data_type
encode_type_agrees code = ground (arith, base-Passes code, cx-Passes code, reused-Passes code)

-- For a Cx command an AVP is the first that has its code in the Cx table, then the table of reused
-- AVPs, then the base table: its type and its flags are those of that row, its vendor is 3GPP.
pub cx_precedence :
    (cmd code : ℕ) (r : AvpRow)
    → is_cx_cmd cmd ≡ true
    → find_row code (cx_rows ++ (cx_reused_rows ++ base_rows)) ≡ some r
    → get_avp_info cmd code
      ≡ record { data_type = row_type r; flag = row_flag r; vendor_id = vendor_3gpp }
unfolding get_avp_info
cx_precedence cmd code r c h = ground (
  arith,
  find_row-append code cx_rows (cx_reused_rows ++ base_rows),
  find_row-append code cx_reused_rows base_rows,
  base-Passes code,
  cx-Passes code,
  reused-Passes code,
)
