-- ===== src/Dict/Agrees.antt =====
-- The type of an AVP without its command, and with it (common/src/diaAvpHelper.c).
use diameter.Common.{
  ℕ, ◌≡◌, ◌≢◌, refl, Bool, true, false, ◌==◌, Option, none, some, List, subst, ==_iff, ◌⊎◌, inl,
  inr, Option-cases, arith,
}
use mathlib.Core.Logic.{◌↔◌}
use diameter.Msg.{unknown_type, grouped_type}
use diameter.Dict.Rows.{
  AvpRow, find_row, all_rows, Passes, find_row-Passes, find_row-row_code, row_code,
}
use diameter.Dict.Base.{base_rows_1, base_rows_2}
use diameter.Dict.Cx.{cx_rows_1, cx_rows_2, cx_reused_rows}
use diameter.Dict.Info.{
  base_rows, cx_rows, get_avp_info, is_cx_cmd, get_avp_data_type, get_avp_encode_data_type, enc_str,
  enc_group,
}
use diameter.Dict.Facts.{is_string_type, encode_type_agrees, base-Passes, cx-Passes, reused-Passes}

abbrev is_none : Option AvpRow → Bool
is_none none = true
is_none (some r) = false

-- No code of the base protocol has a row for Cx.
cx_apart : all_rows (λ r. is_none (find_row (row_code r) cx_rows)) base_rows ≡ true
unfolding all_rows find_row base_rows_1 base_rows_2 cx_rows_1 cx_rows_2
cx_apart = refl

reused_apart : all_rows (λ r. is_none (find_row (row_code r) cx_reused_rows)) base_rows ≡ true
unfolding all_rows find_row base_rows_1 base_rows_2 cx_reused_rows
reused_apart = refl

is_none-none : (o : Option AvpRow) → is_none o ≡ true → o ≡ none
is_none-none none h = refl
is_none-none (some r) h = absurd (cc)

-- Rows under the codes that the test looks at.
apart_from :
    (l : List AvpRow) (c : ℕ) (r : AvpRow)
    → all_rows (λ q. is_none (find_row (row_code q) l)) base_rows ≡ true
    → find_row c base_rows ≡ some r
    → find_row c l ≡ none
apart_from l c r h e =
    let p =
      subst (Passes (λ q. is_none (find_row (row_code q) l))) e (find_row-Passes _ c base_rows h) in
    let q = subst (Passes (λ q. row_code q == c)) e (find_row-row_code c base_rows) in
    is_none-none _ (subst (λ n. is_none (find_row n l) ≡ true) ((==_iff (row_code r) c).0 q) p)

only_base :
    (c : ℕ)
    → (find_row c base_rows ≡ none)
      ⊎ ((find_row c cx_rows ≡ none) × (find_row c cx_reused_rows ≡ none))
only_base c = elim (Option-cases (find_row c base_rows)) [
  | inl e ↦ inl e
  | inr (r, e) ↦
      inr (apart_from cx_rows c r cx_apart e, apart_from cx_reused_rows c r reused_apart e)
]

data_type-cmd :
    (cmd code : ℕ)
    → (is_cx_cmd cmd ≡ true) ⊎ ((cmd ≡ 0) × ((get_avp_info 0 code).data_type ≢ unknown_type))
    → get_avp_data_type code ≡ (get_avp_info cmd code).data_type
unfolding get_avp_info get_avp_data_type
data_type-cmd cmd code h =
    ground (arith, only_base code, base-Passes code, cx-Passes code, reused-Passes code)

encode_agrees :
    (cmd code : ℕ)
    → get_avp_data_type code ≡ (get_avp_info cmd code).data_type
    → ((get_avp_encode_data_type code ≡ enc_group)
        ↔ ((get_avp_info cmd code).data_type ≡ grouped_type))
      × ((get_avp_encode_data_type code ≡ enc_str)
          ↔ (is_string_type (get_avp_info cmd code).data_type ≡ true))
encode_agrees cmd code e =
    subst
      (λ t.
        ((get_avp_encode_data_type code ≡ enc_group) ↔ (t ≡ grouped_type))
        × ((get_avp_encode_data_type code ≡ enc_str) ↔ (is_string_type t ≡ true)))
      e (encode_type_agrees code)

data_type-known :
    (cmd code : ℕ)
    → (get_avp_info cmd code).data_type ≢ unknown_type
    → get_avp_data_type code ≡ (get_avp_info cmd code).data_type
unfolding get_avp_info get_avp_data_type
data_type-known cmd code h =
    ground (arith, only_base code, base-Passes code, cx-Passes code, reused-Passes code)

-- The code that frees an AVP knows no command, and still takes it for a group exactly when the encoder of
-- the command wrote a group, and for a string exactly when it wrote one of the five string types. The
-- command is one of Cx, or it is the base protocol, which knows the AVP.
pub encode_data_type-cmd :
    (cmd code : ℕ)
    → (is_cx_cmd cmd ≡ true) ⊎ ((cmd ≡ 0) × ((get_avp_info 0 code).data_type ≢ unknown_type))
    → ((get_avp_encode_data_type code ≡ enc_group)
        ↔ ((get_avp_info cmd code).data_type ≡ grouped_type))
      × ((get_avp_encode_data_type code ≡ enc_str)
          ↔ (is_string_type (get_avp_info cmd code).data_type ≡ true))
encode_data_type-cmd cmd code h = encode_agrees cmd code (data_type-cmd cmd code h)

-- For any command that knows the AVP.
pub encode_data_type-known :
    (cmd code : ℕ)
    → (get_avp_info cmd code).data_type ≢ unknown_type
    → ((get_avp_encode_data_type code ≡ enc_group)
        ↔ ((get_avp_info cmd code).data_type ≡ grouped_type))
      × ((get_avp_encode_data_type code ≡ enc_str)
          ↔ (is_string_type (get_avp_info cmd code).data_type ≡ true))
encode_data_type-known cmd code h = encode_agrees cmd code (data_type-known cmd code h)
