-- ===== src/Dict/Listed.antt =====
-- The codes of the headers and the rows of the dictionary (common/include/diaBaseAvp.h,
-- diaCx/include/diaCxAvp.h).
use diameter.Common.{
  ℕ, ◌≡◌, ◌≢◌, refl, subst, Bool, true, false, Bool-cases, ◌==◌, ◌&&◌, ◌⊎◌, inl, inr, Option, none,
  some, List, [], ◌∷◌, arith,
}
use mathlib.Core.Logic.{◌↔◌}
use diameter.Msg.{unknown_type}
use diameter.Dict.Rows.{AvpRow, row, row_code, find_row}
use diameter.Dict.Base.{base_rows_1, base_rows_2}
use diameter.Dict.Cx.{cx_rows_1, cx_rows_2, cx_reused_rows}
use diameter.Dict.Info.{base_rows, cx_rows, get_avp_info, is_cx_cmd}
use diameter.Dict.Facts.{base-Passes, cx-Passes, reused-Passes}
use diameter.Dict.BaseCodes.{AvpBaseCode, base_code, base_listed}
use diameter.Dict.CxCodes.{
  AvpCxCode, AvpCxReusedCode, cx_code, reused_code, cx_listed, reused_listed,
}

abbrev pub is_found : Option AvpRow → Bool
is_found none = false
is_found (some r) = true

-- Codes in the order of the rows.
unfoldable in_order {ℓ} : {A : Type ℓ} → (A → ℕ) → List A → List AvpRow → Bool
in_order f [] [] = true
in_order f (a ∷ l) (r ∷ m) = f a == row_code r && in_order f l m
in_order f _ _ = false

find_row-code {ℓ} :
    {A : Type ℓ} (f : A → ℕ) (l : List A) (m : List AvpRow) (c : ℕ)
    → in_order f l m ≡ true
    → is_found (find_row c m) ≡ true
    → (a : A) × (f a ≡ c)
unfolding in_order find_row
find_row-code f [] [] c h e = absurd (cc)
find_row-code f [] (r ∷ m) c h e = absurd (cc)
find_row-code f (a ∷ l) [] c h e = absurd (cc)
find_row-code f (a ∷ l) (row code flag type ∷ m) c h e = elim (Bool-cases (c == code)) [
  | inl s ↦ (a, ground arith)
  | inr s ↦ find_row-code f l m c (ground arith) (ground arith)
]

base_in_order : in_order base_code base_listed base_rows ≡ true
unfolding in_order base_code base_rows_1 base_rows_2
base_in_order = refl

cx_in_order : in_order cx_code cx_listed cx_rows ≡ true
unfolding in_order cx_code cx_rows_1 cx_rows_2
cx_in_order = refl

reused_in_order : in_order reused_code reused_listed cx_reused_rows ≡ true
unfolding in_order reused_code cx_reused_rows
reused_in_order = refl

base-found : (c : AvpBaseCode) → is_found (find_row (base_code c) base_rows) ≡ true
unfolding find_row base_code base_rows_1 base_rows_2
base-found c = ground arith

cx-found : (c : AvpCxCode) → is_found (find_row (cx_code c) cx_rows) ≡ true
unfolding find_row cx_code cx_rows_1 cx_rows_2
cx-found c = ground arith

reused-found : (c : AvpCxReusedCode) → is_found (find_row (reused_code c) cx_reused_rows) ≡ true
unfolding find_row reused_code cx_reused_rows
reused-found c = ground arith

-- A code of the base protocol, of Cx, or one that Cx uses of others.
pub data AvpCode : Type 0 where
  base : AvpBaseCode → AvpCode
  cx : AvpCxCode → AvpCode
  reused : AvpCxReusedCode → AvpCode

unfoldable pub code_of : AvpCode → ℕ
unfolding base_code cx_code reused_code
code_of (base c) = base_code c
code_of (cx c) = cx_code c
code_of (reused c) = reused_code c

-- A row is found in one of the tables.
cx_known :
    (cmd code : ℕ)
    → is_cx_cmd cmd ≡ true
    → ((get_avp_info cmd code).data_type ≢ unknown_type) ↔ (
        (is_found (find_row code base_rows) ≡ true)
        ⊎ ((is_found (find_row code cx_rows) ≡ true)
            ⊎ (is_found (find_row code cx_reused_rows) ≡ true)))
unfolding get_avp_info
cx_known cmd code h = ground (arith, base-Passes code, cx-Passes code, reused-Passes code)

base_known :
    (code : ℕ)
    → ((get_avp_info 0 code).data_type ≢ unknown_type) ↔ (is_found (find_row code base_rows) ≡ true)
unfolding get_avp_info
base_known code = ground (arith, base-Passes code)

-- A Cx command knows the type of an AVP exactly if its code is one of the enumerations of the headers, and the
-- base protocol exactly if its code is one of its own enumeration: no case of the switches is
-- missing, and there is none for another code.
pub get_avp_info-listed :
    (cmd code : ℕ)
    → is_cx_cmd cmd ≡ true
    → (((get_avp_info cmd code).data_type ≢ unknown_type) ↔ ((c : AvpCode) × (code_of c ≡ code)))
      × (((get_avp_info 0 code).data_type ≢ unknown_type)
          ↔ ((c : AvpBaseCode) × (base_code c ≡ code)))
unfolding code_of
get_avp_info-listed cmd code h = (
  (λ k. listed ((cx_known cmd code h).0 k), λ w. (cx_known cmd code h).1 (found w)),
  (
    λ k. find_row-code base_code base_listed base_rows code base_in_order ((base_known code).0 k),
    λ w.
        (base_known code).1
          (subst (λ n. is_found (find_row n base_rows) ≡ true) (w.1) (base-found (w.0))),
  ),
)
  where
    listed :
        (is_found (find_row code base_rows) ≡ true)
          ⊎ ((is_found (find_row code cx_rows) ≡ true)
              ⊎ (is_found (find_row code cx_reused_rows) ≡ true))
        → (c : AvpCode) × (code_of c ≡ code)
    listed (inl e) =
        let w = find_row-code base_code base_listed base_rows code base_in_order e in
        (base (w.0), w.1)
    listed (inr (inl e)) =
        let w = find_row-code cx_code cx_listed cx_rows code cx_in_order e in (cx (w.0), w.1)
    listed (inr (inr e)) =
        let w = find_row-code reused_code reused_listed cx_reused_rows code reused_in_order e in
        (reused (w.0), w.1)

    found :
        (c : AvpCode) × (code_of c ≡ code)
        → (is_found (find_row code base_rows) ≡ true)
          ⊎ ((is_found (find_row code cx_rows) ≡ true)
              ⊎ (is_found (find_row code cx_reused_rows) ≡ true))
    found (base c, e) = inl (subst (λ n. is_found (find_row n base_rows) ≡ true) e (base-found c))
    found (cx c, e) = inr (inl (subst (λ n. is_found (find_row n cx_rows) ≡ true) e (cx-found c)))
    found (reused c, e) =
        inr (inr (subst (λ n. is_found (find_row n cx_reused_rows) ≡ true) e (reused-found c)))
