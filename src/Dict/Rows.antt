-- ===== src/Dict/Rows.antt =====
-- A row of the dictionary is a case of a switch over the AVP code.
use diameter.Common.{
  ℕ, ◌≡◌, refl, Bool, true, ◌&&◌, Option, none, some, List, [], ◌∷◌, ◌++◌, arith, ◌==◌,
  if◌then◌else◌,
}
use diameter.Msg.{DataType}

pub data AvpRow : Type 0 where
  row : (code flag : ℕ) → DataType → AvpRow

abbrev pub row_code : AvpRow → ℕ
row_code (row code flag type) = code

abbrev pub row_flag : AvpRow → ℕ
row_flag (row code flag type) = flag

abbrev pub row_type : AvpRow → DataType
row_type (row code flag type) = type

-- The case that the switch takes; `none` is its default.
unfoldable pub find_row : ℕ → List AvpRow → Option AvpRow
find_row c [] = none
find_row c (row code flag type ∷ l) = if c == code then some (row code flag type) else find_row c l

abbrev pub or_else {ℓ} : {A : Type ℓ} → Option A → Option A → Option A
or_else none b = b
or_else (some a) b = some a

pub find_row-append :
    (c : ℕ) (k l : List AvpRow) → find_row c (k ++ l) ≡ or_else (find_row c k) (find_row c l)
unfolding find_row
find_row-append c [] l = refl
find_row-append c (row code flag type ∷ k) l = ground (arith, find_row-append c k l)

-- A test that all rows pass.
unfoldable pub all_rows : (AvpRow → Bool) → List AvpRow → Bool
all_rows p [] = true
all_rows p (r ∷ l) = p r && all_rows p l

abbrev pub Passes : (AvpRow → Bool) → Option AvpRow → Type 0
Passes p none = Unit {0}
Passes p (some r) = p r ≡ true

pub find_row-Passes :
    (p : AvpRow → Bool) (c : ℕ) (l : List AvpRow) → all_rows p l ≡ true → Passes p (find_row c l)
unfolding find_row all_rows
find_row-Passes p c [] h = tt
find_row-Passes p c (row code flag type ∷ l) h = ground (arith, find_row-Passes p c l)

-- A row that is found has the code.
pub find_row-row_code : (c : ℕ) (l : List AvpRow) → Passes (λ r. row_code r == c) (find_row c l)
unfolding find_row
find_row-row_code c [] = tt
find_row-row_code c (row code flag type ∷ l) = ground (arith, find_row-row_code c l)
