-- ===== src/Wire/Words.antt =====
-- Machine words as the bytes of a little-endian host, and `htobe32` and `htobe64` there (endian.h).
use diameter.Common.{ℕ, ◌+◌, ◌*◌, ◌/◌, ◌%◌, ◌<◌, ◌≡◌, arith, List, [], ◌∷◌, ◌++◌, ap, ◌∙◌}

abbrev pub u32 : ℕ → ℕ
u32 v = v % 0x1_0000_0000

-- The bytes of the host, lowest first.
unfoldable pub le4 : ℕ → List ℕ
le4 v = v % 256 ∷ v / 256 % 256 ∷ v / 0x1_0000 % 256 ∷ v / 0x100_0000 % 256 ∷ []

-- The bytes of the network, highest first.
unfoldable pub be4 : ℕ → List ℕ
be4 v = v / 0x100_0000 % 256 ∷ v / 0x1_0000 % 256 ∷ v / 256 % 256 ∷ v % 256 ∷ []

unfoldable pub be3 : ℕ → List ℕ
be3 v = v / 0x1_0000 % 256 ∷ v / 256 % 256 ∷ v % 256 ∷ []

-- The four bytes in the other order.
unfoldable pub htobe32 : ℕ → ℕ
htobe32 v =
    v % 256 * 0x100_0000
    + v / 256 % 256 * 0x1_0000
    + v / 0x1_0000 % 256 * 256
    + v / 0x100_0000 % 256

abbrev hi : ℕ → ℕ
hi v = v / 0x1_0000_0000 % 0x1_0000_0000

-- Both halves swapped, and the halves of the word with each other.
unfoldable pub htobe64 : ℕ → ℕ
unfolding htobe32
htobe64 v = htobe32 (u32 v) * 0x1_0000_0000 + htobe32 (hi v)

unfoldable pub le8 : ℕ → List ℕ
unfolding le4
le8 v = le4 (u32 v) ++ le4 (hi v)

unfoldable pub be8 : ℕ → List ℕ
unfolding be4
be8 v = be4 (hi v) ++ be4 (u32 v)

pub cons4 :
    {a b c d a' b' c' d' : ℕ}
    → a ≡ a'
    → b ≡ b'
    → c ≡ c'
    → d ≡ d'
    → (a ∷ b ∷ c ∷ d ∷ []) ≡ (a' ∷ b' ∷ c' ∷ d' ∷ [])
cons4 p q r s i = p i ∷ q i ∷ r i ∷ s i ∷ []

pub htobe32-lt : (v : ℕ) → htobe32 v < 0x1_0000_0000
unfolding htobe32
htobe32-lt v = omega arith

pub le4-htobe32 : (v : ℕ) → le4 (htobe32 v) ≡ be4 v
unfolding le4 be4 htobe32
le4-htobe32 v = cons4 (omega arith) (omega arith) (omega arith) (omega arith)

pub le8-htobe64 : (v : ℕ) → le8 (htobe64 v) ≡ be8 v
unfolding le8 be8 htobe64
le8-htobe64 v =
    ap (λ x. le4 x ++ le4 (hi (htobe64 v))) low
    ∙ ap (λ x. le4 (htobe32 (hi v)) ++ le4 x) high
    ∙ ap (λ x. x ++ le4 (htobe32 (u32 v))) (le4-htobe32 (hi v))
    ∙ ap (λ x. be4 (hi v) ++ x) (le4-htobe32 (u32 v))
  where
    low : u32 (htobe64 v) ≡ htobe32 (hi v)
    low = omega (arith, htobe32-lt (hi v), htobe32-lt (u32 v))

    high : hi (htobe64 v) ≡ htobe32 (u32 v)
    high = omega (arith, htobe32-lt (hi v), htobe32-lt (u32 v))

-- The word that four bytes of the host hold.
unfoldable pub word4 : ℕ → ℕ → ℕ → ℕ → ℕ
word4 a b c d = a + b * 256 + c * 0x1_0000 + d * 0x100_0000

-- A word read from the bytes of the network and swapped is the word.
pub htobe32-word4 :
    (v : ℕ)
    → htobe32 (word4 (v / 0x100_0000 % 256) (v / 0x1_0000 % 256) (v / 256 % 256) (v % 256)) ≡ u32 v
unfolding htobe32 word4
htobe32-word4 v = omega arith
