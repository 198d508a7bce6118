-- ===== src/Common/Bits.antt =====
-- `|` on disjoint bit fields is addition; single flag bits of a byte by table.
use Prim.Native.Nat.{
  ℕ, zero, suc, ◌+◌, ◌*◌, ◌/◌, ◌%◌, ◌≤◌, ◌<◌, max, bit_or, digits, bit_or-bitwise,
}
use mathlib.Core.Path.{◌≡◌, refl, sym, ap, ◌∙◌}
use mathlib.Core.Bool.{Bool, true, ◌&&◌}
use native.Mathlib.Omega.{arith}

-- The recursion that `bit_or` stands for, with any number of digits to go.
abbrev joined : ℕ → ℕ → ℕ → ℕ
joined n a b = digits (λ b. b) max n a b

joined-zero : (n b : ℕ) → joined n 0 b ≡ b
joined-zero zero b = refl
joined-zero (suc n) b = refl

joined-peel : (n a b : ℕ) → joined (suc n) a b ≡ joined n (a / 2) (b / 2) * 2 + max (a % 2) (b % 2)
joined-peel n (suc a) b = refl
joined-peel n zero b = omega (arith, joined-zero n (b / 2))

-- `f` shifted left by `k` digits.
abbrev shl : ℕ → ℕ → ℕ
shl zero f = f
shl (suc k) f = 2 * shl k f

half : (s : ℕ) → 2 * s / 2 ≡ s
half s = omega arith

joined_none : (n f : ℕ) → f ≤ n → joined n f 0 ≡ f
joined_none zero f h = omega arith
joined_none (suc n) f h = omega (arith, joined-peel n f 0, joined_none n (f / 2) (omega arith))

joined-shl : (k n f b : ℕ) → shl k f ≤ n → b < shl k 1 → joined n (shl k f) b ≡ shl k f + b
joined-shl zero n f b h lt = ap (λ c. joined n f c) (omega arith) ∙ joined_none n f h ∙ omega arith
joined-shl (suc k) zero f b h lt = omega arith
joined-shl (suc k) (suc n) f b h lt = omega (
  arith,
  joined-peel n (2 * shl k f) b,
  ap (λ s. joined n s (b / 2)) (half (shl k f)),
  joined-shl k n f (b / 2) (omega arith) (omega arith),
)

shl_mul : (k f : ℕ) → shl k f ≡ f * shl k 1
shl_mul zero f = omega arith
shl_mul (suc k) f = grind (arith, shl_mul k f)

bit_or-shl : (k f b : ℕ) → b < shl k 1 → bit_or (f * shl k 1) b ≡ f * shl k 1 + b
bit_or-shl k f b h =
    ap (λ s. bit_or s b) (sym (shl_mul k f))
    ∙ bit_or-bitwise (shl k f) b
    ∙ joined-shl k (shl k f) f b (omega arith) h
    ∙ ap (λ s. s + b) (shl_mul k f)

-- A byte above a field of 24 bits, and a field of 12 bits above one of 20.
pub bit_or_24 : (f b : ℕ) → b < 0x100_0000 → bit_or (f * 0x100_0000) b ≡ f * 0x100_0000 + b
bit_or_24 f b h = bit_or-shl 24 f b h

pub bit_or_20 : (f b : ℕ) → b < 0x10_0000 → bit_or (f * 0x10_0000) b ≡ f * 0x10_0000 + b
bit_or_20 f b h = bit_or-shl 20 f b h

-- A test that passes for each byte, the highest first.
unfoldable pub each_byte : (ℕ → Bool) → ℕ → Bool
each_byte test zero = true
each_byte test (suc top) = each_byte test top && test top

pub each_byte-true :
    (test : ℕ → Bool) (top byte : ℕ) → byte < top → each_byte test top ≡ true → test byte ≡ true
unfolding each_byte
each_byte-true test zero byte lt passed = absurd (omega arith)
each_byte-true test (suc top) byte lt passed = ground (arith, each_byte-true test top byte)
