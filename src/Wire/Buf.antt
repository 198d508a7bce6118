-- ===== src/Wire/Buf.antt =====
-- `osMBuf_t` (osMBuf.h, which this repository does not hold): its fields, and its operations as
-- parameters with their laws.
use diameter.Common.{
  Bool-cases, inl, inr, true, false, ℕ, suc, ◌+◌, ◌%◌, ◌≤◌, ◌<◌, ◌≡◌, refl, sym, ◌∙◌, ap, arith,
  List, [], ◌∷◌, ◌++◌, length, length-append, replicate, ◌==◌, if◌then◌else◌,
}
use diameter.Wire.Words.{le4, le8}

-- The bytes at `buf`, the position, the end of the content and the size of the allocation.
pub record MBuf : Type 0 where
  pub mem : ℕ → ℕ
  pub pos : ℕ
  pub end : ℕ
  pub size : ℕ

-- The memory with the bytes of a list at a position.
unfoldable pub put : (ℕ → ℕ) → ℕ → List ℕ → ℕ → ℕ
put m p [] a = m a
put m p (x ∷ l) a = if a == p then x else put m (suc p) l a

pub put-ext : (m n : ℕ → ℕ) (p : ℕ) (l : List ℕ) (a : ℕ) → m a ≡ n a → put m p l a ≡ put n p l a
unfolding put
put-ext m n p [] a h = h
put-ext m n p (x ∷ l) a h = ground (arith, put-ext m n (suc p) l a h)

pub put-outside : (m : ℕ → ℕ) (p : ℕ) (l : List ℕ) (a : ℕ) → a < p → put m p l a ≡ m a
unfolding put
put-outside m p [] a h = refl
put-outside m p (x ∷ l) a h = ground (arith, put-outside m (suc p) l a)

pub put-first : (m : ℕ → ℕ) (p x : ℕ) (l : List ℕ) (a : ℕ) → (a == p) ≡ true → put m p (x ∷ l) a ≡ x
unfolding put
put-first m p x l a h = ap (λ b. if b then x else put m (suc p) l a) h

put-later :
    (m : ℕ → ℕ) (p x : ℕ) (l : List ℕ) (a : ℕ)
    → (a == p) ≡ false
    → put m p (x ∷ l) a ≡ put m (suc p) l a
unfolding put
put-later m p x l a h = ap (λ b. if b then x else put m (suc p) l a) h

pub put-append :
    (m : ℕ → ℕ) (p : ℕ) (k l : List ℕ) (a : ℕ)
    → put (put m p k) (p + length k) l a ≡ put m p (k ++ l) a
unfolding put
put-append m p [] l a = ap (λ q. put m q l a) (omega arith)
put-append m p (x ∷ k) l a = elim (Bool-cases (a == p)) [
  | inl e ↦
      put-outside (put m p (x ∷ k)) (p + suc (length k)) l a (ground arith)
      ∙ put-first m p x k a e
      ∙ sym (put-first m p x (k ++ l) a e)
  | inr e ↦
      put-ext (put m p (x ∷ k)) (put m (suc p) k) (p + suc (length k)) l a (put-later m p x k a e)
      ∙ ap (λ q. put (put m (suc p) k) q l a) (omega arith)
      ∙ put-append m (suc p) k l a
      ∙ sym (put-later m p x (k ++ l) a e)
]

-- The head of a list may be put after its tail.
pub put-before :
    (m : ℕ → ℕ) (p : ℕ) (k l : List ℕ) (a : ℕ)
    → put (put m (p + length k) l) p k a ≡ put m p (k ++ l) a
unfolding put
put-before m p [] l a = ap (λ q. put m q l a) (omega arith)
put-before m p (x ∷ k) l a = elim (Bool-cases (a == p)) [
  | inl e ↦ put-first (put m (p + suc (length k)) l) p x k a e ∙ sym (put-first m p x (k ++ l) a e)
  | inr e ↦
      put-later (put m (p + suc (length k)) l) p x k a e
      ∙ put-ext (put m (p + suc (length k)) l) (put m (suc p + length k) l) (suc p) k a
          (ap (λ q. put m q l a) (omega arith))
      ∙ put-before m (suc p) k l a
      ∙ sym (put-later m p x (k ++ l) a e)
]

-- What a write of bytes at the position does.
pub record Wrote (b : MBuf) (l : List ℕ) (c : MBuf) : Type 0 where
  pub mem_at : (a : ℕ) → c.mem a ≡ put b.mem b.pos l a
  pub pos_at : c.pos ≡ b.pos + length l
  pub size_at : c.size ≡ b.size

pub Wrote-append : {b c d : MBuf} {k l : List ℕ} → Wrote b k c → Wrote c l d → Wrote b (k ++ l) d
Wrote-append {b} {c} {d} {k} {l} u v = record {
  mem_at = λ a.
      v.mem_at a
      ∙ ap (λ q. put c.mem q l a) u.pos_at
      ∙ put-ext c.mem (put b.mem b.pos k) (b.pos + length k) l a (u.mem_at a)
      ∙ put-append b.mem b.pos k l a;
  pos_at = omega (arith, u.pos_at, v.pos_at, length-append k l);
  size_at = v.size_at ∙ u.size_at;
}

pub Wrote-nothing : (b : MBuf) → Wrote b [] b
unfolding put
Wrote-nothing b = record { mem_at = λ a. refl; pos_at = omega arith; size_at = refl }

pub record BufOps : Type 0 where
  -- `osMBuf_writeU32`, `osMBuf_writeU64`, `osMBuf_writePL` and `osMBuf_setZero`, all with `true`:
  -- they advance the position.
  pub write_u32 : MBuf → ℕ → MBuf
  pub write_u64 : MBuf → ℕ → MBuf
  pub write_pl : MBuf → List ℕ → MBuf
  pub set_zero : MBuf → ℕ → MBuf
  -- `osMBuf_allocRef2`: the content of some bytes from a position on.
  pub alloc_ref2 : MBuf → ℕ → ℕ → MBuf

-- A buffer with the content of `n` bytes of another one, from a multiple of four on.
pub record Refers (b : MBuf) (p n : ℕ) (c : MBuf) : Type 0 where
  pub same : (k : ℕ) → k < n → c.mem (c.pos + k) ≡ b.mem (p + k)
  pub aligned : c.pos % 4 ≡ 0
  pub end_at : c.end ≡ c.pos + n
  pub fits : c.pos + n ≤ c.size

-- What the code relies on, where the bytes fit the allocation.
pub record BufLaws (o : BufOps) : Type 0 where
  pub write_u32-Wrote : (b : MBuf) (v : ℕ) → b.pos + 4 ≤ b.size → Wrote b (le4 v) (o.write_u32 b v)
  pub write_u64-Wrote : (b : MBuf) (v : ℕ) → b.pos + 8 ≤ b.size → Wrote b (le8 v) (o.write_u64 b v)
  pub write_pl-Wrote :
      (b : MBuf) (l : List ℕ) → b.pos + length l ≤ b.size → Wrote b l (o.write_pl b l)
  pub set_zero-Wrote :
      (b : MBuf) (n : ℕ) → b.pos + n ≤ b.size → Wrote b (replicate n 0) (o.set_zero b n)
  pub alloc_ref2-Refers :
      (b : MBuf) (p n : ℕ) → p % 4 ≡ 0 → p + n ≤ b.size → Refers b p n (o.alloc_ref2 b p n)
