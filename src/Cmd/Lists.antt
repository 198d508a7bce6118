-- ===== src/Cmd/Lists.antt =====
-- `diaListFindAvp`, `diaOptListFindAndRemoveAvp`, `diaOptListGetNextAndRemoveAvp`
-- (common/src/diaAvpHelper.c) and the loops over them. A null list is the empty one.
use diameter.Common.{
  ℕ, zero, suc, ◌<◌, ◌≡◌, refl, sym, ap, ◌∙◌, arith, Bool, true, false, Bool-cases, inl, inr,
  Option, none, some, ◌==◌, if◌then◌else◌, if_true, if_false, List, [], ◌∷◌, ◌++◌, length,
  append-nil, append_assoc,
}
use mathlib.Core.Path.{fun_ext}
use diameter.Wire.Encode.{enc_avp}
use diameter.Wire.Message.{MsgAvp, plain, by_func}

-- `avpCode` of an element.
abbrev pub msg_avp_code : MsgAvp → ℕ
msg_avp_code (plain (enc_avp code v)) = code
msg_avp_code (by_func code f) = code

abbrev pub has_code : ℕ → MsgAvp → Bool
has_code code a = msg_avp_code a == code

-- `osList_deleteElement` of osList.h, which this repository does not hold: the data of the element that
-- is taken out, or null, and the list.
pub record ListOps : Type 0 where
  pub delete_element : (MsgAvp → Bool) → List MsgAvp → Option MsgAvp × List MsgAvp

abbrev pub put_back {ℓ} : {A : Type ℓ} → A → Option A × List A → Option A × List A
put_back x (found, l) = (found, x ∷ l)

-- What the code relies on: the first element that passes the test is taken out, the others keep their
-- order.
pub record ListLaws (d : ListOps) : Type 0 where
  pub delete_nil : (p : MsgAvp → Bool) → d.delete_element p [] ≡ (none, [])
  pub delete_hit :
      (p : MsgAvp → Bool) (x : MsgAvp) (l : List MsgAvp)
      → p x ≡ true
      → d.delete_element p (x ∷ l) ≡ (some x, l)
  pub delete_miss :
      (p : MsgAvp → Bool) (x : MsgAvp) (l : List MsgAvp)
      → p x ≡ false
      → d.delete_element p (x ∷ l) ≡ put_back x (d.delete_element p l)

unfoldable pub find_and_remove : ListOps → ℕ → List MsgAvp → Option MsgAvp × List MsgAvp
find_and_remove d code l = d.delete_element (has_code code) l

unfoldable pub get_next_and_remove : List MsgAvp → Option MsgAvp × List MsgAvp
get_next_and_remove [] = (none, [])
get_next_and_remove (x ∷ l) = (some x, l)

abbrev pub go_on :
    List MsgAvp
    → (List MsgAvp → List MsgAvp → Option (List MsgAvp × List MsgAvp))
    → Option MsgAvp × List MsgAvp
    → Option (List MsgAvp × List MsgAvp)
go_on out again (none, l) = some (out, l)
go_on out again (some a, l) = again (out ++ (a ∷ [])) l

-- `while(1)`: an element is taken out of the second list and appended to the first, until there is
-- none. `none` is fuel that ran out.
unfoldable pub move_loop :
    ℕ
    → (List MsgAvp → Option MsgAvp × List MsgAvp)
    → List MsgAvp
    → List MsgAvp
    → Option (List MsgAvp × List MsgAvp)
move_loop zero next out l = none
move_loop (suc n) next out l = go_on out (move_loop n next) (next l)

-- The elements that pass a test, and the others, in their order.
abbrev pub matching : (MsgAvp → Bool) → List MsgAvp → List MsgAvp
matching p [] = []
matching p (x ∷ l) = if p x then x ∷ matching p l else matching p l

abbrev pub others : (MsgAvp → Bool) → List MsgAvp → List MsgAvp
others p [] = []
others p (x ∷ l) = if p x then others p l else x ∷ others p l

-- The first element that passes a test, and the list without it.
abbrev pub remove_first : (MsgAvp → Bool) → List MsgAvp → Option MsgAvp × List MsgAvp
remove_first p [] = (none, [])
remove_first p (x ∷ l) = if p x then (some x, l) else put_back x (remove_first p l)

pub delete_element-first :
    (d : ListOps) (laws : ListLaws d) (p : MsgAvp → Bool) (l : List MsgAvp)
    → d.delete_element p l ≡ remove_first p l
delete_element-first d laws p [] = laws.delete_nil p
delete_element-first d laws p (x ∷ l) = elim (Bool-cases (p x)) [
  | inl e ↦ laws.delete_hit p x l e ∙ sym (if_true (some x, l) (put_back x (remove_first p l)) e)
  | inr e ↦
      laws.delete_miss p x l e
      ∙ ap (put_back x) (delete_element-first d laws p l)
      ∙ sym (if_false (some x, l) (put_back x (remove_first p l)) e)
]

-- The operation that the laws describe, and that they determine.
abbrev pub first_ops : ListOps
first_ops = record { delete_element = remove_first }

pub first_ops-ListLaws : ListLaws first_ops
first_ops-ListLaws = record {
  delete_nil = λ p. refl;
  delete_hit = λ p x l e. if_true (some x, l) (put_back x (remove_first p l)) e;
  delete_miss = λ p x l e. if_false (some x, l) (put_back x (remove_first p l)) e;
}

pub ops-first : (d : ListOps) → ListLaws d → d ≡ first_ops
ops-first d laws =
    ap (λ f. record { delete_element = f })
      (fun_ext λ p. fun_ext λ l. delete_element-first d laws p l)

-- What is taken out, and how the two parts of the list change.
Taken : (MsgAvp → Bool) → List MsgAvp → Option MsgAvp × List MsgAvp → Type 0
Taken p l (none, l') = (matching p l ≡ []) × (others p l ≡ l')
Taken p l (some a, l') =
    (matching p l ≡ a ∷ matching p l') × (others p l ≡ others p l') × (length l ≡ suc (length l'))

remove_first-Taken : (p : MsgAvp → Bool) (l : List MsgAvp) → Taken p l (remove_first p l)
unfolding Taken
remove_first-Taken p [] = (refl, refl)
remove_first-Taken p (x ∷ l) = keep (p x) refl (remove_first p l) (remove_first-Taken p l)
  where
    keep :
        (b : Bool)
        → p x ≡ b
        → (r : Option MsgAvp × List MsgAvp) → Taken p l r
        → Taken p (x ∷ l) (if b then (some x, l) else put_back x r)
    keep true e r t = (if_true _ _ e, if_true _ _ e, refl)
    keep false e (none, l') t = (if_false _ _ e ∙ t.0, if_false _ _ e ∙ ap (λ k. x ∷ k) (t.1))
    keep false e (some a, l') t = (
      if_false _ _ e ∙ t.0 ∙ ap (λ k. a ∷ k) (sym (if_false (x ∷ matching p l') (matching p l') e)),
      if_false _ _ e ∙ ap (λ k. x ∷ k) (t.1) ∙ sym (if_false (others p l') (x ∷ others p l') e),
      omega (arith, t.2),
    )

-- With more fuel than the list is long the loop ends, and moves all elements that pass the test.
pub move_loop-matching :
    (n : ℕ) (p : MsgAvp → Bool) (out l : List MsgAvp)
    → length l < n
    → move_loop n (remove_first p) out l ≡ some (out ++ matching p l, others p l)
unfolding move_loop Taken
move_loop-matching zero p out l h = absurd (omega arith)
move_loop-matching (suc n) p out l h =
    by_first (λ k l' lt. move_loop-matching n p k l' lt) (remove_first p l) (remove_first-Taken p l)
  where
    by_first :
        ((k l' : List MsgAvp)
          → length l' < n
          → move_loop n (remove_first p) k l' ≡ some (k ++ matching p l', others p l'))
        → (r : Option MsgAvp × List MsgAvp) → Taken p l r
        → go_on out (move_loop n (remove_first p)) r ≡ some (out ++ matching p l, others p l)
    by_first again (none, l') t =
        λ i. some ((sym (append-nil out) ∙ ap (λ k. out ++ k) (sym (t.0))) i, sym (t.1) i)
    by_first again (some a, l') t = again (out ++ (a ∷ [])) l' (omega (arith, t.2)) ∙ λ i. some (
      (append_assoc out (a ∷ []) (matching p l') ∙ ap (λ k. out ++ k) (sym (t.0))) i,
      sym (t.1) i,
    )
