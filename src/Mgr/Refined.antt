-- ===== src/Mgr/Refined.antt =====
-- The table of common/src/diaMgr.c without one of its nodes, as its users see it.
use diameter.Common.{
  ℕ, ◌≡◌, refl, sym, ap, subst, ◌∙◌, arith, Bool, true, false, Bool-cases, inl, inr, Option, none,
  some, ==_refl, if◌then◌else◌, if_true, if_false, List, [], ◌∷◌,
}
use mathlib.Core.Path.{fun_ext}
use mathlib.Core.Option.{some-injective}
use diameter.Mgr.Table.{Node, same_key, first_node, find_key, delete_node}
use diameter.Mgr.Pending.{Note, Mgr}
use diameter.Mgr.Paired.{Differs, Distinct, Differs-found, same_key_refl, same_key-eq}
use diameter.Mgr.Spec.{update, view, waiting_of}

same_key_sym : (k l : List ℕ) → same_key k l ≡ same_key l k
same_key_sym [] [] = refl
same_key_sym [] (b ∷ l) = refl
same_key_sym (a ∷ k) [] = refl
same_key_sym (a ∷ k) (b ∷ l) = ground (arith, same_key_sym k l)

-- Nodes that differ from a node are not found by its key.
Differs-none : (n : Node) (l : List Node) → Differs n l → find_key n.key l ≡ none
unfolding Differs
Differs-none n [] d = refl
Differs-none n (x ∷ l) d = if_false _ _ (same_key_sym x.key n.key ∙ d.2) ∙ Differs-none n l (d.3)

head-delete :
    (x : Node) (l : List Node) (k : List ℕ)
    → Differs x l
    → find_key k (delete_node x.elem_id (x ∷ l))
      ≡ (if same_key x.key k then none else find_key k (x ∷ l))
unfolding delete_node
head-delete x l k d =
    ap (find_key k) (if_true _ _ (==_refl x.elem_id)) ∙ elim (Bool-cases (same_key x.key k)) [
      | inl s ↦
          subst (λ q. find_key q l ≡ none) (same_key-eq x.key k s) (Differs-none x l d)
          ∙ sym (if_true _ _ s)
      | inr s ↦ sym (if_false _ _ s ∙ if_false _ _ s)
    ]

-- Behind a node that stays.
behind :
    (x n : Node) (l : List Node) (k : List ℕ)
    → same_key x.key n.key ≡ false
    → find_key k (delete_node n.elem_id l) ≡ (if same_key n.key k then none else find_key k l)
    → find_key k (x ∷ delete_node n.elem_id l)
      ≡ (if same_key n.key k then none else find_key k (x ∷ l))
behind x n l k d e = elim (Bool-cases (same_key x.key k)) [
  | inl s ↦
      if_true _ _ s
      ∙ sym (
          if_false _ _ (
            ap (λ q. same_key n.key q) (sym (same_key-eq x.key k s)) ∙ same_key_sym n.key x.key ∙ d)
          ∙ if_true _ _ s)
  | inr s ↦
      if_false _ _ s ∙ e ∙ ap (λ r. if same_key n.key k then none else r) (sym (if_false _ _ s))
]

module _ (p : Node → Bool) where
  Differs-key :
      (n x : Node) (l : List Node)
      → Differs n l
      → first_node p l ≡ some x
      → same_key n.key x.key ≡ false
  unfolding Differs
  Differs-key n x [] d e = absurd (cc)
  Differs-key n x (y ∷ l) d e = elim (Bool-cases (p y)) [
    | inl s ↦ ground arith
    | inr s ↦ Differs-key n x l (d.3) (sym (if_false _ _ s) ∙ e)
  ]

  -- A node that is found in any way is found by its key.
  pub found_by_key :
      (n : Node) (l : List Node) → Distinct l → first_node p l ≡ some n → find_key n.key l ≡ some n
  unfolding Distinct
  found_by_key n [] d e = absurd (cc)
  found_by_key n (x ∷ l) d e = elim (Bool-cases (p x)) [
    | inl s ↦
        subst (λ y. find_key y.key (x ∷ l) ≡ some y) (some-injective _ _ (sym (if_true _ _ s) ∙ e))
          (if_true _ _ (same_key_refl x.key))
    | inr s ↦
        let e' = sym (if_false _ _ s) ∙ e in
        if_false _ _ (Differs-key x n l (d.1) e') ∙ found_by_key n l (d.2) e'
  ]

  -- Without a node, its key finds nothing, and the others find what they found.
  find_key-delete :
      (n : Node) (l : List Node) (k : List ℕ)
      → Distinct l
      → first_node p l ≡ some n
      → find_key k (delete_node n.elem_id l) ≡ (if same_key n.key k then none else find_key k l)
  unfolding Distinct delete_node
  find_key-delete n [] k d e = absurd (cc)
  find_key-delete n (x ∷ l) k d e = elim (Bool-cases (p x)) [
    | inl s ↦
        subst
          (λ y.
            find_key k (delete_node y.elem_id (x ∷ l))
            ≡ (if same_key y.key k then none else find_key k (x ∷ l)))
          (some-injective _ _ (sym (if_true _ _ s) ∙ e)) (head-delete x l k (d.1))
    | inr s ↦
        let e' = sym (if_false _ _ s) ∙ e in
        ap (find_key k) (if_false _ _ ((Differs-found p x n l (d.1) e').0))
        ∙ behind x n l k (Differs-key x n l (d.1) e') (find_key-delete n l k (d.2) e')
  ]

pub waiting_of-if :
    (b : Bool) (a o : Option Node)
    → waiting_of (if b then a else o) ≡ (if b then waiting_of a else waiting_of o)
waiting_of-if true a o = refl
waiting_of-if false a o = refl

-- The view of a table without a node that was in it: the session of the node has no request.
pub view-delete :
    (p : Node → Bool) (n : Node) (s : Mgr) (timers : List (ℕ × ℕ)) (notes : List Note)
    → Distinct s.nodes
    → first_node p s.nodes ≡ some n
    → view (record { nodes = delete_node n.elem_id s.nodes; timers = timers; notes = notes })
      ≡ record { waiting = update n.key none (view s).waiting; notes = notes }
view-delete p n s timers notes d e = λ i. record {
  waiting =
      fun_ext
        (λ k.
          ap waiting_of (find_key-delete p n s.nodes k d e)
          ∙ waiting_of-if (same_key n.key k) none (find_key k s.nodes))
        i;
  notes = notes;
}

pub find_key-same :
    (k : List ℕ) (n : Node) (l : List Node) → find_key k l ≡ some n → same_key n.key k ≡ true
find_key-same k n [] e = absurd (cc)
find_key-same k n (x ∷ l) e = elim (Bool-cases (same_key x.key k)) [
  | inl s ↦ subst (λ y. same_key y.key k ≡ true) (some-injective _ _ (sym (if_true _ _ s) ∙ e)) s
  | inr s ↦ find_key-same k n l (sym (if_false _ _ s) ∙ e)
]
