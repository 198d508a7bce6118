-- ===== src/Mgr/Paired.antt =====
-- The table of the requests and the timers belong together (common/src/diaMgr.c).
use diameter.Common.{
  ℕ, ◌≡◌, refl, sym, ◌∙◌, arith, Bool, true, false, Bool-cases, inl, inr, Option, some, ◌==◌,
  ==_refl, if_false, List, [], ◌∷◌,
}
use diameter.Mgr.Table.{Node, same_key, first_node, delete_node, drop_timer}
use diameter.Mgr.Pending.{Mgr}

pub same_key_refl : (k : List ℕ) → same_key k k ≡ true
same_key_refl [] = refl
same_key_refl (a ∷ k) = ground (arith, same_key_refl k)

pub same_key-eq : (k l : List ℕ) → same_key k l ≡ true → k ≡ l
same_key-eq [] [] h = refl
same_key-eq [] (b ∷ l) h = absurd (cc)
same_key-eq (a ∷ k) [] h = absurd (cc)
same_key-eq (a ∷ k) (b ∷ l) h = ground (arith, same_key-eq k l)

abbrev pub made_node : List ℕ → Option ℕ → ℕ → ℕ → ℕ → ℕ → Node
made_node k f ud e t c = record {
  elem_id = e;
  key = k;
  user_data = record { app_data = ud; app_callback = f; wait_resp_timer_id = t; dcb = c };
}

-- The nodes of a list differ from a node in their element, their timer and their key.
unfoldable pub Differs : Node → List Node → Type 0
Differs n [] = Unit {0}
Differs n (x ∷ l) =
    ((n.elem_id == x.elem_id) ≡ false)
    × ((n.user_data.wait_resp_timer_id == x.user_data.wait_resp_timer_id) ≡ false)
    × (same_key n.key x.key ≡ false)
    × Differs n l

unfoldable pub Distinct : List Node → Type 0
unfolding Differs
Distinct [] = Unit {0}
Distinct (n ∷ l) = ((n.user_data.wait_resp_timer_id == 0) ≡ false) × Differs n l × Distinct l

abbrev pub timers_of : List Node → List (ℕ × ℕ)
timers_of [] = []
timers_of (n ∷ l) = (n.user_data.wait_resp_timer_id, n.elem_id) ∷ timers_of l

-- Each request that waits has a timer that runs, for its node, and there is no other timer; no two
-- requests share a node, a timer or a session id.
pub record Paired (s : Mgr) : Type 0 where
  pub armed : s.timers ≡ timers_of s.nodes
  pub distinct : Distinct s.nodes

module _ (p : Node → Bool) where
  pub Differs-found :
      (n x : Node) (l : List Node)
      → Differs n l
      → first_node p l ≡ some x
      → ((n.elem_id == x.elem_id) ≡ false)
        × ((n.user_data.wait_resp_timer_id == x.user_data.wait_resp_timer_id) ≡ false)
  unfolding Differs
  Differs-found n x [] d e = absurd (cc)
  Differs-found n x (y ∷ l) d e = elim (Bool-cases (p y)) [
    | inl s ↦ ground arith
    | inr s ↦ Differs-found n x l (d.3) (sym (if_false _ _ s) ∙ e)
  ]

  -- The timer that goes with a node goes with it.
  pub drop-delete :
      (n : Node) (l : List Node)
      → Distinct l
      → first_node p l ≡ some n
      → drop_timer n.user_data.wait_resp_timer_id (timers_of l)
        ≡ timers_of (delete_node n.elem_id l)
  unfolding Distinct drop_timer delete_node
  drop-delete n [] d e = absurd (cc)
  drop-delete n (x ∷ l) d e = elim (Bool-cases (p x)) [
    | inl s ↦ grind (arith, ==_refl)
    | inr s ↦ ground (
      arith,
      Differs-found x n l (d.1) (sym (if_false _ _ s) ∙ e),
      drop-delete n l (d.2) (sym (if_false _ _ s) ∙ e),
    )
  ]

  pub Distinct-found :
      (n : Node) (l : List Node)
      → Distinct l
      → first_node p l ≡ some n
      → (n.user_data.wait_resp_timer_id == 0) ≡ false
  unfolding Distinct
  Distinct-found n [] d e = absurd (cc)
  Distinct-found n (x ∷ l) d e = elim (Bool-cases (p x)) [
    | inl s ↦ ground arith
    | inr s ↦ Distinct-found n l (d.2) (sym (if_false _ _ s) ∙ e)
  ]

Differs-delete : (n : Node) (e : ℕ) (l : List Node) → Differs n l → Differs n (delete_node e l)
unfolding Differs delete_node
Differs-delete n e [] d = tt
Differs-delete n e (x ∷ l) d = ground (arith, Differs-delete n e l (d.3))

pub Distinct-delete : (e : ℕ) (l : List Node) → Distinct l → Distinct (delete_node e l)
unfolding Distinct delete_node
Distinct-delete e [] d = tt
Distinct-delete e (x ∷ l) d = ground (arith, Differs-delete x e l (d.1), Distinct-delete e l (d.2))
