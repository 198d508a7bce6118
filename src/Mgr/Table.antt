-- ===== src/Mgr/Table.antt =====
-- The table `diaHash` of common/src/diaMgr.c and its timers. osHash.h and osTimer.h, which this repository
-- does not hold, are parameters.
use diameter.Common.{
  ℕ, ◌≡◌, refl, sym, ap, ◌∙◌, Bool, true, false, ◌&&◌, Bool-cases, inl, inr, Option, none, some,
  ◌==◌, if◌then◌else◌, if_true, if_false, List, [], ◌∷◌,
}
use mathlib.Core.Path.{fun_ext}

-- `diaHashData_t`, with the callback of the application, which may be null, and the connection by its
-- id, and the node of the table: its element and its key.
pub record HashData : Type 0 where
  pub app_data : ℕ
  pub app_callback : Option ℕ
  pub wait_resp_timer_id : ℕ
  pub dcb : ℕ

pub record Node : Type 0 where
  pub elem_id : ℕ
  pub key : List ℕ
  pub user_data : HashData

abbrev pub same_key : List ℕ → List ℕ → Bool
same_key [] [] = true
same_key (a ∷ k) (b ∷ l) = a == b && same_key k l
same_key _ _ = false

-- `osPlHash_getElement`, `osHash_deleteNode`, and what takes a running timer off: `osStopTimer`, or its
-- expiry. The table is the list of its nodes, the last that was added first, and so are the timers with
-- the elements they are for.
pub record TableOps : Type 0 where
  pub get_element : List ℕ → List Node → Option Node
  pub delete_element : ℕ → List Node → List Node
  pub stop_timer : ℕ → List (ℕ × ℕ) → List (ℕ × ℕ)

-- What the code relies on: a node is found by its key, one node or timer goes and the others stay.
pub record TableLaws (h : TableOps) : Type 0 where
  pub get_nil : (k : List ℕ) → h.get_element k [] ≡ none
  pub get_hit :
      (k : List ℕ) (n : Node) (l : List Node)
      → same_key n.key k ≡ true
      → h.get_element k (n ∷ l) ≡ some n
  pub get_miss :
      (k : List ℕ) (n : Node) (l : List Node)
      → same_key n.key k ≡ false
      → h.get_element k (n ∷ l) ≡ h.get_element k l
  pub delete_nil : (e : ℕ) → h.delete_element e [] ≡ []
  pub delete_hit :
      (e : ℕ) (n : Node) (l : List Node) → (n.elem_id == e) ≡ true → h.delete_element e (n ∷ l) ≡ l
  pub delete_miss :
      (e : ℕ) (n : Node) (l : List Node)
      → (n.elem_id == e) ≡ false
      → h.delete_element e (n ∷ l) ≡ n ∷ h.delete_element e l
  pub stop_nil : (t : ℕ) → h.stop_timer t [] ≡ []
  pub stop_hit :
      (t : ℕ) (x : ℕ × ℕ) (l : List (ℕ × ℕ)) → (x.0 == t) ≡ true → h.stop_timer t (x ∷ l) ≡ l
  pub stop_miss :
      (t : ℕ) (x : ℕ × ℕ) (l : List (ℕ × ℕ))
      → (x.0 == t) ≡ false
      → h.stop_timer t (x ∷ l) ≡ x ∷ h.stop_timer t l

-- What the laws determine: the first node with a key, the list without the first node of an element, the
-- timers without the first one of an id.
abbrev pub first_node : (Node → Bool) → List Node → Option Node
first_node p [] = none
first_node p (n ∷ l) = if p n then some n else first_node p l

abbrev pub find_key : List ℕ → List Node → Option Node
find_key k l = first_node (λ n. same_key n.key k) l

unfoldable pub delete_node : ℕ → List Node → List Node
delete_node e [] = []
delete_node e (n ∷ l) = if n.elem_id == e then l else n ∷ delete_node e l

unfoldable pub drop_timer : ℕ → List (ℕ × ℕ) → List (ℕ × ℕ)
drop_timer t [] = []
drop_timer t (x ∷ l) = if x.0 == t then l else x ∷ drop_timer t l

unfoldable pub list_ops : TableOps
unfolding delete_node drop_timer
list_ops = record { get_element = find_key; delete_element = delete_node; stop_timer = drop_timer }

pub list_ops-TableLaws : TableLaws list_ops
unfolding list_ops delete_node drop_timer
list_ops-TableLaws = record {
  get_nil = λ k. refl;
  get_hit = λ k n l e. if_true _ _ e;
  get_miss = λ k n l e. if_false _ _ e;
  delete_nil = λ e. refl;
  delete_hit = λ i n l e. if_true _ _ e;
  delete_miss = λ i n l e. if_false _ _ e;
  stop_nil = λ t. refl;
  stop_hit = λ t x l e. if_true _ _ e;
  stop_miss = λ t x l e. if_false _ _ e;
}

module _ (h : TableOps) (laws : TableLaws h) where
  get-find : (k : List ℕ) (l : List Node) → h.get_element k l ≡ find_key k l
  get-find k [] = laws.get_nil k
  get-find k (n ∷ l) = elim (Bool-cases (same_key n.key k)) [
    | inl e ↦ laws.get_hit k n l e ∙ sym (if_true _ _ e)
    | inr e ↦ laws.get_miss k n l e ∙ get-find k l ∙ sym (if_false _ _ e)
  ]

  delete-delete : (i : ℕ) (l : List Node) → h.delete_element i l ≡ delete_node i l
  unfolding delete_node
  delete-delete i [] = laws.delete_nil i
  delete-delete i (n ∷ l) = elim (Bool-cases (n.elem_id == i)) [
    | inl e ↦ laws.delete_hit i n l e ∙ sym (if_true _ _ e)
    | inr e ↦
        laws.delete_miss i n l e
        ∙ ap (λ r. n ∷ r) (delete-delete i l)
        ∙ sym (if_false l (n ∷ delete_node i l) e)
  ]

  stop-drop : (t : ℕ) (l : List (ℕ × ℕ)) → h.stop_timer t l ≡ drop_timer t l
  unfolding drop_timer
  stop-drop t [] = laws.stop_nil t
  stop-drop t (x ∷ l) = elim (Bool-cases (x.0 == t)) [
    | inl e ↦ laws.stop_hit t x l e ∙ sym (if_true _ _ e)
    | inr e ↦
        laws.stop_miss t x l e
        ∙ ap (λ r. x ∷ r) (stop-drop t l)
        ∙ sym (if_false l (x ∷ drop_timer t l) e)
  ]

  pub ops-list : h ≡ list_ops
  unfolding list_ops
  ops-list = λ i. record {
    get_element = fun_ext (λ k. fun_ext (get-find k)) i;
    delete_element = fun_ext (λ e. fun_ext (delete-delete e)) i;
    stop_timer = fun_ext (λ t. fun_ext (stop-drop t)) i;
  }
