-- ===== src/Mgr/Refs.antt =====
-- The references to connection blocks that the records of common/src/diaMgr.c hold: `osmemref` when a request
-- is recorded, `osfree` when its record is deleted. osMemory.h, which this repository does not hold, is a
-- parameter.
use diameter.Common.{
  ℕ, suc, ◌+◌, ◌≡◌, sym, ap, subst, ==_refl, ◌∙◌, arith, Bool, true, false, Bool-cases, inl, inr,
  Option, none, some, ◌==◌, if◌then◌else◌, if_true, if_false, List, [], ◌∷◌,
}
use mathlib.Core.Option.{some-injective}
use diameter.Msg.{MsgDecoded, get_sess_id}
use diameter.Conn.Types.{TransportStatus}
use diameter.Conn.Routing.{TpMsg, peer_msg, has_flag}
use diameter.Mgr.Table.{HashData, Node, TableOps, first_node, delete_node}
use diameter.Mgr.Pending.{Mgr, is_tcp_ok, is_base_cmd}
use diameter.Mgr.Paired.{Distinct, Differs-found}
use diameter.Mgr.Steps.{Step, requested, received, expired, Reach, start, later}

-- The numbers of references to the blocks.
pub record MemOps : Type 0 where
  pub mem_ref : ℕ → (ℕ → ℕ) → ℕ → ℕ
  pub free : ℕ → (ℕ → ℕ) → ℕ → ℕ

-- What the code relies on: a reference more or less to the one block; the last one is not counted below zero.
pub record MemLaws (o : MemOps) : Type 0 where
  pub ref_self : (c d : ℕ) (r : ℕ → ℕ) → (c == d) ≡ true → o.mem_ref c r d ≡ suc (r d)
  pub ref_other : (c d : ℕ) (r : ℕ → ℕ) → (c == d) ≡ false → o.mem_ref c r d ≡ r d
  pub free_self : (c d n : ℕ) (r : ℕ → ℕ) → (c == d) ≡ true → r d ≡ suc n → o.free c r d ≡ n
  pub free_other : (c d : ℕ) (r : ℕ → ℕ) → (c == d) ≡ false → o.free c r d ≡ r d

-- `diaHashData_cleanup`, on data that is not null.
abbrev pub hash_data_cleanup : MemOps → HashData → (ℕ → ℕ) → ℕ → ℕ
hash_data_cleanup o d r = o.free d.dcb r

-- `dia_deleteHashNode` of a node, or none: the node goes, and its data is cleaned up.
abbrev pub delete_hash_node :
    MemOps → TableOps → Option Node → List Node × (ℕ → ℕ) → List Node × (ℕ → ℕ)
delete_hash_node o h none (l, r) = (l, r)
delete_hash_node o h (some n) (l, r) =
    (h.delete_element n.elem_id l, hash_data_cleanup o n.user_data r)

-- The node that `diaMgr_onMsg` deletes.
abbrev pub session_node : TableOps → Option (List ℕ) → Mgr → Option Node
session_node h none s = none
session_node h (some k) s = h.get_element k s.nodes

unfoldable pub deleted :
    TableOps → Option (Option ℕ) → TpMsg → Option MsgDecoded → Mgr → Option Node
unfolding get_sess_id
deleted h (some notify) peer_msg (some m) s =
    if is_base_cmd m.cmd_code
    then none
    else (if has_flag 0x80 m.cmd_flag then none else session_node h (get_sess_id m) s)
deleted h _ _ _ s = none

-- The connection that a request goes out on, if the transport takes it.
abbrev pub on_ok : TransportStatus → ℕ → Option ℕ
on_ok st c = if is_tcp_ok st then some c else none

abbrev pub out_on : Option ℕ → Option ℕ → (ℕ → TransportStatus) → Option ℕ
out_on none none send = none
out_on none (some c) send = on_ok (send c) c
out_on (some c) active send = on_ok (send c) c

abbrev pub ref_if : MemOps → Option ℕ → (ℕ → ℕ) → ℕ → ℕ
ref_if o none r = r
ref_if o (some c) r = o.mem_ref c r

-- What a step does to the references.
abbrev pub refs_after : MemOps → {h : TableOps} {s s' : Mgr} → Step h s s' → (ℕ → ℕ) → ℕ → ℕ
refs_after o (requested dcb active send k f ud e t z d) r = ref_if o (out_on dcb active send) r
refs_after o {h} {s} (received conn t m) r =
    (delete_hash_node o h (deleted h conn t m s) (s.nodes, r)).1
refs_after o (expired notify n f e c x) r = hash_data_cleanup o n.user_data r

abbrev pub refs_of : MemOps → (ℕ → ℕ) → {h : TableOps} {s : Mgr} → Reach h s → ℕ → ℕ
refs_of o own start = own
refs_of o own (later r x) = refs_after o x (refs_of o own r)

-- The waiting requests of a connection.
abbrev pub count : ℕ → List Node → ℕ
count c [] = 0
count c (n ∷ l) = (if n.user_data.dcb == c then 1 else 0) + count c l

abbrev one_if : Node → ℕ → ℕ
one_if n c = if n.user_data.dcb == c then 1 else 0

count-delete :
    (p : Node → Bool) (c : ℕ) (n : Node) (l : List Node)
    → Distinct l
    → first_node p l ≡ some n
    → one_if n c + count c (delete_node n.elem_id l) ≡ count c l
unfolding delete_node Distinct
count-delete p c n [] d e = absurd (cc)
count-delete p c n (x ∷ l) d e = elim (Bool-cases (p x)) [
  | inl s ↦
      subst (λ y. one_if y c + count c (delete_node y.elem_id (x ∷ l)) ≡ count c (x ∷ l))
        (some-injective _ _ (sym (if_true _ _ s) ∙ e))
        (ap (λ k. one_if x c + count c k) (if_true _ _ (==_refl x.elem_id)))
  | inr s ↦
      let e' = sym (if_false _ _ s) ∙ e in
      ap (λ k. one_if n c + count c k) (if_false _ _ ((Differs-found p x n l (d.1) e').0))
      ∙ omega (arith, count-delete p c n l (d.2) e')
]

-- Each block has the references of its own and one for each request that waits on it.
abbrev pub Counted : (ℕ → ℕ) → List Node → (ℕ → ℕ) → Type 0
Counted own l r = (c : ℕ) → r c ≡ own c + count c l

module _ (o : MemOps) (mem : MemLaws o) (own : ℕ → ℕ) where
  pub Counted-add :
      (n : Node) (l : List Node) (r : ℕ → ℕ)
      → Counted own l r
      → Counted own (n ∷ l) (o.mem_ref n.user_data.dcb r)
  Counted-add n l r h c = elim (Bool-cases (n.user_data.dcb == c)) [
    | inl s ↦ omega (arith, mem.ref_self n.user_data.dcb c r s, h c, if_true {A = ℕ} 1 0 s)
    | inr s ↦ omega (arith, mem.ref_other n.user_data.dcb c r s, h c, if_false {A = ℕ} 1 0 s)
  ]

  pub Counted-delete :
      (p : Node → Bool) (n : Node) (l : List Node) (r : ℕ → ℕ)
      → Distinct l
      → first_node p l ≡ some n
      → Counted own l r
      → Counted own (delete_node n.elem_id l) (hash_data_cleanup o n.user_data r)
  Counted-delete p n l r d e h c = elim (Bool-cases (n.user_data.dcb == c)) [
    | inl s ↦
        mem.free_self n.user_data.dcb c (own c + count c (delete_node n.elem_id l)) r s
          (omega (arith, h c, count-delete p c n l d e, if_true {A = ℕ} 1 0 s))
    | inr s ↦ omega (
      arith,
      mem.free_other n.user_data.dcb c r s,
      h c,
      count-delete p c n l d e,
      if_false {A = ℕ} 1 0 s,
    )
  ]
