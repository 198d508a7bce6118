-- ===== src/Mgr/Counted.antt =====
-- The records of common/src/diaMgr.c keep the connection blocks alive that they use.
use diameter.Common.{
  ℕ, ◌+◌, ◌≡◌, refl, sym, subst, ◌∙◌, arith, Bool, true, false, Option, none, some, ◌==◌,
  if◌then◌else◌, List,
}
use mathlib.Core.Option.{some-injective}
use diameter.Msg.{OsStatus, status_ok, network_failure, MsgDecoded, get_sess_id}
use diameter.Conn.Types.{TransportStatus}
use diameter.Conn.Routing.{TpMsg, peer_msg, conn_status, has_flag}
use diameter.Mgr.Table.{Node, TableOps, TableLaws, same_key, find_key, list_ops, ops-list}
use diameter.Mgr.Pending.{
  Mgr, find_elem, expire, is_tcp_ok, add_request, send_app_msg, answered, on_node, on_session,
  on_answer, is_base_cmd, on_decoded, mgr_on_msg, callback_or,
}
use diameter.Mgr.Paired.{Distinct, Paired, made_node}
use diameter.Mgr.Kept.{after_expiry, expire-after_expiry}
use diameter.Mgr.Steps.{Step, requested, received, expired, Reach, start, later, Reach-Paired}
use diameter.Mgr.Refs.{
  MemOps, MemLaws, hash_data_cleanup, delete_hash_node, session_node, deleted, out_on, ref_if,
  refs_after, refs_of, count, Counted, Counted-add, Counted-delete,
}

module _ (o : MemOps) (mem : MemLaws o) (own : ℕ → ℕ) where
  sent-Counted :
      (b : Bool) (c : ℕ) (k : List ℕ) (f : Option ℕ) (ud e t : ℕ) (s : Mgr) (r : ℕ → ℕ)
      → Counted own s.nodes r
      → Counted own
          ((if◌then◌else◌ {A = OsStatus × Mgr} b
            (status_ok, add_request (some k) ((made_node k f ud e t c).user_data) e s)
            (network_failure, s)).1.nodes)
          (ref_if o (if b then some c else none) r)
  sent-Counted true c k f ud e t s r h = Counted-add o mem own (made_node k f ud e t c) s.nodes r h
  sent-Counted false c k f ud e t s r h = h

  send_app_msg-Counted :
      (dcb active : Option ℕ) (send : ℕ → TransportStatus) (k : List ℕ) (f : Option ℕ) (ud e t : ℕ)
      (s : Mgr) (r : ℕ → ℕ)
      → Counted own s.nodes r
      → Counted own
          ((send_app_msg dcb active send (some k) f ud e t s).1.nodes)
          (ref_if o (out_on dcb active send) r)
  unfolding send_app_msg
  send_app_msg-Counted none none send k f ud e t s r h = h
  send_app_msg-Counted none (some c) send k f ud e t s r h =
      sent-Counted (is_tcp_ok (send c)) c k f ud e t s r h
  send_app_msg-Counted (some c) active send k f ud e t s r h =
      sent-Counted (is_tcp_ok (send c)) c k f ud e t s r h

  -- The state that a message leaves, and the references without those of a node.
  abbrev Left : Option Node → (ℕ → ℕ) → List Node → Bool × Mgr → Type 0
  Left n r l x = Counted own (x.1.nodes) ((delete_hash_node o list_ops n (l, r)).1)

  either :
      (b : Bool) (n n' : Option Node) (r : ℕ → ℕ) (l : List Node) (x x' : Bool × Mgr)
      → Left n r l x
      → Left n' r l x'
      → Left (if b then n else n') r l (if b then x else x')
  either true n n' r l x x' h h' = h
  either false n n' r l x x' h h' = h'

  on_node-Counted :
      (notify : Option ℕ) (m : MsgDecoded) (k : List ℕ) (s : Mgr) (n : Option Node) (r : ℕ → ℕ)
      → find_key k s.nodes ≡ n
      → Distinct s.nodes
      → Counted own s.nodes r
      → Left n r s.nodes (on_node list_ops notify m n s)
  unfolding on_node answered list_ops
  on_node-Counted notify m k s none r e d h = h
  on_node-Counted notify m k s (some n) r e d h =
      Counted-delete o mem own (λ x. same_key x.key k) n s.nodes r d e h

  on_session-Counted :
      (notify : Option ℕ) (m : MsgDecoded) (k : Option (List ℕ)) (s : Mgr) (r : ℕ → ℕ)
      → Distinct s.nodes
      → Counted own s.nodes r
      → Left (session_node list_ops k s) r s.nodes (on_session list_ops notify m k s)
  unfolding on_session on_node answered list_ops
  on_session-Counted notify m none s r d h = h
  on_session-Counted notify m (some k) s r d h =
      on_node-Counted notify m k s (find_key k s.nodes) r refl d h

  on_decoded-Counted :
      (notify : Option ℕ) (m : MsgDecoded) (s : Mgr) (r : ℕ → ℕ)
      → Distinct s.nodes
      → Counted own s.nodes r
      → Left
          (deleted list_ops (some notify) peer_msg (some m) s)
          r
          s.nodes
          (on_decoded list_ops notify m s)
  unfolding on_decoded on_answer deleted
  on_decoded-Counted notify m s r d h =
      either (is_base_cmd m.cmd_code) none _ r s.nodes (true, s) _ h
        (either (has_flag 0x80 m.cmd_flag) none _ r s.nodes _ _ h
          (on_session-Counted notify m (get_sess_id m) s r d h))

  list-Counted :
      (conn : Option (Option ℕ)) (t : TpMsg) (m : Option MsgDecoded) (s : Mgr) (r : ℕ → ℕ)
      → Distinct s.nodes
      → Counted own s.nodes r
      → Left (deleted list_ops conn t m s) r s.nodes (mgr_on_msg list_ops conn t m s)
  unfolding mgr_on_msg deleted
  list-Counted none t m s r d h = h
  list-Counted (some f) peer_msg none s r d h = h
  list-Counted (some f) peer_msg (some m) s r d h = on_decoded-Counted f m s r d h
  list-Counted (some f) (conn_status st g) m s r d h = h

  module _ (h : TableOps) (laws : TableLaws h) where
    mgr_on_msg-Counted :
        (conn : Option (Option ℕ)) (t : TpMsg) (m : Option MsgDecoded) (s : Mgr) (r : ℕ → ℕ)
        → Distinct s.nodes
        → Counted own s.nodes r
        → Counted own
            ((mgr_on_msg h conn t m s).1.nodes)
            ((delete_hash_node o h (deleted h conn t m s) (s.nodes, r)).1)
    mgr_on_msg-Counted conn t m s r d k =
        subst
          (λ g.
            Counted own ((mgr_on_msg g conn t m s).1.nodes)
              ((delete_hash_node o g (deleted g conn t m s) (s.nodes, r)).1))
          (sym (ops-list h laws)) (list-Counted conn t m s r d k)

    expire-Counted :
        (notify : ℕ → Option ℕ) (n : Node) (f : ℕ) (s s' : Mgr) (r : ℕ → ℕ)
        → find_elem n.elem_id s.nodes ≡ some n
        → callback_or n.user_data.app_callback (notify n.user_data.dcb) ≡ some f
        → expire h notify n.user_data.wait_resp_timer_id n.elem_id s ≡ some s'
        → Distinct s.nodes
        → Counted own s.nodes r
        → Counted own s'.nodes (hash_data_cleanup o n.user_data r)
    unfolding list_ops
    expire-Counted notify n f s s' r e c x d k =
        subst (λ (z : Mgr). Counted own z.nodes (hash_data_cleanup o n.user_data r))
          (some-injective _ _ (sym (expire-after_expiry h notify n f s e c) ∙ x))
          (subst
            (λ g. Counted own ((after_expiry g n f s).nodes) (hash_data_cleanup o n.user_data r))
            (sym (ops-list h laws))
            (Counted-delete o mem own (λ y. y.elem_id == n.elem_id) n s.nodes r d e k))

    Step-Counted :
        {s s' : Mgr} (x : Step h s s') (r : ℕ → ℕ)
        → Paired s
        → Counted own s.nodes r
        → Counted own s'.nodes (refs_after o x r)
    Step-Counted {s} (requested dcb active send k f ud e t z d) r p c =
        send_app_msg-Counted dcb active send k f ud e t s r c
    Step-Counted {s} (received conn t m) r p c = mgr_on_msg-Counted conn t m s r p.distinct c
    Step-Counted {s} {s'} (expired notify n f e q x) r p c =
        expire-Counted notify n f s s' r e q x p.distinct c

    -- At any time a connection block has its own references and one for each request that waits on it:
    -- a request that goes out takes one, the deletion of its record gives it back, and nothing else
    -- changes them. The nodes, the timers and the session ids of new requests are not in the table, and
    -- a timer expires only for a request whose function exists.
    pub Reach-Counted :
        (s : Mgr) (r : Reach h s) (c : ℕ) → refs_of o own r c ≡ own c + count c s.nodes
    Reach-Counted s start c = omega arith
    Reach-Counted s (later r x) c =
        Step-Counted x (refs_of o own r) (Reach-Paired h laws _ r) (Reach-Counted _ r) c
