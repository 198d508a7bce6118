-- ===== src/Mgr/Kept.antt =====
-- Each operation on the table of common/src/diaMgr.c keeps it and the timers together.
use diameter.Common.{
  ℕ, ◌≡◌, refl, sym, ap, subst, ◌∙◌, arith, Bool, false, Bool-cases, inl, inr, Option, none, some,
  ◌==◌, ==_refl, if◌then◌else◌, if_true, if_false, List, ◌∷◌,
}
use diameter.Msg.{OsStatus, status_ok, network_failure, MsgDecoded, get_sess_id}
use diameter.Conn.Types.{TransportStatus}
use diameter.Conn.Routing.{TpMsg, peer_msg, conn_status, has_flag}
use mathlib.Core.Option.{some-injective}
use diameter.Mgr.Table.{
  Node, TableOps, TableLaws, same_key, find_key, drop_timer, list_ops, ops-list,
}
use diameter.Mgr.Pending.{
  Mgr, callback_or, call, find_elem, timed_out, on_timeout, expire, add_request, is_tcp_ok,
  send_app_msg, answered, on_node, on_session, on_answer, is_base_cmd, on_decoded, mgr_on_msg,
}
use diameter.Mgr.Paired.{
  made_node, Differs, Distinct, Paired, drop-delete, Distinct-found, Distinct-delete,
}

on_node-Paired :
    (notify : Option ℕ) (m : MsgDecoded) (k : List ℕ) (s : Mgr) (o : Option Node)
    → find_key k s.nodes ≡ o
    → Paired s
    → Paired ((on_node list_ops notify m o s).1)
unfolding on_node answered list_ops
on_node-Paired notify m k s none e p = p
on_node-Paired notify m k s (some n) e p = record {
  armed =
      if_false _ _ (Distinct-found (λ x. same_key x.key k) n s.nodes p.distinct e)
      ∙ ap (drop_timer n.user_data.wait_resp_timer_id) p.armed
      ∙ drop-delete (λ x. same_key x.key k) n s.nodes p.distinct e;
  distinct = Distinct-delete n.elem_id s.nodes p.distinct;
}

on_session-Paired :
    (notify : Option ℕ) (m : MsgDecoded) (k : Option (List ℕ)) (s : Mgr)
    → Paired s
    → Paired ((on_session list_ops notify m k s).1)
unfolding on_session on_node answered list_ops
on_session-Paired notify m none s p = p
on_session-Paired notify m (some k) s p = on_node-Paired notify m k s (find_key k s.nodes) refl p

on_decoded-Paired :
    (notify : Option ℕ) (m : MsgDecoded) (s : Mgr)
    → Paired s
    → Paired ((on_decoded list_ops notify m s).1)
unfolding on_decoded on_answer
on_decoded-Paired notify m s p = elim (Bool-cases (is_base_cmd m.cmd_code)) [
  | inl b ↦ subst (λ (r : Bool × Mgr). Paired (r.1)) (sym (if_true _ _ b)) p
  | inr b ↦
      subst (λ (r : Bool × Mgr). Paired (r.1)) (sym (if_false _ _ b))
        (elim (Bool-cases (has_flag 0x80 m.cmd_flag)) [
          | inl c ↦
              subst (λ (r : Bool × Mgr). Paired (r.1)) (sym (if_true _ _ c))
                (record { armed = p.armed; distinct = p.distinct })
          | inr c ↦
              subst (λ (r : Bool × Mgr). Paired (r.1)) (sym (if_false _ _ c))
                (on_session-Paired notify m (get_sess_id m) s p)
        ])
]

list-Paired :
    (conn : Option (Option ℕ)) (t : TpMsg) (m : Option MsgDecoded) (s : Mgr)
    → Paired s
    → Paired ((mgr_on_msg list_ops conn t m s).1)
unfolding mgr_on_msg
list-Paired none t m s p = p
list-Paired (some f) peer_msg none s p = p
list-Paired (some f) peer_msg (some m) s p = on_decoded-Paired f m s p
list-Paired (some f) (conn_status st g) m s p = p

pub mgr_on_msg-Paired :
    (h : TableOps) (laws : TableLaws h) (conn : Option (Option ℕ)) (t : TpMsg)
    (m : Option MsgDecoded) (s : Mgr)
    → Paired s
    → Paired ((mgr_on_msg h conn t m s).1)
mgr_on_msg-Paired h laws conn t m s p =
    subst (λ g. Paired ((mgr_on_msg g conn t m s).1)) (sym (ops-list h laws))
      (list-Paired conn t m s p)

abbrev pub after_expiry : TableOps → Node → ℕ → Mgr → Mgr
after_expiry h n f s = record {
  nodes = h.delete_element n.elem_id s.nodes;
  timers = h.stop_timer n.user_data.wait_resp_timer_id s.timers;
  notes = call (some f) none (some n.user_data.app_data) s.notes;
}

after_expiry-Paired :
    (n : Node) (f : ℕ) (s : Mgr)
    → find_elem n.elem_id s.nodes ≡ some n
    → Paired s
    → Paired (after_expiry list_ops n f s)
unfolding list_ops
after_expiry-Paired n f s e p = record {
  armed =
      ap (drop_timer n.user_data.wait_resp_timer_id) p.armed
      ∙ drop-delete (λ x. x.elem_id == n.elem_id) n s.nodes p.distinct e;
  distinct = Distinct-delete n.elem_id s.nodes p.distinct;
}

pub expire-after_expiry :
    (h : TableOps) (notify : ℕ → Option ℕ) (n : Node) (f : ℕ) (s : Mgr)
    → find_elem n.elem_id s.nodes ≡ some n
    → callback_or n.user_data.app_callback (notify n.user_data.dcb) ≡ some f
    → expire h notify n.user_data.wait_resp_timer_id n.elem_id s ≡ some (after_expiry h n f s)
unfolding expire on_timeout timed_out
expire-after_expiry h notify n f s e c = ground (arith, ==_refl n.user_data.wait_resp_timer_id)

pub expire-Paired :
    (h : TableOps) (laws : TableLaws h) (notify : ℕ → Option ℕ) (n : Node) (f : ℕ) (s s' : Mgr)
    → find_elem n.elem_id s.nodes ≡ some n
    → callback_or n.user_data.app_callback (notify n.user_data.dcb) ≡ some f
    → expire h notify n.user_data.wait_resp_timer_id n.elem_id s ≡ some s'
    → Paired s
    → Paired s'
expire-Paired h laws notify n f s s' e c x p =
    subst Paired (some-injective _ _ (sym (expire-after_expiry h notify n f s e c) ∙ x)) (
      subst (λ g. Paired (after_expiry g n f s)) (sym (ops-list h laws))
        (after_expiry-Paired n f s e p))

added :
    (k : List ℕ) (f : Option ℕ) (ud e t c : ℕ) (st : TransportStatus) (s : Mgr)
    → (t == 0) ≡ false
    → Differs (made_node k f ud e t c) s.nodes
    → Paired s
    → Paired (
        (if◌then◌else◌ {A = OsStatus × Mgr}
          (is_tcp_ok st)
          (status_ok, add_request (some k) ((made_node k f ud e t c).user_data) e s)
          (network_failure, s)).1)
unfolding Distinct
added k f ud e t c st s z d p = elim (Bool-cases (is_tcp_ok st)) [
  | inl b ↦
      subst (λ (r : OsStatus × Mgr). Paired (r.1)) (sym (if_true _ _ b))
        (record { armed = ap (λ l. (t, e) ∷ l) p.armed; distinct = (z, d, p.distinct) })
  | inr b ↦ subst (λ (r : OsStatus × Mgr). Paired (r.1)) (sym (if_false _ _ b)) p
]

-- A request that gets a node and a timer of its own and has a session id of its own leaves the
-- table and the timers paired, whichever connection it takes and however the transport answers.
pub send_app_msg-Paired :
    (dcb active : Option ℕ) (send : ℕ → TransportStatus) (k : List ℕ) (f : Option ℕ) (ud e t : ℕ)
    (s : Mgr)
    → (t == 0) ≡ false
    → ((c : ℕ) → Differs (made_node k f ud e t c) s.nodes)
    → Paired s
    → Paired ((send_app_msg dcb active send (some k) f ud e t s).1)
unfolding send_app_msg Distinct
send_app_msg-Paired none none send k f ud e t s z d p = p
send_app_msg-Paired none (some c) send k f ud e t s z d p = added k f ud e t c (send c) s z (d c) p
send_app_msg-Paired (some c) active send k f ud e t s z d p =
    added k f ud e t c (send c) s z (d c) p
