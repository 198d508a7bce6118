-- ===== src/Mgr/Refines.antt =====
-- The table of common/src/diaMgr.c implements the map of `Spec`.
use diameter.Common.{
  ℕ, ◌≡◌, refl, sym, ap, ◌∙◌, Bool, true, false, Bool-cases, inl, inr, Option, none, some, ◌==◌,
  if◌then◌else◌, if_true, if_false, List, [], ◌∷◌,
}
use mathlib.Core.Path.{fun_ext}
use mathlib.Core.Option.{some-injective}
use diameter.Msg.{OsStatus, status_ok, network_failure, MsgDecoded, get_sess_id}
use diameter.Conn.Types.{TransportStatus}
use diameter.Conn.Routing.{TpMsg, peer_msg, conn_status, has_flag}
use diameter.Mgr.Table.{Node, TableOps, TableLaws, same_key, find_key, list_ops, ops-list}
use diameter.Mgr.Pending.{
  Mgr, callback_or, call, find_elem, expire, add_request, is_tcp_ok, send_app_msg, answered,
  on_node, on_session, on_answer, is_base_cmd, on_decoded, mgr_on_msg,
}
use diameter.Mgr.Paired.{Distinct, Paired, made_node, same_key-eq}
use diameter.Mgr.Kept.{after_expiry, expire-after_expiry}
use diameter.Mgr.Steps.{Step, requested, received, expired, Reach, start, later, Reach-Paired}
use diameter.Mgr.Spec.{
  Call, request_sent, msg_received, time_expired, update, view, waiting_of, spec, answer, taken_off,
  noted, replay,
}
use diameter.Mgr.Refined.{found_by_key, view-delete, find_key-same, waiting_of-if}

on_node-view :
    (notify : Option ℕ) (m : MsgDecoded) (k : List ℕ) (s : Mgr) (o : Option Node)
    → find_key k s.nodes ≡ o
    → Distinct s.nodes
    → view ((on_node list_ops notify m o s).1) ≡ taken_off k notify (some m) (waiting_of o) (view s)
unfolding on_node answered list_ops
on_node-view notify m k s none e d = refl
on_node-view notify m k s (some n) e d =
    view-delete (λ x. same_key x.key k) n s s.timers _ d e ∙ λ i. record {
      waiting = update (same-key-eq i) none (view s).waiting;
      notes =
          noted notify (some m)
            (record { callback = n.user_data.app_callback; app_data = n.user_data.app_data })
            s.notes;
    }
  where
    same-key-eq : n.key ≡ k
    same-key-eq = same_key-eq n.key k (find_key-same k n s.nodes e)

on_session-view :
    (notify : Option ℕ) (m : MsgDecoded) (k : Option (List ℕ)) (s : Mgr)
    → Distinct s.nodes
    → view ((on_session list_ops notify m k s).1) ≡ answer notify m k (view s)
unfolding on_session on_node answered list_ops
on_session-view notify m none s d = refl
on_session-view notify m (some k) s d = on_node-view notify m k s (find_key k s.nodes) refl d

on_decoded-view :
    (notify : Option ℕ) (m : MsgDecoded) (s : Mgr)
    → Distinct s.nodes
    → view ((on_decoded list_ops notify m s).1)
      ≡ spec (msg_received (some notify) peer_msg (some m)) (view s)
unfolding on_decoded on_answer spec
on_decoded-view notify m s d = elim (Bool-cases (is_base_cmd m.cmd_code)) [
  | inl b ↦ ap (λ (r : Bool × Mgr). view (r.1)) (if_true _ _ b) ∙ sym (if_true _ _ b)
  | inr b ↦
      ap (λ (r : Bool × Mgr). view (r.1)) (if_false _ _ b)
      ∙ elim (Bool-cases (has_flag 0x80 m.cmd_flag)) [
        | inl c ↦ ap (λ (r : Bool × Mgr). view (r.1)) (if_true _ _ c) ∙ sym (if_true _ _ c)
        | inr c ↦
            ap (λ (r : Bool × Mgr). view (r.1)) (if_false _ _ c)
            ∙ on_session-view notify m (get_sess_id m) s d
            ∙ sym (if_false _ _ c)
      ]
      ∙ sym (if_false _ _ b)
]

list-view :
    (conn : Option (Option ℕ)) (t : TpMsg) (m : Option MsgDecoded) (s : Mgr)
    → Distinct s.nodes
    → view ((mgr_on_msg list_ops conn t m s).1) ≡ spec (msg_received conn t m) (view s)
unfolding mgr_on_msg spec
list-view none t m s d = refl
list-view (some f) peer_msg none s d = refl
list-view (some f) peer_msg (some m) s d = on_decoded-view f m s d
list-view (some f) (conn_status st g) m s d = refl

list_expiry-view :
    (n : Node) (f : ℕ) (s : Mgr) (other : Option ℕ)
    → find_elem n.elem_id s.nodes ≡ some n
    → callback_or n.user_data.app_callback other ≡ some f
    → Distinct s.nodes
    → view (after_expiry list_ops n f s) ≡ spec (time_expired n.key other) (view s)
unfolding spec list_ops
list_expiry-view n f s other e c d =
    view-delete (λ x. x.elem_id == n.elem_id) n s s.timers _ d e
    ∙ (λ i. record {
      waiting = update n.key none (view s).waiting;
      notes = call (sym c i) none (some n.user_data.app_data) s.notes;
    })
    ∙ ap (λ o. taken_off n.key other none (waiting_of o) (view s))
        (sym (found_by_key (λ x. x.elem_id == n.elem_id) n s.nodes d e))

module _ (h : TableOps) (laws : TableLaws h) where
  mgr_on_msg-view :
      (conn : Option (Option ℕ)) (t : TpMsg) (m : Option MsgDecoded) (s : Mgr)
      → Distinct s.nodes
      → view ((mgr_on_msg h conn t m s).1) ≡ spec (msg_received conn t m) (view s)
  mgr_on_msg-view conn t m s d =
      ap (λ g. view ((mgr_on_msg g conn t m s).1)) (ops-list h laws) ∙ list-view conn t m s d

  expire-view :
      (notify : ℕ → Option ℕ) (n : Node) (f : ℕ) (s s' : Mgr)
      → find_elem n.elem_id s.nodes ≡ some n
      → callback_or n.user_data.app_callback (notify n.user_data.dcb) ≡ some f
      → expire h notify n.user_data.wait_resp_timer_id n.elem_id s ≡ some s'
      → Distinct s.nodes
      → view s' ≡ spec (time_expired n.key (notify n.user_data.dcb)) (view s)
  unfolding spec
  expire-view notify n f s s' e c x d =
      ap view (sym (some-injective _ _ (sym (expire-after_expiry h notify n f s e c) ∙ x)))
      ∙ ap (λ g. view (after_expiry g n f s)) (ops-list h laws)
      ∙ list_expiry-view n f s (notify n.user_data.dcb) e c d

-- Whether a request goes out.
abbrev pub taken : Option ℕ → Option ℕ → (ℕ → TransportStatus) → Bool
taken none none send = false
taken none (some c) send = is_tcp_ok (send c)
taken (some c) active send = is_tcp_ok (send c)

sent-view :
    (b : Bool) (c : ℕ) (k : List ℕ) (f : Option ℕ) (ud e t : ℕ) (s : Mgr)
    → view (
        (if◌then◌else◌ {A = OsStatus × Mgr} b
          (status_ok, add_request (some k) ((made_node k f ud e t c).user_data) e s)
          (network_failure, s)).1)
      ≡ spec (request_sent b k f ud) (view s)
unfolding spec
sent-view true c k f ud e t s = λ i. record {
  waiting =
      fun_ext
        (λ q. waiting_of-if (same_key k q) (some (made_node k f ud e t c)) (find_key q s.nodes)) i;
  notes = s.notes;
}
sent-view false c k f ud e t s = refl

send_app_msg-view :
    (dcb active : Option ℕ) (send : ℕ → TransportStatus) (k : List ℕ) (f : Option ℕ) (ud e t : ℕ)
    (s : Mgr)
    → view ((send_app_msg dcb active send (some k) f ud e t s).1)
      ≡ spec (request_sent (taken dcb active send) k f ud) (view s)
unfolding send_app_msg spec
send_app_msg-view none none send k f ud e t s = refl
send_app_msg-view none (some c) send k f ud e t s = sent-view (is_tcp_ok (send c)) c k f ud e t s
send_app_msg-view (some c) active send k f ud e t s = sent-view (is_tcp_ok (send c)) c k f ud e t s

-- What a step of the table is for its users.
abbrev pub call_of : {h : TableOps} {s s' : Mgr} → Step h s s' → Call
call_of (requested dcb active send k f ud e t z d) = request_sent (taken dcb active send) k f ud
call_of (received conn t m) = msg_received conn t m
call_of (expired notify n f e c x) = time_expired n.key (notify n.user_data.dcb)

abbrev pub calls_of : {h : TableOps} {s : Mgr} → Reach h s → List Call
calls_of start = []
calls_of (later r x) = call_of x ∷ calls_of r

Step-view :
    (h : TableOps) (laws : TableLaws h) {s s' : Mgr} (x : Step h s s')
    → Paired s
    → view s' ≡ spec (call_of x) (view s)
Step-view h laws (requested dcb active send k f ud e t z d) p =
    send_app_msg-view dcb active send k f ud e t _
Step-view h laws (received conn t m) p = mgr_on_msg-view h laws conn t m _ p.distinct
Step-view h laws (expired notify n f e c x) p = expire-view h laws notify n f _ _ e c x p.distinct

-- The table, as its users see it, is the map from session ids to waiting requests that the same calls give: a
-- request that the transport takes is put under its session id, an answer or the end of its time
-- takes off the request of its session and tells the application with the data of that request,
-- a request of the peer is passed to the application, and nothing else changes anything. The calls of
-- the application are the same and in the same order. The nodes, the timers and the session ids of
-- new requests are not in the table, and a timer expires only for a request whose function exists.
pub Reach-replay :
    (h : TableOps) (laws : TableLaws h) (s : Mgr) (r : Reach h s) → view s ≡ replay (calls_of r)
unfolding replay
Reach-replay h laws s start = refl
Reach-replay h laws s (later r x) =
    Step-view h laws x (Reach-Paired h laws _ r) ∙ ap (spec (call_of x)) (Reach-replay h laws _ r)
