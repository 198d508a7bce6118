-- ===== src/Conn/Reopen.antt =====
-- A connection that comes back (common/src/diaConnState.c): what takes it from REOPEN to OPEN.
use diameter.Common.{
  ℕ, ◌+◌, ◌≤◌, ◌<◌, ◌≡◌, ◌≢◌, refl, ap, ◌∙◌, Option, none, some, List, [], ◌∷◌, arith, ◌>>=◌,
  Option-cases, inl, inr,
}
use mathlib.Core.Path.{subst}
use diameter.Msg.{MsgDecoded}
use diameter.Conn.Types.{
  opened, down, reopen, ConnMsgType, timeout, transport_down, transport_ready, stop_conn, rcv_dwa,
  pos, incr_i8,
}
use diameter.Conn.Os.{Os}
use diameter.Conn.Steps.{Sys, enter_state, notify_failback}
use diameter.Conn.Runs.{Event, run}
use diameter.Conn.Connected.{on_msg, down_on_msg, reopen_on_msg}

abbrev is_dwa : ConnMsgType → ℕ
is_dwa rcv_dwa = 1
is_dwa _ = 0

-- The answers among the events.
abbrev pub dwas : List Event → ℕ
dwas [] = 0
dwas (e ∷ es) = is_dwa e.msg_type + dwas es

-- The transport stays up, nobody stops the connection, and a timer has an id that is more than a flag.
abbrev IsQuiet : Event → Type 0
IsQuiet e =
    (e.msg_type ≢ transport_down)
    × (e.msg_type ≢ stop_conn)
    × (e.msg_type ≡ timeout → 1 < e.timer_id)

abbrev pub Quiet : List Event → Type 0
Quiet [] = Unit {0}
Quiet (e ∷ es) = IsQuiet e × Quiet es

module _ (os : Os) where
  -- A connection that is still coming back, with the answers that it has counted since `s0`: it has sent
  -- nothing, started no timer and moved its peer nowhere.
  pub record Reopening (s0 : Sys os) (n : ℕ) (s : Sys os) : Type 0 where
    pub comes_back : s.dcb.conn_state ≡ reopen
    pub counts : s.dcb.num_dwa ≡ pos n
    pub same_world : s.world ≡ s0.world
    pub same_intf : s.intf ≡ s0.intf

  abbrev Reopening? : Sys os → ℕ → Option (Sys os) → Type 0
  Reopening? s0 n none = ⊥
  Reopening? s0 n (some s) = Reopening s0 n s

  -- Nothing but an answer counts, and one answer is not enough.
  reopen_on_msg-Reopening :
      (m : ConnMsgType) (t : ℕ) (s0 s : Sys os) (n : ℕ)
      → Reopening s0 n s
      → m ≢ transport_down
      → m ≢ stop_conn
      → (m ≡ timeout → 1 < t)
      → n + is_dwa m ≤ 1
      → Reopening? s0 (n + is_dwa m) (reopen_on_msg os m t s)
  unfolding reopen_on_msg incr_i8
  reopen_on_msg-Reopening m t s0 s n r up go late few = grind arith

  on_msg-reopen :
      (m : ConnMsgType) (msg : Option MsgDecoded) (t : ℕ) (s : Sys os)
      → s.dcb.conn_state ≡ reopen
      → on_msg os m msg t s ≡ reopen_on_msg os m t s
  unfolding on_msg
  on_msg-reopen m msg t s e = ground arith

  run-Reopening :
      (es : List Event) (s0 s : Sys os) (n : ℕ)
      → Reopening s0 n s
      → Quiet es
      → n + dwas es ≤ 1
      → (s' : Sys os) × (run os es s ≡ some s') × Reopening s0 (n + dwas es) s'
  unfolding run
  run-Reopening [] s0 s n r q few = (s, refl, subst (λ k. Reopening s0 k s) (omega arith) r)
  run-Reopening (e ∷ es) s0 s n r (q, qs) few =
      let p = reopen_on_msg-Reopening e.msg_type e.timer_id s0 s n r q.0 q.1 q.2 (omega arith) in
      elim (Option-cases (reopen_on_msg os e.msg_type e.timer_id s)) [
        | inl h ↦ absurd (subst (Reopening? s0 _) h p)
        | inr (s1, h) ↦
            let (s', ran, r') =
              run-Reopening es s0 s1 (n + is_dwa e.msg_type) (subst (Reopening? s0 _) h p) qs
                (omega arith) in
            (
              s',
              ap (λ x. x >>= run os es)
                    (on_msg-reopen e.msg_type e.decoded e.timer_id s r.comes_back ∙ h)
                  ∙ ran,
              subst (λ k. Reopening s0 k s') (omega arith) r',
            )
      ]

  ready-Reopening :
      (msg : Option MsgDecoded) (t : ℕ) (s s1 : Sys os)
      → s.dcb.conn_state ≡ down
      → on_msg os transport_ready msg t s ≡ some s1
      → Reopening s1 0 s1
  unfolding on_msg down_on_msg
  ready-Reopening msg t s s1 e h = grind arith

  second-opened :
      (s : Sys os) (t : ℕ)
      → s.dcb.num_dwa ≡ pos 1
      → (s2 : Sys os) × (reopen_on_msg os rcv_dwa t s ≡ some s2) × (s2.dcb.conn_state ≡ opened)
  unfolding reopen_on_msg incr_i8 enter_state notify_failback
  second-opened s t m = (_, refl, grind arith)

  -- When the transport of a connection that is down has come back, and the peer has answered one DWR since,
  -- the connection is in REOPEN, whatever timers have expired: it has sent nothing, started no timer
  -- and left the lists of peers as they were. A second answer opens it. The transport stays up,
  -- nobody stops the connection, and the id of a timer is more than one.
  pub reopens_on_second_dwa :
      (es : List Event) (msg dwa : Option MsgDecoded) (t u : ℕ) (s s1 : Sys os)
      → s.dcb.conn_state ≡ down
      → on_msg os transport_ready msg t s ≡ some s1
      → Quiet es
      → dwas es ≡ 1
      → (s' : Sys os) × (s2 : Sys os) × (run os es s1 ≡ some s')
        × (s'.dcb.conn_state ≡ reopen)
        × (s'.world ≡ s1.world)
        × (s'.intf ≡ s1.intf)
        × (on_msg os rcv_dwa dwa u s' ≡ some s2)
        × (s2.dcb.conn_state ≡ opened)
  reopens_on_second_dwa es msg dwa t u s s1 e h q one =
      let (s', ran, r) =
        run-Reopening es s1 s1 0 (ready-Reopening msg t s s1 e h) q (omega arith) in
      let (s2, opens, is_open) = second-opened s' u (r.counts ∙ ap (λ n. pos n) (omega arith)) in
      (
        s',
        s2,
        ran,
        r.comes_back,
        r.same_world,
        r.same_intf,
        on_msg-reopen rcv_dwa dwa u s' r.comes_back ∙ opens,
        is_open,
      )
