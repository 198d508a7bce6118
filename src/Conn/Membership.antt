-- ===== src/Conn/Membership.antt =====
-- Where the peer stands: on the active list of its group exactly when its connection is open.
use diameter.Common.{
  ℕ, ◌≡◌, ap, ◌∙◌, inl, inr, ◌>>=◌, ◌==◌, Bool, Bool-cases, true, false, not, Option, none, some,
  List, arith, contains,
}
use diameter.Msg.{OsStatus, MsgDecoded}
use diameter.Conn.Types.{
  ConnState, client_closed, client_wait_cea, server_closed, opened, suspect, down, reopen, closing,
  ConnMsgType, force_conn, rcv_cea, twt, Dcb, get_group,
}
use diameter.Conn.Os.{Os, ListLaws}
use diameter.Conn.Cea.{Framed, process_cea, process_cea_frame}
use diameter.Conn.Runs.{Event, run, run_invariant}
use diameter.Conn.Frames.{stop_if_set-dcb}
use diameter.Conn.Steps.{Sys, stop_if_set, notify_failover, notify_failback}
use diameter.Conn.Connecting.{
  client_closed_on_msg, server_closed_on_msg, client_wait_cea_on_msg, closing_on_msg, after_cea,
}
use diameter.Conn.Connected.{
  open_on_msg, suspect_on_msg, down_on_msg, reopen_on_msg, on_msg, on_msg_cases, init, init_state,
}

abbrev pub is_open : ConnState → Bool
is_open opened = true
is_open _ = false

module _ (os : Os) where
  abbrev pub on_active : Sys os → Bool
  on_active s = contains s.dcb.id (get_group s.dcb.is_priority s.intf).active

  abbrev on_waiting : Sys os → Bool
  on_waiting s = contains s.dcb.id (get_group s.dcb.is_priority s.intf).waiting

  pub record IsPlaced (s : Sys os) : Type 0 where
    pub active_iff : on_active s ≡ is_open s.dcb.conn_state
    pub waiting_iff : on_waiting s ≡ not (is_open s.dcb.conn_state)

module _ (os : Os) (laws : ListLaws os) where
  pub failover_placed :
      (s : Sys os)
      → (on_active os (notify_failover os s) ≡ false)
        × (on_waiting os (notify_failover os s) ≡ true)
  unfolding notify_failover
  failover_placed s = grind (arith, laws.contains-unlink, laws.contains-append)

  failback_placed :
      (s : Sys os)
      → (on_active os (notify_failback os s) ≡ true)
        × (on_waiting os (notify_failback os s) ≡ false)
  unfolding notify_failback
  failback_placed s = grind (arith, laws.contains-unlink, laws.contains-append)

  abbrev Placed? : Option (Sys os) → Type 0
  Placed? none = Unit {0}
  Placed? (some s) = IsPlaced os s

  client_closed_placed :
      (m : ConnMsgType) (t : ℕ) (s : Sys os)
      → IsPlaced os s
      → s.dcb.conn_state ≡ client_closed
      → Placed? (client_closed_on_msg os m t s)
  unfolding client_closed_on_msg
  client_closed_placed m t s p e = ground arith

  server_closed_placed :
      (m : ConnMsgType) (s : Sys os)
      → IsPlaced os s
      → s.dcb.conn_state ≡ server_closed
      → Placed? (server_closed_on_msg os m s)
  unfolding server_closed_on_msg notify_failback
  server_closed_placed m s p e = grind (arith, laws.contains-unlink, laws.contains-append)

  cea_placed :
      (s : Sys os) (r : Option (OsStatus × Dcb))
      → IsPlaced os s
      → s.dcb.conn_state ≡ client_wait_cea
      → Framed s.dcb r
      → Placed? (r >>= λ x. some (after_cea os x s))
  unfolding after_cea notify_failback
  cea_placed s r p e f = grind (arith, laws.contains-unlink, laws.contains-append)

  stop-IsPlaced : (s : Sys os) → IsPlaced os s → IsPlaced os (stop_if_set os twt s)
  stop-IsPlaced s p = elim (Bool-cases (s.dcb.timer_twt == 0)) [
    | inl e ↦ rw e p
    | inr e ↦ rw e (record { active_iff = p.active_iff; waiting_iff = p.waiting_iff })
  ]

  client_wait_cea_placed :
      (m : ConnMsgType) (msg : Option MsgDecoded) (t : ℕ) (s : Sys os)
      → IsPlaced os s
      → s.dcb.conn_state ≡ client_wait_cea
      → Placed? (client_wait_cea_on_msg os m msg t s)
  unfolding client_wait_cea_on_msg notify_failback
  client_wait_cea_placed rcv_cea msg t s p e =
      let s' = stop_if_set os twt s in
      let f = stop_if_set-dcb os twt s in
      cea_placed s' (process_cea msg s'.dcb) (stop-IsPlaced s p)
        (ap (λ (d : Dcb). d.conn_state) f ∙ e) (process_cea_frame msg s'.dcb)
  client_wait_cea_placed _ msg t s p e = grind (arith, laws.contains-unlink, laws.contains-append)

  reopen_placed :
      (m : ConnMsgType) (t : ℕ) (s : Sys os)
      → IsPlaced os s
      → s.dcb.conn_state ≡ reopen
      → Placed? (reopen_on_msg os m t s)
  unfolding reopen_on_msg notify_failback
  reopen_placed m t s p e = grind (arith, laws.contains-unlink, laws.contains-append)

  closing_placed :
      (m : ConnMsgType) (t : ℕ) (s : Sys os)
      → IsPlaced os s
      → s.dcb.conn_state ≡ closing
      → Placed? (closing_on_msg os m t s)
  unfolding closing_on_msg
  closing_placed m t s p e = ground arith

  open_placed :
      (m : ConnMsgType) (t : ℕ) (s : Sys os)
      → IsPlaced os s
      → s.dcb.conn_state ≡ opened
      → Placed? (open_on_msg os m t s)
  unfolding open_on_msg notify_failover
  open_placed m t s p e = grind (arith, laws.contains-unlink, laws.contains-append)

  down_placed :
      (m : ConnMsgType) (t : ℕ) (s : Sys os)
      → IsPlaced os s
      → s.dcb.conn_state ≡ down
      → Placed? (down_on_msg os m t s)
  unfolding down_on_msg
  down_placed m t s p e = grind (arith, laws.contains-unlink, laws.contains-append)

  suspect_placed :
      (m : ConnMsgType) (t : ℕ) (s : Sys os)
      → IsPlaced os s
      → s.dcb.conn_state ≡ suspect
      → Placed? (suspect_on_msg os m t s)
  unfolding suspect_on_msg notify_failback
  suspect_placed m t s p e = grind (arith, laws.contains-unlink, laws.contains-append)

  -- Each call of the state machine keeps a peer on the active list of its group if its connection is
  -- open afterwards, and on the waiting list if not; never on both.
  pub on_msg-IsPlaced :
      (m : ConnMsgType) (msg : Option MsgDecoded) (t : ℕ) (s s' : Sys os)
      → on_msg os m msg t s ≡ some s'
      → IsPlaced os s
      → IsPlaced os s'
  on_msg-IsPlaced m msg t s s' h p = rw h at (
      on_msg_cases os Placed? m msg t s (client_closed_placed m t s p)
        (client_wait_cea_placed m msg t s p) (server_closed_placed m s p) (open_placed m t s p)
        (suspect_placed m t s p) (down_placed m t s p) (reopen_placed m t s p)
        (closing_placed m t s p))

  pub init-IsPlaced :
      (b en : Bool) (s s' : Sys os)
      → on_active os s ≡ false
      → on_waiting os s ≡ true
      → init os b en s ≡ some s'
      → IsPlaced os s'
  unfolding init
  init-IsPlaced true true s s' a w h =
      on_msg-IsPlaced force_conn none 0 (init_state os true s) s' h
        (record { active_iff = a; waiting_iff = w })
  init-IsPlaced false true s s' a w h =
      on_msg-IsPlaced force_conn none 0 (init_state os false s) s' h
        (record { active_iff = a; waiting_iff = w })
  init-IsPlaced true false s s' a w h = ground arith
  init-IsPlaced false false s s' a w h = ground arith

  -- A peer that is provisioned on the waiting list of its group is, after its initialisation and any
  -- history of messages, on the active list exactly when its connection is open, and on the waiting
  -- list exactly when it is not.
  pub run-IsPlaced :
      (b en : Bool) (es : List Event) (s s1 s' : Sys os)
      → on_active os s ≡ false
      → on_waiting os s ≡ true
      → init os b en s ≡ some s1
      → run os es s1 ≡ some s'
      → IsPlaced os s'
  run-IsPlaced b en es s s1 s' a w h r =
      run_invariant os (IsPlaced os) on_msg-IsPlaced es s1 s' r (init-IsPlaced b en s s1 a w h)
