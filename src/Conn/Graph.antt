-- ===== src/Conn/Graph.antt =====
-- The transition diagram of the connection, with all but the state left out.
use diameter.Common.{
  ℕ, ◌≡◌, ap, ◌∙◌, ◌≢◌, ◌⊎◌, Bool, true, false, Option, none, some, List, arith, ◌<◌,
}
use diameter.Msg.{MsgDecoded}
use diameter.Conn.Types.{
  ConnState, client_closed, client_wait_cea, server_closed, opened, suspect, down, reopen, closing,
  ConnMsgType, timeout, force_conn, stop_conn, rcv_dpr, twt, Dcb,
}
use diameter.Conn.Os.{Os}
use diameter.Conn.Steps.{Sys, stop_if_set, conn_stop, enter_state}
use diameter.Conn.Runs.{Event, run, run_invariant}
use diameter.Conn.Frames.{enter_state-dcb, stop_if_set-dcb}
use diameter.Conn.Connecting.{
  client_closed_on_msg, server_closed_on_msg, client_wait_cea_on_msg, closing_on_msg,
}
use diameter.Conn.Connected.{
  open_on_msg, suspect_on_msg, down_on_msg, reopen_on_msg, on_msg, on_msg_cases, init,
}

-- The edges of a connection block whose `isServer` flag is the parameter.
pub data Edge (is_server : Bool) : ConnState → ConnState → Type 0 where
  stay : {c : ConnState} → Edge is_server c c
  cer_sent : Edge is_server client_closed client_wait_cea
  cea_accepted : Edge is_server client_wait_cea opened
  cea_failed : Edge is_server client_wait_cea client_closed
  cea_missed : is_server ≡ true → Edge is_server client_wait_cea server_closed
  cer_accepted : Edge is_server server_closed opened
  dwa_missed : Edge is_server opened suspect
  open_lost : Edge is_server opened down
  failed_back : Edge is_server suspect opened
  suspect_lost : Edge is_server suspect down
  suspect_stopped : is_server ≡ false → Edge is_server suspect client_closed
  suspect_stopped_server : is_server ≡ true → Edge is_server suspect server_closed
  reconnected : Edge is_server down reopen
  down_stopped : is_server ≡ false → Edge is_server down client_closed
  down_stopped_server : is_server ≡ true → Edge is_server down server_closed
  proven : Edge is_server reopen opened
  reopen_lost : Edge is_server reopen down
  reopen_stopped : is_server ≡ false → Edge is_server reopen client_closed
  reopen_stopped_server : is_server ≡ true → Edge is_server reopen server_closed
  closed : Edge is_server closing client_closed

module _ (os : Os) where
  abbrev Moves : Sys os → Option (Sys os) → Type 0
  Moves s none = Unit {0}
  Moves s (some s') = Edge s.dcb.is_server s.dcb.conn_state s'.dcb.conn_state

  client_closed-Moves :
      (m : ConnMsgType) (t : ℕ) (s : Sys os)
      → s.dcb.conn_state ≡ client_closed
      → Moves s (client_closed_on_msg os m t s)
  unfolding client_closed_on_msg
  client_closed-Moves m t s e = grind (arith, stay, cer_sent)

  server_closed-Moves :
      (m : ConnMsgType) (s : Sys os)
      → s.dcb.conn_state ≡ server_closed
      → Moves s (server_closed_on_msg os m s)
  unfolding server_closed_on_msg
  server_closed-Moves m s e = grind (arith, stay, cer_accepted)

  client_wait_cea-Moves :
      (m : ConnMsgType) (msg : Option MsgDecoded) (t : ℕ) (s : Sys os)
      → s.dcb.conn_state ≡ client_wait_cea
      → Moves s (client_wait_cea_on_msg os m msg t s)
  unfolding client_wait_cea_on_msg
  client_wait_cea-Moves m msg t s e = grind (arith, stay, cea_accepted, cea_failed, cea_missed)

  open-Moves :
      (m : ConnMsgType) (t : ℕ) (s : Sys os)
      → s.dcb.conn_state ≡ opened
      → Moves s (open_on_msg os m t s)
  unfolding open_on_msg
  open-Moves m t s e = grind (arith, stay, dwa_missed, open_lost)

  suspect-Moves :
      (m : ConnMsgType) (t : ℕ) (s : Sys os)
      → s.dcb.conn_state ≡ suspect
      → Moves s (suspect_on_msg os m t s)
  unfolding suspect_on_msg
  suspect-Moves m t s e =
      grind (arith, stay, failed_back, suspect_lost, suspect_stopped, suspect_stopped_server)

  down-Moves :
      (m : ConnMsgType) (t : ℕ) (s : Sys os)
      → s.dcb.conn_state ≡ down
      → Moves s (down_on_msg os m t s)
  unfolding down_on_msg
  down-Moves m t s e = grind (arith, stay, reconnected, down_stopped, down_stopped_server)

  reopen-Moves :
      (m : ConnMsgType) (t : ℕ) (s : Sys os)
      → s.dcb.conn_state ≡ reopen
      → Moves s (reopen_on_msg os m t s)
  unfolding reopen_on_msg
  reopen-Moves m t s e =
      grind (arith, stay, proven, reopen_lost, reopen_stopped, reopen_stopped_server)

  closing-Moves :
      (m : ConnMsgType) (t : ℕ) (s : Sys os)
      → s.dcb.conn_state ≡ closing
      → Moves s (closing_on_msg os m t s)
  unfolding closing_on_msg
  closing-Moves m t s e = grind (arith, stay, closed)

  -- Whatever message arrives, the connection stays in its state or follows an edge of the diagram,
  -- unless the handler faults.
  pub on_msg-Edge :
      (m : ConnMsgType) (msg : Option MsgDecoded) (t : ℕ) (s s' : Sys os)
      → on_msg os m msg t s ≡ some s'
      → Edge s.dcb.is_server s.dcb.conn_state s'.dcb.conn_state
  on_msg-Edge m msg t s s' h = rw h at (
      on_msg_cases os (Moves s) m msg t s (client_closed-Moves m t s)
        (client_wait_cea-Moves m msg t s) (server_closed-Moves m s) (open-Moves m t s)
        (suspect-Moves m t s) (down-Moves m t s) (reopen-Moves m t s) (closing-Moves m t s))

  -- An open connection faults on an operator's stop and on a DPR of the peer: the DPR or DPA that
  -- it would send is never built, and the buffer is read through a null pointer.
  pub open_disconnect_faults :
      (m : ConnMsgType) (msg : Option MsgDecoded) (t : ℕ) (s : Sys os)
      → s.dcb.conn_state ≡ opened
      → (m ≡ stop_conn) ⊎ (m ≡ rcv_dpr)
      → on_msg os m msg t s ≡ none
  unfolding on_msg open_on_msg
  open_disconnect_faults m msg t s e h = ground arith

  -- A real timer id (ids above 1) that fires while the connection waits for watchdog answers after a
  -- reconnect changes nothing at all: the handler compares the id with the flag `isWaitDwa`.
  pub reopen_ignores_timers :
      (msg : Option MsgDecoded) (t : ℕ) (s : Sys os)
      → s.dcb.conn_state ≡ reopen
      → 1 < t
      → on_msg os timeout msg t s ≡ some s
  unfolding on_msg reopen_on_msg
  reopen_ignores_timers msg t s e h = ground arith

  -- In the states CLIENT_CLOSED, CLIENT_WAIT_CEA and SUSPECT the handler of a timeout does not look at
  -- which timer fired: any two ids have the same effect.
  pub timeout_any_id :
      (msg : Option MsgDecoded) (t u : ℕ) (s : Sys os)
      → (s.dcb.conn_state ≡ client_closed)
        ⊎ ((s.dcb.conn_state ≡ client_wait_cea) ⊎ (s.dcb.conn_state ≡ suspect))
      → on_msg os timeout msg t s ≡ on_msg os timeout msg u s
  unfolding on_msg client_closed_on_msg client_wait_cea_on_msg suspect_on_msg
  timeout_any_id msg t u s h = ground arith

  -- An operator's stop while the CEA is awaited leaves the connection in OPEN, though its socket has
  -- been closed, and with no watchdog started.
  pub wait_cea_stop_opens :
      (msg : Option MsgDecoded) (t : ℕ) (s : Sys os)
      → s.dcb.conn_state ≡ client_wait_cea
      → (s' : Sys os) × (on_msg os stop_conn msg t s ≡ some s')
        × (s'.dcb.conn_state ≡ opened)
        × (s'.dcb.timer_watchdog ≡ s.dcb.timer_watchdog)
  unfolding on_msg client_wait_cea_on_msg
  wait_cea_stop_opens msg t s e =
      let s' = conn_stop os (stop_if_set os twt s) in
      (
        enter_state os opened s',
        ground arith,
        ground arith,
        ap (λ (d : Dcb). d.timer_watchdog) (enter_state-dcb os opened s')
            ∙ ap (λ (d : Dcb). d.timer_watchdog) (stop_if_set-dcb os twt s),
      )

Edge-not_closing : {b : Bool} {c c' : ConnState} → Edge b c c' → c ≢ closing → c' ≢ closing
Edge-not_closing stay h = h
Edge-not_closing _ h = λ e. cc

server_ne : server_closed ≢ closing
server_ne e = cc

client_ne : client_closed ≢ closing
client_ne e = cc

module _ (os : Os) where
  init-not_closing :
      (b en : Bool) (s s' : Sys os) → init os b en s ≡ some s' → s'.dcb.conn_state ≢ closing
  unfolding init
  init-not_closing true true s s' h =
      Edge-not_closing (on_msg-Edge os force_conn none 0 _ s' h) server_ne
  init-not_closing false true s s' h =
      Edge-not_closing (on_msg-Edge os force_conn none 0 _ s' h) client_ne
  init-not_closing true false s s' h = ground arith
  init-not_closing false false s s' h = ground arith

  -- From its initialisation on, no history of messages brings a connection into CLOSING.
  pub never_closing :
      (b en : Bool) (es : List Event) (s s1 s' : Sys os)
      → init os b en s ≡ some s1
      → run os es s1 ≡ some s'
      → s'.dcb.conn_state ≢ closing
  never_closing b en es s s1 s' h r =
      run_invariant os (λ x. x.dcb.conn_state ≢ closing)
        (λ m msg t x y q. Edge-not_closing (on_msg-Edge os m msg t x y q)) es s1 s' r
        (init-not_closing b en s s1 h)

  -- After any history since its initialisation, a connection that takes an operator's stop or a DPR of the
  -- peer without a fault is not open, and it is not in CLOSING before or after: an open connection has
  -- no orderly end.
  pub no_orderly_end :
      (b en : Bool) (es : List Event) (s s1 s2 s3 : Sys os) (m : ConnMsgType)
      (msg : Option MsgDecoded) (t : ℕ)
      → init os b en s ≡ some s1
      → run os es s1 ≡ some s2
      → (m ≡ stop_conn) ⊎ (m ≡ rcv_dpr)
      → on_msg os m msg t s2 ≡ some s3
      → (s2.dcb.conn_state ≢ opened) × (s2.dcb.conn_state ≢ closing) × (s3.dcb.conn_state ≢ closing)
  no_orderly_end b en es s s1 s2 s3 m msg t h r d o =
      let open_before = never_closing b en es s s1 s2 h r in
      (
        λ e. cc (open_disconnect_faults os m msg t s2 e d, o),
        open_before,
        Edge-not_closing (on_msg-Edge os m msg t s2 s3 o) open_before,
      )
