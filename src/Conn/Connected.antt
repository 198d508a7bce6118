-- ===== src/Conn/Connected.antt =====
-- The handlers of the states with a connection, or with one that comes back
-- (common/src/diaConnState.c): open, suspect, down, reopen; and the dispatch on the state.
use diameter.Common.{
  ◌≡◌, refl, ℕ, Bool, true, false, Option, none, some, ◌==◌, ◌||◌, if◌then◌else◌, ◌>>=◌, ltb,
}
use diameter.Msg.{MsgDecoded, result_code_none, result_code_diameter_success}
use diameter.Conn.Types.{
  ConnState, client_closed, client_wait_cea, server_closed, opened, suspect, down, reopen, closing,
  ConnMsgType, timeout, transport_ready, transport_down, force_conn, stop_conn, rcv_dwr, rcv_dwa,
  rcv_dpr, rcv_traffic_msg, ℤ, pos, negsuc, incr_i8, tp_wait_conn, watchdog, twt,
}
use diameter.Conn.Os.{Os, dwr, dpr}
use diameter.Conn.Steps.{
  Sys, start, restart, stop_if_set, clear, set_wait_dwa, conn_start, conn_stop, send_common_msg,
  notify_failover, notify_failback, enter_state,
}
use diameter.Conn.Connecting.{
  client_closed_on_msg, server_closed_on_msg, client_wait_cea_on_msg, closing_on_msg, closed_state,
}

module _ (os : Os) where
  -- `if(timer) restart else start`.
  restart_watchdog : Sys os → Sys os
  restart_watchdog s =
      if s.dcb.timer_watchdog == 0
      then start os watchdog os.time_watchdog s
      else restart os watchdog s

  open_timeout : ℕ → Sys os → Option (Sys os)
  unfolding send_common_msg notify_failover enter_state
  open_timeout timer_id s =
      if timer_id == s.dcb.timer_watchdog
      then (if s.dcb.is_wait_dwa
          then some (
              enter_state os suspect
                (start os watchdog os.time_watchdog (set_wait_dwa os false (notify_failover os s))))
          else (send_common_msg os dwr true result_code_none s >>= λ s'.
              some (set_wait_dwa os true (start os watchdog os.time_watchdog s'))))
      else some s

  -- The end of an open connection: a DPR goes out, as a request or an answer.
  open_disconnect : Bool → ℕ → Sys os → Option (Sys os)
  unfolding send_common_msg enter_state
  open_disconnect is_req result s =
      send_common_msg os dpr is_req result (set_wait_dwa os false (stop_if_set os watchdog s))
      >>= λ s'. some (enter_state os closing (start os twt os.time_transmit_wait s'))

  -- `diaConnStateOpen_onMsg`.
  unfoldable pub open_on_msg : ConnMsgType → ℕ → Sys os → Option (Sys os)
  unfolding restart_watchdog open_timeout open_disconnect send_common_msg notify_failover
      enter_state
  open_on_msg rcv_dwa timer_id s = some (restart os watchdog (set_wait_dwa os false s))
  open_on_msg rcv_traffic_msg timer_id s = some (restart os watchdog (set_wait_dwa os false s))
  open_on_msg rcv_dwr timer_id s =
      send_common_msg os dwr false result_code_diameter_success s >>= λ s'.
      some (set_wait_dwa os false (restart_watchdog s'))
  open_on_msg timeout timer_id s = open_timeout timer_id s
  open_on_msg stop_conn timer_id s = open_disconnect true result_code_none s
  open_on_msg rcv_dpr timer_id s = open_disconnect false result_code_diameter_success s
  open_on_msg transport_down timer_id s = some (
      enter_state os down (
        set_wait_dwa os false
          (start os watchdog os.time_watchdog (notify_failover os (stop_if_set os watchdog s)))))
  open_on_msg _ timer_id s = some s

  abbrev enter_closed : Sys os → Sys os
  enter_closed s = enter_state os (closed_state os s.dcb.is_server) s

  failed_back : Sys os → Sys os
  unfolding notify_failback enter_state
  failed_back s =
      enter_state os opened (restart os watchdog (set_wait_dwa os false (notify_failback os s)))

  -- `diaConnStateSuspect_onMsg`. The test of the timeout assigns.
  unfoldable pub suspect_on_msg : ConnMsgType → ℕ → Sys os → Option (Sys os)
  unfolding restart_watchdog failed_back conn_stop enter_state
  suspect_on_msg rcv_dwa timer_id s = some (failed_back s)
  suspect_on_msg rcv_traffic_msg timer_id s = some (failed_back s)
  suspect_on_msg transport_down timer_id s = some (enter_state os down (restart_watchdog s))
  suspect_on_msg stop_conn timer_id s =
      some (enter_closed (conn_stop os (stop_if_set os watchdog s)))
  suspect_on_msg timeout timer_id s =
      if s.dcb.timer_watchdog == 0
      then some s
      else some (enter_state os down (start os watchdog os.time_watchdog (conn_stop os s)))
  suspect_on_msg _ timer_id s = some s

  down_timeout : ℕ → Sys os → Sys os
  unfolding conn_start
  down_timeout timer_id s =
      if timer_id == s.dcb.timer_watchdog || timer_id == s.dcb.timer_tp_wait_conn
      then (if s.dcb.is_server
          then clear os tp_wait_conn (clear os watchdog s)
          else if timer_id == s.dcb.timer_tp_wait_conn
          then start os watchdog os.time_watchdog (clear os tp_wait_conn s)
          else start os tp_wait_conn os.time_wait_conn (clear os watchdog (conn_start os s).1))
      else s

  down_stop_conn : Sys os → Sys os
  unfolding conn_stop enter_state
  down_stop_conn s =
      let s' =
        if s.dcb.timer_tp_wait_conn == 0 then s else conn_stop os (stop_if_set os tp_wait_conn s) in
      enter_closed (stop_if_set os watchdog s')

  -- `pDcb->numDwa = 0; pDcb->isWaitDwa = true`.
  abbrev await_dwas : Sys os → Sys os
  await_dwas s = record s { dcb = record s.dcb { num_dwa = pos 0; is_wait_dwa = true } }

  -- `diaConnStateDown_onMsg`.
  unfoldable pub down_on_msg : ConnMsgType → ℕ → Sys os → Option (Sys os)
  unfolding down_timeout down_stop_conn send_common_msg enter_state
  down_on_msg timeout timer_id s = some (down_timeout timer_id s)
  down_on_msg transport_ready timer_id s =
      send_common_msg os dwr true result_code_none
        (stop_if_set os watchdog (stop_if_set os tp_wait_conn s))
      >>= λ s'. some (enter_state os reopen (await_dwas (start os watchdog os.time_watchdog s')))
  down_on_msg stop_conn timer_id s = some (down_stop_conn s)
  down_on_msg _ timer_id s = some s

  abbrev pub below_two : ℤ → Bool
  below_two (pos n) = ltb n 2
  below_two (negsuc n) = true

  abbrev is_two : ℤ → Bool
  is_two (pos n) = n == 2
  is_two (negsuc n) = false

  -- `if(numDwa++ < 2) isWaitDwa = false; if(numDwa == 2) …`.
  reopen_dwa : Sys os → Sys os
  unfolding incr_i8 enter_state
  reopen_dwa s =
      let counted = record s.dcb {
        num_dwa = incr_i8 s.dcb.num_dwa;
        is_wait_dwa = if below_two s.dcb.num_dwa then false else s.dcb.is_wait_dwa;
      } in
      let s' = record s { dcb = counted } in
      if is_two s'.dcb.num_dwa
      then restart os watchdog (enter_state os opened (set_wait_dwa os false s'))
      else s'

  abbrev bool_to_ℕ : Bool → ℕ
  bool_to_ℕ true = 1
  bool_to_ℕ false = 0

  reopen_missed : ℤ → Sys os → Sys os
  unfolding conn_stop enter_state
  reopen_missed (pos n) s =
      start os watchdog os.time_watchdog (record s { dcb = record s.dcb { num_dwa = negsuc 0 } })
  reopen_missed (negsuc n) s =
      enter_state os down (start os watchdog os.time_watchdog (conn_stop os s))

  -- `if(timerId != pDcb->isWaitDwa)`: the id is compared with the flag.
  reopen_timeout : ℕ → Sys os → Option (Sys os)
  unfolding reopen_missed send_common_msg
  reopen_timeout timer_id s =
      if timer_id == bool_to_ℕ s.dcb.is_wait_dwa
      then (if s.dcb.is_wait_dwa
          then some (reopen_missed s.dcb.num_dwa s)
          else (send_common_msg os dwr true result_code_none s >>= λ s'.
              some (set_wait_dwa os true (start os watchdog os.time_watchdog s'))))
      else some s

  -- `diaConnStateReopen_onMsg`.
  unfoldable pub reopen_on_msg : ConnMsgType → ℕ → Sys os → Option (Sys os)
  unfolding reopen_dwa reopen_timeout restart_watchdog conn_stop enter_state
  reopen_on_msg rcv_dwa timer_id s = some (reopen_dwa s)
  reopen_on_msg timeout timer_id s = reopen_timeout timer_id s
  reopen_on_msg transport_down timer_id s = some (enter_state os down (restart_watchdog s))
  reopen_on_msg stop_conn timer_id s =
      some (enter_closed (conn_stop os (stop_if_set os watchdog s)))
  reopen_on_msg _ timer_id s = some s

  dispatch : ConnState → ConnMsgType → Option MsgDecoded → ℕ → Sys os → Option (Sys os)
  dispatch client_closed m msg timer_id s = client_closed_on_msg os m timer_id s
  dispatch client_wait_cea m msg timer_id s = client_wait_cea_on_msg os m msg timer_id s
  dispatch server_closed m msg timer_id s = server_closed_on_msg os m s
  dispatch opened m msg timer_id s = open_on_msg m timer_id s
  dispatch suspect m msg timer_id s = suspect_on_msg m timer_id s
  dispatch down m msg timer_id s = down_on_msg m timer_id s
  dispatch reopen m msg timer_id s = reopen_on_msg m timer_id s
  dispatch closing m msg timer_id s = closing_on_msg os m timer_id s

  -- `diaConnState_onMsg`.
  unfoldable pub on_msg : ConnMsgType → Option MsgDecoded → ℕ → Sys os → Option (Sys os)
  unfolding dispatch
  on_msg m msg timer_id s = dispatch s.dcb.conn_state m msg timer_id s

  abbrev pub init_state : Bool → Sys os → Sys os
  init_state is_server s = record s {
    dcb = record s.dcb { conn_state = closed_state os is_server };
  }

  -- `diaConnState_init`.
  unfoldable pub init : Bool → Bool → Sys os → Option (Sys os)
  unfolding on_msg
  init is_server is_enabled s =
      if is_enabled
      then on_msg force_conn none 0 (init_state is_server s)
      else some (init_state is_server s)

  -- What holds of each handler in its own state holds of the dispatch.
  pub on_msg_cases {ℓ} :
      (P : Option (Sys os) → Type ℓ) (m : ConnMsgType) (msg : Option MsgDecoded) (t : ℕ)
      (s : Sys os)
      → (s.dcb.conn_state ≡ client_closed → P (client_closed_on_msg os m t s))
      → (s.dcb.conn_state ≡ client_wait_cea → P (client_wait_cea_on_msg os m msg t s))
      → (s.dcb.conn_state ≡ server_closed → P (server_closed_on_msg os m s))
      → (s.dcb.conn_state ≡ opened → P (open_on_msg m t s))
      → (s.dcb.conn_state ≡ suspect → P (suspect_on_msg m t s))
      → (s.dcb.conn_state ≡ down → P (down_on_msg m t s))
      → (s.dcb.conn_state ≡ reopen → P (reopen_on_msg m t s))
      → (s.dcb.conn_state ≡ closing → P (closing_on_msg os m t s))
      → P (on_msg m msg t s)
  unfolding on_msg
  on_msg_cases P m msg t s h1 h2 h3 h4 h5 h6 h7 h8 = go s.dcb.conn_state refl
    where
      go : (c : ConnState) → s.dcb.conn_state ≡ c → P (dispatch c m msg t s)
      go client_closed e = h1 e
      go client_wait_cea e = h2 e
      go server_closed e = h3 e
      go opened e = h4 e
      go suspect e = h5 e
      go down e = h6 e
      go reopen e = h7 e
      go closing e = h8 e
