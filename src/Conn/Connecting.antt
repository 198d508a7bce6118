-- ===== src/Conn/Connecting.antt =====
-- The handlers of the states without a working connection (common/src/diaConnState.c): client
-- closed, server closed, waiting for the CEA, closing. The status that a handler returns is
-- dropped by `diaConnState_onMsg`, so a handler here returns the state only.
use diameter.Common.{ℕ, Bool, true, false, Option, some, ◌==◌, if◌then◌else◌, ◌>>=◌}
use diameter.Msg.{OsStatus, status_ok, MsgDecoded, result_code_none, result_code_diameter_success}
use diameter.Conn.Types.{
  ConnState, client_closed, client_wait_cea, server_closed, opened, ConnMsgType, timeout,
  transport_ready, transport_down, force_conn, stop_conn, rcv_cer, rcv_cea, rcv_dpa,
  TransportStatus, tcp_conn, tcp_fail, fail, tp_wait_conn, tp_retry_conn, watchdog, twt, Dcb,
}
use diameter.Conn.Os.{Os, cer}
use diameter.Conn.Steps.{
  Sys, start, stop_if_set, clear, set_wait_dwa, conn_start, conn_stop, send_common_msg, enter_state,
}
use diameter.Conn.Cea.{process_cea}

module _ (os : Os) where
  -- A CER that cannot be built is the fault of `send_common_msg`; one that cannot be sent is logged.
  client_transport_ready : Sys os → Option (Sys os)
  unfolding send_common_msg enter_state
  client_transport_ready s =
      send_common_msg os cer true result_code_none
        (stop_if_set os tp_retry_conn (stop_if_set os tp_wait_conn s))
      >>= λ s'. some (enter_state os client_wait_cea (start os twt os.time_transmit_wait s'))

  -- `osStopTimer(pDcb->timerId_tpWaitConn); pDcb->timerId_tpWaitConn = 0`.
  client_transport_down : Sys os → Sys os
  client_transport_down s =
      let s' =
        if s.dcb.timer_tp_wait_conn == 0
        then s
        else clear os tp_wait_conn (stop_if_set os tp_wait_conn s) in
      if s'.dcb.timer_tp_retry_conn == 0 then start os tp_retry_conn os.time_retry_conn s' else s'

  abbrev after_force : TransportStatus × Sys os → Sys os
  after_force (status, s) =
      if os.is_os_status_ok status
      then start os tp_wait_conn os.time_wait_conn s
      else start os tp_retry_conn os.time_retry_conn s

  client_force_conn : Sys os → Sys os
  unfolding conn_start
  client_force_conn s =
      let s' = stop_if_set os tp_retry_conn s in
      if s'.dcb.timer_tp_wait_conn == 0 then after_force (conn_start os s') else s'

  client_stop_conn : Sys os → Sys os
  unfolding conn_stop
  client_stop_conn s =
      let s' = stop_if_set os tp_retry_conn s in
      if s'.dcb.timer_tp_wait_conn == 0 then s' else stop_if_set os tp_wait_conn (conn_stop os s')

  abbrev after_retry : TransportStatus × Sys os → Sys os
  after_retry (tcp_conn, s) = start os tp_wait_conn os.time_wait_conn (clear os tp_retry_conn s)
  after_retry (tcp_fail, s) = start os tp_retry_conn os.time_retry_conn (clear os tp_wait_conn s)
  after_retry (fail, s) = start os tp_retry_conn os.time_retry_conn (clear os tp_wait_conn s)
  after_retry (_, s) = s

  -- `if(timerId = pDcb->timerId_tpWaitConn)` assigns: it tests whether that timer is set, whichever
  -- timer has fired. So does the second test.
  client_timeout : ℕ → Sys os → Sys os
  unfolding conn_start
  client_timeout timer_id s =
      if s.dcb.timer_tp_wait_conn == 0
      then (if s.dcb.timer_tp_retry_conn == 0
          then start os tp_retry_conn os.time_retry_conn s
          else after_retry (conn_start os s))
      else start os tp_retry_conn os.time_retry_conn (clear os tp_wait_conn s)

  -- `diaConnStateClientCosed_onMsg`.
  unfoldable pub client_closed_on_msg : ConnMsgType → ℕ → Sys os → Option (Sys os)
  unfolding client_transport_ready client_transport_down client_force_conn client_stop_conn
      client_timeout
  client_closed_on_msg transport_ready timer_id s = client_transport_ready s
  client_closed_on_msg transport_down timer_id s = some (client_transport_down s)
  client_closed_on_msg force_conn timer_id s = some (client_force_conn s)
  client_closed_on_msg stop_conn timer_id s = some (client_stop_conn s)
  client_closed_on_msg timeout timer_id s = some (client_timeout timer_id s)
  client_closed_on_msg _ timer_id s = some s

  -- `diaConnStateServerClosed_onMsg`; `diaConnProcessCer` is empty and succeeds.
  unfoldable pub server_closed_on_msg : ConnMsgType → Sys os → Option (Sys os)
  unfolding send_common_msg enter_state conn_stop
  server_closed_on_msg rcv_cer s =
      send_common_msg os cer false result_code_diameter_success s >>= λ s'.
      some (enter_state os opened (set_wait_dwa os false (start os watchdog os.time_watchdog s')))
  server_closed_on_msg stop_conn s = some (conn_stop os s)
  server_closed_on_msg _ s = some s

  -- Closes the connection, and enters the state with the retry timer running for the connect time.
  give_up : ConnState → Sys os → Sys os
  unfolding conn_stop enter_state
  give_up c s = enter_state os c (start os tp_retry_conn os.time_wait_conn (conn_stop os s))

  unfoldable pub after_cea : OsStatus × Dcb → Sys os → Sys os
  unfolding give_up enter_state
  after_cea (status_ok, d) s =
      enter_state os opened
        (set_wait_dwa os false (start os watchdog os.time_watchdog (record s { dcb = d })))
  after_cea (_, d) s = give_up client_closed (record s { dcb = d })

  abbrev pub closed_state : Bool → ConnState
  closed_state true = server_closed
  closed_state false = client_closed

  -- `diaConnStateClientWaitCea_onMsg`. The test of the timeout assigns too.
  unfoldable pub client_wait_cea_on_msg :
      ConnMsgType → Option MsgDecoded → ℕ → Sys os → Option (Sys os)
  unfolding after_cea give_up conn_stop enter_state
  client_wait_cea_on_msg rcv_cea msg timer_id s =
      let s' = stop_if_set os twt s in process_cea msg s'.dcb >>= λ r. some (after_cea r s')
  client_wait_cea_on_msg timeout msg timer_id s =
      if s.dcb.timer_twt == 0 then some s else some (give_up (closed_state s.dcb.is_server) s)
  client_wait_cea_on_msg stop_conn msg timer_id s =
      some (enter_state os opened (conn_stop os (stop_if_set os twt s)))
  client_wait_cea_on_msg transport_down msg timer_id s =
      some (give_up client_closed (stop_if_set os twt s))
  client_wait_cea_on_msg _ msg timer_id s = some s

  -- `diaConnStateClosing_onMsg`.
  unfoldable pub closing_on_msg : ConnMsgType → ℕ → Sys os → Option (Sys os)
  unfolding enter_state
  closing_on_msg timeout timer_id s =
      if timer_id == s.dcb.timer_twt
      then some (enter_state os client_closed (clear os twt s))
      else some s
  closing_on_msg rcv_dpa timer_id s = some (enter_state os client_closed (stop_if_set os twt s))
  closing_on_msg transport_down timer_id s =
      some (enter_state os client_closed (stop_if_set os twt s))
  closing_on_msg _ timer_id s = some s
