-- ===== src/Conn/Tests.antt =====
-- The state machine on concrete messages, and its theorems at concrete inputs.
use diameter.Common.{◌≡◌, refl, ◌≢◌, inl, true, false, none, some, List, [], ◌∷◌, arith}
use diameter.Conn.Types.{
  client_wait_cea, opened, down, closing, timeout, transport_ready, transport_down, stop_conn,
  rcv_cea, rcv_dwa, rcv_traffic_msg, reopen,
}
use diameter.Conn.Cea.{process_cea}
use diameter.Conn.Steps.{Sys, notify_failover, notify_failback, enter_state, conn_start}
use diameter.Conn.Connecting.{client_closed_on_msg, client_wait_cea_on_msg, after_cea}
use diameter.Conn.Connected.{open_on_msg, suspect_on_msg, down_on_msg, on_msg, init}
use diameter.Conn.Runs.{Event, run}
use diameter.Conn.Graph.{Edge, on_msg-Edge, no_orderly_end}
use diameter.Conn.Membership.{IsPlaced, run-IsPlaced}
use diameter.Conn.Silence.{expire, IsEscalated, silent_peer}
use diameter.Conn.Reopen.{Quiet, reopens_on_second_dwa}
use diameter.Conn.Demo.{
  demo, demo-TimerLaws, demo-ListLaws, fresh, in_state, good_cea, event, from_some,
}

abbrev connect_and_lose : List Event
connect_and_lose =
    event transport_ready none 0
    ∷ event rcv_cea (some good_cea) 0
    ∷ event timeout none 4
    ∷ event timeout none 5
    ∷ event transport_down none 0
    ∷ []

abbrev begun : Sys demo
unfolding init on_msg client_closed_on_msg conn_start
begun = from_some fresh (init demo false true fresh)

begun_ok : init demo false true fresh ≡ some begun
unfolding init on_msg client_closed_on_msg
begun_ok = refl

abbrev lost : Sys demo
unfolding run begun init on_msg client_closed_on_msg client_wait_cea_on_msg open_on_msg
    notify_failback notify_failover process_cea after_cea suspect_on_msg
lost = from_some begun (run demo connect_and_lose begun)

lost_ok : run demo connect_and_lose begun ≡ some lost
unfolding run begun init on_msg client_closed_on_msg client_wait_cea_on_msg open_on_msg
    notify_failback notify_failover process_cea after_cea lost suspect_on_msg
lost_ok = refl

-- The connection opens, sends a DWR, misses the answer and loses its socket.
lost_down : lost.dcb.conn_state ≡ down
unfolding run begun init on_msg client_closed_on_msg client_wait_cea_on_msg open_on_msg
    notify_failback notify_failover process_cea after_cea lost suspect_on_msg
lost_down = refl

run-IsPlaced_example : IsPlaced demo lost
run-IsPlaced_example =
    run-IsPlaced demo demo-ListLaws false true connect_and_lose fresh begun lost refl refl begun_ok
      lost_ok

on_msg-Edge_example : Edge false client_wait_cea opened
unfolding on_msg client_wait_cea_on_msg enter_state notify_failback
on_msg-Edge_example = on_msg-Edge demo stop_conn none 0 (in_state client_wait_cea) _ refl

abbrev stopped : Sys demo
unfolding run begun init on_msg client_closed_on_msg client_wait_cea_on_msg open_on_msg
    notify_failback notify_failover process_cea after_cea lost suspect_on_msg down_on_msg
stopped = from_some lost (on_msg demo stop_conn none 0 lost)

stopped_ok : on_msg demo stop_conn none 0 lost ≡ some stopped
unfolding run begun init on_msg client_closed_on_msg client_wait_cea_on_msg open_on_msg
    notify_failback notify_failover process_cea after_cea lost suspect_on_msg down_on_msg stopped
stopped_ok = refl

no_orderly_end_example :
    (lost.dcb.conn_state ≢ opened)
    × (lost.dcb.conn_state ≢ closing)
    × (stopped.dcb.conn_state ≢ closing)
no_orderly_end_example =
    no_orderly_end demo false true connect_and_lose fresh begun lost stopped stop_conn none 0
      begun_ok lost_ok (inl refl) stopped_ok

-- An open connection whose peer is in use.
abbrev serving : Sys demo
unfolding notify_failback
serving = notify_failback demo (in_state opened)

silent_peer_example :
    (s1 : Sys demo) × (s2 : Sys demo) × (s3 : Sys demo) × (s4 : Sys demo) × (expire demo serving
      ≡ some s1)
    × (expire demo s1 ≡ some s2)
    × (expire demo s2 ≡ some s3)
    × (expire demo s3 ≡ some s4)
    × IsEscalated demo 0 s1 s2 s3 s4
unfolding serving
silent_peer_example =
    silent_peer demo demo-TimerLaws demo-ListLaws serving 0 fresh.dcb.cmd_hdr_info 0 refl refl refl
      refl refl

-- One answer, the watchdog, and traffic.
abbrev answered_once : List Event
answered_once =
    event rcv_dwa none 0
    ∷ event timeout none 2
    ∷ event rcv_traffic_msg none 0
    ∷ event timeout none 9
    ∷ []

answered_once-Quiet : Quiet answered_once
answered_once-Quiet = grind arith

abbrev back : Sys demo
unfolding on_msg down_on_msg
back = from_some fresh (on_msg demo transport_ready none 0 (in_state down))

back_ok : on_msg demo transport_ready none 0 (in_state down) ≡ some back
unfolding on_msg down_on_msg back
back_ok = refl

reopens_on_second_dwa_example :
    (s' : Sys demo) × (s2 : Sys demo) × (run demo answered_once back ≡ some s')
    × (s'.dcb.conn_state ≡ reopen)
    × (s'.world ≡ back.world)
    × (s'.intf ≡ back.intf)
    × (on_msg demo rcv_dwa none 0 s' ≡ some s2)
    × (s2.dcb.conn_state ≡ opened)
reopens_on_second_dwa_example =
    reopens_on_second_dwa demo answered_once none none 0 0 (in_state down) back refl back_ok
      answered_once-Quiet refl
