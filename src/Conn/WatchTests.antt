-- ===== src/Conn/WatchTests.antt =====
-- The timers of a client connection on a concrete timer wheel, which keeps the ids that run.
use diameter.Common.{
  ℕ, ◌+◌, ◌≡◌, refl, inl, true, false, some, none, List, [], ◌∷◌, ◌++◌, ◌==◌, arith, contains,
}
use diameter.Conn.Types.{tcp_conn, tcp_ok, fd, timeout, transport_ready, rcv_cea, transport_down}
use diameter.Conn.Os.{Os, TimerModel}
use diameter.Conn.Cea.{process_cea}
use diameter.Conn.Steps.{Sys, notify_failover, notify_failback, conn_start}
use diameter.Conn.Connecting.{client_closed_on_msg, client_wait_cea_on_msg, after_cea}
use diameter.Conn.Connected.{open_on_msg, down_on_msg, on_msg, init}
use diameter.Conn.Demo.{unlink, next_in, demo-ListLaws, fresh, good_cea, from_some}
use diameter.Conn.Timers.{expired}

-- The last id, and the ids that run.
abbrev Wheel : Type 0
Wheel = ℕ × List ℕ

abbrev timed : Os
timed = record {
  World = Wheel;
  Buf = ℕ;
  start_timer = λ ms w. (w.0 + 1, (w.0 + 1, (w.0 + 1) ∷ w.1));
  stop_timer = λ t w. (0, (w.0, unlink t w.1));
  restart_timer = λ t w. (t, w);
  tp_connect = λ w. (tcp_conn, fd 3, w);
  tp_send = λ b w. (tcp_ok, w);
  tp_close = λ f w. w;
  is_os_status_ok = λ s. true;
  unlink_element = unlink;
  append_element = λ l a. l ++ (a ∷ []);
  next_element = next_in;
  build = λ c r n h w. (some 0, h, w);
  time_wait_conn = 60000;
  time_retry_conn = 120000;
  time_watchdog = 40000;
  time_transmit_wait = 5000;
}

contains-others :
    (t u : ℕ) (l : List ℕ) → (t == u) ≡ false → contains u l ≡ true → contains u (unlink t l) ≡ true
contains-others t u l ne h = ground (arith, demo-ListLaws.contains-unlink t u l)

contains-head : (n : ℕ) (l : List ℕ) → contains n (n ∷ l) ≡ true
contains-head n l = ground arith

abbrev timed-TimerModel : TimerModel timed
timed-TimerModel = record {
  running = λ w t. contains t w.1;
  expire = λ t w. (w.0, unlink t w.1);
  start-runs = λ ms w. contains-head (w.0 + 1) w.1;
  restart-runs = λ t w h. h;
  expire-others = λ t u w. contains-others t u w.1;
  build-runs = λ c b n h w t k. k;
  send-runs = λ buf w t k. k;
  connect-answer = λ w. inl refl;
}

abbrev fresh_timed : Sys timed
fresh_timed = record { dcb = fresh.dcb; intf = fresh.intf; world = (0, []) }

abbrev begun : Sys timed
unfolding init on_msg client_closed_on_msg conn_start
begun = from_some fresh_timed (init timed false true fresh_timed)

abbrev ready : Sys timed
unfolding begun on_msg client_closed_on_msg
ready = from_some begun (on_msg timed transport_ready none 0 begun)

abbrev serving : Sys timed
unfolding begun ready on_msg client_wait_cea_on_msg process_cea after_cea notify_failback
serving = from_some ready (on_msg timed rcv_cea (some good_cea) 0 ready)

-- The watchdog, which is timer 3, expires, and a DWR goes out.
abbrev asked : Sys timed
unfolding serving on_msg open_on_msg
asked = from_some serving (on_msg timed timeout none 3 (expired timed timed-TimerModel 3 serving))

abbrev lost : Sys timed
unfolding asked on_msg open_on_msg notify_failover
lost = from_some asked (on_msg timed transport_down none 0 asked)

-- The new watchdog, timer 5, expires, and the connection is set up again.
abbrev retried : Sys timed
unfolding lost on_msg down_on_msg
retried = from_some lost (on_msg timed timeout none 5 (expired timed timed-TimerModel 5 lost))
