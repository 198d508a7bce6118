-- ===== src/Conn/Frames.antt =====
-- What each step of the state machine leaves alone.
use diameter.Common.{ℕ, ◌≡◌, inl, inr, Bool, Bool-cases, some, arith, ◌==◌}
use diameter.Conn.Types.{
  ConnState, Timer, twt, watchdog, tp_wait_conn, tp_retry_conn, get_timer, set_timer,
}
use diameter.Conn.Os.{Os, CommonCmd}
use diameter.Conn.Steps.{Sys, stop_if_set, send_common_msg, notify_failback, enter_state}

module _ (os : Os) where
  -- The id that a timer has after `stop_if_set`.
  abbrev stopped : Timer → Sys os → ℕ
  stopped t s = get_timer t (stop_if_set os t s).dcb

  pub stop_if_set-dcb :
      (t : Timer) (s : Sys os) → (stop_if_set os t s).dcb ≡ set_timer t (stopped t s) s.dcb
  stop_if_set-dcb tp_wait_conn s = elim (Bool-cases (s.dcb.timer_tp_wait_conn == 0)) [
    | inl e ↦ rw e
    | inr e ↦ rw e
  ]
  stop_if_set-dcb tp_retry_conn s = elim (Bool-cases (s.dcb.timer_tp_retry_conn == 0)) [
    | inl e ↦ rw e
    | inr e ↦ rw e
  ]
  stop_if_set-dcb watchdog s = elim (Bool-cases (s.dcb.timer_watchdog == 0)) [
    | inl e ↦ rw e
    | inr e ↦ rw e
  ]
  stop_if_set-dcb twt s = elim (Bool-cases (s.dcb.timer_twt == 0)) [ inl e ↦ rw e | inr e ↦ rw e ]

  pub stop_if_set-intf : (t : Timer) (s : Sys os) → (stop_if_set os t s).intf ≡ s.intf
  stop_if_set-intf t s = elim (Bool-cases (get_timer t s.dcb == 0)) [ inl e ↦ rw e | inr e ↦ rw e ]

  pub enter_state-dcb :
      (c : ConnState) (s : Sys os) → (enter_state os c s).dcb ≡ record s.dcb { conn_state = c }
  unfolding enter_state notify_failback
  enter_state-dcb c s = ground arith

  pub send_common_msg-dcb :
      (c : CommonCmd) (b : Bool) (n : ℕ) (s s' : Sys os)
      → send_common_msg os c b n s ≡ some s'
      → s'.dcb ≡ record s.dcb { cmd_hdr_info = s'.dcb.cmd_hdr_info }
  unfolding send_common_msg
  send_common_msg-dcb c b n s s' h = ground arith

  pub send_common_msg-intf :
      (c : CommonCmd) (b : Bool) (n : ℕ) (s s' : Sys os)
      → send_common_msg os c b n s ≡ some s'
      → s'.intf ≡ s.intf
  unfolding send_common_msg
  send_common_msg-intf c b n s s' h = ground arith
