-- ===== src/Conn/Timers.antt =====
-- Which timer runs in which state: the watch over a client connection (common/src/diaConnState.c).
-- The expiry of the watchdog in REOPEN is left out: it is ignored there, as Reopen shows.
use diameter.Common.{ℕ, ◌≡◌, ◌≢◌, ◌⊎◌, ap, ◌∙◌, ◌<◌, true, false, Option, none, some, arith, ◌>>=◌}
use mathlib.Core.Path.{subst}
use diameter.Msg.{OsStatus, MsgDecoded}
use diameter.Conn.Types.{
  ConnState, client_closed, client_wait_cea, server_closed, opened, suspect, down, reopen, closing,
  ConnMsgType, stop_conn, timeout, rcv_cea, twt, Dcb,
}
use diameter.Conn.Os.{Os, TimerLaws, TimerModel}
use diameter.Conn.Cea.{Framed, process_cea, process_cea_frame}
use diameter.Conn.Steps.{
  Sys, stop_if_set, notify_failback, notify_failover, send_common_msg, conn_start,
}
use diameter.Conn.Frames.{stop_if_set-dcb}
use diameter.Conn.Connecting.{client_closed_on_msg, client_wait_cea_on_msg, after_cea}
use diameter.Conn.Connected.{open_on_msg, suspect_on_msg, down_on_msg, reopen_on_msg}

module _ (os : Os) (model : TimerModel os) where
  -- The timer with the id runs.
  abbrev pub Runs : os.World → ℕ → Type 0
  Runs w t = (0 < t) × (model.running w t ≡ true)

  abbrev pub Armed : ConnState → Dcb → os.World → Type 0
  Armed client_closed d w =
      (Runs w d.timer_tp_wait_conn × (d.timer_tp_retry_conn ≡ 0))
      ⊎ ((d.timer_tp_wait_conn ≡ 0) × Runs w d.timer_tp_retry_conn)
  Armed client_wait_cea d w = Runs w d.timer_twt × (d.timer_tp_wait_conn ≡ 0)
  Armed opened d w = Runs w d.timer_watchdog
  Armed suspect d w = Runs w d.timer_watchdog
  Armed reopen d w = Runs w d.timer_watchdog
  Armed down d w = Runs w d.timer_watchdog ⊎ Runs w d.timer_tp_wait_conn
  Armed server_closed d w = ⊥
  Armed closing d w = ⊥

  -- A client connection with the timer of its state running.
  pub record IsArmed (s : Sys os) : Type 0 where
    pub client : s.dcb.is_server ≡ false
    pub armed : Armed s.dcb.conn_state s.dcb s.world

  abbrev pub Armed? : Option (Sys os) → Type 0
  Armed? none = Unit {0}
  Armed? (some s) = IsArmed s

  -- The timer has expired before its handler is called.
  abbrev pub expired : ℕ → Sys os → Sys os
  expired t s = record s { world = model.expire t s.world }

  pub unarmed :
      {s : Sys os} {c : ConnState} → IsArmed s → s.dcb.conn_state ≡ c → Armed c s.dcb s.world
  unarmed {s} p e = subst (λ c. Armed c s.dcb s.world) e p.armed

module _ (os : Os) (laws : TimerLaws os) (model : TimerModel os) where
  pub open_message :
      (m : ConnMsgType) (t : ℕ) (s : Sys os)
      → m ≢ stop_conn
      → m ≢ timeout
      → IsArmed os model s
      → s.dcb.conn_state ≡ opened
      → Armed? os model (open_on_msg os m t s)
  unfolding open_on_msg send_common_msg notify_failover
  open_message m t s ne nt p e = grind (
    arith, laws.start-pos, laws.restart-pos, model.start-runs, model.restart-runs, model.build-runs,
    model.send-runs,
  )

  pub open_expiry :
      (t : ℕ) (s : Sys os)
      → IsArmed os model s
      → s.dcb.conn_state ≡ opened
      → Armed? os model (open_on_msg os timeout t (expired os model t s))
  unfolding open_on_msg notify_failover
  open_expiry t s p e = grind (arith, laws.start-pos, model.start-runs, model.expire-others)

  pub suspect_message :
      (m : ConnMsgType) (t : ℕ) (s : Sys os)
      → m ≢ stop_conn
      → m ≢ timeout
      → IsArmed os model s
      → s.dcb.conn_state ≡ suspect
      → Armed? os model (suspect_on_msg os m t s)
  unfolding suspect_on_msg
  suspect_message m t s ne nt p e =
      grind (arith, laws.start-pos, laws.restart-pos, model.start-runs, model.restart-runs)

  pub suspect_expiry :
      (t : ℕ) (s : Sys os)
      → IsArmed os model s
      → s.dcb.conn_state ≡ suspect
      → Armed? os model (suspect_on_msg os timeout t (expired os model t s))
  unfolding suspect_on_msg
  suspect_expiry t s p e = grind (arith, laws.start-pos, model.start-runs)

  pub down_message :
      (m : ConnMsgType) (t : ℕ) (s : Sys os)
      → m ≢ stop_conn
      → m ≢ timeout
      → IsArmed os model s
      → s.dcb.conn_state ≡ down
      → Armed? os model (down_on_msg os m t s)
  unfolding down_on_msg
  down_message m t s ne nt p e = grind (arith, laws.start-pos, model.start-runs)

  pub down_expiry :
      (t : ℕ) (s : Sys os)
      → IsArmed os model s
      → s.dcb.conn_state ≡ down
      → Armed? os model (down_on_msg os timeout t (expired os model t s))
  unfolding down_on_msg
  down_expiry t s p e = grind (arith, laws.start-pos, model.start-runs, model.expire-others)

  pub reopen_message :
      (m : ConnMsgType) (t : ℕ) (s : Sys os)
      → m ≢ stop_conn
      → m ≢ timeout
      → IsArmed os model s
      → s.dcb.conn_state ≡ reopen
      → Armed? os model (reopen_on_msg os m t s)
  unfolding reopen_on_msg notify_failback
  reopen_message m t s ne nt p e =
      grind (arith, laws.start-pos, laws.restart-pos, model.start-runs, model.restart-runs)

  pub reopen_expiry :
      (t : ℕ) (s : Sys os)
      → t ≢ s.dcb.timer_watchdog
      → IsArmed os model s
      → s.dcb.conn_state ≡ reopen
      → Armed? os model (reopen_on_msg os timeout t (expired os model t s))
  unfolding reopen_on_msg
  reopen_expiry t s ne p e = grind (arith, laws.start-pos, model.start-runs, model.expire-others)

  pub client_closed_message :
      (m : ConnMsgType) (t : ℕ) (s : Sys os)
      → m ≢ stop_conn
      → m ≢ timeout
      → IsArmed os model s
      → s.dcb.conn_state ≡ client_closed
      → Armed? os model (client_closed_on_msg os m t s)
  unfolding client_closed_on_msg
  client_closed_message m t s ne nt p e =
      grind (arith, laws.start-pos, laws.stop-zero, model.start-runs)

  pub client_closed_expiry :
      (t : ℕ) (s : Sys os)
      → IsArmed os model s
      → s.dcb.conn_state ≡ client_closed
      → Armed? os model (client_closed_on_msg os timeout t (expired os model t s))
  unfolding client_closed_on_msg conn_start
  client_closed_expiry t s p e =
      grind (arith, laws.start-pos, model.start-runs, model.connect-answer)

  cea_armed :
      (s : Sys os) (r : Option (OsStatus × Dcb))
      → s.dcb.is_server ≡ false
      → s.dcb.timer_tp_wait_conn ≡ 0
      → Framed s.dcb r
      → Armed? os model (r >>= λ x. some (after_cea os x s))
  unfolding after_cea notify_failback
  cea_armed s r c z f = grind (arith, laws.start-pos, model.start-runs)

  pub client_wait_cea_message :
      (m : ConnMsgType) (msg : Option MsgDecoded) (t : ℕ) (s : Sys os)
      → m ≢ stop_conn
      → m ≢ timeout
      → IsArmed os model s
      → s.dcb.conn_state ≡ client_wait_cea
      → Armed? os model (client_wait_cea_on_msg os m msg t s)
  unfolding client_wait_cea_on_msg
  client_wait_cea_message rcv_cea msg t s ne nt p e =
      let s' = stop_if_set os twt s in
      let kept = stop_if_set-dcb os twt s in
      cea_armed s' (process_cea msg s'.dcb) (ap (λ (d : Dcb). d.is_server) kept ∙ p.client)
        (ap (λ (d : Dcb). d.timer_tp_wait_conn) kept ∙ (unarmed os model p e).1)
        (process_cea_frame msg s'.dcb)
  client_wait_cea_message _ msg t s ne nt p e = grind (arith, laws.start-pos, model.start-runs)

  pub client_wait_cea_expiry :
      (t : ℕ) (s : Sys os)
      → IsArmed os model s
      → s.dcb.conn_state ≡ client_wait_cea
      → Armed? os model (client_wait_cea_on_msg os timeout none t (expired os model t s))
  unfolding client_wait_cea_on_msg
  client_wait_cea_expiry t s p e = grind (arith, laws.start-pos, model.start-runs)
