-- ===== src/Conn/Watched.antt =====
-- The life of a client connection from its initialisation on (common/src/diaConnState.c): messages and
-- the expiry of timers reach it, and the outside changes. An operator's stop is left out, and the expiry of the
-- watchdog in REOPEN.
use diameter.Common.{ℕ, ◌≡◌, ◌≢◌, true, Option, none, some}
use diameter.Msg.{MsgDecoded}
use diameter.Conn.Types.{reopen, ConnMsgType, stop_conn, timeout, Timer, get_timer}
use diameter.Conn.Os.{Os, TimerModel}
use diameter.Conn.Steps.{Sys}
use diameter.Conn.Connected.{on_msg}
use diameter.Conn.Timers.{expired}

module _ (os : Os) (model : TimerModel os) where
  -- `elsewhere` is what other connections do meanwhile: the timers of this one that run go on running.
  pub data Step : Sys os → Sys os → Type 0 where
    message :
        (m : ConnMsgType) (msg : Option MsgDecoded) (t : ℕ) {s s' : Sys os}
        → m ≢ stop_conn
        → m ≢ timeout
        → on_msg os m msg t s ≡ some s'
        → Step s s'
    expiry :
        (t : ℕ) {s s' : Sys os}
        → model.running s.world t ≡ true
        → (s.dcb.conn_state ≡ reopen → t ≢ s.dcb.timer_watchdog)
        → on_msg os timeout none t (expired os model t s) ≡ some s'
        → Step s s'
    elsewhere :
        (w : os.World) {s : Sys os}
        → ((t : Timer)
            → model.running s.world (get_timer t s.dcb) ≡ true
            → model.running w (get_timer t s.dcb) ≡ true)
        → Step s (record s { world = w })

  pub data Reach (s : Sys os) : Sys os → Type 0 where
    here : Reach s s
    next : {t u : Sys os} → Reach s t → Step t u → Reach s u
