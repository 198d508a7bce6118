-- ===== src/Conn/Os.antt =====
-- What the state machine calls and this repository does not hold: timers (osTimer.h), the TCP
-- transport (transportIntf.h), peer lists (osList.h); and the message builders of diaBase.
use diameter.Common.{
  ℕ, ◌≡◌, Bool, true, false, Option, List, ◌==◌, if◌then◌else◌, contains, ◌<◌, ◌⊎◌,
}
use diameter.Msg.{CmdHdrInfo}
use diameter.Conn.Types.{TransportStatus, Fd, tcp_conn, tcp_fail, fail}

-- The commands that the state machine sends.
pub data CommonCmd : Type 0 where
  cer dwr dpr : CommonCmd

pub record Os : Type 1 where
  -- The outside: the timer wheel, the sockets, the message counters.
  pub World : Type 0
  -- A message buffer.
  pub Buf : Type 0
  -- `osStartTimer`, `osStopTimer` and `osRestartTimer`.
  pub start_timer : ℕ → World → ℕ × World
  pub stop_timer : ℕ → World → ℕ × World
  pub restart_timer : ℕ → World → ℕ × World
  -- `transport_send` with no buffer: open a connection, and report its descriptor.
  pub tp_connect : World → TransportStatus × Fd × World
  -- `transport_send` of a buffer.
  pub tp_send : Buf → World → TransportStatus × World
  -- `transport_closeTcpConn`.
  pub tp_close : Fd → World → World
  -- Whether a transport status has the integer value of `OS_STATUS_OK`.
  pub is_os_status_ok : TransportStatus → Bool
  -- `osList_unlinkElement`, `osList_appendLE` and `osList_getNextElement` on a list of peers.
  pub unlink_element : ℕ → List ℕ → List ℕ
  pub append_element : List ℕ → ℕ → List ℕ
  pub next_element : ℕ → List ℕ → Option ℕ
  -- The builders of diaBase: command, request or answer, result code. A request gets new ids.
  pub build : CommonCmd → Bool → ℕ → CmdHdrInfo → World → Option Buf × CmdHdrInfo × World
  -- The DIA_CONN_TIMER_* values of the configuration, in milliseconds.
  pub time_wait_conn : ℕ
  pub time_retry_conn : ℕ
  pub time_watchdog : ℕ
  pub time_transmit_wait : ℕ

-- What the code relies on: a started timer has an id, a stopped one has none.
pub record TimerLaws (os : Os) : Type 0 where
  pub start-pos : (ms : ℕ) (w : os.World) → 0 < (os.start_timer ms w).0
  pub stop-zero : (t : ℕ) (w : os.World) → (os.stop_timer t w).0 ≡ 0
  pub restart-pos : (t : ℕ) (w : os.World) → 0 < t → 0 < (os.restart_timer t w).0

-- Timers that run until they expire, and what the code relies on: a timer that is started or restarted
-- runs, the expiry of one leaves the others running, and building or sending a message stops
-- none. An attempt to connect succeeds or fails.
pub record TimerModel (os : Os) : Type 0 where
  pub running : os.World → ℕ → Bool
  pub expire : ℕ → os.World → os.World
  pub start-runs :
      (ms : ℕ) (w : os.World) → running (os.start_timer ms w).1 (os.start_timer ms w).0 ≡ true
  pub restart-runs :
      (t : ℕ) (w : os.World)
      → running w t ≡ true
      → running (os.restart_timer t w).1 (os.restart_timer t w).0 ≡ true
  pub expire-others :
      (t u : ℕ) (w : os.World)
      → (t == u) ≡ false
      → running w u ≡ true
      → running (expire t w) u ≡ true
  pub build-runs :
      (c : CommonCmd) (b : Bool) (n : ℕ) (h : CmdHdrInfo) (w : os.World) (t : ℕ)
      → running w t ≡ true
      → running (os.build c b n h w).2 t ≡ true
  pub send-runs :
      (buf : os.Buf) (w : os.World) (t : ℕ)
      → running w t ≡ true
      → running (os.tp_send buf w).1 t ≡ true
  pub connect-answer :
      (w : os.World)
      → ((os.tp_connect w).0 ≡ tcp_conn)
        ⊎ (((os.tp_connect w).0 ≡ tcp_fail) ⊎ ((os.tp_connect w).0 ≡ fail))

-- What the code relies on: an unlinked peer is off the list, an appended one is on it, and the
-- other peers stay where they are.
pub record ListLaws (os : Os) : Type 0 where
  pub contains-unlink :
      (a b : ℕ) (l : List ℕ)
      → contains b (os.unlink_element a l) ≡ (if b == a then false else contains b l)
  pub contains-append :
      (a b : ℕ) (l : List ℕ)
      → contains b (os.append_element l a) ≡ (if b == a then true else contains b l)
