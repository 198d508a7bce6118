-- ===== src/Conn/Steps.antt =====
-- The steps from which the handlers are made. A state of the system is the connection, the
-- interface that it belongs to and the outside. `none` is undefined behaviour: a null pointer read.
use diameter.Common.{ℕ, Bool, true, false, Option, none, some, ◌==◌, if◌then◌else◌, List, [], ◌∷◌}
use diameter.Msg.{CmdHdrInfo}
use diameter.Conn.Types.{
  ConnState, opened, IntfState, use_none, use_priority, use_stby, TransportStatus, Fd, no_fd, fd,
  Timer, Dcb, get_timer, set_timer, PeerGroup, ConnIntf, get_group, set_group,
}
use diameter.Conn.Os.{Os, CommonCmd, cer, dwr, dpr}

module _ (os : Os) where
  pub record Sys : Type 0 where
    pub dcb : Dcb
    pub intf : ConnIntf
    pub world : os.World

  -- `pDcb->timer = diaStartTimer(ms, pDcb)`.
  abbrev pub start : Timer → ℕ → Sys → Sys
  start t ms s =
      let (id, w) = os.start_timer ms s.world in record s { dcb = set_timer t id s.dcb; world = w }

  -- `pDcb->timer = osStopTimer(pDcb->timer)`.
  abbrev stop : Timer → Sys → Sys
  stop t s =
      let (id, w) = os.stop_timer (get_timer t s.dcb) s.world in
      record s { dcb = set_timer t id s.dcb; world = w }

  -- `pDcb->timer = osRestartTimer(pDcb->timer)`.
  abbrev pub restart : Timer → Sys → Sys
  restart t s =
      let (id, w) = os.restart_timer (get_timer t s.dcb) s.world in
      record s { dcb = set_timer t id s.dcb; world = w }

  -- `if(pDcb->timer) pDcb->timer = osStopTimer(pDcb->timer)`.
  abbrev pub stop_if_set : Timer → Sys → Sys
  stop_if_set t s = if get_timer t s.dcb == 0 then s else stop t s

  -- `pDcb->timer = 0`.
  abbrev pub clear : Timer → Sys → Sys
  clear t s = record s { dcb = set_timer t 0 s.dcb }

  abbrev pub set_wait_dwa : Bool → Sys → Sys
  set_wait_dwa b s = record s { dcb = record s.dcb { is_wait_dwa = b } }

  -- `diaConnMgr_startConn`, with the transport's answer.
  unfoldable pub conn_start : Sys → TransportStatus × Sys
  conn_start s =
      let (status, new_fd, w) = os.tp_connect s.world in
      (status, record s { dcb = record s.dcb { tcp_fd = new_fd; tp_tcp_fd = no_fd }; world = w })

  unfoldable pub close_fd : Fd → os.World → os.World
  close_fd no_fd w = w
  close_fd (fd n) w = os.tp_close (fd n) w

  -- `diaConnMgr_stopConn`. The connection block keeps its descriptor.
  unfoldable pub conn_stop : Sys → Sys
  unfolding close_fd
  conn_stop s = record s { world = close_fd s.dcb.tcp_fd s.world }

  transmit : Option os.Buf × CmdHdrInfo × os.World → Sys → Option Sys
  transmit (none, hdr, w) s = none
  transmit (some buf, hdr, w) s =
      let (status, w') = os.tp_send buf w in
      some (record s { dcb = record s.dcb { cmd_hdr_info = hdr }; world = w' })

  -- `diaSendCommonMsg`. For DPR no case builds a message, and the hex dump reads through the null
  -- `pBuf`; so it does when a builder fails. A failed send is logged, and reported by a message of
  -- the transport later.
  unfoldable pub send_common_msg : CommonCmd → Bool → ℕ → Sys → Option Sys
  unfolding transmit
  send_common_msg dpr is_req result s = none
  send_common_msg cer is_req result s =
      transmit (os.build cer is_req result s.dcb.cmd_hdr_info s.world) s
  send_common_msg dwr is_req result s =
      transmit (os.build dwr is_req result s.dcb.cmd_hdr_info s.world) s

  -- The change of `intfState` on a failover: is the group the priority group, its `pNextPeer`.
  abbrev failover_state : Bool → Option ℕ → IntfState → IntfState
  failover_state true none use_priority = use_stby
  failover_state false none use_stby = use_none
  failover_state _ _ i = i

  -- `diaconnMgr_notifyFailover`: the peer waits. `unlink` takes it off whichever list it is on.
  unfoldable pub notify_failover : Sys → Sys
  notify_failover s =
      let g = get_group s.dcb.is_priority s.intf in
      let g' : PeerGroup = record {
        active = os.unlink_element s.dcb.id g.active;
        waiting = os.append_element (os.unlink_element s.dcb.id g.waiting) s.dcb.id;
        next_peer = g.next_peer;
      } in
      record s {
        intf = record (set_group s.dcb.is_priority g' s.intf) {
          intf_state = failover_state s.dcb.is_priority g.next_peer s.intf.intf_state;
        };
      }

  abbrev failback_state : Bool → IntfState → IntfState
  failback_state true i = use_priority
  failback_state false use_none = use_stby
  failback_state false i = i

  abbrev head_of : List ℕ → Option ℕ
  head_of [] = none
  head_of (a ∷ l) = some a

  abbrev or_head : Option ℕ → List ℕ → Option ℕ
  or_head none l = head_of l
  or_head (some a) l = some a

  -- `diaconnMgr_notifyFailback`: the peer is active.
  unfoldable pub notify_failback : Sys → Sys
  notify_failback s =
      let g = get_group s.dcb.is_priority s.intf in
      let active' = os.append_element (os.unlink_element s.dcb.id g.active) s.dcb.id in
      let g' : PeerGroup = record {
        active = active';
        waiting = os.unlink_element s.dcb.id g.waiting;
        next_peer = or_head g.next_peer active';
      } in
      record s {
        intf = record (set_group s.dcb.is_priority g' s.intf) {
          intf_state = failback_state s.dcb.is_priority s.intf.intf_state;
        };
      }

  abbrev set_state : ConnState → Sys → Sys
  set_state c s = record s { dcb = record s.dcb { conn_state = c } }

  opens : ConnState → ConnState → Sys → Sys
  opens opened opened s = s
  opens _ opened s = notify_failback s
  opens _ _ s = s

  -- `diaConnStateEnterState`: entering OPEN from another state is a failback.
  unfoldable pub enter_state : ConnState → Sys → Sys
  unfolding opens
  enter_state c s = set_state c (opens s.dcb.conn_state c s)
