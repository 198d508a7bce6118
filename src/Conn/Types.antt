-- ===== src/Conn/Types.antt =====
-- The state of a connection: common/include/diaConnState.h and common/include/diaConnMgr.h.
use diameter.Common.{ℕ, zero, suc, Bool, Option, List, true, false, ltb, if◌then◌else◌, ◌+◌}
use diameter.Msg.{CmdHdrInfo}

-- `diaConnState_e`.
pub data ConnState : Type 0 where
  client_closed client_wait_cea server_closed opened suspect down reopen closing : ConnState

-- `diaConnMsgType_e`.
pub data ConnMsgType : Type 0 where
  no_msg timeout transport_ready transport_down force_conn stop_conn : ConnMsgType
  rcv_cer rcv_error_cea rcv_cea rcv_dwr rcv_dwa rcv_dpr rcv_dpa rcv_traffic_msg : ConnMsgType

pub ConnMsgType-discrete : Discrete ConnMsgType
ConnMsgType-discrete = hlevel

-- `diaConnIntfState_e`.
pub data IntfState : Type 0 where
  use_none use_priority use_stby : IntfState

-- `transportStatus_e`, as far as the stack names its values.
pub data TransportStatus : Type 0 where
  tcp_conn tcp_ok tcp_server_ok tcp_fail fail other_status : TransportStatus

-- `int tcpFd`: -1 is no connection.
pub data Fd : Type 0 where
  no_fd : Fd
  fd : ℕ → Fd

-- `int8_t numDwa`: `pos n` is n and `negsuc n` is -(n + 1).
pub data ℤ : Type 0 where
  pos : ℕ → ℤ
  negsuc : ℕ → ℤ

-- `numDwa++`, with the wrap of an `int8_t` from 127 to -128.
unfoldable pub incr_i8 : ℤ → ℤ
incr_i8 (pos n) = if ltb n 127 then pos (n + 1) else negsuc 127
incr_i8 (negsuc zero) = pos 0
incr_i8 (negsuc (suc n)) = negsuc n

-- The four timers of a connection; an id of 0 is no timer.
pub data Timer : Type 0 where
  tp_wait_conn tp_retry_conn watchdog twt : Timer

-- `diaConnBlock_t`. `id` is its address, which is also the identity of its list element `pLE`;
-- `is_priority` names the group that `listInfo.pPeerGrp` points to.
pub record Dcb : Type 0 where
  pub id : ℕ
  pub conn_state : ConnState
  pub tcp_fd : Fd
  pub tp_tcp_fd : Fd
  pub num_dwa : ℤ
  pub is_wait_dwa : Bool
  pub is_server : Bool
  pub is_priority : Bool
  pub peer_host : List ℕ
  pub peer_realm : List ℕ
  pub cmd_hdr_info : CmdHdrInfo
  pub timer_tp_wait_conn : ℕ
  pub timer_tp_retry_conn : ℕ
  pub timer_watchdog : ℕ
  pub timer_twt : ℕ

abbrev pub get_timer : Timer → Dcb → ℕ
get_timer tp_wait_conn d = d.timer_tp_wait_conn
get_timer tp_retry_conn d = d.timer_tp_retry_conn
get_timer watchdog d = d.timer_watchdog
get_timer twt d = d.timer_twt

abbrev pub set_timer : Timer → ℕ → Dcb → Dcb
set_timer tp_wait_conn t d = record d { timer_tp_wait_conn = t }
set_timer tp_retry_conn t d = record d { timer_tp_retry_conn = t }
set_timer watchdog t d = record d { timer_watchdog = t }
set_timer twt t d = record d { timer_twt = t }

-- `diaPeerGroup_t`: the ids of the connections that can take traffic, of those that wait, and the
-- element that takes the next request.
pub record PeerGroup : Type 0 where
  pub active : List ℕ
  pub waiting : List ℕ
  pub next_peer : Option ℕ

-- `diaConnIntf_t`.
pub record ConnIntf : Type 0 where
  pub priority_group : PeerGroup
  pub stby_group : PeerGroup
  pub intf_state : IntfState

abbrev pub get_group : Bool → ConnIntf → PeerGroup
get_group true i = i.priority_group
get_group false i = i.stby_group

abbrev pub set_group : Bool → PeerGroup → ConnIntf → ConnIntf
set_group true g i = record i { priority_group = g }
set_group false g i = record i { stby_group = g }
