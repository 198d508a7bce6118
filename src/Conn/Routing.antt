-- ===== src/Conn/Routing.antt =====
-- `diaConnMgr_onMsg` and `diaConnGetActiveDcb` (common/src/diaConnMgr.c).
use Prim.Native.Nat.{bit_and}
use diameter.Common.{
  ℕ, ◌≡◌, sym, ◌∙◌, arith, Bool, true, false, not, Option, none, some, ◌==◌, ==_refl, ◌≢◌, ◌⊎◌, inl,
  inr, if◌then◌else◌, contains,
}
use diameter.Msg.{MsgDecoded, cmd_code_cer, cmd_code_dwr, cmd_code_dpr}
use diameter.Conn.Types.{
  stop_conn, client_wait_cea, opened, ConnMsgType, no_msg, transport_ready, transport_down, rcv_cer,
  rcv_error_cea, rcv_cea, rcv_dwr, rcv_dwa, rcv_dpr, rcv_dpa, rcv_traffic_msg, TransportStatus,
  tcp_conn, other_status, tcp_ok, tcp_server_ok, tcp_fail, fail, Fd, IntfState, use_none,
  use_priority, use_stby, PeerGroup, ConnIntf,
}
use diameter.Conn.Os.{Os, ListLaws}
use diameter.Conn.Steps.{Sys, notify_failover, enter_state}
use diameter.Conn.Connecting.{client_wait_cea_on_msg}
use diameter.Conn.Connected.{on_msg}
use diameter.Conn.Graph.{Edge, on_msg-Edge}

-- `diaTransportMsg_t`: a message of the peer, or the status of the connection with its descriptor.
pub data TpMsg : Type 0 where
  peer_msg : TpMsg
  conn_status : TransportStatus → Fd → TpMsg

abbrev pub has_flag : ℕ → ℕ → Bool
has_flag mask flag = not (bit_and flag mask == 0)

-- The switch over the command.
unfoldable pub msg_type_of : MsgDecoded → ConnMsgType
msg_type_of d =
    if d.cmd_code == cmd_code_cer
    then (if has_flag 0x80 d.cmd_flag
        then rcv_cer
        else if has_flag 0x20 d.cmd_flag
        then rcv_error_cea
        else rcv_cea)
    else if d.cmd_code == cmd_code_dwr
    then (if has_flag 0x80 d.cmd_flag then rcv_dwr else rcv_dwa)
    else if d.cmd_code == cmd_code_dpr
    then (if has_flag 0x80 d.cmd_flag then rcv_dpr else rcv_dpa)
    else rcv_traffic_msg

-- `diaConnGetActiveDcb`, for an interface id that is in use: the next peer of the group in use, and
-- the interface with the peer after it.
module _ (os : Os) where
  -- The next element is that of the list that the peer is on.
  abbrev take_next : PeerGroup → Option ℕ × PeerGroup
  take_next g = advance g.next_peer
    where
      advance : Option ℕ → Option ℕ × PeerGroup
      advance none = (none, g)
      advance (some p) = (
        some p,
        record g {
          next_peer = os.next_element p (if contains p g.active then g.active else g.waiting);
        },
      )

  unfoldable pub get_active_dcb : ConnIntf → Option ℕ × ConnIntf
  get_active_dcb i = by_state i.intf_state
    where
      by_state : IntfState → Option ℕ × ConnIntf
      by_state use_none = (none, i)
      by_state use_priority =
          let r = take_next i.priority_group in (r.0, record i { priority_group = r.1 })
      by_state use_stby = let r = take_next i.stby_group in (r.0, record i { stby_group = r.1 })

  abbrev pub set_fd : Fd → Sys os → Sys os
  set_fd f s = record s { dcb = record s.dcb { tcp_fd = f; tp_tcp_fd = f } }

  -- The decoded message is read before it is tested: with none there is a null pointer. The address
  -- of the peer, which a ready connection writes to the control block, is left out.
  unfoldable pub conn_mgr_on_msg : TpMsg → Option MsgDecoded → Sys os → Option (Sys os)
  unfolding on_msg msg_type_of
  conn_mgr_on_msg peer_msg none s = none
  conn_mgr_on_msg peer_msg (some d) s = on_msg os (msg_type_of d) (some d) 0 s
  conn_mgr_on_msg (conn_status tcp_server_ok f) d s = on_msg os transport_ready d 0 (set_fd f s)
  conn_mgr_on_msg (conn_status tcp_ok f) d s = on_msg os transport_ready d 0 (set_fd f s)
  conn_mgr_on_msg (conn_status tcp_fail f) d s = on_msg os transport_down d 0 s
  conn_mgr_on_msg (conn_status fail f) d s = on_msg os transport_down d 0 s
  conn_mgr_on_msg (conn_status _ f) d s = on_msg os no_msg d 0 s

  -- Whatever the transport reports, and whatever message it delivers, the connection stays in its state
  -- or follows an edge of the diagram, unless the handler faults.
  pub conn_mgr_on_msg-Edge :
      (m : TpMsg) (d : Option MsgDecoded) (s s' : Sys os)
      → conn_mgr_on_msg m d s ≡ some s'
      → Edge s.dcb.is_server s.dcb.conn_state s'.dcb.conn_state
  unfolding conn_mgr_on_msg
  conn_mgr_on_msg-Edge peer_msg none s s' h = absurd (cc)
  conn_mgr_on_msg-Edge peer_msg (some d) s s' h = on_msg-Edge os (msg_type_of d) (some d) 0 s s' h
  conn_mgr_on_msg-Edge (conn_status tcp_server_ok f) d s s' h =
      on_msg-Edge os transport_ready d 0 (set_fd f s) s' h
  conn_mgr_on_msg-Edge (conn_status tcp_ok f) d s s' h =
      on_msg-Edge os transport_ready d 0 (set_fd f s) s' h
  conn_mgr_on_msg-Edge (conn_status tcp_fail f) d s s' h = on_msg-Edge os transport_down d 0 s s' h
  conn_mgr_on_msg-Edge (conn_status fail f) d s s' h = on_msg-Edge os transport_down d 0 s s' h
  conn_mgr_on_msg-Edge (conn_status tcp_conn f) d s s' h = on_msg-Edge os no_msg d 0 s s' h
  conn_mgr_on_msg-Edge (conn_status other_status f) d s s' h = on_msg-Edge os no_msg d 0 s s' h

  cea_only :
      (d : MsgDecoded)
      → msg_type_of d ≡ rcv_cea
      → ((d.cmd_code == cmd_code_cer) ≡ true)
        × (has_flag 0x80 d.cmd_flag ≡ false)
        × (has_flag 0x20 d.cmd_flag ≡ false)
  unfolding msg_type_of
  cea_only d h = ground arith

  no_stop : (d : MsgDecoded) → msg_type_of d ≢ stop_conn
  unfolding msg_type_of
  no_stop d h = ground arith

  at_wait_cea :
      (m : ConnMsgType) (msg : Option MsgDecoded) (t : ℕ) (s : Sys os)
      → s.dcb.conn_state ≡ client_wait_cea
      → on_msg os m msg t s ≡ client_wait_cea_on_msg os m msg t s
  unfolding on_msg
  at_wait_cea m msg t s w = ground arith

  wait_cea_opens :
      (m : ConnMsgType) (msg : Option MsgDecoded) (t : ℕ) (s s' : Sys os)
      → s.dcb.conn_state ≡ client_wait_cea
      → client_wait_cea_on_msg os m msg t s ≡ some s'
      → s'.dcb.conn_state ≡ opened
      → (m ≡ rcv_cea) ⊎ (m ≡ stop_conn)
  unfolding client_wait_cea_on_msg enter_state
  wait_cea_opens m msg t s s' w h e = ground arith

  -- Only a CEA opens a connection that waits for one, as far as messages of the peer go: a peer
  -- message that takes it to OPEN is a capabilities exchange without the R and the E flag.
  pub opens_on_cea :
      (d : MsgDecoded) (s s' : Sys os)
      → s.dcb.conn_state ≡ client_wait_cea
      → conn_mgr_on_msg peer_msg (some d) s ≡ some s'
      → s'.dcb.conn_state ≡ opened
      → ((d.cmd_code == cmd_code_cer) ≡ true)
        × (has_flag 0x80 d.cmd_flag ≡ false)
        × (has_flag 0x20 d.cmd_flag ≡ false)
  unfolding conn_mgr_on_msg msg_type_of
  opens_on_cea d s s' w h e =
      elim (wait_cea_opens (msg_type_of d) (some d) 0 s s' w
        (sym (at_wait_cea (msg_type_of d) (some d) 0 s w) ∙ h) e) [
          | inl r ↦ cea_only d r
          | inr r ↦ absurd (no_stop d r)
        ]

  -- A priority peer that goes down while it is the next one to use is given for the next message: it
  -- is off the active list by then, but the pointer to the next peer still names it.
  pub next_peer_stale :
      (laws : ListLaws os) (s : Sys os)
      → s.dcb.is_priority ≡ true
      → s.intf.intf_state ≡ use_priority
      → s.intf.priority_group.next_peer ≡ some s.dcb.id
      → ((get_active_dcb (notify_failover os s).intf).0 ≡ some s.dcb.id)
        × (contains s.dcb.id (notify_failover os s).intf.priority_group.active ≡ false)
  unfolding get_active_dcb notify_failover
  next_peer_stale laws s p u n =
      ground (
        arith,
        laws.contains-unlink s.dcb.id s.dcb.id s.intf.priority_group.active,
        ==_refl s.dcb.id,
      )
