-- ===== src/Conn/RoutingTests.antt =====
-- The theorems of `Routing` and `Peers` at concrete inputs.
use diameter.Common.{◌≡◌, refl, true, false, some, none, [], ◌∷◌, ◌==◌, contains}
use diameter.Msg.{cmd_code_cer}
use diameter.Conn.Types.{client_wait_cea, opened, use_priority}
use diameter.Conn.Cea.{process_cea}
use diameter.Conn.Steps.{Sys, notify_failover, notify_failback, enter_state}
use diameter.Conn.Connecting.{client_wait_cea_on_msg, after_cea}
use diameter.Conn.Connected.{on_msg}
use diameter.Conn.Routing.{
  peer_msg, has_flag, msg_type_of, get_active_dcb, conn_mgr_on_msg, opens_on_cea, next_peer_stale,
}
use diameter.Conn.Peers.{peer_lists, heads, find_first, last_of, or_last, get_dcb, get_dcb_lem}
use diameter.Conn.Demo.{demo, demo-ListLaws, fresh, in_state, good_cea, from_some}

abbrev by_cea : Sys demo
unfolding conn_mgr_on_msg msg_type_of on_msg client_wait_cea_on_msg process_cea after_cea
    notify_failback enter_state
by_cea = from_some fresh (conn_mgr_on_msg demo peer_msg (some good_cea) (in_state client_wait_cea))

by_cea_ok : conn_mgr_on_msg demo peer_msg (some good_cea) (in_state client_wait_cea) ≡ some by_cea
unfolding by_cea conn_mgr_on_msg msg_type_of on_msg client_wait_cea_on_msg process_cea after_cea
    notify_failback enter_state
by_cea_ok = refl

by_cea_opened : by_cea.dcb.conn_state ≡ opened
unfolding by_cea conn_mgr_on_msg msg_type_of on_msg client_wait_cea_on_msg process_cea after_cea
    notify_failback enter_state
by_cea_opened = refl

opens_on_cea_example :
    ((good_cea.cmd_code == cmd_code_cer) ≡ true)
    × (has_flag 0x80 good_cea.cmd_flag ≡ false)
    × (has_flag 0x20 good_cea.cmd_flag ≡ false)
opens_on_cea_example =
    opens_on_cea demo good_cea (in_state client_wait_cea) by_cea refl by_cea_ok by_cea_opened

-- Two active peers, of which the one that goes down is the next.
abbrev in_use : Sys demo
in_use = record fresh {
  intf = record fresh.intf {
    priority_group = record { active = 7 ∷ 8 ∷ []; waiting = []; next_peer = some 7 };
    intf_state = use_priority;
  };
}

next_peer_stale_example :
    ((get_active_dcb demo (notify_failover demo in_use).intf).0 ≡ some 7)
    × (contains 7 (notify_failover demo in_use).intf.priority_group.active ≡ false)
next_peer_stale_example = next_peer_stale demo demo-ListLaws in_use refl refl refl

-- The peer 8 is looked for, and the peer 7 is found.
get_dcb_wrong : get_dcb (λ p. p == 8) (in_use.intf ∷ []) ≡ some 7
unfolding get_dcb
get_dcb_wrong = refl

get_dcb_lem_example :
    get_dcb (λ p. p == 8) (in_use.intf ∷ [])
    ≡ or_last
        (find_first (λ p. p == 8) (heads (peer_lists (in_use.intf ∷ []))))
        (last_of (heads (peer_lists (in_use.intf ∷ []))) none)
get_dcb_lem_example = get_dcb_lem (λ p. p == 8) (in_use.intf ∷ [])
