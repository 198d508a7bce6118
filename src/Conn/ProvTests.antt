-- ===== src/Conn/ProvTests.antt =====
-- The provisioning of peers on concrete parameters.
use diameter.Common.{◌≡◌, refl, arith, false, none, some, [], replicate}
use diameter.Msg.{OsStatus, invalid_value}
use diameter.Conn.Types.{ℤ, pos, negsuc}
use diameter.Conn.Steps.{Sys}
use diameter.Conn.Connected.{init, on_msg}
use diameter.Conn.Connecting.{client_closed_on_msg}
use diameter.Conn.Routing.{get_active_dcb}
use diameter.Conn.Demo.{demo, demo-ListLaws, from_some}
use diameter.Conn.Provision.{
  ConnMgr, cx, gx, blank_slot, configured, add_new_peer, add_at, conn_prov, init_intf, mgr_init,
  placed_peer, get_active_dcb_by_intf,
}
use diameter.Conn.Provisioned.{PlacedOne, mgr_init-IsPlaced}
use diameter.Conn.Interfaces.{Outcome, conn_prov-Outcome}

abbrev unused : ConnMgr demo
unused = record { intfs = replicate 2 blank_slot; intf_num = 0; dcbs = []; world = 0 }

abbrev at_start : OsStatus × ConnMgr demo
unfolding mgr_init init_intf conn_prov add_at add_new_peer placed_peer init on_msg
    client_closed_on_msg
at_start = from_some (invalid_value, unused) (mgr_init demo 2 false (some 7) 0)

at_start_ok : mgr_init demo 2 false (some 7) 0 ≡ some at_start
unfolding at_start mgr_init init_intf conn_prov add_at add_new_peer placed_peer init on_msg
    client_closed_on_msg
at_start_ok = refl

mgr_init-IsPlaced_example : (x : Sys demo) × PlacedOne demo x (at_start.1)
mgr_init-IsPlaced_example =
    mgr_init-IsPlaced demo demo-ListLaws 2 false 7 0 (at_start.0) (at_start.1) (omega arith)
      at_start_ok

-- An id that was never given is refused.
refused :
    conn_prov demo 2 (pos 1) gx (configured demo false (some 8)) (at_start.1)
    ≡ some (invalid_value, pos 1, at_start.1)
unfolding at_start mgr_init init_intf conn_prov add_at add_new_peer placed_peer init on_msg
    client_closed_on_msg
refused = refl

-- No peer can take traffic before its connection opens.
no_active : (get_active_dcb_by_intf demo cx (at_start.1)).0 ≡ none
unfolding get_active_dcb_by_intf get_active_dcb at_start mgr_init init_intf conn_prov add_at
    add_new_peer placed_peer init on_msg client_closed_on_msg
no_active = refl

abbrev with_gx : OsStatus × ℤ × ConnMgr demo
unfolding at_start mgr_init init_intf conn_prov add_at add_new_peer placed_peer init on_msg
    client_closed_on_msg
with_gx =
    from_some (invalid_value, negsuc 0, unused)
      (conn_prov demo 2 (negsuc 0) gx (configured demo false (some 8)) (at_start.1))

with_gx_ok :
    conn_prov demo 2 (negsuc 0) gx (configured demo false (some 8)) (at_start.1) ≡ some with_gx
unfolding with_gx at_start mgr_init init_intf conn_prov add_at add_new_peer placed_peer init on_msg
    client_closed_on_msg
with_gx_ok = refl

conn_prov-Outcome_example :
    (r : OsStatus × ℤ × ConnMgr demo) × (conn_prov demo 2
        (negsuc 0)
        gx
        (configured demo false (some 8))
        (at_start.1)
      ≡ some r)
    × Outcome demo 2 (negsuc 0) gx (configured demo false (some 8)) (at_start.1) r
unfolding at_start mgr_init init_intf conn_prov add_at add_new_peer placed_peer init on_msg
    client_closed_on_msg
conn_prov-Outcome_example =
    conn_prov-Outcome demo 2 (negsuc 0) gx (configured demo false (some 8)) (at_start.1)
      (omega arith) (omega arith, refl)
