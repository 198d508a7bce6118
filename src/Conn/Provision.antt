-- ===== src/Conn/Provision.antt =====
-- The provisioning of peers: `diaConnMgr_init`, `diaConn_initIntf`, `diaConnProv`, `diaConnAddNewPeer` and
-- `diaConnGetActiveDcbByIntf` (common/src/diaConnMgr.c). `none` is undefined behaviour.
use diameter.Common.{
  ℕ, zero, suc, ◌-◌, ◌%◌, Bool, true, false, Option, none, some, ltb, leb, if◌then◌else◌, List, [],
  ◌∷◌, replicate, ◌>>=◌,
}
use diameter.Msg.{OsStatus, status_ok, invalid_value}
use diameter.Conn.Types.{
  client_closed, fd, no_fd, ℤ, pos, negsuc, Dcb, PeerGroup, ConnIntf, use_none, twt, watchdog,
  tp_retry_conn, tp_wait_conn, get_group, set_group,
}
use diameter.Conn.Os.{Os}
use diameter.Conn.Steps.{Sys, stop_if_set}
use diameter.Conn.Connected.{init}
use diameter.Conn.Routing.{get_active_dcb}

-- `diaIntfType_e`; the integer that is not a type of an interface is `invalid`.
pub data IntfType : Type 0 where
  cx gx rx sh invalid : IntfType

abbrev pub same_type : IntfType → IntfType → Bool
same_type cx cx = true
same_type gx gx = true
same_type rx rx = true
same_type sh sh = true
same_type invalid invalid = true
same_type _ _ = false

-- `diaConnIntf_t` with its type and its role.
pub record Slot : Type 0 where
  pub intf : ConnIntf
  pub intf_type : IntfType
  pub is_server : Bool

-- `diaConnProv_t`, and the address of the new control block, which `oszalloc` gives, or null.
pub record ConnProv : Type 0 where
  pub is_priority : Bool
  pub is_enabled : Bool
  pub is_server : Bool
  pub alloc : Option ℕ

abbrev pub no_peers : PeerGroup
no_peers = record { active = []; waiting = []; next_peer = none }

-- An interface as `diaConnMgr_init` leaves it; `oszalloc` gives it the first type.
abbrev pub blank_slot : Slot
blank_slot = record {
  intf = record { priority_group = no_peers; stby_group = no_peers; intf_state = use_none };
  intf_type = cx;
  is_server = false;
}

-- A control block that `oszalloc` gives.
abbrev pub new_dcb : ℕ → Bool → Dcb
new_dcb id priority = record {
  id = id;
  conn_state = client_closed;
  tcp_fd = fd 0;
  tp_tcp_fd = no_fd;
  num_dwa = pos 0;
  is_wait_dwa = false;
  is_server = false;
  is_priority = priority;
  peer_host = [];
  peer_realm = [];
  cmd_hdr_info = record { h2h_id = 0; e2e_id = 0 };
  timer_tp_wait_conn = 0;
  timer_tp_retry_conn = 0;
  timer_watchdog = 0;
  timer_twt = 0;
}

abbrev pub slot_at : ℕ → List Slot → Option Slot
slot_at n [] = none
slot_at zero (s ∷ l) = some s
slot_at (suc n) (s ∷ l) = slot_at n l

abbrev pub put_slot : ℕ → Slot → List Slot → List Slot
put_slot n t [] = []
put_slot zero t (s ∷ l) = t ∷ l
put_slot (suc n) t (s ∷ l) = s ∷ put_slot n t l

-- `int8_t` of a number below 256.
abbrev pub to_i8 : ℕ → ℤ
to_i8 n = if ltb n 128 then pos n else negsuc (255 - n)

module _ (os : Os) where
  -- `gDiaConnIntf`, `gIntfNum`, the control blocks that were made, the last first, and the outside.
  pub record ConnMgr : Type 0 where
    pub intfs : List Slot
    pub intf_num : ℕ
    pub dcbs : List Dcb
    pub world : os.World

  -- The peer stands on the waiting list of its group before the state machine starts.
  unfoldable pub placed_peer : ℕ → Bool → ConnIntf → os.World → Sys os
  placed_peer id priority i w =
      let g = get_group priority i in
      record {
        dcb = new_dcb id priority;
        intf =
            set_group priority
              (record {
                active = g.active;
                waiting = os.append_element g.waiting id;
                next_peer = g.next_peer;
              })
              i;
        world = w;
      }

  abbrev pub retyped : IntfType → ConnProv → Slot → Slot
  retyped type p s = record { intf = s.intf; intf_type = type; is_server = p.is_server }

  abbrev pub started : ℕ → IntfType → ConnProv → ConnMgr → Sys os → ConnMgr
  started n type p m x = record {
    intfs =
        put_slot n (record { intf = x.intf; intf_type = type; is_server = p.is_server }) m.intfs;
    intf_num = m.intf_num;
    dcbs = x.dcb ∷ m.dcbs;
    world = x.world;
  }

  -- `diaConnAddNewPeer` on an interface of the array. The addresses are left out.
  unfoldable pub add_new_peer : ℕ → IntfType → ConnProv → ConnMgr → Slot → Option ℕ → Option ConnMgr
  unfolding init placed_peer
  add_new_peer n type p m s none = some (record {
    intfs = put_slot n (retyped type p s) m.intfs;
    intf_num = m.intf_num;
    dcbs = m.dcbs;
    world = m.world;
  })
  add_new_peer n type p m s (some id) =
      init os p.is_server p.is_enabled (placed_peer id p.is_priority s.intf m.world) >>= λ x.
      some (started n type p m x)

  -- With an id as an index, which a negative one is not.
  unfoldable pub add_at : ℤ → IntfType → ConnProv → ConnMgr → Option (OsStatus × ℤ × ConnMgr)
  unfolding add_new_peer
  add_at (negsuc k) type p m = none
  add_at (pos n) type p m = slot_at n m.intfs >>= λ s.
      add_new_peer n type p m s p.alloc >>= λ r. some (status_ok, pos n, r)

  abbrev pub next_intf : ConnMgr → ConnMgr
  next_intf m = record {
    intfs = m.intfs;
    intf_num = suc m.intf_num % 256;
    dcbs = m.dcbs;
    world = m.world;
  }

  -- `diaConnProv` with the configured number of interfaces; the parameters are not null. The status,
  -- the id of the interface, and the state.
  unfoldable pub conn_prov : ℕ → ℤ → IntfType → ConnProv → ConnMgr → Option (OsStatus × ℤ × ConnMgr)
  unfolding add_at
  conn_prov max (negsuc k) type p m =
      if leb max m.intf_num
      then some (invalid_value, negsuc k, m)
      else add_at (to_i8 m.intf_num) type p (next_intf m)
  conn_prov max (pos n) type p m =
      if leb m.intf_num n then some (invalid_value, pos n, m) else add_at (pos n) type p m

  abbrev pub configured : Bool → Option ℕ → ConnProv
  configured server a = record {
    is_priority = true;
    is_enabled = true;
    is_server = server;
    alloc = a;
  }

  -- `diaConn_initIntf` with `diaConfig_isServer`: the status of the provisioning is not looked at.
  unfoldable pub init_intf : ℕ → IntfType → Bool → Option ℕ → ConnMgr → Option (OsStatus × ConnMgr)
  unfolding conn_prov
  init_intf max invalid server a m = some (invalid_value, m)
  init_intf max type server a m =
      conn_prov max (negsuc 0) type (configured server a) m >>= λ r. some (status_ok, r.2)

  -- `diaConnMgr_init`, with memory for the interfaces.
  unfoldable pub mgr_init : ℕ → Bool → Option ℕ → os.World → Option (OsStatus × ConnMgr)
  unfolding init_intf
  mgr_init max server a w =
      init_intf max cx server a
        (record { intfs = replicate max blank_slot; intf_num = 0; dcbs = []; world = w })
      >>= λ r. some (status_ok, r.1)

  -- The first of the interfaces in use that has the type, and its index.
  abbrev pub find_intf : IntfType → ℕ → ℕ → List Slot → Option (ℕ × Slot)
  find_intf type i zero l = none
  find_intf type i (suc left) [] = none
  find_intf type i (suc left) (s ∷ l) =
      if same_type s.intf_type type then some (i, s) else find_intf type (suc i) left l

  -- `diaConnGetActiveDcbByIntf`, for less than 128 interfaces: the peer, and the interfaces.
  unfoldable pub get_active_dcb_by_intf : IntfType → ConnMgr → Option ℕ × ConnMgr
  unfolding get_active_dcb
  get_active_dcb_by_intf type m = elim (find_intf type 0 m.intf_num m.intfs) [
    | none ↦ (none, m)
    | some f ↦
        let (peer, i) = get_active_dcb os (f.1).intf in
        (
          peer,
          record {
            intfs =
                put_slot (f.0)
                  (record { intf = i; intf_type = (f.1).intf_type; is_server = (f.1).is_server })
                  m.intfs;
            intf_num = m.intf_num;
            dcbs = m.dcbs;
            world = m.world;
          },
        )
  ]

  -- `diaConnBlock_cleanup`: the memory is left out.
  unfoldable pub conn_block_cleanup : Sys os → Sys os
  conn_block_cleanup s =
      stop_if_set os twt
        (stop_if_set os watchdog (stop_if_set os tp_retry_conn (stop_if_set os tp_wait_conn s)))
