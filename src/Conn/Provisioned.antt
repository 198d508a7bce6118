-- ===== src/Conn/Provisioned.antt =====
-- What `diaConnMgr_init` and the clean-up of a control block leave behind (common/src/diaConnMgr.c).
use diameter.Common.{
  ℕ, zero, suc, ◌<◌, ◌≡◌, refl, sym, ap, subst, ◌∙◌, arith, Bool, true, false, Option, none, some,
  leb, [], ◌∷◌, replicate, ◌>>=◌, if_false,
}
use mathlib.Core.Option.{some-injective}
use diameter.Msg.{OsStatus, status_ok}
use diameter.Conn.Types.{Timer, twt, watchdog, tp_retry_conn, tp_wait_conn, get_timer, ℤ, pos}
use diameter.Conn.Os.{Os, ListLaws, TimerLaws}
use diameter.Conn.Steps.{Sys}
use diameter.Conn.Connected.{init}
use diameter.Conn.Membership.{IsPlaced, init-IsPlaced}
use diameter.Conn.Provision.{
  conn_block_cleanup, cx, Slot, ConnMgr, slot_at, placed_peer, started, add_new_peer, add_at,
  next_intf, conn_prov, init_intf, configured, mgr_init, blank_slot,
}

zero_free : (k : ℕ) → leb (suc k) 0 ≡ false
zero_free k = ground arith

module _ (os : Os) where
  abbrev pub PlacedOne : Sys os → ConnMgr os → Type 0
  PlacedOne x m =
      (m.intf_num ≡ 1)
      × (m.dcbs ≡ x.dcb ∷ [])
      × (m.world ≡ x.world)
      × ((s : Slot) × (slot_at 0 m.intfs ≡ some s)
          × (s.intf ≡ x.intf)
          × (s.intf_type ≡ cx)
          × IsPlaced os x)

  abbrev first_in_use : ℕ → Bool → ℕ → os.World → Sys os → ConnMgr os
  first_in_use k server id w x =
      started os 0 cx (configured os server (some id))
        (next_intf os
          (record { intfs = replicate (suc k) blank_slot; intf_num = 0; dcbs = []; world = w }))
        x

  -- The statuses on the way from `diaConnProv` to `diaConnMgr_init`.
  abbrev after_prov : Option (OsStatus × ℤ × ConnMgr os) → Option (OsStatus × ConnMgr os)
  after_prov o =
      let intf : Option (OsStatus × ConnMgr os) = o >>= λ r. some (status_ok, r.2) in
      intf >>= λ r. some (status_ok, r.1)

  abbrev with_status : Option (ConnMgr os) → Option (OsStatus × ConnMgr os)
  with_status o = after_prov (o >>= λ r. some (status_ok, pos 0, r))

  started_one :
      (k : ℕ) (server : Bool) (id : ℕ) (w : os.World) (st : OsStatus) (m : ConnMgr os)
      (o : Option (Sys os))
      → ((x : Sys os) → o ≡ some x → IsPlaced os x)
      → with_status (o >>= λ x. some (first_in_use k server id w x)) ≡ some (st, m)
      → (x : Sys os) × PlacedOne x m
  started_one k server id w st m none p h = absurd (cc)
  started_one k server id w st m (some x) p h =
      subst (λ (r : OsStatus × ConnMgr os). (x : Sys os) × PlacedOne x (r.1)) (some-injective _ _ h)
        (x, (refl, refl, refl, (_, refl, refl, refl, p x refl)))

  -- With a configured number of interfaces, and memory for the first peer, `diaConnMgr_init` that does
  -- not fault leaves one interface in use, of the type Cx, with one peer, which is on the active list
  -- of its group exactly when its connection is open, and on the waiting list exactly when it is not.
  pub mgr_init-IsPlaced :
      (laws : ListLaws os) (max : ℕ) (server : Bool) (id : ℕ) (w : os.World) (st : OsStatus)
      (m : ConnMgr os)
      → 0 < max
      → mgr_init os max server (some id) w ≡ some (st, m)
      → (x : Sys os) × PlacedOne x m
  unfolding mgr_init init_intf conn_prov add_at add_new_peer placed_peer
  mgr_init-IsPlaced laws zero server id w st m l h = absurd (omega arith)
  mgr_init-IsPlaced laws (suc k) server id w st m l h =
      started_one k server id w st m
        (init os server true (placed_peer os id true blank_slot.intf w))
        (λ x e.
          init-IsPlaced os laws server true (placed_peer os id true blank_slot.intf w) x refl
            (grind (arith, laws.contains-append)) e)
        (sym (ap after_prov (if_false _ _ (zero_free k))) ∙ h)

  -- A control block that is cleaned up has no timer left, and stays on its lists.
  pub conn_block_cleanup-stopped :
      (laws : TimerLaws os) (t : Timer) (s : Sys os)
      → (get_timer t (conn_block_cleanup os s).dcb ≡ 0) × ((conn_block_cleanup os s).intf ≡ s.intf)
  unfolding conn_block_cleanup
  conn_block_cleanup-stopped laws tp_wait_conn s = grind (arith, laws.stop-zero)
  conn_block_cleanup-stopped laws tp_retry_conn s = grind (arith, laws.stop-zero)
  conn_block_cleanup-stopped laws watchdog s = grind (arith, laws.stop-zero)
  conn_block_cleanup-stopped laws twt s = grind (arith, laws.stop-zero)
