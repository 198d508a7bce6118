-- ===== src/Conn/Interfaces.antt =====
-- What `diaConnProv` (common/src/diaConnMgr.c) does with the array of the interfaces.
use diameter.Common.{
  ℕ, zero, suc, ◌≤◌, ◌<◌, ◌≡◌, ◌≢◌, refl, sym, ap, subst, ◌∙◌, arith, Bool, true, false, Bool-cases,
  ◌⊎◌, inl, inr, Option, none, some, leb, List, [], ◌∷◌, length, ◌>>=◌, if_true, if_false,
}
use diameter.Msg.{OsStatus, status_ok, invalid_value}
use diameter.Conn.Types.{ℤ, pos, negsuc, Dcb, ConnIntf}
use diameter.Conn.Os.{Os}
use diameter.Conn.Steps.{Sys}
use diameter.Conn.Connecting.{client_closed_on_msg, server_closed_on_msg}
use diameter.Conn.Connected.{init, on_msg}
use diameter.Conn.Provision.{
  IntfType, Slot, ConnProv, ConnMgr, slot_at, put_slot, to_i8, placed_peer, started, add_new_peer,
  add_at, next_intf, conn_prov,
}

length-put_slot : (n : ℕ) (s : Slot) (l : List Slot) → length (put_slot n s l) ≡ length l
length-put_slot n s [] = refl
length-put_slot zero s (x ∷ l) = refl
length-put_slot (suc n) s (x ∷ l) = ap suc (length-put_slot n s l)

slot_at-some : (n : ℕ) (l : List Slot) → n < length l → (s : Slot) × (slot_at n l ≡ some s)
slot_at-some n [] h = absurd (omega (arith, h))
slot_at-some zero (x ∷ l) h = (x, refl)
slot_at-some (suc n) (x ∷ l) h = slot_at-some n l (omega (arith, h))

slot_at-put_slot :
    (n : ℕ) (s : Slot) (l : List Slot) → n < length l → slot_at n (put_slot n s l) ≡ some s
slot_at-put_slot n s [] h = absurd (omega (arith, h))
slot_at-put_slot zero s (x ∷ l) h = refl
slot_at-put_slot (suc n) s (x ∷ l) h = slot_at-put_slot n s l (omega (arith, h))

slot_at-others :
    (i n : ℕ) (s : Slot) (l : List Slot) → i ≢ n → slot_at i (put_slot n s l) ≡ slot_at i l
slot_at-others i n s [] h = refl
slot_at-others zero zero s (x ∷ l) h = absurd (h refl)
slot_at-others zero (suc n) s (x ∷ l) h = refl
slot_at-others (suc i) zero s (x ∷ l) h = refl
slot_at-others (suc i) (suc n) s (x ∷ l) h = slot_at-others i n s l (λ e. h (ap suc e))

-- The interface has the type and the role that were given, and the others are what they were.
abbrev pub Took : ℕ → IntfType → ConnProv → List Slot → List Slot → Type 0
Took n type p before after =
    (length after ≡ length before)
    × ((s : Slot) × (slot_at n after ≡ some s) × (s.intf_type ≡ type) × (s.is_server ≡ p.is_server))
    × ((i : ℕ) → i ≢ n → slot_at i after ≡ slot_at i before)

put_slot-Took :
    (n : ℕ) (type : IntfType) (p : ConnProv) (i : ConnIntf) (l : List Slot)
    → n < length l
    → Took n type p l
        (put_slot n (record { intf = i; intf_type = type; is_server = p.is_server }) l)
put_slot-Took n type p i l h =
    let s : Slot = record { intf = i; intf_type = type; is_server = p.is_server } in
    (
      length-put_slot n s l,
      (s, slot_at-put_slot n s l h, refl, refl),
      (λ j ne. slot_at-others j n s l ne),
    )

to_i8-small : (n : ℕ) → n < 128 → to_i8 n ≡ pos n
to_i8-small n h = ground arith

abbrev pub InBounds : (os : Os) → ℕ → ConnMgr os → Type 0
InBounds os max m = (m.intf_num ≤ max) × (length m.intfs ≡ max)

module _ (os : Os) where
  init-ran :
      (server enabled : Bool) (s : Sys os) → (x : Sys os) × (init os server enabled s ≡ some x)
  unfolding init on_msg client_closed_on_msg server_closed_on_msg
  init-ran true true s = (_, refl)
  init-ran true false s = (_, refl)
  init-ran false true s = (_, refl)
  init-ran false false s = (_, refl)

  -- A control block is new if there is memory for it.
  abbrev pub Blocks : Option ℕ → List Dcb → List Dcb → Type 0
  Blocks none before after = after ≡ before
  Blocks (some a) before after = (d : Dcb) × (after ≡ d ∷ before)

  abbrev Sized : ℕ → IntfType → ConnProv → ConnMgr os → Option (ConnMgr os) → Type 0
  Sized n type p m none = ⊥
  Sized n type p m (some m') =
      (m'.intf_num ≡ m.intf_num) × Took n type p m.intfs m'.intfs × Blocks p.alloc m.dcbs m'.dcbs

  new_peer :
      (n : ℕ) (type : IntfType) (p : ConnProv) (m : ConnMgr os) (s : Slot) (a : Option ℕ)
      → p.alloc ≡ a
      → n < length m.intfs
      → Sized n type p m (add_new_peer os n type p m s a)
  unfolding add_new_peer
  new_peer n type p m s none e l = (
    refl,
    put_slot-Took n type p s.intf m.intfs l,
    subst (λ a. Blocks a m.dcbs m.dcbs) (sym e) refl,
  )
  new_peer n type p m s (some id) e l =
      let (x, ran) =
        init-ran p.is_server p.is_enabled (placed_peer os id p.is_priority s.intf m.world) in
      subst (λ (o : Option (Sys os)). Sized n type p m (o >>= λ x. some (started os n type p m x)))
        (sym ran)
        (
          refl,
          put_slot-Took n type p x.intf m.intfs l,
          subst (λ a. Blocks a m.dcbs (x.dcb ∷ m.dcbs)) (sym e) (x.dcb, refl),
        )

  abbrev Added : ℕ → IntfType → ConnProv → ConnMgr os → Option (OsStatus × ℤ × ConnMgr os) → Type 0
  Added n type p m none = ⊥
  Added n type p m (some (st, j, m')) =
      (st ≡ status_ok)
      × (j ≡ pos n)
      × (m'.intf_num ≡ m.intf_num)
      × Took n type p m.intfs m'.intfs
      × Blocks p.alloc m.dcbs m'.dcbs

  with_peer :
      (n : ℕ) (type : IntfType) (p : ConnProv) (m : ConnMgr os) (r : Option (ConnMgr os))
      → Sized n type p m r
      → Added n type p m (r >>= λ x. some (status_ok, pos n, x))
  with_peer n type p m none z = absurd z
  with_peer n type p m (some x) z = (refl, refl, z.0, z.1, z.2)

  add_at-Added :
      (n : ℕ) (type : IntfType) (p : ConnProv) (m : ConnMgr os)
      → n < length m.intfs
      → Added n type p m (add_at os (pos n) type p m)
  unfolding add_at
  add_at-Added n type p m l =
      let (s, e) = slot_at-some n m.intfs l in
      subst
        (λ (o : Option Slot).
          Added n type p m
            (o >>= λ s. add_new_peer os n type p m s p.alloc >>= λ r. some (status_ok, pos n, r)))
        (sym e) (with_peer n type p m _ (new_peer n type p m s p.alloc refl l))

  -- What is left of a call: a refusal exactly when all interfaces are in use, or the id is not in use, which
  -- changes nothing; else the interface and the control block that it gets.
  abbrev pub Outcome : ℕ → ℤ → IntfType → ConnProv → ConnMgr os → OsStatus × ℤ × ConnMgr os → Type 0
  Outcome max (negsuc k) type p m (st, j, m') =
      InBounds os max m'
      × (((m.intf_num ≡ max) × (st ≡ invalid_value) × (j ≡ negsuc k) × (m' ≡ m))
          ⊎ ((m.intf_num < max)
              × (m'.intf_num ≡ suc m.intf_num)
              × (st ≡ status_ok)
              × (j ≡ pos m.intf_num)
              × Took m.intf_num type p m.intfs m'.intfs
              × Blocks p.alloc m.dcbs m'.dcbs))
  Outcome max (pos n) type p m (st, j, m') =
      InBounds os max m'
      × (((m.intf_num ≤ n) × (st ≡ invalid_value) × (j ≡ pos n) × (m' ≡ m))
          ⊎ ((n < m.intf_num)
              × (m'.intf_num ≡ m.intf_num)
              × (st ≡ status_ok)
              × (j ≡ pos n)
              × Took n type p m.intfs m'.intfs
              × Blocks p.alloc m.dcbs m'.dcbs))

  abbrev Outcome? :
      ℕ → ℤ → IntfType → ConnProv → ConnMgr os → Option (OsStatus × ℤ × ConnMgr os) → Type 0
  Outcome? max id type p m none = ⊥
  Outcome? max id type p m (some r) = Outcome max id type p m r

  Added-kept :
      (max n : ℕ) (type : IntfType) (p : ConnProv) (m : ConnMgr os)
      (r : Option (OsStatus × ℤ × ConnMgr os))
      → Added n type p m r
      → InBounds os max m
      → n < m.intf_num
      → Outcome? max (pos n) type p m r
  Added-kept max n type p m none a b l = absurd a
  Added-kept max n type p m (some (st, j, m')) (s, i, c, took, d) b l =
      ((omega (arith, c, b.0), took.0 ∙ b.1), inr (l, c, s, i, took, d))

  Added-next :
      (max k : ℕ) (type : IntfType) (p : ConnProv) (m : ConnMgr os)
      (r : Option (OsStatus × ℤ × ConnMgr os))
      → Added m.intf_num type p (next_intf os m) r
      → max < 128
      → InBounds os max m
      → m.intf_num < max
      → Outcome? max (negsuc k) type p m r
  Added-next max k type p m none a few b l = absurd a
  Added-next max k type p m (some (st, j, m')) (s, i, c, took, d) few b l =
      ((omega (arith, c), took.0 ∙ b.1), inr (l, omega (arith, c), s, i, took, d))

  prov-Outcome :
      (max : ℕ) (id : ℤ) (type : IntfType) (p : ConnProv) (m : ConnMgr os)
      → max < 128
      → InBounds os max m
      → Outcome? max id type p m (conn_prov os max id type p m)
  unfolding conn_prov
  prov-Outcome max (pos n) type p m l b = elim (Bool-cases (leb m.intf_num n)) [
    | inl e ↦
        subst (Outcome? max (pos n) type p m) (sym (if_true _ _ e))
          (b, inl (ground arith, refl, refl, refl))
    | inr e ↦ subst (Outcome? max (pos n) type p m) (sym (if_false _ _ e)) (
        let lt : n < m.intf_num = ground arith in
        Added-kept max n type p m _ (add_at-Added n type p m (omega (arith, b.1))) b lt)
  ]
  prov-Outcome max (negsuc k) type p m l b = elim (Bool-cases (leb max m.intf_num)) [
    | inl e ↦
        let all_used : m.intf_num ≡ max = ground arith in
        subst (Outcome? max (negsuc k) type p m) (sym (if_true _ _ e))
          (b, inl (all_used, refl, refl, refl))
    | inr e ↦ subst (Outcome? max (negsuc k) type p m) (sym (if_false _ _ e)) (
        let lt : m.intf_num < max = ground arith in
        subst (λ j. Outcome? max (negsuc k) type p m (add_at os j type p (next_intf os m)))
          (sym (to_i8-small m.intf_num (omega arith)))
          (Added-next max k type p m _
            (add_at-Added m.intf_num type p (next_intf os m) (omega (arith, b.1))) l b lt))
  ]

  Outcome-of :
      (max : ℕ) (id : ℤ) (type : IntfType) (p : ConnProv) (m : ConnMgr os)
      (o : Option (OsStatus × ℤ × ConnMgr os))
      → Outcome? max id type p m o
      → (r : OsStatus × ℤ × ConnMgr os) × (o ≡ some r) × Outcome max id type p m r
  Outcome-of max id type p m none h = absurd h
  Outcome-of max id type p m (some r) h = (r, refl, h)

  -- For less than 128 interfaces, `diaConnProv` never faults, and keeps the number of those in use within
  -- the configured number. It refuses a new interface exactly when all are in use, and an id exactly
  -- when it is not in use, with the status of an invalid value, and then changes nothing; else a new
  -- interface is the next one, and is in use, and an id stays as it is; that interface gets the type
  -- and the role, the others stay as they are, and one control block is new if there is memory for it.
  pub conn_prov-Outcome :
      (max : ℕ) (id : ℤ) (type : IntfType) (p : ConnProv) (m : ConnMgr os)
      → max < 128
      → InBounds os max m
      → (r : OsStatus × ℤ × ConnMgr os) × (conn_prov os max id type p m ≡ some r)
        × Outcome max id type p m r
  conn_prov-Outcome max id type p m l b =
      Outcome-of max id type p m _ (prov-Outcome max id type p m l b)
