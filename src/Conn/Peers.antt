-- ===== src/Conn/Peers.antt =====
-- `diaConnMgr_getDcb` (common/src/diaConnMgr.c).
use diameter.Common.{ℕ, ◌≡◌, refl, Bool, Option, none, some, if◌then◌else◌, List, [], ◌∷◌, arith}
use diameter.Conn.Types.{ConnIntf}

-- The lists in the order of the loops: the priority group first, and in a group the waiting peers.
abbrev pub peer_lists : List ConnIntf → List (List ℕ)
peer_lists [] = []
peer_lists (i ∷ l) =
    i.priority_group.waiting
    ∷ i.priority_group.active
    ∷ i.stby_group.waiting
    ∷ i.stby_group.active
    ∷ peer_lists l

-- `is_same p` is `osIsSameSA` of the address of the peer `p` and the address that is looked for. Only the
-- head of a list is looked at; `last` is what `pDcb` holds so far.
unfoldable pub scan_heads : (ℕ → Bool) → List (List ℕ) → Option ℕ → Option ℕ
scan_heads is_same [] last = last
scan_heads is_same ([] ∷ ls) last = scan_heads is_same ls last
scan_heads is_same ((p ∷ l) ∷ ls) last =
    if is_same p then some p else scan_heads is_same ls (some p)

unfoldable pub get_dcb : (ℕ → Bool) → List ConnIntf → Option ℕ
unfolding scan_heads
get_dcb is_same intfs = scan_heads is_same (peer_lists intfs) none

abbrev pub heads : List (List ℕ) → List ℕ
heads [] = []
heads ([] ∷ ls) = heads ls
heads ((p ∷ l) ∷ ls) = p ∷ heads ls

abbrev pub find_first : (ℕ → Bool) → List ℕ → Option ℕ
find_first is_same [] = none
find_first is_same (p ∷ l) = if is_same p then some p else find_first is_same l

abbrev pub last_of : List ℕ → Option ℕ → Option ℕ
last_of [] last = last
last_of (p ∷ l) last = last_of l (some p)

abbrev pub or_last : Option ℕ → Option ℕ → Option ℕ
or_last none b = b
or_last (some a) b = some a

scan_heads_lem :
    (is_same : ℕ → Bool) (ls : List (List ℕ)) (last : Option ℕ)
    → scan_heads is_same ls last ≡ or_last (find_first is_same (heads ls)) (last_of (heads ls) last)
unfolding scan_heads
scan_heads_lem is_same [] last = refl
scan_heads_lem is_same ([] ∷ ls) last = scan_heads_lem is_same ls last
scan_heads_lem is_same ((p ∷ l) ∷ ls) last = ground (arith, scan_heads_lem is_same ls (some p))

-- The lookup of a peer by its address gives the first head of a list that has the address, and where
-- no head has it, the last head of all, a peer with another address: a peer behind the head of
-- its list is not found.
pub get_dcb_lem :
    (is_same : ℕ → Bool) (intfs : List ConnIntf)
    → get_dcb is_same intfs
      ≡ or_last
          (find_first is_same (heads (peer_lists intfs)))
          (last_of (heads (peer_lists intfs)) none)
unfolding get_dcb
get_dcb_lem is_same intfs = scan_heads_lem is_same (peer_lists intfs) none
