-- ===== src/Cmd/Trailer.antt =====
-- The last part of the Cx encoders, which appends what the application gives (diaCx/src).
use diameter.Common.{
  ℕ, suc, ◌+◌, ◌≡◌, refl, sym, ◌∙◌, arith, Bool, true, false, ◌&&◌, ◌||◌, Option, none, some, ◌==◌,
  if◌then◌else◌, List, [], ◌∷◌, ◌++◌, ◌>>=◌,
}
use mathlib.Core.Logic.{◌↔◌}
use diameter.Wire.Message.{MsgAvp}
use diameter.Cmd.Lists.{ListOps, ListLaws, has_code, remove_first}
use diameter.Cmd.Parts.{
  AvpLists, has_any, append_initialised, move_extra_last, proxy_info, route_record,
}
use diameter.Cmd.Moved.{move_extra_last-both}

-- How many AVPs pass a test, and whether one does.
abbrev pub count : (MsgAvp → Bool) → List MsgAvp → ℕ
count p [] = 0
count p (x ∷ l) = if p x then suc (count p l) else count p l

abbrev pub any : (MsgAvp → Bool) → List MsgAvp → Bool
any p [] = false
any p (x ∷ l) = p x || any p l

abbrev pub count_found : (MsgAvp → Bool) → Option MsgAvp → ℕ
count_found p none = 0
count_found p (some a) = if p a then 1 else 0

count-append : (p : MsgAvp → Bool) (l k : List MsgAvp) → count p (l ++ k) ≡ count p l + count p k
count-append p [] k = omega arith
count-append p (x ∷ l) k = ground (arith, count-append p l k)

count-remove_first :
    (p q : MsgAvp → Bool) (l : List MsgAvp)
    → count p l ≡ count_found p ((remove_first q l).0) + count p ((remove_first q l).1)
count-remove_first p q [] = omega arith
count-remove_first p q (x ∷ l) = ground (arith, count-remove_first p q l)

-- Whether something is found, and whether another test finds something afterwards.
is_some : Option MsgAvp → Bool
is_some none = false
is_some (some a) = true

any-remove_first : (q : MsgAvp → Bool) (l : List MsgAvp) → any q l ≡ is_some ((remove_first q l).0)
unfolding is_some
any-remove_first q [] = refl
any-remove_first q (x ∷ l) = ground (arith, any-remove_first q l)

any-kept :
    (code other : ℕ) (l : List MsgAvp)
    → (other == code) ≡ false
    → any (has_code other) l ≡ any (has_code other) ((remove_first (has_code code) l).1)
any-kept code other [] ne = refl
any-kept code other (x ∷ l) ne = ground (arith, any-kept code other l ne)

-- The two AVPs at the end.
abbrev finish : Option MsgAvp → Option MsgAvp → AvpLists → Option AvpLists
finish proxy rr l = append_initialised proxy l >>= append_initialised rr

finish-none :
    (proxy rr : Option MsgAvp) (l : AvpLists)
    → (finish proxy rr l ≡ none) ↔ ((is_some proxy && is_some rr) ≡ false)
unfolding is_some
finish-none none rr l = ground arith
finish-none (some a) none l = ground arith
finish-none (some a) (some b) l = ground arith

finish-count :
    (proxy rr : Option MsgAvp) (l l' : AvpLists) (p : MsgAvp → Bool)
    → finish proxy rr l ≡ some l'
    → (l'.opt ≡ l.opt)
      × (l'.extra ≡ l.extra)
      × (count p l'.out ≡ count p l.out + (count_found p proxy + count_found p rr))
finish-count none rr l l' p e = ground arith
finish-count (some a) none l l' p e = ground arith
finish-count (some a) (some b) l l' p e =
    ground (arith, count-append p l.out (a ∷ []), count-append p (l.out ++ (a ∷ [])) (b ∷ []))

module _ (d : ListOps) (laws : ListLaws d) where
  -- The AVPs of the application cannot be appended exactly when there are some, and a Proxy-Info or a
  -- Route-Record is not among them: then a pointer that was never set is read.
  pub move_extra_last-none :
      (l : AvpLists)
      → (move_extra_last d l ≡ none) ↔ (
          (has_any l.extra ≡ true)
          × ((any (has_code proxy_info) l.extra && any (has_code route_record) l.extra) ≡ false))
  move_extra_last-none l =
      let first = remove_first (has_code proxy_info) l.extra in
      let second = remove_first (has_code route_record) (first.1) in
      let rest : AvpLists = record { out = l.out ++ second.1; opt = l.opt; extra = [] } in
      ground (
        arith,
        move_extra_last-both d laws l,
        any-remove_first (has_code proxy_info) l.extra,
        any-kept proxy_info route_record l.extra refl,
        any-remove_first (has_code route_record) (first.1),
        finish-none (first.0) (second.0) rest,
      )

  -- Where they can be appended, none of them is lost and none appears twice, whatever is counted: the
  -- message holds what it held and what the application gave, whose list is empty afterwards.
  pub move_extra_last-count :
      (l l' : AvpLists) (p : MsgAvp → Bool)
      → move_extra_last d l ≡ some l'
      → (l'.opt ≡ l.opt) × (l'.extra ≡ []) × (count p l'.out ≡ count p l.out + count p l.extra)
  move_extra_last-count l l' p e =
      let first = remove_first (has_code proxy_info) l.extra in
      let second = remove_first (has_code route_record) (first.1) in
      let rest : AvpLists = record { out = l.out ++ second.1; opt = l.opt; extra = [] } in
      ground (
        arith,
        sym (move_extra_last-both d laws l) ∙ e,
        finish-count (first.0) (second.0) rest l' p,
        count-append p l.out (second.1),
        count-remove_first p (has_code proxy_info) l.extra,
        count-remove_first p (has_code route_record) (first.1),
      )
