-- ===== src/Build/Group.antt =====
-- `diaAvpGrp_create` and `diaAvpGrp_addAvp` (common/src/diaAvp.c), where the memory is given.
use diameter.Common.{
  ℕ, zero, suc, ◌+◌, ◌-◌, ◌%◌, ◌^◌, ◌<◌, ◌≤◌, ◌≡◌, refl, sym, ap, ◌∙◌, arith, Bool, Bool-cases, inl,
  inr, true, false, Option, none, some, ltb, ltb→lt, if◌then◌else◌, if_true, if_false, List, [],
  ◌∷◌, take,
}
use diameter.Wire.Encode.{EncAvp, EncData, EncAvps, enc_avp, grouped, no_avp, add_avp}

abbrev pub avp_num : EncAvps → ℕ
avp_num no_avp = 0
avp_num (add_avp a l) = suc (avp_num l)

abbrev pub add_last : EncAvps → EncAvp → EncAvps
add_last no_avp a = add_avp a no_avp
add_last (add_avp b l) a = add_avp b (add_last l a)

unfoldable pub grp_create : ℕ → EncAvp
grp_create code = enc_avp code (grouped no_avp)

-- `max` is DIA_CONFIG_MAX_AVP_INSIDE_GRP_AVP, of 64 bits. The function returns whether there is room,
-- and the group; `none` is a union that holds no group. The counter `avpNum` is the length of the list
-- as long as it stays below 256.
unfoldable pub grp_add_avp : ℕ → EncAvp → ℕ → EncData → Option (Bool × EncAvp)
grp_add_avp max (enc_avp grp_code (grouped l)) code v =
    if ltb (avp_num l) ((max + 2 ^ 64 - 1) % 2 ^ 64)
    then some (true, enc_avp grp_code (grouped (add_last l (enc_avp code v))))
    else some (false, enc_avp grp_code (grouped l))
grp_add_avp max _ code v = none

abbrev pub go_on : (EncAvp → Option EncAvp) → Option (Bool × EncAvp) → Option EncAvp
go_on f none = none
go_on f (some (has_room, g)) = f g

-- Members added one after another, whatever the function returns.
unfoldable pub grp_add_all : ℕ → List EncAvp → EncAvp → Option EncAvp
unfolding grp_add_avp
grp_add_all max [] g = some g
grp_add_all max (enc_avp code v ∷ l) g = go_on (grp_add_all max l) (grp_add_avp max g code v)

abbrev pub members_of : List EncAvp → EncAvps
members_of [] = no_avp
members_of (a ∷ l) = add_avp a (members_of l)

abbrev pub join : EncAvps → EncAvps → EncAvps
join no_avp k = k
join (add_avp a l) k = add_avp a (join l k)

take-nil : (n : ℕ) → take {A = EncAvp} n [] ≡ []
take-nil zero = refl
take-nil (suc n) = refl

join-no_avp : (l : EncAvps) → join l no_avp ≡ l
join-no_avp no_avp = refl
join-no_avp (add_avp a l) = ap (λ k. add_avp a k) (join-no_avp l)

join-add_last : (l k : EncAvps) (a : EncAvp) → join (add_last l a) k ≡ join l (add_avp a k)
join-add_last no_avp k a = refl
join-add_last (add_avp b l) k a = ap (λ k. add_avp b k) (join-add_last l k a)

avp_num-add_last : (l : EncAvps) (a : EncAvp) → avp_num (add_last l a) ≡ suc (avp_num l)
avp_num-add_last no_avp a = refl
avp_num-add_last (add_avp b l) a = omega (arith, avp_num-add_last l a)

max_less : (max : ℕ) → 0 < max → max < 2 ^ 64 → (max + 2 ^ 64 - 1) % 2 ^ 64 ≡ max - 1
max_less max h k = omega arith

add_all-take :
    (max code : ℕ) (l : List EncAvp) (k : EncAvps)
    → 0 < max
    → max < 2 ^ 64
    → avp_num k ≤ max - 1
    → grp_add_all max l (enc_avp code (grouped k))
      ≡ some (enc_avp code (grouped (join k (members_of (take (max - 1 - avp_num k) l)))))
unfolding grp_add_all grp_add_avp
add_all-take max code [] k h w r = λ i. some (
    enc_avp code (
      grouped (
        (sym (join-no_avp k)
            ∙ ap (λ l. join k (members_of l)) (sym (take-nil (max - 1 - avp_num k))))
          i)))
add_all-take max code (enc_avp c v ∷ l) k h w r =
    elim (Bool-cases (ltb (avp_num k) ((max + 2 ^ 64 - 1) % 2 ^ 64))) [
      | inl e ↦
          ap (go_on (grp_add_all max l)) (if_true _ _ e)
          ∙ add_all-take max code l (add_last k a) h w (omega (arith, room e, avp_num-add_last k a))
          ∙ λ i. some (
              enc_avp code (
                grouped (
                  (join-add_last k (members_of (take (max - 1 - avp_num (add_last k a)) l)) a
                      ∙ ap (λ n. join k (members_of (take n (a ∷ l)))) (left e))
                    i)))
      | inr e ↦
          ap (go_on (grp_add_all max l)) (if_false _ _ e) ∙ add_all-take max code l k h w r ∙ λ i.
          some (
            enc_avp code (
              grouped (
                (ap (λ n. join k (members_of (take n l))) (no_room e)
                    ∙ ap (λ n. join k (members_of (take n (a ∷ l)))) (sym (no_room e)))
                  i)))
    ]
  where
    a : EncAvp
    a = enc_avp c v

    room : ltb (avp_num k) ((max + 2 ^ 64 - 1) % 2 ^ 64) ≡ true → suc (avp_num k) ≤ max - 1
    room e = omega (arith, ltb→lt _ _ e, max_less max h w)

    left :
        ltb (avp_num k) ((max + 2 ^ 64 - 1) % 2 ^ 64) ≡ true
        → suc (max - 1 - avp_num (add_last k a)) ≡ max - 1 - avp_num k
    left e = omega (arith, room e, avp_num-add_last k a)

    no_room : ltb (avp_num k) ((max + 2 ^ 64 - 1) % 2 ^ 64) ≡ false → max - 1 - avp_num k ≡ 0
    no_room e = ground (arith, max_less max h w)

-- A group that is created and filled holds the members in their order, at most one less than the size
-- of its array: the others are left out, and nothing is written outside the array. The size is not zero,
-- and at most 256, as the counter of the members has 8 bits.
pub grp_add_all-take :
    (max code : ℕ) (l : List EncAvp)
    → 0 < max
    → max ≤ 256
    → grp_add_all max l (grp_create code)
      ≡ some (enc_avp code (grouped (members_of (take (max - 1) l))))
unfolding grp_create
grp_add_all-take max code l h w =
    add_all-take max code l no_avp h (omega arith) (omega arith)
    ∙ ap (λ n. some (enc_avp code (grouped (members_of (take n l))))) (omega arith)
