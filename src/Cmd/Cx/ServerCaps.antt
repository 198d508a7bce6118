-- ===== src/Cmd/Cx/ServerCaps.antt =====
-- The server capabilities of the User-Authorization-Answer (diaCx/src/diaCxUar.c).
use diameter.Common.{
  ℕ, ◌+◌, ◌-◌, ◌≡◌, refl, sym, ap, ◌∙◌, arith, true, none, some, ◌==◌, List, [], ◌∷◌, length,
  append-nil, ◌>>=◌,
}
use diameter.Msg.{
  grouped_type, Avp, avp, group, Avps, nil, cons, avp_code, avp_type, MsgDecoded, avp_list_lookup,
}
use diameter.Wire.Encode.{EncAvp, enc_avp, num, grouped}
use diameter.Wire.Message.{plain}
use diameter.Cmd.Cx.Uaa.{ServerCap, cap_loop, made, cap_group, server_cap_avp, max_server_cap}
use diameter.Cmd.Cx.Answer.{
  CapLists, no_caps, add_cap, add_caps, caps_of, caps_by_type, get_server_cap,
}

-- A group of mandatory capabilities.
abbrev pub mandatory : List ℕ → List EncAvp
mandatory [] = []
mandatory (n ∷ l) = enc_avp 604 (num n) ∷ mandatory l

made-mandatory : (l : List ℕ) → made (mandatory l) ≡ length l
made-mandatory [] = refl
made-mandatory (n ∷ l) = omega (arith, made-mandatory l)

cap_loop-all : (l : List ℕ) → cap_loop (λ n. enc_avp 604 (num n)) (length l) l ≡ some (mandatory l)
unfolding cap_loop
cap_loop-all [] = refl
cap_loop-all (n ∷ l) = ap (λ r. r >>= λ k. some (enc_avp 604 (num n) ∷ k)) (cap_loop-all l)

-- The group that is built holds all ten entries of the array of mandatory capabilities, whatever the
-- three counts say, and no optional capability and no server. The array has ten entries.
pub server_cap_avp-mandatory :
    (c : ServerCap)
    → length c.msc ≡ max_server_cap
    → server_cap_avp c ≡ some (plain (enc_avp 603 (grouped (cap_group (mandatory c.msc)))))
unfolding server_cap_avp
server_cap_avp-mandatory c h = simp (all_ten, full, full_again, append-nil)
  where
    all_ten : cap_loop (λ n. enc_avp 604 (num n)) max_server_cap c.msc ≡ some (mandatory c.msc)
    all_ten = ap (λ n. cap_loop (λ v. enc_avp 604 (num v)) n c.msc) (sym h) ∙ cap_loop-all c.msc

    full : max_server_cap - made (mandatory c.msc) ≡ 0
    full = omega (arith, made-mandatory c.msc, h)

    full_again : max_server_cap - (made (mandatory c.msc) + 0) ≡ 0
    full_again = omega (arith, made-mandatory c.msc, h)

-- What is looked up has the code.
lookup-code :
    (l : Avps) (code : ℕ) (a : Avp) → avp_list_lookup l code ≡ some a → (avp_code a == code) ≡ true
unfolding avp_list_lookup
lookup-code nil code a e = ground arith
lookup-code (cons x l) code a e = ground (arith, lookup-code l code a)

add_caps-none :
    (a : Avp) (l : Avps) (c : CapLists) → (avp_code a == 603) ≡ true → add_caps a l c ≡ some c
unfolding add_caps add_cap
add_caps-none a nil c h = refl
add_caps-none a (cons x l) c h = ground (arith, add_caps-none a l c h)

-- Whatever capabilities an answer holds, none is collected: where the AVP is a group, the three lists stay
-- empty.
pub get_server_cap-no_caps :
    (m : MsgDecoded) (code flag vendor : ℕ) (l : Avps)
    → avp_list_lookup m.avp_list 603 ≡ some (avp code flag vendor grouped_type (group l))
    → get_server_cap m ≡ some no_caps
unfolding get_server_cap caps_by_type caps_of
get_server_cap-no_caps m code flag vendor l e =
    ap (λ r. elim r [ none ↦ some no_caps | some a ↦ caps_by_type a (avp_type a) ]) e
    ∙ add_caps-none (avp code flag vendor grouped_type (group l)) l no_caps
        (lookup-code m.avp_list 603 (avp code flag vendor grouped_type (group l)) e)
