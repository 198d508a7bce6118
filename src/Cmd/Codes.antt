-- ===== src/Cmd/Codes.antt =====
-- Lists whose AVPs all have one code (common/src/diaAvpHelper.c).
use diameter.Common.{ℕ, ◌≡◌, refl, arith, Bool, false, ◌==◌, List, [], ◌∷◌, ◌++◌, append-nil}
use diameter.Wire.Message.{MsgAvp}
use diameter.Cmd.Lists.{msg_avp_code, has_code, matching, others}

unfoldable pub HaveCode : ℕ → List MsgAvp → Type 0
HaveCode code [] = Unit {0}
HaveCode code (a ∷ l) = (msg_avp_code a ≡ code) × HaveCode code l

pub HaveCode-append :
    (code : ℕ) (l k : List MsgAvp) → HaveCode code l → HaveCode code k → HaveCode code (l ++ k)
unfolding HaveCode
HaveCode-append code [] k h h' = h'
HaveCode-append code (a ∷ l) k h h' = (h.0, HaveCode-append code l k (h.1) h')

pub matching-append :
    (p : MsgAvp → Bool) (l k : List MsgAvp) → matching p (l ++ k) ≡ matching p l ++ matching p k
matching-append p [] k = refl
matching-append p (x ∷ l) k = ground (arith, matching-append p l k)

pub others-append :
    (p : MsgAvp → Bool) (l k : List MsgAvp) → others p (l ++ k) ≡ others p l ++ others p k
others-append p [] k = refl
others-append p (x ∷ l) k = ground (arith, others-append p l k)

-- The code that is looked for takes all of them, another code none.
pub HaveCode-same :
    (code : ℕ) (l : List MsgAvp)
    → HaveCode code l
    → (matching (has_code code) l ≡ l) × (others (has_code code) l ≡ [])
unfolding HaveCode
HaveCode-same code [] h = (refl, refl)
HaveCode-same code (a ∷ l) h = ground (arith, HaveCode-same code l (h.1))

pub HaveCode-other :
    (code other : ℕ) (l : List MsgAvp)
    → HaveCode code l
    → (code == other) ≡ false
    → (matching (has_code other) l ≡ []) × (others (has_code other) l ≡ l)
unfolding HaveCode
HaveCode-other code other [] h ne = (refl, refl)
HaveCode-other code other (a ∷ l) h ne = ground (arith, HaveCode-other code other l (h.1) ne)

-- No AVP has the code.
abbrev pub NoCode : ℕ → List MsgAvp → Type 0
NoCode code l = (matching (has_code code) l ≡ []) × (others (has_code code) l ≡ l)

pub NoCode-append :
    (code : ℕ) (l k : List MsgAvp) → NoCode code l → NoCode code k → NoCode code (l ++ k)
NoCode-append code l k h h' = (simp (matching-append, h.0, h'.0), simp (others-append, h.1, h'.1))

-- A list whose AVPs all have the code, in front of one where none has it.
pub taken_off :
    (code : ℕ) (l k : List MsgAvp)
    → HaveCode code l
    → NoCode code k
    → (matching (has_code code) (l ++ k) ≡ l) × (others (has_code code) (l ++ k) ≡ k)
taken_off code l k h h' =
    let (m, o) = HaveCode-same code l h in
    (simp (matching-append, m, h'.0, append-nil), simp (others-append, o, h'.1))
