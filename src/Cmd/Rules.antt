-- ===== src/Cmd/Rules.antt =====
-- The equations by which the lists of the encoders are worked out (common/src/diaAvpHelper.c).
use diameter.Common.{
  ℕ, ◌≡◌, refl, sym, ap, Bool, true, false, Option, none, some, if◌then◌else◌, List, [], ◌∷◌, ◌++◌,
  append-nil, append_assoc,
}
use diameter.Wire.Message.{MsgAvp}
use diameter.Cmd.Lists.{has_code, remove_first}
use diameter.Cmd.Parts.{AvpLists, or_nothing, append_if}
use diameter.Cmd.Moved.{
  find_and_remove-first, move_all_opt-matching, move_rest_opt-all, move_rest_extra-all,
  move_extra_last-both,
}

abbrev pub oc_avp : Option MsgAvp → List MsgAvp
oc_avp none = []
oc_avp (some a) = a ∷ []

-- The first AVP of a code, if any, and the list without it.
abbrev pub found : ℕ → List MsgAvp → List MsgAvp
found code l = oc_avp ((remove_first (has_code code) l).0)

abbrev pub without : ℕ → List MsgAvp → List MsgAvp
without code l = (remove_first (has_code code) l).1

pub or_nothing-append : (out : List MsgAvp) (f : Option MsgAvp) → or_nothing out f ≡ out ++ oc_avp f
or_nothing-append out none = sym (append-nil out)
or_nothing-append out (some a) = refl

pub append_if-some :
    (b : Bool) (a : MsgAvp) (l : AvpLists)
    → append_if b a l
      ≡ some (record { out = l.out ++ (if b then a ∷ [] else []); opt = l.opt; extra = l.extra })
unfolding append_if
append_if-some true a l = refl
append_if-some false a l =
    ap (λ k. some (record { out = k; opt = l.opt; extra = l.extra })) (sym (append-nil l.out))

abbrev pub ready : List MsgAvp → List MsgAvp → AvpLists
ready out extra = record { out = out; opt = []; extra = extra }

pub ruleset step_laws = (
  move_all_opt-matching, move_rest_opt-all, move_rest_extra-all, append_if-some,
  move_extra_last-both,
)

pub ruleset found_laws = (find_and_remove-first, or_nothing-append, append_assoc)
