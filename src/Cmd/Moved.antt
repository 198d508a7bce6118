-- ===== src/Cmd/Moved.antt =====
-- What the steps of common/src/diaAvpHelper.c move, where `osList_deleteElement` keeps its laws.
use diameter.Common.{
  ℕ, zero, suc, ◌<◌, ◌≡◌, sym, ap, ◌∙◌, arith, Option, some, List, [], ◌∷◌, ◌++◌, length,
  append-nil, append_assoc, if◌then◌else◌, ◌>>=◌,
}
use mathlib.Core.Path.{fun_ext}
use diameter.Wire.Message.{MsgAvp}
use diameter.Cmd.Lists.{
  ListOps, ListLaws, has_code, find_and_remove, get_next_and_remove, move_loop, matching, others,
  remove_first, delete_element-first, move_loop-matching,
}
use diameter.Cmd.Parts.{
  has_any, last_two, AvpLists, opt_moved, extra_moved, move_all_opt, move_rest_opt, move_rest_extra,
  append_initialised, move_extra_last, proxy_info, route_record,
}

get_next-loop :
    (n : ℕ) (out l : List MsgAvp)
    → length l < n
    → move_loop n get_next_and_remove out l ≡ some (out ++ l, [])
unfolding move_loop get_next_and_remove
get_next-loop zero out l h = absurd (omega arith)
get_next-loop (suc n) out [] h = ap (λ k. some (k, [])) (sym (append-nil out))
get_next-loop (suc n) out (x ∷ l) h =
    get_next-loop n (out ++ (x ∷ [])) l (omega arith)
    ∙ ap (λ k. some (k, [])) (append_assoc out (x ∷ []) l)

-- The lists after each step.
abbrev pub all_moved : ℕ → AvpLists → AvpLists
all_moved code l = record {
  out = l.out ++ matching (has_code code) l.opt;
  opt = others (has_code code) l.opt;
  extra = l.extra;
}

abbrev pub rest_moved : AvpLists → AvpLists
rest_moved l = record { out = l.out ++ l.opt; opt = []; extra = l.extra }

abbrev pub extra_rest_moved : AvpLists → AvpLists
extra_rest_moved l = record { out = l.out ++ l.extra; opt = l.opt; extra = [] }

-- The application's AVPs, the first Proxy-Info and the first Route-Record behind the others.
abbrev pub both_last : AvpLists → Option AvpLists
both_last l =
    let (proxy, extra1) = remove_first (has_code proxy_info) l.extra in
    let (rr, extra2) = remove_first (has_code route_record) extra1 in
    append_initialised proxy (record { out = l.out ++ extra2; opt = l.opt; extra = [] })
    >>= append_initialised rr

abbrev pub extra_last : AvpLists → Option AvpLists
extra_last l = if has_any l.extra then both_last l else some l

pub move_rest_opt-all : (l : AvpLists) → move_rest_opt l ≡ some (rest_moved l)
unfolding move_rest_opt
move_rest_opt-all l = by_opt l.opt
  where
    by_opt :
        (opt : List MsgAvp)
        → move_rest_opt (record { out = l.out; opt = opt; extra = l.extra })
          ≡ some (record { out = l.out ++ opt; opt = []; extra = l.extra })
    by_opt [] =
        ap (λ k. some (record { out = k; opt = []; extra = l.extra })) (sym (append-nil l.out))
    by_opt (x ∷ opt) =
        ap (λ r. r >>= opt_moved l)
          (get_next-loop (suc (length (x ∷ opt))) l.out (x ∷ opt) (omega arith))

pub move_rest_extra-all : (l : AvpLists) → move_rest_extra l ≡ some (extra_rest_moved l)
unfolding move_rest_extra
move_rest_extra-all l = by_extra l.extra
  where
    by_extra :
        (extra : List MsgAvp)
        → move_rest_extra (record { out = l.out; opt = l.opt; extra = extra })
          ≡ some (record { out = l.out ++ extra; opt = l.opt; extra = [] })
    by_extra [] =
        ap (λ k. some (record { out = k; opt = l.opt; extra = [] })) (sym (append-nil l.out))
    by_extra (x ∷ extra) =
        ap (λ r. r >>= extra_moved l)
          (get_next-loop (suc (length (x ∷ extra))) l.out (x ∷ extra) (omega arith))

module _ (d : ListOps) (laws : ListLaws d) where
  pub find_and_remove-first :
      (code : ℕ) (l : List MsgAvp) → find_and_remove d code l ≡ remove_first (has_code code) l
  unfolding find_and_remove
  find_and_remove-first code l = delete_element-first d laws (has_code code) l

  -- The loop over the AVPs of a code ends: it takes all of them to the end of the message, in the order
  -- they have, and leaves the others in the list, in the order they have.
  pub move_all_opt-matching :
      (code : ℕ) (l : AvpLists) → move_all_opt d code l ≡ some (all_moved code l)
  unfolding move_all_opt find_and_remove
  move_all_opt-matching code l =
      ap (λ next. move_loop (suc (length l.opt)) next l.out l.opt >>= opt_moved l)
        (fun_ext (delete_element-first d laws (has_code code)))
      ∙ ap (λ r. r >>= opt_moved l)
          (move_loop-matching (suc (length l.opt)) (has_code code) l.out l.opt (omega arith))

  pub move_extra_last-both : (l : AvpLists) → move_extra_last d l ≡ extra_last l
  unfolding move_extra_last find_and_remove last_two
  move_extra_last-both l =
      ap (λ find. if has_any l.extra then last_two find l else some l)
        (fun_ext λ code. fun_ext (delete_element-first d laws (has_code code)))
      ∙ ap (λ r. if has_any l.extra then r else some l) loop_ends
    where
      loop_ends : last_two (λ code. remove_first (has_code code)) l ≡ both_last l
      loop_ends =
          let (proxy, extra1) = remove_first (has_code proxy_info) l.extra in
          let (rr, extra2) = remove_first (has_code route_record) extra1 in
          ap (λ r. r >>= extra_moved l >>= append_initialised proxy >>= append_initialised rr)
            (get_next-loop (suc (length extra2)) l.out extra2 (omega arith))
