-- ===== src/Build/AddList.antt =====
-- `diaAvpEncode_setValue` and `diaAvpAddList` (common/src/diaAvpHelper.c).
use diameter.Common.{
  ℕ, zero, suc, ◌+◌, ◌-◌, ◌%◌, ◌<◌, ◌≡◌, refl, sym, ap, ◌∙◌, arith, Bool, true, false, Option, none,
  some, leb, ltb, if◌then◌else◌, if_true, if_false, List, [], ◌∷◌, ◌++◌, length, take, lt→ltb,
  Bool-cases, inl, inr, append-nil, append_assoc, ◌>>=◌,
}
use diameter.Msg.{OsStatus, status_ok, invalid_value, null_pointer}
use diameter.Dict.Info.{
  EncodeDataType, enc_int32, enc_int64, enc_u32, enc_u64, enc_str, enc_group, enc_func_arg,
  enc_unknown,
}
use diameter.Wire.Encode.{EncAvp, EncData, enc_avp, num, pl}
use diameter.Wire.Message.{MsgAvp, plain}

abbrev pub max_same_avp_num : ℕ
max_same_avp_num = 5

-- What an element of the data list points to: an integer, a string, a `diaEncodeAvp_t`.
pub data Item : Type 0 where
  int_item : ℕ → Item
  str_item : List ℕ → Item
  avp_item : EncAvp → Item

abbrev pub avp_value : EncAvp → EncData
avp_value (enc_avp code v) = v

-- The value by the data type; `none` is an element that is not what the type says.
unfoldable pub item_value : EncodeDataType → Item → Option EncData
item_value enc_int32 (int_item n) = some (num (n % 0x1_0000_0000))
item_value enc_u32 (int_item n) = some (num (n % 0x1_0000_0000))
item_value enc_int64 (int_item n) = some (num (n % 0x1_0000_0000_0000_0000))
item_value enc_u64 (int_item n) = some (num (n % 0x1_0000_0000_0000_0000))
item_value enc_str (str_item l) = some (pl l)
item_value enc_group (avp_item a) = some (avp_value a)
item_value _ _ = none

abbrev pub is_supported : EncodeDataType → Bool
is_supported enc_func_arg = false
is_supported enc_unknown = false
is_supported _ = true

-- Five AVPs are enough, and an error.
abbrev pub or_full :
    ℕ → List MsgAvp → Option (OsStatus × List MsgAvp) → Option (OsStatus × List MsgAvp)
or_full i l rest = if leb max_same_avp_num i then some (invalid_value, l) else rest

-- The loop, from the index `i` on: the status, and the list of the message.
unfoldable pub add_items :
    ℕ → ℕ → EncodeDataType → List Item → List MsgAvp → Option (OsStatus × List MsgAvp)
unfolding item_value
add_items i code type [] l = some (status_ok, l)
add_items i code type (x ∷ xs) l =
    if is_supported type
    then (item_value type x >>= λ v.
        or_full (suc i) (l ++ (plain (enc_avp code v) ∷ []))
          (add_items (suc i) code type xs (l ++ (plain (enc_avp code v) ∷ []))))
    else some (invalid_value, l)

-- The lists may be null, the memory of the AVPs may not be here.
unfoldable pub avp_add_list :
    Option (List MsgAvp)
    → Option (List Item)
    → ℕ
    → EncodeDataType
    → Option (OsStatus × Option (List MsgAvp))
unfolding add_items
avp_add_list none items code type = some (null_pointer, none)
avp_add_list (some l) none code type = some (status_ok, some l)
avp_add_list (some l) (some items) code type =
    add_items 0 code type items l >>= λ r. some (r.0, some (r.1))

-- The items hold these values, by the data type.
unfoldable pub HoldsValues : EncodeDataType → List Item → List EncData → Type 0
unfolding item_value
HoldsValues type [] [] = Unit {0}
HoldsValues type (x ∷ xs) (v ∷ vs) = (item_value type x ≡ some v) × HoldsValues type xs vs
HoldsValues type _ _ = ⊥

abbrev pub avps_of : ℕ → List EncData → List MsgAvp
avps_of code [] = []
avps_of code (v ∷ vs) = plain (enc_avp code v) ∷ avps_of code vs

abbrev pub full_status : ℕ → OsStatus
full_status n = if ltb n max_same_avp_num then status_ok else invalid_value

take-nil : (n : ℕ) → take {A = MsgAvp} n [] ≡ []
take-nil zero = refl
take-nil (suc n) = refl

add_items-take :
    (i code : ℕ) (type : EncodeDataType) (xs : List Item) (vs : List EncData) (l : List MsgAvp)
    → is_supported type ≡ true
    → HoldsValues type xs vs
    → i < max_same_avp_num
    → add_items i code type xs l
      ≡ some (full_status (i + length xs), l ++ take (max_same_avp_num - i) (avps_of code vs))
unfolding add_items HoldsValues
add_items-take i code type [] [] l s h lt =
    λ j. some (status j, (sym (append-nil l) ∙ ap (λ k. l ++ k) (sym (take-nil (5 - i)))) j)
  where
    status : status_ok ≡ full_status (i + 0)
    status = sym (if_true _ _ (lt→ltb (i + 0) 5 (omega arith)))
add_items-take i code type [] (v ∷ vs) l s h lt = absurd h
add_items-take i code type (x ∷ xs) [] l s h lt = absurd h
add_items-take i code type (x ∷ xs) (v ∷ vs) l s h lt =
    if_true _ _ s
    ∙ ap
        (λ o. o >>= λ v.
          or_full (suc i) (l ++ (plain (enc_avp code v) ∷ []))
            (add_items (suc i) code type xs (l ++ (plain (enc_avp code v) ∷ []))))
        (h.0)
    ∙ elim (Bool-cases (leb 5 (suc i))) [
      | inl full ↦ if_true _ _ full ∙ λ j.
          some (over full j, l ++ ap (λ n. take n (a ∷ avps_of code vs)) (one full) j)
      | inr more ↦
          if_false _ _ more
          ∙ add_items-take (suc i) code type xs vs (l ++ (a ∷ [])) s (h.1) (ground arith)
          ∙ λ j. some (
            full_status (next j),
            (append_assoc l (a ∷ []) (take (5 - suc i) (avps_of code vs))
                  ∙ ap (λ n. l ++ take n (a ∷ avps_of code vs)) (left (ground arith)))
                j,
          )
    ]
  where
    a : MsgAvp
    a = plain (enc_avp code v)

    over : leb 5 (suc i) ≡ true → invalid_value ≡ full_status (i + suc (length xs))
    over full = sym (if_false _ _ (not_less full))
      where
        not_less : leb 5 (suc i) ≡ true → ltb (i + suc (length xs)) 5 ≡ false
        not_less f = ground arith

    one : leb 5 (suc i) ≡ true → 1 ≡ 5 - i
    one full = ground arith

    next : suc i + length xs ≡ i + suc (length xs)
    next = omega arith

    left : suc i < 5 → suc (5 - suc i) ≡ 5 - i
    left lt = omega arith

-- Values of a supported type are appended to the list of the message in their order, at most five of
-- them, and with fewer than five the function succeeds: with five or more it gives an error,
-- though five are all appended.
pub avp_add_list-take :
    (code : ℕ) (type : EncodeDataType) (xs : List Item) (vs : List EncData) (l : List MsgAvp)
    → is_supported type ≡ true
    → HoldsValues type xs vs
    → avp_add_list (some l) (some xs) code type
      ≡ some (full_status (length xs), some (l ++ take max_same_avp_num (avps_of code vs)))
unfolding avp_add_list
avp_add_list-take code type xs vs l s h =
    ap (λ o. o >>= λ r. some (r.0, some (r.1)))
      (add_items-take 0 code type xs vs l s h (omega arith) ∙ λ j.
        some (full_status (zero_left j), l ++ take 5 (avps_of code vs)))
  where
    zero_left : 0 + length xs ≡ length xs
    zero_left = omega arith
