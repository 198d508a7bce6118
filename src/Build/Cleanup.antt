-- ===== src/Build/Cleanup.antt =====
-- The memory of the AVPs of a message that is sent, and what frees it (common/src/diaAvp.c).
use diameter.Common.{
  append_assoc, ℕ, ◌≡◌, ◌≢◌, refl, sym, ap, ◌∙◌, arith, true, Option, none, some, List, [], ◌∷◌,
  ◌++◌, ◌>>=◌,
}
use mathlib.Core.Logic.{◌↔◌}
use diameter.Msg.{DataType, unknown_type, grouped_type}
use diameter.Dict.Info.{
  AvpInfo, get_avp_info, get_avp_encode_data_type, EncodeDataType, enc_group, enc_str,
}
use diameter.Dict.Facts.{is_string_type}
use diameter.Dict.Agrees.{encode_data_type-known}
use diameter.Wire.Encode.{EncAvp, EncData, EncAvps, enc_avp, num, pl, grouped, no_avp, add_avp}
use diameter.Wire.Shape.{shape_of, Fits, FitsAs, FitsAll}

-- `diaEncodeAvp_t` with its memory: a string stands in a block, a group in a block, with its array in another.
mutual
  pub data HeldAvp : Type 0 where
    held : (code : ℕ) → HeldData → HeldAvp

  pub data HeldData : Type 0 where
    number : ℕ → HeldData
    string : (block : ℕ) → List ℕ → HeldData
    group : (block array : ℕ) → HeldAvps → HeldData

  pub data HeldAvps : Type 0 where
    no_more : HeldAvps
    and_held : HeldAvp → HeldAvps → HeldAvps

-- The blocks that are given back, in order. `none` is a union that does not hold what is freed. A group's
-- block is freed behind its own cleanup, `diaEncodeAvpGrpData_cleanup`.
unfoldable mutual
  unfolding get_avp_encode_data_type

  pub encode_avp_cleanup : HeldAvp → Option (List ℕ)
  encode_avp_cleanup (held code d) = free_data (get_avp_encode_data_type code) d

  pub free_data : EncodeDataType → HeldData → Option (List ℕ)
  free_data enc_group (group block array l) =
      grp_data_cleanup array l >>= λ k. some (k ++ (block ∷ []))
  free_data enc_group _ = none
  free_data enc_str (string block l) = some (block ∷ [])
  free_data enc_str _ = none
  free_data _ d = some []

  pub grp_data_cleanup : ℕ → HeldAvps → Option (List ℕ)
  grp_data_cleanup array no_more = some (array ∷ [])
  grp_data_cleanup array (and_held a l) =
      encode_avp_cleanup a >>= λ k. grp_data_cleanup array l >>= λ m. some (k ++ m)

-- `diaEncodeAvpGrp_cleanup`: what a group that `diaAvpGrp_create` made frees with it, whatever its code.
unfoldable pub grp_cleanup : HeldAvp → Option (List ℕ)
unfolding free_data
grp_cleanup (held code d) = free_data enc_group d

-- The AVP that is written.
abbrev mutual
  pub written : HeldAvp → EncAvp
  written (held code d) = enc_avp code (written_data d)

  pub written_data : HeldData → EncData
  written_data (number n) = num n
  written_data (string block l) = pl l
  written_data (group block array l) = grouped (written_all l)

  pub written_all : HeldAvps → EncAvps
  written_all no_more = no_avp
  written_all (and_held a l) = add_avp (written a) (written_all l)

-- All the blocks that an AVP has, those of the members of a group first.
abbrev mutual
  pub blocks : HeldAvp → List ℕ
  blocks (held code d) = blocks_data d

  pub blocks_data : HeldData → List ℕ
  blocks_data (number n) = []
  blocks_data (string block l) = block ∷ []
  blocks_data (group block array l) = blocks_all l ++ (array ∷ block ∷ [])

  pub blocks_all : HeldAvps → List ℕ
  blocks_all no_more = []
  blocks_all (and_held a l) = blocks a ++ blocks_all l

-- A value of a type that the dictionary does not know fits nothing.
FitsAs-known :
    (cmd : ℕ) (i : AvpInfo) (t : DataType) (d : HeldData)
    → FitsAs cmd i (shape_of t) (written_data d)
    → t ≢ unknown_type
unfolding FitsAs
FitsAs-known cmd i t (number n) h e = ground arith
FitsAs-known cmd i t (string block l) h e = ground arith
FitsAs-known cmd i t (group block array l) h e = ground arith

module _ (cmd : ℕ) where
  abbrev Agree : EncodeDataType → DataType → Type 0
  Agree e t = ((e ≡ enc_group) ↔ (t ≡ grouped_type)) × ((e ≡ enc_str) ↔ (is_string_type t ≡ true))

  number_free :
      (i : AvpInfo) (e : EncodeDataType) (t : DataType) (n : ℕ)
      → Agree e t
      → FitsAs cmd i (shape_of t) (num n)
      → free_data e (number n) ≡ some []
  unfolding free_data FitsAs
  number_free i e t n a h = ground arith

  string_free :
      (i : AvpInfo) (e : EncodeDataType) (t : DataType) (block : ℕ) (l : List ℕ)
      → Agree e t
      → FitsAs cmd i (shape_of t) (pl l)
      → e ≡ enc_str
  unfolding FitsAs
  string_free i e t block l a h = ground arith

  group_free :
      (i : AvpInfo) (e : EncodeDataType) (t : DataType) (l : EncAvps)
      → Agree e t
      → FitsAs cmd i (shape_of t) (grouped l)
      → (e ≡ enc_group) × FitsAll cmd l
  unfolding FitsAs
  group_free i e t l a h = ground arith

  fits_agree :
      (code : ℕ) (i : AvpInfo) (d : HeldData)
      → FitsAs cmd i (shape_of (get_avp_info cmd code).data_type) (written_data d)
      → Agree (get_avp_encode_data_type code) (get_avp_info cmd code).data_type
  fits_agree code i d h =
      encode_data_type-known cmd code (FitsAs-known cmd i (get_avp_info cmd code).data_type d h)

  group-blocks :
      (block array : ℕ) (l : HeldAvps)
      → grp_data_cleanup array l ≡ some (blocks_all l ++ (array ∷ []))
      → free_data enc_group (group block array l) ≡ some (blocks_data (group block array l))
  unfolding free_data
  group-blocks block array l e =
      ap (λ r. r >>= λ k. some (k ++ (block ∷ []))) e
      ∙ ap (λ k. some k) (append_assoc (blocks_all l) (array ∷ []) (block ∷ []))

  mutual
    unfolding encode_avp_cleanup Fits

    -- The same for any AVP, by recursion on the members.
    pub encode_avp_cleanup-blocks :
        (a : HeldAvp) → Fits cmd (written a) → encode_avp_cleanup a ≡ some (blocks a)
    encode_avp_cleanup-blocks (held code d) (small, h) =
        free_data-blocks (get_avp_info cmd code) (get_avp_encode_data_type code)
          (get_avp_info cmd code).data_type d (fits_agree code (get_avp_info cmd code) d h) h

    free_data-blocks :
        (i : AvpInfo) (e : EncodeDataType) (t : DataType) (d : HeldData)
        → Agree e t
        → FitsAs cmd i (shape_of t) (written_data d)
        → free_data e d ≡ some (blocks_data d)
    free_data-blocks i e t (number n) a h = number_free i e t n a h
    free_data-blocks i e t (string block l) a h =
        ap (λ x. free_data x (string block l)) (string_free i e t block l a h)
    free_data-blocks i e t (group block array l) a h =
        let (is_group, fits) = group_free i e t (written_all l) a h in
        ap (λ x. free_data x (group block array l)) is_group
        ∙ group-blocks block array l (all-blocks array l fits)

    all-blocks :
        (array : ℕ) (l : HeldAvps)
        → FitsAll cmd (written_all l)
        → grp_data_cleanup array l ≡ some (blocks_all l ++ (array ∷ []))
    all-blocks array no_more h = refl
    all-blocks array (and_held a l) (h, hs) =
        ap (λ r. r >>= λ k. grp_data_cleanup array l >>= λ m. some (k ++ m))
          (encode_avp_cleanup-blocks a h)
        ∙ ap (λ r. r >>= λ m. some (blocks a ++ m)) (all-blocks array l hs)
        ∙ ap (λ k. some k) (sym (append_assoc (blocks a) (blocks_all l) (array ∷ [])))

  -- A group that the encoder of a command can write is freed without a fault, whether it stands alone or in
  -- another group, though what frees it knows no command: each of its blocks is given back once, all
  -- those of a member together, in the order of the members, and then the array and the group.
  pub cleanup-blocks :
      (code block array : ℕ) (l : HeldAvps)
      → let g = held code (group block array l) in
        Fits cmd (written g)
        → (encode_avp_cleanup g ≡ some (blocks g)) × (grp_cleanup g ≡ some (blocks g))
  unfolding Fits grp_cleanup
  cleanup-blocks code block array l (small, h) =
      let (is_group, fits) =
        group_free (get_avp_info cmd code) (get_avp_encode_data_type code)
          (get_avp_info cmd code).data_type (written_all l)
          (fits_agree code (get_avp_info cmd code) (group block array l) h) h in
      (
        encode_avp_cleanup-blocks (held code (group block array l)) (small, h),
        group-blocks block array l (all-blocks array l fits),
      )
