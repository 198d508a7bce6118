-- ===== src/Wire/Written.antt =====
-- The encoder of common/src/diaAvp.c writes the layout of `Shape`.
use diameter.Common.{
  ℕ, ◌+◌, ◌<◌, ◌≤◌, ◌≡◌, refl, subst, ap, ◌∙◌, arith, Option, some, length, length-append, List,
  ◌>>=◌,
}
use diameter.Msg.{
  OsStatus, status_ok, DataType, unknown_type, float32_type, float64_type, enum_type, int32_type,
  int64_type, uint32_type, uint64_type, octet_string_type, utf8_string_type, ip_filter_type,
  time_type, diam_iden_type, grouped_type,
}
use diameter.Dict.Info.{AvpInfo, get_avp_info}
use diameter.Dict.Facts.{flag-lt}
use diameter.Wire.Words.{u32, be4, be8, cons4}
use diameter.Wire.Buf.{MBuf, BufOps, BufLaws, Wrote, Wrote-append, Wrote-nothing}
use diameter.Wire.Header.{at}
use diameter.Wire.Encode.{
  EncAvp, EncData, EncAvps, enc_avp, num, pl, grouped, no_avp, add_avp, hdr_len, encode_int32,
  close_group, encode_avp, encode_as, encode_grouped, encode_members,
}
use diameter.Wire.Shape.{
  Shape, word32, word64, text, members, nothing, shape_of, framed, wire, wire_value, wire_all, Fits,
  FitsAs, FitsAll, length-framed, wire_all-aligned,
}
use diameter.Wire.Fields.{
  encode_int32-Wrote, encode_int64-Wrote, encode_str-Wrote, close_group-Wrote,
}

-- The encoder succeeds and writes the bytes.
abbrev pub Encodes : Option (OsStatus × MBuf) → MBuf → List ℕ → Type 0
Encodes r b l = (c : MBuf) × (r ≡ some (status_ok, c)) × Wrote b l c

module _ (o : BufOps) (laws : BufLaws o) where
  -- The switch over the type goes by the shape of the type.
  encode_shape :
      ℕ → AvpInfo → Shape → EncData → Option (OsStatus × MBuf) → MBuf → Option (OsStatus × MBuf)
  unfolding encode_as
  encode_shape code i word32 v g b = encode_as o code i uint32_type v g b
  encode_shape code i word64 v g b = encode_as o code i uint64_type v g b
  encode_shape code i text v g b = encode_as o code i octet_string_type v g b
  encode_shape code i members v g b = g
  encode_shape code i nothing v g b = encode_as o code i unknown_type v g b

  encode_as-shape :
      (code : ℕ) (i : AvpInfo) (type : DataType) (v : EncData) (g : Option (OsStatus × MBuf))
      (b : MBuf)
      → encode_as o code i type v g b ≡ encode_shape code i (shape_of type) v g b
  unfolding encode_as encode_shape
  encode_as-shape code i unknown_type v g b = refl
  encode_as-shape code i enum_type v g b = refl
  encode_as-shape code i int32_type v g b = refl
  encode_as-shape code i int64_type v g b = refl
  encode_as-shape code i uint32_type v g b = refl
  encode_as-shape code i uint64_type v g b = refl
  encode_as-shape code i float32_type v g b = refl
  encode_as-shape code i float64_type v g b = refl
  encode_as-shape code i octet_string_type v g b = refl
  encode_as-shape code i utf8_string_type v g b = refl
  encode_as-shape code i ip_filter_type v g b = refl
  encode_as-shape code i time_type v g b = refl
  encode_as-shape code i diam_iden_type v g b = refl
  encode_as-shape code i grouped_type v g b = refl

  be4-u32 : (v : ℕ) → be4 (u32 v) ≡ be4 v
  unfolding be4
  be4-u32 v = cons4 (omega arith) (omega arith) (omega arith) (omega arith)

  mutual
    unfolding wire Fits encode_as encode_avp encode_shape be4 be8

    encode_wire :
        (cmd : ℕ) (a : EncAvp) (b : MBuf)
        → Fits cmd a
        → b.pos + length (wire cmd a) ≤ b.size
        → Encodes (encode_avp o cmd a b) b (wire cmd a)
    encode_wire cmd (enc_avp code v) b h room =
        let i = get_avp_info cmd code in
        let r = by_shape cmd code i (shape_of i.data_type) v b (flag-lt cmd code) (h.1) room in
        (r.0, encode_as-shape code i i.data_type v (encode_grouped o cmd code i v b) b ∙ r.1, r.2)

    by_shape :
        (cmd code : ℕ) (i : AvpInfo) (s : Shape) (v : EncData) (b : MBuf)
        → i.flag < 256
        → FitsAs cmd i s v
        → b.pos + length (framed code i (wire_value cmd s v)) ≤ b.size
        → Encodes
            (encode_shape code i s v (encode_grouped o cmd code i v b) b)
            b
            (framed code i (wire_value cmd s v))
    by_shape cmd code i word32 (num n) b f h room = (
      _,
      refl,
      subst (λ k. Wrote b (framed code i k) (encode_int32 o code i (u32 n) b)) (be4-u32 n)
          (encode_int32-Wrote o laws code i (u32 n) b f
            (omega (arith, length-framed code i (be4 n)))),
    )
    by_shape cmd code i word64 (num n) b f h room = (
      _,
      refl,
      encode_int64-Wrote o laws code i n b f (omega (arith, length-framed code i (be8 n))),
    )
    by_shape cmd code i text (pl l) b f h room =
        (_, refl, encode_str-Wrote o laws code i l b f h (omega (arith, length-framed code i l)))
    by_shape cmd code i members (grouped l) b f h room =
        let r =
          encode_members-wire cmd l (at (b.pos + hdr_len i.flag) b) (h.0)
            (omega (arith, length-framed code i (wire_all cmd l))) in
        (
          close_group o code i b.pos (r.0),
          ap (λ m. m >>= λ x. some (x.0, close_group o code i b.pos (x.1))) (r.1),
          close_group-Wrote o laws code i (wire_all cmd l) b (r.0) f (h.1) (wire_all-aligned cmd l)
              (omega (arith, length-framed code i (wire_all cmd l))) (r.2),
        )
    by_shape cmd code i word32 (pl l) b f h room = elim h [ ]
    by_shape cmd code i word32 (grouped l) b f h room = elim h [ ]
    by_shape cmd code i word64 (pl l) b f h room = elim h [ ]
    by_shape cmd code i word64 (grouped l) b f h room = elim h [ ]
    by_shape cmd code i text (num n) b f h room = elim h [ ]
    by_shape cmd code i text (grouped l) b f h room = elim h [ ]
    by_shape cmd code i members (num n) b f h room = elim h [ ]
    by_shape cmd code i members (pl l) b f h room = elim h [ ]
    by_shape cmd code i nothing v b f h room = elim h [ ]

    encode_members-wire :
        (cmd : ℕ) (l : EncAvps) (b : MBuf)
        → FitsAll cmd l
        → b.pos + length (wire_all cmd l) ≤ b.size
        → Encodes (encode_members o cmd l status_ok b) b (wire_all cmd l)
    encode_members-wire cmd no_avp b h room = (b, refl, Wrote-nothing b)
    encode_members-wire cmd (add_avp a l) b h room =
        let r =
          encode_wire cmd a b (h.0) (omega (arith, length-append (wire cmd a) (wire_all cmd l))) in
        let q =
          encode_members-wire cmd l (r.0) (h.1)
            (omega (arith, r.2.pos_at, r.2.size_at, length-append (wire cmd a) (wire_all cmd l))) in
        (
          q.0,
          ap (λ m. m >>= λ x. encode_members o cmd l (x.0) (x.1)) (r.1) ∙ q.1,
          Wrote-append (r.2) (q.2),
        )

  -- Where the values fit their types and the bytes the allocation, the encoder succeeds, and writes
  -- the code, the flags, the 24-bit length of header and value, the vendor id if the V flag is set,
  -- the value and the zeros up to a multiple of four, for members the same in the same order; it
  -- leaves the position behind them and the rest of the memory as it was.
  pub encode_avp-wire :
      (cmd : ℕ) (a : EncAvp) (b : MBuf)
      → Fits cmd a
      → b.pos + length (wire cmd a) ≤ b.size
      → Encodes (encode_avp o cmd a b) b (wire cmd a)
  encode_avp-wire = encode_wire
