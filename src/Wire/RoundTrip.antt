-- ===== src/Wire/RoundTrip.antt =====
-- The decoder of common/src/diaAvp.c on the layout of `Shape`, and the round trip.
use diameter.Common.{
  ℕ, zero, suc, ◌+◌, ◌%◌, ◌<◌, ◌≤◌, ◌≡◌, ◌⊎◌, refl, sym, subst, ap, ◌∙◌, arith, inl, inr, some,
  length, length-append, List,
}
use diameter.Msg.{OsStatus, status_ok, Avp, AvpData, avp, group, cons}
use diameter.Dict.Info.{AvpInfo, get_avp_info}
use diameter.Dict.Facts.{flag-lt}
use diameter.Wire.Buf.{MBuf, BufOps, BufLaws, Refers}
use diameter.Wire.Header.{at}
use diameter.Wire.Encode.{
  EncAvp, EncData, EncAvps, enc_avp, num, pl, grouped, no_avp, add_avp, hdr_len, encode_avp,
}
use diameter.Wire.Shape.{
  Shape, word32, word64, text, members, nothing, shape_of, pad_len, avp_hdr, wire, wire_value,
  wire_all, Fits, FitsAs, FitsAll, length-avp_hdr, length-framed, wire-aligned,
}
use diameter.Wire.Decode.{
  Run, done, ◌>>>◌, AvpHdr, read_value, value_len, decode_avp, decode_group, decode_members,
}
use diameter.Wire.Held.{
  Holds, Holds-at, Holds-prefix, Holds-suffix, Holds-same, Wrote-Holds, read_avp_hdr-Holds,
  read_32-Holds, read_64-Holds, read_pl-Holds, hdr_of,
}
use diameter.Wire.Fuel.{cost-le}
use diameter.Wire.Written.{encode_avp-wire}
use diameter.Wire.Decoded.{
  read_shape_of, decoded, decoded_value, decoded_all, cost, cost_value, cost_all,
  read_shape_of-cases, read_by, read_value-shape, decode_avp-aligned, decode_group-aligned,
  decode_members-end, decode_members-step, hdr_len-mod, pad_len-hdr, value_len-hdr, value_fits,
  length-wire-ge,
}

module _ (o : BufOps) (laws : BufLaws o) where
  -- The AVP, once its value has been read.
  avp_of_value :
      (n cmd code : ℕ) (v : EncData) (b : MBuf)
      → Fits cmd (enc_avp code v)
      → Holds b.mem b.pos (wire cmd (enc_avp code v))
      → b.pos % 4 ≡ 0
      → b.pos + length (wire cmd (enc_avp code v)) ≤ b.size
      → (let i = get_avp_info cmd code in
          let s = shape_of i.data_type in
          let len = hdr_len i.flag + length (wire_value cmd s v) in
          Holds b.mem (b.pos + hdr_len i.flag) (wire_value cmd s v)
          → read_by o (decode_group o n cmd) s (hdr_of code i len) b (b.pos + hdr_len i.flag)
            ≡ done (decoded_value cmd s v))
      → decode_avp o (suc n) cmd b
        ≡ done (
          status_ok,
          decoded cmd (enc_avp code v),
          at (b.pos + length (wire cmd (enc_avp code v))) b,
        )
  unfolding wire Fits decoded read_by
  avp_of_value n cmd code v b h k al room read =
      decode_avp-aligned o n cmd b al
      ∙ ap (λ r. r >>> after)
          (read_avp_hdr-Holds code len i b (h.0) (flag-lt cmd code) fits
            (omega (arith, length-framed code i body))
            (Holds-prefix b.mem b.pos (avp_hdr code i len) _ k))
      ∙ ap (λ r. r >>> ended (hdr_of code i len))
          (read_value-shape o _ i.data_type (hdr_of code i len) b (b.pos + hdr_len i.flag)
            ∙ by_type (read_shape_of-cases i.data_type))
      ∙ λ j. done (status_ok, decoded cmd (enc_avp code v), at (next j) b)
    where
      i : AvpInfo
      i = get_avp_info cmd code

      body : List ℕ
      body = wire_value cmd (shape_of i.data_type) v

      len : ℕ
      len = hdr_len i.flag + length body

      ended : AvpHdr → AvpData → Run (OsStatus × Avp × MBuf)
      ended h w = done (
        status_ok,
        avp h.code h.flag h.vendor_id (get_avp_info cmd h.code).data_type w,
        at (b.pos + h.len + pad_len h.len) b,
      )

      after : AvpHdr → Run (OsStatus × Avp × MBuf)
      after h =
          read_value o (decode_group o n cmd) (get_avp_info cmd h.code).data_type h b
            (b.pos + hdr_len h.flag)
          >>> ended h

      fits : len < 0x100_0000
      fits = value_fits cmd i (shape_of i.data_type) v (h.1)

      value_held : Holds b.mem (b.pos + hdr_len i.flag) body
      value_held = Holds-prefix b.mem (b.pos + hdr_len i.flag) body _ (
          Holds-at b.mem _ (ap (λ q. b.pos + q) (length-avp_hdr code i len))
            (Holds-suffix b.mem b.pos (avp_hdr code i len) _ k))

      by_type :
          (read_shape_of i.data_type ≡ shape_of i.data_type) ⊎ (read_shape_of i.data_type ≡ nothing)
          → read_by o
              (decode_group o n cmd)
              (read_shape_of i.data_type)
              (hdr_of code i len)
              b
              (b.pos + hdr_len i.flag)
            ≡ done (decoded_value cmd (read_shape_of i.data_type) v)
      by_type (inl q) =
          subst
            (λ s.
              read_by o (decode_group o n cmd) s (hdr_of code i len) b (b.pos + hdr_len i.flag)
              ≡ done (decoded_value cmd s v))
            (sym q) (read value_held)
      by_type (inr q) =
          subst
            (λ s.
              read_by o (decode_group o n cmd) s (hdr_of code i len) b (b.pos + hdr_len i.flag)
              ≡ done (decoded_value cmd s v))
            (sym q) refl

      next : b.pos + len + pad_len len ≡ b.pos + length (wire cmd (enc_avp code v))
      next = omega (arith, length-framed code i body, pad_len-hdr i.flag (length body))

  mutual
    unfolding wire Fits decoded cost read_by Holds

    -- On the layout of an AVP, at a multiple of four in the allocation, the decoder returns with the
    -- AVP behind it, if it has the fuel for all AVPs inside.
    pub decode_avp-wire :
        (n cmd : ℕ) (a : EncAvp) (b : MBuf)
        → cost a ≤ n
        → Fits cmd a
        → Holds b.mem b.pos (wire cmd a)
        → b.pos % 4 ≡ 0
        → b.pos + length (wire cmd a) ≤ b.size
        → decode_avp o n cmd b ≡ done (status_ok, decoded cmd a, at (b.pos + length (wire cmd a)) b)
    decode_avp-wire zero cmd (enc_avp code v) b e h k al room = absurd (omega arith)
    decode_avp-wire (suc n) cmd (enc_avp code v) b e h k al room =
        let i = get_avp_info cmd code in
        let body = wire_value cmd (shape_of i.data_type) v in
        let fits = value_fits cmd i (shape_of i.data_type) v (h.1) in
        avp_of_value n cmd code v b h k al room (λ held.
          value_wire n cmd (shape_of i.data_type) v i (hdr_of code i (hdr_len i.flag + length body))
            b (b.pos + hdr_len i.flag) (omega arith) (h.1) (value_len-hdr code i (length body) fits)
            held (omega (arith, hdr_len-mod i.flag)) (omega (arith, length-framed code i body)))

    value_wire :
        (n cmd : ℕ) (s : Shape) (v : EncData) (i : AvpInfo) (h : AvpHdr) (b : MBuf) (p : ℕ)
        → cost_value v ≤ n
        → FitsAs cmd i s v
        → value_len h ≡ length (wire_value cmd s v)
        → Holds b.mem p (wire_value cmd s v)
        → p % 4 ≡ 0
        → p + length (wire_value cmd s v) ≤ b.size
        → read_by o (decode_group o n cmd) s h b p ≡ done (decoded_value cmd s v)
    value_wire n cmd word32 (num m) i h b p e f l k al room = read_32-Holds b p m room k
    value_wire n cmd word64 (num m) i h b p e f l k al room = read_64-Holds b p m room k
    value_wire n cmd text (pl x) i h b p e f l k al room = read_pl-Holds h b p x l room k
    value_wire zero cmd members (grouped x) i h b p e f l k al room = absurd (omega arith)
    value_wire (suc n) cmd members (grouped x) i h b p e f l k al room =
        ap (λ r. r >>> λ l. done (group l))
          (decode_group-aligned o n cmd raw refers.aligned
            ∙ members_wire n cmd x raw (omega arith) (f.0)
                (Holds-same b.mem raw.mem p raw.pos (wire_all cmd x)
                  (λ j lt. refers.same j (omega (arith, l))) k)
                refers.aligned (refers.end_at ∙ ap (λ q. raw.pos + q) l)
                (omega (arith, refers.fits, l)))
      where
        raw : MBuf
        raw = o.alloc_ref2 b p (value_len h)

        refers : Refers b p (value_len h) raw
        refers = laws.alloc_ref2-Refers b p (value_len h) al (omega (arith, l))
    value_wire n cmd word32 (pl x) i h b p e f l k al room = elim f [ ]
    value_wire n cmd word32 (grouped x) i h b p e f l k al room = elim f [ ]
    value_wire n cmd word64 (pl x) i h b p e f l k al room = elim f [ ]
    value_wire n cmd word64 (grouped x) i h b p e f l k al room = elim f [ ]
    value_wire n cmd text (num m) i h b p e f l k al room = elim f [ ]
    value_wire n cmd text (grouped x) i h b p e f l k al room = elim f [ ]
    value_wire n cmd members (num m) i h b p e f l k al room = elim f [ ]
    value_wire n cmd members (pl x) i h b p e f l k al room = elim f [ ]
    value_wire n cmd nothing v i h b p e f l k al room = elim f [ ]

    members_wire :
        (n cmd : ℕ) (l : EncAvps) (b : MBuf)
        → cost_all l ≤ n
        → FitsAll cmd l
        → Holds b.mem b.pos (wire_all cmd l)
        → b.pos % 4 ≡ 0
        → b.end ≡ b.pos + length (wire_all cmd l)
        → b.pos + length (wire_all cmd l) ≤ b.size
        → decode_members o n cmd b ≡ done (decoded_all cmd l)
    members_wire zero cmd no_avp b e f k al en room = absurd (omega arith)
    members_wire zero cmd (add_avp a l) b e f k al en room = absurd (omega arith)
    members_wire (suc n) cmd no_avp b e f k al en room = decode_members-end o n cmd b (omega arith)
    members_wire (suc n) cmd (add_avp a l) b e f k al en room =
        decode_members-step o n cmd b
          (omega (arith, en, length-wire-ge cmd a, length-append (wire cmd a) (wire_all cmd l)))
        ∙ ap (λ r. r >>> λ r. decode_members o n cmd (r.2) >>> λ l. done (cons (r.1) l))
            (decode_avp-wire n cmd a b (omega arith) (f.0)
              (Holds-prefix b.mem b.pos (wire cmd a) (wire_all cmd l) k) al
              (omega (arith, length-append (wire cmd a) (wire_all cmd l))))
        ∙ ap (λ r. r >>> λ l. done (cons (decoded cmd a) l))
            (members_wire n cmd l (at (b.pos + length (wire cmd a)) b) (omega arith) (f.1)
              (Holds-suffix b.mem b.pos (wire cmd a) (wire_all cmd l) k)
              (omega (arith, wire-aligned cmd a))
              (omega (arith, en, length-append (wire cmd a) (wire_all cmd l)))
              (omega (arith, length-append (wire cmd a) (wire_all cmd l))))

  -- An AVP that is encoded at a multiple of four is decoded from there as the dictionary types it, and
  -- the position is behind it for both. Its values fit their types and its bytes the allocation; fuel
  -- for as many AVPs as it has bytes is enough.
  pub decode_avp-encode_avp :
      (n cmd : ℕ) (a : EncAvp) (b : MBuf)
      → Fits cmd a
      → b.pos % 4 ≡ 0
      → b.pos + length (wire cmd a) ≤ b.size
      → length (wire cmd a) ≤ n
      → (c : MBuf) × (encode_avp o cmd a b ≡ some (status_ok, c))
        × (c.pos ≡ b.pos + length (wire cmd a))
        × (decode_avp o n cmd (at b.pos c) ≡ done (status_ok, decoded cmd a, c))
  decode_avp-encode_avp n cmd a b h al room fuel =
      let r = encode_avp-wire o laws cmd a b h room in
      (
        r.0,
        r.1,
        r.2.pos_at,
        decode_avp-wire n cmd a (at b.pos (r.0)) (omega (arith, cost-le cmd a h)) h
              (Wrote-Holds b (r.0) (wire cmd a) (r.2)) al (omega (arith, r.2.size_at))
            ∙ ap (λ q. done (status_ok, decoded cmd a, at q (r.0))) (sym r.2.pos_at),
      )
