-- ===== src/Wire/Decoded.antt =====
-- What the decoder of common/src/diaAvp.c makes of the layout of `Shape`, and its steps.
use diameter.Common.{
  ℕ, suc, ◌+◌, ◌-◌, ◌%◌, ◌<◌, ◌≤◌, ◌≡◌, ◌⊎◌, refl, ap, arith, inl, inr, ◌==◌, if◌then◌else◌, length,
}
use diameter.Msg.{
  status_ok, DataType, unknown_type, float32_type, float64_type, enum_type, int32_type, int64_type,
  uint32_type, uint64_type, octet_string_type, utf8_string_type, ip_filter_type, time_type,
  diam_iden_type, grouped_type, Avp, AvpData, Avps, avp, unset, num32, num64, str, group, nil, cons,
}
use diameter.Dict.Info.{AvpInfo, get_avp_info}
use diameter.Wire.Words.{u32, be4, be8}
use diameter.Wire.Buf.{MBuf, BufOps}
use diameter.Wire.Header.{at}
use diameter.Wire.Encode.{
  EncAvp, EncData, EncAvps, enc_avp, num, pl, grouped, no_avp, add_avp, is_vendor, hdr_len,
}
use diameter.Wire.Shape.{
  Shape, word32, word64, text, members, nothing, shape_of, pad_len, wire, wire_value, Fits, FitsAs,
  length-framed,
}
use diameter.Wire.Decode.{
  Run, done, ◌>>>◌, AvpHdr, read_avp_hdr, read_value, read_32, read_64, read_pl, value_len,
  decode_avp, decode_group, decode_members,
}
use diameter.Wire.Held.{hdr_of}

-- The decoder has no case for ENUM.
abbrev pub read_shape_of : DataType → Shape
read_shape_of enum_type = nothing
read_shape_of type = shape_of type

-- What the decoder makes of an AVP.
unfoldable mutual
  unfolding get_avp_info

  pub decoded : ℕ → EncAvp → Avp
  decoded cmd (enc_avp code v) =
      let i = get_avp_info cmd code in
      avp code i.flag (if is_vendor i.flag then u32 i.vendor_id else 0xffff_ffff) i.data_type
        (decoded_value cmd (read_shape_of i.data_type) v)

  pub decoded_value : ℕ → Shape → EncData → AvpData
  decoded_value cmd word32 (num n) = num32 (u32 n)
  decoded_value cmd word64 (num n) = num64 (n % 0x1_0000_0000_0000_0000)
  decoded_value cmd text (pl l) = str l
  decoded_value cmd members (grouped l) = group (decoded_all cmd l)
  decoded_value cmd _ _ = unset

  pub decoded_all : ℕ → EncAvps → Avps
  decoded_all cmd no_avp = nil
  decoded_all cmd (add_avp a l) = cons (decoded cmd a) (decoded_all cmd l)

-- The fuel that the decoder takes.
unfoldable mutual
  pub cost : EncAvp → ℕ
  cost (enc_avp code v) = suc (cost_value v)

  pub cost_value : EncData → ℕ
  cost_value (grouped l) = suc (cost_all l)
  cost_value _ = 0

  pub cost_all : EncAvps → ℕ
  cost_all no_avp = 1
  cost_all (add_avp a l) = suc (cost a + cost_all l)

pub read_shape_of-cases :
    (type : DataType) → (read_shape_of type ≡ shape_of type) ⊎ (read_shape_of type ≡ nothing)
read_shape_of-cases unknown_type = inl refl
read_shape_of-cases enum_type = inr refl
read_shape_of-cases int32_type = inl refl
read_shape_of-cases int64_type = inl refl
read_shape_of-cases uint32_type = inl refl
read_shape_of-cases uint64_type = inl refl
read_shape_of-cases float32_type = inl refl
read_shape_of-cases float64_type = inl refl
read_shape_of-cases octet_string_type = inl refl
read_shape_of-cases utf8_string_type = inl refl
read_shape_of-cases ip_filter_type = inl refl
read_shape_of-cases time_type = inl refl
read_shape_of-cases diam_iden_type = inl refl
read_shape_of-cases grouped_type = inl refl

module _ (o : BufOps) where
  unfoldable pub read_by : (MBuf → Run Avps) → Shape → AvpHdr → MBuf → ℕ → Run AvpData
  read_by d word32 h b p = read_32 b p
  read_by d word64 h b p = read_64 b p
  read_by d text h b p = read_pl h b p
  read_by d members h b p = d (o.alloc_ref2 b p (value_len h)) >>> λ l. done (group l)
  read_by d nothing h b p = done unset

  pub read_value-shape :
      (d : MBuf → Run Avps) (type : DataType) (h : AvpHdr) (b : MBuf) (p : ℕ)
      → read_value o d type h b p ≡ read_by d (read_shape_of type) h b p
  unfolding read_value read_by
  read_value-shape d unknown_type h b p = refl
  read_value-shape d enum_type h b p = refl
  read_value-shape d int32_type h b p = refl
  read_value-shape d int64_type h b p = refl
  read_value-shape d uint32_type h b p = refl
  read_value-shape d uint64_type h b p = refl
  read_value-shape d float32_type h b p = refl
  read_value-shape d float64_type h b p = refl
  read_value-shape d octet_string_type h b p = refl
  read_value-shape d utf8_string_type h b p = refl
  read_value-shape d ip_filter_type h b p = refl
  read_value-shape d time_type h b p = refl
  read_value-shape d diam_iden_type h b p = refl
  read_value-shape d grouped_type h b p = refl

  pub decode_avp-aligned :
      (n cmd : ℕ) (b : MBuf)
      → b.pos % 4 ≡ 0
      → decode_avp o (suc n) cmd b ≡ (
          read_avp_hdr b >>> λ h.
          read_value o
            (decode_group o n cmd)
            (get_avp_info cmd h.code).data_type
            h
            b
            (b.pos + hdr_len h.flag)
          >>> λ v. done (
            status_ok,
            avp h.code h.flag h.vendor_id (get_avp_info cmd h.code).data_type v,
            at (b.pos + h.len + pad_len h.len) b,
          ))
  unfolding decode_avp
  decode_avp-aligned n cmd b h = ground arith

  pub decode_group-aligned :
      (n cmd : ℕ) (b : MBuf)
      → b.pos % 4 ≡ 0
      → decode_group o (suc n) cmd b ≡ decode_members o n cmd b
  unfolding decode_group
  decode_group-aligned n cmd b h = ground arith

  pub decode_members-end :
      (n cmd : ℕ) (b : MBuf) → b.end ≤ b.pos → decode_members o (suc n) cmd b ≡ done nil
  unfolding decode_members
  decode_members-end n cmd b h = ground arith

  pub decode_members-step :
      (n cmd : ℕ) (b : MBuf)
      → b.pos < b.end
      → decode_members o (suc n) cmd b
        ≡ (decode_avp o n cmd b >>> λ r. decode_members o n cmd (r.2) >>> λ l. done (cons (r.1) l))
  unfolding decode_members
  decode_members-step n cmd b h = ground arith

pub hdr_len-mod : (flag : ℕ) → hdr_len flag % 4 ≡ 0
hdr_len-mod flag = ground arith

hdr_len-le : (flag : ℕ) → hdr_len flag ≤ 12
hdr_len-le flag = ground arith

pub hdr_len-ge : (flag : ℕ) → 8 ≤ hdr_len flag
hdr_len-ge flag = ground arith

pub pad_len-hdr : (flag n : ℕ) → pad_len (hdr_len flag + n) ≡ pad_len n
pad_len-hdr flag n = ap (λ r. if r == 0 then 0 else 4 - r) same_rest
  where
    same_rest : (hdr_len flag + n) % 4 ≡ n % 4
    same_rest = omega (arith, hdr_len-mod flag)

pub value_len-hdr :
    (code : ℕ) (i : AvpInfo) (n : ℕ)
    → hdr_len i.flag + n < 0x100_0000
    → value_len (hdr_of code i (hdr_len i.flag + n)) ≡ n
value_len-hdr code i n h = omega (arith, hdr_len-le i.flag)

pub value_fits :
    (cmd : ℕ) (i : AvpInfo) (s : Shape) (v : EncData)
    → FitsAs cmd i s v
    → hdr_len i.flag + length (wire_value cmd s v) < 0x100_0000
unfolding Fits wire be4 be8
value_fits cmd i word32 (num n) h = omega (arith, hdr_len-le i.flag)
value_fits cmd i word64 (num n) h = omega (arith, hdr_len-le i.flag)
value_fits cmd i text (pl l) h = h
value_fits cmd i members (grouped l) h = h.1
value_fits cmd i word32 (pl l) h = elim h [ ]
value_fits cmd i word32 (grouped l) h = elim h [ ]
value_fits cmd i word64 (pl l) h = elim h [ ]
value_fits cmd i word64 (grouped l) h = elim h [ ]
value_fits cmd i text (num n) h = elim h [ ]
value_fits cmd i text (grouped l) h = elim h [ ]
value_fits cmd i members (num n) h = elim h [ ]
value_fits cmd i members (pl l) h = elim h [ ]
value_fits cmd i nothing v h = elim h [ ]

pub length-wire-ge : (cmd : ℕ) (a : EncAvp) → 8 ≤ length (wire cmd a)
unfolding wire
length-wire-ge cmd (enc_avp code v) =
    let i = get_avp_info cmd code in
    omega (arith, length-framed code i (wire_value cmd (shape_of i.data_type) v), hdr_len-ge i.flag)
