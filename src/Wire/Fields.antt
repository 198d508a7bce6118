-- ===== src/Wire/Fields.antt =====
-- The encoders of one AVP (common/src/diaAvp.c) write its layout.
use diameter.Common.{
  ℕ, ◌+◌, ◌-◌, ◌*◌, ◌%◌, ◌<◌, ◌≤◌, ◌≡◌, refl, sym, subst, ap, ◌∙◌, arith, Bool, true, false, ◌==◌,
  if◌then◌else◌, length, length-append, replicate, List, [], ◌∷◌, ◌++◌, bit_or, bit_or_24,
}
use diameter.Dict.Info.{AvpInfo}
use diameter.Wire.Words.{u32, be3, be4, be8, htobe64, le8-htobe64, cons4}
use diameter.Wire.Buf.{
  MBuf, BufOps, BufLaws, Wrote, Wrote-append, Wrote-nothing, put, put-ext, put-before,
}
use diameter.Wire.Header.{at, flag_word, write_be32}
use diameter.Wire.HeaderBytes.{then_word, flag_word-be4}
use diameter.Wire.Encode.{
  is_vendor, hdr_len, write_avp_hdr, encode_str, encode_int32, encode_int64, close_group,
}
use diameter.Wire.Shape.{pad_len, avp_hdr, framed, length-avp_hdr, framed-aligned}

str_word-be4 :
    (flag n : ℕ)
    → flag < 256
    → n < 0x100_0000
    → be4 (u32 (bit_or (flag * 0x100_0000) n)) ≡ flag ∷ be3 n
unfolding be4 be3
str_word-be4 flag n h k =
    ap (λ w. be4 (u32 w)) (bit_or_24 flag n k)
    ∙ cons4 (omega arith) (omega arith) (omega arith) (omega arith)

module _ (o : BufOps) (laws : BufLaws o) where
  write_avp_hdr-Wrote :
      (code word len : ℕ) (i : AvpInfo) (b : MBuf)
      → be4 word ≡ i.flag ∷ be3 len
      → b.pos + hdr_len i.flag ≤ b.size
      → Wrote b (avp_hdr code i len) (write_avp_hdr o code word i b)
  unfolding write_avp_hdr be3 be4
  write_avp_hdr-Wrote code word len i b e room = by_vendor (is_vendor i.flag) room
    where
      plain :
          b.pos + 8 ≤ b.size
          → Wrote b (be4 code ++ (i.flag ∷ be3 len)) (write_be32 o word (write_be32 o code b))
      plain h =
          then_word o laws word _ e (then_word o laws code _ refl (Wrote-nothing b) (omega arith))
            (omega arith)

      by_vendor :
          (t : Bool)
          → b.pos + (if t then 12 else 8) ≤ b.size
          → Wrote b (be4 code ++ ((i.flag ∷ be3 len) ++ (if t then be4 i.vendor_id else []))) (
              if t
              then write_be32 o i.vendor_id (write_be32 o word (write_be32 o code b))
              else write_be32 o word (write_be32 o code b))
      by_vendor true h = then_word o laws i.vendor_id _ refl (plain (omega arith)) (omega arith)
      by_vendor false h = plain h

  pub encode_int32-Wrote :
      (code : ℕ) (i : AvpInfo) (v : ℕ) (b : MBuf)
      → i.flag < 256
      → b.pos + (hdr_len i.flag + 4) ≤ b.size
      → Wrote b (framed code i (be4 v)) (encode_int32 o code i v b)
  unfolding encode_int32 be4
  encode_int32-Wrote code i v b f room =
      then_word o laws v _ refl
        (write_avp_hdr-Wrote code _ (hdr_len i.flag + 4) i b (flag_word-be4 i.flag _ f)
          (omega arith))
        (omega (arith, length-avp_hdr code i (hdr_len i.flag + 4)))

  pub encode_int64-Wrote :
      (code : ℕ) (i : AvpInfo) (v : ℕ) (b : MBuf)
      → i.flag < 256
      → b.pos + (hdr_len i.flag + 8) ≤ b.size
      → Wrote b (framed code i (be8 v)) (encode_int64 o code i v b)
  unfolding encode_int64 be8
  encode_int64-Wrote code i v b f room = Wrote-append hdr (
      subst (λ k. Wrote c k (o.write_u64 c (htobe64 v))) (le8-htobe64 v)
        (laws.write_u64-Wrote c (htobe64 v)
          (omega (arith, hdr.pos_at, hdr.size_at, length-avp_hdr code i (hdr_len i.flag + 8)))))
    where
      c : MBuf
      c = write_avp_hdr o code (flag_word i.flag (hdr_len i.flag + 8)) i b

      hdr : Wrote b (avp_hdr code i (hdr_len i.flag + 8)) c
      hdr =
          write_avp_hdr-Wrote code _ (hdr_len i.flag + 8) i b (flag_word-be4 i.flag _ f)
            (omega arith)

  pub encode_str-Wrote :
      (code : ℕ) (i : AvpInfo) (l : List ℕ) (b : MBuf)
      → i.flag < 256
      → hdr_len i.flag + length l < 0x100_0000
      → b.pos + (hdr_len i.flag + (length l + pad_len (length l))) ≤ b.size
      → Wrote b (framed code i l) (encode_str o code i l b)
  unfolding encode_str
  encode_str-Wrote code i l b f h room = Wrote-append hdr (padded (length l % 4 == 0) (omega arith))
    where
      len : ℕ
      len = hdr_len i.flag + length l

      c : MBuf
      c = write_avp_hdr o code (u32 (bit_or (i.flag * 0x100_0000) len)) i b

      hdr : Wrote b (avp_hdr code i len) c
      hdr = write_avp_hdr-Wrote code _ len i b (str_word-be4 i.flag len f h) (omega arith)

      value : Wrote c l (o.write_pl c l)
      value =
          laws.write_pl-Wrote c l
            (omega (arith, hdr.pos_at, hdr.size_at, length-avp_hdr code i len))

      padded :
          (t : Bool)
          → b.pos + (hdr_len i.flag + (length l + (if t then 0 else 4 - length l % 4))) ≤ b.size
          → Wrote c
              (l ++ replicate (if t then 0 else 4 - length l % 4) 0)
              (if t then o.write_pl c l else o.set_zero (o.write_pl c l) (4 - length l % 4))
      padded true r = Wrote-append value (Wrote-nothing (o.write_pl c l))
      padded false r = Wrote-append value (
          laws.set_zero-Wrote (o.write_pl c l) (4 - length l % 4) (
            omega (
              arith,
              value.pos_at,
              value.size_at,
              hdr.pos_at,
              hdr.size_at,
              length-avp_hdr code i len,
            )))

  pub close_group-Wrote :
      (code : ℕ) (i : AvpInfo) (l : List ℕ) (b c : MBuf)
      → i.flag < 256
      → hdr_len i.flag + length l < 0x100_0000
      → length l % 4 ≡ 0
      → b.pos + (hdr_len i.flag + length l) ≤ b.size
      → Wrote (at (b.pos + hdr_len i.flag) b) l c
      → Wrote b (framed code i l) (close_group o code i b.pos c)
  unfolding close_group
  close_group-Wrote code i l b c f h al room w = record {
    mem_at = λ a.
        hdr.mem_at a
        ∙ put-ext c.mem (put b.mem (b.pos + hdr_len i.flag) l) b.pos (avp_hdr code i len) a
            (w.mem_at a)
        ∙ ap (λ n. put (put b.mem (b.pos + n) l) b.pos (avp_hdr code i len) a)
            (sym (length-avp_hdr code i len))
        ∙ put-before b.mem b.pos (avp_hdr code i len) l a
        ∙ ap (λ k. put b.mem b.pos k a) (sym (framed-aligned code i l al));
    pos_at = omega (
      arith,
      w.pos_at,
      ap (λ k. length k) (framed-aligned code i l al),
      length-append (avp_hdr code i len) l,
      length-avp_hdr code i len,
    );
    size_at = hdr.size_at ∙ w.size_at;
  }
    where
      len : ℕ
      len = hdr_len i.flag + length l

      d : MBuf
      d = write_avp_hdr o code (flag_word i.flag (u32 (c.pos - b.pos))) i (at b.pos c)

      len_ok : u32 (c.pos - b.pos) ≡ len
      len_ok = omega (arith, w.pos_at)

      hdr : Wrote (at b.pos c) (avp_hdr code i len) d
      hdr =
          write_avp_hdr-Wrote code _ len i (at b.pos c)
            (flag_word-be4 i.flag _ f ∙ ap (λ n. i.flag ∷ be3 n) len_ok) (omega (arith, w.size_at))
