-- ===== src/Wire/Shape.antt =====
-- The layout of an AVP, RFC 6733, section 4.1, as the dictionary types it.
use diameter.Common.{
  ℕ, ◌+◌, ◌-◌, ◌%◌, ◌<◌, ◌≡◌, refl, ap, ◌∙◌, arith, Bool, true, false, ◌==◌, if◌then◌else◌, length,
  length-append, append-nil, if_true, ==_iff, length-replicate, replicate, List, [], ◌∷◌, ◌++◌,
}
use diameter.Msg.{
  DataType, enum_type, int32_type, int64_type, uint32_type, uint64_type, octet_string_type,
  utf8_string_type, ip_filter_type, time_type, diam_iden_type, grouped_type,
}
use diameter.Dict.Info.{AvpInfo, get_avp_info}
use diameter.Wire.Words.{be3, be4, be8}
use diameter.Wire.Encode.{
  EncAvp, EncData, EncAvps, enc_avp, num, pl, grouped, no_avp, add_avp, is_vendor, hdr_len,
}

-- How the value of a type is written.
pub data Shape : Type 0 where
  word32 word64 text members nothing : Shape

abbrev pub shape_of : DataType → Shape
shape_of enum_type = word32
shape_of int32_type = word32
shape_of uint32_type = word32
shape_of int64_type = word64
shape_of uint64_type = word64
shape_of octet_string_type = text
shape_of utf8_string_type = text
shape_of ip_filter_type = text
shape_of time_type = text
shape_of diam_iden_type = text
shape_of grouped_type = members
shape_of _ = nothing

-- The zeros up to a multiple of four.
abbrev pub pad_len : ℕ → ℕ
pad_len n = if n % 4 == 0 then 0 else 4 - n % 4

abbrev pub avp_hdr : ℕ → AvpInfo → ℕ → List ℕ
unfolding be3 be4
avp_hdr code i len =
    be4 code ++ ((i.flag ∷ be3 len) ++ (if is_vendor i.flag then be4 i.vendor_id else []))

-- The length field counts the header and the value, and not the padding.
abbrev pub framed : ℕ → AvpInfo → List ℕ → List ℕ
framed code i body =
    avp_hdr code i (hdr_len i.flag + length body) ++ (body ++ replicate (pad_len (length body)) 0)

unfoldable mutual
  unfolding get_avp_info be4 be8

  pub wire : ℕ → EncAvp → List ℕ
  wire cmd (enc_avp code v) =
      framed code (get_avp_info cmd code)
        (wire_value cmd (shape_of (get_avp_info cmd code).data_type) v)

  pub wire_value : ℕ → Shape → EncData → List ℕ
  wire_value cmd word32 (num n) = be4 n
  wire_value cmd word64 (num n) = be8 n
  wire_value cmd text (pl l) = l
  wire_value cmd members (grouped l) = wire_all cmd l
  wire_value cmd _ _ = []

  pub wire_all : ℕ → EncAvps → List ℕ
  wire_all cmd no_avp = []
  wire_all cmd (add_avp a l) = wire cmd a ++ wire_all cmd l

-- The code fits its 32 bits, the value is what the type asks for, here and in the members, and the
-- length fits its 24 bits.
unfoldable mutual
  unfolding get_avp_info wire

  pub Fits : ℕ → EncAvp → Type 0
  Fits cmd (enc_avp code v) =
      (code < 0x1_0000_0000)
      × FitsAs cmd (get_avp_info cmd code) (shape_of (get_avp_info cmd code).data_type) v

  pub FitsAs : ℕ → AvpInfo → Shape → EncData → Type 0
  FitsAs cmd i word32 (num n) = Unit {0}
  FitsAs cmd i word64 (num n) = Unit {0}
  FitsAs cmd i text (pl l) = hdr_len i.flag + length l < 0x100_0000
  FitsAs cmd i members (grouped l) =
      FitsAll cmd l × (hdr_len i.flag + length (wire_all cmd l) < 0x100_0000)
  FitsAs cmd i _ _ = ⊥

  pub FitsAll : ℕ → EncAvps → Type 0
  FitsAll cmd no_avp = Unit {0}
  FitsAll cmd (add_avp a l) = Fits cmd a × FitsAll cmd l

pub length-avp_hdr :
    (code : ℕ) (i : AvpInfo) (len : ℕ) → length (avp_hdr code i len) ≡ hdr_len i.flag
unfolding be3 be4
length-avp_hdr code i len = by_vendor (is_vendor i.flag)
  where
    by_vendor :
        (t : Bool)
        → length (be4 code ++ ((i.flag ∷ be3 len) ++ (if t then be4 i.vendor_id else [])))
          ≡ (if t then 12 else 8)
    by_vendor true = refl
    by_vendor false = refl

hdr_len_mod : (flag : ℕ) → hdr_len flag % 4 ≡ 0
hdr_len_mod flag = ground arith

pad_mod : (n : ℕ) → (n + pad_len n) % 4 ≡ 0
pad_mod n = ground arith

pub length-framed :
    (code : ℕ) (i : AvpInfo) (body : List ℕ)
    → length (framed code i body) ≡ hdr_len i.flag + (length body + pad_len (length body))
length-framed code i body = omega (
  arith,
  length-append (avp_hdr code i (hdr_len i.flag + length body))
      (body ++ replicate (pad_len (length body)) 0),
  length-append body (replicate (pad_len (length body)) 0),
  length-replicate {A = ℕ} (pad_len (length body)) 0,
  length-avp_hdr code i (hdr_len i.flag + length body),
)

pub framed-aligned :
    (code : ℕ) (i : AvpInfo) (l : List ℕ)
    → length l % 4 ≡ 0
    → framed code i l ≡ avp_hdr code i (hdr_len i.flag + length l) ++ l
framed-aligned code i l h =
    ap (λ n. avp_hdr code i (hdr_len i.flag + length l) ++ (l ++ replicate n 0)) no_pad
    ∙ ap (λ k. avp_hdr code i (hdr_len i.flag + length l) ++ k) (append-nil l)
  where
    no_pad : pad_len (length l) ≡ 0
    no_pad = if_true _ _ ((==_iff (length l % 4) 0).1 h)

-- AVPs start at multiples of four.
pub wire-aligned : (cmd : ℕ) (a : EncAvp) → length (wire cmd a) % 4 ≡ 0
unfolding wire
wire-aligned cmd (enc_avp code v) =
    let i = get_avp_info cmd code in
    let body = wire_value cmd (shape_of i.data_type) v in
    omega (arith, length-framed code i body, hdr_len_mod i.flag, pad_mod (length body))

pub wire_all-aligned : (cmd : ℕ) (l : EncAvps) → length (wire_all cmd l) % 4 ≡ 0
unfolding wire
wire_all-aligned cmd no_avp = refl
wire_all-aligned cmd (add_avp a l) =
    omega (
      arith,
      length-append (wire cmd a) (wire_all cmd l),
      wire-aligned cmd a,
      wire_all-aligned cmd l,
    )
