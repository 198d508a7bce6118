-- ===== src/Wire/Encode.antt =====
-- `diaAvp_encode` and the encoders that it calls (common/src/diaAvp.c), on a buffer that is not null.
-- `none` is undefined behaviour: the union read as a pointer that it does not hold, or as the number
-- of a pointer.
use diameter.Common.{
  ℕ, zero, ◌+◌, ◌-◌, ◌*◌, ◌%◌, Bool, not, Option, none, some, ◌==◌, if◌then◌else◌, bit_or, bit_and,
  length, List, ◌>>=◌,
}
use diameter.Msg.{
  OsStatus, status_ok, null_pointer, invalid_value, DataType, enum_type, int32_type, int64_type,
  uint32_type, uint64_type, octet_string_type, utf8_string_type, ip_filter_type, time_type,
  diam_iden_type, grouped_type,
}
use diameter.Dict.Info.{AvpInfo, get_avp_info}
use diameter.Wire.Words.{u32, htobe64}
use diameter.Wire.Buf.{MBuf, BufOps}
use diameter.Wire.Header.{at, flag_word, write_be32}

-- `diaEncodeAvp_t` inside a group, where nothing reads `avpEncodeFunc`, and `diaEncodeAvpData_u`: the
-- bits of a number, of which zero is the null pointer, a string, or the array of a group.
mutual
  pub data EncAvp : Type 0 where
    enc_avp : (code : ℕ) → EncData → EncAvp

  pub data EncData : Type 0 where
    num : ℕ → EncData
    pl : List ℕ → EncData
    grouped : EncAvps → EncData

  pub data EncAvps : Type 0 where
    no_avp : EncAvps
    add_avp : EncAvp → EncAvps → EncAvps

-- Whether the vendor id is written.
abbrev pub is_vendor : ℕ → Bool
is_vendor flag = not (bit_and flag 0x80 == 0)

abbrev pub hdr_len : ℕ → ℕ
hdr_len flag = if is_vendor flag then 12 else 8

-- The code, the word of the flags and the length, the optional vendor id.
unfoldable pub write_avp_hdr : BufOps → ℕ → ℕ → AvpInfo → MBuf → MBuf
write_avp_hdr o code word i b =
    if is_vendor i.flag
    then write_be32 o i.vendor_id (write_be32 o word (write_be32 o code b))
    else write_be32 o word (write_be32 o code b)

-- The length is not cut to its 24 bits here.
unfoldable pub encode_str : BufOps → ℕ → AvpInfo → List ℕ → MBuf → MBuf
unfolding write_avp_hdr
encode_str o code i str b =
    let c =
      o.write_pl
        (write_avp_hdr o code (u32 (bit_or (i.flag * 0x100_0000) (hdr_len i.flag + length str))) i
          b)
        str in
    if length str % 4 == 0 then c else o.set_zero c (4 - length str % 4)

unfoldable pub encode_int32 : BufOps → ℕ → AvpInfo → ℕ → MBuf → MBuf
unfolding write_avp_hdr
encode_int32 o code i v b =
    write_be32 o v (write_avp_hdr o code (flag_word i.flag (hdr_len i.flag + 4)) i b)

unfoldable pub encode_int64 : BufOps → ℕ → AvpInfo → ℕ → MBuf → MBuf
unfolding write_avp_hdr
encode_int64 o code i v b =
    o.write_u64 (write_avp_hdr o code (flag_word i.flag (hdr_len i.flag + 8)) i b) (htobe64 v)

-- The header of a group, once the position has passed over its members.
unfoldable pub close_group : BufOps → ℕ → AvpInfo → ℕ → MBuf → MBuf
unfolding write_avp_hdr
close_group o code i start c =
    at c.pos (write_avp_hdr o code (flag_word i.flag (u32 (c.pos - start))) i (at start c))

-- What the union is taken for by the type.
abbrev pub as_num : EncData → Option ℕ
as_num (num n) = some n
as_num _ = none

abbrev pub encode_pl : BufOps → ℕ → AvpInfo → EncData → MBuf → Option (OsStatus × MBuf)
unfolding encode_str
encode_pl o code i (pl str) b = some (status_ok, encode_str o code i str b)
encode_pl o code i (num zero) b = some (null_pointer, b)
encode_pl o code i _ b = none

-- The switch over the type; `group` is what `diaAvp_encodeGrouped` gives.
unfoldable pub encode_as :
    BufOps
    → ℕ
    → AvpInfo
    → DataType
    → EncData
    → Option (OsStatus × MBuf)
    → MBuf
    → Option (OsStatus × MBuf)
unfolding encode_int32 encode_int64 encode_str
encode_as o code i enum_type value group b =
    as_num value >>= λ v. some (status_ok, encode_int32 o code i (u32 v) b)
encode_as o code i int32_type value group b =
    as_num value >>= λ v. some (status_ok, encode_int32 o code i (u32 v) b)
encode_as o code i uint32_type value group b =
    as_num value >>= λ v. some (status_ok, encode_int32 o code i (u32 v) b)
encode_as o code i int64_type value group b =
    as_num value >>= λ v. some (status_ok, encode_int64 o code i v b)
encode_as o code i uint64_type value group b =
    as_num value >>= λ v. some (status_ok, encode_int64 o code i v b)
encode_as o code i octet_string_type value group b = encode_pl o code i value b
encode_as o code i utf8_string_type value group b = encode_pl o code i value b
encode_as o code i ip_filter_type value group b = encode_pl o code i value b
encode_as o code i time_type value group b = encode_pl o code i value b
encode_as o code i diam_iden_type value group b = encode_pl o code i value b
encode_as o code i grouped_type value group b = group
encode_as o code i _ value group b = some (invalid_value, b)

unfoldable mutual
  unfolding get_avp_info close_group encode_as

  -- `diaAvp_encode`.
  pub encode_avp : BufOps → ℕ → EncAvp → MBuf → Option (OsStatus × MBuf)
  encode_avp o cmd (enc_avp code value) b =
      let i = get_avp_info cmd code in
      encode_as o code i i.data_type value (encode_grouped o cmd code i value b) b

  -- `diaAvp_encodeGrouped`: the members after the room of the header, then the header, whatever the
  -- members gave.
  pub encode_grouped : BufOps → ℕ → ℕ → AvpInfo → EncData → MBuf → Option (OsStatus × MBuf)
  encode_grouped o cmd code i (grouped l) b =
      encode_members o cmd l status_ok (at (b.pos + hdr_len i.flag) b) >>= λ r.
      some (r.0, close_group o code i b.pos (r.1))
  encode_grouped o cmd code i (num zero) b = some (null_pointer, b)
  encode_grouped o cmd code i _ b = none

  -- Its loop: the status is that of the last member.
  pub encode_members : BufOps → ℕ → EncAvps → OsStatus → MBuf → Option (OsStatus × MBuf)
  encode_members o cmd no_avp last b = some (last, b)
  encode_members o cmd (add_avp a l) last b =
      encode_avp o cmd a b >>= λ r. encode_members o cmd l (r.0) (r.1)
