-- ===== src/Wire/Decode.antt =====
-- `diaAvp_decode` and `diaAvp_decodeGroup` (common/src/diaAvp.c), `diaMsg_decode`
-- (common/src/diaMsg.c), on a buffer that is not null. The fuel counts AVPs read one after another or
-- one inside another. The second call of `diaAvp_decodeGroup` for a group inside a group is left out: the
-- first has taken the position to the end, or has refused it, so the second appends nothing.
use diameter.Common.{
  ℕ, zero, suc, ◌+◌, ◌-◌, ◌*◌, ◌%◌, ◌^◌, true, false, Option, none, some, ◌==◌, ltb, leb,
  if◌then◌else◌, List, [], ◌∷◌,
}
use diameter.Msg.{
  OsStatus, status_ok, invalid_value, DataType, unknown_type, int32_type, int64_type, uint32_type,
  uint64_type, octet_string_type, utf8_string_type, ip_filter_type, time_type, diam_iden_type,
  grouped_type, Avp, AvpData, Avps, avp, unset, num32, num64, str, group, nil, cons, MsgDecoded,
}
use diameter.Dict.Info.{get_avp_info}
use diameter.Wire.Words.{htobe64, word4}
use diameter.Wire.Buf.{MBuf, BufOps}
use diameter.Wire.Header.{at, word_at, MsgHdr, decode_hdr}
use diameter.Wire.Encode.{is_vendor, hdr_len}
use diameter.Wire.Shape.{pad_len}

-- A run that goes on after the fuel, one that reads outside the allocation, and one that returns.
pub data Run {ℓ} (A : Type ℓ) : Type ℓ where
  out_of_fuel undefined : Run A
  done : A → Run A

infixl 5 ◌>>>◌
abbrev pub ◌>>>◌ {ℓ κ} : {A : Type ℓ} {B : Type κ} → Run A → (A → Run B) → Run B
out_of_fuel >>> f = out_of_fuel
undefined >>> f = undefined
done a >>> f = f a

abbrev pub within : MBuf → ℕ → Run (Unit {0})
within b p = if leb p b.size then done tt else undefined

-- The header of an AVP, and where its value starts.
pub record AvpHdr : Type 0 where
  pub code : ℕ
  pub flag : ℕ
  pub len : ℕ
  pub vendor_id : ℕ

unfoldable pub read_avp_hdr : MBuf → Run AvpHdr
read_avp_hdr b = within b (b.pos + hdr_len (b.mem (b.pos + 4))) >>> λ _. done (record {
  code = word_at b.mem b.pos;
  flag = b.mem (b.pos + 4);
  len = word_at b.mem (b.pos + 4) % 0x100_0000;
  vendor_id = if is_vendor (b.mem (b.pos + 4)) then word_at b.mem (b.pos + 8) else 0xffff_ffff;
})

unfoldable pub read_bytes : (ℕ → ℕ) → ℕ → ℕ → List ℕ
read_bytes m p zero = []
read_bytes m p (suc n) = m p ∷ read_bytes m (suc p) n

-- `avpLen` less the header, as a `size_t`.
abbrev pub value_len : AvpHdr → ℕ
value_len h = (h.len + 2 ^ 64 - hdr_len h.flag) % 2 ^ 64

-- `osVPL_set` refers to the bytes in the buffer; a string outside the allocation has no value.
abbrev pub read_pl : AvpHdr → MBuf → ℕ → Run AvpData
read_pl h b p = within b (p + value_len h) >>> λ _. done (str (read_bytes b.mem p (value_len h)))

abbrev pub read_32 : MBuf → ℕ → Run AvpData
read_32 b p = within b (p + 4) >>> λ _. done (num32 (word_at b.mem p))

-- `*(uint64_t*)&buf[p]` on the host.
abbrev pub host_64 : (ℕ → ℕ) → ℕ → ℕ
host_64 m p =
    word4 (m p) (m (p + 1)) (m (p + 2)) (m (p + 3))
    + word4 (m (p + 4)) (m (p + 4 + 1)) (m (p + 4 + 2)) (m (p + 4 + 3)) * 0x1_0000_0000

abbrev pub read_64 : MBuf → ℕ → Run AvpData
read_64 b p = within b (p + 8) >>> λ _. done (num64 (htobe64 (host_64 b.mem p)))

-- The switch over the type, with the value at `p`; `decode_raw` decodes the raw data of a group.
unfoldable pub read_value : BufOps → (MBuf → Run Avps) → DataType → AvpHdr → MBuf → ℕ → Run AvpData
read_value o decode_raw octet_string_type h b p = read_pl h b p
read_value o decode_raw utf8_string_type h b p = read_pl h b p
read_value o decode_raw ip_filter_type h b p = read_pl h b p
read_value o decode_raw time_type h b p = read_pl h b p
read_value o decode_raw diam_iden_type h b p = read_pl h b p
read_value o decode_raw int32_type h b p = read_32 b p
read_value o decode_raw uint32_type h b p = read_32 b p
read_value o decode_raw int64_type h b p = read_64 b p
read_value o decode_raw uint64_type h b p = read_64 b p
read_value o decode_raw grouped_type h b p =
    decode_raw (o.alloc_ref2 b p (value_len h)) >>> λ l. done (group l)
read_value o decode_raw _ h b p = done unset

-- The zeroed memory of an AVP.
abbrev pub zeroed : Avp
zeroed = avp 0 0 0 unknown_type unset

unfoldable mutual
  unfolding get_avp_info read_avp_hdr read_value

  pub decode_avp : BufOps → ℕ → ℕ → MBuf → Run (OsStatus × Avp × MBuf)
  decode_avp o zero cmd b = out_of_fuel
  decode_avp o (suc n) cmd b = elim (b.pos % 4 == 0) [
    | false ↦ done (invalid_value, zeroed, b)
    | true ↦ read_avp_hdr b >>> λ h.
        read_value o (decode_group o n cmd) (get_avp_info cmd h.code).data_type h b
          (b.pos + hdr_len h.flag)
        >>> λ v. done (
          status_ok,
          avp h.code h.flag h.vendor_id (get_avp_info cmd h.code).data_type v,
          at (b.pos + h.len + pad_len h.len) b,
        )
  ]

  pub decode_group : BufOps → ℕ → ℕ → MBuf → Run Avps
  decode_group o zero cmd b = out_of_fuel
  decode_group o (suc n) cmd b = elim (b.pos % 4 == 0) [
    | false ↦ done nil
    | true ↦ decode_members o n cmd b
  ]

  -- Its loop: the status of a member changes nothing.
  pub decode_members : BufOps → ℕ → ℕ → MBuf → Run Avps
  decode_members o zero cmd b = out_of_fuel
  decode_members o (suc n) cmd b = elim (ltb b.pos b.end) [
    | false ↦ done nil
    | true ↦ decode_avp o n cmd b >>> λ r. decode_members o n cmd (r.2) >>> λ l. done (cons (r.1) l)
  ]

abbrev pub add_first : Avp → Option Avps → Run (Option Avps)
add_first a none = done none
add_first a (some l) = done (some (cons a l))

-- An AVP that fails ends the message.
abbrev pub or_drop : (MBuf → Run (Option Avps)) → OsStatus × Avp × MBuf → Run (Option Avps)
or_drop rest (status_ok, a, c) = rest c >>> add_first a
or_drop rest (_, a, c) = done none

-- The loop of `diaMsg_decode`.
unfoldable pub decode_rest : BufOps → ℕ → ℕ → MBuf → Run (Option Avps)
unfolding decode_avp
decode_rest o zero cmd b = out_of_fuel
decode_rest o (suc n) cmd b = elim (ltb b.pos b.end) [
  | false ↦ done (some nil)
  | true ↦ decode_avp o n cmd b >>> or_drop (decode_rest o n cmd)
]

abbrev pub with_list : MsgHdr → Option Avps → Run (Option MsgDecoded)
with_list h none = done none
with_list h (some l) = done (
    some (record {
      cmd_code = h.cmd_code;
      cmd_flag = h.cmd_flag;
      len = h.len;
      app_id = h.app_id;
      h2h_id = h.h2h_id;
      e2e_id = h.e2e_id;
      avp_list = l;
    }))

abbrev pub decode_body : BufOps → ℕ → Option (MsgHdr × MBuf) → Run (Option MsgDecoded)
unfolding decode_rest
decode_body o n none = undefined
decode_body o n (some (h, b)) = decode_rest o n h.cmd_code b >>> with_list h

-- `none` is the null pointer, for a message that is dropped.
unfoldable pub decode_msg : BufOps → ℕ → MBuf → Run (Option MsgDecoded)
unfolding decode_hdr decode_rest
decode_msg o n b = decode_body o n (decode_hdr (at 0 b))
