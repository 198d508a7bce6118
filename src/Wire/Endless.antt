-- ===== src/Wire/Endless.antt =====
-- An AVP with the length zero (common/src/diaAvp.c, common/src/diaMsg.c).
use diameter.Common.{
  ℕ, zero, suc, ◌+◌, ◌%◌, ◌<◌, ◌≤◌, ◌≡◌, refl, ap, ◌∙◌, arith, false, if◌then◌else◌, if_false,
}
use diameter.Msg.{OsStatus, status_ok, Avp, AvpData, avp, unset}
use diameter.Dict.Info.{get_avp_info}
use diameter.Wire.Buf.{MBuf, BufOps}
use diameter.Wire.Header.{at, word_at}
use diameter.Wire.Encode.{is_vendor, hdr_len}
use diameter.Wire.Shape.{nothing, pad_len}
use diameter.Wire.Decode.{
  Run, out_of_fuel, done, ◌>>>◌, AvpHdr, read_avp_hdr, read_value, decode_avp, decode_group,
  decode_rest, or_drop, add_first,
}
use diameter.Wire.Held.{within-done}
use diameter.Wire.Decoded.{read_shape_of, read_by, read_value-shape, decode_avp-aligned}

module _ (o : BufOps) where
  stays :
      (n cmd : ℕ) (b : MBuf)
      → b.pos % 4 ≡ 0
      → b.pos + 8 ≤ b.size
      → is_vendor (b.mem (b.pos + 4)) ≡ false
      → word_at b.mem (b.pos + 4) % 0x100_0000 ≡ 0
      → read_shape_of (get_avp_info cmd (word_at b.mem b.pos)).data_type ≡ nothing
      → (a : Avp) × (decode_avp o (suc n) cmd b ≡ done (status_ok, a, b))
  unfolding read_avp_hdr read_by
  stays n cmd b al room plain len type = (
    a,
    decode_avp-aligned o n cmd b al
        ∙ ap (λ r. r >>> after)
            (ap (λ r. r >>> λ _. done hdr) (within-done b (b.pos + hdr_len hdr.flag) fits))
        ∙ ap (λ r. r >>> ended)
            (read_value-shape o (decode_group o n cmd) (get_avp_info cmd hdr.code).data_type hdr b
                (b.pos + hdr_len hdr.flag)
              ∙ ap (λ s. read_by o (decode_group o n cmd) s hdr b (b.pos + hdr_len hdr.flag)) type)
        ∙ ap (λ k. done (status_ok, a, at (b.pos + k + pad_len k) b)) len
        ∙ ap (λ q. done (status_ok, a, at q b)) (omega arith),
  )
    where
      hdr : AvpHdr
      hdr = record {
        code = word_at b.mem b.pos;
        flag = b.mem (b.pos + 4);
        len = word_at b.mem (b.pos + 4) % 0x100_0000;
        vendor_id =
            if is_vendor (b.mem (b.pos + 4)) then word_at b.mem (b.pos + 8) else 0xffff_ffff;
      }

      a : Avp
      a = avp hdr.code hdr.flag hdr.vendor_id (get_avp_info cmd hdr.code).data_type unset

      fits : b.pos + hdr_len hdr.flag ≤ b.size
      fits = omega (arith, if_false {A = ℕ} 12 8 plain)

      ended : AvpData → Run (OsStatus × Avp × MBuf)
      ended v = done (
        status_ok,
        avp hdr.code hdr.flag hdr.vendor_id (get_avp_info cmd hdr.code).data_type v,
        at (b.pos + hdr.len + pad_len hdr.len) b,
      )

      after : AvpHdr → Run (OsStatus × Avp × MBuf)
      after h =
          read_value o (decode_group o n cmd) (get_avp_info cmd h.code).data_type h b
            (b.pos + hdr_len h.flag)
          >>> λ v. done (
            status_ok,
            avp h.code h.flag h.vendor_id (get_avp_info cmd h.code).data_type v,
            at (b.pos + h.len + pad_len h.len) b,
          )

  -- The loop over the AVPs of a message never ends, whatever the fuel, once it meets, inside the content
  -- and the allocation and at a multiple of four, an AVP with the length zero, without the V flag,
  -- whose type the decoder does not read (an ENUM, or a code that the dictionary does not know).
  pub zero_length_spins :
      (n cmd : ℕ) (b : MBuf)
      → b.pos % 4 ≡ 0
      → b.pos < b.end
      → b.pos + 8 ≤ b.size
      → is_vendor (b.mem (b.pos + 4)) ≡ false
      → word_at b.mem (b.pos + 4) % 0x100_0000 ≡ 0
      → read_shape_of (get_avp_info cmd (word_at b.mem b.pos)).data_type ≡ nothing
      → decode_rest o n cmd b ≡ out_of_fuel
  unfolding decode_rest
  zero_length_spins zero cmd b al lt room plain len type = refl
  zero_length_spins (suc zero) cmd b al lt room plain len type = ground arith
  zero_length_spins (suc (suc n)) cmd b al lt room plain len type =
      let s = stays n cmd b al room plain len type in
      step
      ∙ ap (λ r. r >>> or_drop (decode_rest o (suc n) cmd)) (s.1)
      ∙ ap (λ r. r >>> add_first (s.0)) (zero_length_spins (suc n) cmd b al lt room plain len type)
    where
      step :
          decode_rest o (suc (suc n)) cmd b
          ≡ (decode_avp o (suc n) cmd b >>> or_drop (decode_rest o (suc n) cmd))
      step = ground arith
