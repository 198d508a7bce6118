-- ===== src/Wire/Tests.antt =====
-- The codec on concrete messages, and its theorems at concrete inputs.
use diameter.Common.{◌+◌, ◌%◌, ◌≡◌, refl, arith, true, some, length, ◌>>=◌}
use diameter.Dict.Rows.{find_row}
use diameter.Dict.Base.{base_rows_1, base_rows_2}
use diameter.Dict.Info.{get_avp_info, base_get_avp_info}
use diameter.Wire.Words.{be3, be4, word4, htobe32}
use diameter.Wire.Buf.{MBuf}
use diameter.Wire.Header.{word_at, hdr_ids}
use diameter.Wire.Flags.{
  update_cmd_flag_r, update_cmd_flag_p, update_cmd_flag_e, update_cmd_flag_t, update_cmd_flag,
  with_bit, with_flag, hdr_of, updates-hdr_of,
}
use diameter.Wire.Encode.{encode_avp}
use diameter.Wire.Shape.{nothing, wire, wire_all, Fits, FitsAll}
use diameter.Wire.Written.{Encodes, encode_avp-wire}
use diameter.Wire.Decode.{done, out_of_fuel, decode_rest, decode_msg}
use diameter.Wire.Decoded.{read_shape_of, decoded_all}
use diameter.Wire.Message.{MsgOut, encode_msg}
use diameter.Wire.MessageWritten.{list_of}
use diameter.Wire.MessageTrip.{received, decode_msg-encode_msg}
use diameter.Wire.Endless.{zero_length_spins}
use diameter.Wire.Demo.{
  ops, ops-BufLaws, clock, blank, given_ids, vsai, vsai_members, answer, stuck,
}

vsai_len : length (wire 272 vsai) ≡ 32
unfolding wire be3 be4 get_avp_info base_get_avp_info find_row base_rows_1 base_rows_2
vsai_len = refl

answer_len : length (wire_all 272 answer) ≡ 60
unfolding wire be3 be4 get_avp_info base_get_avp_info find_row base_rows_1 base_rows_2
answer_len = refl

members_len : length (wire_all 272 vsai_members) ≡ 24
unfolding wire be3 be4 get_avp_info base_get_avp_info find_row base_rows_1 base_rows_2
members_len = refl

vsai-Fits : Fits 272 vsai
unfolding Fits get_avp_info base_get_avp_info find_row base_rows_1 base_rows_2
vsai-Fits =
    (omega arith, (((omega arith, tt), ((omega arith, tt), tt)), omega (arith, members_len)))

answer-Fits : FitsAll 272 answer
unfolding Fits get_avp_info base_get_avp_info find_row base_rows_1 base_rows_2
answer-Fits = ((omega arith, omega arith), (vsai-Fits, ((omega arith, tt), tt)))

updates-hdr_of_example :
    ((update_cmd_flag_r blank true >>= hdr_of)
      ≡ (hdr_of blank >>= λ h. some (with_flag h (with_bit 0x80 true h.cmd_flag))))
    × ((update_cmd_flag_p blank true >>= hdr_of)
        ≡ (hdr_of blank >>= λ h. some (with_flag h (with_bit 0x40 true h.cmd_flag))))
    × ((update_cmd_flag_e blank true >>= hdr_of)
        ≡ (hdr_of blank >>= λ h. some (with_flag h (with_bit 0x20 true h.cmd_flag))))
    × ((update_cmd_flag_t blank true >>= hdr_of)
        ≡ (hdr_of blank >>= λ h. some (with_flag h (with_bit 0x10 true h.cmd_flag))))
    × ((update_cmd_flag blank 0x80 >>= hdr_of) ≡ (hdr_of blank >>= λ h. some (with_flag h 0x80)))
updates-hdr_of_example = updates-hdr_of blank true 0x80 (omega arith) (omega arith)

encode_avp-wire_example : Encodes (encode_avp ops 272 vsai blank) blank (wire 272 vsai)
encode_avp-wire_example =
    encode_avp-wire ops ops-BufLaws 272 vsai blank vsai-Fits (omega (arith, vsai_len))

decode_msg-encode_msg_example :
    (out : MsgOut) × (c : MBuf) × (encode_msg ops clock 0
        (some blank)
        272
        0
        4
        (list_of answer)
        given_ids
      ≡ some out)
    × (out.msg ≡ some c)
    × (out.hdr_info ≡ hdr_ids clock 0 0 given_ids)
    × (decode_msg ops 80 (received c)
        ≡ done (
            some (record {
              cmd_code = 272;
              cmd_flag = 0;
              len = 20 + length (wire_all 272 answer);
              app_id = 4;
              h2h_id = 17;
              e2e_id = 18;
              avp_list = decoded_all 272 answer;
            })))
decode_msg-encode_msg_example =
    decode_msg-encode_msg ops ops-BufLaws 80 clock 0 272 0 4 given_ids answer blank (omega arith)
      (omega arith) (omega arith) (omega arith) (omega arith) answer-Fits
      (omega (arith, answer_len)) (omega (arith, answer_len)) (omega (arith, answer_len))

stuck_len : word_at stuck.mem 24 % 0x100_0000 ≡ 0
unfolding word4 htobe32
stuck_len = refl

stuck_type : read_shape_of (get_avp_info 272 (word_at stuck.mem 20)).data_type ≡ nothing
unfolding word4 htobe32 get_avp_info base_get_avp_info find_row base_rows_1 base_rows_2
stuck_type = refl

zero_length_spins_example : decode_rest ops 1000 272 stuck ≡ out_of_fuel
zero_length_spins_example =
    zero_length_spins ops 1000 272 stuck refl (omega arith) (omega arith) refl stuck_len stuck_type
