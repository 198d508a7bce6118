-- ===== src/Cmd/WatchdogTrip.antt =====
-- A watchdog answer on its way (diaBase/src/diaBaseDwr.c, common/src/diaMsg.c).
use diameter.Common.{
  ℕ, ◌+◌, ◌≤◌, ◌<◌, ◌≡◌, refl, ap, ◌∙◌, arith, none, some, List, [], ◌>>=◌, length,
}
use diameter.Msg.{
  CmdHdrInfo, MsgDecoded, Avps, cons, avp_data, avp_list_lookup, data_u32, get_result_code,
  result_code_none,
}
use diameter.Dict.Rows.{find_row}
use diameter.Dict.Base.{base_rows_1, base_rows_2}
use diameter.Dict.Info.{get_avp_info, base_get_avp_info}
use diameter.Wire.Buf.{MBuf, BufLaws}
use diameter.Wire.Encode.{EncAvps, enc_avp, num, pl, no_avp, add_avp}
use diameter.Wire.Shape.{wire, wire_all, Fits, FitsAll}
use diameter.Wire.Decode.{done, decode_msg}
use diameter.Wire.Decoded.{decoded}
use diameter.Wire.Message.{MsgOut, encode_msg}
use diameter.Wire.MessageWritten.{list_of}
use diameter.Wire.MessageTrip.{received, decode_msg-encode_msg}
use diameter.Cmd.Parts.{move_rest_opt, move_rest_extra}
use diameter.Cmd.Param.{Env, encode_lists}
use diameter.Cmd.Watchdog.{build_dwa, dwa_encode, dwa_avps}

-- The AVPs of an answer without optional ones.
abbrev pub dwa_list : ℕ → List ℕ → List ℕ → EncAvps
dwa_list result_code host realm =
    add_avp (enc_avp 268 (num result_code))
      (add_avp (enc_avp 264 (pl host)) (add_avp (enc_avp 296 (pl realm)) no_avp))

dwa_list-FitsAll :
    (result_code : ℕ) (host realm : List ℕ)
    → 8 + length host < 0x100_0000
    → 8 + length realm < 0x100_0000
    → FitsAll 280 (dwa_list result_code host realm)
unfolding Fits get_avp_info base_get_avp_info find_row base_rows_1 base_rows_2
dwa_list-FitsAll result_code host realm h r =
    ((omega arith, tt), ((omega arith, h), ((omega arith, r), tt)))

result_code-read :
    (result_code : ℕ) (rest : Avps)
    → result_code < 0x1_0000_0000
    → (elim (avp_list_lookup (cons (decoded 280 (enc_avp 268 (num result_code))) rest) 268) [
      | none ↦ some result_code_none
      | some a ↦ data_u32 (avp_data a)
    ])
      ≡ some result_code
unfolding decoded avp_list_lookup data_u32 get_avp_info base_get_avp_info find_row base_rows_1
    base_rows_2
result_code-read result_code rest h = ap (λ n. some n) (omega arith)

unfoldable pub dwa_bytes : Env → ℕ → List ℕ
unfolding wire
dwa_bytes env result_code = wire_all 280 (dwa_list result_code env.host env.realm)

dwa_avps-list :
    (env : Env) (result_code : ℕ) (ids : CmdHdrInfo) (b : MBuf)
    → env.fresh ≡ some b
    → build_dwa env result_code none none [] (some ids) ≡ (
        encode_msg env.ops env.source env.h2h_id
          (some b)
          280
          0
          0
          (list_of (dwa_list result_code env.host env.realm))
          ids
        >>= λ r. some (some r))
unfolding build_dwa dwa_encode dwa_avps encode_lists move_rest_opt move_rest_extra
dwa_avps-list env result_code ids b e =
    ap
      (λ f.
        encode_msg env.ops env.source env.h2h_id f 280 0 0
          (list_of (dwa_list result_code env.host env.realm)) ids
        >>= λ r. some (some r))
      e

-- A watchdog answer without optional AVPs is read by the other side as an answer with the ids that were
-- given and with the result code that was given. The result code and the ids have 32 bits, the
-- message fits the allocation and the 24 bits of its length, the configured names theirs, and there
-- is fuel for as many AVPs as there are bytes.
pub build_dwa-result_code :
    (env : Env) (laws : BufLaws env.ops) (n result_code : ℕ) (ids : CmdHdrInfo) (b : MBuf)
    → env.fresh ≡ some b
    → result_code < 0x1_0000_0000
    → ids.h2h_id < 0x1_0000_0000
    → ids.e2e_id < 0x1_0000_0000
    → 8 + length env.host < 0x100_0000
    → 8 + length env.realm < 0x100_0000
    → 20 + length (dwa_bytes env result_code) ≤ b.size
    → 20 + length (dwa_bytes env result_code) < 0x100_0000
    → 20 + length (dwa_bytes env result_code) ≤ n
    → (out : MsgOut) × (c : MBuf) × (m : MsgDecoded) × (build_dwa env result_code none none []
          (some ids)
        ≡ some (some out))
      × (out.msg ≡ some c)
      × (decode_msg env.ops n (received c) ≡ done (some m))
      × (m.cmd_code ≡ 280)
      × (m.cmd_flag ≡ 0)
      × (m.h2h_id ≡ ids.h2h_id)
      × (m.e2e_id ≡ ids.e2e_id)
      × (get_result_code m ≡ some result_code)
unfolding get_result_code decoded dwa_bytes
build_dwa-result_code env laws n result_code ids b fresh hr hh he host realm room short fuel =
    let w =
      decode_msg-encode_msg env.ops laws n env.source env.h2h_id 280 0 0 ids
        (dwa_list result_code env.host env.realm) b (omega arith) (omega arith) (omega arith) hh he
        (dwa_list-FitsAll result_code env.host env.realm host realm) room short fuel in
    (
      w.0,
      w.1,
      _,
      dwa_avps-list env result_code ids b fresh ∙ ap (λ r. r >>= λ x. some (some x)) (w.2),
      w.3,
      w.5,
      refl,
      refl,
      refl,
      refl,
      result_code-read result_code _ hr,
    )
