-- ===== src/Mgr/SentTests.antt =====
-- A Location-Info-Request and its answer on concrete parameters.
use diameter.Common.{◌≡◌, refl, arith, true, none, some, [], ◌∷◌}
use diameter.Msg.{status_ok, MsgDecoded, avp, str, nil, cons, octet_string_type, get_sess_id}
use diameter.Conn.Types.{tcp_ok}
use diameter.Wire.Buf.{MBuf}
use diameter.Wire.Decode.{done, decode_msg}
use diameter.Wire.Decoded.{decoded_all}
use diameter.Wire.Message.{MsgOut}
use diameter.Wire.MessageTrip.{received}
use diameter.Wire.Demo.{ops, ops-BufLaws, blank}
use diameter.Cmd.Lists.{first_ops-ListLaws}
use diameter.Cmd.Demo.{
  cx, public_id, peer_host, peer_realm, feature, request, lir_len, request-Fits,
}
use diameter.Cmd.Cx.Lir.{build_lir}
use diameter.Mgr.Table.{list_ops, list_ops-TableLaws}
use diameter.Mgr.Pending.{Mgr, call, on_decoded}
use diameter.Mgr.Senders.{ActiveDcb, Call, send_lir, no_ids}
use diameter.Mgr.Steps.{no_requests}
use diameter.Mgr.Sent.{lir_input, send_lir-answered}

abbrev active_dcb : ActiveDcb
active_dcb = record { id = 5; peer_host = peer_host; peer_realm = peer_realm }

abbrev location : Call
location = record {
  cx = cx;
  active = some active_dcb;
  next_active = none;
  transport_send = λ c. tcp_ok;
  callback = some 7;
  app_data = 100;
  elem_id = 10;
  timer_id = 20;
}

-- An answer with the session id that the printer makes of the host and the counter.
abbrev lia : MsgDecoded
lia = record {
  cmd_code = 302;
  cmd_flag = 0x40;
  len = 0;
  app_id = 16777216;
  h2h_id = 1;
  e2e_id = 1;
  avp_list = cons (avp 263 0x40 0 octet_string_type (str (104 ∷ 49 ∷ 59 ∷ 8 ∷ []))) nil;
}

send_lir-answered_example :
    (s' : Mgr) × (out : MsgOut) × (buf : MBuf) × (seen : MsgDecoded) × (build_lir cx
        (some public_id)
        (some peer_host)
        (some peer_realm)
        (some (feature ∷ []))
        2
        []
        (some no_ids)
      ≡ some (some out))
    × (out.msg ≡ some buf)
    × (send_lir location (some (lir_input public_id 2 3)) no_requests ≡ some (status_ok, s'))
    × (decode_msg ops 300 (received buf) ≡ done (some seen))
    × (seen.avp_list ≡ decoded_all 302 request)
    × (get_sess_id seen ≡ get_sess_id lia)
    × (on_decoded list_ops (some 9) lia s' ≡ (
      true,
      record { nodes = []; timers = []; notes = call (some 7) (some lia) (some 100) [] },
    ))
unfolding get_sess_id
send_lir-answered_example =
    send_lir-answered location public_id 2 3 active_dcb first_ops-ListLaws ops-BufLaws list_ops
      list_ops-TableLaws 300 blank (some 9) lia no_requests refl refl refl refl (omega arith)
      request-Fits (omega (arith, lir_len)) (omega (arith, lir_len)) (omega (arith, lir_len)) refl
      refl refl
