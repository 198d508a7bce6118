-- ===== src/Cmd/CxTests.antt =====
-- The Cx messages on concrete parameters, and their theorems at concrete inputs.
use diameter.Common.{◌+◌, ◌≡◌, refl, arith, some, [], ◌∷◌, length}
use diameter.Wire.Buf.{MBuf}
use diameter.Wire.Encode.{enc_avp, num, grouped, no_avp, add_avp}
use diameter.Wire.Shape.{wire_all}
use diameter.Wire.Decode.{done, decode_msg}
use diameter.Wire.Decoded.{decoded_all}
use diameter.Wire.Message.{plain, MsgOut}
use diameter.Wire.MessageTrip.{received}
use diameter.Wire.Demo.{ops, ops-BufLaws, blank, given_ids}
use diameter.Cmd.Lists.{first_ops-ListLaws}
use diameter.Cmd.Cx.Lir.{build_lir}
use diameter.Cmd.Cx.Uaa.{server_cap_avp}
use diameter.Cmd.Cx.LirTrip.{build_lir-decoded}
use diameter.Cmd.Cx.ServerCaps.{server_cap_avp-mandatory}
use diameter.Cmd.Demo.{
  request, lir_len, request-Fits, cx, public_id, peer_host, peer_realm, feature, server_cap,
}

build_lir-decoded_example :
    (out : MsgOut) × (c : MBuf) × (build_lir cx
        (some public_id)
        (some peer_host)
        (some peer_realm)
        (some (feature ∷ []))
        2
        []
        (some given_ids)
      ≡ some (some out))
    × (out.msg ≡ some c)
    × (decode_msg ops 300 (received c)
        ≡ done (
            some (record {
              cmd_code = 302;
              cmd_flag = 0xC0;
              len = 20 + length (wire_all 302 request);
              app_id = 16777216;
              h2h_id = out.hdr_info.h2h_id;
              e2e_id = out.hdr_info.e2e_id;
              avp_list = decoded_all 302 request;
            })))
build_lir-decoded_example =
    build_lir-decoded cx first_ops-ListLaws ops-BufLaws 300 2 public_id peer_host peer_realm feature
      given_ids blank refl (omega arith) request-Fits (omega arith) (omega arith)
      (omega (arith, lir_len)) (omega (arith, lir_len)) (omega (arith, lir_len))

server_cap_avp-mandatory_example :
    server_cap_avp server_cap
    ≡ some (
        plain (
          enc_avp 603 (
            grouped (
              add_avp (enc_avp 604 (num 11)) (
                add_avp (enc_avp 604 (num 12)) (
                  add_avp (enc_avp 604 (num 0)) (
                    add_avp (enc_avp 604 (num 0)) (
                      add_avp (enc_avp 604 (num 0)) (
                        add_avp (enc_avp 604 (num 0)) (
                          add_avp (enc_avp 604 (num 0)) (
                            add_avp (enc_avp 604 (num 0)) (
                              add_avp
                                (enc_avp 604 (num 0))
                                (add_avp (enc_avp 604 (num 0)) no_avp)))))))))))))
server_cap_avp-mandatory_example = server_cap_avp-mandatory server_cap refl
