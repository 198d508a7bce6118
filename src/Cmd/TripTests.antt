-- ===== src/Cmd/TripTests.antt =====
-- Requests at their receiver, on concrete values (diaCx/src/diaCxUar.c and diaCxSar.c).
use diameter.Common.{◌≡◌, refl, arith, none, some, [], ◌∷◌, length}
use diameter.Dict.Rows.{find_row}
use diameter.Dict.Base.{base_rows_1, base_rows_2}
use diameter.Dict.Cx.{cx_rows_1, cx_rows_2, cx_reused_rows}
use diameter.Dict.Info.{get_avp_info, base_get_avp_info, cx_get_avp_info, cx_get_reused_avp_info}
use diameter.Wire.Words.{be3, be4}
use diameter.Wire.Buf.{MBuf}
use diameter.Wire.Shape.{wire, wire_all, Fits, FitsAll}
use diameter.Wire.Decode.{done, decode_msg}
use diameter.Wire.Message.{MsgOut}
use diameter.Wire.MessageTrip.{received}
use diameter.Wire.Demo.{ops, ops-BufLaws, blank, given_ids}
use diameter.Cmd.Lists.{first_ops-ListLaws}
use diameter.Cmd.Trip.{Sendable, msg_of}
use diameter.Cmd.Cx.{app_id_cx}
use diameter.Cmd.Cx.Uar.{registration, build_uar}
use diameter.Cmd.Cx.Sar.{build_sar}
use diameter.Cmd.Cx.UarTrip.{UarAsked, uar_list, build_uar-decoded}
use diameter.Cmd.Cx.SarTrip.{SarAsked, sar_list, build_sar-decoded}
use diameter.Cmd.Demo.{env, cx, feature, public_id, peer_host, peer_realm, sar_param}

abbrev uar_in : UarAsked
uar_in = record {
  user_name = 117 ∷ [];
  pub_id = public_id;
  network = 118 ∷ [];
  host = some peer_host;
  realm = peer_realm;
  feature_list = 3;
  auth_type = registration;
}

abbrev sar_in : SarAsked
sar_in = record {
  user_name = some (117 ∷ []);
  pub_id = public_id;
  server_name = 115 ∷ [];
  host = none;
  realm = some peer_realm;
  info = sar_param.sar_info;
  feature = some feature;
}

uar_len : length (wire_all 300 (uar_list cx uar_in)) ≡ 220
unfolding wire be3 be4 get_avp_info base_get_avp_info cx_get_avp_info cx_get_reused_avp_info
    find_row base_rows_1 base_rows_2 cx_rows_1 cx_rows_2 cx_reused_rows
uar_len = refl

sar_len : length (wire_all 301 (sar_list cx sar_in)) ≡ 240
unfolding wire be3 be4 get_avp_info base_get_avp_info cx_get_avp_info cx_get_reused_avp_info
    find_row base_rows_1 base_rows_2 cx_rows_1 cx_rows_2 cx_reused_rows
sar_len = refl

uar-Fits : FitsAll 300 (uar_list cx uar_in)
unfolding Fits wire be3 be4 get_avp_info base_get_avp_info cx_get_avp_info cx_get_reused_avp_info
    find_row base_rows_1 base_rows_2 cx_rows_1 cx_rows_2 cx_reused_rows
uar-Fits = (
  (omega arith, omega arith),
  (
    (omega arith, (((omega arith, tt), ((omega arith, tt), tt)), omega arith)),
    (
      (omega arith, tt),
      (
        (omega arith, omega arith),
        (
          (omega arith, omega arith),
          (
            (omega arith, omega arith),
            (
              (omega arith, omega arith),
              (
                (omega arith, omega arith),
                (
                  (
                    omega arith,
                    (
                      ((omega arith, tt), ((omega arith, tt), ((omega arith, tt), tt))),
                      omega arith,
                    ),
                  ),
                  (
                    (omega arith, omega arith),
                    ((omega arith, omega arith), ((omega arith, tt), tt)),
                  ),
                ),
              ),
            ),
          ),
        ),
      ),
    ),
  ),
)

uar-Sendable : Sendable env 300 (uar_list cx uar_in) given_ids blank
uar-Sendable = record {
  fresh = refl;
  fits = uar-Fits;
  h2h_small = omega arith;
  e2e_small = omega arith;
  room = omega (arith, uar_len);
  short = omega (arith, uar_len);
}

sar-Fits : FitsAll 301 (sar_list cx sar_in)
unfolding Fits wire be3 be4 get_avp_info base_get_avp_info cx_get_avp_info cx_get_reused_avp_info
    find_row base_rows_1 base_rows_2 cx_rows_1 cx_rows_2 cx_reused_rows
sar-Fits = (
  (omega arith, omega arith),
  (
    (omega arith, (((omega arith, tt), ((omega arith, tt), tt)), omega arith)),
    (
      (omega arith, tt),
      (
        (omega arith, omega arith),
        (
          (omega arith, omega arith),
          (
            (omega arith, omega arith),
            (
              (omega arith, omega arith),
              (
                (
                  omega arith,
                  (((omega arith, tt), ((omega arith, tt), ((omega arith, tt), tt))), omega arith),
                ),
                (
                  (omega arith, omega arith),
                  (
                    (omega arith, omega arith),
                    ((omega arith, tt), ((omega arith, tt), ((omega arith, tt), tt))),
                  ),
                ),
              ),
            ),
          ),
        ),
      ),
    ),
  ),
)

sar-Sendable : Sendable env 301 (sar_list cx sar_in) given_ids blank
sar-Sendable = record {
  fresh = refl;
  fits = sar-Fits;
  h2h_small = omega arith;
  e2e_small = omega arith;
  room = omega (arith, sar_len);
  short = omega (arith, sar_len);
}

build_uar-decoded_example :
    (out : MsgOut) × (c : MBuf) × (build_uar cx
        (some (117 ∷ []))
        (some public_id)
        (some (118 ∷ []))
        registration
        (some peer_host)
        (some peer_realm)
        3
        []
        (some given_ids)
      ≡ some (some out))
    × (out.msg ≡ some c)
    × (decode_msg ops 500 (received c)
        ≡ done (some (msg_of 300 0xC0 app_id_cx (uar_list cx uar_in) out.hdr_info)))
build_uar-decoded_example =
    build_uar-decoded cx first_ops-ListLaws ops-BufLaws 500 uar_in given_ids blank (omega arith)
      uar-Sendable (omega (arith, uar_len))

build_sar-decoded_example :
    (out : MsgOut) × (c : MBuf) × (build_sar cx
        (some (117 ∷ []))
        (some public_id)
        (some (115 ∷ []))
        none
        (some peer_realm)
        (some sar_param.sar_info)
        (some (feature ∷ []))
        []
        (some given_ids)
      ≡ some (some out))
    × (out.msg ≡ some c)
    × (decode_msg ops 500 (received c)
        ≡ done (some (msg_of 301 0xC0 app_id_cx (sar_list cx sar_in) out.hdr_info)))
build_sar-decoded_example =
    build_sar-decoded cx first_ops-ListLaws ops-BufLaws 500 sar_in given_ids blank (omega arith)
      sar-Sendable (omega (arith, sar_len))
