-- ===== src/Cmd/MarTests.antt =====
-- A Multimedia-Auth-Request at its receiver, on concrete values (diaCx/src/diaCxMar.c).
use diameter.Common.{◌≡◌, refl, arith, none, some, [], ◌∷◌, length}
use diameter.Dict.Rows.{find_row}
use diameter.Dict.Base.{base_rows_1, base_rows_2}
use diameter.Dict.Cx.{cx_rows_1, cx_rows_2, cx_reused_rows}
use diameter.Dict.Info.{get_avp_info, base_get_avp_info, cx_get_avp_info, cx_get_reused_avp_info}
use diameter.Wire.Words.{be3, be4}
use diameter.Wire.Buf.{MBuf}
use diameter.Wire.Shape.{wire, wire_all, Fits, FitsAll}
use diameter.Wire.Encode.{no_avp}
use diameter.Wire.Decode.{done, decode_msg}
use diameter.Wire.Message.{MsgOut}
use diameter.Wire.MessageTrip.{received}
use diameter.Wire.Demo.{ops, ops-BufLaws, blank, given_ids}
use diameter.Cmd.Lists.{first_ops-ListLaws}
use diameter.Cmd.Trip.{Sendable, msg_of}
use diameter.Cmd.Cx.{app_id_cx}
use diameter.Cmd.Cx.Mar.{text_avp, aka_text, auth_members, req_members, build_mar}
use diameter.Cmd.Cx.MarTrip.{MarAsked, mar_list, build_mar-decoded}
use diameter.Cmd.Demo.{env, cx, public_id, peer_realm, auth_data}

abbrev mar_in : MarAsked
mar_in = record {
  user_name = 117 ∷ [];
  pub_id = public_id;
  auth_data = auth_data;
  auth_avps = text_avp 608 aka_text (text_avp 610 (9 ∷ []) no_avp);
  server_name = 115 ∷ [];
  host = none;
  realm = some peer_realm;
  feature = none;
}

mar_len : length (wire_all 303 (mar_list cx mar_in)) ≡ 216
unfolding wire be3 be4 get_avp_info base_get_avp_info cx_get_avp_info cx_get_reused_avp_info
    find_row base_rows_1 base_rows_2 cx_rows_1 cx_rows_2 cx_reused_rows
mar_len = refl

mar_members : auth_members mar_in.auth_data ≡ some (some mar_in.auth_avps)
unfolding auth_members req_members
mar_members = refl

mar-Fits : FitsAll 303 (mar_list cx mar_in)
unfolding Fits wire be3 be4 get_avp_info base_get_avp_info cx_get_avp_info cx_get_reused_avp_info
    find_row base_rows_1 base_rows_2 cx_rows_1 cx_rows_2 cx_reused_rows
mar-Fits = (
  (omega arith, omega arith),
  (
    (omega arith, (((omega arith, tt), ((omega arith, tt), tt)), omega arith)),
    (
      (omega arith, tt),
      (
        (omega arith, omega arith),
        (
          (omega arith, omega arith),
          (
            (omega arith, omega arith),
            (
              (omega arith, omega arith),
              (
                (omega arith, omega arith),
                (
                  (
                    omega arith,
                    (((omega arith, omega arith), ((omega arith, omega arith), tt)), omega arith),
                  ),
                  (
                    (omega arith, tt),
                    ((omega arith, omega arith), ((omega arith, omega arith), tt)),
                  ),
                ),
              ),
            ),
          ),
        ),
      ),
    ),
  ),
)

mar-Sendable : Sendable env 303 (mar_list cx mar_in) given_ids blank
mar-Sendable = record {
  fresh = refl;
  fits = mar-Fits;
  h2h_small = omega arith;
  e2e_small = omega arith;
  room = omega (arith, mar_len);
  short = omega (arith, mar_len);
}

build_mar-decoded_example :
    (out : MsgOut) × (c : MBuf) × (build_mar cx
        (some (117 ∷ []))
        (some public_id)
        (some auth_data)
        (some (115 ∷ []))
        none
        (some peer_realm)
        none
        []
        (some given_ids)
      ≡ some (some out))
    × (out.msg ≡ some c)
    × (decode_msg ops 500 (received c)
        ≡ done (some (msg_of 303 0xC0 app_id_cx (mar_list cx mar_in) out.hdr_info)))
build_mar-decoded_example =
    build_mar-decoded cx first_ops-ListLaws ops-BufLaws 500 mar_in given_ids blank (omega arith)
      mar_members mar-Sendable (omega (arith, mar_len))
