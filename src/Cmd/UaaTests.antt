-- ===== src/Cmd/UaaTests.antt =====
-- A User-Authorization-Answer with features, a server and capabilities (diaCx/src/diaCxUar.c) at its receiver.
use diameter.Common.{ℕ, ◌≡◌, refl, arith, true, false, none, some, List, [], ◌∷◌, length}
use diameter.Msg.{MsgDecoded}
use diameter.Dict.Rows.{find_row}
use diameter.Dict.Base.{base_rows_1, base_rows_2}
use diameter.Dict.Cx.{cx_rows_1, cx_rows_2, cx_reused_rows}
use diameter.Dict.Info.{get_avp_info, base_get_avp_info, cx_get_avp_info, cx_get_reused_avp_info}
use diameter.Wire.Words.{be3, be4}
use diameter.Wire.Buf.{MBuf}
use diameter.Wire.Shape.{wire, wire_all, Fits, FitsAll}
use diameter.Wire.Encode.{EncAvps, EncAvp, enc_avp, num, grouped, no_avp, add_avp}
use diameter.Wire.Decode.{done, decode_msg}
use diameter.Wire.Message.{MsgOut}
use diameter.Wire.MessageTrip.{received}
use diameter.Wire.Demo.{ops, ops-BufLaws, blank, given_ids}
use diameter.Cmd.Lists.{first_ops-ListLaws}
use diameter.Cmd.Trip.{Sendable}
use diameter.Cmd.Cx.Uaa.{ResultCode, cap_group, opt_server_cap, server_cap_avp, cap_loop, build_uaa}
use diameter.Cmd.Cx.UserOrder.{opt_group}
use diameter.Cmd.Cx.UaaTrip.{uaa_list}
use diameter.Cmd.Cx.UaaRead.{Read, build_uaa-Read}
use diameter.Cmd.Demo.{env, cx, feature, server_cap}
use diameter.Conn.Routing.{peer_msg}
use diameter.Mgr.Table.{list_ops}
use diameter.Mgr.Pending.{Mgr, mgr_on_msg, call}
use diameter.Mgr.Paired.{made_node}
use diameter.Mgr.Unanswered.{build_uaa-unanswered}

abbrev mandatory : List ℕ → List EncAvp
mandatory [] = []
mandatory (n ∷ l) = enc_avp 604 (num n) ∷ mandatory l

abbrev caps : EncAvps
caps = cap_group (mandatory server_cap.msc)

caps_given : opt_server_cap (some server_cap) ≡ some (opt_group 603 (some caps))
unfolding opt_server_cap server_cap_avp cap_loop
caps_given = refl

abbrev first_registration : ResultCode
first_registration = record { is_result_code = false; code = 2001 }

abbrev answer : EncAvps
answer = uaa_list cx (115 ∷ []) first_registration (some feature) (some (115 ∷ [])) (some caps)

uaa_len : length (wire_all 300 answer) ≡ 344
unfolding wire be3 be4 get_avp_info base_get_avp_info cx_get_avp_info cx_get_reused_avp_info
    find_row base_rows_1 base_rows_2 cx_rows_1 cx_rows_2 cx_reused_rows
uaa_len = refl

caps-Fits : FitsAll 300 (add_avp (enc_avp 603 (grouped caps)) no_avp)
unfolding Fits wire be3 be4 get_avp_info base_get_avp_info cx_get_avp_info cx_get_reused_avp_info
    find_row base_rows_1 base_rows_2 cx_rows_1 cx_rows_2 cx_reused_rows
caps-Fits = (
  (
    omega arith,
    (
      (
        (omega arith, tt),
        (
          (omega arith, tt),
          (
            (omega arith, tt),
            (
              (omega arith, tt),
              (
                (omega arith, tt),
                (
                  (omega arith, tt),
                  (
                    (omega arith, tt),
                    ((omega arith, tt), ((omega arith, tt), ((omega arith, tt), tt))),
                  ),
                ),
              ),
            ),
          ),
        ),
      ),
      omega arith,
    ),
  ),
  tt,
)

answer-Fits : FitsAll 300 answer
unfolding Fits wire be3 be4 get_avp_info base_get_avp_info cx_get_avp_info cx_get_reused_avp_info
    find_row base_rows_1 base_rows_2 cx_rows_1 cx_rows_2 cx_reused_rows
answer-Fits = (
  (omega arith, omega arith),
  (
    (omega arith, (((omega arith, tt), ((omega arith, tt), tt)), omega arith)),
    (
      (omega arith, (((omega arith, tt), tt), omega arith)),
      (
        (omega arith, tt),
        (
          (omega arith, omega arith),
          (
            (omega arith, omega arith),
            (
              (
                omega arith,
                (((omega arith, tt), ((omega arith, tt), ((omega arith, tt), tt))), omega arith),
              ),
              ((omega arith, omega arith), caps-Fits),
            ),
          ),
        ),
      ),
    ),
  ),
)

answer-Sendable : Sendable env 300 answer given_ids blank
answer-Sendable = record {
  fresh = refl;
  fits = answer-Fits;
  h2h_small = omega arith;
  e2e_small = omega arith;
  room = omega (arith, uaa_len);
  short = omega (arith, uaa_len);
}

-- A request with the session id of the answer.
abbrev waiting : Mgr
waiting = record {
  nodes = made_node (115 ∷ []) none 1 2 3 4 ∷ [];
  timers = (3, 2) ∷ [];
  notes = [];
}

build_uaa-Read_example :
    (out : MsgOut) × (c : MBuf) × (m : MsgDecoded) × (build_uaa cx
        (some (given_ids, 115 ∷ []))
        (some first_registration)
        (some (feature ∷ []))
        (some (115 ∷ []))
        (some server_cap)
        []
      ≡ some (some out))
    × (out.msg ≡ some c)
    × (decode_msg ops 500 (received c) ≡ done (some m))
    × Read (115 ∷ []) first_registration (some (115 ∷ [])) m
build_uaa-Read_example =
    build_uaa-Read cx first_ops-ListLaws ops-BufLaws 500 (115 ∷ []) first_registration
      (some feature) (some (115 ∷ [])) (some server_cap) (some caps) given_ids blank caps_given
      (omega arith) answer-Sendable (omega (arith, uaa_len))

build_uaa-unanswered_example :
    (out : MsgOut) × (c : MBuf) × (m : MsgDecoded) × (build_uaa cx
        (some (given_ids, 115 ∷ []))
        (some first_registration)
        (some (feature ∷ []))
        (some (115 ∷ []))
        (some server_cap)
        []
      ≡ some (some out))
    × (out.msg ≡ some c)
    × (decode_msg ops 500 (received c) ≡ done (some m))
    × (mgr_on_msg list_ops (some (some 4)) peer_msg (some m) waiting
        ≡ (true, record waiting { notes = call (some 4) (some m) none [] }))
build_uaa-unanswered_example =
    build_uaa-unanswered cx first_ops-ListLaws ops-BufLaws 500 (115 ∷ []) first_registration
      (some feature) (some (115 ∷ [])) (some server_cap) (some caps) given_ids blank caps_given
      answer-Sendable (omega (arith, uaa_len)) list_ops (some 4) waiting
