-- ===== src/Cmd/Cx/UaaRead.antt =====
-- What the client reads in a User-Authorization-Answer: `diaMsg_getSessId`, `dia_GetResultCode`
-- (common/src/diaMsg.c), `diaCx_getExpCode` (diaCx/src/diaCx.c), `diaCxUar_getServerName` and
-- `diaCxUar_getServerCap` (diaCx/src/diaCxUar.c).
use diameter.Common.{
  ℕ, ◌+◌, ◌%◌, ◌≤◌, ◌<◌, ◌≡◌, refl, ap, arith, Bool, true, false, Option, none, some, if◌then◌else◌,
  List, [], length,
}
use diameter.Msg.{
  CmdHdrInfo, MsgDecoded, avp, Avps, nil, cons, avp_list_lookup, DataType, grouped_type, AvpData,
  group, data_u32, get_sess_id, get_result_code, get_exp_code, result_code_none,
}
use diameter.Dict.Rows.{find_row}
use diameter.Dict.Base.{base_rows_1, base_rows_2}
use diameter.Dict.Cx.{cx_rows_1, cx_rows_2, cx_reused_rows}
use diameter.Dict.Info.{get_avp_info, base_get_avp_info, cx_get_avp_info, cx_get_reused_avp_info}
use diameter.Wire.Encode.{EncAvps}
use diameter.Wire.Decoded.{decoded, decoded_all}
use diameter.Wire.Buf.{MBuf, BufLaws}
use diameter.Wire.Shape.{wire_all}
use diameter.Wire.Decode.{done, decode_msg}
use diameter.Wire.Message.{MsgOut}
use diameter.Wire.MessageTrip.{received}
use diameter.Cmd.Lists.{ListLaws}
use diameter.Cmd.Encoders.{Feature}
use diameter.Cmd.Trip.{Sendable, msg_of}
use diameter.Cmd.Cx.{CxEnv, app_id_cx}
use diameter.Cmd.Cx.Uaa.{ResultCode, ServerCap, opt_server_cap, build_uaa}
use diameter.Cmd.Cx.Answer.{
  get_server_name, get_server_cap, CapLists, no_caps, add_cap, add_caps, caps_of, caps_by_type,
}
use diameter.Cmd.Cx.Heads.{one_of}
use diameter.Cmd.Cx.UaaTrip.{given_list, origin_list, uaa_list, build_uaa-decoded}
use diameter.Cmd.Cx.UserOrder.{opt_group}

-- The loop looks at the code of the group, so that it adds nothing.
add_caps-none :
    (flag vendor_id : ℕ) (type : DataType) (d : AvpData) (l : Avps) (c : CapLists)
    → add_caps (avp 603 flag vendor_id type d) l c ≡ some c
unfolding add_caps add_cap
add_caps-none flag vendor_id type d nil c = refl
add_caps-none flag vendor_id type d (cons x l) c = add_caps-none flag vendor_id type d l c

group-none :
    (l : EncAvps)
    → add_caps
        (avp 603 0xc0 10415 grouped_type (group (decoded_all 300 l)))
        (decoded_all 300 l)
        no_caps
      ≡ some no_caps
group-none l =
    add_caps-none 0xc0 10415 grouped_type (group (decoded_all 300 l)) (decoded_all 300 l) no_caps

mod_small : (n : ℕ) → n < 0x1_0000_0000 → n % 0x1_0000_0000 ≡ n
mod_small n h = omega arith

-- What each reader gives of a received answer.
pub record Read (sess_id : List ℕ) (r : ResultCode) (name : Option (List ℕ)) (m : MsgDecoded)
    : Type 0 where
  pub sess_read : get_sess_id m ≡ some sess_id
  pub result_read : get_result_code m ≡ some (if r.is_result_code then r.code else result_code_none)
  pub exp_read : get_exp_code m ≡ some (if r.is_result_code then 0 else r.code)
  pub name_read : get_server_name (some m) ≡ some name
  pub caps_read : get_server_cap m ≡ some no_caps

module _ (cx : CxEnv) where
  abbrev behind : Option Feature → Option (List ℕ) → Option EncAvps → Avps
  behind f name caps = decoded_all 300 (origin_list cx (given_list f name caps))

  abbrev only : Avps → MsgDecoded
  only l = record {
    cmd_code = 300;
    cmd_flag = 0;
    len = 0;
    app_id = 0;
    h2h_id = 0;
    e2e_id = 0;
    avp_list = l;
  }

  behind-result :
      (f : Option Feature) (name : Option (List ℕ)) (caps : Option EncAvps)
      → (get_result_code (only (behind f name caps)) ≡ some result_code_none)
        × (get_exp_code (only (behind f name caps)) ≡ some 0)
  unfolding get_result_code get_exp_code avp_list_lookup decoded get_avp_info base_get_avp_info
      cx_get_avp_info cx_get_reused_avp_info find_row base_rows_1 base_rows_2 cx_rows_1 cx_rows_2
      cx_reused_rows
  behind-result none none none = (refl, refl)
  behind-result none none (some l) = (refl, refl)
  behind-result none (some s) none = (refl, refl)
  behind-result none (some s) (some l) = (refl, refl)
  behind-result (some f) none none = (refl, refl)
  behind-result (some f) none (some l) = (refl, refl)
  behind-result (some f) (some s) none = (refl, refl)
  behind-result (some f) (some s) (some l) = (refl, refl)

  behind-server :
      (f : Option Feature) (name : Option (List ℕ)) (caps : Option EncAvps)
      → (get_server_name (some (only (behind f name caps))) ≡ some name)
        × (get_server_cap (only (behind f name caps)) ≡ some no_caps)
  unfolding get_server_name get_server_cap caps_by_type caps_of avp_list_lookup decoded get_avp_info
      base_get_avp_info cx_get_avp_info cx_get_reused_avp_info find_row base_rows_1 base_rows_2
      cx_rows_1 cx_rows_2 cx_reused_rows
  behind-server none none none = (refl, refl)
  behind-server none none (some l) = (refl, group-none l)
  behind-server none (some s) none = (refl, refl)
  behind-server none (some s) (some l) = (refl, group-none l)
  behind-server (some f) none none = (refl, refl)
  behind-server (some f) none (some l) = (refl, group-none l)
  behind-server (some f) (some s) none = (refl, refl)
  behind-server (some f) (some s) (some l) = (refl, group-none l)

  msg_of-Read :
      (sess_id : List ℕ) (b : Bool) (code : ℕ) (f : Option Feature) (name : Option (List ℕ))
      (caps : Option EncAvps) (ids : CmdHdrInfo)
      → code < 0x1_0000_0000
      → let r : ResultCode = record { is_result_code = b; code = code } in
        Read sess_id r name (msg_of 300 0xC0 app_id_cx (uaa_list cx sess_id r f name caps) ids)
  unfolding get_sess_id get_result_code get_exp_code data_u32 get_server_name get_server_cap
      caps_by_type avp_list_lookup decoded get_avp_info base_get_avp_info cx_get_avp_info
      cx_get_reused_avp_info find_row base_rows_1 base_rows_2 cx_rows_1 cx_rows_2 cx_reused_rows
  msg_of-Read sess_id true code f name caps ids h = record {
    sess_read = refl;
    result_read = ap (λ n. some n) (mod_small code h);
    exp_read = (behind-result f name caps).1;
    name_read = (behind-server f name caps).0;
    caps_read = (behind-server f name caps).1;
  }
  msg_of-Read sess_id false code f name caps ids h = record {
    sess_read = refl;
    result_read = (behind-result f name caps).0;
    exp_read = ap (λ n. some n) (mod_small code h);
    name_read = (behind-server f name caps).0;
    caps_read = (behind-server f name caps).1;
  }

module _ (cx : CxEnv) (laws : ListLaws cx.lists) (buf_laws : BufLaws cx.env.ops) where
  -- In a User-Authorization-Answer on its way the receiver reads the session id of the request, the
  -- result code or else the experimental one, which has 32 bits, the server if one is given, and no
  -- capability, whatever the answer holds. The answer is without AVPs of the application, its
  -- capabilities are within the bounds, it can be sent, and there is fuel for as many AVPs as there
  -- are bytes.
  pub build_uaa-Read :
      (n : ℕ) (sess_id : List ℕ) (r : ResultCode) (f : Option Feature) (name : Option (List ℕ))
      (cap : Option ServerCap) (caps : Option EncAvps) (ids : CmdHdrInfo) (b : MBuf)
      → opt_server_cap cap ≡ some (opt_group 603 caps)
      → r.code < 0x1_0000_0000
      → Sendable cx.env 300 (uaa_list cx sess_id r f name caps) ids b
      → 20 + length (wire_all 300 (uaa_list cx sess_id r f name caps)) ≤ n
      → (out : MsgOut) × (c : MBuf) × (m : MsgDecoded) × (build_uaa cx
            (some (ids, sess_id))
            (some r)
            (one_of f)
            name
            cap
            []
          ≡ some (some out))
        × (out.msg ≡ some c)
        × (decode_msg cx.env.ops n (received c) ≡ done (some m))
        × Read sess_id r name m
  build_uaa-Read n sess_id r f name cap caps ids b ec hr s fuel =
      let w = build_uaa-decoded cx laws buf_laws n sess_id r f name cap caps ids b ec s fuel in
      (
        w.0,
        w.1,
        _,
        w.2,
        w.3,
        w.4,
        msg_of-Read cx sess_id r.is_result_code r.code f name caps (w.0).hdr_info hr,
      )
