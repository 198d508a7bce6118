-- ===== src/Cmd/Cx/UaaTrip.antt =====
-- A User-Authorization-Answer on its way, and what its receiver reads in it (diaCx/src/diaCxUar.c,
-- common/src/diaMsg.c, diaCx/src/diaCx.c).
use diameter.Common.{
  ℕ, ◌+◌, ◌≤◌, ◌≡◌, ap, ◌∙◌, arith, Bool, true, false, Option, none, some, List, [], ◌∷◌, ◌++◌,
  length, ◌>>=◌,
}
use diameter.Msg.{CmdHdrInfo}
use diameter.Dict.Rows.{find_row}
use diameter.Dict.Base.{base_rows_1, base_rows_2}
use diameter.Dict.Cx.{cx_rows_1, cx_rows_2, cx_reused_rows}
use diameter.Dict.Info.{get_avp_info, base_get_avp_info, cx_get_avp_info, cx_get_reused_avp_info}
use diameter.Wire.Words.{be3, be4}
use diameter.Wire.Buf.{MBuf, BufLaws}
use diameter.Wire.Encode.{EncAvp, EncAvps, enc_avp, num, pl, grouped, no_avp, add_avp}
use diameter.Wire.Shape.{wire, wire_all, Fits, FitsAll}
use diameter.Wire.Decode.{done, decode_msg}
use diameter.Wire.Message.{MsgAvp, plain, MsgOut, encode_item}
use diameter.Wire.MessageTrip.{received}
use diameter.Cmd.Lists.{ListLaws}
use diameter.Cmd.Rules.{ready}
use diameter.Cmd.Param.{get_host_realm, lists_from, encode_lists}
use diameter.Cmd.Encoders.{Feature, app_id_avp}
use diameter.Cmd.Spelled.{Writes, Spells, app_id-Writes, plain-Writes}
use diameter.Cmd.Cx.{
  CxEnv, app_id_cx, vendor_3gpp, app_id_func_avp, opt_text, opt_features, auth_state_avp,
}
use diameter.Cmd.Trip.{
  opt_pl, FitsAll-join, Spells-append, plain-Spells, Sendable, msg_of, encode_lists-msg_of,
}
use diameter.Build.Group.{join}
use diameter.Cmd.Cx.Heads.{uar, one_of, opt_feature, opt_text-Spells, opt_feature-Spells}
use diameter.Cmd.Cx.UserOrder.{opt_group, uaa_avps-order}
use diameter.Cmd.Cx.Uaa.{
  ResultCode, result_avp, UaaParam, ServerCap, opt_server_cap, uaa_avps, uaa_encode, build_uaa,
}

abbrev pub opt_caps : Option EncAvps → EncAvps
opt_caps none = no_avp
opt_caps (some l) = add_avp (enc_avp 603 (grouped l)) no_avp

-- The features, the server and the capabilities, each if it is given.
abbrev pub given_list : Option Feature → Option (List ℕ) → Option EncAvps → EncAvps
given_list f name caps = join (opt_feature f) (join (opt_pl 602 name) (opt_caps caps))

abbrev pub result_enc : Bool → ℕ → EncAvp
result_enc true code = enc_avp 268 (num code)
result_enc false code = enc_avp 297 (grouped (add_avp (enc_avp 298 (num code)) no_avp))

abbrev pub origin_list : CxEnv → EncAvps → EncAvps
origin_list cx k =
    add_avp (enc_avp 277 (num 1))
      (add_avp (enc_avp 264 (pl cx.env.host)) (add_avp (enc_avp 296 (pl cx.env.realm)) k))

-- The AVPs of an answer without AVPs of the application.
abbrev pub uaa_list :
    CxEnv → List ℕ → ResultCode → Option Feature → Option (List ℕ) → Option EncAvps → EncAvps
uaa_list cx sess_id r f name caps = add_avp (enc_avp 263 (pl sess_id)) (
    add_avp (app_id_avp app_id_cx vendor_3gpp)
      (add_avp (result_enc r.is_result_code r.code) (origin_list cx (given_list f name caps))))

abbrev pub uaa_param : CxEnv → List ℕ → ResultCode → UaaParam
uaa_param cx sess_id r = record {
  realm_host = get_host_realm cx.env.host cx.env.realm;
  result_code = r;
  sess_id = sess_id;
}

uaa_items :
    CxEnv → List ℕ → ResultCode → Option Feature → Option (List ℕ) → Option EncAvps → List MsgAvp
uaa_items cx sess_id r f name caps =
    plain (enc_avp 263 (pl sess_id))
    ∷ app_id_func_avp cx
    ∷ result_avp r
    ∷ auth_state_avp
    ∷ plain (enc_avp 264 (pl cx.env.host))
    ∷ plain (enc_avp 296 (pl cx.env.realm))
    ∷ (opt_features cx (one_of f) ++ (opt_text 602 name ++ opt_group 603 caps))

module _ (cx : CxEnv) (laws : ListLaws cx.lists) (buf_laws : BufLaws cx.env.ops) where
  caps-Spells :
      (caps : Option EncAvps)
      → FitsAll 300 (opt_caps caps)
      → Spells cx.env.ops buf_laws 300 (opt_group 603 caps) (opt_caps caps)
  unfolding Spells Fits
  caps-Spells none h = tt
  caps-Spells (some l) h =
      (plain-Writes cx.env.ops buf_laws 300 (enc_avp 603 (grouped l)) (h.0), tt)

  given-Spells :
      (f : Option Feature) (name : Option (List ℕ)) (caps : Option EncAvps)
      → FitsAll 300 (given_list f name caps)
      → Spells cx.env.ops buf_laws 300
          (opt_features cx (one_of f) ++ (opt_text 602 name ++ opt_group 603 caps))
          (given_list f name caps)
  given-Spells f name caps h =
      let (feature, rest) = FitsAll-join 300 (opt_feature f) _ h in
      let (server, group) = FitsAll-join 300 (opt_pl 602 name) _ rest in
      let also = Spells-append cx.env.ops buf_laws 300 in
      also _ _ _ _ (opt_feature-Spells cx buf_laws uar f feature)
        (also _ _ _ _ (opt_text-Spells cx buf_laws uar 602 name server) (caps-Spells caps group))

  origin-Spells :
      (f : Option Feature) (name : Option (List ℕ)) (caps : Option EncAvps)
      → FitsAll 300 (origin_list cx (given_list f name caps))
      → Spells cx.env.ops buf_laws 300
          (auth_state_avp
            ∷ plain (enc_avp 264 (pl cx.env.host))
            ∷ plain (enc_avp 296 (pl cx.env.realm))
            ∷ (opt_features cx (one_of f) ++ (opt_text 602 name ++ opt_group 603 caps)))
          (origin_list cx (given_list f name caps))
  unfolding Fits
  origin-Spells f name caps (h1, (h2, (h3, h4))) =
      let p = plain-Spells cx.env.ops buf_laws 300 in
      p _ _ _ h1 (p _ _ _ h2 (p _ _ _ h3 (given-Spells f name caps h4)))

  result-Writes :
      (b : Bool) (code : ℕ)
      → Fits 300 (result_enc b code)
      → Writes
          (encode_item cx.env.ops 300 (result_avp (record { is_result_code = b; code = code })))
          (wire 300 (result_enc b code))
  result-Writes true code h = plain-Writes cx.env.ops buf_laws 300 (result_enc true code) h
  result-Writes false code h = plain-Writes cx.env.ops buf_laws 300 (result_enc false code) h

  uaa_items-Spells :
      (sess_id : List ℕ) (r : ResultCode) (f : Option Feature) (name : Option (List ℕ))
      (caps : Option EncAvps)
      → FitsAll 300 (uaa_list cx sess_id r f name caps)
      → Spells cx.env.ops buf_laws 300
          (uaa_items cx sess_id r f name caps)
          (uaa_list cx sess_id r f name caps)
  unfolding Spells Fits uaa_items app_id_func_avp encode_item wire be3 be4 get_avp_info
      base_get_avp_info cx_get_avp_info cx_get_reused_avp_info find_row base_rows_1 base_rows_2
      cx_rows_1 cx_rows_2 cx_reused_rows
  uaa_items-Spells sess_id r f name caps (h1, (h2, (h3, h4))) = (
    plain-Writes cx.env.ops buf_laws 300 (enc_avp 263 (pl sess_id)) h1,
    (
      app_id-Writes cx.env.ops buf_laws app_id_cx vendor_3gpp h2,
      (result-Writes r.is_result_code r.code h3, origin-Spells f name caps h4),
    ),
  )

  uaa_avps-items :
      (sess_id : List ℕ) (r : ResultCode) (f : Option Feature) (name : Option (List ℕ))
      (caps : Option EncAvps)
      → uaa_avps cx
          (uaa_param cx sess_id r)
          (lists_from (opt_features cx (one_of f) ++ (opt_text 602 name ++ opt_group 603 caps)) [])
        ≡ some (ready (uaa_items cx sess_id r f name caps) [])
  unfolding uaa_items
  uaa_avps-items sess_id r f name caps = uaa_avps-order cx laws _ (one_of f) name caps []

  -- A User-Authorization-Answer without AVPs of the application is read by the other side as its AVPs in
  -- this order: the session id of the request, the application, the result, which is an
  -- experimental one in a group or not, the session state, the origin, and the features, the server
  -- and the capabilities that are given. Its flags are those of a request.
  pub build_uaa-decoded :
      (n : ℕ) (sess_id : List ℕ) (r : ResultCode) (f : Option Feature) (name : Option (List ℕ))
      (cap : Option ServerCap) (caps : Option EncAvps) (ids : CmdHdrInfo) (b : MBuf)
      → opt_server_cap cap ≡ some (opt_group 603 caps)
      → Sendable cx.env 300 (uaa_list cx sess_id r f name caps) ids b
      → 20 + length (wire_all 300 (uaa_list cx sess_id r f name caps)) ≤ n
      → (out : MsgOut) × (c : MBuf) × (build_uaa cx
            (some (ids, sess_id))
            (some r)
            (one_of f)
            name
            cap
            []
          ≡ some (some out))
        × (out.msg ≡ some c)
        × (decode_msg cx.env.ops n (received c)
            ≡ done
                (some (msg_of 300 0xC0 app_id_cx (uaa_list cx sess_id r f name caps) out.hdr_info)))
  unfolding build_uaa uaa_encode
  build_uaa-decoded n sess_id r f name cap caps ids b ec s fuel =
      let w =
        encode_lists-msg_of cx.env buf_laws n 300 0xC0 app_id_cx ids
          (uaa_items cx sess_id r f name caps) (uaa_list cx sess_id r f name caps) b (omega arith)
          (omega arith) (omega arith) s fuel (uaa_items-Spells sess_id r f name caps s.fits) in
      (
        w.0,
        w.1,
        ap
              (λ k. k >>= λ caps.
                uaa_encode cx (uaa_param cx sess_id r)
                  (lists_from (opt_features cx (one_of f) ++ (opt_text 602 name ++ caps)) []) ids
                >>= λ x. some (some x))
              ec
            ∙ ap (λ k. k >>= encode_lists cx.env 300 0xC0 app_id_cx ids >>= λ x. some (some x))
                (uaa_avps-items sess_id r f name caps)
            ∙ ap (λ k. k >>= λ x. some (some x)) (w.2),
        w.3,
        w.4,
      )
