-- ===== src/Cmd/Cx/LirTrip.antt =====
-- A Location-Info-Request on its way (diaCx/src/diaCxLir.c, common/src/diaMsg.c).
use diameter.Common.{
  ℕ, ◌+◌, ◌≤◌, ◌<◌, ◌≡◌, arith, Bool, true, false, some, ◌==◌, if◌then◌else◌, List, [], ◌∷◌, ◌++◌,
  length,
}
use diameter.Msg.{CmdHdrInfo}
use diameter.Wire.Buf.{MBuf, BufLaws}
use diameter.Wire.Encode.{EncAvps, enc_avp, num, pl, no_avp, add_avp}
use diameter.Wire.Shape.{wire, wire_all, Fits, FitsAll}
use diameter.Wire.Decode.{done, decode_msg}
use diameter.Wire.Decoded.{decoded_all}
use diameter.Wire.Message.{MsgAvp, plain, MsgOut}
use diameter.Wire.MessageTrip.{received}
use diameter.Cmd.Lists.{ListLaws}
use diameter.Cmd.Rules.{ready}
use diameter.Cmd.Param.{get_host_realm, lists_from}
use diameter.Cmd.Encoders.{Feature, feature_avp, sess_text, max_session_id_len}
use diameter.Cmd.Spelled.{Spells, plain-Writes}
use diameter.Cmd.Cx.{CxEnv, app_id_cx, opt_features, request_opts}
use diameter.Cmd.Cx.Layout.{head_of}
use diameter.Cmd.Trip.{Spells-append, plain-Spells, Sendable, lists-msg_of}
use diameter.Cmd.Cx.Heads.{lir, head_list, one_of, opt_feature, opt_feature-Spells, head-Spells}
use diameter.Cmd.Cx.Order.{lir_avps-order}
use diameter.Cmd.Cx.Lir.{LirParam, lir_avps, lir_encode, build_lir, reg_and_cap}

-- The type of the authorization, if it asks for capabilities.
abbrev pub uat_list : Bool → ℕ → EncAvps
uat_list true uat = add_avp (enc_avp 623 (num uat)) no_avp
uat_list false uat = no_avp

-- The AVPs of a request to a host and a realm, with one list of features.
abbrev pub lir_list : CxEnv → List ℕ → List ℕ → List ℕ → Feature → ℕ → EncAvps
lir_list cx pub_id host realm f uat = head_list cx (
    add_avp (enc_avp 293 (pl host)) (
      add_avp (enc_avp 283 (pl realm)) (
        add_avp (feature_avp f)
          (add_avp (enc_avp 601 (pl pub_id)) (uat_list (uat == reg_and_cap) uat)))))

abbrev pub lir_param : CxEnv → List ℕ → ℕ → LirParam
lir_param cx pub_id uat = record {
  realm_host = get_host_realm cx.env.host cx.env.realm;
  pub_id = pub_id;
  user_auth_type = uat;
}

abbrev uat_items : Bool → ℕ → List MsgAvp
uat_items b uat = if b then plain (enc_avp 623 (num uat)) ∷ [] else []

abbrev lir_items : CxEnv → List ℕ → List ℕ → List ℕ → Feature → ℕ → List MsgAvp
lir_items cx pub_id host realm f uat =
    head_of cx cx.env.host cx.env.realm
    ++ (plain (enc_avp 293 (pl host))
        ∷ plain (enc_avp 283 (pl realm))
        ∷ (opt_features cx (one_of (some f))
            ++ (plain (enc_avp 601 (pl pub_id)) ∷ uat_items (uat == reg_and_cap) uat)))

module _ (cx : CxEnv) (laws : ListLaws cx.lists) (buf_laws : BufLaws cx.env.ops) where
  uat-Spells :
      (b : Bool) (uat : ℕ)
      → FitsAll 302 (uat_list b uat)
      → Spells cx.env.ops buf_laws 302 (uat_items b uat) (uat_list b uat)
  unfolding Spells Fits wire
  uat-Spells true uat h = (plain-Writes cx.env.ops buf_laws 302 (enc_avp 623 (num uat)) (h.0), tt)
  uat-Spells false uat h = tt

  lir_items-Spells :
      (pub_id host realm : List ℕ) (f : Feature) (uat : ℕ)
      → length (sess_text cx.sess cx.env.host) < max_session_id_len
      → FitsAll 302 (lir_list cx pub_id host realm f uat)
      → Spells cx.env.ops buf_laws 302
          (lir_items cx pub_id host realm f uat)
          (lir_list cx pub_id host realm f uat)
  unfolding Fits
  lir_items-Spells pub_id host realm f uat short
        (h1, (h2, (h3, (h4, (h5, (h6, (h7, (h8, (h9, h10))))))))) =
      let p = plain-Spells cx.env.ops buf_laws 302 in
      head-Spells cx buf_laws lir _ _ short (h1, (h2, (h3, (h4, (h5, tt)))))
        (p _ _ _ h6 (
          p _ _ _ h7 (
            Spells-append cx.env.ops buf_laws 302 _ _ (opt_feature (some f)) _
              (opt_feature-Spells cx buf_laws lir (some f) (h8, tt))
              (p _ _ _ h9 (uat-Spells (uat == reg_and_cap) uat h10)))))

  lir_avps-items :
      (pub_id host realm : List ℕ) (f : Feature) (uat : ℕ)
      → lir_avps cx
          (lir_param cx pub_id uat)
          (lists_from (request_opts cx (some host) (some realm) (some (f ∷ []))) [])
        ≡ some (ready (lir_items cx pub_id host realm f uat) [])
  lir_avps-items pub_id host realm f uat =
      lir_avps-order cx laws (lir_param cx pub_id uat) (some host) (some realm) (some (f ∷ [])) []

  -- A Location-Info-Request to a host and a realm, with one list of features, is read by the other side
  -- as the command 302 of the Cx application with the flags of a proxiable request, the ids that the
  -- header got and these AVPs in this order: the session id, the application, the session state,
  -- the origin, the destination, the features, the identity, and the type of the authorization if it
  -- asks for capabilities. The session id is shorter than 200 bytes, the values fit their types, the
  -- message the allocation and the 24 bits of its length, the ids that are given have 32 bits, and
  -- there is fuel for as many AVPs as there are bytes.
  pub build_lir-decoded :
      (n uat : ℕ) (pub_id host realm : List ℕ) (f : Feature) (ids : CmdHdrInfo) (b : MBuf)
      → cx.env.fresh ≡ some b
      → length (sess_text cx.sess cx.env.host) < max_session_id_len
      → FitsAll 302 (lir_list cx pub_id host realm f uat)
      → ids.h2h_id < 0x1_0000_0000
      → ids.e2e_id < 0x1_0000_0000
      → 20 + length (wire_all 302 (lir_list cx pub_id host realm f uat)) ≤ b.size
      → 20 + length (wire_all 302 (lir_list cx pub_id host realm f uat)) < 0x100_0000
      → 20 + length (wire_all 302 (lir_list cx pub_id host realm f uat)) ≤ n
      → (out : MsgOut) × (c : MBuf) × (build_lir cx
            (some pub_id)
            (some host)
            (some realm)
            (some (f ∷ []))
            uat
            []
            (some ids)
          ≡ some (some out))
        × (out.msg ≡ some c)
        × (decode_msg cx.env.ops n (received c)
            ≡ done (
                some (record {
                  cmd_code = 302;
                  cmd_flag = 0xC0;
                  len = 20 + length (wire_all 302 (lir_list cx pub_id host realm f uat));
                  app_id = app_id_cx;
                  h2h_id = out.hdr_info.h2h_id;
                  e2e_id = out.hdr_info.e2e_id;
                  avp_list = decoded_all 302 (lir_list cx pub_id host realm f uat);
                })))
  unfolding build_lir lir_encode
  build_lir-decoded n uat pub_id host realm f ids b fresh short fits hh he room small fuel =
      let sendable : Sendable cx.env 302 (lir_list cx pub_id host realm f uat) ids b = record {
        fresh = fresh;
        fits = fits;
        h2h_small = hh;
        e2e_small = he;
        room = room;
        short = small;
      } in
      lists-msg_of cx.env buf_laws n 302 0xC0 app_id_cx ids _ (lir_items cx pub_id host realm f uat)
        (lir_list cx pub_id host realm f uat) b (omega arith) (omega arith) (omega arith) sendable
        fuel (lir_items-Spells pub_id host realm f uat short fits)
        (lir_avps-items pub_id host realm f uat)
