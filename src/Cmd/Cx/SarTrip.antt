-- ===== src/Cmd/Cx/SarTrip.antt =====
-- A Server-Assignment-Request on its way (diaCx/src/diaCxSar.c).
use diameter.Common.{
  ℕ, ◌+◌, ◌≤◌, ◌<◌, ◌≡◌, arith, Bool, true, false, ◌&&◌, Option, some, if◌then◌else◌, List, [], ◌∷◌,
  ◌++◌, length,
}
use diameter.Msg.{CmdHdrInfo}
use diameter.Wire.Buf.{MBuf, BufLaws}
use diameter.Wire.Encode.{EncAvps, enc_avp, num, pl, no_avp, add_avp}
use diameter.Wire.Shape.{wire_all, Fits, FitsAll}
use diameter.Wire.Decode.{done, decode_msg}
use diameter.Wire.Message.{MsgAvp, plain, MsgOut}
use diameter.Wire.MessageTrip.{received}
use diameter.Build.Group.{join}
use diameter.Cmd.Lists.{ListLaws}
use diameter.Cmd.Rules.{ready}
use diameter.Cmd.Param.{get_host_realm, lists_from}
use diameter.Cmd.Encoders.{Feature, sess_text, max_session_id_len}
use diameter.Cmd.Spelled.{Spells}
use diameter.Cmd.Trip.{
  opt_pl, FitsAll-join, Spells-append, plain-Spells, Sendable, msg_of, lists-msg_of,
}
use diameter.Cmd.Cx.{CxEnv, app_id_cx, opt_text, opt_features, request_opts}
use diameter.Cmd.Cx.Layout.{head_of}
use diameter.Cmd.Cx.Heads.{
  sar, head_list, one_of, opt_feature, opt_text-Spells, opt_feature-Spells, head-Spells,
}
use diameter.Cmd.Cx.Sar.{SarInfo, SarParam, exists, ind_value, sar_avps, sar_encode, build_sar}
use diameter.Cmd.Cx.Order.{sar_avps-order}

-- What the application asks for.
pub record SarAsked : Type 0 where
  pub user_name : Option (List ℕ)
  pub pub_id : List ℕ
  pub server_name : List ℕ
  pub host : Option (List ℕ)
  pub realm : Option (List ℕ)
  pub info : SarInfo
  pub feature : Option Feature

abbrev ind_list : Bool → ℕ → EncAvps
ind_list true n = add_avp (enc_avp 648 (num n)) no_avp
ind_list false n = no_avp

abbrev has_ind : SarInfo → Bool
has_ind i = i.restoration_info && exists i.multi_reg_ind

abbrev pub sar_list : CxEnv → SarAsked → EncAvps
sar_list cx u = head_list cx (
    join (opt_pl 293 u.host) (
      join (opt_pl 283 u.realm) (
        join (opt_pl 1 u.user_name) (
          join (opt_feature u.feature) (
            add_avp (enc_avp 601 (pl u.pub_id)) (
              add_avp (enc_avp 602 (pl u.server_name)) (
                add_avp (enc_avp 614 (num u.info.server_assignment_type)) (
                  add_avp (enc_avp 624 (num u.info.user_data_available))
                    (ind_list (has_ind u.info) (ind_value u.info.multi_reg_ind))))))))))

abbrev ind_items : Bool → ℕ → List MsgAvp
ind_items b n = if b then plain (enc_avp 648 (num n)) ∷ [] else []

abbrev sar_items : CxEnv → SarAsked → List MsgAvp
sar_items cx u =
    head_of cx cx.env.host cx.env.realm
    ++ (opt_text 293 u.host
        ++ (opt_text 283 u.realm
            ++ (opt_text 1 u.user_name
                ++ (opt_features cx (one_of u.feature)
                    ++ (plain (enc_avp 601 (pl u.pub_id))
                        ∷ plain (enc_avp 602 (pl u.server_name))
                        ∷ plain (enc_avp 614 (num u.info.server_assignment_type))
                        ∷ plain (enc_avp 624 (num u.info.user_data_available))
                        ∷ ind_items (has_ind u.info) (ind_value u.info.multi_reg_ind))))))

abbrev sar_param : CxEnv → SarAsked → SarParam
sar_param cx u = record {
  realm_host = get_host_realm cx.env.host cx.env.realm;
  user_name = u.user_name;
  pub_id = u.pub_id;
  server_name = u.server_name;
  sar_info = u.info;
}

module _ (cx : CxEnv) (laws : ListLaws cx.lists) (buf_laws : BufLaws cx.env.ops) where
  ind-Spells :
      (b : Bool) (n : ℕ)
      → FitsAll 301 (ind_list b n)
      → Spells cx.env.ops buf_laws 301 (ind_items b n) (ind_list b n)
  unfolding Spells Fits
  ind-Spells true n h =
      plain-Spells cx.env.ops buf_laws 301 (enc_avp 648 (num n)) [] no_avp (h.0) tt
  ind-Spells false n h = tt

  sar_items-Spells :
      (u : SarAsked)
      → length (sess_text cx.sess cx.env.host) < max_session_id_len
      → FitsAll 301 (sar_list cx u)
      → Spells cx.env.ops buf_laws 301 (sar_items cx u) (sar_list cx u)
  unfolding Fits
  sar_items-Spells u short (h1, (h2, (h3, (h4, (h5, rest))))) =
      let (host, l1) = FitsAll-join 301 (opt_pl 293 u.host) _ rest in
      let (realm, l2) = FitsAll-join 301 (opt_pl 283 u.realm) _ l1 in
      let (name, l3) = FitsAll-join 301 (opt_pl 1 u.user_name) _ l2 in
      let (feature, (id, (server, (type, (user_data, ind))))) =
        FitsAll-join 301 (opt_feature u.feature) _ l3 in
      let p = plain-Spells cx.env.ops buf_laws 301 in
      let t = opt_text-Spells cx buf_laws sar in
      let also = Spells-append cx.env.ops buf_laws 301 in
      head-Spells cx buf_laws sar _ _ short (h1, (h2, (h3, (h4, (h5, tt)))))
        (also _ _ _ _ (t 293 u.host host) (
          also _ _ _ _ (t 283 u.realm realm) (
            also _ _ _ _ (t 1 u.user_name name) (
              also _ _ _ _ (opt_feature-Spells cx buf_laws sar u.feature feature) (
                p _ _ _ id (
                  p _ _ _ server (
                    p _ _ _ type (
                      p _ _ _ user_data
                        (ind-Spells (has_ind u.info) (ind_value u.info.multi_reg_ind) ind)))))))))

  sar_avps-items :
      (u : SarAsked)
      → sar_avps cx
          (sar_param cx u)
          (lists_from (request_opts cx u.host u.realm (one_of u.feature)) [])
        ≡ some (ready (sar_items cx u) [])
  sar_avps-items u = sar_avps-order cx laws (sar_param cx u) u.host u.realm (one_of u.feature) []

  -- A Server-Assignment-Request is read by the other side as the command 301 of the Cx application with the
  -- flags of a proxiable request, the ids that the header got, and these AVPs in this order: the
  -- session id, the application, the session state, the origin, the destination host and realm and the
  -- user if they are given, one list of features if it is given, the identity, the server, the type of
  -- the assignment, whether the user data is there, and the indication of multiple registrations if
  -- it exists and there is restoration info. The application gives no AVPs of its own, the session id
  -- is shorter than 200 bytes, the message can be sent, and there is fuel for as many AVPs as there
  -- are bytes.
  pub build_sar-decoded :
      (n : ℕ) (u : SarAsked) (ids : CmdHdrInfo) (b : MBuf)
      → length (sess_text cx.sess cx.env.host) < max_session_id_len
      → Sendable cx.env 301 (sar_list cx u) ids b
      → 20 + length (wire_all 301 (sar_list cx u)) ≤ n
      → (out : MsgOut) × (c : MBuf) × (build_sar cx u.user_name
            (some u.pub_id)
            (some u.server_name)
            u.host
            u.realm
            (some u.info)
            (one_of u.feature)
            []
            (some ids)
          ≡ some (some out))
        × (out.msg ≡ some c)
        × (decode_msg cx.env.ops n (received c)
            ≡ done (some (msg_of 301 0xC0 app_id_cx (sar_list cx u) out.hdr_info)))
  unfolding build_sar sar_encode
  build_sar-decoded n u ids b short s fuel =
      lists-msg_of cx.env buf_laws n 301 0xC0 app_id_cx ids _ (sar_items cx u) (sar_list cx u) b
        (omega arith) (omega arith) (omega arith) s fuel (sar_items-Spells u short s.fits)
        (sar_avps-items u)
