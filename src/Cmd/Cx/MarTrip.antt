-- ===== src/Cmd/Cx/MarTrip.antt =====
-- A Multimedia-Auth-Request on its way (diaCx/src/diaCxMar.c).
use diameter.Common.{ℕ, ◌+◌, ◌≤◌, ◌<◌, ◌≡◌, arith, Option, some, List, [], ◌∷◌, ◌++◌, length}
use diameter.Msg.{CmdHdrInfo}
use diameter.Wire.Buf.{MBuf, BufLaws}
use diameter.Wire.Encode.{EncAvps, enc_avp, num, pl, grouped, add_avp}
use diameter.Wire.Shape.{wire_all, Fits, FitsAll}
use diameter.Wire.Decode.{done, decode_msg}
use diameter.Wire.Message.{MsgAvp, plain, MsgOut, encode_item}
use diameter.Wire.MessageTrip.{received}
use diameter.Build.Group.{join}
use diameter.Cmd.Lists.{ListLaws}
use diameter.Cmd.Rules.{ready}
use diameter.Cmd.Param.{get_host_realm, lists_from}
use diameter.Cmd.Encoders.{Feature, sess_text, max_session_id_len}
use diameter.Cmd.Spelled.{Spells}
use diameter.Cmd.Trip.{
  opt_pl, FitsAll-join, Spells-append, plain-Spells, Sendable, msg_of, lists-msg_of,
}
use diameter.Cmd.Cx.{CxEnv, app_id_cx, opt_text, opt_features, request_opts}
use diameter.Cmd.Cx.Layout.{head_of}
use diameter.Cmd.Cx.Heads.{
  mar, head_list, one_of, opt_feature, opt_text-Spells, opt_feature-Spells, head-Spells,
}
use diameter.Cmd.Cx.Mar.{
  AuthData, MarParam, auth_members, auth_data_avp, mar_avps, mar_encode, mar_auth_item, build_mar,
}
use diameter.Cmd.Cx.AuthItem.{encode_auth_data-wire}
use diameter.Cmd.Cx.Order.{mar_avps-order}

-- What the application asks for, and the members of the authentication data.
pub record MarAsked : Type 0 where
  pub user_name : List ℕ
  pub pub_id : List ℕ
  pub auth_data : AuthData
  pub auth_avps : EncAvps
  pub server_name : List ℕ
  pub host : Option (List ℕ)
  pub realm : Option (List ℕ)
  pub feature : Option Feature

abbrev item_num : MarAsked → ℕ
item_num u = mar_auth_item u.auth_data.scheme u.auth_data.auth_item

abbrev pub mar_list : CxEnv → MarAsked → EncAvps
mar_list cx u = head_list cx (
    join (opt_pl 293 u.host) (
      add_avp (enc_avp 283 (pl [])) (
        add_avp (enc_avp 1 (pl u.user_name)) (
          join (opt_feature u.feature) (
            add_avp (enc_avp 601 (pl u.pub_id)) (
              add_avp (enc_avp 612 (grouped u.auth_avps)) (
                add_avp (enc_avp 607 (num (item_num u)))
                  (add_avp (enc_avp 602 (pl u.server_name)) (opt_pl 283 u.realm)))))))))

abbrev mar_items : CxEnv → MarAsked → List MsgAvp
mar_items cx u =
    head_of cx cx.env.host cx.env.realm
    ++ (opt_text 293 u.host
        ++ (plain (enc_avp 283 (pl []))
            ∷ plain (enc_avp 1 (pl u.user_name))
            ∷ (opt_features cx (one_of u.feature)
                ++ (plain (enc_avp 601 (pl u.pub_id))
                    ∷ auth_data_avp cx u.auth_data
                    ∷ plain (enc_avp 607 (num (item_num u)))
                    ∷ plain (enc_avp 602 (pl u.server_name))
                    ∷ opt_text 283 u.realm))))

abbrev mar_param : CxEnv → MarAsked → MarParam
mar_param cx u = record {
  realm_host = get_host_realm cx.env.host cx.env.realm;
  user_name = u.user_name;
  pub_id = u.pub_id;
  auth_data = u.auth_data;
  auth_item = item_num u;
  server_name = u.server_name;
}

module _ (cx : CxEnv) (laws : ListLaws cx.lists) (buf_laws : BufLaws cx.env.ops) where
  -- The encoder of supported authentication data writes one group.
  auth-Spells :
      (u : MarAsked) (l : List MsgAvp) (k : EncAvps)
      → auth_members u.auth_data ≡ some (some u.auth_avps)
      → Fits 303 (enc_avp 612 (grouped u.auth_avps))
      → Spells cx.env.ops buf_laws 303 l k
      → Spells cx.env.ops buf_laws 303
          (auth_data_avp cx u.auth_data ∷ l)
          (add_avp (enc_avp 612 (grouped u.auth_avps)) k)
  unfolding Spells encode_item auth_data_avp
  auth-Spells u l k e h s = (
    λ b a room. encode_auth_data-wire cx.env.ops buf_laws u.auth_data u.auth_avps b e h a room,
    s,
  )

  mar_items-Spells :
      (u : MarAsked)
      → length (sess_text cx.sess cx.env.host) < max_session_id_len
      → auth_members u.auth_data ≡ some (some u.auth_avps)
      → FitsAll 303 (mar_list cx u)
      → Spells cx.env.ops buf_laws 303 (mar_items cx u) (mar_list cx u)
  unfolding Fits
  mar_items-Spells u short e (h1, (h2, (h3, (h4, (h5, rest))))) =
      let (host, (empty, (name, more))) = FitsAll-join 303 (opt_pl 293 u.host) _ rest in
      let (feature, (id, (auth, (item, (server, realm))))) =
        FitsAll-join 303 (opt_feature u.feature) _ more in
      let p = plain-Spells cx.env.ops buf_laws 303 in
      let also = Spells-append cx.env.ops buf_laws 303 in
      head-Spells cx buf_laws mar _ _ short (h1, (h2, (h3, (h4, (h5, tt)))))
        (also _ _ _ _ (opt_text-Spells cx buf_laws mar 293 u.host host) (
          p _ _ _ empty (
            p _ _ _ name (
              also _ _ _ _ (opt_feature-Spells cx buf_laws mar u.feature feature) (
                p _ _ _ id (
                  auth-Spells u _ _ e auth (
                    p _ _ _ item
                      (p _ _ _ server (opt_text-Spells cx buf_laws mar 283 u.realm realm)))))))))

  mar_avps-items :
      (u : MarAsked)
      → mar_avps cx
          (mar_param cx u)
          (lists_from (request_opts cx u.host u.realm (one_of u.feature)) [])
        ≡ some (ready (mar_items cx u) [])
  mar_avps-items u = mar_avps-order cx laws (mar_param cx u) u.host u.realm (one_of u.feature) []

  -- A Multimedia-Auth-Request is read by the other side as the command 303 of the Cx application with the
  -- flags of a proxiable request, the ids that the header got, and these AVPs in this order: the session
  -- id, the application, the session state, the origin, the destination host if it is given, an empty
  -- destination realm, the user, one list of features if it is given, the identity, the
  -- authentication data as a group, the number of items, which is one unless the scheme is AKA, the
  -- server, and the destination realm that the caller gives. The scheme of the data is supported, the
  -- application gives no AVPs of its own, the session id is shorter than 200 bytes, the message can be
  -- sent, and there is fuel for as many AVPs as there are bytes.
  pub build_mar-decoded :
      (n : ℕ) (u : MarAsked) (ids : CmdHdrInfo) (b : MBuf)
      → length (sess_text cx.sess cx.env.host) < max_session_id_len
      → auth_members u.auth_data ≡ some (some u.auth_avps)
      → Sendable cx.env 303 (mar_list cx u) ids b
      → 20 + length (wire_all 303 (mar_list cx u)) ≤ n
      → (out : MsgOut) × (c : MBuf) × (build_mar cx
            (some u.user_name)
            (some u.pub_id)
            (some u.auth_data)
            (some u.server_name)
            u.host
            u.realm
            (one_of u.feature)
            []
            (some ids)
          ≡ some (some out))
        × (out.msg ≡ some c)
        × (decode_msg cx.env.ops n (received c)
            ≡ done (some (msg_of 303 0xC0 app_id_cx (mar_list cx u) out.hdr_info)))
  unfolding build_mar mar_encode
  build_mar-decoded n u ids b short e s fuel =
      lists-msg_of cx.env buf_laws n 303 0xC0 app_id_cx ids _ (mar_items cx u) (mar_list cx u) b
        (omega arith) (omega arith) (omega arith) s fuel (mar_items-Spells u short e s.fits)
        (mar_avps-items u)
