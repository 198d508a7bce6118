-- ===== src/Cmd/Cx/UarTrip.antt =====
-- A User-Authorization-Request on its way (diaCx/src/diaCxUar.c).
use diameter.Common.{
  ℕ, ◌+◌, ◌≤◌, ◌<◌, ◌≡◌, sym, ap, ◌∙◌, arith, Bool-cases, inl, inr, Option, none, some, ◌==◌,
  if◌then◌else◌, if_true, if_false, List, [], ◌∷◌, ◌++◌, length, append-nil,
}
use diameter.Msg.{CmdHdrInfo}
use diameter.Wire.Buf.{MBuf, BufLaws}
use diameter.Wire.Encode.{EncAvps, enc_avp, num, pl, no_avp, add_avp}
use diameter.Wire.Shape.{wire_all, Fits, FitsAll}
use diameter.Wire.Decode.{done, decode_msg}
use diameter.Wire.Message.{MsgAvp, plain, MsgOut}
use diameter.Wire.MessageTrip.{received}
use diameter.Build.Group.{join}
use diameter.Cmd.Lists.{ListLaws}
use diameter.Cmd.Rules.{ready}
use diameter.Cmd.Param.{lists_from}
use diameter.Cmd.Encoders.{Feature, sess_text, max_session_id_len}
use diameter.Cmd.Spelled.{Spells}
use diameter.Cmd.Trip.{
  opt_pl, FitsAll-join, Spells-append, plain-Spells, Sendable, msg_of, lists-msg_of,
}
use diameter.Cmd.Cx.{CxEnv, app_id_cx, vendor_3gpp, opt_text, opt_features}
use diameter.Cmd.Cx.Layout.{head_of}
use diameter.Cmd.Cx.Heads.{
  uar, head_list, one_of, opt_feature, opt_text-Spells, opt_feature-Spells, head-Spells,
}
use diameter.Cmd.Cx.Uar.{
  UarParam, AuthType, registration, de_registration, registration_and_capabilities, no_auth_type,
  auth_type_avp, feature_list_avp, uar_avps, uar_encode, uar_opts, build_uar,
}
use diameter.Cmd.Cx.UserOrder.{uar_avps-order}

-- The features of a number, and the type of an authorization.
abbrev pub feature_of : ℕ → Option Feature
feature_of n =
    if n == 0
    then none
    else some (record { vendor_id = vendor_3gpp; feature_list_id = 1; feature_list = n })

abbrev pub type_of : AuthType → EncAvps
type_of registration = add_avp (enc_avp 623 (num 0)) no_avp
type_of de_registration = add_avp (enc_avp 623 (num 1)) no_avp
type_of registration_and_capabilities = add_avp (enc_avp 623 (num 2)) no_avp
type_of no_auth_type = no_avp

-- What the application asks for.
pub record UarAsked : Type 0 where
  pub user_name : List ℕ
  pub pub_id : List ℕ
  pub network : List ℕ
  pub host : Option (List ℕ)
  pub realm : List ℕ
  pub feature_list : ℕ
  pub auth_type : AuthType

abbrev pub uar_list : CxEnv → UarAsked → EncAvps
uar_list cx u = head_list cx (
    join (opt_pl 293 u.host) (
      add_avp (enc_avp 283 (pl u.realm)) (
        add_avp (enc_avp 1 (pl u.user_name)) (
          join (opt_feature (feature_of u.feature_list)) (
            add_avp (enc_avp 601 (pl u.pub_id))
              (add_avp (enc_avp 600 (pl u.network)) (type_of u.auth_type)))))))

abbrev uar_items : CxEnv → UarAsked → List MsgAvp
uar_items cx u =
    head_of cx cx.env.host cx.env.realm
    ++ (opt_text 293 u.host
        ++ (plain (enc_avp 283 (pl u.realm))
            ∷ plain (enc_avp 1 (pl u.user_name))
            ∷ (opt_features cx (one_of (feature_of u.feature_list))
                ++ (plain (enc_avp 601 (pl u.pub_id))
                    ∷ plain (enc_avp 600 (pl u.network))
                    ∷ auth_type_avp u.auth_type))))

abbrev uar_param : CxEnv → UarAsked → UarParam
uar_param cx u = record {
  realm_host = record {
    orig_host = cx.env.host;
    orig_realm = cx.env.realm;
    dest_host = [];
    dest_realm = u.realm;
  };
  user_name = u.user_name;
  pub_id = u.pub_id;
  visited_network = u.network;
}

feature_list-one_of :
    (cx : CxEnv) (n : ℕ) → feature_list_avp cx n ≡ opt_features cx (one_of (feature_of n))
unfolding feature_list_avp opt_features
feature_list-one_of cx n = elim (Bool-cases (n == 0)) [
  | inl e ↦ if_true _ _ e ∙ ap (λ o. opt_features cx (one_of o)) (sym (if_true _ _ e))
  | inr e ↦ if_false _ _ e ∙ ap (λ o. opt_features cx (one_of o)) (sym (if_false _ _ e))
]

module _ (cx : CxEnv) (laws : ListLaws cx.lists) (buf_laws : BufLaws cx.env.ops) where
  type-Spells :
      (t : AuthType)
      → FitsAll 300 (type_of t)
      → Spells cx.env.ops buf_laws 300 (auth_type_avp t) (type_of t)
  unfolding Spells Fits
  type-Spells registration h =
      plain-Spells cx.env.ops buf_laws 300 (enc_avp 623 (num 0)) [] no_avp (h.0) tt
  type-Spells de_registration h =
      plain-Spells cx.env.ops buf_laws 300 (enc_avp 623 (num 1)) [] no_avp (h.0) tt
  type-Spells registration_and_capabilities h =
      plain-Spells cx.env.ops buf_laws 300 (enc_avp 623 (num 2)) [] no_avp (h.0) tt
  type-Spells no_auth_type h = tt

  uar_items-Spells :
      (u : UarAsked)
      → length (sess_text cx.sess cx.env.host) < max_session_id_len
      → FitsAll 300 (uar_list cx u)
      → Spells cx.env.ops buf_laws 300 (uar_items cx u) (uar_list cx u)
  unfolding Fits
  uar_items-Spells u short (h1, (h2, (h3, (h4, (h5, rest))))) =
      let (host, (realm, (name, more))) = FitsAll-join 300 (opt_pl 293 u.host) _ rest in
      let (feature, (id, (network, type))) =
        FitsAll-join 300 (opt_feature (feature_of u.feature_list)) _ more in
      let p = plain-Spells cx.env.ops buf_laws 300 in
      head-Spells cx buf_laws uar _ _ short (h1, (h2, (h3, (h4, (h5, tt)))))
        (Spells-append cx.env.ops buf_laws 300 _ _ _ _
          (opt_text-Spells cx buf_laws uar 293 u.host host)
          (p _ _ _ realm (
            p _ _ _ name (
              Spells-append cx.env.ops buf_laws 300 _ _ _ _
                (opt_feature-Spells cx buf_laws uar (feature_of u.feature_list) feature)
                (p _ _ _ id (p _ _ _ network (type-Spells u.auth_type type)))))))

  uar_avps-items :
      (u : UarAsked)
      → uar_avps cx (uar_param cx u) (lists_from (uar_opts cx u.host u.feature_list u.auth_type) [])
        ≡ some (ready (uar_items cx u) [])
  uar_avps-items u =
      uar_avps-order cx laws (uar_param cx u) u.host u.feature_list u.auth_type [] ∙ λ i. some (
        ready
          (head_of cx cx.env.host cx.env.realm
            ++ (opt_text 293 u.host
                ++ (plain (enc_avp 283 (pl u.realm))
                    ∷ plain (enc_avp 1 (pl u.user_name))
                    ∷ (feature_list-one_of cx u.feature_list i
                        ++ (plain (enc_avp 601 (pl u.pub_id))
                            ∷ plain (enc_avp 600 (pl u.network))
                            ∷ append-nil (auth_type_avp u.auth_type) i)))))
          [])

  -- A User-Authorization-Request is read by the other side as the command 300 of the Cx application with
  -- the flags of a proxiable request, the ids that the header got, and these AVPs in this order: the
  -- session id, the application, the session state, the origin, the destination host if it is given,
  -- the destination realm, the user, the features if their number is not zero, the identity, the
  -- visited network, and the type of the authorization if there is one. The application gives no
  -- AVPs of its own, the session id is shorter than 200 bytes, the message can be sent, and there is
  -- fuel for as many AVPs as there are bytes.
  pub build_uar-decoded :
      (n : ℕ) (u : UarAsked) (ids : CmdHdrInfo) (b : MBuf)
      → length (sess_text cx.sess cx.env.host) < max_session_id_len
      → Sendable cx.env 300 (uar_list cx u) ids b
      → 20 + length (wire_all 300 (uar_list cx u)) ≤ n
      → (out : MsgOut) × (c : MBuf) × (build_uar cx
            (some u.user_name)
            (some u.pub_id)
            (some u.network)
            u.auth_type
            u.host
            (some u.realm)
            u.feature_list
            []
            (some ids)
          ≡ some (some out))
        × (out.msg ≡ some c)
        × (decode_msg cx.env.ops n (received c)
            ≡ done (some (msg_of 300 0xC0 app_id_cx (uar_list cx u) out.hdr_info)))
  unfolding build_uar uar_encode
  build_uar-decoded n u ids b short s fuel =
      lists-msg_of cx.env buf_laws n 300 0xC0 app_id_cx ids _ (uar_items cx u) (uar_list cx u) b
        (omega arith) (omega arith) (omega arith) s fuel (uar_items-Spells u short s.fits)
        (uar_avps-items u)
