-- ===== src/Cmd/Cx/UserOrder.antt =====
-- The order of the AVPs in the messages of diaCx/src/diaCxUar.c, as their builders give the optional
-- ones.
use diameter.Common.{
  ℕ, ◌≡◌, refl, sym, ap, ◌∙◌, append-nil, Bool-cases, inl, inr, if_true, if_false, Option, none,
  some, ◌==◌, if◌then◌else◌, List, [], ◌∷◌, ◌++◌,
}
use diameter.Wire.Encode.{EncAvps, enc_avp, pl, grouped}
use diameter.Wire.Message.{MsgAvp, plain}
use diameter.Cmd.Lists.{ListLaws, has_code, remove_first, matching, others}
use diameter.Cmd.Moved.{extra_last}
use diameter.Cmd.Param.{lists_from}
use diameter.Cmd.Encoders.{Feature}
use diameter.Cmd.Cx.{
  CxEnv, app_id_func_avp, auth_state_avp, cx_head, features_avp, opt_text, opt_features,
}
use diameter.Cmd.Rules.{oc_avp, found, without, ready, step_laws, found_laws}
use diameter.Cmd.Cx.Layout.{head_of}
use diameter.Cmd.Cx.Uar.{
  UarParam, uar_avps, uar_opts, one_feature, feature_list_avp, auth_type_avp, AuthType,
  registration, de_registration, registration_and_capabilities, no_auth_type,
}
use diameter.Cmd.Cx.Uaa.{UaaParam, uaa_avps, result_avp}

auth_type-found :
    (t : AuthType)
    → let o = auth_type_avp t in
      (remove_first (has_code 293) o ≡ (none, o))
      × (matching (has_code 628) o ≡ [])
      × (others (has_code 628) o ≡ o)
      × (found 623 o ≡ o)
      × (found 1263 (without 623 o) ≡ [])
      × (without 1263 (without 623 o) ≡ [])
auth_type-found registration = (refl, refl, refl, refl, refl, refl)
auth_type-found de_registration = (refl, refl, refl, refl, refl, refl)
auth_type-found registration_and_capabilities = (refl, refl, refl, refl, refl, refl)
auth_type-found no_auth_type = (refl, refl, refl, refl, refl, refl)

-- A host and features in front of other AVPs.
in_front :
    (cx : CxEnv) (h : Option (List ℕ)) (sf : Option (List Feature)) (o : List MsgAvp)
    → remove_first (has_code 293) o ≡ (none, o)
    → let l = opt_text 293 h ++ (opt_features cx sf ++ o) in
      (found 293 l ≡ opt_text 293 h) × (without 293 l ≡ opt_features cx sf ++ o)
unfolding opt_features features_avp
in_front cx none none o e = (ap (λ r. oc_avp (r.0)) e, ap (λ r. r.1) e)
in_front cx none (some sf) o e = (ap (λ r. oc_avp (r.0)) e, ap (λ r. features_avp cx sf ∷ r.1) e)
in_front cx (some h) sf o e = (refl, refl)

feature_list-opt :
    (cx : CxEnv) (n : ℕ)
    → feature_list_avp cx n ≡ opt_features cx (if n == 0 then none else some (one_feature n))
unfolding feature_list_avp opt_features
feature_list-opt cx n = elim (Bool-cases (n == 0)) [
  | inl e ↦ if_true _ _ e ∙ ap (opt_features cx) (sym (if_true _ _ e))
  | inr e ↦ if_false _ _ e ∙ ap (opt_features cx) (sym (if_false _ _ e))
]

features-matching :
    (cx : CxEnv) (sf : Option (List Feature)) (o : List MsgAvp)
    → matching (has_code 628) o ≡ []
    → (matching (has_code 628) (opt_features cx sf ++ o) ≡ opt_features cx sf)
      × (others (has_code 628) (opt_features cx sf ++ o) ≡ others (has_code 628) o)
unfolding opt_features features_avp
features-matching cx none o e = (e, refl)
features-matching cx (some sf) o e = (ap (λ k. features_avp cx sf ∷ k) e, refl)

abbrev pub opt_group : ℕ → Option EncAvps → List MsgAvp
opt_group code none = []
opt_group code (some l) = plain (enc_avp code (grouped l)) ∷ []

uaa_opts-found :
    (cx : CxEnv) (sf : Option (List Feature)) (name : Option (List ℕ)) (cap : Option EncAvps)
    → let o = opt_text 602 name ++ opt_group 603 cap in
      (matching (has_code 628) (opt_features cx sf ++ o) ≡ opt_features cx sf)
      × (others (has_code 628) (opt_features cx sf ++ o) ≡ o)
      × (found 602 o ≡ opt_text 602 name)
      × (without 602 o ≡ opt_group 603 cap)
      × (found 603 (opt_group 603 cap) ≡ opt_group 603 cap)
      × (without 603 (opt_group 603 cap) ≡ [])
unfolding opt_features features_avp
uaa_opts-found cx none none none = (refl, refl, refl, refl, refl, refl)
uaa_opts-found cx none none (some c) = (refl, refl, refl, refl, refl, refl)
uaa_opts-found cx none (some l) none = (refl, refl, refl, refl, refl, refl)
uaa_opts-found cx none (some l) (some c) = (refl, refl, refl, refl, refl, refl)
uaa_opts-found cx (some sf) none none = (refl, refl, refl, refl, refl, refl)
uaa_opts-found cx (some sf) none (some c) = (refl, refl, refl, refl, refl, refl)
uaa_opts-found cx (some sf) (some l) none = (refl, refl, refl, refl, refl, refl)
uaa_opts-found cx (some sf) (some l) (some c) = (refl, refl, refl, refl, refl, refl)

module _ (cx : CxEnv) (laws : ListLaws cx.lists) where
  -- In a User-Authorization-Request the AVPs stand in this order: the session id, the application, the
  -- session state, the origin, the destination host if it is given, the destination realm, the user name,
  -- the first OC-Supported-Features of the application, the features if their number is not zero,
  -- the identity, the visited network, the type of the authorization if there is one, and the first
  -- UAR-Flags of the application; then what the application gives besides.
  pub uar_avps-order :
      (p : UarParam) (host : Option (List ℕ)) (feature_list : ℕ) (t : AuthType)
      (extra : List MsgAvp)
      → uar_avps cx p (lists_from (uar_opts cx host feature_list t) extra)
        ≡ extra_last (
            ready
              (head_of cx p.realm_host.orig_host p.realm_host.orig_realm
                ++ (opt_text 293 host
                    ++ (plain (enc_avp 283 (pl p.realm_host.dest_realm))
                        ∷ plain (enc_avp 1 (pl p.user_name))
                        ∷ (found 621 extra
                            ++ (feature_list_avp cx feature_list
                                ++ (plain (enc_avp 601 (pl p.pub_id))
                                    ∷ plain (enc_avp 600 (pl p.visited_network))
                                    ∷ (auth_type_avp t ++ found 637 (without 621 extra))))))))
              (without 637 (without 621 extra)))
  unfolding uar_avps uar_opts cx_head head_of
  uar_avps-order p host feature_list t extra =
      let (no_host, no_features, kept, auth_type, network, rest) = auth_type-found t in
      let sf = if feature_list == 0 then none else some (one_feature feature_list) in
      let (dh, without_host) = in_front cx host sf (auth_type_avp t) no_host in
      let (features, others_left) = features-matching cx sf (auth_type_avp t) no_features in
      simp (step_laws, laws)
        (simp (found_laws, laws)
          (simp (feature_list-opt, dh, without_host, features, others_left, kept)
            (simp (auth_type, network, rest, append-nil))))

  -- In a User-Authorization-Answer the AVPs stand in this order: the session id, the application, the
  -- result, the session state, the origin, the first OC-Supported-Features of the application, the
  -- features, the server and the capabilities if they are given; then what the application gives
  -- besides.
  pub uaa_avps-order :
      (p : UaaParam) (sf : Option (List Feature)) (name : Option (List ℕ)) (cap : Option EncAvps)
      (extra : List MsgAvp)
      → uaa_avps cx p
          (lists_from (opt_features cx sf ++ (opt_text 602 name ++ opt_group 603 cap)) extra)
        ≡ extra_last (
            ready
              (plain (enc_avp 263 (pl p.sess_id))
                ∷ app_id_func_avp cx
                ∷ result_avp p.result_code
                ∷ auth_state_avp
                ∷ plain (enc_avp 264 (pl p.realm_host.orig_host))
                ∷ plain (enc_avp 296 (pl p.realm_host.orig_realm))
                ∷ (found 621 extra
                    ++ (opt_features cx sf ++ (opt_text 602 name ++ opt_group 603 cap))))
              (without 621 extra))
  unfolding uaa_avps
  uaa_avps-order p sf name cap extra =
      let (features, kept, server, no_server, caps, rest) = uaa_opts-found cx sf name cap in
      simp (step_laws, laws)
        (simp (found_laws, laws)
          (simp (features, kept) (simp (server, no_server) (simp (caps, rest, append-nil)))))
