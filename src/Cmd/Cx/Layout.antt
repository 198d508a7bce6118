-- ===== src/Cmd/Cx/Layout.antt =====
-- The order of the AVPs in the Cx messages of diaCx/src.
use diameter.Common.{ℕ, ◌≡◌, refl, Option, none, some, List, [], ◌∷◌}
use diameter.Wire.Encode.{enc_avp, pl}
use diameter.Wire.Message.{MsgAvp, plain}
use diameter.Cmd.Lists.{has_code, matching, others}
use diameter.Cmd.Rules.{found, without}
use diameter.Cmd.Encoders.{Feature}
use diameter.Cmd.Cx.{
  CxEnv, sess_id_avp, app_id_func_avp, auth_state_avp, features_avp, opt_text, opt_features,
  request_opts,
}

-- The AVPs in front, in a message from this host and realm.
unfoldable pub head_of : CxEnv → List ℕ → List ℕ → List MsgAvp
unfolding sess_id_avp app_id_func_avp
head_of cx host realm =
    sess_id_avp cx host
    ∷ app_id_func_avp cx
    ∷ auth_state_avp
    ∷ plain (enc_avp 264 (pl host))
    ∷ plain (enc_avp 296 (pl realm))
    ∷ []

pub request_opts-found :
    (cx : CxEnv) (h r : Option (List ℕ)) (sf : Option (List Feature))
    → let o = request_opts cx h r sf in
      (found 293 o ≡ opt_text 293 h)
      × (found 283 (without 293 o) ≡ opt_text 283 r)
      × (matching (has_code 628) (without 283 (without 293 o)) ≡ opt_features cx sf)
      × (others (has_code 628) (without 283 (without 293 o)) ≡ [])
      × (matching (has_code 628) (without 293 o) ≡ opt_features cx sf)
      × (others (has_code 628) (without 293 o) ≡ opt_text 283 r)
unfolding request_opts opt_features features_avp
request_opts-found cx none none none = (refl, refl, refl, refl, refl, refl)
request_opts-found cx none none (some sf) = (refl, refl, refl, refl, refl, refl)
request_opts-found cx none (some r) none = (refl, refl, refl, refl, refl, refl)
request_opts-found cx none (some r) (some sf) = (refl, refl, refl, refl, refl, refl)
request_opts-found cx (some h) none none = (refl, refl, refl, refl, refl, refl)
request_opts-found cx (some h) none (some sf) = (refl, refl, refl, refl, refl, refl)
request_opts-found cx (some h) (some r) none = (refl, refl, refl, refl, refl, refl)
request_opts-found cx (some h) (some r) (some sf) = (refl, refl, refl, refl, refl, refl)
