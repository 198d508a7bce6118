-- ===== src/Cmd/Cx.antt =====
-- The Cx requests and answer that diaCx/src builds. A null list is the empty one. An AVP of a block that
-- has ended is read as what it was.
pub mod Lir
pub mod Sar
pub mod Mar
pub mod Uar
pub mod Uaa
pub mod Answer
pub mod Layout
pub mod Order
pub mod UserOrder
pub mod ServerCaps
pub mod AuthItem
pub mod Heads
pub mod LirTrip
pub mod SarTrip
pub mod MarTrip
pub mod UarTrip
pub mod UaaTrip
pub mod UaaRead
use diameter.Common.{ℕ, Option, none, some, List, [], ◌∷◌, ◌++◌}
use diameter.Wire.Encode.{enc_avp, num, pl}
use diameter.Wire.Message.{MsgAvp, plain, by_func}
use diameter.Cmd.Lists.{ListOps}
use diameter.Cmd.Parts.{Step, ◌then◌, append, append_value}
use diameter.Cmd.Param.{Env, RealmHost}
use diameter.Cmd.Encoders.{
  SessSource, session_id_func, Feature, encode_supported_feature, encode_vendor_specific_app_id,
}

-- What the builders of the Cx messages use besides.
pub record CxEnv : Type 0 where
  pub env : Env
  pub sess : SessSource
  pub lists : ListOps

abbrev pub app_id_cx : ℕ
app_id_cx = 16777216

abbrev pub vendor_3gpp : ℕ
vendor_3gpp = 10415

unfoldable pub sess_id_avp : CxEnv → List ℕ → MsgAvp
unfolding session_id_func
sess_id_avp cx host = by_func 263 (session_id_func cx.env.ops cx.sess host)

unfoldable pub app_id_func_avp : CxEnv → MsgAvp
unfolding encode_vendor_specific_app_id
app_id_func_avp cx = by_func 260 (encode_vendor_specific_app_id cx.env.ops app_id_cx vendor_3gpp)

unfoldable pub features_avp : CxEnv → List Feature → MsgAvp
unfolding encode_supported_feature
features_avp cx fl = by_func 628 (encode_supported_feature cx.env.ops fl)

-- No session state is kept.
abbrev pub auth_state_avp : MsgAvp
auth_state_avp = plain (enc_avp 277 (num 1))

-- The AVPs that each request starts with.
unfoldable pub cx_head : CxEnv → RealmHost → Step
unfolding sess_id_avp app_id_func_avp
cx_head cx p =
    append (sess_id_avp cx p.orig_host)
    then append (app_id_func_avp cx)
    then append auth_state_avp
    then append_value 264 (pl p.orig_host)
    then append_value 296 (pl p.orig_realm)

-- The AVPs that the builders put in front of the optional ones, each of which may be missing.
abbrev pub opt_text : ℕ → Option (List ℕ) → List MsgAvp
opt_text code none = []
opt_text code (some l) = plain (enc_avp code (pl l)) ∷ []

unfoldable pub opt_features : CxEnv → Option (List Feature) → List MsgAvp
unfolding features_avp
opt_features cx none = []
opt_features cx (some fl) = features_avp cx fl ∷ []

-- `optAvpList` of the builders that take a host, a realm and features.
unfoldable pub request_opts :
    CxEnv → Option (List ℕ) → Option (List ℕ) → Option (List Feature) → List MsgAvp
unfolding opt_features
request_opts cx dest_host dest_realm sf =
    opt_text 293 dest_host ++ (opt_text 283 dest_realm ++ opt_features cx sf)
