-- ===== src/Cmd/Cx/Heads.antt =====
-- The bytes of the AVPs that all Cx requests of diaCx/src have in common.
use diameter.Common.{ℕ, ◌<◌, ◌≡◌, refl, sym, subst, Option, none, some, List, [], ◌∷◌, ◌++◌, length}
use diameter.Dict.Rows.{find_row}
use diameter.Dict.Base.{base_rows_1, base_rows_2}
use diameter.Dict.Cx.{cx_rows_1, cx_rows_2, cx_reused_rows}
use diameter.Dict.Info.{get_avp_info, base_get_avp_info, cx_get_avp_info, cx_get_reused_avp_info}
use diameter.Wire.Words.{be3, be4}
use diameter.Wire.Buf.{BufLaws}
use diameter.Wire.Encode.{EncAvp, EncAvps, enc_avp, num, pl, no_avp, add_avp}
use diameter.Wire.Shape.{wire, Fits, FitsAll}
use diameter.Wire.Message.{MsgAvp, encode_item}
use diameter.Cmd.Encoders.{Feature, feature_avp, app_id_avp, sess_text, max_session_id_len}
use diameter.Cmd.Spelled.{
  Writes, Spells, session_id_func-Writes, app_id-Writes, features-Writes, plain-Writes,
}
use diameter.Cmd.Cx.{
  CxEnv, app_id_cx, vendor_3gpp, sess_id_avp, app_id_func_avp, features_avp, opt_text, opt_features,
}
use diameter.Cmd.Cx.Layout.{head_of}
use diameter.Cmd.Trip.{opt_pl}

-- User-Authorization, Server-Assignment, Location-Info and Multimedia-Auth.
pub data CxCmd : Type 0 where
  uar sar lir mar : CxCmd

abbrev pub code_of : CxCmd → ℕ
code_of uar = 300
code_of sar = 301
code_of lir = 302
code_of mar = 303

-- The encoders of functions look an AVP up for another command, and find the same.
unfoldable Same : CxCmd → ℕ → EncAvp → Type 0
Same c cmd a = (wire (code_of c) a ≡ wire cmd a) × (Fits (code_of c) a → Fits cmd a)

sess-Same : (c : CxCmd) (t : List ℕ) → Same c 0 (enc_avp 263 (pl t))
unfolding Same wire Fits be3 be4 get_avp_info base_get_avp_info cx_get_avp_info
    cx_get_reused_avp_info find_row base_rows_1 base_rows_2 cx_rows_1 cx_rows_2 cx_reused_rows
sess-Same uar t = (refl, λ h. h)
sess-Same sar t = (refl, λ h. h)
sess-Same lir t = (refl, λ h. h)
sess-Same mar t = (refl, λ h. h)

app_id-Same : (c : CxCmd) → Same c 0 (app_id_avp app_id_cx vendor_3gpp)
unfolding Same wire Fits be3 be4 get_avp_info base_get_avp_info cx_get_avp_info
    cx_get_reused_avp_info find_row base_rows_1 base_rows_2 cx_rows_1 cx_rows_2 cx_reused_rows
app_id-Same uar = (refl, λ h. h)
app_id-Same sar = (refl, λ h. h)
app_id-Same lir = (refl, λ h. h)
app_id-Same mar = (refl, λ h. h)

feature-Same : (c : CxCmd) (f : Feature) → Same c 300 (feature_avp f)
unfolding Same wire Fits be3 be4 get_avp_info base_get_avp_info cx_get_avp_info
    cx_get_reused_avp_info find_row base_rows_1 base_rows_2 cx_rows_1 cx_rows_2 cx_reused_rows
feature-Same uar f = (refl, λ h. h)
feature-Same sar f = (refl, λ h. h)
feature-Same lir f = (refl, λ h. h)
feature-Same mar f = (refl, λ h. h)

-- The AVPs that each request starts with.
abbrev pub head_list : CxEnv → EncAvps → EncAvps
head_list cx k = add_avp (enc_avp 263 (pl (sess_text cx.sess cx.env.host))) (
    add_avp (app_id_avp app_id_cx vendor_3gpp) (
      add_avp (enc_avp 277 (num 1))
        (add_avp (enc_avp 264 (pl cx.env.host)) (add_avp (enc_avp 296 (pl cx.env.realm)) k))))

-- At most one list of features.
abbrev pub one_of : Option Feature → Option (List Feature)
one_of none = none
one_of (some f) = some (f ∷ [])

abbrev pub opt_feature : Option Feature → EncAvps
opt_feature none = no_avp
opt_feature (some f) = add_avp (feature_avp f) no_avp

module _ (cx : CxEnv) (laws : BufLaws cx.env.ops) (c : CxCmd) where
  pub opt_text-Spells :
      (code : ℕ) (t : Option (List ℕ))
      → FitsAll (code_of c) (opt_pl code t)
      → Spells cx.env.ops laws (code_of c) (opt_text code t) (opt_pl code t)
  unfolding Spells Fits
  opt_text-Spells code none h = tt
  opt_text-Spells code (some l) h =
      (plain-Writes cx.env.ops laws (code_of c) (enc_avp code (pl l)) (h.0), tt)

  feature-Writes :
      (f : Feature)
      → Fits 300 (feature_avp f)
      → Writes
          (encode_item cx.env.ops (code_of c) (features_avp cx (f ∷ [])))
          (wire 300 (feature_avp f))
  unfolding features_avp encode_item Fits wire be3 be4 get_avp_info base_get_avp_info
      cx_get_avp_info cx_get_reused_avp_info find_row base_rows_1 base_rows_2 cx_rows_1 cx_rows_2
      cx_reused_rows
  feature-Writes f h = features-Writes cx.env.ops laws (f ∷ []) (h, tt)

  pub opt_feature-Spells :
      (f : Option Feature)
      → FitsAll (code_of c) (opt_feature f)
      → Spells cx.env.ops laws (code_of c) (opt_features cx (one_of f)) (opt_feature f)
  unfolding Same Spells Fits opt_features
  opt_feature-Spells none h = tt
  opt_feature-Spells (some f) h =
      let (same, fits) = feature-Same c f in
      (subst (Writes _) (sym same) (feature-Writes f (fits (h.0))), tt)

  pub head-Spells :
      (l : List MsgAvp) (k : EncAvps)
      → length (sess_text cx.sess cx.env.host) < max_session_id_len
      → FitsAll (code_of c) (head_list cx no_avp)
      → Spells cx.env.ops laws (code_of c) l k
      → Spells cx.env.ops laws
          (code_of c)
          (head_of cx cx.env.host cx.env.realm ++ l)
          (head_list cx k)
  unfolding Same Spells Fits head_of sess_id_avp app_id_func_avp encode_item
  head-Spells l k short (h1, (h2, (h3, (h4, (h5, _))))) s =
      let w = plain-Writes cx.env.ops laws (code_of c) in
      let text = sess_text cx.sess cx.env.host in
      let (same, fits) = sess-Same c text in
      let (same_id, fits_id) = app_id-Same c in
      (
        subst (Writes _) (sym same)
            (session_id_func-Writes cx.env.ops laws cx.sess cx.env.host short (fits h1)),
        (
          subst (Writes _) (sym same_id)
              (app_id-Writes cx.env.ops laws app_id_cx vendor_3gpp (fits_id h2)),
          (
            w (enc_avp 277 (num 1)) h3,
            (w (enc_avp 264 (pl cx.env.host)) h4, (w (enc_avp 296 (pl cx.env.realm)) h5, s)),
          ),
        ),
      )
