-- ===== src/Cmd/Spelled.antt =====
-- What the encoders of common/src/diaCommonAvpEncode.c write, and lists that name them.
use diameter.Common.{
  ℕ, ◌+◌, ◌%◌, ◌≤◌, ◌<◌, ◌≡◌, refl, ap, ◌∙◌, arith, true, Option, ◌==◌, if_true, ==_iff, lt→ltb,
  List, [], ◌∷◌, length, length-append, ◌>>=◌,
}
use diameter.Msg.{OsStatus, status_ok}
use diameter.Wire.Buf.{MBuf, BufOps, BufLaws, Wrote-append, Wrote-nothing}
use diameter.Wire.Encode.{EncAvp, EncAvps, enc_avp, pl, no_avp, add_avp}
use diameter.Wire.Shape.{wire, wire_all, Fits, FitsAll, wire-aligned}
use diameter.Wire.Written.{Encodes, encode_avp-wire}
use diameter.Wire.Message.{MsgAvp, plain, encode_item, encode_list, on_ok}
use diameter.Cmd.Encoders.{
  SessSource, sess_text, max_session_id_len, encode_session_id, session_id_func, Feature,
  feature_avp, encode_features, encode_supported_feature, app_id_avp, encode_vendor_specific_app_id,
}

-- From a multiple of four on, with room, a step writes these bytes.
abbrev pub Writes : (MBuf → Option (OsStatus × MBuf)) → List ℕ → Type 0
Writes f l = (b : MBuf) → b.pos % 4 ≡ 0 → b.pos + length l ≤ b.size → Encodes (f b) b l

pub is_aligned : (b : MBuf) → b.pos % 4 ≡ 0 → (b.pos % 4 == 0) ≡ true
is_aligned b h = (==_iff (b.pos % 4) 0).1 h

module _ (o : BufOps) (laws : BufLaws o) where
  -- The encoder of the session id writes one AVP with the text, where it is shorter than 200 bytes.
  pub session_id_func-Writes :
      (s : SessSource) (host : List ℕ)
      → length (sess_text s host) < max_session_id_len
      → Fits 0 (enc_avp 263 (pl (sess_text s host)))
      → Writes (session_id_func o s host) (wire 0 (enc_avp 263 (pl (sess_text s host))))
  unfolding session_id_func encode_session_id
  session_id_func-Writes s host short fits b h room =
      let r = encode_avp-wire o laws 0 (enc_avp 263 (pl (sess_text s host))) b fits room in
      (r.0, simp (is_aligned b h, lt→ltb _ _ short, r.1), r.2)

  pub app_id-Writes :
      (app_id vendor : ℕ)
      → Fits 0 (app_id_avp app_id vendor)
      → Writes (encode_vendor_specific_app_id o app_id vendor) (wire 0 (app_id_avp app_id vendor))
  unfolding encode_vendor_specific_app_id
  app_id-Writes app_id vendor fits b h room =
      let r = encode_avp-wire o laws 0 (app_id_avp app_id vendor) b fits room in
      (r.0, if_true _ _ (is_aligned b h) ∙ r.1, r.2)

  abbrev pub feature_avps : List Feature → EncAvps
  feature_avps [] = no_avp
  feature_avps (f ∷ fl) = add_avp (feature_avp f) (feature_avps fl)

  encode_features-wire :
      (fl : List Feature) (b : MBuf)
      → FitsAll 300 (feature_avps fl)
      → b.pos + length (wire_all 300 (feature_avps fl)) ≤ b.size
      → Encodes (encode_features o fl status_ok b) b (wire_all 300 (feature_avps fl))
  unfolding encode_features wire Fits
  encode_features-wire [] b h room = (b, refl, Wrote-nothing b)
  encode_features-wire (f ∷ fl) b h room =
      let len = length-append (wire 300 (feature_avp f)) (wire_all 300 (feature_avps fl)) in
      let r = encode_avp-wire o laws 300 (feature_avp f) b (h.0) (omega (arith, len)) in
      let q = encode_features-wire fl (r.0) (h.1) (omega (arith, r.2.pos_at, r.2.size_at, len)) in
      (
        q.0,
        ap (λ m. m >>= λ x. encode_features o fl (x.0) (x.1)) (r.1) ∙ q.1,
        Wrote-append (r.2) (q.2),
      )

  -- The encoder of the features writes one group for each of them, in order.
  pub features-Writes :
      (fl : List Feature)
      → FitsAll 300 (feature_avps fl)
      → Writes (encode_supported_feature o fl) (wire_all 300 (feature_avps fl))
  unfolding encode_supported_feature
  features-Writes fl fits b h room =
      let r = encode_features-wire fl b fits room in (r.0, if_true _ _ (is_aligned b h) ∙ r.1, r.2)

  -- Each element of a list writes one AVP.
  unfoldable pub Spells : ℕ → List MsgAvp → EncAvps → Type 0
  unfolding encode_item wire
  Spells cmd [] no_avp = Unit {0}
  Spells cmd (x ∷ l) (add_avp a k) = Writes (encode_item o cmd x) (wire cmd a) × Spells cmd l k
  Spells cmd _ _ = ⊥

  pub plain-Writes :
      (cmd : ℕ) (a : EncAvp) → Fits cmd a → Writes (encode_item o cmd (plain a)) (wire cmd a)
  unfolding encode_item
  plain-Writes cmd a fits b h room = encode_avp-wire o laws cmd a b fits room

  pub encode_list-Spells :
      (cmd : ℕ) (l : List MsgAvp) (k : EncAvps)
      → Spells cmd l k
      → Writes (encode_list o cmd l) (wire_all cmd k)
  unfolding encode_list wire Spells
  encode_list-Spells cmd [] no_avp s b h room = (b, refl, Wrote-nothing b)
  encode_list-Spells cmd [] (add_avp a k) s b h room = elim s [ ]
  encode_list-Spells cmd (x ∷ l) no_avp s b h room = elim s [ ]
  encode_list-Spells cmd (x ∷ l) (add_avp a k) s b h room =
      let len = length-append (wire cmd a) (wire_all cmd k) in
      let r = s.0 b h (omega (arith, len)) in
      let q =
        encode_list-Spells cmd l k (s.1) (r.0) (omega (arith, h, r.2.pos_at, wire-aligned cmd a))
          (omega (arith, r.2.pos_at, r.2.size_at, len)) in
      (q.0, ap (λ m. m >>= on_ok (encode_list o cmd l)) (r.1) ∙ q.1, Wrote-append (r.2) (q.2))
