-- ===== src/Cmd/Cx/AuthItem.antt =====
-- The authentication data of the Multimedia-Auth-Request (diaCx/src/diaCxMar.c).
use diameter.Common.{◌+◌, ◌%◌, ◌≤◌, ◌≡◌, ap, ◌∙◌, none, some, if_true, length, ◌>>=◌}
use diameter.Msg.{status_ok}
use diameter.Wire.Buf.{MBuf, BufOps, BufLaws}
use diameter.Wire.Encode.{EncAvps, enc_avp, grouped}
use diameter.Wire.Shape.{wire, Fits}
use diameter.Wire.Written.{Encodes, encode_avp-wire}
use diameter.Cmd.Spelled.{is_aligned}
use diameter.Cmd.Cx.Mar.{AuthData, auth_members, encode_auth_members, encode_auth_data}

module _ (o : BufOps) (laws : BufLaws o) where
  -- A scheme that is supported writes the group with its members.
  pub encode_auth_data-wire :
      (a : AuthData) (l : EncAvps) (b : MBuf)
      → auth_members a ≡ some (some l)
      → Fits 303 (enc_avp 612 (grouped l))
      → b.pos % 4 ≡ 0
      → b.pos + length (wire 303 (enc_avp 612 (grouped l))) ≤ b.size
      → Encodes (encode_auth_data o a b) b (wire 303 (enc_avp 612 (grouped l)))
  unfolding encode_auth_data encode_auth_members
  encode_auth_data-wire a l b e fits h room =
      let r = encode_avp-wire o laws 303 (enc_avp 612 (grouped l)) b fits room in
      (r.0, if_true _ _ (is_aligned b h) ∙ ap (λ m. m >>= encode_auth_members o b) e ∙ r.1, r.2)

  -- A scheme that is not supported leaves the buffer as it is, and that is a success: the request goes
  -- out without its authentication data.
  pub encode_auth_data-unsupported :
      (a : AuthData) (b : MBuf)
      → auth_members a ≡ some none
      → b.pos % 4 ≡ 0
      → encode_auth_data o a b ≡ some (status_ok, b)
  unfolding encode_auth_data encode_auth_members
  encode_auth_data-unsupported a b e h =
      if_true _ _ (is_aligned b h) ∙ ap (λ m. m >>= encode_auth_members o b) e
