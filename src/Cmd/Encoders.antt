-- ===== src/Cmd/Encoders.antt =====
-- common/src/diaCommonAvpEncode.c: the encoders that a list of AVPs names as functions. The buffer and
-- the argument are not null; `none` is undefined behaviour.
use diameter.Common.{
  ℕ, suc, ◌%◌, Option, none, some, ltb, ◌==◌, if◌then◌else◌, length, List, [], ◌∷◌, ◌>>=◌,
}
use diameter.Msg.{OsStatus, status_ok, null_pointer, invalid_value}
use diameter.Wire.Words.{u32}
use diameter.Wire.Buf.{MBuf, BufOps}
use diameter.Wire.Encode.{EncAvp, enc_avp, num, pl, grouped, no_avp, add_avp, encode_avp}

abbrev pub max_session_id_len : ℕ
max_session_id_len = 200

-- What `diaAvp_encodeSessionId` reads besides its argument: the clock, the static counter, and the
-- text that `osPrintf_buffer` makes of the host, the two times and the counter.
pub record SessSource : Type 0 where
  pub tv_sec : ℕ
  pub tv_nsec : ℕ
  pub optional_value : ℕ
  pub print : List ℕ → ℕ → ℕ → ℕ → List ℕ

-- The text has the counter after its increment.
abbrev pub sess_text : SessSource → List ℕ → List ℕ
sess_text s host = s.print host s.tv_sec s.tv_nsec (u32 (suc s.optional_value))

-- The status, the buffer, the session id, where one is set, and the counter.
pub record SessOut : Type 0 where
  pub status : OsStatus
  pub buf : MBuf
  pub sess_id : Option (List ℕ)
  pub optional_value : ℕ

abbrev pub sess_failed : OsStatus → ℕ → MBuf → SessOut
sess_failed e value b = record { status = e; buf = b; sess_id = none; optional_value = value }

abbrev pub sess_written : List ℕ → ℕ → OsStatus × MBuf → Option SessOut
sess_written text value (st, b) =
    some (record { status = st; buf = b; sess_id = some text; optional_value = value })

-- The host may be null.
unfoldable pub encode_session_id : BufOps → SessSource → Option (List ℕ) → MBuf → Option SessOut
unfolding encode_avp
encode_session_id o s none b = some (
    if b.pos % 4 == 0
    then sess_failed null_pointer s.optional_value b
    else sess_failed invalid_value s.optional_value b)
encode_session_id o s (some host) b =
    if b.pos % 4 == 0
    then (if ltb (length (sess_text s host)) max_session_id_len
        then (encode_avp o 0 (enc_avp 263 (pl (sess_text s host))) b
            >>= sess_written (sess_text s host) (u32 (suc s.optional_value)))
        else some (sess_failed invalid_value (u32 (suc s.optional_value)) b))
    else some (sess_failed invalid_value s.optional_value b)

-- As the list of the message calls it.
unfoldable pub session_id_func : BufOps → SessSource → List ℕ → MBuf → Option (OsStatus × MBuf)
unfolding encode_session_id
session_id_func o s host b = encode_session_id o s (some host) b >>= λ r. some (r.status, r.buf)

-- An entry of `fl` in `diaAvp_supportedFeature_t`.
pub record Feature : Type 0 where
  pub vendor_id : ℕ
  pub feature_list_id : ℕ
  pub feature_list : ℕ

abbrev pub feature_avp : Feature → EncAvp
feature_avp f = enc_avp 628 (
    grouped (
      add_avp (enc_avp 266 (num f.vendor_id)) (
        add_avp (enc_avp 629 (num f.feature_list_id))
          (add_avp (enc_avp 630 (num f.feature_list)) no_avp))))

-- The loop does not look at the status.
unfoldable pub encode_features : BufOps → List Feature → OsStatus → MBuf → Option (OsStatus × MBuf)
unfolding encode_avp
encode_features o [] st b = some (st, b)
encode_features o (f ∷ fl) st b =
    encode_avp o 300 (feature_avp f) b >>= λ r. encode_features o fl (r.0) (r.1)

unfoldable pub encode_supported_feature : BufOps → List Feature → MBuf → Option (OsStatus × MBuf)
unfolding encode_features
encode_supported_feature o fl b =
    if b.pos % 4 == 0 then encode_features o fl status_ok b else some (invalid_value, b)

abbrev pub app_id_avp : ℕ → ℕ → EncAvp
app_id_avp auth_app_id vendor =
    enc_avp 260 (
      grouped (add_avp (enc_avp 258 (num auth_app_id)) (add_avp (enc_avp 266 (num vendor)) no_avp)))

unfoldable pub encode_vendor_specific_app_id : BufOps → ℕ → ℕ → MBuf → Option (OsStatus × MBuf)
unfolding encode_avp
encode_vendor_specific_app_id o auth_app_id vendor b =
    if b.pos % 4 == 0
    then encode_avp o 0 (app_id_avp auth_app_id vendor) b
    else some (invalid_value, b)
