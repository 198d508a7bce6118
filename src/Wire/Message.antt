-- ===== src/Wire/Message.antt =====
-- `diaMsg_encode` (common/src/diaMsg.c), with a list and header info that are not null.
use diameter.Common.{ℕ, Option, none, some, List, [], ◌∷◌, ◌>>=◌}
use diameter.Msg.{OsStatus, status_ok, CmdHdrInfo}
use diameter.Wire.Buf.{MBuf, BufOps}
use diameter.Wire.Header.{Source, at, HdrResult, refused, written, encode_hdr}
use diameter.Wire.Encode.{EncAvp, encode_avp}

-- `diaEncodeAvp_t` in the list of a message: a plain AVP, or the code and `avpEncodeFunc` with its
-- argument. `none` is undefined behaviour, as for the other encoders.
pub data MsgAvp : Type 0 where
  plain : EncAvp → MsgAvp
  by_func : (code : ℕ) → (MBuf → Option (OsStatus × MBuf)) → MsgAvp

unfoldable pub encode_item : BufOps → ℕ → MsgAvp → MBuf → Option (OsStatus × MBuf)
unfolding encode_avp
encode_item o cmd (plain a) b = encode_avp o cmd a b
encode_item o cmd (by_func code f) b = f b

-- The loop goes on after a success.
abbrev pub on_ok : (MBuf → Option (OsStatus × MBuf)) → OsStatus × MBuf → Option (OsStatus × MBuf)
on_ok rest (status_ok, b) = rest b
on_ok rest (last, b) = some (last, b)

unfoldable pub encode_list : BufOps → ℕ → List MsgAvp → MBuf → Option (OsStatus × MBuf)
unfolding encode_item
encode_list o cmd [] b = some (status_ok, b)
encode_list o cmd (x ∷ l) b = encode_item o cmd x b >>= on_ok (encode_list o cmd l)

-- The message, or null; the ids; the static variable of `dia_encodeHdr`.
pub record MsgOut : Type 0 where
  pub msg : Option MBuf
  pub hdr_info : CmdHdrInfo
  pub h2h_id : ℕ

-- The result of `dia_encodeHdr` is not looked at.
abbrev pub hdr_done : MBuf → CmdHdrInfo → ℕ → HdrResult → MsgOut
hdr_done b ids h2h_id (refused _) = record { msg = some b; hdr_info = ids; h2h_id = h2h_id }
hdr_done b ids h2h_id (written out) = record {
  msg = some out.buf;
  hdr_info = out.hdr_info;
  h2h_id = out.h2h_id;
}

abbrev pub with_hdr : BufOps → Source → ℕ → ℕ → ℕ → ℕ → CmdHdrInfo → OsStatus × MBuf → Option MsgOut
unfolding encode_hdr
with_hdr o s h2h_id cmd flag app_id ids (status_ok, b) =
    encode_hdr o s h2h_id b flag cmd b.pos app_id (some ids) >>= λ r. some (hdr_done b ids h2h_id r)
with_hdr o s h2h_id cmd flag app_id ids (last, b) =
    some (record { msg = none; hdr_info = ids; h2h_id = h2h_id })

-- `fresh` is what `osMBuf_alloc` gives: the null pointer, or a buffer.
unfoldable pub encode_msg :
    BufOps → Source → ℕ → Option MBuf → ℕ → ℕ → ℕ → List MsgAvp → CmdHdrInfo → Option MsgOut
unfolding encode_list encode_hdr
encode_msg o s h2h_id none cmd flag app_id l ids =
    some (record { msg = none; hdr_info = ids; h2h_id = h2h_id })
encode_msg o s h2h_id (some fresh) cmd flag app_id l ids =
    encode_list o cmd l (at 20 fresh) >>= with_hdr o s h2h_id cmd flag app_id ids
