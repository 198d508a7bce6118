-- ===== src/Wire/MessageWritten.antt =====
-- The bytes that `diaMsg_encode` writes (common/src/diaMsg.c).
use diameter.Common.{
  ℕ, ◌+◌, ◌<◌, ◌≤◌, ◌≡◌, refl, ap, ◌∙◌, arith, some, length, length-append, List, [], ◌∷◌, ◌++◌,
  ◌>>=◌,
}
use diameter.Msg.{CmdHdrInfo}
use diameter.Wire.Words.{be3, be4}
use diameter.Wire.Buf.{
  MBuf, BufOps, BufLaws, Wrote, Wrote-append, Wrote-nothing, put, put-ext, put-before,
}
use diameter.Wire.Header.{Source, at, hdr_ids, write_hdr, encode_hdr}
use diameter.Wire.HeaderBytes.{hdr_bytes, write_hdr-Wrote}
use diameter.Wire.Encode.{EncAvps, no_avp, add_avp}
use diameter.Wire.Shape.{wire, wire_all, Fits, FitsAll}
use diameter.Wire.Written.{Encodes, encode_avp-wire}
use diameter.Wire.Message.{MsgAvp, plain, encode_list, on_ok, with_hdr, MsgOut, encode_msg}

abbrev pub list_of : EncAvps → List MsgAvp
list_of no_avp = []
list_of (add_avp a l) = plain a ∷ list_of l

-- The bytes of a message: the header with the length of all, then the AVPs in order.
abbrev pub msg_bytes : ℕ → ℕ → ℕ → CmdHdrInfo → EncAvps → List ℕ
unfolding be3 be4
msg_bytes flag cmd app_id ids l =
    hdr_bytes flag cmd (20 + length (wire_all cmd l)) app_id ids ++ wire_all cmd l

module _ (o : BufOps) (laws : BufLaws o) where
  pub encode_list-wire :
      (cmd : ℕ) (l : EncAvps) (b : MBuf)
      → FitsAll cmd l
      → b.pos + length (wire_all cmd l) ≤ b.size
      → Encodes (encode_list o cmd (list_of l) b) b (wire_all cmd l)
  unfolding encode_list wire Fits
  encode_list-wire cmd no_avp b h room = (b, refl, Wrote-nothing b)
  encode_list-wire cmd (add_avp a l) b h room =
      let r =
        encode_avp-wire o laws cmd a b (h.0)
          (omega (arith, length-append (wire cmd a) (wire_all cmd l))) in
      let q =
        encode_list-wire cmd l (r.0) (h.1)
          (omega (arith, r.2.pos_at, r.2.size_at, length-append (wire cmd a) (wire_all cmd l))) in
      (
        q.0,
        ap (λ m. m >>= on_ok (encode_list o cmd (list_of l))) (r.1) ∙ q.1,
        Wrote-append (r.2) (q.2),
      )

  -- The same for any list that writes the bytes of these AVPs.
  pub encode_msg-items :
      (s : Source) (h2h_id cmd flag app_id : ℕ) (ids : CmdHdrInfo) (items : List MsgAvp)
      (l : EncAvps) (b : MBuf)
      → flag < 256
      → 20 + length (wire_all cmd l) ≤ b.size
      → Encodes (encode_list o cmd items (at 20 b)) (at 20 b) (wire_all cmd l)
      → (out : MsgOut) × (c : MBuf) × (encode_msg o s h2h_id (some b) cmd flag app_id items ids
          ≡ some out)
        × (out.msg ≡ some c)
        × (out.hdr_info ≡ hdr_ids s h2h_id flag ids)
        × Wrote (at 0 b) (msg_bytes flag cmd app_id (hdr_ids s h2h_id flag ids) l) c
  unfolding encode_msg encode_hdr be3 be4
  encode_msg-items s h2h_id cmd flag app_id ids items l b f room r = (
    _,
    _,
    ap (λ m. m >>= with_hdr o s h2h_id cmd flag app_id ids) (r.1),
    refl,
    refl,
    record {
      mem_at = λ a.
          hw.mem_at a
          ∙ ap (λ n. put (r.0).mem 0 (hdr_bytes flag cmd n app_id used) a) (r.2.pos_at)
          ∙ put-ext (r.0).mem (put b.mem 20 (wire_all cmd l)) 0 hdr a (r.2.mem_at a)
          ∙ put-before b.mem 0 hdr (wire_all cmd l) a;
      pos_at = omega (arith, r.2.pos_at);
      size_at = hw.size_at ∙ r.2.size_at;
    },
  )
    where
      used : CmdHdrInfo
      used = hdr_ids s h2h_id flag ids

      hdr : List ℕ
      hdr = hdr_bytes flag cmd (20 + length (wire_all cmd l)) app_id used

      hw :
          Wrote
            (at 0 (r.0))
            (hdr_bytes flag cmd (r.0).pos app_id used)
            (write_hdr o flag cmd (r.0).pos app_id used (r.0))
      hw =
          write_hdr-Wrote o laws flag cmd (r.0).pos app_id used (r.0) f (omega (arith, r.2.size_at))

  -- A list of plain AVPs whose values fit their types makes a message where the bytes fit the
  -- allocation: the header with its flags, command, application, ids and whole length, then the AVPs
  -- in order. A request gets new ids, an answer keeps the given ones. The flags are a byte.
  pub encode_msg-bytes :
      (s : Source) (h2h_id cmd flag app_id : ℕ) (ids : CmdHdrInfo) (l : EncAvps) (b : MBuf)
      → flag < 256
      → FitsAll cmd l
      → 20 + length (wire_all cmd l) ≤ b.size
      → (out : MsgOut) × (c : MBuf) × (encode_msg o s h2h_id
            (some b)
            cmd
            flag
            app_id
            (list_of l)
            ids
          ≡ some out)
        × (out.msg ≡ some c)
        × (out.hdr_info ≡ hdr_ids s h2h_id flag ids)
        × Wrote (at 0 b) (msg_bytes flag cmd app_id (hdr_ids s h2h_id flag ids) l) c
  encode_msg-bytes s h2h_id cmd flag app_id ids l b f h room =
      encode_msg-items s h2h_id cmd flag app_id ids (list_of l) l b f room
        (encode_list-wire cmd l (at 20 b) h room)
