-- ===== src/Cmd/Trip.antt =====
-- A message of common/src/diaMsg.c on its way, from the list of its AVPs to the other side, and the bytes of
-- lists that are put together.
use diameter.Common.{
  ℕ, ◌+◌, ◌≤◌, ◌<◌, ◌≡◌, refl, sym, ap, ◌∙◌, Option, none, some, List, [], ◌∷◌, ◌++◌, length, ◌>>=◌,
}
use diameter.Msg.{CmdHdrInfo, MsgDecoded}
use diameter.Wire.Buf.{MBuf, BufOps, BufLaws}
use diameter.Wire.Header.{at}
use diameter.Wire.Encode.{EncAvp, EncAvps, enc_avp, pl, no_avp, add_avp}
use diameter.Wire.Shape.{wire_all, Fits, FitsAll}
use diameter.Wire.Decode.{done, decode_msg}
use diameter.Wire.Decoded.{decoded_all}
use diameter.Wire.Message.{MsgAvp, plain, MsgOut, encode_msg}
use diameter.Wire.MessageTrip.{received, decode_msg-items}
use diameter.Build.Group.{join}
use diameter.Cmd.Parts.{AvpLists}
use diameter.Cmd.Param.{Env, encode_lists}
use diameter.Cmd.Rules.{ready}
use diameter.Cmd.Spelled.{Spells, plain-Writes, encode_list-Spells}

-- The AVPs that are given.
abbrev pub opt_pl : ℕ → Option (List ℕ) → EncAvps
opt_pl code none = no_avp
opt_pl code (some l) = add_avp (enc_avp code (pl l)) no_avp

pub FitsAll-join :
    (cmd : ℕ) (k l : EncAvps) → FitsAll cmd (join k l) → FitsAll cmd k × FitsAll cmd l
unfolding Fits
FitsAll-join cmd no_avp l h = (tt, h)
FitsAll-join cmd (add_avp a k) l (h, h') = let (p, q) = FitsAll-join cmd k l h' in ((h, p), q)

module _ (o : BufOps) (laws : BufLaws o) (cmd : ℕ) where
  pub Spells-append :
      (l m : List MsgAvp) (k j : EncAvps)
      → Spells o laws cmd l k
      → Spells o laws cmd m j
      → Spells o laws cmd (l ++ m) (join k j)
  unfolding Spells
  Spells-append [] m no_avp j s t = t
  Spells-append [] m (add_avp a k) j s t = elim s [ ]
  Spells-append (x ∷ l) m no_avp j s t = elim s [ ]
  Spells-append (x ∷ l) m (add_avp a k) j (w, s) t = (w, Spells-append l m k j s t)

  -- Plain AVPs, as far as they are given.
  pub plain-Spells :
      (a : EncAvp) (l : List MsgAvp) (k : EncAvps)
      → Fits cmd a
      → Spells o laws cmd l k
      → Spells o laws cmd (plain a ∷ l) (add_avp a k)
  unfolding Spells
  plain-Spells a l k h s = (plain-Writes o laws cmd a h, s)

-- What a message with these AVPs is read as.
abbrev pub msg_of : ℕ → ℕ → ℕ → EncAvps → CmdHdrInfo → MsgDecoded
msg_of cmd flag app_id l ids = record {
  cmd_code = cmd;
  cmd_flag = flag;
  len = 20 + length (wire_all cmd l);
  app_id = app_id;
  h2h_id = ids.h2h_id;
  e2e_id = ids.e2e_id;
  avp_list = decoded_all cmd l;
}

-- What a message needs on its way: memory, ids of 32 bits, values that fit their types, and a length that
-- fits the allocation and its 24 bits.
pub record Sendable (env : Env) (cmd : ℕ) (l : EncAvps) (ids : CmdHdrInfo) (b : MBuf) : Type 0 where
  pub fresh : env.fresh ≡ some b
  pub fits : FitsAll cmd l
  pub h2h_small : ids.h2h_id < 0x1_0000_0000
  pub e2e_small : ids.e2e_id < 0x1_0000_0000
  pub room : 20 + length (wire_all cmd l) ≤ b.size
  pub short : 20 + length (wire_all cmd l) < 0x100_0000

module _ (env : Env) (laws : BufLaws env.ops) where
  pub encode_lists-msg_of :
      (n cmd flag app_id : ℕ) (ids : CmdHdrInfo) (items : List MsgAvp) (l : EncAvps) (b : MBuf)
      → flag < 256
      → cmd < 0x100_0000
      → app_id < 0x1_0000_0000
      → Sendable env cmd l ids b
      → 20 + length (wire_all cmd l) ≤ n
      → Spells env.ops laws cmd items l
      → (out : MsgOut) × (c : MBuf) × (encode_lists env cmd flag app_id ids (ready items [])
          ≡ some out)
        × (out.msg ≡ some c)
        × (decode_msg env.ops n (received c) ≡ done (some (msg_of cmd flag app_id l out.hdr_info)))
  unfolding encode_lists
  encode_lists-msg_of n cmd flag app_id ids items l b hf hc ha s fuel spelled =
      let w =
        decode_msg-items env.ops laws n env.source env.h2h_id cmd flag app_id ids items l b hf hc ha
          s.h2h_small s.e2e_small s.fits s.room s.short fuel
          (encode_list-Spells env.ops laws cmd items l spelled (at 20 b) refl s.room) in
      (
        w.0,
        w.1,
        ap (λ m. encode_msg env.ops env.source env.h2h_id m cmd flag app_id items ids) s.fresh
            ∙ w.2,
        w.3,
        w.5 ∙ λ i. done (some (msg_of cmd flag app_id l (sym (w.4) i))),
      )

  -- A builder that puts the lists together first.
  pub lists-msg_of :
      (n cmd flag app_id : ℕ) (ids : CmdHdrInfo) (lists : Option AvpLists) (items : List MsgAvp)
      (l : EncAvps) (b : MBuf)
      → flag < 256
      → cmd < 0x100_0000
      → app_id < 0x1_0000_0000
      → Sendable env cmd l ids b
      → 20 + length (wire_all cmd l) ≤ n
      → Spells env.ops laws cmd items l
      → lists ≡ some (ready items [])
      → (out : MsgOut) × (c : MBuf) × ((lists >>= encode_lists env cmd flag app_id ids >>= λ x.
            some (some x))
          ≡ some (some out))
        × (out.msg ≡ some c)
        × (decode_msg env.ops n (received c) ≡ done (some (msg_of cmd flag app_id l out.hdr_info)))
  lists-msg_of n cmd flag app_id ids lists items l b hf hc ha s fuel spelled e =
      let w = encode_lists-msg_of n cmd flag app_id ids items l b hf hc ha s fuel spelled in
      (
        w.0,
        w.1,
        ap (λ k. k >>= encode_lists env cmd flag app_id ids >>= λ x. some (some x)) e
            ∙ ap (λ k. k >>= λ x. some (some x)) (w.2),
        w.3,
        w.4,
      )
