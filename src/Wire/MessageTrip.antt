-- ===== src/Wire/MessageTrip.antt =====
-- A message that `diaMsg_encode` makes and `diaMsg_decode` reads (common/src/diaMsg.c).
use diameter.Common.{
  ℕ, zero, suc, ◌+◌, ◌%◌, ◌<◌, ◌≤◌, ◌≡◌, refl, sym, ap, ◌∙◌, arith, some, length, length-append,
  List, ◌++◌,
}
use diameter.Msg.{CmdHdrInfo}
use diameter.Wire.Words.{be3, be4}
use diameter.Wire.Buf.{MBuf, BufOps, BufLaws, put, put-append, put-outside}
use diameter.Wire.Header.{Source, at, hdr_ids, MsgHdr}
use diameter.Wire.HeaderBytes.{hdr_bytes, decode_hdr-bytes, hdr_ids-lt, mod_small}
use diameter.Wire.Encode.{EncAvps, no_avp, add_avp}
use diameter.Wire.Shape.{wire, wire_all, Fits, FitsAll, wire-aligned}
use diameter.Wire.Decode.{
  done, ◌>>>◌, decode_avp, decode_rest, decode_msg, decode_body, with_list, add_first, or_drop,
}
use diameter.Wire.Held.{Holds, Holds-prefix, Holds-suffix, Holds-same, put-Holds}
use diameter.Wire.Decoded.{decoded, decoded_all, cost, cost_all, length-wire-ge}
use diameter.Wire.RoundTrip.{decode_avp-wire}
use diameter.Wire.Fuel.{cost_all-le}
use diameter.Wire.Message.{MsgAvp, MsgOut, encode_list, encode_msg}
use diameter.Wire.MessageWritten.{list_of, msg_bytes, encode_list-wire, encode_msg-items}
use diameter.Wire.Written.{Encodes}

-- The bytes of a message as they are received: the content ends where it was written to.
abbrev pub received : MBuf → MBuf
received c = record { mem = c.mem; pos = c.pos; end = c.pos; size = c.size }

module _ (o : BufOps) (laws : BufLaws o) where
  rest_wire :
      (n cmd : ℕ) (l : EncAvps) (b : MBuf)
      → cost_all l ≤ n
      → FitsAll cmd l
      → Holds b.mem b.pos (wire_all cmd l)
      → b.pos % 4 ≡ 0
      → b.end ≡ b.pos + length (wire_all cmd l)
      → b.pos + length (wire_all cmd l) ≤ b.size
      → decode_rest o n cmd b ≡ done (some (decoded_all cmd l))
  unfolding decode_rest wire Fits cost decoded
  rest_wire zero cmd no_avp b e f k al en room = absurd (omega arith)
  rest_wire zero cmd (add_avp a l) b e f k al en room = absurd (omega arith)
  rest_wire (suc n) cmd no_avp b e f k al en room = ground arith
  rest_wire (suc n) cmd (add_avp a l) b e f k al en room =
      step (omega (arith, en, length-wire-ge cmd a, length-append (wire cmd a) (wire_all cmd l)))
      ∙ ap (λ r. r >>> or_drop (decode_rest o n cmd))
          (decode_avp-wire o laws n cmd a b (omega arith) (f.0)
            (Holds-prefix b.mem b.pos (wire cmd a) (wire_all cmd l) k) al
            (omega (arith, length-append (wire cmd a) (wire_all cmd l))))
      ∙ ap (λ r. r >>> add_first (decoded cmd a))
          (rest_wire n cmd l (at (b.pos + length (wire cmd a)) b) (omega arith) (f.1)
            (Holds-suffix b.mem b.pos (wire cmd a) (wire_all cmd l) k)
            (omega (arith, wire-aligned cmd a))
            (omega (arith, en, length-append (wire cmd a) (wire_all cmd l)))
            (omega (arith, length-append (wire cmd a) (wire_all cmd l))))
    where
      step :
          b.pos < b.end
          → decode_rest o (suc n) cmd b ≡ (decode_avp o n cmd b >>> or_drop (decode_rest o n cmd))
      step lt = ground arith

  -- What a buffer that holds the bytes of a message is read as.
  decode_msg-bytes :
      (n cmd flag app_id : ℕ) (ids : CmdHdrInfo) (l : EncAvps) (m : ℕ → ℕ) (b : MBuf)
      → flag < 256
      → cmd < 0x100_0000
      → FitsAll cmd l
      → b.end ≡ 20 + length (wire_all cmd l)
      → b.end ≤ b.size
      → b.end ≤ n
      → ((a : ℕ) → a < b.end → b.mem a ≡ put m 0 (msg_bytes flag cmd app_id ids l) a)
      → decode_msg o n b
        ≡ done (
            some (record {
              cmd_code = cmd;
              cmd_flag = flag;
              len = (20 + length (wire_all cmd l)) % 0x100_0000;
              app_id = app_id % 0x1_0000_0000;
              h2h_id = ids.h2h_id % 0x1_0000_0000;
              e2e_id = ids.e2e_id % 0x1_0000_0000;
              avp_list = decoded_all cmd l;
            }))
  unfolding decode_msg be3 be4
  decode_msg-bytes n cmd flag app_id ids l m b f hc h en room fuel eq =
      ap (decode_body o n) (
        decode_hdr-bytes flag cmd total app_id ids m (at 0 b) f (omega (arith, en)) (λ a lt.
          eq a (omega (arith, en))
          ∙ sym (put-append m 0 hdr (wire_all cmd l) a)
          ∙ put-outside (put m 0 hdr) 20 (wire_all cmd l) a lt))
      ∙ ap (λ r. r >>> with_list read)
          (ap (λ c. decode_rest o n c (at 20 b)) (mod_small cmd 0x100_0000 hc)
            ∙ rest_wire n cmd l (at 20 b) (omega (arith, en, cost_all-le cmd l h)) h
                (Holds-same all b.mem 20 20 (wire_all cmd l)
                  (λ k lt. eq (20 + k) (omega (arith, en)))
                  (Holds-suffix all 0 hdr (wire_all cmd l)
                    (put-Holds (hdr ++ wire_all cmd l) 0 all m (λ a. refl))))
                refl en (omega (arith, en)))
      ∙ λ i. done (
          some (record {
            cmd_code = mod_small cmd 0x100_0000 hc i;
            cmd_flag = flag;
            len = total % 0x100_0000;
            app_id = app_id % 0x1_0000_0000;
            h2h_id = ids.h2h_id % 0x1_0000_0000;
            e2e_id = ids.e2e_id % 0x1_0000_0000;
            avp_list = decoded_all cmd l;
          }))
    where
      total : ℕ
      total = 20 + length (wire_all cmd l)

      hdr : List ℕ
      hdr = hdr_bytes flag cmd total app_id ids

      all : ℕ → ℕ
      all = put m 0 (hdr ++ wire_all cmd l)

      read : MsgHdr
      read = record {
        cmd_code = cmd % 0x100_0000;
        cmd_flag = flag;
        len = total % 0x100_0000;
        app_id = app_id % 0x1_0000_0000;
        h2h_id = ids.h2h_id % 0x1_0000_0000;
        e2e_id = ids.e2e_id % 0x1_0000_0000;
      }

  -- The same for any list that writes the bytes of these AVPs.
  pub decode_msg-items :
      (n : ℕ) (s : Source) (h2h_id cmd flag app_id : ℕ) (ids : CmdHdrInfo) (items : List MsgAvp)
      (l : EncAvps) (b : MBuf)
      → flag < 256
      → cmd < 0x100_0000
      → app_id < 0x1_0000_0000
      → ids.h2h_id < 0x1_0000_0000
      → ids.e2e_id < 0x1_0000_0000
      → FitsAll cmd l
      → 20 + length (wire_all cmd l) ≤ b.size
      → 20 + length (wire_all cmd l) < 0x100_0000
      → 20 + length (wire_all cmd l) ≤ n
      → Encodes (encode_list o cmd items (at 20 b)) (at 20 b) (wire_all cmd l)
      → (out : MsgOut) × (c : MBuf) × (encode_msg o s h2h_id (some b) cmd flag app_id items ids
          ≡ some out)
        × (out.msg ≡ some c)
        × (out.hdr_info ≡ hdr_ids s h2h_id flag ids)
        × (decode_msg o n (received c)
            ≡ done (
                some (record {
                  cmd_code = cmd;
                  cmd_flag = flag;
                  len = 20 + length (wire_all cmd l);
                  app_id = app_id;
                  h2h_id = (hdr_ids s h2h_id flag ids).h2h_id;
                  e2e_id = (hdr_ids s h2h_id flag ids).e2e_id;
                  avp_list = decoded_all cmd l;
                })))
  unfolding be3 be4
  decode_msg-items n s h2h_id cmd flag app_id ids items l b f hc ha hh he h room short fuel r =
      let w = encode_msg-items o laws s h2h_id cmd flag app_id ids items l b f room r in
      let used = hdr_ids s h2h_id flag ids in
      let lt = hdr_ids-lt s h2h_id flag ids hh he in
      let at_end : (w.1).pos ≡ 20 + length (wire_all cmd l) = omega (arith, w.5.pos_at) in
      (
        w.0,
        w.1,
        w.2,
        w.3,
        w.4,
        decode_msg-bytes n cmd flag app_id used l b.mem (received (w.1)) f hc h at_end
              (omega (arith, w.5.size_at, at_end)) (omega (arith, at_end)) (λ a _. w.5.mem_at a)
            ∙ λ i. done (
                some (record {
                  cmd_code = cmd;
                  cmd_flag = flag;
                  len = mod_small (20 + length (wire_all cmd l)) 0x100_0000 short i;
                  app_id = mod_small app_id 0x1_0000_0000 ha i;
                  h2h_id = mod_small used.h2h_id 0x1_0000_0000 (lt.0) i;
                  e2e_id = mod_small used.e2e_id 0x1_0000_0000 (lt.1) i;
                  avp_list = decoded_all cmd l;
                })),
      )

  -- A message that is made of plain AVPs is read as it was given: the header with the ids it got, and
  -- the AVPs in order with the flags and vendors of the dictionary, their numbers at their width, their
  -- strings and their members, but ENUM values, which the decoder leaves unset. Fuel for as many
  -- AVPs as there are bytes is enough. The values fit their types, the message the 24 bits of its length
  -- and the allocation, the flags are a byte, the command is below 2^24 and the application and the
  -- given ids are below 2^32.
  pub decode_msg-encode_msg :
      (n : ℕ) (s : Source) (h2h_id cmd flag app_id : ℕ) (ids : CmdHdrInfo) (l : EncAvps) (b : MBuf)
      → flag < 256
      → cmd < 0x100_0000
      → app_id < 0x1_0000_0000
      → ids.h2h_id < 0x1_0000_0000
      → ids.e2e_id < 0x1_0000_0000
      → FitsAll cmd l
      → 20 + length (wire_all cmd l) ≤ b.size
      → 20 + length (wire_all cmd l) < 0x100_0000
      → 20 + length (wire_all cmd l) ≤ n
      → (out : MsgOut) × (c : MBuf) × (encode_msg o s h2h_id
            (some b)
            cmd
            flag
            app_id
            (list_of l)
            ids
          ≡ some out)
        × (out.msg ≡ some c)
        × (out.hdr_info ≡ hdr_ids s h2h_id flag ids)
        × (decode_msg o n (received c)
            ≡ done (
                some (record {
                  cmd_code = cmd;
                  cmd_flag = flag;
                  len = 20 + length (wire_all cmd l);
                  app_id = app_id;
                  h2h_id = (hdr_ids s h2h_id flag ids).h2h_id;
                  e2e_id = (hdr_ids s h2h_id flag ids).e2e_id;
                  avp_list = decoded_all cmd l;
                })))
  decode_msg-encode_msg n s h2h_id cmd flag app_id ids l b f hc ha hh he h room short fuel =
      decode_msg-items n s h2h_id cmd flag app_id ids (list_of l) l b f hc ha hh he h room short
        fuel (encode_list-wire o laws cmd l (at 20 b) h room)
