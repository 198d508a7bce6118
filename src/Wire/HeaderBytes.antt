-- ===== src/Wire/HeaderBytes.antt =====
-- The twenty bytes of a header, and that they are read as they were written.
use diameter.Common.{
  ℕ, ◌+◌, ◌/◌, ◌%◌, ◌≤◌, ◌<◌, ◌≡◌, refl, subst, ap, ◌∙◌, arith, Bool, true, false, some,
  if◌then◌else◌, if_true, le→leb, bit_or_24, bit_or_20, List, ◌∷◌, ◌++◌, length,
}
use diameter.Msg.{CmdHdrInfo, status_ok}
use diameter.Wire.Words.{u32, htobe32, be3, be4, word4, le4-htobe32, cons4}
use diameter.Wire.Buf.{MBuf, BufOps, BufLaws, Wrote, Wrote-append, Wrote-nothing, put}
use diameter.Wire.Header.{
  Source, is_req, next_h2h_id, at, flag_word, write_be32, write_hdr, hdr_ids, new_e2e_id,
  encode_hdr, decode_hdr, word_at, HdrOut, written,
}

be4-cong : {v w : ℕ} → v ≡ w → be4 v ≡ be4 w
be4-cong p = ap be4 p

-- The layout of RFC 6733, section 3.
abbrev pub hdr_bytes : ℕ → ℕ → ℕ → ℕ → CmdHdrInfo → List ℕ
unfolding be3 be4
hdr_bytes flag cmd len app_id ids =
    (1 ∷ be3 len) ++ (flag ∷ be3 cmd) ++ be4 app_id ++ be4 ids.h2h_id ++ be4 ids.e2e_id

pub flag_word-be4 : (flag n : ℕ) → flag < 256 → be4 (flag_word flag n) ≡ flag ∷ be3 n
unfolding be4 be3
flag_word-be4 flag n h =
    be4-cong (bit_or_24 flag (n % 0x100_0000) (omega arith))
    ∙ cons4 (omega arith) (omega arith) (omega arith) (omega arith)

module _ (o : BufOps) (laws : BufLaws o) where
  -- One more word of the network after what has been written.
  pub then_word :
      {b c : MBuf} {l : List ℕ} (v : ℕ) (k : List ℕ)
      → be4 v ≡ k
      → Wrote b l c
      → b.pos + length l + 4 ≤ b.size
      → Wrote b (l ++ k) (write_be32 o v c)
  then_word {b} {c} {l} v k e w room = Wrote-append w (
      subst (λ k'. Wrote c k' (write_be32 o v c)) (le4-htobe32 v ∙ e)
        (laws.write_u32-Wrote c (htobe32 v) (omega (arith, w.pos_at, w.size_at))))

  pub write_hdr-Wrote :
      (flag cmd len app_id : ℕ) (ids : CmdHdrInfo) (b : MBuf)
      → flag < 256
      → 20 ≤ b.size
      → Wrote (at 0 b) (hdr_bytes flag cmd len app_id ids) (write_hdr o flag cmd len app_id ids b)
  unfolding write_hdr be3 be4
  write_hdr-Wrote flag cmd len app_id ids b f room =
      then_word ids.e2e_id _ refl
        (then_word ids.h2h_id _ refl
          (then_word app_id _ refl
            (then_word (flag_word flag cmd) _ (flag_word-be4 flag cmd f)
              (then_word (flag_word 1 len) _ (flag_word-be4 1 len (omega arith))
                (Wrote-nothing (at 0 b)) (omega arith))
              (omega arith))
            (omega arith))
          (omega arith))
        (omega arith)

pub word_at-be4 :
    (m : ℕ → ℕ) (i v : ℕ)
    → m i ≡ v / 0x100_0000 % 256
    → m (i + 1) ≡ v / 0x1_0000 % 256
    → m (i + 2) ≡ v / 256 % 256
    → m (i + 3) ≡ v % 256
    → word_at m i ≡ u32 v
unfolding htobe32 word4
word_at-be4 m i v p q r s = omega arith

pub word_at-flag :
    (m : ℕ → ℕ) (i n : ℕ)
    → m i < 256
    → m (i + 1) ≡ n / 0x1_0000 % 256
    → m (i + 2) ≡ n / 256 % 256
    → m (i + 3) ≡ n % 256
    → word_at m i % 0x100_0000 ≡ n % 0x100_0000
unfolding htobe32 word4
word_at-flag m i n o p q r = omega arith

-- What a memory that holds a header is read as.
pub decode_hdr-bytes :
    (flag cmd len app_id : ℕ) (ids : CmdHdrInfo) (m : ℕ → ℕ) (b : MBuf)
    → flag < 256
    → 20 ≤ b.size
    → ((a : ℕ) → a < 20 → b.mem a ≡ put m 0 (hdr_bytes flag cmd len app_id ids) a)
    → decode_hdr b
      ≡ some (
        record {
          cmd_code = cmd % 0x100_0000;
          cmd_flag = flag;
          len = len % 0x100_0000;
          app_id = u32 app_id;
          h2h_id = u32 ids.h2h_id;
          e2e_id = u32 ids.e2e_id;
        },
        at 20 b,
      )
unfolding decode_hdr put be3 be4
decode_hdr-bytes flag cmd len app_id ids m b f room h = if_true _ _ (le→leb 20 b.size room) ∙ λ i.
    some (
      record {
        cmd_code =
            word_at-flag b.mem 4 cmd (omega (arith, h 4 (omega arith))) (h 5 (omega arith))
              (h 6 (omega arith)) (h 7 (omega arith)) i;
        cmd_flag = h 4 (omega arith) i;
        len =
            word_at-flag b.mem 0 len (omega (arith, h 0 (omega arith))) (h 1 (omega arith))
              (h 2 (omega arith)) (h 3 (omega arith)) i;
        app_id =
            word_at-be4 b.mem 8 app_id (h 8 (omega arith)) (h 9 (omega arith)) (h 10 (omega arith))
              (h 11 (omega arith)) i;
        h2h_id =
            word_at-be4 b.mem 12 ids.h2h_id (h 12 (omega arith)) (h 13 (omega arith))
              (h 14 (omega arith)) (h 15 (omega arith)) i;
        e2e_id =
            word_at-be4 b.mem 16 ids.e2e_id (h 16 (omega arith)) (h 17 (omega arith))
              (h 18 (omega arith)) (h 19 (omega arith)) i;
      },
      at 20 b,
    )

new_e2e_id-lt : (s : Source) → new_e2e_id s < 0x1_0000_0000
new_e2e_id-lt s =
    omega (arith, bit_or_20 (s.tv_sec % 0x1000) (s.rand_value % 0x10_0000) (omega arith))

pick-lt :
    (t : Bool) (x y : CmdHdrInfo)
    → x.h2h_id < 0x1_0000_0000
    → x.e2e_id < 0x1_0000_0000
    → y.h2h_id < 0x1_0000_0000
    → y.e2e_id < 0x1_0000_0000
    → ((if t then x else y).h2h_id < 0x1_0000_0000) × ((if t then x else y).e2e_id < 0x1_0000_0000)
pick-lt true x y p q r s = (p, q)
pick-lt false x y p q r s = (r, s)

pub hdr_ids-lt :
    (s : Source) (h2h_id flag : ℕ) (ids : CmdHdrInfo)
    → ids.h2h_id < 0x1_0000_0000
    → ids.e2e_id < 0x1_0000_0000
    → ((hdr_ids s h2h_id flag ids).h2h_id < 0x1_0000_0000)
      × ((hdr_ids s h2h_id flag ids).e2e_id < 0x1_0000_0000)
hdr_ids-lt s h2h_id flag ids h e =
    pick-lt (is_req flag) (record { h2h_id = next_h2h_id s h2h_id; e2e_id = new_e2e_id s }) ids
      (omega arith) (new_e2e_id-lt s) h e

pub mod_small : (a n : ℕ) → a < n → a % n ≡ a
mod_small a n h = grind arith

-- A header that is written where the twenty bytes fit is read back as it was given, with new ids for
-- a request and the given ids for an answer; the position stays. The command and the length are
-- below 2^24, the flags a byte, the other words below 2^32.
pub decode_hdr-encode_hdr :
    (o : BufOps) (laws : BufLaws o) (s : Source) (h2h_id flag cmd len app_id : ℕ) (ids : CmdHdrInfo)
    (b : MBuf)
    → flag < 256
    → cmd < 0x100_0000
    → len < 0x100_0000
    → app_id < 0x1_0000_0000
    → ids.h2h_id < 0x1_0000_0000
    → ids.e2e_id < 0x1_0000_0000
    → 20 ≤ b.size
    → (out : HdrOut) × (encode_hdr o s h2h_id b flag cmd len app_id (some ids) ≡ some (written out))
      × (out.status ≡ status_ok)
      × (out.hdr_info ≡ hdr_ids s h2h_id flag ids)
      × (out.buf.pos ≡ b.pos)
      × (decode_hdr out.buf
          ≡ some (
            record {
              cmd_code = cmd;
              cmd_flag = flag;
              len = len;
              app_id = app_id;
              h2h_id = out.hdr_info.h2h_id;
              e2e_id = out.hdr_info.e2e_id;
            },
            at 20 out.buf,
          ))
unfolding encode_hdr
decode_hdr-encode_hdr o laws s h2h_id flag cmd len app_id ids b f hc hl ha hh he room = (
  _,
  refl,
  refl,
  refl,
  refl,
  decode_hdr-bytes flag cmd len app_id used b.mem (at b.pos c) f size_ok (λ a _. w.mem_at a) ∙ λ i.
      some (
        record {
          cmd_code = mod_small cmd 0x100_0000 hc i;
          cmd_flag = flag;
          len = mod_small len 0x100_0000 hl i;
          app_id = mod_small app_id 0x1_0000_0000 ha i;
          h2h_id = mod_small used.h2h_id 0x1_0000_0000 (hdr_ids-lt s h2h_id flag ids hh he).0 i;
          e2e_id = mod_small used.e2e_id 0x1_0000_0000 (hdr_ids-lt s h2h_id flag ids hh he).1 i;
        },
        at 20 c,
      ),
)
  where
    used : CmdHdrInfo
    used = hdr_ids s h2h_id flag ids

    c : MBuf
    c = write_hdr o flag cmd len app_id used b

    w : Wrote (at 0 b) (hdr_bytes flag cmd len app_id used) c
    w = write_hdr-Wrote o laws flag cmd len app_id used b f room

    size_ok : 20 ≤ c.size
    size_ok = omega (arith, w.size_at)
