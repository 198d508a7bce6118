-- ===== src/Wire/Held.antt =====
-- Bytes that a memory holds, and what the reads of the decoder give on them.
use diameter.Common.{
  ℕ, suc, ◌+◌, ◌*◌, ◌/◌, ◌%◌, ◌<◌, ◌≤◌, ◌≡◌, refl, sym, subst, ap, ◌∙◌, arith, Bool, true, false,
  ==_refl, le→leb, if◌then◌else◌, if_true, length, List, [], ◌∷◌, ◌++◌,
}
use diameter.Msg.{str, num32, num64}
use diameter.Dict.Info.{AvpInfo}
use diameter.Wire.Words.{u32, htobe64, htobe32, word4, be3, be4, be8}
use diameter.Wire.Buf.{MBuf, Wrote, put, put-first, put-append}
use diameter.Wire.Header.{word_at}
use diameter.Wire.HeaderBytes.{word_at-be4, word_at-flag, mod_small}
use diameter.Wire.Encode.{is_vendor, hdr_len}
use diameter.Wire.Shape.{avp_hdr}
use diameter.Wire.Decode.{
  Run, done, ◌>>>◌, within, AvpHdr, read_avp_hdr, read_bytes, read_pl, read_32, read_64, host_64,
  value_len,
}

unfoldable pub Holds : (ℕ → ℕ) → ℕ → List ℕ → Type 0
Holds m p [] = Unit {0}
Holds m p (x ∷ l) = (m p ≡ x) × Holds m (suc p) l

pub Holds-at : (m : ℕ → ℕ) (l : List ℕ) {p q : ℕ} → p ≡ q → Holds m p l → Holds m q l
Holds-at m l e h = subst (λ p. Holds m p l) e h

pub Holds-prefix : (m : ℕ → ℕ) (p : ℕ) (k l : List ℕ) → Holds m p (k ++ l) → Holds m p k
unfolding Holds
Holds-prefix m p [] l h = tt
Holds-prefix m p (x ∷ k) l h = (h.0, Holds-prefix m (suc p) k l (h.1))

pub Holds-suffix :
    (m : ℕ → ℕ) (p : ℕ) (k l : List ℕ) → Holds m p (k ++ l) → Holds m (p + length k) l
unfolding Holds
Holds-suffix m p [] l h = Holds-at m l (omega arith) h
Holds-suffix m p (x ∷ k) l h = Holds-at m l (omega arith) (Holds-suffix m (suc p) k l (h.1))

pub Holds-same :
    (m n : ℕ → ℕ) (p q : ℕ) (l : List ℕ)
    → ((k : ℕ) → k < length l → n (q + k) ≡ m (p + k))
    → Holds m p l
    → Holds n q l
unfolding Holds
Holds-same m n p q [] e h = tt
Holds-same m n p q (x ∷ l) e h = (
  ap n (omega arith) ∙ e 0 (omega arith) ∙ ap m (omega arith) ∙ h.0,
  Holds-same m n (suc p) (suc q) l
      (λ k lt. ap n (omega arith) ∙ e (suc k) (omega arith) ∙ ap m (omega arith)) (h.1),
)

pub put-Holds : (l : List ℕ) (p : ℕ) (m n : ℕ → ℕ) → ((a : ℕ) → m a ≡ put n p l a) → Holds m p l
unfolding Holds
put-Holds [] p m n h = tt
put-Holds (x ∷ l) p m n h = (
  h p ∙ put-first n p x l p (==_refl p),
  put-Holds l (suc p) m (put n p (x ∷ [])) (λ a.
      h a
      ∙ sym (put-append n p (x ∷ []) l a)
      ∙ ap (λ q. put (put n p (x ∷ [])) q l a) (omega arith)),
)

pub Wrote-Holds : (b c : MBuf) (l : List ℕ) → Wrote b l c → Holds c.mem b.pos l
Wrote-Holds b c l w = put-Holds l b.pos c.mem b.mem w.mem_at

pub read_bytes-Holds :
    (m : ℕ → ℕ) (p : ℕ) (l : List ℕ) → Holds m p l → read_bytes m p (length l) ≡ l
unfolding Holds read_bytes
read_bytes-Holds m p [] h = refl
read_bytes-Holds m p (x ∷ l) h = λ i. h.0 i ∷ read_bytes-Holds m (suc p) l (h.1) i

bytes_at :
    (m : ℕ → ℕ) (p v : ℕ)
    → Holds m p (be4 v)
    → (m p ≡ v / 0x100_0000 % 256)
      × (m (p + 1) ≡ v / 0x1_0000 % 256)
      × (m (p + 2) ≡ v / 256 % 256)
      × (m (p + 3) ≡ v % 256)
unfolding Holds be4
bytes_at m p v h =
    (h.0, ap m (omega arith) ∙ h.1.0, ap m (omega arith) ∙ h.1.1.0, ap m (omega arith) ∙ h.1.1.1.0)

pub word_at-Holds : (m : ℕ → ℕ) (p v : ℕ) → Holds m p (be4 v) → word_at m p ≡ u32 v
word_at-Holds m p v h = let k = bytes_at m p v h in word_at-be4 m p v (k.0) (k.1) (k.2) (k.3)

flag_word-Holds :
    (m : ℕ → ℕ) (p flag n : ℕ)
    → flag < 256
    → n < 0x100_0000
    → Holds m p (flag ∷ be3 n)
    → (m p ≡ flag) × (word_at m p % 0x100_0000 ≡ n)
unfolding Holds be3
flag_word-Holds m p flag n f lt h = (
  h.0,
  word_at-flag m p n (omega (arith, h.0)) (ap m (omega arith) ∙ h.1.0)
        (ap m (omega arith) ∙ h.1.1.0) (ap m (omega arith) ∙ h.1.1.1.0)
      ∙ mod_small n 0x100_0000 lt,
)

-- The header that the decoder makes of the layout.
abbrev pub hdr_of : ℕ → AvpInfo → ℕ → AvpHdr
hdr_of code i len = record {
  code = code;
  flag = i.flag;
  len = len;
  vendor_id = if is_vendor i.flag then u32 i.vendor_id else 0xffff_ffff;
}

pub within-done : (b : MBuf) (p : ℕ) → p ≤ b.size → within b p ≡ done tt
within-done b p h = if_true _ _ (le→leb p b.size h)

pub read_avp_hdr-Holds :
    (code len : ℕ) (i : AvpInfo) (b : MBuf)
    → code < 0x1_0000_0000
    → i.flag < 256
    → len < 0x100_0000
    → b.pos + hdr_len i.flag ≤ b.size
    → Holds b.mem b.pos (avp_hdr code i len)
    → read_avp_hdr b ≡ done (hdr_of code i len)
unfolding read_avp_hdr be4 be3
read_avp_hdr-Holds code len i b c f l room h =
    ap at_flag (fw.0)
    ∙ ap (λ r. r >>> λ _. fields i.flag) (within-done b (b.pos + hdr_len i.flag) room)
    ∙ λ j. done (record {
      code =
          (word_at-Holds b.mem b.pos code (Holds-prefix b.mem b.pos (be4 code) _ h)
              ∙ mod_small code 0x1_0000_0000 c)
            j;
      flag = i.flag;
      len = fw.1 j;
      vendor_id =
          by_vendor (is_vendor i.flag) (Holds-suffix b.mem (b.pos + 4) (i.flag ∷ be3 len) _ rest) j;
    })
  where
    fields : ℕ → Run AvpHdr
    fields flag = done (record {
      code = word_at b.mem b.pos;
      flag = flag;
      len = word_at b.mem (b.pos + 4) % 0x100_0000;
      vendor_id = if is_vendor flag then word_at b.mem (b.pos + 8) else 0xffff_ffff;
    })

    at_flag : ℕ → Run AvpHdr
    at_flag flag = within b (b.pos + hdr_len flag) >>> λ _. fields flag

    rest :
        Holds b.mem
          (b.pos + 4)
          ((i.flag ∷ be3 len) ++ (if is_vendor i.flag then be4 i.vendor_id else []))
    rest = Holds-suffix b.mem b.pos (be4 code) _ h

    fw : (b.mem (b.pos + 4) ≡ i.flag) × (word_at b.mem (b.pos + 4) % 0x100_0000 ≡ len)
    fw =
        flag_word-Holds b.mem (b.pos + 4) i.flag len f l
          (Holds-prefix b.mem (b.pos + 4) (i.flag ∷ be3 len) _ rest)

    by_vendor :
        (t : Bool)
        → Holds b.mem (b.pos + 4 + 4) (if t then be4 i.vendor_id else [])
        → (if t then word_at b.mem (b.pos + 8) else 0xffff_ffff)
          ≡ (if t then u32 i.vendor_id else 0xffff_ffff)
    by_vendor true k =
        word_at-Holds b.mem (b.pos + 8) i.vendor_id
          (Holds-at b.mem (be4 i.vendor_id) (omega arith) k)
    by_vendor false k = refl

word4-lt :
    (m : ℕ → ℕ) (p v : ℕ)
    → Holds m p (be4 v)
    → word4 (m p) (m (p + 1)) (m (p + 2)) (m (p + 3)) < 0x1_0000_0000
unfolding word4
word4-lt m p v h = let k = bytes_at m p v h in omega (arith, k.0, k.1, k.2, k.3)

htobe64-halves :
    (a b : ℕ)
    → a < 0x1_0000_0000
    → b < 0x1_0000_0000
    → htobe64 (a + b * 0x1_0000_0000) ≡ htobe32 a * 0x1_0000_0000 + htobe32 b
unfolding htobe64
htobe64-halves a b h k = λ i. htobe32 (low i) * 0x1_0000_0000 + htobe32 (high i)
  where
    low : u32 (a + b * 0x1_0000_0000) ≡ a
    low = omega arith

    high : (a + b * 0x1_0000_0000) / 0x1_0000_0000 % 0x1_0000_0000 ≡ b
    high = omega arith

htobe64-Holds :
    (m : ℕ → ℕ) (p v : ℕ) → Holds m p (be8 v) → htobe64 (host_64 m p) ≡ v % 0x1_0000_0000_0000_0000
unfolding be8 be4
htobe64-Holds m p v h =
    htobe64-halves _ _ (word4-lt m p _ first) (word4-lt m (p + 4) _ second)
    ∙ omega (arith, word_at-Holds m p _ first, word_at-Holds m (p + 4) _ second)
  where
    first : Holds m p (be4 (v / 0x1_0000_0000 % 0x1_0000_0000))
    first = Holds-prefix m p (be4 (v / 0x1_0000_0000 % 0x1_0000_0000)) (be4 (u32 v)) h

    second : Holds m (p + 4) (be4 (u32 v))
    second = Holds-suffix m p (be4 (v / 0x1_0000_0000 % 0x1_0000_0000)) (be4 (u32 v)) h

-- The values, at the position where the decoder reads them.
pub read_32-Holds :
    (b : MBuf) (p v : ℕ)
    → p + 4 ≤ b.size
    → Holds b.mem p (be4 v)
    → read_32 b p ≡ done (num32 (u32 v))
read_32-Holds b p v room h =
    ap (λ r. r >>> λ _. done (num32 (word_at b.mem p))) (within-done b (p + 4) room)
    ∙ ap (λ w. done (num32 w)) (word_at-Holds b.mem p v h)

pub read_64-Holds :
    (b : MBuf) (p v : ℕ)
    → p + 8 ≤ b.size
    → Holds b.mem p (be8 v)
    → read_64 b p ≡ done (num64 (v % 0x1_0000_0000_0000_0000))
read_64-Holds b p v room h =
    ap (λ r. r >>> λ _. done (num64 (htobe64 (host_64 b.mem p)))) (within-done b (p + 8) room)
    ∙ ap (λ w. done (num64 w)) (htobe64-Holds b.mem p v h)

pub read_pl-Holds :
    (h : AvpHdr) (b : MBuf) (p : ℕ) (l : List ℕ)
    → value_len h ≡ length l
    → p + length l ≤ b.size
    → Holds b.mem p l
    → read_pl h b p ≡ done (str l)
read_pl-Holds h b p l e room k =
    ap (λ n. within b (p + n) >>> λ _. done (str (read_bytes b.mem p n))) e
    ∙ ap (λ r. r >>> λ _. done (str (read_bytes b.mem p (length l))))
        (within-done b (p + length l) room)
    ∙ ap (λ w. done (str w)) (read_bytes-Holds b.mem p l k)
