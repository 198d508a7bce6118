-- ===== src/Wire/Flags.antt =====
-- `diaMsg_updateCmdFlagR`, `…P`, `…E`, `…T` and `diaMsg_updateCmdFlag` (common/src/diaMsg.c), on a
-- buffer that is not null. None of them returns a value, though their type has one. `none` is a
-- write outside the allocation.
use Prim.Native.Nat.{bit_and, bit_or}
use diameter.Common.{
  ℕ, ◌+◌, ◌*◌, ◌/◌, ◌%◌, ◌<◌, ◌≡◌, refl, ap, ◌∙◌, arith, Bool, true, false, Option, none, some,
  ◌==◌, ==_iff, leb, ◌>>=◌, if◌then◌else◌, each_byte, each_byte-true, [], ◌∷◌,
}
use diameter.Wire.Words.{htobe32, word4}
use diameter.Wire.Buf.{MBuf, put}
use diameter.Wire.Header.{MsgHdr, decode_hdr, word_at}

abbrev pub set_flag : ℕ → MBuf → Option MBuf
unfolding put
set_flag flag b =
    if leb 5 b.size
    then some (record { mem = put b.mem 4 (flag ∷ []); pos = b.pos; end = b.end; size = b.size })
    else none

unfoldable pub update_cmd_flag_r : MBuf → Bool → Option MBuf
update_cmd_flag_r b is_set =
    set_flag (if is_set then bit_or (b.mem 4) 0x80 else bit_and (b.mem 4) 0x7f) b

unfoldable pub update_cmd_flag_p : MBuf → Bool → Option MBuf
update_cmd_flag_p b is_set =
    set_flag (if is_set then bit_or (b.mem 4) 0x40 else bit_and (b.mem 4) 0xbf) b

unfoldable pub update_cmd_flag_e : MBuf → Bool → Option MBuf
update_cmd_flag_e b is_set =
    set_flag (if is_set then bit_or (b.mem 4) 0x20 else bit_and (b.mem 4) 0xdf) b

unfoldable pub update_cmd_flag_t : MBuf → Bool → Option MBuf
update_cmd_flag_t b is_set =
    set_flag (if is_set then bit_or (b.mem 4) 0x10 else bit_and (b.mem 4) 0xef) b

unfoldable pub update_cmd_flag : MBuf → ℕ → Option MBuf
update_cmd_flag b flag = set_flag flag b

-- The bit of weight `w` set to one or to zero, the others kept.
abbrev pub with_bit : ℕ → Bool → ℕ → ℕ
with_bit w is_set f = f / (2 * w) * (2 * w) + (if is_set then w else 0) + f % w

abbrev pub with_flag : MsgHdr → ℕ → MsgHdr
with_flag h flag = record {
  cmd_code = h.cmd_code;
  cmd_flag = flag;
  len = h.len;
  app_id = h.app_id;
  h2h_id = h.h2h_id;
  e2e_id = h.e2e_id;
}

-- The header that the decoder reads.
abbrev pub hdr_of : MBuf → Option MsgHdr
hdr_of b = decode_hdr b >>= λ r. some (r.0)

cmd_kept :
    (m : ℕ → ℕ) (f : ℕ)
    → m 4 < 256
    → f < 256
    → htobe32 (word4 f (m 5) (m 6) (m 7)) % 0x100_0000 ≡ word_at m 4 % 0x100_0000
unfolding htobe32 word4
cmd_kept m f h g = omega arith

set_flag-hdr_of :
    (b : MBuf) (f : ℕ)
    → b.mem 4 < 256
    → f < 256
    → (set_flag f b >>= hdr_of) ≡ (hdr_of b >>= λ h. some (with_flag h f))
unfolding decode_hdr put
set_flag-hdr_of b f o lt = ground (arith, cmd_kept b.mem f o lt)

set_80 : (f : ℕ) → f < 256 → bit_or f 0x80 ≡ with_bit 0x80 true f
unfolding each_byte
set_80 f h =
    (==_iff _ _).0 (each_byte-true (λ f. bit_or f 0x80 == with_bit 0x80 true f) 256 f h refl)

clear_80 : (f : ℕ) → f < 256 → bit_and f 0x7f ≡ with_bit 0x80 false f
unfolding each_byte
clear_80 f h =
    (==_iff _ _).0 (each_byte-true (λ f. bit_and f 0x7f == with_bit 0x80 false f) 256 f h refl)

set_40 : (f : ℕ) → f < 256 → bit_or f 0x40 ≡ with_bit 0x40 true f
unfolding each_byte
set_40 f h =
    (==_iff _ _).0 (each_byte-true (λ f. bit_or f 0x40 == with_bit 0x40 true f) 256 f h refl)

clear_40 : (f : ℕ) → f < 256 → bit_and f 0xbf ≡ with_bit 0x40 false f
unfolding each_byte
clear_40 f h =
    (==_iff _ _).0 (each_byte-true (λ f. bit_and f 0xbf == with_bit 0x40 false f) 256 f h refl)

set_20 : (f : ℕ) → f < 256 → bit_or f 0x20 ≡ with_bit 0x20 true f
unfolding each_byte
set_20 f h =
    (==_iff _ _).0 (each_byte-true (λ f. bit_or f 0x20 == with_bit 0x20 true f) 256 f h refl)

clear_20 : (f : ℕ) → f < 256 → bit_and f 0xdf ≡ with_bit 0x20 false f
unfolding each_byte
clear_20 f h =
    (==_iff _ _).0 (each_byte-true (λ f. bit_and f 0xdf == with_bit 0x20 false f) 256 f h refl)

set_10 : (f : ℕ) → f < 256 → bit_or f 0x10 ≡ with_bit 0x10 true f
unfolding each_byte
set_10 f h =
    (==_iff _ _).0 (each_byte-true (λ f. bit_or f 0x10 == with_bit 0x10 true f) 256 f h refl)

clear_10 : (f : ℕ) → f < 256 → bit_and f 0xef ≡ with_bit 0x10 false f
unfolding each_byte
clear_10 f h =
    (==_iff _ _).0 (each_byte-true (λ f. bit_and f 0xef == with_bit 0x10 false f) 256 f h refl)

-- What a switch between setting and clearing one bit does.
switch-hdr_of :
    (w on off : ℕ) (b : MBuf)
    → b.mem 4 < 256
    → w < 256
    → on ≡ with_bit w true (b.mem 4)
    → off ≡ with_bit w false (b.mem 4)
    → (is_set : Bool) → with_bit w is_set (b.mem 4) < 256
    → (set_flag (if is_set then on else off) b >>= hdr_of)
      ≡ (hdr_of b >>= λ h. some (with_flag h (with_bit w is_set h.cmd_flag)))
unfolding decode_hdr
switch-hdr_of w on off b h k p q true lt =
    ap (λ f. set_flag f b >>= hdr_of) p ∙ set_flag-hdr_of b _ h lt ∙ ground arith
switch-hdr_of w on off b h k p q false lt =
    ap (λ f. set_flag f b >>= hdr_of) q ∙ set_flag-hdr_of b _ h lt ∙ ground arith

with_bit-lt :
    (is_set : Bool) (f : ℕ)
    → f < 256
    → (with_bit 0x80 is_set f < 256)
      × (with_bit 0x40 is_set f < 256)
      × (with_bit 0x20 is_set f < 256)
      × (with_bit 0x10 is_set f < 256)
with_bit-lt true f h = (omega arith, omega arith, omega arith, omega arith)
with_bit-lt false f h = (omega arith, omega arith, omega arith, omega arith)

-- After an update of the R, P, E or T flag the decoder reads the header as before, but for that one
-- bit, which is as asked, and after an update of the whole byte for that byte; where it reads none
-- before, it reads none after. The flag byte and the new one are bytes.
pub updates-hdr_of :
    (b : MBuf) (is_set : Bool) (flag : ℕ)
    → b.mem 4 < 256
    → flag < 256
    → ((update_cmd_flag_r b is_set >>= hdr_of)
        ≡ (hdr_of b >>= λ h. some (with_flag h (with_bit 0x80 is_set h.cmd_flag))))
      × ((update_cmd_flag_p b is_set >>= hdr_of)
          ≡ (hdr_of b >>= λ h. some (with_flag h (with_bit 0x40 is_set h.cmd_flag))))
      × ((update_cmd_flag_e b is_set >>= hdr_of)
          ≡ (hdr_of b >>= λ h. some (with_flag h (with_bit 0x20 is_set h.cmd_flag))))
      × ((update_cmd_flag_t b is_set >>= hdr_of)
          ≡ (hdr_of b >>= λ h. some (with_flag h (with_bit 0x10 is_set h.cmd_flag))))
      × ((update_cmd_flag b flag >>= hdr_of) ≡ (hdr_of b >>= λ h. some (with_flag h flag)))
unfolding update_cmd_flag_r update_cmd_flag_p update_cmd_flag_e update_cmd_flag_t update_cmd_flag
updates-hdr_of b s flag h k = (
  switch-hdr_of 0x80 _ _ b h (omega arith) (set_80 _ h) (clear_80 _ h) s (with_bit-lt s _ h).0,
  switch-hdr_of 0x40 _ _ b h (omega arith) (set_40 _ h) (clear_40 _ h) s (with_bit-lt s _ h).1,
  switch-hdr_of 0x20 _ _ b h (omega arith) (set_20 _ h) (clear_20 _ h) s (with_bit-lt s _ h).2,
  switch-hdr_of 0x10 _ _ b h (omega arith) (set_10 _ h) (clear_10 _ h) s (with_bit-lt s _ h).3,
  set_flag-hdr_of b flag h k,
)
