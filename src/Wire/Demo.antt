-- ===== src/Wire/Demo.antt =====
-- A buffer library in the sense of `BufLaws`, and a message, for the tests.
use diameter.Common.{ℕ, ◌+◌, refl, length, replicate, List, [], ◌∷◌}
use diameter.Msg.{CmdHdrInfo}
use diameter.Wire.Words.{le4, le8}
use diameter.Wire.Buf.{MBuf, BufOps, BufLaws, put, Wrote}
use diameter.Wire.Header.{Source}
use diameter.Wire.Encode.{EncAvp, EncAvps, enc_avp, num, pl, grouped, no_avp, add_avp}

abbrev pub written_at : MBuf → List ℕ → MBuf
unfolding put
written_at b l = record {
  mem = put b.mem b.pos l;
  pos = b.pos + length l;
  end = b.end;
  size = b.size;
}

abbrev pub ops : BufOps
unfolding le4 le8
ops = record {
  write_u32 = λ b v. written_at b (le4 v);
  write_u64 = λ b v. written_at b (le8 v);
  write_pl = λ b l. written_at b l;
  set_zero = λ b n. written_at b (replicate n 0);
  alloc_ref2 = λ b p n. record { mem = b.mem; pos = p; end = p + n; size = b.size };
}

written_at-Wrote : (b : MBuf) (l : List ℕ) → Wrote b l (written_at b l)
unfolding put written_at
written_at-Wrote b l = record { mem_at = λ a. refl; pos_at = refl; size_at = refl }

pub ops-BufLaws : BufLaws ops
unfolding ops written_at
ops-BufLaws = record {
  write_u32-Wrote = λ b v h. written_at-Wrote b (le4 v);
  write_u64-Wrote = λ b v h. written_at-Wrote b (le8 v);
  write_pl-Wrote = λ b l h. written_at-Wrote b l;
  set_zero-Wrote = λ b n h. written_at-Wrote b (replicate n 0);
  alloc_ref2-Refers =
      λ b p n al fit. record { same = λ k lt. refl; aligned = al; end_at = refl; fits = fit };
}

abbrev pub clock : Source
clock = record { init_h2h_id = 7; tv_sec = 1000; rand_value = 12345 }

abbrev pub blank : MBuf
blank = record { mem = λ _. 0; pos = 0; end = 0; size = 4000 }

abbrev pub given_ids : CmdHdrInfo
given_ids = record { h2h_id = 17; e2e_id = 18 }

-- Vendor-Specific-Application-Id with Vendor-Id and Auth-Application-Id.
abbrev pub vsai_members : EncAvps
vsai_members = add_avp (enc_avp 266 (num 10415)) (add_avp (enc_avp 258 (num 16777216)) no_avp)

abbrev pub vsai : EncAvp
vsai = enc_avp 260 (grouped vsai_members)

-- A session id of five bytes, the group and a result code.
abbrev pub answer : EncAvps
answer =
    add_avp (enc_avp 263 (pl (104 ∷ 59 ∷ 49 ∷ 59 ∷ 50 ∷ [])))
      (add_avp vsai (add_avp (enc_avp 268 (num 2001)) no_avp))

-- An AVP of the code zero, which no table has, with the length zero.
abbrev pub stuck : MBuf
stuck = record { mem = λ _. 0; pos = 20; end = 28; size = 28 }
