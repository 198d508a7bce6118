-- ===== src/Wire/Header.antt =====
-- `dia_encodeHdr` and `diaMsg_decodeHdr` (common/src/diaMsg.c). `none` is undefined behaviour: a read
-- outside the allocation, or of an id through a null pointer.
use diameter.Common.{
  ℕ, suc, ◌+◌, ◌*◌, ◌%◌, Bool, not, Option, none, some, ◌==◌, leb, if◌then◌else◌, bit_or, bit_and,
}
use diameter.Msg.{CmdHdrInfo, OsStatus, status_ok, null_pointer}
use diameter.Wire.Words.{u32, htobe32, word4}
use diameter.Wire.Buf.{MBuf, BufOps}

-- `diaMgr_getInitH2hId`, the seconds of the clock and the value of `rand`.
pub record Source : Type 0 where
  pub init_h2h_id : ℕ
  pub tv_sec : ℕ
  pub rand_value : ℕ

abbrev pub cmd_flag_request : ℕ
cmd_flag_request = 0x80

abbrev pub is_req : ℕ → Bool
is_req flag = not (bit_and flag cmd_flag_request == 0)

abbrev pub at : ℕ → MBuf → MBuf
at p b = record { mem = b.mem; pos = p; end = b.end; size = b.size }

-- A field of 24 bits under a byte.
abbrev pub flag_word : ℕ → ℕ → ℕ
flag_word flag n = bit_or (flag * 0x100_0000) (n % 0x100_0000)

abbrev pub write_be32 : BufOps → ℕ → MBuf → MBuf
write_be32 o v b = o.write_u32 b (htobe32 v)

-- The static `h2hId` after a request has taken its id: it starts from the initial value.
abbrev pub next_h2h_id : Source → ℕ → ℕ
next_h2h_id s h2h_id = u32 (suc (if h2h_id == 0 then s.init_h2h_id else h2h_id))

abbrev pub new_e2e_id : Source → ℕ
new_e2e_id s = bit_or (s.tv_sec % 0x1000 * 0x10_0000) (s.rand_value % 0x10_0000)

-- What `dia_encodeHdr` returns, and leaves in the buffer, the ids and its static variable.
pub record HdrOut : Type 0 where
  pub status : OsStatus
  pub buf : MBuf
  pub hdr_info : CmdHdrInfo
  pub h2h_id : ℕ

-- A refusal leaves everything as it was.
pub data HdrResult : Type 0 where
  refused : OsStatus → HdrResult
  written : HdrOut → HdrResult

unfoldable pub write_hdr : BufOps → ℕ → ℕ → ℕ → ℕ → CmdHdrInfo → MBuf → MBuf
write_hdr o flag cmd len app_id ids b = write_be32 o ids.e2e_id (
    write_be32 o ids.h2h_id (
      write_be32 o app_id
        (write_be32 o (flag_word flag cmd) (write_be32 o (flag_word 1 len) (at 0 b)))))

-- The ids that a header gets.
abbrev pub hdr_ids : Source → ℕ → ℕ → CmdHdrInfo → CmdHdrInfo
hdr_ids s h2h_id flag ids =
    if is_req flag then record { h2h_id = next_h2h_id s h2h_id; e2e_id = new_e2e_id s } else ids

-- The buffer is not null. The static variable comes in as `h2h_id`; the pointers to the ids are both
-- null, or point into one `diaCmdHdrInfo_t`.
unfoldable pub encode_hdr :
    BufOps → Source → ℕ → MBuf → ℕ → ℕ → ℕ → ℕ → Option CmdHdrInfo → Option HdrResult
unfolding write_hdr
encode_hdr o s h2h_id b flag cmd len app_id none =
    if is_req flag then some (refused null_pointer) else none
encode_hdr o s h2h_id b flag cmd len app_id (some ids) = some (
    written (record {
      status = status_ok;
      buf = at b.pos (write_hdr o flag cmd len app_id (hdr_ids s h2h_id flag ids) b);
      hdr_info = hdr_ids s h2h_id flag ids;
      h2h_id = if is_req flag then next_h2h_id s h2h_id else h2h_id;
    }))

-- The header of `diaMsgDecoded_t`.
pub record MsgHdr : Type 0 where
  pub cmd_code : ℕ
  pub cmd_flag : ℕ
  pub len : ℕ
  pub app_id : ℕ
  pub h2h_id : ℕ
  pub e2e_id : ℕ

-- `htobe32(*(uint32_t*)&buf[i])`.
abbrev pub word_at : (ℕ → ℕ) → ℕ → ℕ
word_at m i = htobe32 (word4 (m i) (m (i + 1)) (m (i + 2)) (m (i + 3)))

unfoldable pub decode_hdr : MBuf → Option (MsgHdr × MBuf)
decode_hdr b =
    if leb 20 b.size
    then some (
      record {
        cmd_code = word_at b.mem 4 % 0x100_0000;
        cmd_flag = b.mem 4;
        len = word_at b.mem 0 % 0x100_0000;
        app_id = word_at b.mem 8;
        h2h_id = word_at b.mem 12;
        e2e_id = word_at b.mem 16;
      },
      at 20 b,
    )
    else none
