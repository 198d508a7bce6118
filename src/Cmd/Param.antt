-- ===== src/Cmd/Param.antt =====
-- What the builders of all messages share: `diaRealmHost_t` (common/include/diaMsg.h), the
-- configured host and realm, and the call of `diaMsg_encode` at their end.
use diameter.Common.{ℕ, Option, none, List, []}
use diameter.Msg.{CmdHdrInfo}
use diameter.Wire.Buf.{MBuf, BufOps}
use diameter.Wire.Header.{Source}
use diameter.Wire.Message.{MsgAvp, MsgOut, encode_msg}
use diameter.Cmd.Parts.{AvpLists}

-- `diaRealmHost_t`.
pub record RealmHost : Type 0 where
  pub orig_host : List ℕ
  pub orig_realm : List ℕ
  pub dest_host : List ℕ
  pub dest_realm : List ℕ

-- `diaConfig_getHostRealm` (common/src/diaConfig.c): the configured host and realm, and no destination.
abbrev pub get_host_realm : List ℕ → List ℕ → RealmHost
get_host_realm host realm = record {
  orig_host = host;
  orig_realm = realm;
  dest_host = [];
  dest_realm = [];
}

-- What the encoders of all messages use: the buffer library, the clock, the static variable of
-- `dia_encodeHdr`, what `osMBuf_alloc` gives, and the configuration.
pub record Env : Type 0 where
  pub ops : BufOps
  pub source : Source
  pub h2h_id : ℕ
  pub fresh : Option MBuf
  pub host : List ℕ
  pub realm : List ℕ

-- `diaMsg_encode` on the list that the steps have made.
unfoldable pub encode_lists : Env → ℕ → ℕ → ℕ → CmdHdrInfo → AvpLists → Option MsgOut
unfolding encode_msg
encode_lists env cmd flag app_id ids l =
    encode_msg env.ops env.source env.h2h_id env.fresh cmd flag app_id l.out ids

-- No message is made; the ids and the static variable stay.
abbrev pub no_msg : Env → CmdHdrInfo → MsgOut
no_msg env ids = record { msg = none; hdr_info = ids; h2h_id = env.h2h_id }

abbrev pub lists_from : List MsgAvp → List MsgAvp → AvpLists
lists_from opt extra = record { out = []; opt = opt; extra = extra }
