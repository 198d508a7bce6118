-- ===== src/Mgr/Start.antt =====
-- `dia_init` and `diaGetOrigStateId` (common/src/diaMgr.c).
use diameter.Common.{ℕ, ◌+◌, ◌-◌, ◌<◌, ◌≤◌, arith, Bool, true, false, Option, none, some, ◌>>=◌}
use diameter.Wire.Words.{u32}
use diameter.Conn.Os.{Os}
use diameter.Conn.Provision.{ConnMgr, mgr_init}

-- `DIA_BASE_CER_ORIG_STATE_EPOCH_VALUE`.
abbrev pub orig_state_epoch : ℕ
orig_state_epoch = 0x5ea5_cfa4

-- `diaOrigStateId`, from the seconds of the clock: a difference of 32 bits.
abbrev pub orig_state_id : ℕ → ℕ
orig_state_id tv_sec = u32 (tv_sec + (0x1_0000_0000 - orig_state_epoch))

-- The clock, whether `osHash_create` gives a table, and the configuration: the id, and the
-- connections where there is a table. `none` is undefined behaviour.
unfoldable pub dia_init :
    (os : Os) → ℕ → Bool → ℕ → Bool → Option ℕ → os.World → Option (ℕ × Option (ConnMgr os))
unfolding mgr_init
dia_init os tv_sec false max server a w = some (orig_state_id tv_sec, none)
dia_init os tv_sec true max server a w =
    mgr_init os max server a w >>= λ r. some (orig_state_id tv_sec, some (r.1))

-- A later start has a greater Origin-State-Id, for 2 ^ 32 seconds from the epoch on.
pub orig_state_id-lt :
    (a b : ℕ)
    → orig_state_epoch ≤ a
    → a < b
    → b < orig_state_epoch + 0x1_0000_0000
    → orig_state_id a < orig_state_id b
orig_state_id-lt a b h l m = omega arith
