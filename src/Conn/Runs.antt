-- ===== src/Conn/Runs.antt =====
-- Histories: the messages that reach one connection, in order, from its initialisation on.
use diameter.Common.{ℕ, ◌≡◌, Option, some, List, [], ◌∷◌, ◌>>=◌, Option-cases, inl, inr}
use mathlib.Core.Path.{subst}
use mathlib.Core.Option.{some-injective}
use diameter.Msg.{MsgDecoded}
use diameter.Conn.Types.{ConnMsgType}
use diameter.Conn.Os.{Os}
use diameter.Conn.Steps.{Sys}
use diameter.Conn.Connected.{on_msg}

-- One call of `diaConnState_onMsg`: the message type, the decoded message, the timer id.
pub record Event : Type 0 where
  pub msg_type : ConnMsgType
  pub decoded : Option MsgDecoded
  pub timer_id : ℕ

module _ (os : Os) where
  -- `none` once a call has faulted.
  unfoldable pub run : List Event → Sys os → Option (Sys os)
  run [] s = some s
  run (e ∷ es) s =
      let rest : Sys os → Option (Sys os) = run es in
      on_msg os e.msg_type e.decoded e.timer_id s >>= rest

  -- An invariant of the calls is one of the histories.
  pub run_invariant {ℓ} :
      (P : Sys os → Type ℓ)
      → ((m : ConnMsgType) (msg : Option MsgDecoded) (t : ℕ) (s s' : Sys os)
          → on_msg os m msg t s ≡ some s'
          → P s
          → P s')
      → (es : List Event) (s s' : Sys os) → run es s ≡ some s'
      → P s
      → P s'
  unfolding run
  run_invariant P keep [] s s' h p = subst P (some-injective s s' h) p
  run_invariant P keep (e ∷ es) s s' h p =
      elim (Option-cases (on_msg os e.msg_type e.decoded e.timer_id s)) [
        | inl q ↦ cc (rw q at h)
        | inr (s1, q) ↦ run_invariant P keep es s1 s' (rw q at h) (keep _ _ _ s s1 q p)
      ]
