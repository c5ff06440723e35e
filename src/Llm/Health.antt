-- ===== src/Llm/Health.antt =====
-- internal/llm/health.go: the circuit breaker of a provider. Times and durations are natural
-- numbers of seconds, and `time.Now()` is an argument; the mutex is left out, a call is one step.
pub mod Breaker
use script_world.Prelude.{
  ℕ, ◌+◌, ◌*◌, Bool, true, false, List, [], ◌∷◌, ltb, leb, ◌==◌, if◌then◌else◌,
}

abbrev pub failures_to_open : ℕ
failures_to_open = 3

abbrev pub backoff_initial : ℕ
backoff_initial = 15

abbrev pub backoff_max : ℕ
backoff_max = 300

pub record TierHealth : Type 0 where
  pub fails : ℕ
  pub open_until : ℕ
  pub backoff : ℕ
  pub probing : Bool

-- `tierHealth{}`.
abbrev pub healthy : TierHealth
healthy = record { fails = 0; open_until = 0; backoff = 0; probing = false }

unfoldable pub admit : TierHealth → ℕ → TierHealth × Bool
admit h now =
    if ltb h.fails failures_to_open
    then (h, true)
    else if ltb now h.open_until
    then (h, false)
    else if h.probing
    then (h, false)
    else (record h { probing = true }, true)

unfoldable pub succeed : TierHealth → TierHealth
succeed h = record h { fails = 0; backoff = 0; probing = false }

-- The backoff after one more failure of an open breaker.
unfoldable pub next_backoff : ℕ → ℕ
next_backoff b =
    if b == 0
    then backoff_initial
    else if ltb b backoff_max
    then if ltb backoff_max (b * 2) then backoff_max else b * 2
    else b

unfoldable pub fail : TierHealth → ℕ → TierHealth
unfolding next_backoff
fail h now =
    let h' = record h { fails = h.fails + 1; probing = false } in
    let b = next_backoff h.backoff in
    if leb failures_to_open (h.fails + 1)
    then record h' { backoff = b; open_until = now + b }
    else h'

unfoldable pub down : TierHealth → Bool
down h = leb failures_to_open h.fails

-- The calls that a provider's workers make.
pub data Call : Type 0 where
  admits succeeds fails_call : Call

-- One call at a time.
unfoldable pub step : TierHealth → Call → ℕ → TierHealth
unfolding admit succeed fail
step h admits now = (admit h now).0
step h succeeds now = succeed h
step h fails_call now = fail h now

-- A failure for each of the times, the latest first.
unfoldable pub failing : List ℕ → TierHealth
unfolding fail
failing [] = healthy
failing (now ∷ times) = fail (failing times) now
