-- ===== src/Resilience/Breaker.antt =====
-- `class CircuitBreaker` of app/providers/resilience.py. A method that reads the clock takes the
-- reading as an argument.
pub mod Laws
use investwise_pro.Prelude.{ℕ, ◌+◌, Bool, true, false, ◌||◌, leb, if◌then◌else◌}
use investwise_pro.Float.{Float}

-- "CLOSED", "OPEN" and "HALF_OPEN"
pub data Circuit : Type 0 where
  closed opened half_open : Circuit

abbrev pub is_opened : Circuit → Bool
is_opened opened = true
is_opened closed = false
is_opened half_open = false

abbrev pub is_half_open : Circuit → Bool
is_half_open half_open = true
is_half_open closed = false
is_half_open opened = false

pub record CircuitBreaker (F : Type 0) : Type 0 where
  pub failure_threshold : ℕ
  pub recovery_timeout : F
  pub failures : ℕ
  pub state : Circuit
  pub opened_at : F

module _ {F : Type 0} ⦃num : Float F⦄ where
  open num use {dec, sub, le}

  unfoldable pub init : ℕ → F → CircuitBreaker F
  init threshold timeout = record {
    failure_threshold = threshold;
    recovery_timeout = timeout;
    failures = 0;
    state = closed;
    opened_at = dec 0 0;
  }

  unfoldable pub allow : F → CircuitBreaker F → Bool × CircuitBreaker F
  allow now b =
      if is_opened b.state
      then if le b.recovery_timeout (sub now b.opened_at)
        then (true, record b { state = half_open })
        else (false, b)
      else (true, b)

  unfoldable pub record_success : CircuitBreaker F → CircuitBreaker F
  record_success b = record b { failures = 0; state = closed }

  unfoldable pub record_failure : F → CircuitBreaker F → CircuitBreaker F
  record_failure now b =
      let b' : CircuitBreaker F = record b { failures = b.failures + 1 } in
      if leb b'.failure_threshold b'.failures || is_half_open b'.state
      then record b' { state = opened; opened_at = now }
      else b'
