-- ===== src/Resilience/Retry.antt =====
-- `retry` of app/providers/resilience.py, and how a guarded call may end.
pub mod Laws
use investwise_pro.Prelude.{
  ℕ, zero, suc, ◌+◌, ◌-◌, ◌^◌, Option, none, some, String, List, [], ◌∷◌, ltb, if◌then◌else◌,
}
use investwise_pro.Float.{Float}

-- What one call of the provider does.
pub data Reply (E V : Type 0) : Type 0 where
  answer : V → Reply E V
  failure : E → Reply E V

-- The value, `RateLimitedError`, `CircuitOpenError`, the provider's own exception, or the `TypeError`
-- of `raise None`, where no attempt was made.
pub data Outcome (E V : Type 0) : Type 0 where
  value : V → Outcome E V
  rate_limited circuit_open : String → Outcome E V
  raised : E → Outcome E V
  type_error : Outcome E V

-- How a loop of attempts ended, the calls made so far by anyone, and the delays slept.
pub record Retried (F E V : Type 0) : Type 0 where
  pub outcome : Outcome E V
  pub calls : ℕ
  pub slept : List F

module _ {E V : Type 0} where
  -- `raise last`
  unfoldable pub raise_last : Option E → Outcome E V
  raise_last none = type_error
  raise_last (some e) = raised e

module _ {F E V : Type 0} ⦃num : Float F⦄ (fn : ℕ → Reply E V) (attempts : ℕ) (base_delay : F) where
  open num use {dec, mul}

  -- `for i in range(attempts)` with `left` rounds to go; `fn n` is the reply to the n-th call
  unfoldable pub retry_from : (left i calls : ℕ) → Option E → Retried F E V
  unfolding raise_last
  retry_from zero i calls last = record { outcome = raise_last last; calls = calls; slept = [] }
  retry_from (suc left) i calls last = elim (fn calls) [
    | answer v ↦ record { outcome = value v; calls = calls + 1; slept = [] }
    | failure exc ↦
        let rest = retry_from left (i + 1) (calls + 1) (some exc) in
        if ltb i (attempts - 1)
        then record rest { slept = mul base_delay (dec (2 ^ i) 0) ∷ rest.slept }
        else rest
  ]

  unfoldable pub retry : ℕ → Retried F E V
  unfolding retry_from
  retry calls = retry_from attempts 0 calls none
