-- ===== src/Resilience/Retry/Laws.antt =====
-- `retry` returns the first answer within its attempts, or raises the last failure.
use investwise_pro.Prelude.{
  ℕ, zero, suc, ◌+◌, ◌^◌, ◌≤◌, ◌<◌, ◌≡◌, Option, none, some, List, [], ◌∷◌, arith,
}
use investwise_pro.Float.{Float}
use investwise_pro.Resilience.Retry.{Reply, answer, failure, value, raised, retry_from, retry}

module _ {F E V : Type 0} ⦃num : Float F⦄ (fn : ℕ → Reply E V) (attempts : ℕ) (base_delay : F) where
  -- The delays before the rounds `i + 1`, `i + 2`, …: each twice the one before.
  abbrev pub backoff : ℕ → ℕ → List F
  backoff zero i = []
  backoff (suc n) i = num.mul base_delay (num.dec (2 ^ i) 0) ∷ backoff n (i + 1)

  -- `k` failures in a row, from the call `calls` on
  abbrev pub Fails : ℕ → ℕ → Type 0
  Fails calls zero = Unit
  Fails calls (suc k) = ((e : E) × (fn calls ≡ failure e)) × Fails (calls + 1) k

  retry_from_answer :
      (k left i calls : ℕ) (last : Option E) (v : V)
      → i + left ≡ attempts
      → k < left
      → Fails calls k
      → fn (calls + k) ≡ answer v
      → retry_from fn attempts base_delay left i calls last
        ≡ record { outcome = value v; calls = calls + k + 1; slept = backoff k i }
  unfolding retry_from
  retry_from_answer k zero i calls last v e h f a = absurd (omega arith)
  retry_from_answer zero (suc left) i calls last v e h f a = ground arith
  retry_from_answer (suc k) (suc left) i calls last v e h ((exc, f), fs) a =
      ground (arith, retry_from_answer k left (i + 1) (calls + 1) (some exc) v)

  -- If one of the attempts is answered, the first answer is returned: the calls before it failed, no
  -- call follows it, and before each further attempt the delay has doubled.
  pub retry_answer :
      (k calls : ℕ) (v : V)
      → k < attempts
      → Fails calls k
      → fn (calls + k) ≡ answer v
      → retry fn attempts base_delay calls
        ≡ record { outcome = value v; calls = calls + k + 1; slept = backoff k 0 }
  unfolding retry
  retry_answer k calls v h f a = retry_from_answer k attempts 0 calls none v (omega arith) h f a

  retry_from_failure :
      (k left i calls : ℕ) (last : Option E) (exc : E)
      → i + left ≡ attempts
      → left ≡ k + 1
      → Fails calls k
      → fn (calls + k) ≡ failure exc
      → retry_from fn attempts base_delay left i calls last
        ≡ record { outcome = raised exc; calls = calls + left; slept = backoff k i }
  unfolding retry_from
  retry_from_failure k zero i calls last exc e h f a = absurd (omega arith)
  retry_from_failure zero (suc zero) i calls last exc e h f a = ground arith
  retry_from_failure zero (suc (suc left)) i calls last exc e h f a = absurd (omega arith)
  retry_from_failure (suc k) (suc left) i calls last exc e h ((first, f), fs) a =
      ground (arith, retry_from_failure k left (i + 1) (calls + 1) (some first) exc)

  -- If every attempt fails, the exception of the last one is raised, after exactly as many calls as
  -- attempts, with no delay after the last.
  pub retry_failure :
      (k calls : ℕ) (exc : E)
      → attempts ≡ k + 1
      → Fails calls k
      → fn (calls + k) ≡ failure exc
      → retry fn attempts base_delay calls
        ≡ record { outcome = raised exc; calls = calls + attempts; slept = backoff k 0 }
  unfolding retry
  retry_failure k calls exc h f a =
      retry_from_failure k attempts 0 calls none exc (omega arith) h f a

  retry_from_bounds :
      (left i calls : ℕ) (last : Option E)
      → let r = retry_from fn attempts base_delay left i calls last in
        (calls ≤ r.calls) × (r.calls ≤ calls + left)
  unfolding retry_from
  retry_from_bounds zero i calls last = ground arith
  retry_from_bounds (suc left) i calls last =
      grind (arith, retry_from_bounds left (i + 1) (calls + 1))

  -- Whatever the replies, there are at most as many calls as attempts.
  pub retry_bounds :
      (calls : ℕ)
      → let r = retry fn attempts base_delay calls in
        (calls ≤ r.calls) × (r.calls ≤ calls + attempts)
  unfolding retry
  retry_bounds calls = retry_from_bounds attempts 0 calls none
