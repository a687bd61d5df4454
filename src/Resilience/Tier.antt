-- ===== src/Resilience/Tier.antt =====
-- `class ResilienceTier` of app/providers/resilience.py, as one caller runs it. Every method that
-- reads the clock takes the next reading; `fn n` is the provider's reply to the n-th call.
pub mod Laws
pub mod Outage
use investwise_pro.Prelude.{
  ℕ, ◌+◌, Bool, true, false, not, ◌||◌, Option, none, some, String, List, [], ◌∷◌, ◌++◌, any,
  filter, is_some, fstring, str_eq, if◌then◌else◌,
}
use investwise_pro.Float.{Float}
use investwise_pro.Resilience.Breaker
use investwise_pro.Resilience.Breaker.{CircuitBreaker}
use investwise_pro.Resilience.Bucket
use investwise_pro.Resilience.Bucket.{TokenBucket}
use investwise_pro.Resilience.Cache
use investwise_pro.Resilience.Cache.{TtlCache}
use investwise_pro.Resilience.Retry.{
  Reply, Outcome, value, rate_limited, circuit_open, raised, type_error, Retried, retry,
}

-- The tier's fields; then the clock readings taken, the provider calls made and the delays slept.
pub record ResilienceTier (F V : Type 0) : Type 0 where
  pub breaker : Option (CircuitBreaker F)
  pub bucket : Option (TokenBucket F)
  pub cache : Option (TtlCache F V)
  pub attempts : ℕ
  pub base_delay : F
  pub single_flight : Bool
  pub inflight : List String
  pub reads : ℕ
  pub calls : ℕ
  pub slept : List F

module _ {F V : Type 0} ⦃num : Float F⦄ where
  open num use {dec}

  -- `self.cache.get(key)`, where there is a cache
  unfoldable pub cached : (ℕ → F) → String → ResilienceTier F V → Option V × ResilienceTier F V
  cached clock key s = elim s.cache [
    | none ↦ (none, s)
    | some c ↦
        let (v, c') = Cache.get (clock s.reads) key c in
        (v, record s { cache = some c'; reads = s.reads + 1 })
  ]

  -- the claim on `key` by `_claim`: true for the leader
  unfoldable pub claim : String → ResilienceTier F V → Bool × ResilienceTier F V
  claim key s =
      if any (str_eq key) s.inflight
      then (false, s)
      else (true, record s { inflight = key ∷ s.inflight })

  unfoldable pub release : String → ResilienceTier F V → ResilienceTier F V
  release key s = record s { inflight = filter (λ k. not (str_eq key k)) s.inflight }

  -- `self.bucket is None or self.bucket.take()`
  unfoldable pub take_token : (ℕ → F) → ResilienceTier F V → Bool × ResilienceTier F V
  take_token clock s = elim s.bucket [
    | none ↦ (true, s)
    | some b ↦
        let (granted, b') = Bucket.take (clock s.reads) (dec 1 0) b in
        (granted, record s { bucket = some b'; reads = s.reads + 1 })
  ]

  -- `self.breaker is None or self.breaker.allow()`
  unfoldable pub pass_breaker : (ℕ → F) → ResilienceTier F V → Bool × ResilienceTier F V
  pass_breaker clock s = elim s.breaker [
    | none ↦ (true, s)
    | some b ↦
        let (allowed, b') = Breaker.allow (clock s.reads) b in
        (allowed, record s { breaker = some b'; reads = s.reads + 1 })
  ]

  unfoldable pub note_failure : (ℕ → F) → ResilienceTier F V → ResilienceTier F V
  note_failure clock s = elim s.breaker [
    | none ↦ s
    | some b ↦ record s {
      breaker = some (Breaker.record_failure (clock s.reads) b);
      reads = s.reads + 1;
    }
  ]

  unfoldable pub note_success : ResilienceTier F V → ResilienceTier F V
  note_success s = elim s.breaker [
    | none ↦ s
    | some b ↦ record s { breaker = some (Breaker.record_success b) }
  ]

  unfoldable pub store : (ℕ → F) → String → V → ResilienceTier F V → ResilienceTier F V
  store clock key v s = elim s.cache [
    | none ↦ s
    | some c ↦ record s { cache = some (Cache.set (clock s.reads) key v c); reads = s.reads + 1 }
  ]

module _ {F E V : Type 0} ⦃num : Float F⦄ where
  -- the `try`/`except` around `retry`, and what follows a value
  unfoldable pub settle :
      (ℕ → F) → String → Outcome E V → ResilienceTier F V → Outcome E V × ResilienceTier F V
  settle clock key (value v) s = (value v, store clock key v (note_success s))
  settle clock key other s = (other, note_failure clock s)

  unfoldable pub fetch :
      (ℕ → F) → (ℕ → Reply E V) → String → ResilienceTier F V → Outcome E V × ResilienceTier F V
  fetch clock fn key s =
      let (granted, s₁) = take_token clock s in
      if not granted
      then (rate_limited (fstring ("rate limit exceeded for " ∷ key ∷ [])), s₁)
      else let (allowed, s₂) = pass_breaker clock s₁ in
        if not allowed
        then (circuit_open (fstring ("circuit open for " ∷ key ∷ [])), s₂)
        else let r = retry fn s₂.attempts s₂.base_delay s₂.calls in
          settle clock key r.outcome (record s₂ { calls = r.calls; slept = s₂.slept ++ r.slept })

  -- What a cached value ends, or else `rest` does.
  unfoldable pub or_cached :
      Option V
      → (ResilienceTier F V → Outcome E V × ResilienceTier F V)
      → ResilienceTier F V
      → Outcome E V × ResilienceTier F V
  or_cached (some v) rest s = (value v, s)
  or_cached none rest s = rest s

  -- the leader's `try`/`finally`
  unfoldable pub lead :
      (ℕ → F) → (ℕ → Reply E V) → String → ResilienceTier F V → Outcome E V × ResilienceTier F V
  lead clock fn key s = let (o, s') = fetch clock fn key s in (o, release key s')

  -- `others` is what the other callers do until the leader's event is set
  unfoldable pub follow :
      (ℕ → F)
      → (ℕ → Reply E V)
      → (ResilienceTier F V → ResilienceTier F V)
      → String
      → ResilienceTier F V
      → Outcome E V × ResilienceTier F V
  follow clock fn others key s =
      let (v, s') = cached clock key (others s) in or_cached v (fetch clock fn key) s'

  -- `call`, once the cache has been missed
  unfoldable pub miss :
      (ℕ → F)
      → (ℕ → Reply E V)
      → (ResilienceTier F V → ResilienceTier F V)
      → String
      → ResilienceTier F V
      → Outcome E V × ResilienceTier F V
  miss clock fn others key s =
      if not s.single_flight || not (is_some s.cache)
      then fetch clock fn key s
      else let (leader, s') = claim key s in
        if leader then lead clock fn key s' else follow clock fn others key s'

  unfoldable pub call :
      (ℕ → F)
      → (ℕ → Reply E V)
      → (ResilienceTier F V → ResilienceTier F V)
      → String
      → ResilienceTier F V
      → Outcome E V × ResilienceTier F V
  unfolding or_cached
  call clock fn others key s =
      let (hit, s') = cached clock key s in or_cached hit (miss clock fn others key) s'
