-- ===== src/Resilience/Tier/Laws.antt =====
-- What a guarded call leaves behind: its claim given back, its calls bounded, its value shared.
use text.Mathlib.TextPositions.{eq_refl}
use investwise_pro.Prelude.{
  ℕ, ◌+◌, ◌≤◌, ◌≡◌, refl, ◌∙◌, false, some, String, List, [], ◌∷◌, ◌++◌, arith, any, filter, str_eq,
  not, inl, inr, Bool-cases,
}
use investwise_pro.Float.{Float}
use investwise_pro.Resilience.Cache
use investwise_pro.Resilience.Cache.{TtlCache}
use investwise_pro.Resilience.Cache.Laws.{get-set_self}
use investwise_pro.Resilience.Retry.{
  Reply, Outcome, value, rate_limited, circuit_open, Retried, retry,
}
use investwise_pro.Resilience.Retry.Laws.{retry_bounds}
use investwise_pro.Resilience.Tier.{
  ResilienceTier, cached, claim, release, take_token, pass_breaker, note_failure, note_success,
  store, settle, fetch, lead, miss, call,
}

module _ {F E V : Type 0} ⦃num : Float F⦄ (clock : ℕ → F) (fn : ℕ → Reply E V) where
  -- A guarded fetch keeps the claims and the number of attempts, and calls the provider at most as
  -- often as there are attempts.
  abbrev pub Bounded : ResilienceTier F V → ResilienceTier F V → Type 0
  Bounded s t = (t.inflight ≡ s.inflight) × (s.calls ≤ t.calls) × (t.calls ≤ s.calls + s.attempts)

  abbrev Kept : ResilienceTier F V → ResilienceTier F V → Type 0
  Kept s t = (t.inflight ≡ s.inflight) × (t.calls ≡ s.calls) × (t.attempts ≡ s.attempts)

  cached-Kept : (key : String) (s : ResilienceTier F V) → Kept s (cached clock key s).1
  unfolding cached
  cached-Kept key s = ground arith

  take_token-Kept : (s : ResilienceTier F V) → Kept s (take_token clock s).1
  unfolding take_token
  take_token-Kept s = ground arith

  pass_breaker-Kept : (s : ResilienceTier F V) → Kept s (pass_breaker clock s).1
  unfolding pass_breaker
  pass_breaker-Kept s = ground arith

  settle-Kept :
      (key : String) (o : Outcome E V) (s : ResilienceTier F V) → Kept s (settle clock key o s).1
  unfolding settle store note_failure note_success
  settle-Kept key (value v) s = ground arith
  settle-Kept key o s = ground arith

  fetch-Bounded : (key : String) (s : ResilienceTier F V) → Bounded s (fetch clock fn key s).1
  unfolding fetch
  fetch-Bounded key s =
      let s₁ = (take_token clock s).1 in
      let s₂ = (pass_breaker clock s₁).1 in
      let r : Retried F E V = retry fn s₂.attempts s₂.base_delay s₂.calls in
      let s₃ : ResilienceTier F V = record s₂ { calls = r.calls; slept = s₂.slept ++ r.slept } in
      ground (
        arith,
        take_token-Kept s,
        pass_breaker-Kept s₁,
        retry_bounds fn s₂.attempts s₂.base_delay s₂.calls,
        settle-Kept key r.outcome s₃,
      )

  filter_absent :
      (key : String) (keys : List String)
      → any (str_eq key) keys ≡ false
      → filter (λ k. not (str_eq key k)) keys ≡ keys
  filter_absent key [] h = refl
  filter_absent key (k ∷ keys) h = ground (arith, filter_absent key keys)

  lead-Bounded :
      (key : String) (s : ResilienceTier F V)
      → any (str_eq key) s.inflight ≡ false
      → Bounded s (lead clock fn key (record s { inflight = key ∷ s.inflight })).1
  unfolding lead release
  lead-Bounded key s free =
      let (claims, low, high) = fetch-Bounded key (record s { inflight = key ∷ s.inflight }) in
      (rw (claims, eq_refl) (filter_absent key s.inflight free), low, high)

  miss-Bounded :
      (others : ResilienceTier F V → ResilienceTier F V) (key : String) (s : ResilienceTier F V)
      → any (str_eq key) s.inflight ≡ false
      → Bounded s (miss clock fn others key s).1
  unfolding miss claim
  miss-Bounded others key s free = ground (arith, fetch-Bounded key s, lead-Bounded key s free)

  -- A call for a key that nobody has claimed gives its own claim back, however it ends, leaves the
  -- claims of other keys, and calls the provider at most as often as there are attempts.
  pub call-Bounded :
      (others : ResilienceTier F V → ResilienceTier F V) (key : String) (s : ResilienceTier F V)
      → any (str_eq key) s.inflight ≡ false
      → Bounded s (call clock fn others key s).1
  unfolding call
  call-Bounded others key s free =
      let kept = cached-Kept key s in
      let free' : any (str_eq key) (cached clock key s).1.inflight ≡ false = rw kept.0 free in
      ground (arith, kept, miss-Bounded others key (cached clock key s).1 free')

  -- The entry that a fetched value leaves in the cache, with the clock reading of its write.
  abbrev Stored : TtlCache F V → String → V → ResilienceTier F V → Type 0
  Stored c key v t = (n : ℕ) × (t.cache ≡ some (Cache.set (clock n) key v c)) × (t.reads ≡ n + 1)

  settle_stores :
      (key : String) (o : Outcome E V) (v : V) (c : TtlCache F V) (s : ResilienceTier F V)
      → s.cache ≡ some c
      → (settle clock key o s).0 ≡ value v
      → Stored c key v (settle clock key o s).1
  unfolding settle store note_success
  settle_stores key (value w) v c s h e = (s.reads, ground arith, ground arith)
  settle_stores key o v c s h e = cc

  cache-take_token : (s : ResilienceTier F V) → (take_token clock s).1.cache ≡ s.cache
  unfolding take_token
  cache-take_token s = ground arith

  cache-pass_breaker : (s : ResilienceTier F V) → (pass_breaker clock s).1.cache ≡ s.cache
  unfolding pass_breaker
  cache-pass_breaker s = ground arith

  no_value : {m : String} {v : V} → ◌≡◌ {A = Outcome E V} (rate_limited m) (value v) → ⊥
  no_value e = cc

  no_circuit : {m : String} {v : V} → ◌≡◌ {A = Outcome E V} (circuit_open m) (value v) → ⊥
  no_circuit e = cc

  fetch_stores :
      (key : String) (v : V) (c : TtlCache F V) (s : ResilienceTier F V)
      → s.cache ≡ some c
      → (fetch clock fn key s).0 ≡ value v
      → Stored c key v (fetch clock fn key s).1
  unfolding fetch
  fetch_stores key v c s h e =
      let s₁ = (take_token clock s).1 in
      let s₂ = (pass_breaker clock s₁).1 in
      let r : Retried F E V = retry fn s₂.attempts s₂.base_delay s₂.calls in
      let s₃ : ResilienceTier F V = record s₂ { calls = r.calls; slept = s₂.slept ++ r.slept } in
      let there : s₂.cache ≡ some c = cache-pass_breaker s₁ ∙ (cache-take_token s ∙ h) in
      elim (Bool-cases (take_token clock s).0) [
        | inr limited ↦ absurd (no_value (rw limited at e))
        | inl granted ↦ elim (Bool-cases (pass_breaker clock s₁).0) [
          | inr refused ↦ absurd (no_circuit (rw (granted, refused) at e))
          | inl allowed ↦
              rw (granted, allowed)
                (settle_stores key r.outcome v c s₃ there (rw (granted, allowed) at e))
        ]
      ]

  -- A value that a leading caller fetched is what the next call for its key returns, with no call of
  -- the provider, as long as the time to live has not run out.
  pub lead_shares :
      (others : ResilienceTier F V → ResilienceTier F V) (key : String) (v : V) (c : TtlCache F V)
      (s : ResilienceTier F V)
      → s.cache ≡ some c
      → (lead clock fn key s).0 ≡ value v
      → ((n : ℕ)
          → (lead clock fn key s).1.reads ≡ n + 1
          → num.le (num.add (clock n) c.ttl) (clock (n + 1)) ≡ false)
      → ((call clock fn others key (lead clock fn key s).1).0 ≡ value v)
        × ((call clock fn others key (lead clock fn key s).1).1.calls
            ≡ (lead clock fn key s).1.calls)
  unfolding lead release call cached
  lead_shares others key v c s h e fresh =
      let (n, stored, read) = fetch_stores key v c s h e in
      ground (arith, stored, read, fresh n read, get-set_self (clock n) (clock (n + 1)) key v c)
