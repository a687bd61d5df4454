-- ===== src/Resilience/Tier/Outage.antt =====
-- While the circuit is open the provider is left alone.
use text.Mathlib.TextPositions.{eq_refl}
use investwise_pro.Prelude.{
  ℕ, ◌≤◌, ◌≡◌, refl, true, false, some, String, List, [], ◌∷◌, arith, All, not, ◌∙◌, inl, inr,
  Bool-cases, Option-cases, ◌||◌, is_some,
}
use investwise_pro.Float.{Float}
use investwise_pro.Resilience.Breaker
use investwise_pro.Resilience.Breaker.{CircuitBreaker, opened}
use investwise_pro.Resilience.Retry.{Reply, Outcome, raised, type_error}
use investwise_pro.Resilience.Tier.{
  ResilienceTier, cached, claim, release, take_token, pass_breaker, fetch, lead, miss, call,
}

-- The provider was not asked: the value is a cached one, or the guard refused.
abbrev pub Spared : {E V : Type 0} → Outcome E V → Type 0
Spared (raised _) = ⊥
Spared type_error = ⊥
Spared _ = Unit

module _ {F E V : Type 0} ⦃num : Float F⦄ (clock : ℕ → F) (fn : ℕ → Reply E V) where
  -- The breaker `b` is open, no later reading of the clock is past its timeout.
  pub record IsOut (b : CircuitBreaker F) (s : ResilienceTier F V) : Type 0 where
    pub breaker : s.breaker ≡ some b
    pub state : b.state ≡ opened
    pub early :
        (n : ℕ) → s.reads ≤ n → num.le b.recovery_timeout (num.sub (clock n) b.opened_at) ≡ false

  module _ (b : CircuitBreaker F) where
    -- `t` is such a state after `s`, with no call made and the same keys claimed.
    abbrev pub Holds : ResilienceTier F V → ResilienceTier F V → Type 0
    Holds s t = IsOut b t × (t.calls ≡ s.calls) × (t.inflight ≡ s.inflight)

    cached-Holds :
        (key : String) (s : ResilienceTier F V) → IsOut b s → Holds s (cached clock key s).1
    unfolding cached
    cached-Holds key s v = (
      record {
        breaker = ground (arith, v.breaker);
        state = v.state;
        early = λ n h. v.early n (ground arith);
      },
      ground arith,
      ground arith,
    )

    take_token-Holds : (s : ResilienceTier F V) → IsOut b s → Holds s (take_token clock s).1
    unfolding take_token
    take_token-Holds s v = (
      record {
        breaker = ground (arith, v.breaker);
        state = v.state;
        early = λ n h. v.early n (ground arith);
      },
      ground arith,
      ground arith,
    )

    -- The open breaker refuses, and stays as it is.
    pass_breaker-Holds :
        (s : ResilienceTier F V)
        → IsOut b s
        → ((pass_breaker clock s).0 ≡ false) × Holds s (pass_breaker clock s).1
    unfolding pass_breaker Breaker.allow
    pass_breaker-Holds s v = (
      ground (arith, v.breaker, v.state, v.early s.reads (omega arith)),
      (
        record {
          breaker = ground (arith, v.breaker, v.state, v.early s.reads (omega arith));
          state = v.state;
          early = λ n h. v.early n (ground (arith, v.breaker));
        },
        ground (arith, v.breaker),
        ground (arith, v.breaker),
      ),
    )

    abbrev pub Isolated : ResilienceTier F V → Outcome E V × ResilienceTier F V → Type 0
    Isolated s (o, t) = Spared o × Holds s t

    fetch-Isolated :
        (key : String) (s : ResilienceTier F V) → IsOut b s → Isolated s (fetch clock fn key s)
    unfolding fetch
    fetch-Isolated key s v =
        let (v₁, c₁, i₁) = take_token-Holds s v in
        let (refused, (v₂, c₂, i₂)) = pass_breaker-Holds (take_token clock s).1 v₁ in
        elim (Bool-cases (take_token clock s).0) [
          | inl granted ↦ rw (granted, refused) (tt, (v₂, c₂ ∙ c₁, i₂ ∙ i₁))
          | inr limited ↦ rw limited (tt, (v₁, c₁, i₁))
        ]

    -- with no key claimed, the caller leads and gives its claim back
    lead-Isolated :
        (key : String) (s : ResilienceTier F V)
        → IsOut b s
        → s.inflight ≡ []
        → Isolated s (lead clock fn key (record s { inflight = key ∷ [] }))
    unfolding lead release
    lead-Isolated key s v free =
        let s' : ResilienceTier F V = record s { inflight = key ∷ [] } in
        let (spared, (out, calls, claims)) =
          fetch-Isolated key s'
            (record { breaker = v.breaker; state = v.state; early = v.early }) in
        (
          spared,
          (
            record { breaker = out.breaker; state = out.state; early = out.early },
            calls,
            rw (claims, free, eq_refl),
          ),
        )

    claim_free :
        (key : String) (s : ResilienceTier F V)
        → s.inflight ≡ []
        → claim key s ≡ (true, record s { inflight = key ∷ [] })
    unfolding claim
    claim_free key s free = ground arith

    miss-Isolated :
        (others : ResilienceTier F V → ResilienceTier F V) (key : String) (s : ResilienceTier F V)
        → IsOut b s
        → s.inflight ≡ []
        → Isolated s (miss clock fn others key s)
    unfolding miss
    miss-Isolated others key s v free =
        elim (Bool-cases (not s.single_flight || not (is_some s.cache))) [
          | inl alone ↦ rw alone (fetch-Isolated key s v)
          | inr shared ↦ rw (shared, claim_free key s free) (lead-Isolated key s v free)
        ]

    call-Isolated :
        (others : ResilienceTier F V → ResilienceTier F V) (key : String) (s : ResilienceTier F V)
        → IsOut b s
        → s.inflight ≡ []
        → Isolated s (call clock fn others key s)
    unfolding call
    call-Isolated others key s v free =
        let (v₁, c₁, i₁) = cached-Holds key s v in
        elim (Option-cases (cached clock key s).0) [
          | inl none_there ↦ rw none_there (
              let (spared, (v₂, c₂, i₂)) =
                miss-Isolated others key (cached clock key s).1 v₁ (i₁ ∙ free) in
              (spared, (v₂, c₂ ∙ c₁, i₂ ∙ i₁)))
          | inr (hit, e) ↦ rw e (tt, (v₁, c₁, i₁))
        ]

    -- the outcomes of calls for these keys in turn, and the tier after them
    unfoldable pub call_all :
        List String → ResilienceTier F V → List (Outcome E V) × ResilienceTier F V
    call_all [] s = ([], s)
    call_all (key ∷ keys) s =
        let (o, s') = call clock fn (λ t. t) key s in
        let (os, s'') = call_all keys s' in (o ∷ os, s'')

    -- While the circuit is open and its timeout has not passed, with no key in flight at the start,
    -- calls one after the other, for any keys and in any number, make no call of the provider, are
    -- answered from the cache or refused, and leave the breaker as it is and no key in flight.
    pub outage :
        (keys : List String) (s : ResilienceTier F V)
        → IsOut b s
        → s.inflight ≡ []
        → let (os, t) = call_all keys s in
          All Spared os × (t.calls ≡ s.calls) × (t.breaker ≡ some b) × (t.inflight ≡ [])
    unfolding call_all
    outage [] s v free = (tt, refl, v.breaker, free)
    outage (key ∷ keys) s v free =
        let (spared, (v', c, i)) = call-Isolated (λ t. t) key s v free in
        let (rest, c', same, none_left) = outage keys _ v' (i ∙ free) in
        ((spared, rest), c' ∙ c, same, none_left)
