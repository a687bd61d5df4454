-- ===== src/Resilience/Tests.antt =====
-- The guards of app/providers/resilience.py run on concrete clocks and replies.
use investwise_pro.Prelude.{
  ℕ, zero, suc, Bool, List, ◌++◌, false, ◌+◌, ◌*◌, ◌≡◌, refl, ◌⊎◌, true, false, Option, some,
  String, [], ◌∷◌, arith, map, All, if◌then◌else◌,
}
use investwise_pro.Prelude.Int.{pos, ◌+ℤ◌, ◌-ℤ◌}
use investwise_pro.Float.Fixed.{Fixed, fixed_float, Fixed-IsRounded, mul_fixed}
use investwise_pro.Resilience.Breaker.{
  closed, opened, half_open, CircuitBreaker, allow, record_failure,
}
use investwise_pro.Resilience.Breaker.Laws.{
  Event, ask, succeed, fail, run, asks, run-IsValid, state-run_fail, asks-run_fail,
}
use investwise_pro.Resilience.Breaker.Laws as BreakerLaws
use investwise_pro.Resilience.Bucket.{TokenBucket, take, refilled}
use investwise_pro.Resilience.Bucket.Laws.{take-IsValid}
use investwise_pro.Resilience.Bucket.Laws as BucketLaws
use investwise_pro.Resilience.Cache.{TtlCache, get, set}
use investwise_pro.Resilience.Cache.Laws.{get-set}
use investwise_pro.Resilience.Retry.{Reply, answer, failure, Outcome, value, raised, retry}
use investwise_pro.Resilience.Retry.Laws.{retry_answer, retry_failure}
use investwise_pro.Resilience.Tier.{
  ResilienceTier, call, lead, fetch, take_token, pass_breaker, settle,
}
use investwise_pro.Resilience.Tier.Laws.{Bounded, call-Bounded, lead_shares}
use investwise_pro.Resilience.Tier.Outage.{IsOut, Spared, call_all, outage}
use investwise_pro.Resilience.Flight.{
  Flight, Reach, here, next, miss, pop, leading, releasing, woken, enter, pop_done,
}
use investwise_pro.Resilience.Flight.Safety.{start, one_leader, no_lost_wakeup}
use investwise_pro.Resilience.Flight.Wakes.{follower_wakes}

-- whole seconds
abbrev secs : ℕ → Fixed
secs n = pos (n * 1_000_000)

-- a reading each second
abbrev clock : ℕ → Fixed
clock n = secs n

-- the first two calls fail, and the others answer
abbrev third_time : ℕ → Reply String ℕ
third_time zero = failure "timeout"
third_time (suc zero) = failure "reset"
third_time (suc (suc n)) = answer (n + 42)

abbrev never : ℕ → Reply String ℕ
never n = failure "down"

retry_answer_example :
    retry third_time 4 (secs 1) 0
    ≡ record { outcome = value 42; calls = 3; slept = secs 1 ∷ secs 2 ∷ [] }
unfolding mul_fixed
retry_answer_example =
    retry_answer third_time 4 (secs 1) 2 0 42 (omega arith)
      (("timeout", refl), (("reset", refl), tt)) refl

retry_failure_example :
    retry never 3 (secs 1) 7
    ≡ record { outcome = raised "down"; calls = 10; slept = secs 1 ∷ secs 2 ∷ [] }
unfolding mul_fixed
retry_failure_example =
    retry_failure never 3 (secs 1) 2 7 "down" refl (("down", refl), (("down", refl), tt)) refl

abbrev fresh_breaker : CircuitBreaker Fixed
fresh_breaker = record {
  failure_threshold = 3;
  recovery_timeout = secs 30;
  failures = 0;
  state = closed;
  opened_at = secs 0;
}

fresh-IsValid : BreakerLaws.IsValid fresh_breaker
fresh-IsValid = record { below = λ _. omega arith; positive = omega arith }

run-IsValid_example :
    BreakerLaws.IsValid
      (run (fail (secs 1) ∷ fail (secs 2) ∷ fail (secs 3) ∷ ask (secs 40) ∷ []) fresh_breaker)
run-IsValid_example =
    run-IsValid (fail (secs 1) ∷ fail (secs 2) ∷ fail (secs 3) ∷ ask (secs 40) ∷ []) fresh_breaker
      fresh-IsValid

state-run_fail_example :
    (run (map fail (secs 1 ∷ secs 2 ∷ secs 3 ∷ [])) fresh_breaker).state ≡ opened
state-run_fail_example =
    state-run_fail 0 (secs 1 ∷ secs 2 ∷ secs 3 ∷ []) fresh_breaker refl (omega arith) refl

abbrev asked : List Bool × CircuitBreaker Fixed
asked =
    asks (secs 12 ∷ secs 39 ∷ secs 40 ∷ secs 41 ∷ [])
      (run (map fail ((secs 8 ∷ secs 9 ∷ []) ++ secs 10 ∷ [])) fresh_breaker)

asks-run_fail_example :
    (asked.0 ≡ false ∷ false ∷ true ∷ true ∷ [])
    × (asked.1.state ≡ half_open)
    × ((record_failure (secs 42) asked.1).state ≡ opened)
    × ((record_failure (secs 42) asked.1).opened_at ≡ secs 42)
unfolding ◌-ℤ◌
asks-run_fail_example =
    asks-run_fail (secs 8 ∷ secs 9 ∷ []) (secs 10) (secs 12 ∷ secs 39 ∷ secs 40 ∷ secs 41 ∷ [])
      (secs 42) fresh_breaker (omega arith)

abbrev half_bucket : TokenBucket Fixed
half_bucket = record {
  capacity = secs 10;
  refill_per_sec = secs 1;
  tokens = secs 2;
  updated = secs 100;
}

half-IsValid : BucketLaws.IsValid half_bucket
half-IsValid = record { tokens_nonneg = refl; tokens_le = refl; refill_nonneg = refl }

take-IsValid_example :
    let (granted, b) = take (secs 103) (secs 4) half_bucket in
    BucketLaws.IsValid b
    × (granted ≡ fixed_float.le (secs 4) (refilled (secs 103) half_bucket))
    × (b.tokens ≡ (
        if granted
        then fixed_float.sub (refilled (secs 103) half_bucket) (secs 4)
        else refilled (secs 103) half_bucket))
    × (b.updated ≡ secs 103)
take-IsValid_example =
    take-IsValid Fixed-IsRounded (secs 103) (secs 4) half_bucket half-IsValid refl refl
      (λ x h. ground arith)

abbrev empty_cache : TtlCache Fixed ℕ
empty_cache = record { ttl = secs 60; store = [] }

get-set_example : (get (secs 50) "AAPL" (set (secs 1) "AAPL" 42 empty_cache)).0 ≡ some 42
unfolding ◌+ℤ◌
get-set_example = get-set (secs 1) (secs 50) "AAPL" "AAPL" 42 empty_cache

abbrev tier : Option (CircuitBreaker Fixed) → ResilienceTier Fixed ℕ
tier breaker = record {
  breaker = breaker;
  bucket = some half_bucket;
  cache = some empty_cache;
  attempts = 3;
  base_delay = secs 1;
  single_flight = true;
  inflight = [];
  reads = 103;
  calls = 0;
  slept = [];
}

call-Bounded_example :
    Bounded clock third_time
      (tier (some fresh_breaker))
      (call clock third_time (λ t. t) "AAPL" (tier (some fresh_breaker))).1
call-Bounded_example =
    call-Bounded clock third_time (λ t. t) "AAPL" (tier (some fresh_breaker)) refl

abbrev steady : ℕ → Reply String ℕ
steady n = answer 7

abbrev led : Outcome String ℕ × ResilienceTier Fixed ℕ
led = lead clock steady "AAPL" (tier (some fresh_breaker))

lead_shares_example :
    ((call clock steady (λ t. t) "AAPL" led.1).0 ≡ value 7)
    × ((call clock steady (λ t. t) "AAPL" led.1).1.calls ≡ led.1.calls)
unfolding ◌+ℤ◌ ◌-ℤ◌ mul_fixed lead fetch take_token take refilled pass_breaker allow settle retry
lead_shares_example =
    lead_shares clock steady (λ t. t) "AAPL" 7 empty_cache (tier (some fresh_breaker)) refl refl
      (λ n h. ground arith)

abbrev tripped : CircuitBreaker Fixed
tripped = record {
  failure_threshold = 3;
  recovery_timeout = secs 30;
  failures = 3;
  state = opened;
  opened_at = secs 100;
}

-- a clock that stands still
abbrev stopped : ℕ → Fixed
stopped n = secs 101

tripped-IsOut : IsOut stopped third_time tripped (tier (some tripped))
unfolding ◌-ℤ◌
tripped-IsOut = record { breaker = refl; state = refl; early = λ n h. refl }

outage_example :
    let (os, t) =
      call_all stopped third_time tripped ("AAPL" ∷ "MSFT" ∷ "AAPL" ∷ []) (tier (some tripped)) in
    All Spared os × (t.calls ≡ 0) × (t.breaker ≡ some tripped) × (t.inflight ≡ [])
outage_example =
    outage stopped third_time tripped ("AAPL" ∷ "MSFT" ∷ "AAPL" ∷ []) (tier (some tripped))
      tripped-IsOut refl

-- three threads, all for the same key
abbrev one_key : ℕ → String
one_key t = "AAPL"

abbrev two_entered : Flight
two_entered = enter 1 "AAPL" (enter 0 "AAPL" (start one_key))

two_entered-Reach : Reach (start one_key) two_entered
unfolding enter
two_entered-Reach = next (next here (miss 0 "AAPL" refl)) (miss 1 "AAPL" refl)

one_leader_example : ◌≡◌ {A = ℕ} 0 0
unfolding enter
one_leader_example = one_leader one_key two_entered two_entered-Reach 0 0 "AAPL" 0 0 refl refl

-- the leader has left the locked block of `_release`, a third thread leads, the second still waits
abbrev reclaimed : Flight
reclaimed = enter 2 "AAPL" (pop_done 0 "AAPL" two_entered)

reclaimed-Reach : Reach (start one_key) reclaimed
unfolding enter pop_done
reclaimed-Reach = next (next two_entered-Reach (pop 0 "AAPL" 0 refl)) (miss 2 "AAPL" refl)

no_lost_wakeup_example :
    (reclaimed.is_set 0 ≡ true)
    ⊎ ((reclaimed.place (reclaimed.maker 0) ≡ leading "AAPL" 0)
        ⊎ (reclaimed.place (reclaimed.maker 0) ≡ releasing (some 0)))
unfolding enter pop_done
no_lost_wakeup_example = no_lost_wakeup one_key reclaimed reclaimed-Reach 1 "AAPL" 0 refl

follower_wakes_example : (u : Flight) × Reach reclaimed u × (u.place 1 ≡ woken "AAPL")
unfolding enter pop_done
follower_wakes_example = follower_wakes one_key reclaimed reclaimed-Reach 1 "AAPL" 0 refl
