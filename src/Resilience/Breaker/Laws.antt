-- ===== src/Resilience/Breaker/Laws.antt =====
-- The circuit breaker over sequences of events.
use investwise_pro.Prelude.{
  ℕ, suc, ◌+◌, ◌<◌, ◌≤◌, ◌≡◌, Bool, true, false, List, [], ◌∷◌, map, length, arith, leb, any, ◌++◌,
  refl, if◌then◌else◌,
}
use investwise_pro.Float.{Float}
use investwise_pro.Resilience.Breaker.{
  is_opened, closed, opened, half_open, CircuitBreaker, allow, record_success, record_failure,
}

-- What the callers of a breaker do to it, each with its reading of the clock.
pub data Event (F : Type 0) : Type 0 where
  ask : F → Event F
  succeed : Event F
  fail : F → Event F

pub record IsValid {F : Type 0} (b : CircuitBreaker F) : Type 0 where
  pub below : b.state ≡ closed → b.failures < b.failure_threshold
  pub positive : 0 < b.failure_threshold

module _ {F : Type 0} ⦃num : Float F⦄ where
  open num use {sub, le}

  unfoldable pub step : CircuitBreaker F → Event F → CircuitBreaker F
  step b (ask now) = (allow now b).1
  step b succeed = record_success b
  step b (fail now) = record_failure now b

  unfoldable pub run : List (Event F) → CircuitBreaker F → CircuitBreaker F
  run [] b = b
  run (e ∷ es) b = run es (step b e)

  step-IsValid : (b : CircuitBreaker F) (e : Event F) → IsValid b → IsValid (step b e)
  unfolding step allow record_success record_failure
  step-IsValid b (ask now) v = ground (arith, v.below)
  step-IsValid b succeed v = ground (arith, v.positive)
  step-IsValid b (fail now) v = ground (arith, v.below)

  -- A breaker with fewer failures than its threshold while it is closed, and a threshold above zero,
  -- stays such a one through any sequence of questions, successes and failures.
  pub run-IsValid : (es : List (Event F)) (b : CircuitBreaker F) → IsValid b → IsValid (run es b)
  unfolding run
  run-IsValid [] b v = v
  run-IsValid (e ∷ es) b v = run-IsValid es (step b e) (step-IsValid b e v)

  -- Once it is open with the threshold reached, failures keep it open.
  opened-run_fail :
      (nows : List F) (b : CircuitBreaker F)
      → b.state ≡ opened
      → b.failure_threshold ≤ b.failures
      → (run (map fail nows) b).state ≡ opened
  unfolding run step record_failure
  opened-run_fail [] b o h = o
  opened-run_fail (now ∷ nows) b o h =
      opened-run_fail nows (record_failure now b) (ground arith) (ground arith)

  -- From a closed breaker with `n` failures, more failures in a row open it exactly when the count
  -- reaches the threshold.
  pub state-run_fail :
      (n : ℕ) (nows : List F) (b : CircuitBreaker F)
      → b.state ≡ closed
      → b.failures < b.failure_threshold
      → b.failures ≡ n
      → (run (map fail nows) b).state
        ≡ (if leb b.failure_threshold (n + length nows) then opened else closed)
  unfolding run step record_failure
  state-run_fail n [] b c h e = ground arith
  state-run_fail n (now ∷ nows) b c h e = ground (
    arith,
    opened-run_fail nows (record_failure now b),
    state-run_fail (suc n) nows (record_failure now b),
  )

  -- The answers to a row of questions, and the breaker after them.
  unfoldable pub asks : List F → CircuitBreaker F → List Bool × CircuitBreaker F
  asks [] b = ([], b)
  asks (now ∷ nows) b =
      let (answer, b') = allow now b in let (answers, b'') = asks nows b' in (answer ∷ answers, b'')

  -- the answer to each question of a row: yes from the first one on that passes the test
  abbrev pub from_first : (F → Bool) → List F → List Bool
  from_first p [] = []
  from_first p (x ∷ xs) =
      let rest = from_first p xs in if p x then true ∷ map (λ _. true) xs else false ∷ rest

  -- whether the timeout has passed when the clock reads `now`, for a circuit opened at `f`
  abbrev pub is_late : CircuitBreaker F → F → F → Bool
  is_late b f now = le b.recovery_timeout (sub now f)

  -- the last of a row of failures that reaches the threshold opens the circuit and is its time
  run_fail-last :
      (fs : List F) (f : F) (b : CircuitBreaker F)
      → b.failure_threshold ≤ b.failures + length fs + 1
      → (n : ℕ) × (run (map fail (fs ++ f ∷ [])) b
          ≡ record b { failures = n; state = opened; opened_at = f })
        × (b.failure_threshold ≤ n)
  unfolding run step record_failure
  run_fail-last [] f b h = (b.failures + 1, ground arith, ground arith)
  run_fail-last (g ∷ fs) f b h =
      let (n, e, le_n) = run_fail-last fs f (record_failure g b) (ground arith) in
      (n, ground (arith, e), ground (arith, le_n))

  asks_admitted :
      (nows : List F) (b : CircuitBreaker F)
      → is_opened b.state ≡ false
      → asks nows b ≡ (map (λ _. true) nows, b)
  unfolding asks allow
  asks_admitted [] b o = refl
  asks_admitted (now ∷ nows) b o = ground (arith, asks_admitted nows b o)

  asks_opened :
      (nows : List F) (b : CircuitBreaker F)
      → b.state ≡ opened
      → asks nows b ≡ (
        from_first (is_late b b.opened_at) nows,
        (if any (is_late b b.opened_at) nows then record b { state = half_open } else b),
      )
  unfolding asks allow
  asks_opened [] b o = refl
  asks_opened (now ∷ nows) b o =
      ground (arith, asks_admitted nows (record b { state = half_open }) refl, asks_opened nows b o)

  -- A row of failures that reaches the threshold, the last at `f`, and then a row of questions: a
  -- question is answered yes exactly when it or one before it in the row comes when the timeout has
  -- passed since `f`. The circuit is then half open when there was such a question and open as before
  -- otherwise, and a failure at `u` opens it, again with `u` as its time.
  pub asks-run_fail :
      (fs : List F) (f : F) (nows : List F) (u : F) (b : CircuitBreaker F)
      → b.failure_threshold ≤ b.failures + length fs + 1
      → let (answers, b') = asks nows (run (map fail (fs ++ f ∷ [])) b) in
        (answers ≡ from_first (is_late b f) nows)
        × (b'.state ≡ (if any (is_late b f) nows then half_open else opened))
        × ((record_failure u b').state ≡ opened)
        × ((record_failure u b').opened_at ≡ u)
  unfolding record_failure
  asks-run_fail fs f nows u b h =
      let (n, e, le_n) = run_fail-last fs f b h in
      let o : CircuitBreaker F = record b { failures = n; state = opened; opened_at = f } in
      ground (arith, e, le_n, asks_opened nows o refl)
