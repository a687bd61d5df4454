-- ===== src/Resilience/Bucket.antt =====
-- `class TokenBucket` of app/providers/resilience.py.
pub mod Laws
use investwise_pro.Prelude.{Bool, true, false, if◌then◌else◌}
use investwise_pro.Float.{Float, min}

pub record TokenBucket (F : Type 0) : Type 0 where
  pub capacity : F
  pub refill_per_sec : F
  pub tokens : F
  pub updated : F

module _ {F : Type 0} ⦃num : Float F⦄ where
  open num use {add, sub, mul, le}

  unfoldable pub init : F → F → F → TokenBucket F
  init capacity refill now = record {
    capacity = capacity;
    refill_per_sec = refill;
    tokens = capacity;
    updated = now;
  }

  unfoldable pub refilled : F → TokenBucket F → F
  refilled now b = min b.capacity (add b.tokens (mul (sub now b.updated) b.refill_per_sec))

  unfoldable pub take : F → F → TokenBucket F → Bool × TokenBucket F
  take now n b =
      let tokens = refilled now b in
      let b' : TokenBucket F = record b { tokens = tokens; updated = now } in
      if le n tokens then (true, record b' { tokens = sub tokens n }) else (false, b')
