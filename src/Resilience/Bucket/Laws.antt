-- ===== src/Resilience/Bucket/Laws.antt =====
-- The token bucket never holds less than nothing or more than its capacity.
use investwise_pro.Prelude.{◌≡◌, arith, Bool-cases, inl, inr, if◌then◌else◌}
use investwise_pro.Float.{Float, ◌≼◌, IsRounded}
use investwise_pro.Float.Order.{le_of_lt}
use investwise_pro.Float.Rounding.{add_nonneg, sub-le}
use investwise_pro.Resilience.Bucket.{TokenBucket, refilled, take}

module _ {F : Type 0} ⦃num : Float F⦄ where
  open num use {dec, add, sub, mul, le, lt}

  pub record IsValid (b : TokenBucket F) : Type 0 where
    pub tokens_nonneg : dec 0 0 ≼ b.tokens
    pub tokens_le : b.tokens ≼ b.capacity
    pub refill_nonneg : dec 0 0 ≼ b.refill_per_sec

  module _ (laws : IsRounded F) where
    open laws use {refl_of_le, refl_of_lt, ordered, mul_nonneg, sub_nonneg, nan_add, nan_mul}

    -- What a refill adds is not negative, if it is a number at all.
    refill_nonneg :
        (now : F) (b : TokenBucket F)
        → IsValid b
        → b.updated ≼ now
        → mul (sub now b.updated) b.refill_per_sec ≼ mul (sub now b.updated) b.refill_per_sec
        → dec 0 0 ≼ mul (sub now b.updated) b.refill_per_sec
    refill_nonneg now b v h n =
        mul_nonneg _ _ (sub_nonneg now b.updated h (nan_mul _ _ n).0) v.refill_nonneg n

    pub refilled_bounds :
        (now : F) (b : TokenBucket F)
        → IsValid b
        → b.updated ≼ now
        → (dec 0 0 ≼ refilled now b) × (refilled now b ≼ b.capacity)
    unfolding refilled
    refilled_bounds now b v h =
        let full = (refl_of_le _ _ v.tokens_le).1 in
        let level = add b.tokens (mul (sub now b.updated) b.refill_per_sec) in
        elim (Bool-cases (lt level b.capacity)) [
          | inl less ↦
              let n = (refl_of_lt _ _ less).0 in
              rw less (
                add_nonneg laws _ _ v.tokens_nonneg (refill_nonneg now b v h (nan_add _ _ n).1) n,
                le_of_lt ordered _ _ less,
              )
          | inr more ↦ rw more (laws.le_trans _ _ _ v.tokens_nonneg v.tokens_le, full)
        ]

    -- Taking a finite amount from a valid bucket, at a time not before the last, leaves it valid;
    -- the amount is granted exactly when the refilled bucket holds it, and only then taken.
    pub take-IsValid :
        (now n : F) (b : TokenBucket F)
        → IsValid b
        → b.updated ≼ now
        → dec 0 0 ≼ n
        → ((x : F) → x ≼ x → sub x n ≼ sub x n)
        → let (granted, b') = take now n b in
          IsValid b'
          × (granted ≡ le n (refilled now b))
          × (b'.tokens ≡ (if granted then sub (refilled now b) n else refilled now b))
          × (b'.updated ≡ now)
    unfolding take
    take-IsValid now n b v h hn finite =
        let (low, high) = refilled_bounds now b v h in
        ground (
          arith,
          finite (refilled now b) (refl_of_le _ _ high).0,
          sub_nonneg (refilled now b) n,
          sub-le laws (refilled now b) n (refl_of_le _ _ high).0,
          laws.le_trans (sub (refilled now b) n) (refilled now b) b.capacity,
        )
