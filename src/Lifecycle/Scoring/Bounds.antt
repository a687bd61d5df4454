-- ===== src/Lifecycle/Scoring/Bounds.antt =====
-- Scores stay on the scale, and rise with what they are made of.
use investwise_pro.Prelude.{ℕ, arith}
use investwise_pro.Float.{Float, ◌≼◌, max, min, IsOrdered, IsRounded}
use investwise_pro.Float.Order.{
  dec_refl, le-max_left, le-max_right, max-le, min-le_left, min-le_right, le-min,
}
use investwise_pro.Lifecycle.Signals.{ConfidenceBreakdown}
use investwise_pro.Lifecycle.Scoring.{clamp_score, compute_confidence}

module _ {F : Type 0} ⦃num : Float F⦄ (laws : IsOrdered F) where
  open num use {dec}
  open laws use {dec_mono, refl_of_le, le_trans}

  -- Whatever is clamped, NaN included, the score lies from 0 to 100.
  pub clamp_score_bounds : (x : F) → (dec 0 0 ≼ clamp_score x) × (clamp_score x ≼ dec 100 0)
  unfolding clamp_score
  clamp_score_bounds x = (
    le-max_left laws (dec 0 0) (min (dec 100 0) x) (dec_refl laws 0 0),
    max-le laws (dec 0 0) (min (dec 100 0) x) (dec 100 0) (dec_mono 0 0 100 0 (omega arith))
        (min-le_left laws (dec 100 0) x (dec_refl laws 100 0)),
  )

  -- A value on the scale stays the same number.
  pub clamp_score_same :
      (x : F) → dec 0 0 ≼ x → x ≼ dec 100 0 → (clamp_score x ≼ x) × (x ≼ clamp_score x)
  unfolding clamp_score
  clamp_score_same x low high =
      let top = dec_refl laws 100 0 in
      let here = (refl_of_le _ _ low).1 in
      let inner = min-le_right laws (dec 100 0) x top here in
      (
        max-le laws (dec 0 0) (min (dec 100 0) x) x low inner,
        le_trans x (min (dec 100 0) x) _ (le-min laws (dec 100 0) x x high here) (
            le-max_right laws (dec 0 0) (min (dec 100 0) x) (dec_refl laws 0 0)
              (refl_of_le _ _ inner).0),
      )

  clamp_score_mono : (x y : F) → x ≼ y → clamp_score x ≼ clamp_score y
  unfolding clamp_score
  clamp_score_mono x y h =
      let (hx, hy) = refl_of_le x y h in
      let zero_refl = dec_refl laws 0 0 in
      let top = dec_refl laws 100 0 in
      let low =
        le-min laws (dec 100 0) y (min (dec 100 0) x) (min-le_left laws (dec 100 0) x top)
          (le_trans _ x y (min-le_right laws (dec 100 0) x top hx) h) in
      max-le laws (dec 0 0) (min (dec 100 0) x) (max (dec 0 0) (min (dec 100 0) y))
        (le-max_left laws (dec 0 0) (min (dec 100 0) y) zero_refl)
        (le_trans _ (min (dec 100 0) y) _ low
          (le-max_right laws (dec 0 0) (min (dec 100 0) y) zero_refl (refl_of_le _ _ low).1))

module _ {F : Type 0} ⦃num : Float F⦄ (laws : IsRounded F) where
  open num use {dec, add, mul}
  open laws use {ordered, dec_mono, mul_mono, add_mono, nan_add}

  -- one term of a weighted sum
  term_mono :
      (m k : ℕ) (x y : F)
      → x ≼ y
      → mul (dec m k) (clamp_score x) ≼ mul (dec m k) (clamp_score x)
      → mul (dec m k) (clamp_score y) ≼ mul (dec m k) (clamp_score y)
      → mul (dec m k) (clamp_score x) ≼ mul (dec m k) (clamp_score y)
  term_mono m k x y h n o =
      mul_mono _ _ (dec m k) (clamp_score_mono ordered x y h) (dec_mono 0 0 m k (omega arith)) n o

  -- Where neither confidence is NaN, raising any of its four components never lowers it.
  pub compute_confidence_mono :
      (a b : ConfidenceBreakdown F)
      → a.data_quality ≼ b.data_quality
      → a.model_agreement ≼ b.model_agreement
      → a.historical_accuracy ≼ b.historical_accuracy
      → a.market_stability ≼ b.market_stability
      → compute_confidence a ≼ compute_confidence a
      → compute_confidence b ≼ compute_confidence b
      → compute_confidence a ≼ compute_confidence b
  unfolding compute_confidence
  compute_confidence_mono a b h₁ h₂ h₃ h₄ n o =
      let (n₁, n₄) = nan_add _ _ n in
      let (o₁, o₄) = nan_add _ _ o in
      let (n₂, n₃) = nan_add _ _ n₁ in
      let (o₂, o₃) = nan_add _ _ o₁ in
      let (p, q) = nan_add _ _ n₂ in
      let (r, s) = nan_add _ _ o₂ in
      add_mono _ _ _ _
        (add_mono _ _ _ _
          (add_mono _ _ _ _ (term_mono 40 2 _ _ h₁ p r) (term_mono 30 2 _ _ h₂ q s) n₂ o₂)
          (term_mono 20 2 _ _ h₃ n₃ o₃) n₁ o₁)
        (term_mono 10 2 _ _ h₄ n₄ o₄) n o
