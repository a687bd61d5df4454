-- ===== src/Rules/Evaluation/Latch.antt =====
-- Hysteresis: a cap on a holding's weight that has fired stays latched until the weight is clear of it.
use investwise_pro.Prelude.{
  ◌≡◌, refl, ap, ◌∙◌, Bool, Bool-cases, inl, inr, true, false, Option, none, some, List, [], ◌∷◌,
  All, lookup,
}
use investwise_pro.Float.{Float}
use investwise_pro.Rules.Data.{max_weight, is_standing, TradingRule, Position, Strings}
use investwise_pro.Rules.Conditions.{evaluate, clears_with_margin, rearm_threshold, level_of}
use investwise_pro.Rules.Evaluation.{World, Fired, is_trailing, with_peak, step_price, step}
use investwise_pro.Rules.Evaluation.Shapes.{step_of_held}

module _ {F : Type 0} where
  abbrev pub silent : List (Option (Fired F)) → Bool
  silent [] = true
  silent (none ∷ fs) = silent fs
  silent (some f ∷ fs) = false

module _ {F : Type 0} ⦃num : Float F⦄ (py : Strings) where
  -- the rule after an evaluation on each of some worlds, and what the evaluations fired
  abbrev pub step_through : TradingRule F → List (World F) → TradingRule F × List (Option (Fired F))
  step_through r [] = (r, [])
  step_through r (w ∷ ws) =
      let (r', f) = step py w r in let (r'', fs) = step_through r' ws in (r'', f ∷ fs)

  -- the rule's holding is in the index, and its weight is above the level at which the cap re-arms
  abbrev pub StaysHeavy : TradingRule F → World F → Type 0
  StaysHeavy r w =
      (pos : Position F) × (lookup (py.upper r.ticker) w.index ≡ some pos)
      × (num.le pos.weight_pct (rearm_threshold (level_of r)) ≡ false)

  module _ (r : TradingRule F) (cap : r.rule_type ≡ max_weight) (on : r.triggered ≡ true) where
    step_price_heavy :
        (w : World F) (pos : Position F)
        → num.le pos.weight_pct (rearm_threshold (level_of r)) ≡ false
        → step_price py w r pos ≡ (r, none)
    unfolding step_price clears_with_margin
    step_price_heavy w pos heavy =
        let hit = (evaluate r pos.price pos.cost pos.weight_pct).hit in
        let kept : clears_with_margin r pos.price pos.weight_pct ≡ false =
          rw (clears_with_margin, cap) heavy in
        let capped : is_standing r.rule_type ≡ true = rw cap refl in
        elim (Bool-cases hit) [
          | inl hit_now ↦ rw (step_price, hit_now, on) refl
          | inr missed ↦ rw (step_price, missed, on, capped, kept) refl
        ]

    step_heavy : (w : World F) → StaysHeavy r w → step py w r ≡ (r, none)
    step_heavy w (pos, held, heavy) =
        let other : is_trailing r.rule_type ≡ false = rw cap refl in
        let peak : with_peak r pos.price ≡ r = rw other refl in
        step_of_held py w r (some pos) (rw cap refl) held
        ∙ (ap (λ (t : TradingRule F). step_price py w t pos) peak ∙ step_price_heavy w pos heavy)

  -- A cap on a holding's weight that has fired stays latched, and fires on none of any number of
  -- evaluations at which the holding is in the book and its weight still above the level that re-arms
  -- the cap, however it crosses the cap itself in between.
  pub step_through-silent :
      (r : TradingRule F) (ws : List (World F))
      → r.rule_type ≡ max_weight
      → r.triggered ≡ true
      → All (StaysHeavy r) ws
      → (step_through r ws).0 ≡ r × (silent (step_through r ws).1 ≡ true)
  step_through-silent r [] cap on heavy = (refl, refl)
  step_through-silent r (w ∷ ws) cap on (now, later) =
      let (same, quiet) = step_through-silent r ws cap on later in
      rw (step_heavy r cap on w now) (same, quiet)
