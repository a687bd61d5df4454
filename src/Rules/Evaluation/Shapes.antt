-- ===== src/Rules/Evaluation/Shapes.antt =====
-- What one step of an evaluation does to a rule, case by case.
use investwise_pro.Prelude.{
  ◌≡◌, refl, Bool, true, false, not, ◌&&◌, Option, none, some, String, str_eq, lookup, arith,
  Bool-cases, Option-cases, inl, inr, ◌⊎◌,
}
use investwise_pro.Float.{Float}
use investwise_pro.Rules.Data.{is_standing, TradingRule, Position, Strings}
use investwise_pro.Rules.Conditions.{evaluate, condition, clears_with_margin, is_signal}
use investwise_pro.Rules.Evaluation.{
  World, Flip, is_trailing, signal_side, step_flip, step_signal, with_peak, step_price, step_held,
  step, latched,
}

module _ {F : Type 0} ⦃num : Float F⦄ where
  open num use {dec, le, lt}

  -- a rule that differs from `r` in its latch alone
  abbrev pub relatched : TradingRule F → Bool → Option F → TradingRule F
  relatched r on at = record r { triggered = on; last_triggered_at = at }

  pub evaluate-relatched :
      (r : TradingRule F) (on : Bool) (at : Option F) (cur cost weight : F)
      → evaluate (relatched r on at) cur cost weight ≡ evaluate r cur cost weight
  unfolding evaluate condition
  evaluate-relatched r on at cur cost weight = refl

  pub clears_relatched :
      (r : TradingRule F) (on : Bool) (at : Option F) (cur weight : F)
      → clears_with_margin (relatched r on at) cur weight ≡ clears_with_margin r cur weight
  unfolding clears_with_margin
  clears_relatched r on at cur weight = refl

  abbrev pub hits : TradingRule F → Position F → Bool
  hits r pos = (evaluate r pos.price pos.cost pos.weight_pct).hit

  -- a rule that is not newly hit fires nothing
  pub step_price_silent :
      (py : Strings) (w : World F) (r : TradingRule F) (pos : Position F)
      → (hits r pos && not r.triggered) ≡ false
      → (step_price py w r pos).1 ≡ none
  unfolding step_price
  step_price_silent py w r pos h =
      elim (Bool-cases (
        not (hits r pos)
        && r.triggered
        && is_standing r.rule_type
        && clears_with_margin r pos.price pos.weight_pct)) [
          | inl clears ↦ rw (step_price, h, clears) refl
          | inr stays ↦ rw (step_price, h, stays) refl
        ]

  -- a step changes the latch alone, and a hit leaves it on
  pub step_price_shape :
      (py : Strings) (w : World F) (r : TradingRule F) (pos : Position F)
      → (on : Bool) × (at : Option F) × ((step_price py w r pos).0 ≡ relatched r on at)
        × ((hits r pos && not on) ≡ false)
  unfolding step_price
  step_price_shape py w r pos = elim (Bool-cases (hits r pos && not r.triggered)) [
    | inl new ↦ (true, some w.now, rw (step_price, new) refl, ground arith)
    | inr old ↦
        elim (Bool-cases (
          not (hits r pos)
          && r.triggered
          && is_standing r.rule_type
          && clears_with_margin r pos.price pos.weight_pct)) [
            | inl clears ↦ (
              false,
              r.last_triggered_at,
              rw (step_price, old, clears) refl,
              ground (arith, clears),
            )
            | inr stays ↦ (r.triggered, r.last_triggered_at, rw (step_price, old, stays) refl, old)
          ]
  ]

  pub step_flip_shape :
      (py : Strings) (w : World F) (r : TradingRule F) (sid : String) (flip : Option (Flip F))
      → (((step_flip py w r sid flip).0 ≡ r) × ((step_flip py w r sid flip).1 ≡ none))
        ⊎ ((step_flip py w r sid flip).0 ≡ latched w r)
  unfolding step_flip
  step_flip_shape py w r sid none = inl (refl, refl)
  step_flip_shape py w r sid (some flip) =
      elim (Option-cases (signal_side py.upper flip r.ticker)) [
        | inl still ↦ inl (rw (step_flip, still) (refl, refl))
        | inr (side, turned) ↦ elim (Bool-cases (str_eq side r.mode && not r.triggered)) [
          | inl fires ↦ inr (rw (step_flip, turned, fires) refl)
          | inr silent ↦ inl (rw (step_flip, turned, silent) (refl, refl))
        ]
      ]

  pub step_flip_silent :
      (py : Strings) (w : World F) (r : TradingRule F) (sid : String) (flip : Option (Flip F))
      → r.triggered ≡ true
      → (step_flip py w r sid flip).1 ≡ none
  unfolding step_flip
  step_flip_silent py w r sid none on = refl
  step_flip_silent py w r sid (some flip) on =
      elim (Option-cases (signal_side py.upper flip r.ticker)) [
        | inl still ↦ rw (step_flip, still) refl
        | inr (side, turned) ↦
            let old : (str_eq side r.mode && not r.triggered) ≡ false = ground (arith, on) in
            rw (step_flip, turned, old) refl
      ]

  pub step_flip_again :
      (py : Strings) (w : World F) (r : TradingRule F) (sid : String) (flip : Option (Flip F))
      → (step_flip py w (step_flip py w r sid flip).0 sid flip).1 ≡ none
  step_flip_again py w r sid flip = elim (step_flip_shape py w r sid flip) [
    | inl (same, quiet) ↦ rw same quiet
    | inr fired ↦ rw fired (step_flip_silent py w (latched w r) sid flip refl)
  ]

  pub strategy_kept :
      (py : Strings) (w : World F) (r : TradingRule F) (sid : String) (flip : Option (Flip F))
      → ((step_flip py w r sid flip).0.strategy_id ≡ r.strategy_id)
        × ((step_flip py w r sid flip).0.rule_type ≡ r.rule_type)
  strategy_kept py w r sid flip = elim (step_flip_shape py w r sid flip) [
    | inl (same, quiet) ↦ rw same (refl, refl)
    | inr fired ↦ rw fired (refl, refl)
  ]

  pub step_signal_again :
      (py : Strings) (w : World F) (r : TradingRule F) (id : Option String)
      → (step_signal py w (step_signal py w r id).0 id).1 ≡ none
  step_signal_again py w r none = refl
  step_signal_again py w r (some sid) = elim (Bool-cases (str_eq sid "")) [
    | inl empty ↦ rw empty refl
    | inr named ↦ rw named (step_flip_again py w r sid (w.flip_of sid))
  ]

  abbrev pub Kept : TradingRule F → TradingRule F → Type 0
  Kept r t = (t.strategy_id ≡ r.strategy_id) × (t.rule_type ≡ r.rule_type)

  pub step_signal-Kept :
      (py : Strings) (w : World F) (r : TradingRule F) (id : Option String)
      → Kept r (step_signal py w r id).0
  step_signal-Kept py w r none = (refl, refl)
  step_signal-Kept py w r (some sid) = elim (Bool-cases (str_eq sid "")) [
    | inl empty ↦ rw empty (refl, refl)
    | inr named ↦ rw named (strategy_kept py w r sid (w.flip_of sid))
  ]

  pub peak-Kept :
      (r : TradingRule F) (cur : F)
      → ((with_peak r cur).rule_type ≡ r.rule_type) × ((with_peak r cur).ticker ≡ r.ticker)
  peak-Kept r cur = elim (Bool-cases (is_trailing r.rule_type && lt (dec 0 0) cur)) [
    | inl rising ↦ rw rising (refl, refl)
    | inr still ↦ rw still (refl, refl)
  ]

  pub step_of_signal :
      (py : Strings) (w : World F) (r : TradingRule F)
      → is_signal r.rule_type ≡ true
      → step py w r ≡ step_signal py w r r.strategy_id
  unfolding step
  step_of_signal py w r h = rw (step, h) refl

  pub step_of_held :
      (py : Strings) (w : World F) (r : TradingRule F) (o : Option (Position F))
      → is_signal r.rule_type ≡ false
      → lookup (py.upper r.ticker) w.index ≡ o
      → step py w r ≡ step_held py w r o
  unfolding step
  step_of_held py w r o h there = rw (step, h, there) refl
