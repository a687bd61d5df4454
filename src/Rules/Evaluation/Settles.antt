-- ===== src/Rules/Evaluation/Settles.antt =====
-- An evaluation with nothing new to see fires nothing.
use investwise_pro.Prelude.{
  ◌≡◌, refl, Bool, true, false, not, ◌&&◌, ◌||◌, Option, none, some, String, List, [], ◌∷◌, any,
  filter, is_some, is_empty, str_eq, lookup, arith, Bool-cases, Option-cases, ap, ◌∙◌, or_else, inl,
  inr,
}
use investwise_pro.Float.{Float, max, truthy, IsOrdered}
use investwise_pro.Rules.Data.{TradingRule, Position, Store, Strings}
use investwise_pro.Rules.Conditions.{evaluate, condition, peak_or, is_signal}
use investwise_pro.Rules.Holdings.{purge_orphan_rules, is_orphan}
use investwise_pro.Rules.Evaluation.{
  World, Fired, is_trailing, step_signal, retire, with_peak, step_price, step_held, step, step_all,
  evaluate_user,
}
use investwise_pro.Rules.Evaluation.Shapes.{
  relatched, step_price_silent, step_price_shape, peak-Kept, step_of_signal, step_of_held,
  step_signal-Kept, step_signal_again,
}

module _ {F : Type 0} ⦃num : Float F⦄ (laws : IsOrdered F) where
  open num use {dec, le, lt}

  truthy_pos : (x : F) → lt (dec 0 0) x ≡ true → truthy x ≡ true
  truthy_pos x h =
      let (n, m) = laws.refl_of_lt (dec 0 0) x h in
      ground (arith, h, laws.eq-eq-le x (dec 0 0), laws.lt-eq-not-le (dec 0 0) x n m)

  max_twice : (q cur : F) → max (max q cur) cur ≡ max q cur
  max_twice q cur = ground arith

  truthy_peak :
      (p : Option F) (cur : F) → lt (dec 0 0) cur ≡ true → truthy (max (peak_or p cur) cur) ≡ true
  truthy_peak none cur h = ground (arith, truthy_pos cur h)
  truthy_peak (some p) cur h = ground (arith, truthy_pos cur h)

  -- the raised peak is not raised again by the same price
  peak_again :
      (p : Option F) (cur : F)
      → lt (dec 0 0) cur ≡ true
      → let m = max (peak_or p cur) cur in max (peak_or (some m) cur) cur ≡ m
  peak_again p cur h = rw (truthy_peak p cur h) (max_twice (peak_or p cur) cur)

  with_peak_again :
      (r : TradingRule F) (cur : F) (on : Bool) (at : Option F)
      → with_peak (relatched (with_peak r cur) on at) cur ≡ relatched (with_peak r cur) on at
  with_peak_again r cur on at = elim (Bool-cases (is_trailing r.rule_type && lt (dec 0 0) cur)) [
    | inl rising ↦ rw (rising, rising, peak_again r.peak_price cur (ground (arith, rising))) refl
    | inr still ↦ rw (still, still) refl
  ]

  step_price_again :
      (py : Strings) (w : World F) (r : TradingRule F) (pos : Position F)
      → (step_price py w
          (with_peak (step_price py w (with_peak r pos.price) pos).0 pos.price)
          pos).1
        ≡ none
  step_price_again py w r pos =
      let (on, at, shape, quiet) = step_price_shape py w (with_peak r pos.price) pos in
      rw (shape, with_peak_again r pos.price on at)
        (step_price_silent py w (relatched (with_peak r pos.price) on at) pos
          (unfold evaluate in unfold condition in quiet))

  retired_inactive :
      (py : Strings) (w : World F) (r : TradingRule F)
      → ((retire py r).active && is_some (step py w (retire py r)).1) ≡ false
  unfolding retire
  retired_inactive py w r =
      elim (Bool-cases
        (py.starts_with (or_else r.note "") "retired:" || str_eq (py.upper r.ticker) "CASH")) [
          | inl quiet ↦ rw quiet refl
          | inr noted ↦ rw noted refl
        ]

  step_signal_rule :
      (py : Strings) (w : World F) (r : TradingRule F)
      → is_signal r.rule_type ≡ true
      → (step py w (step_signal py w r r.strategy_id).0).1 ≡ none
  step_signal_rule py w r h =
      let r' = (step_signal py w r r.strategy_id).0 in
      let (sid, kind) = step_signal-Kept py w r r.strategy_id in
      let again : step py w r' ≡ step_signal py w r' r'.strategy_id =
        step_of_signal py w r' (rw kind h) in
      ap (λ (t : TradingRule F × Option (Fired F)). t.1) again
      ∙ (ap (λ (id : Option String). (step_signal py w r' id).1) sid
          ∙ step_signal_again py w r r.strategy_id)

  step_price_rule :
      (py : Strings) (w : World F) (r : TradingRule F) (pos : Position F)
      → is_signal r.rule_type ≡ false
      → lookup (py.upper r.ticker) w.index ≡ some pos
      → (step py w (step_price py w (with_peak r pos.price) pos).0).1 ≡ none
  step_price_rule py w r pos h there =
      let peaked = with_peak r pos.price in
      let r' = (step_price py w peaked pos).0 in
      let (on, at, shape, quiet) = step_price_shape py w peaked pos in
      let (kind, tk) = peak-Kept r pos.price in
      let again : step py w r' ≡ step_held py w r' (some pos) =
        step_of_held py w r' (some pos) (rw (shape, kind) h) (rw (shape, tk) there) in
      ap (λ (t : TradingRule F × Option (Fired F)). t.1) again ∙ step_price_again py w r pos

  and_none : (b : Bool) (o : Option (Fired F)) → o ≡ none → (b && is_some o) ≡ false
  and_none true o h = rw h refl
  and_none false o h = refl

  -- a second step on the same world fires nothing, if the rule is still active
  step_again :
      (py : Strings) (w : World F) (r : TradingRule F)
      → ((step py w r).0.active && is_some (step py w (step py w r).0).1) ≡ false
  step_again py w r = elim (Bool-cases (is_signal r.rule_type)) [
    | inl signal ↦ rw (step_of_signal py w r signal) (and_none _ _ (step_signal_rule py w r signal))
    | inr priced ↦ elim (Option-cases (lookup (py.upper r.ticker) w.index)) [
      | inl missing ↦ rw (step_of_held py w r none priced missing) (retired_inactive py w r)
      | inr (pos, there) ↦
          rw (step_of_held py w r (some pos) priced there)
            (and_none _ _ (step_price_rule py w r pos priced there))
    ]
  ]

  module _ (py : Strings) (w : World F) (email : String) where
    abbrev fires : TradingRule F → Bool
    fires r = str_eq r.subject email && (r.active && is_some (step py w r).1)

    fired_none :
        (rules : List (TradingRule F))
        → any fires rules ≡ false
        → (step_all py w email rules).1 ≡ []
    unfolding step_all
    fired_none [] h = refl
    fired_none (r ∷ rules) h = ground (arith, h, fired_none rules)

    fires_again : (rules : List (TradingRule F)) → any fires (step_all py w email rules).0 ≡ false
    unfolding step_all
    fires_again [] = refl
    fires_again (r ∷ rules) = ground (arith, fires_again rules, step_again py w r)

    fires-filter :
        (p : TradingRule F → Bool) (rules : List (TradingRule F))
        → any fires rules ≡ false
        → any fires (filter p rules) ≡ false
    fires-filter p [] h = refl
    fires-filter p (r ∷ rules) h = ground (arith, h, fires-filter p rules)

    quiet_user : (s : Store F) → any fires s.rules ≡ false → (evaluate_user py w email s).0 ≡ []
    unfolding evaluate_user purge_orphan_rules
    quiet_user s h = elim (Bool-cases (is_empty w.index)) [
      | inl empty ↦ rw (evaluate_user, purge_orphan_rules, empty) (fired_none s.rules h)
      | inr held ↦
          rw (evaluate_user, purge_orphan_rules, held)
            (fired_none _ (fires-filter (λ r. not (is_orphan py.upper email w.index r)) s.rules h))
    ]

    -- With an order on the numbers, an evaluation of the rules that is repeated on the same holdings,
    -- signals and clock fires nothing: every condition that was newly met is latched, and what was
    -- let go is not met.
    pub evaluate_user_settles :
        (s : Store F) → (evaluate_user py w email (evaluate_user py w email s).1).0 ≡ []
    unfolding evaluate_user purge_orphan_rules
    evaluate_user_settles s =
        quiet_user (evaluate_user py w email s).1
          (fires_again (purge_orphan_rules py.upper email w.index s).1.rules)
