-- ===== src/Rules/Reachable/Rows.antt =====
-- Row by row, what evaluations, cards and lists do to the rules that claim a place.
use investwise_pro.Prelude.{
  ◌≡◌, refl, ap, Bool, true, false, ◌&&◌, Option, none, some, String, List, [], ◌∷◌, str_eq, lookup,
  Dict, arith, Bool-cases, Option-cases, inl, inr,
}
use investwise_pro.Float.{Float}
use investwise_pro.Rules.Data.{RuleType, one_per_ticker, TradingRule, Position, Strings}
use investwise_pro.Rules.Conditions.{is_signal}
use investwise_pro.Rules.Evaluation.{
  World, Fired, retire, step_signal, step_price, step, step_all, with_peak,
}
use investwise_pro.Rules.Evaluation.Shapes.{
  step_of_signal, step_of_held, step_flip_shape, step_price_shape,
}
use investwise_pro.Rules.Writes.Unique.{Below, none_left, row}
use investwise_pro.Rules.Cards.{card_step, cards, unlisted, row_of, listed_rules}
use investwise_pro.Rules.Writes.Claims.{claims}

module _ {F : Type 0} ⦃num : Float F⦄ (e t : String) (k : RuleType) (one : one_per_ticker k ≡ true)
    (py : Strings) where
  abbrev mine : TradingRule F → Bool
  mine = claims e t k

  step_signal_claims :
      (w : World F) (r : TradingRule F) (id : Option String)
      → mine (step_signal py w r id).0 ≡ mine r
  step_signal_claims w r none = refl
  step_signal_claims w r (some sid) = elim (Bool-cases (str_eq sid "")) [
    | inl empty ↦ rw empty refl
    | inr named ↦ elim (step_flip_shape py w r sid (w.flip_of sid)) [
      | inl (same, quiet) ↦ rw (named, same) refl
      | inr fired ↦ rw (named, fired) refl
    ]
  ]

  retired_claims : (r : TradingRule F) → mine (retire py r) ≡ false
  unfolding retire
  retired_claims r = ground arith

  step_price_claims :
      (w : World F) (r : TradingRule F) (pos : Position F)
      → mine (step_price py w (with_peak r pos.price) pos).0 ≡ mine r
  step_price_claims w r pos =
      let (on, at, shape, quiet) = step_price_shape py w (with_peak r pos.price) pos in
      rw shape (ground arith)

  step_claims : (w : World F) (r : TradingRule F) → mine (step py w r).0 ≡ true → mine r ≡ true
  step_claims w r h = elim (Bool-cases (is_signal r.rule_type)) [
    | inl signal ↦ ground (
      arith,
      h,
      ap (λ (t : TradingRule F × Option (Fired F)). mine t.0) (step_of_signal py w r signal),
      step_signal_claims w r r.strategy_id,
    )
    | inr priced ↦ elim (Option-cases (lookup (py.upper r.ticker) w.index)) [
      | inl missing ↦ ground (
        arith,
        h,
        ap (λ (t : TradingRule F × Option (Fired F)). mine t.0)
            (step_of_held py w r none priced missing),
        retired_claims r,
      )
      | inr (pos, there) ↦ ground (
        arith,
        h,
        ap (λ (t : TradingRule F × Option (Fired F)). mine t.0)
            (step_of_held py w r (some pos) priced there),
        step_price_claims w r pos,
      )
    ]
  ]

  pub step_all-Below :
      (w : World F) (email : String) (rules : List (TradingRule F))
      → Below mine rules (step_all py w email rules).0
  unfolding step_all
  step_all-Below w email [] = none_left
  step_all-Below w email (r ∷ rules) = elim (Bool-cases (str_eq r.subject email && r.active)) [
    | inl live ↦ rw live (row (step_claims w r) (step_all-Below w email rules))
    | inr off ↦ rw off (row (λ h. h) (step_all-Below w email rules))
  ]

  card_claims : (idx : Dict (Position F)) (r : TradingRule F) → mine (card_step py idx r).0 ≡ mine r
  unfolding card_step
  card_claims idx r = ground arith

  pub cards-Below :
      (idx : Dict (Position F)) (email : String) (rules : List (TradingRule F))
      → Below mine rules (cards py idx email rules).0
  unfolding cards
  cards-Below idx email [] = none_left
  cards-Below idx email (r ∷ rules) =
      elim (Bool-cases (str_eq r.subject email && r.active && r.triggered)) [
        | inl live ↦
            rw live (row (λ h. ground (arith, h, card_claims idx r)) (cards-Below idx email rules))
        | inr off ↦ rw off (row (λ h. h) (cards-Below idx email rules))
      ]

  unlisted_claims : (r : TradingRule F) → mine (unlisted py r) ≡ true → mine r ≡ true
  unlisted_claims r h = ground (arith, h)

  row_claims :
      (r : TradingRule F) (o : Option (Position F))
      → mine (row_of py r o).rule ≡ true
      → mine r ≡ true
  unfolding row_of
  row_claims r none h = unlisted_claims r h
  row_claims r (some pos) h = h

  pub listed_rules-Below :
      (idx : Dict (Position F)) (email : String) (rules : List (TradingRule F))
      → Below mine rules (listed_rules py idx email rules)
  unfolding listed_rules
  listed_rules-Below idx email [] = none_left
  listed_rules-Below idx email (r ∷ rules) = elim (Bool-cases (str_eq r.subject email)) [
    | inl owned ↦
        rw owned
          (row (row_claims r (lookup (py.upper r.ticker) idx)) (listed_rules-Below idx email rules))
    | inr other ↦ rw other (row (λ h. h) (listed_rules-Below idx email rules))
  ]
