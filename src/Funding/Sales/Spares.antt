-- ===== src/Funding/Sales/Spares.antt =====
-- What a funding plan never sells.
use investwise_pro.Prelude.{
  ◌≡◌, refl, ◌∙◌, Bool, false, ◌||◌, Option, none, some, String, List, [], ◌∷◌, any, map, Dict,
  arith, Bool-cases, inl, inr,
}
use investwise_pro.Float.{Float, truthy}
use investwise_pro.Float.Sort.{any-sort_down}
use investwise_pro.Funding.Positions.{
  Desk, Held, PositionRow, TrimCandidate, listed, position_rows, by_class, targets_for, min_trade,
  trim_score, trim_list, rank_trim_candidates,
}
use investwise_pro.Funding.Sales.{
  Sale, Request, Raising, allowance, is_passed, sell_up_to, sell_if, sell_one, after_sale, and_sale,
  sell_all, raise, plan_funding,
}

module _ {F : Type 0} ⦃num : Float F⦄ where
  open num use {dec, le, lt, round}

  abbrev pub sells_any : List String → List (Sale F) → Bool
  sells_any tickers sells = any (λ (s : Sale F). listed tickers s.ticker) sells

  abbrev offers_any : List String → List (TrimCandidate F) → Bool
  offers_any tickers candidates =
      any (λ (c : TrimCandidate F). listed tickers c.held.ticker) candidates

  trim_list-spares :
      (nav : F) (mix target : Dict F) (cap : F) (exclude : List String) (positions : List (Held F))
      → offers_any exclude (trim_list nav mix target cap exclude positions) ≡ false
  unfolding trim_list
  trim_list-spares nav mix target cap exclude [] = refl
  trim_list-spares nav mix target cap exclude (p ∷ positions) =
      let rest = trim_list-spares nav mix target cap exclude positions in
      elim (Bool-cases (listed exclude p.ticker || lt p.value_ils min_trade)) [
        | inl barred ↦ rw barred rest
        | inr offered ↦ elim (Bool-cases (le (trim_score mix target cap p) (dec 0 0))) [
          | inl worthless ↦ rw (offered, worthless) rest
          | inr worth ↦ rw (offered, worth) (ground (arith, offered, rest))
        ]
      ]

  rank-spares :
      (desk : Desk F) (nav : F) (objective : Option String) (cap : F) (exclude : List String)
      (rows : List (PositionRow F))
      → offers_any
          (map desk.upper exclude)
          (rank_trim_candidates desk nav objective cap exclude rows)
        ≡ false
  unfolding rank_trim_candidates
  rank-spares desk nav objective cap exclude rows =
      let positions = position_rows desk nav rows in
      let mix = by_class (λ (p : Held F). p.weight) positions [] in
      let target = targets_for objective in
      let tickers = map desk.upper exclude in
      let candidates = trim_list nav mix target cap tickers positions in
      elim (Bool-cases (truthy nav)) [
        | inl valued ↦
            rw (rank_trim_candidates, valued)
              (any-sort_down (λ (c : TrimCandidate F). c.score)
                  (λ (c : TrimCandidate F). listed tickers c.held.ticker) candidates
                ∙ trim_list-spares nav mix target cap tickers positions)
        | inr worthless ↦ rw (rank_trim_candidates, worthless) refl
      ]

  -- the sale, if there is one, is of none of some tickers
  abbrev Spares : List String → Option (Sale F × Raising F) → Type 0
  Spares tickers o = sells_any tickers (and_sale o []) ≡ false

  and_sale-Spares :
      (tickers : List String) (o : Option (Sale F × Raising F)) (sells : List (Sale F))
      → Spares tickers o
      → sells_any tickers sells ≡ false
      → sells_any tickers (and_sale o sells) ≡ false
  and_sale-Spares tickers none sells h k = k
  and_sale-Spares tickers (some (s, r)) sells h k = ground (arith, h, k)

  module _ (desk : Desk F) (q : Request F) (budgeted : Bool) (tickers : List String) where
    sell_up_to-Spares :
        (c : TrimCandidate F) (allow : F) (s : Raising F)
        → listed tickers c.held.ticker ≡ false
        → Spares tickers (sell_up_to desk q.reserved c allow s)
    unfolding sell_up_to
    sell_up_to-Spares c allow s h = elim (Bool-cases (is_passed desk q.reserved c.held allow s)) [
      | inl passed ↦ rw (sell_up_to, passed) refl
      | inr sold ↦ rw (sell_up_to, sold) (ground (arith, h))
    ]

    sell_if-Spares :
        (c : TrimCandidate F) (allow : Option F) (s : Raising F)
        → listed tickers c.held.ticker ≡ false
        → Spares tickers (sell_if desk q.reserved c allow s)
    sell_if-Spares c none s h = refl
    sell_if-Spares c (some allow) s h = sell_up_to-Spares c allow s h

    sell_one-Spares :
        (c : TrimCandidate F) (s : Raising F)
        → listed tickers c.held.ticker ≡ false
        → Spares tickers (sell_one desk q budgeted c s)
    unfolding sell_one
    sell_one-Spares c s h = elim (Bool-cases (le c.held.price_ils (dec 0 0))) [
      | inl unpriced ↦ rw (sell_one, unpriced) refl
      | inr priced ↦
          rw (sell_one, priced)
            (sell_if-Spares c (allowance q.nav q.cap budgeted s.class_budget c.held) s h)
    ]

    sell_all-spares :
        (candidates : List (TrimCandidate F)) (s : Raising F)
        → offers_any tickers candidates ≡ false
        → sells_any tickers (sell_all desk q budgeted candidates s).0 ≡ false
    unfolding sell_all
    sell_all-spares [] s h = refl
    sell_all-spares (c ∷ candidates) s h =
        let sold = sell_one desk q budgeted c s in
        elim (Bool-cases (lt s.remaining_net min_trade)) [
          | inl enough ↦ rw enough refl
          | inr more ↦ rw more (
              and_sale-Spares tickers sold
                (sell_all desk q budgeted candidates (after_sale s sold)).0
                (sell_one-Spares c s (ground (arith, h)))
                (sell_all-spares candidates (after_sale s sold) (ground (arith, h))))
        ]

  raise-spares :
      (desk : Desk F) (q : Request F) (remaining_net : F)
      → sells_any (map desk.upper q.exclude) (raise desk q remaining_net).0 ≡ false
  unfolding raise
  raise-spares desk q remaining_net = elim (Bool-cases (le min_trade remaining_net)) [
    | inl needed ↦
        rw (raise, needed)
          (sell_all-spares desk q _ (map desk.upper q.exclude) _ _
            (rank-spares desk q.nav q.objective q.cap q.exclude q.rows))
    | inr covered ↦ rw (raise, covered) refl
  ]

  -- no plan sells a ticker that it is asked to leave alone
  pub plan_funding-spares :
      (desk : Desk F) (q : Request F) (asked : F)
      → sells_any (map desk.upper q.exclude) (plan_funding desk q asked).sells ≡ false
  unfolding plan_funding raise
  plan_funding-spares desk q asked = raise-spares desk q _
