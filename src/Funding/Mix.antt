-- ===== src/Funding/Mix.antt =====
-- `current_mix` of app/services/allocation_mix.py, `to_base` of app/services/fx.py, and
-- `buying_class_of` of app/services/funding_service.py.
use investwise_pro.Prelude.{
  Bool, all, Option, none, some, String, List, [], ◌∷◌, map, str_eq, Dict, insert, get_or,
  if◌then◌else◌,
}
use investwise_pro.Float.{Float, truthy}
use investwise_pro.Funding.{classify}
use investwise_pro.Funding.Positions.{Desk, PositionRow, rate_of, fx_rate}
use investwise_pro.Funding.Sales.{sum_from}

module _ {F : Type 0} ⦃num : Float F⦄ where
  open num use {dec, add, mul, div, round}

  abbrev base_value : Desk F → PositionRow F → F
  base_value desk p = mul (mul p.quantity p.current_price) (rate_of desk p.market p.price_currency)

  -- the loop over the rows
  unfoldable pub mix_from : Desk F → F → List (PositionRow F) → Dict F → Dict F
  mix_from desk nav [] mix = mix
  mix_from desk nav (p ∷ rows) mix =
      let cls = classify desk.mentions p.ticker p.market p.asset_class in
      mix_from desk nav rows
        (insert cls (round (add (get_or cls (dec 0 1) mix) (div (base_value desk p) nav)) 4) mix)

  unfoldable pub current_mix : Desk F → List (PositionRow F) → Dict F × F
  unfolding mix_from
  current_mix desk rows =
      let nav = sum_from (dec 0 0) (map (base_value desk) rows) in
      if truthy nav then (mix_from desk nav rows [], nav) else ([], dec 0 1)

  unfoldable pub to_base : Desk F → Option F → String → Option F
  to_base desk none ccy = none
  to_base desk (some amount) ccy = some (mul amount (fx_rate desk ccy))

-- the classes of the tickers that are named
abbrev classes_bought : (String → String → Bool) → List String → List String
classes_bought mentions [] = []
classes_bought mentions (t ∷ tickers) =
    let rest = classes_bought mentions tickers in
    if str_eq t "" then rest else classify mentions t "NASDAQ" none ∷ rest

abbrev only_one : List String → Option String
only_one [] = none
only_one (c ∷ cs) = if all (str_eq c) cs then some c else none

-- `_single_class`
unfoldable pub single_class : (String → String → Bool) → List String → Option String
single_class mentions tickers = only_one (classes_bought mentions tickers)

-- of the tickers of the legs, empty where a leg has none
unfoldable pub buying_class_of :
    (String → String) → (String → String → Bool) → List String → Option String
unfolding single_class
buying_class_of upper mentions legs = single_class mentions (map upper legs)
