-- ===== src/Funding/Positions.antt =====
-- `price_currency` and `fx_rate` of app/services/fx.py, and `_position_rows` and `rank_trim_candidates`
-- of app/services/funding_service.py.
use investwise_pro.Prelude.{
  ℕ, Bool, false, not, ◌||◌, Option, none, some, String, List, [], ◌∷◌, any, map, str_eq, Dict,
  insert, get_or, or_else, fstring, if◌then◌else◌,
}
use investwise_pro.Float.{Float, max, min, truthy}
use investwise_pro.Float.Sort.{sort_down}
use investwise_pro.Funding.{or_objective, obj_target, classify}

-- What the service reads of its surroundings: `str.upper`, `k in s`, the base currency, the provider's
-- rates, none where it fails, and the tax rate.
pub record Desk (F : Type 0) : Type 0 where
  pub upper : String → String
  pub mentions : String → String → Bool
  pub base : String
  pub quote : String → String → Option F
  pub cgt_rate : F
  -- `str.lower`, the text of a whole number, and the order in which a set of names is gone through
  pub lower : String → String
  pub text : ℕ → String
  pub set_order : List String → List String

-- a row of the positions, with the currency and the class that its meta names
pub record PositionRow (F : Type 0) : Type 0 where
  pub ticker : String
  pub market : String
  pub current_price : F
  pub quantity : F
  pub cost_basis : F
  pub price_currency : Option String
  pub asset_class : Option String

pub record Held (F : Type 0) : Type 0 where
  pub ticker : String
  pub market : String
  pub price : F
  pub price_ils : F
  pub quantity : F
  pub cost_basis : F
  pub value_ils : F
  pub weight : F
  pub asset_class : String
  pub meta_currency : Option String

pub record TrimCandidate (F : Type 0) : Type 0 where
  pub held : Held F
  pub score : F
  pub reason : String
  pub gain_pct : F
  pub trimmable_ils : F

-- `MARKET_CCY`
abbrev pub market_ccy : Dict String
market_ccy =
    ("TASE", "ILS")
    ∷ ("NYSE", "USD")
    ∷ ("NASDAQ", "USD")
    ∷ ("AMEX", "USD")
    ∷ ("US", "USD")
    ∷ ("LSE", "GBP")
    ∷ ("XETRA", "EUR")
    ∷ ("EURONEXT", "EUR")
    ∷ ("SIX", "CHF")
    ∷ ("TSX", "CAD")
    ∷ ("JPX", "JPY")
    ∷ ("HKEX", "HKD")
    ∷ ("SSE", "CNY")
    ∷ ("NSE", "INR")
    ∷ ("ASX", "AUD")
    ∷ ("B3", "BRL")
    ∷ ("SPOT", "USD")
    ∷ []

abbrev is_text : Option String → Bool
is_text none = false
is_text (some s) = not (str_eq s "")

unfoldable pub price_currency : (String → String) → String → Option String → String
price_currency upper market meta =
    if is_text meta then upper (or_else meta "") else get_or (upper market) "USD" market_ccy

abbrev pub listed : List String → String → Bool
listed exclude ticker = any (λ t. str_eq t ticker) exclude

module _ {F : Type 0} ⦃num : Float F⦄ where
  open num use {dec, add, sub, mul, div, le, lt, round, format}

  -- a rate that is not to be had is 1
  unfoldable pub fx_rate : Desk F → String → F
  fx_rate desk ccy =
      let base = desk.upper desk.base in
      let ccy' = desk.upper (if str_eq ccy "" then base else ccy) in
      if str_eq ccy' base then dec 1 0 else or_else (desk.quote ccy' base) (dec 1 0)

  abbrev pub rate_of : Desk F → String → Option String → F
  rate_of desk market meta = fx_rate desk (price_currency desk.upper market meta)

  abbrev held_of : Desk F → F → PositionRow F → Held F
  held_of desk nav p =
      let rate = rate_of desk p.market p.price_currency in
      let value = mul (mul p.quantity p.current_price) rate in
      record {
        ticker = desk.upper p.ticker;
        market = p.market;
        price = p.current_price;
        price_ils = mul p.current_price rate;
        quantity = p.quantity;
        cost_basis = p.cost_basis;
        value_ils = value;
        weight = if truthy nav then div value nav else dec 0 0;
        asset_class = classify desk.mentions (desk.upper p.ticker) p.market p.asset_class;
        meta_currency = p.price_currency;
      }

  unfoldable pub position_rows : Desk F → F → List (PositionRow F) → List (Held F)
  position_rows desk nav [] = []
  position_rows desk nav (p ∷ rows) =
      let rest = position_rows desk nav rows in
      if str_eq (desk.upper p.ticker) "CASH" then rest else held_of desk nav p ∷ rest

  -- a figure of each holding, added up by class
  abbrev pub by_class : (Held F → F) → List (Held F) → Dict F → Dict F
  by_class f [] mix = mix
  by_class f (p ∷ positions) mix =
      by_class f positions
        (insert p.asset_class (add (get_or p.asset_class (dec 0 1) mix) (f p)) mix)

  -- `OBJ_TARGET.get(objective or "Balanced", OBJ_TARGET["Balanced"])`
  abbrev pub targets_for : Option String → Dict F
  targets_for objective =
      or_else (obj_target (or_objective objective)) (or_else (obj_target "Balanced") [])

  -- `MIN_TRADE_ILS`
  abbrev pub min_trade : F
  min_trade = dec 2500 1

  abbrev gain_of : Held F → F
  gain_of p =
      if truthy p.cost_basis
      then mul (div (sub p.price p.cost_basis) p.cost_basis) (dec 1000 1)
      else dec 0 1

  abbrev tax_friendliness : F → F
  tax_friendliness gain_pct =
      if lt gain_pct (dec 0 0)
      then dec 10 1
      else max (dec 0 1) (sub (dec 10 1) (div (min gain_pct (dec 1000 1)) (dec 1000 1)))

  abbrev pub over_name : F → Held F → F
  over_name cap p = max (dec 0 1) (sub p.weight cap)

  abbrev over_class : Dict F → Dict F → String → F
  over_class mix target cls =
      max (dec 0 1) (sub (get_or cls (dec 0 1) mix) (get_or cls (dec 0 1) target))

  abbrev trim_reason : Dict F → Dict F → F → Held F → String
  trim_reason mix target cap p =
      let cls = p.asset_class in
      if lt (dec 0 0) (over_name cap p)
      then fstring (
          p.ticker
          ∷ " is "
          ∷ format ".0%" p.weight
          ∷ " of the book, above your "
          ∷ format ".0%" cap
          ∷ " single-name cap"
          ∷ [])
      else fstring (
          "cheapest way to raise it: "
          ∷ cls
          ∷ " is the most overweight class ("
          ∷ format ".0%" (get_or cls (dec 0 1) mix)
          ∷ " against a "
          ∷ format ".0%" (get_or cls (dec 0 1) target)
          ∷ " target) and "
          ∷ p.ticker
          ∷ " is among its least-taxed positions"
          ∷ [])

  abbrev pub trim_score : Dict F → Dict F → F → Held F → F
  trim_score mix target cap p =
      add
        (add (mul (over_name cap p) (dec 4000 1))
          (mul (over_class mix target p.asset_class) (dec 1000 1)))
        (mul (tax_friendliness (gain_of p)) (dec 100 1))

  abbrev candidate_of : F → Dict F → Dict F → F → Held F → TrimCandidate F
  candidate_of nav mix target cap p = record {
    held = p;
    score = round (trim_score mix target cap p) 2;
    reason = trim_reason mix target cap p;
    gain_pct = round (gain_of p) 1;
    trimmable_ils = round (mul (max (over_name cap p) (over_class mix target p.asset_class)) nav) 2;
  }

  -- the loop over the positions
  unfoldable pub trim_list :
      F → Dict F → Dict F → F → List String → List (Held F) → List (TrimCandidate F)
  trim_list nav mix target cap exclude [] = []
  trim_list nav mix target cap exclude (p ∷ positions) =
      let rest = trim_list nav mix target cap exclude positions in
      if listed exclude p.ticker || lt p.value_ils min_trade
      then rest
      else if le (trim_score mix target cap p) (dec 0 0)
      then rest
      else candidate_of nav mix target cap p ∷ rest

  unfoldable pub rank_trim_candidates :
      Desk F → F → Option String → F → List String → List (PositionRow F) → List (TrimCandidate F)
  unfolding position_rows trim_list
  rank_trim_candidates desk nav objective cap exclude rows =
      let positions = position_rows desk nav rows in
      let target = targets_for objective in
      let mix = by_class (λ p. p.weight) positions [] in
      if not (truthy nav)
      then []
      else sort_down (λ c. c.score)
          (trim_list nav mix target cap (map desk.upper exclude) positions)
