-- ===== src/Rules/Conditions.antt =====
-- `rearm_threshold`, `clears_with_margin`, `execution_plan` and `_evaluate` of
-- app/services/rules_service.py: what a rule says of one holding.
use investwise_pro.Prelude.{
  Bool, true, false, ◌&&◌, ◌||◌, Option, none, some, String, [], ◌∷◌, str_eq, fstring,
  if◌then◌else◌,
}
use investwise_pro.Float.{Float, max, truthy}
use investwise_pro.Rules.Data.{
  RuleType, stop_loss, take_profit, trailing_stop, price_above, price_below, buy_dip, max_weight,
  strategy_signal, TradingRule, Plan, Position,
}

-- the tuple (hit, title, action, target)
pub record Evaluated (F : Type 0) : Type 0 where
  pub hit : Bool
  pub title : String
  pub action : String
  pub target : Option F

abbrev pub is_signal : RuleType → Bool
is_signal strategy_signal = true
is_signal _ = false

module _ {F : Type 0} ⦃num : Float F⦄ where
  open num use {dec, add, sub, mul, div, abs, le, lt, round, format}

  -- `max(0.5, lvl * 0.025)`
  abbrev pub margin : F → F
  margin lvl = max (dec 5 1) (mul lvl (dec 25 3))

  unfoldable pub rearm_threshold : F → F
  rearm_threshold level = let lvl = abs level in sub lvl (margin lvl)

  -- `abs(float(rule.level or 0))`
  abbrev pub level_of : TradingRule F → F
  level_of rule = abs (if truthy rule.level then rule.level else dec 0 0)

  unfoldable pub clears_with_margin : TradingRule F → F → F → Bool
  clears_with_margin rule cur weight =
      let lvl = level_of rule in
      elim rule.rule_type [
        | max_weight ↦ le weight (rearm_threshold lvl)
        | price_above ↦ le cur (rearm_threshold lvl)
        | price_below ↦ le (add lvl (margin lvl)) cur
        | _ ↦ true
      ]

  -- a full exit
  abbrev pub sell_all : (String → String) → TradingRule F → Position F → Option (Plan F)
  sell_all upper rule pos = some (record {
    kind = "sell_position";
    ticker = upper rule.ticker;
    shares = round pos.qty 6;
    rule_type = rule.rule_type;
  })

  -- the trim back to the cap
  unfoldable pub trim_plan : (String → String) → TradingRule F → Position F → Option (Plan F)
  trim_plan upper rule pos =
      let weight = pos.weight_pct in
      let over = div (sub weight rule.level) weight in
      let shares = round (mul pos.qty over) 6 in
      if le weight rule.level || le weight (dec 0 0)
      then none
      else if le shares (dec 0 0)
      then none
      else if truthy pos.value_ils && lt (mul pos.value_ils over) (dec 2500 1)
      then none
      else some (record {
        kind = "trim";
        ticker = upper rule.ticker;
        shares = shares;
        rule_type = rule.rule_type;
      })

  unfoldable pub execution_plan : (String → String) → TradingRule F → Position F → Option (Plan F)
  unfolding trim_plan
  execution_plan upper rule pos = if le pos.qty (dec 0 0) then none else elim rule.rule_type [
    | strategy_signal ↦ if str_eq rule.mode "exit" then sell_all upper rule pos else none
    | stop_loss ↦ sell_all upper rule pos
    | trailing_stop ↦ sell_all upper rule pos
    | take_profit ↦ sell_all upper rule pos
    | max_weight ↦ trim_plan upper rule pos
    | _ ↦ none
  ]

  -- `L if mode == "price" else (cost * (…) if cost else 0)`
  abbrev pub below_cost : TradingRule F → F → F
  below_cost rule cost =
      if str_eq rule.mode "price"
      then rule.level
      else if truthy cost
      then mul cost (sub (dec 1 0) (div (abs rule.level) (dec 100 0)))
      else dec 0 0

  abbrev pub above_cost : TradingRule F → F → F
  above_cost rule cost =
      if str_eq rule.mode "price"
      then rule.level
      else if truthy cost
      then mul cost (add (dec 1 0) (div (abs rule.level) (dec 100 0)))
      else dec 0 0

  -- `rule.peak_price or cur`
  abbrev pub peak_or : Option F → F → F
  peak_or none cur = cur
  peak_or (some p) cur = if truthy p then p else cur

  abbrev pub trail_target : F → F → F
  trail_target peak level = mul peak (sub (dec 1 0) (div (abs level) (dec 100 0)))

  -- The title and the action of a hit, by the type of the rule. The scales of a cap stand without
  -- their variation selector.
  abbrev pub title_of : TradingRule F → F → String
  title_of rule weight =
      let tk = rule.ticker in
      elim rule.rule_type [
        | stop_loss ↦ fstring ("🛑 " ∷ tk ∷ " hit your stop-loss" ∷ [])
        | take_profit ↦ fstring ("🎯 " ∷ tk ∷ " hit your take-profit" ∷ [])
        | trailing_stop ↦ fstring ("📉 " ∷ tk ∷ " hit your trailing stop" ∷ [])
        | price_above ↦ fstring ("🔔 " ∷ tk ∷ " rose above " ∷ format ".2f" rule.level ∷ [])
        | price_below ↦ fstring ("🔔 " ∷ tk ∷ " fell below " ∷ format ".2f" rule.level ∷ [])
        | buy_dip ↦ fstring ("🟢 " ∷ tk ∷ " hit your buy level" ∷ [])
        | max_weight ↦
            fstring ("⚖ " ∷ tk ∷ " is " ∷ format ".0f" weight ∷ "% of your portfolio" ∷ [])
        | strategy_signal ↦ ""
      ]

  abbrev pub action_of : TradingRule F → F → F → String
  action_of rule cur target =
      let tk = rule.ticker in
      let now = format ".2f" cur in
      let at = format ".2f" target in
      elim rule.rule_type [
        | stop_loss ↦
            fstring (
              "Consider selling " ∷ tk ∷ " to cap the loss — now " ∷ now ∷ ", stop " ∷ at ∷ "."
              ∷ [])
        | take_profit ↦ fstring (
            "Consider trimming/selling " ∷ tk ∷ " to lock the gain — now " ∷ now ∷ ", target " ∷ at
            ∷ "." ∷ [])
        | trailing_stop ↦ fstring (
            tk
            ∷ " is "
            ∷ format ".0f" (abs rule.level)
            ∷ "% off its peak ("
            ∷ format ".2f" (peak_or rule.peak_price cur)
            ∷ ") — consider selling to lock gains (now "
            ∷ now
            ∷ ")."
            ∷ [])
        | price_above ↦
            fstring
              (tk ∷ " reached " ∷ now ∷ " (your alert ≥ " ∷ format ".2f" rule.level ∷ ")." ∷ [])
        | price_below ↦
            fstring (tk ∷ " is " ∷ now ∷ " (your alert ≤ " ∷ format ".2f" rule.level ∷ ")." ∷ [])
        | buy_dip ↦
            fstring
              ("Consider adding to " ∷ tk ∷ " — now " ∷ now ∷ ", your dip level " ∷ at ∷ "." ∷ [])
        | max_weight ↦ fstring (
            "Consider trimming "
            ∷ tk
            ∷ " back toward your "
            ∷ format ".0f" rule.level
            ∷ "% cap."
            ∷ [])
        | strategy_signal ↦ ""
      ]

  -- the target price or weight of a rule, and whether it is hit
  unfoldable pub condition : TradingRule F → F → F → F → Bool × F
  condition rule cur cost weight = elim rule.rule_type [
    | stop_loss ↦ let target = below_cost rule cost in (le cur target, target)
    | take_profit ↦
        let target = above_cost rule cost in (le target cur && lt (dec 0 0) target, target)
    | trailing_stop ↦
        let target = trail_target (peak_or rule.peak_price cur) rule.level in
        (le cur target, target)
    | price_above ↦ (le rule.level cur, rule.level)
    | price_below ↦ (le cur rule.level, rule.level)
    | buy_dip ↦ let target = below_cost rule cost in (le cur target && lt (dec 0 0) target, target)
    | max_weight ↦ (le rule.level weight, rule.level)
    | strategy_signal ↦ (false, dec 0 0)
  ]

  abbrev nothing : Evaluated F
  nothing = record { hit = false; title = ""; action = ""; target = none }

  -- `_evaluate`
  unfoldable pub evaluate : TradingRule F → F → F → F → Evaluated F
  unfolding condition
  evaluate rule cur cost weight =
      if le cur (dec 0 0) || is_signal rule.rule_type
      then nothing
      else let (hit, target) = condition rule cur cost weight in
        record {
          hit = hit;
          title = title_of rule weight;
          action = action_of rule cur target;
          target = some target;
        }
