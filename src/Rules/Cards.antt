-- ===== src/Rules/Cards.antt =====
-- `triggered_rule_recs`, `list_rules` and `list_events` of app/services/rules_service.py: what a screen
-- shows, and what it repairs as it is rendered.
use investwise_pro.Prelude.{
  take, ℕ, Bool, false, not, ◌&&◌, Option, none, some, String, List, [], ◌∷◌, ◌++◌, str_eq, filter,
  or_else, fstring, Dict, lookup, if◌then◌else◌,
}
use investwise_pro.Float.{Float}
use investwise_pro.Rules.Data.{
  RuleType, stop_loss, trailing_stop, price_above, price_below, max_weight, strategy_signal,
  is_standing, TradingRule, RuleEvent, Plan, Position, Store, Strings,
}
use investwise_pro.Rules.Conditions.{Evaluated, evaluate, execution_plan, clears_with_margin}
use investwise_pro.Rules.Holdings.{purge_orphan_rules}

-- a card of a triggered rule
pub record Card (F : Type 0) : Type 0 where
  pub rule_id : String
  pub severity : String
  pub title : String
  pub action : String
  pub apply : Option (Plan F)

-- `_SEV`
abbrev pub severity_of : RuleType → String
severity_of stop_loss = "CRITICAL"
severity_of trailing_stop = "CRITICAL"
severity_of price_above = "MEDIUM"
severity_of price_below = "MEDIUM"
severity_of _ = "HIGH"

abbrev or_text : String → String → String
or_text s t = if str_eq s "" then t else s

-- a row of the rules tab
pub record RuleRow (F : Type 0) : Type 0 where
  pub rule : TradingRule F
  pub current_price : Option F
  pub current : Option F
  pub unit : String
  pub breached_now : Bool
  pub target : Option F

abbrev unit_of : RuleType → String
unit_of max_weight = "pct_of_portfolio"
unit_of strategy_signal = "signal"
unit_of _ = "price"

module _ {F : Type 0} ⦃num : Float F⦄ where
  open num use {dec, mul, format}

  abbrev no_position : Position F
  no_position = record {
    price = dec 0 0;
    cost = dec 0 0;
    qty = dec 0 0;
    weight_pct = dec 0 0;
    value_ils = dec 0 0;
  }

  abbrev plan_text : TradingRule F → Position F → Evaluated F → Option (Plan F) → String
  plan_text r pos e none = or_text e.action "Review this holding."
  plan_text r pos e (some plan) = fstring (
      (if str_eq plan.kind "sell_position" then "Sell all" else "Trim")
      ∷ " "
      ∷ format "g" plan.shares
      ∷ " "
      ∷ r.ticker
      ∷ " at "
      ∷ format ",.2f" pos.price
      ∷ " (~"
      ∷ format ",.0f" (mul plan.shares pos.price)
      ∷ ") — the rule you set."
      ∷ [])

  -- one round of the loop of `triggered_rule_recs`: the rule after it, and its card
  unfoldable pub card_step :
      Strings → Dict (Position F) → TradingRule F → TradingRule F × Option (Card F)
  card_step py idx r =
      let pos = or_else (lookup (py.upper r.ticker) idx) no_position in
      let e = evaluate r pos.price pos.cost pos.weight_pct in
      if not e.hit && is_standing r.rule_type
      then (
        if clears_with_margin r pos.price pos.weight_pct then record r { triggered = false } else r,
        none,
      )
      else let plan = execution_plan py.upper r pos in
        (
          r,
          some (record {
            rule_id = r.id;
            severity = severity_of r.rule_type;
            title = or_text e.title (fstring ("Rule on " ∷ r.ticker ∷ []));
            action = plan_text r pos e plan;
            apply = plan;
          }),
        )

  abbrev and_card : Option (Card F) → List (Card F) → List (Card F)
  and_card none rest = rest
  and_card (some c) rest = c ∷ rest

  unfoldable pub cards :
      Strings
      → Dict (Position F)
      → String
      → List (TradingRule F)
      → List (TradingRule F) × List (Card F)
  unfolding card_step
  cards py idx email [] = ([], [])
  cards py idx email (r ∷ rules) =
      let (rest, shown) = cards py idx email rules in
      if str_eq r.subject email && r.active && r.triggered
      then (let (r', c) = card_step py idx r in (r' ∷ rest, and_card c shown))
      else (r ∷ rest, shown)

  unfoldable pub triggered_rule_recs :
      Strings → Dict (Position F) → String → Store F → List (Card F) × Store F
  unfolding cards
  triggered_rule_recs py idx email s =
      let (rules, shown) = cards py idx email s.rules in (shown, record s { rules = rules })

  -- the rule of a ticker that is not held, as the list repairs it
  abbrev pub unlisted : Strings → TradingRule F → TradingRule F
  unlisted py r =
      let off : TradingRule F = record r { active = false; triggered = false } in
      if r.active && not (str_eq (py.upper r.ticker) "CASH")
      then (if py.starts_with (or_else r.note "") "retired:" then off else record off {
        note =
            some
              (py.clip (fstring ("retired: " ∷ r.ticker ∷ " is no longer in your portfolio" ∷ [])));
      })
      else r

  abbrev watched : TradingRule F → Position F → Option F
  watched r pos = elim r.rule_type [
    | max_weight ↦ some pos.weight_pct
    | strategy_signal ↦ none
    | _ ↦ some pos.price
  ]

  unfoldable pub row_of : Strings → TradingRule F → Option (Position F) → RuleRow F
  row_of py r none = record {
    rule = unlisted py r;
    current_price = none;
    current = none;
    unit = unit_of r.rule_type;
    breached_now = false;
    target = none;
  }
  row_of py r (some pos) =
      let e = evaluate r pos.price pos.cost pos.weight_pct in
      record {
        rule = r;
        current_price = some pos.price;
        current = watched r pos;
        unit = unit_of r.rule_type;
        breached_now = e.hit;
        target = e.target;
      }

  -- the rows of a subject, the newest first
  unfoldable pub rows_of :
      Strings → Dict (Position F) → String → List (TradingRule F) → List (RuleRow F)
  unfolding row_of
  rows_of py idx email [] = []
  rows_of py idx email (r ∷ rules) =
      let rest = rows_of py idx email rules in
      if str_eq r.subject email
      then rest ++ (row_of py r (lookup (py.upper r.ticker) idx) ∷ [])
      else rest

  -- the rules as the list leaves them in its session, which it does not commit
  unfoldable pub listed_rules :
      Strings → Dict (Position F) → String → List (TradingRule F) → List (TradingRule F)
  unfolding row_of
  listed_rules py idx email [] = []
  listed_rules py idx email (r ∷ rules) =
      let rest = listed_rules py idx email rules in
      if str_eq r.subject email
      then (row_of py r (lookup (py.upper r.ticker) idx)).rule ∷ rest
      else r ∷ rest

  unfoldable pub list_rules :
      Strings → Dict (Position F) → String → Store F → List (RuleRow F) × Store F
  unfolding rows_of listed_rules
  list_rules py idx email s =
      let kept = (purge_orphan_rules py.upper email idx s).1 in
      (
        rows_of py idx email kept.rules,
        record kept { rules = listed_rules py idx email kept.rules },
      )

abbrev newest_first : {A : Type 0} → List A → List A
newest_first [] = []
newest_first (x ∷ xs) = newest_first xs ++ (x ∷ [])

unfoldable pub list_events : {F : Type 0} → String → ℕ → Store F → List (RuleEvent F)
list_events email limit s =
    take limit (newest_first (filter (λ e. str_eq e.subject email) s.events))
