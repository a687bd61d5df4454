-- ===== src/Rules/Data.antt =====
-- The tables `TradingRule` and `RuleEvent` of app/models/tables.py, as app/services/rules_service.py
-- reads and writes them.
use investwise_pro.Prelude.{
  Bool, true, false, Option, none, some, String, List, str_eq, if◌then◌else◌,
}

-- `RULE_TYPES`
pub data RuleType : Type 0 where
  stop_loss take_profit trailing_stop price_above price_below buy_dip max_weight : RuleType
  strategy_signal : RuleType

abbrev pub rule_type_value : RuleType → String
rule_type_value stop_loss = "stop_loss"
rule_type_value take_profit = "take_profit"
rule_type_value trailing_stop = "trailing_stop"
rule_type_value price_above = "price_above"
rule_type_value price_below = "price_below"
rule_type_value buy_dip = "buy_dip"
rule_type_value max_weight = "max_weight"
rule_type_value strategy_signal = "strategy_signal"

-- `rule_type not in RULE_TYPES`, where there is none
unfoldable pub rule_type_of : String → Option RuleType
rule_type_of s =
    if str_eq s "stop_loss"
    then some stop_loss
    else if str_eq s "take_profit"
    then some take_profit
    else if str_eq s "trailing_stop"
    then some trailing_stop
    else if str_eq s "price_above"
    then some price_above
    else if str_eq s "price_below"
    then some price_below
    else if str_eq s "buy_dip"
    then some buy_dip
    else if str_eq s "max_weight"
    then some max_weight
    else if str_eq s "strategy_signal"
    then some strategy_signal
    else none

abbrev pub same_type : RuleType → RuleType → Bool
same_type a b = str_eq (rule_type_value a) (rule_type_value b)

-- `_ONE_PER_TICKER`
abbrev pub one_per_ticker : RuleType → Bool
one_per_ticker stop_loss = true
one_per_ticker take_profit = true
one_per_ticker trailing_stop = true
one_per_ticker max_weight = true
one_per_ticker buy_dip = true
one_per_ticker price_above = false
one_per_ticker price_below = false
one_per_ticker strategy_signal = false

-- `_ONE_SHOT`
abbrev pub one_shot : RuleType → Bool
one_shot stop_loss = true
one_shot take_profit = true
one_shot trailing_stop = true
one_shot buy_dip = true
one_shot max_weight = false
one_shot price_above = false
one_shot price_below = false
one_shot strategy_signal = false

-- the types that stand for as long as their condition is true
abbrev pub is_standing : RuleType → Bool
is_standing price_above = true
is_standing price_below = true
is_standing max_weight = true
is_standing stop_loss = false
is_standing take_profit = false
is_standing trailing_stop = false
is_standing buy_dip = false
is_standing strategy_signal = false

pub record TradingRule (F : Type 0) : Type 0 where
  pub id : String
  pub subject : String
  pub ticker : String
  pub rule_type : RuleType
  pub mode : String
  pub level : F
  pub note : Option String
  pub strategy_id : Option String
  pub active : Bool
  pub triggered : Bool
  pub last_triggered_at : Option F
  pub peak_price : Option F

-- the dict of an execution plan
pub record Plan (F : Type 0) : Type 0 where
  pub kind : String
  pub ticker : String
  pub shares : F
  pub rule_type : RuleType

-- `action` of an event: the plan, the side and strategy of a signal, and what was executed
pub record EventAction (F : Type 0) : Type 0 where
  pub plan : Option (Plan F)
  pub side : Option String
  pub strategy_id : Option String
  pub executed : Option (Plan F)

pub record RuleEvent (F : Type 0) : Type 0 where
  pub subject : String
  pub rule_id : String
  pub ticker : String
  pub rule_type : RuleType
  pub trigger_price : F
  pub target_price : Option F
  pub title : String
  pub outcome : String
  pub outcome_at : Option F
  pub action : EventAction F

-- the two tables, each in the order of its rows' creation
pub record Store (F : Type 0) : Type 0 where
  pub rules : List (TradingRule F)
  pub events : List (RuleEvent F)

-- what `_positions_index` keeps of a holding
pub record Position (F : Type 0) : Type 0 where
  pub price : F
  pub cost : F
  pub qty : F
  pub weight_pct : F
  pub value_ils : F

-- `str.strip`, `str.upper`, `s[:160]` and `str.startswith`, and `uuid.UUID`, which has the canonical id
-- or raises
pub record Strings : Type 0 where
  pub strip : String → String
  pub upper : String → String
  pub clip : String → String
  pub starts_with : String → String → Bool
  pub uuid : String → Option String
