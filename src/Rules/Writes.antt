-- ===== src/Rules/Writes.antt =====
-- `create_rule`, `_conflicting_rule`, `conflicting_rule_level`, `delete_rule` and `toggle_rule` of
-- app/services/rules_service.py.
pub mod Unique
pub mod Claims
pub mod Level
use investwise_pro.Prelude.{
  Bool, true, false, not, ◌&&◌, ◌||◌, Option, none, some, String, List, [], ◌∷◌, ◌++◌, str_eq,
  filter, any, is_some, if◌then◌else◌,
}
use investwise_pro.Float.{Float}
use investwise_pro.Rules.Data.{
  RuleType, price_above, price_below, trailing_stop, max_weight, strategy_signal, same_type,
  one_per_ticker, rule_type_of, TradingRule, Store, Strings,
}
use investwise_pro.Rules.Conditions.{is_signal}

-- the `ValueError`s of `create_rule`
pub data RuleError : Type 0 where
  unknown_rule_type needs_strategy bad_signal_mode : RuleError

pub data Created (F : Type 0) : Type 0 where
  created : TradingRule F → Created F
  value_error : RuleError → Created F

-- the arguments of a request
pub record RuleRequest (F : Type 0) : Type 0 where
  pub ticker : String
  pub rule_type : String
  pub mode : String
  pub level : F
  pub note : Option String
  pub strategy_id : Option String

abbrev pub same_strategy : Option String → Option String → Bool
same_strategy none none = true
same_strategy (some a) (some b) = str_eq a b
same_strategy none (some b) = false
same_strategy (some a) none = false

abbrev pub head : {A : Type 0} → List A → Option A
head [] = none
head (x ∷ xs) = some x

abbrev pub is_set : Option String → Bool
is_set none = false
is_set (some s) = not (str_eq s "")

-- the mode that a price or percentage rule is stored with
abbrev pub stored_mode : RuleType → String → String
stored_mode price_above mode = "price"
stored_mode price_below mode = "price"
stored_mode trailing_stop mode = "pct"
stored_mode max_weight mode = "pct"
stored_mode _ mode = if str_eq mode "price" then "price" else "pct"

abbrev pub note_or : Strings → Option String → Option String → Option String
note_or py none old = old
note_or py (some note) old = if str_eq note "" then old else some (py.clip note)

abbrev pub strategy_or : Option String → Option String → Option String
strategy_or none old = old
strategy_or (some sid) old = if str_eq sid "" then old else some sid

abbrev clipped : Strings → Option String → Option String
clipped py none = none
clipped py (some note) = if str_eq note "" then some "" else some (py.clip note)

module _ {F : Type 0} where
  -- the query of `_conflicting_rule`
  unfoldable pub conflicts :
      String → String → RuleType → String → Option String → TradingRule F → Bool
  conflicts email ticker kind mode strategy r =
      str_eq r.subject email
      && str_eq r.ticker ticker
      && same_type r.rule_type kind
      && r.active
      && (not (is_signal kind) || (str_eq r.mode mode && same_strategy r.strategy_id strategy))

  unfoldable pub conflicting_rule :
      String
      → String
      → RuleType
      → String
      → Option String
      → List (TradingRule F)
      → Option (TradingRule F)
  conflicting_rule email ticker kind mode strategy rules =
      if one_per_ticker kind || is_signal kind
      then head (filter (conflicts email ticker kind mode strategy) rules)
      else none

  abbrev pub level_if : Option (TradingRule F) → Option F
  level_if none = none
  level_if (some r) = some r.level

  -- of a request for a known type of rule
  unfoldable pub conflicting_rule_level :
      Strings → String → String → RuleType → String → Option String → Store F → Option F
  conflicting_rule_level py email ticker kind mode strategy s =
      level_if (conflicting_rule email (py.upper (py.strip ticker)) kind mode strategy s.rules)

  -- an attribute of the first row that meets a test is set
  abbrev pub set_first :
      (TradingRule F → Bool)
      → (TradingRule F → TradingRule F)
      → List (TradingRule F)
      → List (TradingRule F)
  set_first p f [] = []
  set_first p f (r ∷ rules) =
      let rest = set_first p f rules in if p r then f r ∷ rules else r ∷ rest

  -- the re-levelled rule
  abbrev pub relevelled :
      Strings → String → F → Option String → Option String → TradingRule F → TradingRule F
  relevelled py mode level note strategy r = record r {
    level = level;
    mode = mode;
    active = true;
    triggered = false;
    note = note_or py note r.note;
    strategy_id = strategy_or strategy r.strategy_id;
  }

  abbrev pub new_rule :
      Strings
      → String
      → String
      → String
      → RuleType
      → String
      → F
      → Option String
      → Option String
      → TradingRule F
  new_rule py id email ticker kind mode level note strategy = record {
    id = id;
    subject = email;
    ticker = ticker;
    rule_type = kind;
    mode = mode;
    level = level;
    note = clipped py note;
    strategy_id = strategy;
    active = true;
    triggered = false;
    last_triggered_at = none;
    peak_price = none;
  }

  -- `create_rule` once its arguments are checked: the rule is re-levelled if there is one, or added
  unfoldable pub put_rule :
      Strings
      → String
      → String
      → String
      → RuleType
      → String
      → F
      → Option String
      → Option String
      → Store F
      → TradingRule F × Store F
  put_rule py id email ticker kind mode level note strategy s =
      elim (conflicting_rule email ticker kind mode strategy s.rules) [
        | some old ↦ (
          relevelled py mode level note strategy old,
          record s {
            rules =
                set_first (conflicts email ticker kind mode strategy)
                  (relevelled py mode level note strategy) s.rules;
          },
        )
        | none ↦
            let new = new_rule py id email ticker kind mode level note strategy in
            (new, record s { rules = s.rules ++ (new ∷ []) })
      ]

  abbrev made : TradingRule F × Store F → Created F × Store F
  made (r, s) = (created r, s)

module _ {F : Type 0} ⦃num : Float F⦄ where
  -- what `create_rule` does for a known type
  unfoldable pub create_known :
      Strings → String → String → RuleRequest F → RuleType → Store F → Created F × Store F
  unfolding put_rule
  create_known py id email q kind s =
      let ticker = py.upper (py.strip q.ticker) in
      if is_signal kind
      then (if not (is_set q.strategy_id)
          then (value_error needs_strategy, s)
          else if not (str_eq q.mode "entry" || str_eq q.mode "exit")
          then (value_error bad_signal_mode, s)
          else made (put_rule py id email ticker kind q.mode (num.dec 0 1) q.note q.strategy_id s))
      else made (
          put_rule py id email ticker kind (stored_mode kind q.mode) q.level q.note q.strategy_id s)

  unfoldable pub create_rule :
      Strings → String → String → RuleRequest F → Store F → Created F × Store F
  create_rule py id email q s = elim (rule_type_of q.rule_type) [
    | none ↦ (value_error unknown_rule_type, s)
    | some kind ↦ create_known py id email q kind s
  ]

module _ {F : Type 0} where
  abbrev pub is_rule : String → String → TradingRule F → Bool
  is_rule email rid r = str_eq r.id rid && str_eq r.subject email

  unfoldable pub delete_rule : Strings → String → String → Store F → Bool × Store F
  delete_rule py email rule_id s = elim (py.uuid rule_id) [
    | none ↦ (false, s)
    | some rid ↦ (
      any (is_rule email rid) s.rules,
      record s { rules = filter (λ r. not (is_rule email rid r)) s.rules },
    )
  ]

  abbrev pub toggled : TradingRule F → TradingRule F
  toggled r =
      if r.active
      then record r { active = false }
      else record r { active = true; triggered = false }

  unfoldable pub toggle_rule : Strings → String → String → Store F → Bool × Store F
  toggle_rule py email rule_id s = elim (py.uuid rule_id) [
    | none ↦ (false, s)
    | some rid ↦
        if any (is_rule email rid) s.rules
        then (true, record s { rules = set_first (is_rule email rid) toggled s.rules })
        else (false, s)
  ]
