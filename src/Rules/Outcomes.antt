-- ===== src/Rules/Outcomes.antt =====
-- `record_outcome` and `resolve_rule` of app/services/rules_service.py.
use investwise_pro.Prelude.{
  Bool, true, false, ◌&&◌, Option, none, some, String, List, [], ◌∷◌, str_eq, filter, any,
  if◌then◌else◌,
}
use investwise_pro.Rules.Data.{TradingRule, RuleEvent, EventAction, Plan, Store, Strings, one_shot}
use investwise_pro.Rules.Writes.{head, set_first, is_rule}

module _ {F : Type 0} where
  abbrev pub is_open : String → String → RuleEvent F → Bool
  is_open email rid e =
      str_eq e.subject email && str_eq e.rule_id rid && str_eq e.outcome "triggered"

  -- the last event that meets a test is set, which is the newest
  abbrev pub set_last :
      (RuleEvent F → Bool) → (RuleEvent F → RuleEvent F) → List (RuleEvent F) → List (RuleEvent F)
  set_last p f [] = []
  set_last p f (e ∷ events) =
      let rest = set_last p f events in
      if any p events then e ∷ rest else if p e then f e ∷ events else e ∷ events

  abbrev pub executed_in : Option (Plan F) → EventAction F → EventAction F
  executed_in none a = a
  executed_in (some plan) a = record a { executed = some plan }

  abbrev pub stamped : F → String → Option (Plan F) → RuleEvent F → RuleEvent F
  stamped now outcome action e = record e {
    outcome = outcome;
    outcome_at = some now;
    action = executed_in action e.action;
  }

  unfoldable pub record_outcome :
      F → String → String → String → Option (Plan F) → Store F → Bool × Store F
  record_outcome now email rid outcome action s =
      if any (is_open email rid) s.events
      then (
        true,
        record s { events = set_last (is_open email rid) (stamped now outcome action) s.events },
      )
      else (false, s)

  -- the rule with the id, or else the first of the subject whose id has the prefix
  abbrev by_prefix : Strings → String → String → List (TradingRule F) → Option (TradingRule F)
  by_prefix py email rid rules =
      head (filter (λ r. str_eq r.subject email && py.starts_with r.id rid) rules)

  abbrev or_by_prefix :
      Strings
      → String
      → String
      → List (TradingRule F)
      → Option (TradingRule F)
      → Option (TradingRule F)
  or_by_prefix py email rid rules none = by_prefix py email rid rules
  or_by_prefix py email rid rules (some r) = some r

  unfoldable pub find_rule :
      Strings → String → String → List (TradingRule F) → Option (TradingRule F)
  find_rule py email rid rules =
      or_by_prefix py email rid rules
        (elim (py.uuid rid) [ none ↦ none | some id ↦ head (filter (λ r. str_eq r.id id) rules) ])

  abbrev pub spent : TradingRule F → TradingRule F
  spent r =
      if one_shot r.rule_type
      then record r { triggered = false; active = false }
      else record r { triggered = false }

  -- the rule found, as `resolve_rule` goes on with it
  unfoldable pub resolve_found :
      F → String → String → Option (Plan F) → Store F → Option (TradingRule F) → Bool × Store F
  resolve_found now email outcome action s none = (false, s)
  resolve_found now email outcome action s (some r) =
      if str_eq r.subject email
      then (let s' = (record_outcome now email r.id outcome action s).1 in
          (true, record s' { rules = set_first (is_rule email r.id) spent s'.rules }))
      else (false, s)

  unfoldable pub resolve_rule :
      F → Strings → String → String → String → Option (Plan F) → Store F → Bool × Store F
  unfolding resolve_found
  resolve_rule now py email rid outcome action s =
      resolve_found now email outcome action s (find_rule py email rid s.rules)
