-- ===== src/Rules/Tests.antt =====
-- A concrete book of rules: the theorems at it, and what toggling and an empty index do.
use investwise_pro.Prelude.{
  is_empty, ◌≡◌, refl, Bool, true, false, none, some, [], ◌∷◌, any, str_eq,
}
use investwise_pro.Prelude.Int.{pos, ◌-ℤ◌}
use investwise_pro.Float.Fixed.{Fixed, fixed_float, mul_fixed, Fixed-IsOrdered}
use investwise_pro.Rules.Data.{
  stop_loss, max_weight, rule_type_of, TradingRule, Position, Store, Strings,
}
use investwise_pro.Rules.Conditions.{evaluate, condition, execution_plan, rearm_threshold}
use investwise_pro.Rules.Holdings.{purge_orphan_rules}
use investwise_pro.Rules.Evaluation.{World, evaluate_user, step_all, step, step_price, retire}
use investwise_pro.Rules.Evaluation.Settles.{evaluate_user_settles}
use investwise_pro.Rules.Evaluation.Latch.{step_through, silent, step_through-silent}
use investwise_pro.Rules.Writes.{
  RuleRequest, create_rule, create_known, put_rule, conflicting_rule, conflicts,
  conflicting_rule_level, toggle_rule,
}
use investwise_pro.Rules.Writes.Unique.{at_most_one}
use investwise_pro.Rules.Writes.Claims.{claims}
use investwise_pro.Rules.Writes.Level.{create_rule-level}
use investwise_pro.Rules.Outcomes.{resolve_rule, resolve_found, find_rule, record_outcome}
use investwise_pro.Rules.Reachable.{
  Reached, at_start, by_create, by_evaluate, by_resolve, Reached-single,
}
use investwise_pro.Rules.Suggestions.{Buffers, candidates, suggestions_from, have_of}
use investwise_pro.Rules.Suggestions.Laws.{suggestions_from_lem, is_suggested}

abbrev plain : Strings
plain = record {
  strip = λ s. s;
  upper = λ s. s;
  clip = λ s. s;
  starts_with = str_eq;
  uuid = λ s. some s;
}

abbrev soxl : Position Fixed
soxl = record {
  price = pos 100_000_000;
  cost = pos 80_000_000;
  qty = pos 10_000_000;
  weight_pct = pos 19_800_000;
  value_ils = pos 1_000_000_000;
}

abbrev world : World Fixed
world = record { now = pos 1; flip_of = λ sid. none; listed = λ d. ""; index = ("SOXL", soxl) ∷ [] }

abbrev stop_request : RuleRequest Fixed
stop_request = record {
  ticker = "SOXL";
  rule_type = "stop_loss";
  mode = "price";
  level = pos 120_000_000;
  note = none;
  strategy_id = none;
}

abbrev no_rules : Store Fixed
no_rules = record { rules = []; events = [] }

abbrev one_stop : Store Fixed
one_stop = (create_rule plain "r1" "dana" stop_request no_rules).1

-- the stop fires, is carried out, and a new stop is set
abbrev fired_stop : Store Fixed
fired_stop = (evaluate_user plain world "dana" one_stop).1

abbrev resolved_stop : Store Fixed
resolved_stop = (resolve_rule (pos 2) plain "dana" "r1" "accepted" none fired_stop).1

abbrev second_stop : Store Fixed
second_stop = (create_rule plain "r2" "dana" stop_request resolved_stop).1

second_stop-Reached : Reached plain second_stop
second_stop-Reached = by_create "r2" "dana" stop_request (
    by_resolve (pos 2) "dana" "r1" "accepted" none
      (by_evaluate world "dana" (by_create "r1" "dana" stop_request at_start)))

Reached-single_example : at_most_one (claims "dana" "SOXL" stop_loss) second_stop.rules ≡ true
Reached-single_example = Reached-single plain "dana" "SOXL" stop_loss refl second_stop-Reached

-- the old stop is switched on again beside the new one
toggled_twice :
    at_most_one (claims "dana" "SOXL" stop_loss) (toggle_rule plain "dana" "r1" second_stop).1.rules
    ≡ false
unfolding create_rule create_known put_rule conflicting_rule conflicts evaluate_user step_all step
    step_price evaluate condition execution_plan purge_orphan_rules resolve_rule resolve_found
    find_rule record_outcome toggle_rule rule_type_of
toggled_twice = refl

-- the same evaluation on an index that is empty switches the armed stop off
abbrev is_armed : Store Fixed → Bool
is_armed s = any (λ r. r.active) s.rules

disarmed_by_empty_index :
    (is_armed one_stop ≡ true)
    × (is_armed (evaluate_user plain (record world { index = [] }) "dana" one_stop).1 ≡ false)
unfolding create_rule create_known put_rule conflicting_rule conflicts evaluate_user step_all step
    retire purge_orphan_rules rule_type_of
disarmed_by_empty_index = (refl, refl)

evaluate_user_settles_example : (evaluate_user plain world "dana" fired_stop).0 ≡ []
evaluate_user_settles_example = evaluate_user_settles Fixed-IsOrdered plain world "dana" one_stop

-- a cap of 20% that fired above it, at 19.8%
abbrev cap : TradingRule Fixed
cap = record {
  id = "r3";
  subject = "dana";
  ticker = "SOXL";
  rule_type = max_weight;
  mode = "pct";
  level = pos 20_000_000;
  note = none;
  strategy_id = none;
  active = true;
  triggered = true;
  last_triggered_at = none;
  peak_price = none;
}

step_through-silent_example :
    ((step_through plain cap (world ∷ world ∷ [])).0 ≡ cap)
    × (silent (step_through plain cap (world ∷ world ∷ [])).1 ≡ true)
unfolding rearm_threshold ◌-ℤ◌ mul_fixed
step_through-silent_example =
    step_through-silent plain cap (world ∷ world ∷ []) refl refl
      ((soxl, refl, refl), ((soxl, refl, refl), tt))

create_rule-level_example :
    conflicting_rule_level plain "dana" "SOXL" stop_loss "pct" none
      (create_rule plain "r2" "dana" stop_request one_stop).1
    ≡ some (pos 120_000_000)
unfolding rule_type_of
create_rule-level_example =
    create_rule-level plain "r2" "dana" stop_request stop_loss "pct" none one_stop refl refl

abbrev buffers : Buffers Fixed
buffers = record { stop_of = λ tk. pos 8_000_000; trail_of = λ tk. pos 10_000_000; ceil = λ x. x }

suggestions_from_lem_example :
    let found =
      suggestions_from buffers (("SOXL", soxl) ∷ []) (have_of plain "dana" one_stop.rules) in
    (is_suggested "SOXL" stop_loss found ≡ false) × (any (λ s. is_empty s.rules) found ≡ false)
unfolding candidates create_rule create_known conflicting_rule rule_type_of
suggestions_from_lem_example =
    suggestions_from_lem buffers (("SOXL", soxl) ∷ []) plain "dana" one_stop.rules "SOXL" stop_loss
