-- ===== src/Rules/Reachable.antt =====
-- The stores that rules_service.py reaches without a toggle: a user has one active rule of a type on a
-- ticker.
mod Rows
use investwise_pro.Rules.Reachable.Rows.{step_all-Below, cards-Below, listed_rules-Below}
use investwise_pro.Prelude.{
  ◌≡◌, refl, sym, ap, ◌∙◌, Bool, true, false, not, ◌&&◌, ◌||◌, Option, none, some, String, List, [],
  ◌∷◌, ◌++◌, filter, any, str_eq, is_empty, or_else, lookup, Dict, arith, Bool-cases, Option-cases,
  inl, inr, if◌then◌else◌, eq_iff,
}
use investwise_pro.Float.{Float}
use investwise_pro.Rules.Data.{
  RuleType, stop_loss, take_profit, trailing_stop, price_above, price_below, buy_dip, max_weight,
  strategy_signal, rule_type_value, rule_type_of, same_type, one_per_ticker, one_shot, TradingRule,
  Plan, Position, Store, Strings,
}
use investwise_pro.Rules.Conditions.{is_signal, evaluate, clears_with_margin}
use investwise_pro.Rules.Holdings.{purge_orphan_rules, is_orphan}
use investwise_pro.Rules.Evaluation.{
  World, Fired, Flip, latched, retire, step_flip, step_signal, step_price, step, step_all,
  evaluate_user, with_peak,
}
use investwise_pro.Rules.Evaluation.Shapes.{
  step_of_signal, step_of_held, step_flip_shape, step_price_shape, relatched,
}
use investwise_pro.Rules.Writes.{
  RuleRequest, head, set_first, conflicts, conflicting_rule, put_rule, new_rule, relevelled,
  create_known, create_rule, is_rule, is_set, stored_mode, delete_rule,
}
use investwise_pro.Rules.Writes.Unique.{
  at_most_one, at_most_one-filter, at_most_one-snoc, Below, none_left, row, at_most_one-Below,
  set_first-Below, Below-same,
}
use investwise_pro.Rules.Outcomes.{spent, record_outcome, resolve_found, resolve_rule, find_rule}
use investwise_pro.Rules.Cards.{
  card_step, cards, triggered_rule_recs, unlisted, row_of, listed_rules, list_rules,
}
use investwise_pro.Rules.Writes.Claims.{claims, put_rule-single, spent-claims}

module _ {F : Type 0} ⦃num : Float F⦄ (e t : String) (k : RuleType) (one : one_per_ticker k ≡ true)
    (py : Strings) where
  abbrev mine : TradingRule F → Bool
  mine = claims e t k

  abbrev Single : Store F → Type 0
  Single s = at_most_one mine s.rules ≡ true

  purge-Single :
      (email : String) (idx : Dict (Position F)) (s : Store F)
      → Single s
      → Single (purge_orphan_rules py.upper email idx s).1
  unfolding purge_orphan_rules
  purge-Single email idx s h = elim (Bool-cases (is_empty idx)) [
    | inl empty ↦ rw (purge_orphan_rules, empty) h
    | inr held ↦ rw (purge_orphan_rules, held) (at_most_one-filter mine _ s.rules h)
  ]

  create_known-Single :
      (id email : String) (q : RuleRequest F) (kind : RuleType) (s : Store F)
      → Single s
      → Single (create_known py id email q kind s).1
  unfolding create_known
  create_known-Single id email q kind s h = elim (Bool-cases (is_signal kind)) [
    | inr priced ↦
        rw (create_known, priced) (put_rule-single e t k one py id email _ kind _ _ q.note _ s h)
    | inl signal ↦ elim (Bool-cases (is_set q.strategy_id)) [
      | inr missing ↦ rw (create_known, signal, missing) h
      | inl named ↦ elim (Bool-cases (str_eq q.mode "entry" || str_eq q.mode "exit")) [
        | inr bad ↦ rw (create_known, signal, named, bad) h
        | inl good ↦
            rw (create_known, signal, named, good)
              (put_rule-single e t k one py id email _ kind _ _ q.note _ s h)
      ]
    ]
  ]

  create-Single :
      (id email : String) (q : RuleRequest F) (s : Store F)
      → Single s
      → Single (create_rule py id email q s).1
  unfolding create_rule
  create-Single id email q s h = elim (Option-cases (rule_type_of q.rule_type)) [
    | inl unknown ↦ rw (create_rule, unknown) h
    | inr (kind, known) ↦ rw (create_rule, known) (create_known-Single id email q kind s h)
  ]

  delete-Single :
      (email rid : String) (s : Store F) → Single s → Single (delete_rule py email rid s).1
  unfolding delete_rule
  delete-Single email rid s h = elim (Option-cases (py.uuid rid)) [
    | inl bad ↦ rw (delete_rule, bad) h
    | inr (id, good) ↦ rw (delete_rule, good) (at_most_one-filter mine _ s.rules h)
  ]

  outcome-rules :
      (now : F) (email rid outcome : String) (action : Option (Plan F)) (s : Store F)
      → (record_outcome now email rid outcome action s).1.rules ≡ s.rules
  unfolding record_outcome
  outcome-rules now email rid outcome action s = ground arith

  found-Single :
      (now : F) (email outcome : String) (action : Option (Plan F)) (s : Store F)
      (o : Option (TradingRule F))
      → Single s
      → Single (resolve_found now email outcome action s o).1
  unfolding resolve_found
  found-Single now email outcome action s none h = h
  found-Single now email outcome action s (some r) h = elim (Bool-cases (str_eq r.subject email)) [
    | inr other ↦ rw other h
    | inl owned ↦
        rw (owned, outcome-rules now email r.id outcome action s)
          (at_most_one-Below mine
            (set_first-Below (is_rule email r.id) spent mine (λ x _ c. spent-claims e t k one x c)
              s.rules)
            h)
  ]

module _ {F : Type 0} ⦃num : Float F⦄ where
  -- The stores that requests and evaluations reach from empty tables, no rule being toggled.
  pub data Reached (py : Strings) : Store F → Type 0 where
    at_start : Reached py (record { rules = []; events = [] })
    by_create :
        (id email : String) (q : RuleRequest F) {s : Store F}
        → Reached py s
        → Reached py (create_rule py id email q s).1
    by_delete :
        (email rid : String) {s : Store F}
        → Reached py s
        → Reached py (delete_rule py email rid s).1
    by_purge :
        (email : String) (idx : Dict (Position F)) {s : Store F}
        → Reached py s
        → Reached py (purge_orphan_rules py.upper email idx s).1
    by_evaluate :
        (w : World F) (email : String) {s : Store F}
        → Reached py s
        → Reached py (evaluate_user py w email s).1
    by_resolve :
        (now : F) (email rid outcome : String) (action : Option (Plan F)) {s : Store F}
        → Reached py s
        → Reached py (resolve_rule now py email rid outcome action s).1
    by_cards :
        (idx : Dict (Position F)) (email : String) {s : Store F}
        → Reached py s
        → Reached py (triggered_rule_recs py idx email s).1
    by_list :
        (idx : Dict (Position F)) (email : String) {s : Store F}
        → Reached py s
        → Reached py (list_rules py idx email s).1

  -- In every store that is reached from empty tables by creating, deleting, purging, evaluating,
  -- resolving and listing rules and by showing their cards, in any order and by any users, a user has at most one
  -- active stop-loss on a ticker, and likewise one take-profit, trailing stop, buy level and cap.
  pub Reached-single :
      (py : Strings) (e t : String) (k : RuleType)
      → one_per_ticker k ≡ true
      → {s : Store F} → Reached py s
      → at_most_one (claims e t k) s.rules ≡ true
  unfolding evaluate_user resolve_rule triggered_rule_recs list_rules
  Reached-single py e t k one at_start = refl
  Reached-single py e t k one (by_create id email q r) =
      create-Single e t k one py id email q _ (Reached-single py e t k one r)
  Reached-single py e t k one (by_delete email rid r) =
      delete-Single e t k one py email rid _ (Reached-single py e t k one r)
  Reached-single py e t k one (by_purge email idx r) =
      purge-Single e t k one py email idx _ (Reached-single py e t k one r)
  Reached-single py e t k one (by_evaluate w email r) =
      at_most_one-Below (claims e t k) (step_all-Below e t k one py w email _)
        (purge-Single e t k one py email w.index _ (Reached-single py e t k one r))
  Reached-single py e t k one (by_resolve now email rid outcome action {s} r) =
      found-Single e t k one py now email outcome action s (find_rule py email rid s.rules)
        (Reached-single py e t k one r)
  Reached-single py e t k one (by_cards idx email r) =
      at_most_one-Below (claims e t k) (cards-Below e t k one py idx email _)
        (Reached-single py e t k one r)
  Reached-single py e t k one (by_list idx email r) =
      at_most_one-Below (claims e t k) (listed_rules-Below e t k one py idx email _)
        (purge-Single e t k one py email idx _ (Reached-single py e t k one r))
