-- ===== src/Rules/Writes/Level.antt =====
-- What `conflicting_rule_level` answers after `create_rule` of app/services/rules_service.py.
use investwise_pro.Prelude.{
  ◌≡◌, refl, ap, sym, ◌∙◌, Bool, true, false, Option, none, some, String, List, [], ◌∷◌, ◌++◌,
  filter, arith, Bool-cases, Option-cases, inl, inr, eq_iff,
}
use investwise_pro.Float.{Float}
use investwise_pro.Rules.Data.{
  RuleType, rule_type_value, one_per_ticker, rule_type_of, TradingRule, Store, Strings,
}
use investwise_pro.Rules.Conditions.{is_signal}
use investwise_pro.Rules.Writes.{
  RuleRequest, head, set_first, conflicts, conflicting_rule, conflicting_rule_level, put_rule,
  relevelled, new_rule, create_known, create_rule, stored_mode, level_if,
}

module _ {F : Type 0} where
  level-set_first :
      (p : TradingRule F → Bool) (f : TradingRule F → TradingRule F) (level : F)
      → ((r : TradingRule F) → p r ≡ true → p (f r) ≡ true)
      → ((r : TradingRule F) → (f r).level ≡ level)
      → (rules : List (TradingRule F)) (r : TradingRule F) → head (filter p rules) ≡ some r
      → level_if (head (filter p (set_first p f rules))) ≡ some level
  level-set_first p f level keeps levels [] r h = ground (arith, h)
  level-set_first p f level keeps levels (x ∷ rules) r h = elim (Bool-cases (p x)) [
    | inl here ↦ rw (here, keeps x here) (ap (λ (l : F). some l) (levels x))
    | inr later ↦
        rw (later, later)
          (level-set_first p f level keeps levels rules r (ground (arith, h, later)))
  ]

  head-snoc :
      (p : TradingRule F → Bool) (rules : List (TradingRule F)) (r : TradingRule F)
      → head (filter p rules) ≡ none
      → p r ≡ true
      → head (filter p (rules ++ (r ∷ []))) ≡ some r
  head-snoc p [] r h k = rw k refl
  head-snoc p (x ∷ rules) r h k = ground (arith, h, k, head-snoc p rules r)

  module _ (email ticker : String) (kind : RuleType) (one : one_per_ticker kind ≡ true) where
    -- the mode and the strategy of a request do not tell two rules of such a type apart
    conflicting_any :
        (m m' : String) (st st' : Option String) (r : TradingRule F)
        → conflicts email ticker kind m st r ≡ true
        → conflicts email ticker kind m' st' r ≡ true
    unfolding conflicts
    conflicting_any m m' st st' r h = ground (arith, one, h)

    relevelled-conflicts :
        (py : Strings) (m mode : String) (level : F) (why strategy st : Option String)
        (r : TradingRule F)
        → conflicts email ticker kind m st r ≡ true
        → conflicts email ticker kind m st (relevelled py mode level why strategy r) ≡ true
    unfolding conflicts
    relevelled-conflicts py m mode level why strategy st r h = ground (arith, one, h)

    new_conflicts :
        (py : Strings) (id m mode : String) (level : F) (why strategy st : Option String)
        → conflicts email ticker kind m st
            (new_rule py id email ticker kind mode level why strategy)
          ≡ true
    unfolding conflicts
    new_conflicts py id m mode level why strategy st = ground (
      arith,
      one,
      (eq_iff email email).1 refl,
      (eq_iff ticker ticker).1 refl,
      (eq_iff (rule_type_value kind) (rule_type_value kind)).1 refl,
    )

    found_any :
        (m m' : String) (st st' : Option String) (rules : List (TradingRule F))
        → filter (conflicts email ticker kind m st) rules
          ≡ filter (conflicts email ticker kind m' st') rules
    found_any m m' st st' [] = refl
    found_any m m' st st' (r ∷ rules) = ground (
      arith,
      found_any m m' st st' rules,
      conflicting_any m m' st st' r,
      conflicting_any m' m st' st r,
    )

    searched :
        (m : String) (st : Option String) (rules : List (TradingRule F))
        → conflicting_rule email ticker kind m st rules
          ≡ head (filter (conflicts email ticker kind m st) rules)
    unfolding conflicting_rule
    searched m st rules = rw (conflicting_rule, one) refl

    level-put_rule :
        (py : Strings) (id mode m : String) (level : F) (why strategy st : Option String)
        (s : Store F)
        → level_if (
            conflicting_rule email ticker kind m st
              (put_rule py id email ticker kind mode level why strategy s).1.rules)
          ≡ some level
    unfolding put_rule
    level-put_rule py id mode m level why strategy st s =
        elim (Option-cases (conflicting_rule email ticker kind mode strategy s.rules)) [
          | inl free ↦
              rw (searched m st, found_any m mode st strategy, put_rule, free)
                (ap (λ (o : Option (TradingRule F)). level_if o)
                  (head-snoc (conflicts email ticker kind mode strategy) s.rules
                    (new_rule py id email ticker kind mode level why strategy)
                    (sym (searched mode strategy s.rules) ∙ free)
                    (new_conflicts py id mode mode level why strategy strategy)))
          | inr (old, found) ↦
              rw (searched m st, found_any m mode st strategy, put_rule, found)
                (level-set_first (conflicts email ticker kind mode strategy)
                  (relevelled py mode level why strategy) level
                  (relevelled-conflicts py mode mode level why strategy strategy) (λ r. refl)
                  s.rules old (sym (searched mode strategy s.rules) ∙ found))
        ]

signal_free : (kind : RuleType) → one_per_ticker kind ≡ true → is_signal kind ≡ false
signal_free kind one = ground (arith, one)

module _ {F : Type 0} ⦃num : Float F⦄ where
  -- After a user creates a rule of a type that a ticker has one of, whether the rule was new or took
  -- the place of one that was armed, the level that is looked up for the ticker and the type is the
  -- one that was asked for, whichever mode and strategy the lookup names.
  pub create_rule-level :
      (py : Strings) (id email : String) (q : RuleRequest F) (kind : RuleType) (m : String)
      (st : Option String) (s : Store F)
      → rule_type_of q.rule_type ≡ some kind
      → one_per_ticker kind ≡ true
      → conflicting_rule_level py email q.ticker kind m st (create_rule py id email q s).1
        ≡ some q.level
  unfolding create_rule create_known conflicting_rule_level
  create_rule-level py id email q kind m st s known one =
      rw (create_rule, known, create_known, signal_free kind one)
        (level-put_rule email _ kind one py id (stored_mode kind q.mode) m q.level q.note
          q.strategy_id st s)
