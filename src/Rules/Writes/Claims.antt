-- ===== src/Rules/Writes/Claims.antt =====
-- The place that an active rule has, of a user, a ticker and a type, and `create_rule` on it.
use investwise_pro.Prelude.{
  ◌≡◌, refl, sym, ap, ◌∙◌, Bool, true, false, ◌&&◌, Option, none, some, String, List, [], ◌∷◌,
  filter, any, str_eq, or_else, arith, Bool-cases, Option-cases, inl, inr, eq_iff,
}
use investwise_pro.Rules.Data.{
  RuleType, stop_loss, take_profit, trailing_stop, price_above, price_below, buy_dip, max_weight,
  strategy_signal, rule_type_value, rule_type_of, same_type, one_per_ticker, TradingRule, Store,
  Strings,
}
use investwise_pro.Rules.Writes.{head, conflicts, conflicting_rule, put_rule, relevelled}
use investwise_pro.Rules.Writes.Unique.{
  at_most_one, at_most_one-snoc, at_most_one-Below, set_first-Below,
}
use investwise_pro.Rules.Outcomes.{spent}

-- the active rules of a type that a user has on a ticker
abbrev pub claims : {F : Type 0} → String → String → RuleType → TradingRule F → Bool
claims email ticker kind r =
    str_eq r.subject email && str_eq r.ticker ticker && same_type r.rule_type kind && r.active

type_of_value : (a : RuleType) → rule_type_of (rule_type_value a) ≡ some a
unfolding rule_type_of
type_of_value stop_loss = refl
type_of_value take_profit = refl
type_of_value trailing_stop = refl
type_of_value price_above = refl
type_of_value price_below = refl
type_of_value buy_dip = refl
type_of_value max_weight = refl
type_of_value strategy_signal = refl

same_type_sound : (a b : RuleType) → same_type a b ≡ true → a ≡ b
same_type_sound a b h =
    ap (λ (o : Option RuleType). or_else o a)
      (sym (type_of_value a)
        ∙ (ap rule_type_of ((eq_iff (rule_type_value a) (rule_type_value b)).0 h)
            ∙ type_of_value b))

module _ {F : Type 0} (e t : String) (k : RuleType) (one : one_per_ticker k ≡ true) where
  relevelled-claims :
      (py : Strings) (email ticker : String) (kind : RuleType) (mode : String) (level : F)
      (why strategy : Option String) (r : TradingRule F)
      → conflicts email ticker kind mode strategy r ≡ true
      → claims e t k (relevelled py mode level why strategy r) ≡ true
      → claims e t k r ≡ true
  unfolding conflicts
  relevelled-claims py email ticker kind mode level why strategy r h c = ground (arith, h, c)

  pub spent-claims : (r : TradingRule F) → claims e t k (spent r) ≡ true → claims e t k r ≡ true
  spent-claims r h = ground (arith, h)

module _ {F : Type 0} (email ticker : String) (kind : RuleType) (mode : String)
    (strategy : Option String) where
  conflict_of_claim :
      (r : TradingRule F)
      → one_per_ticker kind ≡ true
      → claims email ticker kind r ≡ true
      → conflicts email ticker kind mode strategy r ≡ true
  unfolding conflicts
  conflict_of_claim r one h = ground (arith, one, h)

  -- where the query finds no rule, none claims its place
  none-claims :
      (rules : List (TradingRule F))
      → one_per_ticker kind ≡ true
      → head (filter (conflicts email ticker kind mode strategy) rules) ≡ none
      → any (claims email ticker kind) rules ≡ false
  none-claims [] one h = refl
  none-claims (r ∷ rules) one h = ground (arith, h, conflict_of_claim r one, none-claims rules one)

module _ {F : Type 0} (e t : String) (k : RuleType) (one : one_per_ticker k ≡ true) where
  -- a new rule that claims the place has its user, its ticker and its type
  new_rule_claims :
      (email ticker : String) (kind : RuleType) (rules : List (TradingRule F))
      → (str_eq email e && str_eq ticker t && same_type kind k) ≡ true
      → (one_per_ticker kind ≡ true)
        × (any (claims email ticker kind) rules ≡ any (claims e t k) rules)
  new_rule_claims email ticker kind rules h =
      let here : email ≡ e = (eq_iff email e).0 (ground (arith, h)) in
      let same : ticker ≡ t = (eq_iff ticker t).0 (ground (arith, h)) in
      let type : kind ≡ k = same_type_sound kind k (ground (arith, h)) in
      (rw type one, rw (here, same, type) refl)

  free_place :
      (email ticker : String) (kind : RuleType) (mode : String) (strategy : Option String)
      (rules : List (TradingRule F))
      → conflicting_rule email ticker kind mode strategy rules ≡ none
      → ((str_eq email e && str_eq ticker t && same_type kind k && true)
          && any (claims e t k) rules)
        ≡ false
  unfolding conflicting_rule
  free_place email ticker kind mode strategy rules free =
      elim (Bool-cases (str_eq email e && str_eq ticker t && same_type kind k)) [
        | inl mine ↦
            let (one', same) = new_rule_claims email ticker kind rules mine in
            let none_there : any (claims email ticker kind) rules ≡ false =
              none-claims email ticker kind mode strategy rules one' (ground (arith, one', free)) in
            ground (arith, same, none_there)
        | inr other ↦ ground (arith, other)
      ]

  pub put_rule-single :
      (py : Strings) (id email ticker : String) (kind : RuleType) (mode : String) (level : F)
      (why strategy : Option String) (s : Store F)
      → at_most_one (claims e t k) s.rules ≡ true
      → at_most_one
          (claims e t k)
          (put_rule py id email ticker kind mode level why strategy s).1.rules
        ≡ true
  unfolding put_rule
  put_rule-single py id email ticker kind mode level why strategy s h =
      elim (Option-cases (conflicting_rule email ticker kind mode strategy s.rules)) [
        | inr (old, found) ↦
            rw (put_rule, found)
              (at_most_one-Below (claims e t k)
                (set_first-Below (conflicts email ticker kind mode strategy) _ (claims e t k)
                  (relevelled-claims e t k one py email ticker kind mode level why strategy)
                  s.rules)
                h)
        | inl free ↦
            rw (put_rule, free)
              (at_most_one-snoc (claims e t k) s.rules _ h
                (free_place email ticker kind mode strategy s.rules free))
      ]
