-- ===== src/Rules/Suggestions/Laws.antt =====
-- What is suggested, over the positions and the rules of the user.
use investwise_pro.Prelude.{
  ◌≡◌, refl, Bool, true, false, eq_iff, not, ◌&&◌, String, List, [], ◌∷◌, str_eq, any, is_empty,
  Dict, arith,
}
use investwise_pro.Float.{Float}
use investwise_pro.Float.Sort.{any-sort_down}
use investwise_pro.Rules.Data.{RuleType, rule_type_value, same_type, TradingRule, Position, Strings}
use investwise_pro.Rules.Suggestions.{
  Candidate, Suggested, Buffers, armed, have_of, candidates, fresh, suggest_all, suggestions_from,
}

armed_same :
    (have : List (String × RuleType)) (tk : String) (a b : RuleType)
    → same_type a b ≡ true
    → armed have tk a ≡ armed have tk b
armed_same have tk a b e = ground (arith, eq_iff (rule_type_value a) (rule_type_value b))

module _ {F : Type 0} ⦃num : Float F⦄ where
  open num use {dec, le}

  -- whether one of the rules is an active one of the subject, on this ticker and of this type
  abbrev pub has_rule : Strings → String → List (TradingRule F) → String → RuleType → Bool
  has_rule py email rules tk kind =
      any
        (λ r.
          (str_eq r.subject email && r.active)
          && (str_eq (py.upper r.ticker) tk && same_type r.rule_type kind))
        rules

  -- whether the candidates for a position have one of this type
  abbrev pub offers : RuleType → List (Candidate F) → Bool
  offers kind = any (λ c. same_type c.rule_type kind)

  -- whether the index has this ticker at a price, with a candidate of this type
  abbrev pub is_candidate : Buffers F → Dict (Position F) → String → RuleType → Bool
  is_candidate b idx tk kind =
      any
        (λ e. str_eq e.0 tk && (not (le e.1.price (dec 0 0)) && offers kind (candidates b e.0 e.1)))
        idx

  -- whether a rule of this type is suggested for this ticker
  abbrev pub is_suggested : String → RuleType → List (Suggested F) → Bool
  is_suggested tk kind = any (λ s. str_eq s.ticker tk && offers kind s.rules)

  armed-have_of :
      (py : Strings) (email : String) (rules : List (TradingRule F)) (tk : String) (kind : RuleType)
      → armed (have_of py email rules) tk kind ≡ has_rule py email rules tk kind
  unfolding have_of
  armed-have_of py email [] tk kind = refl
  armed-have_of py email (r ∷ rules) tk kind = ground (arith, armed-have_of py email rules tk kind)

  offers-fresh :
      (have : List (String × RuleType)) (tk : String) (kind : RuleType) (cand : List (Candidate F))
      → offers kind (fresh have tk cand) ≡ offers kind cand && not (armed have tk kind)
  unfolding fresh
  offers-fresh have tk kind [] = ground arith
  offers-fresh have tk kind (c ∷ cand) =
      ground (arith, offers-fresh have tk kind cand, armed_same have tk c.rule_type kind)

  is_suggested-suggest_all :
      (b : Buffers F) (have : List (String × RuleType)) (tk : String) (kind : RuleType)
      (idx : Dict (Position F))
      → is_suggested tk kind (suggest_all b have idx)
        ≡ is_candidate b idx tk kind && not (armed have tk kind)
  unfolding suggest_all
  is_suggested-suggest_all b have tk kind [] = ground arith
  is_suggested-suggest_all b have tk kind ((k, p) ∷ idx) = ground (
    arith,
    is_suggested-suggest_all b have tk kind idx,
    offers-fresh have k kind (candidates b k p),
    eq_iff k tk,
  )

  suggest_all-nonempty :
      (b : Buffers F) (have : List (String × RuleType)) (idx : Dict (Position F))
      → any (λ s. is_empty s.rules) (suggest_all b have idx) ≡ false
  unfolding suggest_all
  suggest_all-nonempty b have [] = refl
  suggest_all-nonempty b have ((tk, pos) ∷ idx) = ground (arith, suggest_all-nonempty b have idx)

  -- A rule of some type is suggested for a ticker exactly when the index has the ticker at a price
  -- above zero with a candidate of that type, and no active rule of the user is of that type with
  -- this ticker as its own in upper case; and no suggestion is without a rule.
  pub suggestions_from_lem :
      (b : Buffers F) (idx : Dict (Position F)) (py : Strings) (email : String)
      (rules : List (TradingRule F)) (tk : String) (kind : RuleType)
      → let found = suggestions_from b idx (have_of py email rules) in
        (is_suggested tk kind found
          ≡ is_candidate b idx tk kind && not (has_rule py email rules tk kind))
        × (any (λ s. is_empty s.rules) found ≡ false)
  unfolding suggestions_from
  suggestions_from_lem b idx py email rules tk kind = ground (
    arith,
    any-sort_down (λ (s : Suggested F). s.weight_pct)
        (λ (s : Suggested F). str_eq s.ticker tk && offers kind s.rules)
        (suggest_all b (have_of py email rules) idx),
    any-sort_down (λ (s : Suggested F). s.weight_pct) (λ (s : Suggested F). is_empty s.rules)
        (suggest_all b (have_of py email rules) idx),
    suggest_all-nonempty b (have_of py email rules) idx,
    is_suggested-suggest_all b (have_of py email rules) tk kind idx,
    armed-have_of py email rules tk kind,
  )
