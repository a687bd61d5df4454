-- ===== src/Rules/Suggestions.antt =====
-- `_suggestions_from` of app/services/rules_service.py. The stop and trail buffers of a ticker, in
-- percent, which `stop_buffer_pct` of app/services/recommendations.py computes from its history, and
-- `math.ceil` are arguments.
pub mod Laws
use investwise_pro.Prelude.{
  ◌≡◌, refl, Bool, true, false, eq_iff, not, ◌&&◌, ◌||◌, String, List, [], ◌∷◌, ◌++◌, str_eq,
  filter, any, fstring, is_empty, Dict, arith, if◌then◌else◌,
}
use investwise_pro.Float.{Float, max}
use investwise_pro.Float.Sort.{sort_down, any-sort_down}
use investwise_pro.Rules.Data.{
  RuleType, rule_type_value, stop_loss, trailing_stop, take_profit, max_weight, same_type,
  TradingRule, Position, Strings,
}

pub record Candidate (F : Type 0) : Type 0 where
  pub rule_type : RuleType
  pub mode : String
  pub level : F
  pub label : String
  pub why : String

pub record Suggested (F : Type 0) : Type 0 where
  pub ticker : String
  pub current_price : F
  pub weight_pct : F
  pub rules : List (Candidate F)

pub record Buffers (F : Type 0) : Type 0 where
  pub stop_of : String → F
  pub trail_of : String → F
  pub ceil : F → F

-- the ticker and the type of an active rule
abbrev pub armed : List (String × RuleType) → String → RuleType → Bool
armed have tk kind = any (λ h. str_eq h.0 tk && same_type h.1 kind) have

module _ {F : Type 0} where
  -- `have`: of the active rules of a subject
  unfoldable pub have_of : Strings → String → List (TradingRule F) → List (String × RuleType)
  have_of py email [] = []
  have_of py email (r ∷ rules) =
      let rest = have_of py email rules in
      if str_eq r.subject email && r.active then (py.upper r.ticker, r.rule_type) ∷ rest else rest

module _ {F : Type 0} ⦃num : Float F⦄ where
  open num use {dec, add, sub, mul, div, le, lt, round, format}

  abbrev percent_of : F → F
  percent_of b = div b (dec 1000 1)

  abbrev stop_candidate : F → F → Candidate F
  stop_candidate price buffer =
      let stop = round (mul price (sub (dec 1 0) (percent_of buffer))) 2 in
      record {
        rule_type = stop_loss;
        mode = "price";
        level = stop;
        label = fstring ("🛑 Stop-loss " ∷ format "g" stop ∷ "₪" ∷ []);
        why = fstring (
            "Caps downside ~"
            ∷ format ".0f" buffer
            ∷ "% below today's "
            ∷ format ".2f" price
            ∷ "."
            ∷ []);
      }

  abbrev trail_candidate : F → Candidate F
  trail_candidate buffer = record {
    rule_type = trailing_stop;
    mode = "pct";
    level = buffer;
    label = fstring ("📉 Trailing stop " ∷ format "g" buffer ∷ "%" ∷ []);
    why = fstring (
        "Locks in gains if it falls "
        ∷ format ".0f" buffer
        ∷ "% from its peak, but lets it run."
        ∷ []);
  }

  abbrev profit_candidate : F → F → Candidate F
  profit_candidate price buffer =
      let tp = round (mul price (add (dec 1 0) (percent_of buffer))) 2 in
      record {
        rule_type = take_profit;
        mode = "price";
        level = tp;
        label = fstring ("🎯 Take-profit " ∷ format "g" tp ∷ "₪" ∷ []);
        why =
            fstring
              ("Takes some off the table if it climbs ~" ∷ format ".0f" buffer ∷ "% more." ∷ []);
      }

  -- The label's scales stand without their variation selector.
  abbrev cap_candidate : F → F → Candidate F
  cap_candidate weight cap = record {
    rule_type = max_weight;
    mode = "pct";
    level = cap;
    label = fstring ("⚖ Max weight " ∷ format "g" cap ∷ "%" ∷ []);
    why = fstring (
        "It's "
        ∷ format ".0f" weight
        ∷ "% of your book — trim back toward "
        ∷ format ".0f" cap
        ∷ "% if it grows."
        ∷ []);
  }

  unfoldable pub candidates : Buffers F → String → Position F → List (Candidate F)
  candidates b tk pos =
      let trail = b.trail_of tk in
      let cap = max (dec 150 1) (mul (dec 5 0) (b.ceil (div pos.weight_pct (dec 5 0)))) in
      stop_candidate pos.price (b.stop_of tk)
        ∷ trail_candidate trail
        ∷ (if lt (dec 0 0) pos.cost && lt pos.cost pos.price
            then profit_candidate pos.price trail ∷ []
            else [])
      ++ (if le (dec 12 0) pos.weight_pct then cap_candidate pos.weight_pct cap ∷ [] else [])

  unfoldable pub fresh : List (String × RuleType) → String → List (Candidate F) → List (Candidate F)
  fresh have tk cand = filter (λ c. not (armed have tk c.rule_type)) cand

  -- the loop over the index
  unfoldable pub suggest_all :
      Buffers F → List (String × RuleType) → Dict (Position F) → List (Suggested F)
  unfolding fresh
  suggest_all b have [] = []
  suggest_all b have ((tk, pos) ∷ idx) =
      let rest = suggest_all b have idx in
      let new = fresh have tk (candidates b tk pos) in
      if le pos.price (dec 0 0) || is_empty new
      then rest
      else record {
        ticker = tk;
        current_price = round pos.price 2;
        weight_pct = pos.weight_pct;
        rules = new;
      }
        ∷ rest

  unfoldable pub suggestions_from :
      Buffers F → Dict (Position F) → List (String × RuleType) → List (Suggested F)
  suggestions_from b idx have = sort_down (λ s. s.weight_pct) (suggest_all b have idx)
