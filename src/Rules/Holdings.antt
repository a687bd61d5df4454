-- ===== src/Rules/Holdings.antt =====
-- `_positions_index` and `purge_orphan_rules` of app/services/rules_service.py.
use investwise_pro.Prelude.{
  Bool, not, ◌&&◌, String, List, [], ◌∷◌, str_eq, filter, is_some, is_empty, Dict, insert, lookup,
  if◌then◌else◌,
}
use investwise_pro.Float.{Float}
use investwise_pro.Rules.Data.{TradingRule, Position, RuleType, Store}

-- A position's dict, its numbers as `float(… or 0)` gives them, with its share of the book.
pub record RawPosition (F : Type 0) : Type 0 where
  pub ticker : String
  pub current_price : F
  pub cost_basis : F
  pub quantity : F
  pub weight : F

-- what a purge reports of a rule that it deleted
pub record PurgedRule (F : Type 0) : Type 0 where
  pub id : String
  pub ticker : String
  pub rule_type : RuleType
  pub level : F

module _ {F : Type 0} ⦃num : Float F⦄ where
  open num use {dec, mul, round}

  abbrev position_of : F → RawPosition F → Position F
  position_of nav p = record {
    price = p.current_price;
    cost = p.cost_basis;
    qty = p.quantity;
    weight_pct = round (mul p.weight (dec 100 0)) 1;
    value_ils = mul p.weight nav;
  }

  -- the loop of `_positions_index`
  unfoldable pub index_from :
      (String → String) → F → List (RawPosition F) → Dict (Position F) → Dict (Position F)
  index_from upper nav [] out = out
  index_from upper nav (p ∷ positions) out =
      let tk = upper p.ticker in
      index_from upper nav positions
        (if str_eq tk "CASH" then out else insert tk (position_of nav p) out)

  unfoldable pub positions_index : (String → String) → F → List (RawPosition F) → Dict (Position F)
  unfolding index_from
  positions_index upper nav positions = index_from upper nav positions []

module _ {F : Type 0} where
  abbrev pub is_held : (String → String) → Dict (Position F) → TradingRule F → Bool
  is_held upper idx r = is_some (lookup (upper r.ticker) idx)

  abbrev pub is_orphan : (String → String) → String → Dict (Position F) → TradingRule F → Bool
  is_orphan upper email idx r = str_eq r.subject email && not (is_held upper idx r)

  abbrev purged_of : List (TradingRule F) → List (PurgedRule F)
  purged_of [] = []
  purged_of (r ∷ rules) =
      record { id = r.id; ticker = r.ticker; rule_type = r.rule_type; level = r.level }
      ∷ purged_of rules

  unfoldable pub purge_orphan_rules :
      (String → String) → String → Dict (Position F) → Store F → List (PurgedRule F) × Store F
  purge_orphan_rules upper email idx s = if is_empty idx then ([], s) else (
    purged_of (filter (is_orphan upper email idx) s.rules),
    record s { rules = filter (λ r. not (is_orphan upper email idx r)) s.rules },
  )
