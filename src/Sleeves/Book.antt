-- ===== src/Sleeves/Book.antt =====
-- The rows of `plan_sleeves` and the questions that app/services/sleeve_service.py asks of them. The
-- table stands in the order of `created_at`; a new row is the last.
use investwise_pro.Prelude.{
  Bool, true, not, ◌&&◌, Option, none, some, String, List, [], ◌∷◌, any, filter, str_eq, Dict,
  insert, get_or, if◌then◌else◌,
}
use investwise_pro.Float.{Float, max, truthy}

pub record PlanSleeve (F : Type 0) : Type 0 where
  pub subject : String
  pub strategy_id : String
  pub sleeve_pct : F
  pub is_core : Bool

abbrev pub first : {A : Type 0} → List A → Option A
first [] = none
first (x ∷ xs) = some x

module _ {F : Type 0} where
  abbrev pub is_sleeve : String → PlanSleeve F → Bool
  is_sleeve email s = str_eq s.subject email && not s.is_core

  abbrev pub is_core_of : String → PlanSleeve F → Bool
  is_core_of email s = str_eq s.subject email && s.is_core

  unfoldable pub list_sleeves : String → List (PlanSleeve F) → List (PlanSleeve F)
  list_sleeves email rows = filter (is_sleeve email) rows

  unfoldable pub get_core : String → List (PlanSleeve F) → Option (PlanSleeve F)
  get_core email rows = first (filter (is_core_of email) rows)

  abbrev pub id_of : Option (PlanSleeve F) → Option String
  id_of none = none
  id_of (some s) = some s.strategy_id

  unfoldable pub core_strategy_id : String → List (PlanSleeve F) → Option String
  core_strategy_id email rows = id_of (get_core email rows)

  -- `next((s for s in sleeves if s.strategy_id == strategy_id), None)`
  abbrev pub find : String → List (PlanSleeve F) → Option (PlanSleeve F)
  find sid sleeves = first (filter (λ s. str_eq s.strategy_id sid) sleeves)

  abbrev pub same_key : PlanSleeve F → PlanSleeve F → Bool
  same_key r s = str_eq r.subject s.subject && str_eq r.strategy_id s.strategy_id

  -- the constraint `uq_plan_sleeves_subject_strategy`
  unfoldable pub is_unique : List (PlanSleeve F) → Bool
  is_unique [] = true
  is_unique (r ∷ rows) = not (any (same_key r) rows) && is_unique rows

module _ {F : Type 0} ⦃num : Float F⦄ where
  open num use {dec, add, sub, round}

  abbrev pub book_pct : F
  book_pct = dec 100 0

  -- `float(s.sleeve_pct or 0.0)`
  abbrev pub size_of : PlanSleeve F → F
  size_of s = if truthy s.sleeve_pct then s.sleeve_pct else dec 0 1

  unfoldable pub sum_pct : F → List (PlanSleeve F) → F
  sum_pct acc [] = acc
  sum_pct acc (s ∷ sleeves) = sum_pct (add acc (size_of s)) sleeves

  unfoldable pub total_pct : List (PlanSleeve F) → F
  unfolding sum_pct
  total_pct sleeves = round (sum_pct (dec 0 0) sleeves) 4

  unfoldable pub remainder_pct : List (PlanSleeve F) → F
  remainder_pct sleeves = round (max (dec 0 1) (sub book_pct (total_pct sleeves))) 4

  -- the inner loop of `all_sleeve_targets`
  unfoldable pub add_targets : (String → String) → Dict F → Dict F → Dict F
  add_targets upper [] out = out
  add_targets upper ((tk, w) ∷ rest) out =
      add_targets upper rest (insert (upper tk) (add (get_or (upper tk) (dec 0 1) out) w) out)

  -- `targets` is `sleeve_targets(...) or {}`
  unfoldable pub sum_targets :
      (String → String) → (String → F → Dict F) → List (PlanSleeve F) → Dict F → Dict F
  unfolding add_targets
  sum_targets upper targets [] out = out
  sum_targets upper targets (s ∷ sleeves) out =
      sum_targets upper targets sleeves (add_targets upper (targets s.strategy_id s.sleeve_pct) out)

  unfoldable pub all_sleeve_targets :
      (String → String) → (String → F → Dict F) → String → List (PlanSleeve F) → Dict F
  unfolding sum_targets
  all_sleeve_targets upper targets email rows =
      sum_targets upper targets (list_sleeves email rows) []
