-- ===== src/Sleeves/Writes.antt =====
-- `add_or_resize` and `remove` of app/services/sleeve_service.py.
use investwise_pro.Prelude.{
  Bool, true, false, ◌&&◌, Option, none, some, String, List, [], ◌∷◌, ◌++◌, str_eq, fstring,
  if◌then◌else◌,
}
use investwise_pro.Float.{Float}
use investwise_pro.Sleeves.Book.{
  PlanSleeve, is_sleeve, list_sleeves, find, is_unique, size_of, total_pct, remainder_pct,
}
use investwise_pro.Sleeves.Rules.{validate}

-- A handler's dict with `ok` true, the one with `ok` false, or the `IntegrityError` of a flush, with
-- which the session is rolled back.
pub data Reply (A R : Type 0) : Type 0 where
  done : A → Reply A R
  refused : R → Reply A R
  integrity_error : Reply A R

pub record Placed (F : Type 0) : Type 0 where
  pub action : String
  pub strategy_id : String
  pub sleeve_pct : F
  pub previous_pct : Option F
  pub allocated_pct : F
  pub core_pct : F

pub record Refusal (F : Type 0) : Type 0 where
  pub error : String
  pub reason : String
  pub allocated_pct : F

pub record Removed (F : Type 0) : Type 0 where
  pub removed : String
  pub was_pct : F
  pub allocated_pct : F
  pub core_pct : F

module _ {F : Type 0} where
  -- an attribute of the first row that meets a test is set
  abbrev pub set_first :
      (PlanSleeve F → Bool)
      → (PlanSleeve F → PlanSleeve F)
      → List (PlanSleeve F)
      → List (PlanSleeve F)
  set_first p f [] = []
  set_first p f (r ∷ rows) = let rest = set_first p f rows in if p r then f r ∷ rows else r ∷ rest

  -- `session.delete` of the first row that meets a test
  abbrev pub delete_first : (PlanSleeve F → Bool) → List (PlanSleeve F) → List (PlanSleeve F)
  delete_first p [] = []
  delete_first p (r ∷ rows) = let rest = delete_first p rows in if p r then rows else r ∷ rest

  -- `session.flush()`, then the answer
  unfoldable pub flush :
      {A R : Type 0}
      → List (PlanSleeve F)
      → List (PlanSleeve F)
      → (List (PlanSleeve F) → A)
      → Reply A R × List (PlanSleeve F)
  flush before after reply =
      if is_unique after then (done (reply after), after) else (integrity_error, before)

  -- the sleeve of a subject for a strategy
  abbrev pub is_sleeve_for : String → String → PlanSleeve F → Bool
  is_sleeve_for email sid s = is_sleeve email s && str_eq s.strategy_id sid

module _ {F : Type 0} ⦃num : Float F⦄ where
  open num use {eq}

  unfoldable pub placed : String → String → F → Option F → String → List (PlanSleeve F) → Placed F
  placed email strategy_id pct was action rows =
      let after = list_sleeves email rows in
      record {
        action = action;
        strategy_id = strategy_id;
        sleeve_pct = pct;
        previous_pct = was;
        allocated_pct = total_pct after;
        core_pct = remainder_pct after;
      }

  -- the write of `add_or_resize`, with the row that it found
  unfoldable pub place :
      String
      → String
      → F
      → Option (PlanSleeve F)
      → List (PlanSleeve F)
      → Reply (Placed F) (Refusal F) × List (PlanSleeve F)
  place email strategy_id pct none rows =
      flush rows
        (rows
          ++ (record {
            subject = email;
            strategy_id = strategy_id;
            sleeve_pct = pct;
            is_core = false;
          }
              ∷ []))
        (placed email strategy_id pct none "added")
  place email strategy_id pct (some row) rows =
      let was = size_of row in
      flush rows
        (set_first (is_sleeve_for email strategy_id) (λ s. record s { sleeve_pct = pct }) rows)
        (placed email strategy_id pct (some was) (if eq was pct then "unchanged" else "resized"))

  unfoldable pub add_or_resize :
      (String → String)
      → String
      → String
      → F
      → List (PlanSleeve F)
      → Reply (Placed F) (Refusal F) × List (PlanSleeve F)
  unfolding place
  add_or_resize strip email strategy_id pct rows =
      let sleeves = list_sleeves email rows in
      elim (validate strip sleeves strategy_id pct true) [
        | some why ↦ (
          refused (record {
            error = "sleeve does not fit";
            reason = why;
            allocated_pct = total_pct sleeves;
          }),
          rows,
        )
        | none ↦ place email strategy_id pct (find strategy_id sleeves) rows
      ]

  unfoldable pub remove :
      String → String → List (PlanSleeve F) → Reply (Removed F) String × List (PlanSleeve F)
  remove email strategy_id rows = elim (find strategy_id (list_sleeves email rows)) [
    | none ↦ (refused (fstring ("'" ∷ strategy_id ∷ "' is not a sleeve on this book" ∷ [])), rows)
    | some row ↦ flush rows (delete_first (is_sleeve_for email strategy_id) rows) (λ after. record {
      removed = strategy_id;
      was_pct = size_of row;
      allocated_pct = total_pct (list_sleeves email after);
      core_pct = remainder_pct (list_sleeves email after);
    })
  ]
