-- ===== src/Sleeves/Core.antt =====
-- `set_core` and `clear_core` of app/services/sleeve_service.py.
use investwise_pro.Prelude.{
  Bool, true, Option, none, some, String, List, [], ◌∷◌, ◌++◌, str_eq, if◌then◌else◌,
}
use investwise_pro.Float.{Float}
use investwise_pro.Sleeves.Book.{PlanSleeve, is_core_of, get_core, id_of}
use investwise_pro.Sleeves.Rules.{validate_core}
use investwise_pro.Sleeves.Writes.{Reply, refused, set_first, delete_first, flush}

pub record CoreSet : Type 0 where
  pub action : String
  pub strategy_id : String
  pub previous : Option String

-- `"unchanged" if was == strategy_id else ("changed" if was else "set")`
abbrev pub core_action : Option String → String → String
core_action none sid = "set"
core_action (some was) sid =
    if str_eq was sid then "unchanged" else if str_eq was "" then "set" else "changed"

module _ {F : Type 0} ⦃num : Float F⦄ where
  open num use {dec}

  -- the write of `set_core`, with the row that it found
  unfoldable pub write_core :
      String → String → Option (PlanSleeve F) → List (PlanSleeve F) → List (PlanSleeve F)
  write_core email strategy_id none rows =
      rows
      ++ (record {
        subject = email;
        strategy_id = strategy_id;
        sleeve_pct = dec 0 1;
        is_core = true;
      }
          ∷ [])
  write_core email strategy_id (some row) rows =
      set_first (is_core_of email)
        (λ r. record r { strategy_id = strategy_id; sleeve_pct = dec 0 1 }) rows

  unfoldable pub set_core :
      (String → String)
      → (String → Bool)
      → (String → Bool)
      → String
      → String
      → List (PlanSleeve F)
      → Reply CoreSet String × List (PlanSleeve F)
  unfolding write_core
  set_core strip is_rule is_static email strategy_id rows =
      elim (validate_core strip is_rule is_static strategy_id) [
        | some why ↦ (refused why, rows)
        | none ↦
            let row = get_core email rows in
            flush rows (write_core email strategy_id row rows) (λ _. record {
              action = core_action (id_of row) strategy_id;
              strategy_id = strategy_id;
              previous = id_of row;
            })
      ]

module _ {F : Type 0} where
  unfoldable pub clear_core :
      String → List (PlanSleeve F) → Reply String String × List (PlanSleeve F)
  clear_core email rows = elim (get_core email rows) [
    | none ↦ (refused "no core strategy is set on this book", rows)
    | some row ↦ flush rows (delete_first (is_core_of email) rows) (λ _. row.strategy_id)
  ]
