-- ===== src/Sleeves/Steps.antt =====
-- Every write of app/services/sleeve_service.py as one step on the two tables it touches.
use investwise_pro.Prelude.{Bool, Option, String, List, [], ◌∷◌}
use investwise_pro.Float.{Float}
use investwise_pro.Sleeves.Book.{PlanSleeve}
use investwise_pro.Sleeves.Writes.{add_or_resize, remove}
use investwise_pro.Sleeves.Core.{set_core, clear_core}
use investwise_pro.Sleeves.Backfill.{PlanRow, Tables, backfill_once, backfill_core_once}

pub data Write (F : Type 0) : Type 0 where
  put : (email strategy_id : String) → F → Write F
  drop : (email strategy_id : String) → Write F
  choose : (email strategy_id : String) → Write F
  forget : (email : String) → Write F
  fill_sleeves fill_cores : List (PlanRow F) → Write F

-- What the writes ask of the rest of the program.
pub record Catalogs (F : Type 0) : Type 0 where
  pub strip : String → String
  pub is_rule : String → Bool
  pub is_static : String → Bool
  pub suggested : String → Option F

module _ {F : Type 0} ⦃num : Float F⦄ (k : Catalogs F) where
  abbrev rows_to : Tables F → List (PlanSleeve F) → Tables F
  rows_to t rows = record t { sleeves = rows }

  unfoldable pub write : Write F → Tables F → Tables F
  write (put email sid pct) t = rows_to t (add_or_resize k.strip email sid pct t.sleeves).1
  write (drop email sid) t = rows_to t (remove email sid t.sleeves).1
  write (choose email sid) t =
      rows_to t (set_core k.strip k.is_rule k.is_static email sid t.sleeves).1
  write (forget email) t = rows_to t (clear_core email t.sleeves).1
  write (fill_sleeves plans) t = (backfill_once k.strip k.suggested plans t).1
  write (fill_cores plans) t = (backfill_core_once k.strip k.is_static plans t).1

  unfoldable pub write_all : List (Write F) → Tables F → Tables F
  write_all [] t = t
  write_all (w ∷ ws) t = write_all ws (write w t)
