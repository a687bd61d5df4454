-- ===== src/Sleeves/Backfill.antt =====
-- `backfill_once` and `backfill_core_once` of app/services/sleeve_service.py: each fills the table
-- from the plans, once.
use investwise_pro.Prelude.{
  ℕ, Bool, true, false, not, ◌&&◌, ◌||◌, Option, none, some, String, List, [], ◌∷◌, ◌++◌, any,
  length, str_eq, is_some, if◌then◌else◌, Dict, lookup, insert, map,
}
use investwise_pro.Float.{Float}
use investwise_pro.Sleeves.Book.{PlanSleeve, is_unique}

-- `plan.strategy`, `plan.strategy_sleeve_pct` and the email of the user, of the plans with a strategy
pub record PlanRow (F : Type 0) : Type 0 where
  pub strategy : String
  pub strategy_sleeve_pct : Option F
  pub email : String

-- `plan_sleeves`, and the keys and counts of `kv_settings`
pub record Tables (F : Type 0) : Type 0 where
  pub sleeves : List (PlanSleeve F)
  pub settings : Dict ℕ

-- `{"ran": False, ...}`, `{"ran": True, "created": created}`, or the `IntegrityError` of the commit
pub data Backfilled : Type 0 where
  already commit_error : Backfilled
  created : ℕ → Backfilled

abbrev pub backfill_key : String
backfill_key = "plan_sleeves_backfilled_v1"

abbrev pub core_backfill_key : String
core_backfill_key = "plan_core_backfilled_v1"

abbrev pub Key : Type 0
Key = String × String

abbrev pub has_key : Key → List Key → Bool
has_key (email, sid) keys = any (λ k. str_eq k.0 email && str_eq k.1 sid) keys

module _ {F : Type 0} where
  -- `pct = plan.strategy_sleeve_pct`, or else the catalog's
  abbrev pub size_for : (String → Option F) → String → Option F → Option F
  size_for catalog sid (some pct) = some pct
  size_for catalog sid none = catalog sid

  abbrev pub new_sleeve : String → String → F → PlanSleeve F
  new_sleeve email sid pct = record {
    subject = email;
    strategy_id = sid;
    sleeve_pct = pct;
    is_core = false;
  }

  -- the loop of `backfill_once`: the rows to add
  unfoldable pub fill :
      (String → String) → (String → Option F) → List (PlanRow F) → List Key → List (PlanSleeve F)
  fill strip catalog [] existing = []
  fill strip catalog (plan ∷ plans) existing =
      let sid = strip plan.strategy in
      let skip = fill strip catalog plans existing in
      let rest = fill strip catalog plans ((plan.email, sid) ∷ existing) in
      if str_eq sid "" || str_eq plan.email "" || has_key (plan.email, sid) existing
      then skip
      else elim (size_for catalog sid plan.strategy_sleeve_pct) [
        | none ↦ skip
        | some pct ↦ new_sleeve plan.email sid pct ∷ rest
      ]

  -- `session.commit()` of the new rows and of the key with their number
  unfoldable pub commit : String → List (PlanSleeve F) → Tables F → Backfilled × Tables F
  commit key rows t =
      if is_unique (t.sleeves ++ rows)
      then (
        created (length rows),
        record { sleeves = t.sleeves ++ rows; settings = insert key (length rows) t.settings },
      )
      else (commit_error, t)

  unfoldable pub backfill_once :
      (String → String) → (String → Option F) → List (PlanRow F) → Tables F → Backfilled × Tables F
  unfolding fill commit
  backfill_once strip catalog plans t =
      if is_some (lookup backfill_key t.settings)
      then (already, t)
      else let existing = map (λ (s : PlanSleeve F). (s.subject, s.strategy_id)) t.sleeves in
        commit backfill_key (fill strip catalog plans existing) t

module _ {F : Type 0} ⦃num : Float F⦄ where
  open num use {dec}

  abbrev pub new_core : String → String → PlanSleeve F
  new_core email sid = record {
    subject = email;
    strategy_id = sid;
    sleeve_pct = dec 0 1;
    is_core = true;
  }

  -- the loop of `backfill_core_once`, `is_static` for `static_cat.get(sid) is not None`
  unfoldable pub fill_core :
      (String → String) → (String → Bool) → List (PlanRow F) → List String → List (PlanSleeve F)
  fill_core strip is_static [] have_core = []
  fill_core strip is_static (plan ∷ plans) have_core =
      let sid = strip plan.strategy in
      let skip = fill_core strip is_static plans have_core in
      let rest = fill_core strip is_static plans (plan.email ∷ have_core) in
      if str_eq sid ""
        || str_eq plan.email ""
        || any (λ e. str_eq e plan.email) have_core
        || not (is_static sid)
      then skip
      else new_core plan.email sid ∷ rest

  -- `{r.subject for r in ... if r.is_core}`
  unfoldable pub core_subjects : List (PlanSleeve F) → List String
  core_subjects [] = []
  core_subjects (r ∷ rows) =
      let rest = core_subjects rows in if r.is_core then r.subject ∷ rest else rest

  unfoldable pub backfill_core_once :
      (String → String) → (String → Bool) → List (PlanRow F) → Tables F → Backfilled × Tables F
  unfolding fill_core core_subjects commit
  backfill_core_once strip is_static plans t =
      if is_some (lookup core_backfill_key t.settings)
      then (already, t)
      else commit core_backfill_key (fill_core strip is_static plans (core_subjects t.sleeves)) t
