-- ===== src/Sleeves/Cores.antt =====
-- At most one core row for each subject, through every write.
use investwise_pro.Prelude.{
  ℕ, ◌+◌, ◌≤◌, ◌≡◌, refl, Bool, true, false, Option, none, some, String, List, [], ◌∷◌, ◌++◌, any,
  filter, length, length-append, arith, str_eq, eq_iff, if◌then◌else◌, Option-cases, inl, inr, ◌⊎◌,
  map,
}
use investwise_pro.Float.{Float}
use investwise_pro.Sleeves.Book.{PlanSleeve, is_core_of, list_sleeves, get_core, find}
use investwise_pro.Sleeves.Writes.{delete_first, flush, is_sleeve_for, place, add_or_resize, remove}
use investwise_pro.Sleeves.Rules.{validate, validate_core}
use investwise_pro.Sleeves.Core.{set_core, write_core, clear_core}
use investwise_pro.Sleeves.Backfill.{
  PlanRow, Tables, fill, fill_core, core_subjects, commit, backfill_once, backfill_core_once, Key,
  backfill_key, core_backfill_key,
}
use investwise_pro.Sleeves.Steps.{
  Write, put, drop, choose, forget, fill_sleeves, fill_cores, Catalogs, write, write_all,
}
use investwise_pro.Sleeves.Rows.{filter-append, length-filter-set_first, length-filter-delete_first}

module _ {F : Type 0} where
  -- the core rows of a subject
  unfoldable pub core_count : String → List (PlanSleeve F) → ℕ
  core_count e rows = length (filter (is_core_of e) rows)

  abbrev pub IsSingular : List (PlanSleeve F) → Type 0
  IsSingular rows = (e : String) → core_count e rows ≤ 1

  core_count-append :
      (e : String) (xs ys : List (PlanSleeve F))
      → core_count e (xs ++ ys) ≡ core_count e xs + core_count e ys
  unfolding core_count
  core_count-append e xs ys =
      rw (filter-append (is_core_of e) xs ys)
        (length-append (filter (is_core_of e) xs) (filter (is_core_of e) ys))

  core_count-delete :
      (e : String) (q : PlanSleeve F → Bool) (rows : List (PlanSleeve F))
      → core_count e (delete_first q rows) ≤ core_count e rows
  unfolding core_count
  core_count-delete e q rows = length-filter-delete_first (is_core_of e) q rows

  flush-IsSingular :
      {A : Type 0} (R : Type 0) (before after : List (PlanSleeve F))
      (reply : List (PlanSleeve F) → A)
      → IsSingular before
      → IsSingular after
      → IsSingular (flush {R = R} before after reply).1
  unfolding flush
  flush-IsSingular R before after reply h k e = ground (arith, h e, k e)

  none_there :
      (e : String) (rows : List (PlanSleeve F)) → get_core e rows ≡ none → core_count e rows ≡ 0
  unfolding core_count get_core
  none_there e rows h = ground arith

  clear_core-IsSingular :
      (email : String) (rows : List (PlanSleeve F))
      → IsSingular rows
      → IsSingular (clear_core email rows).1
  unfolding clear_core
  clear_core-IsSingular email rows h e = elim (Option-cases (get_core email rows)) [
    | inl missing ↦ rw (clear_core, missing) (h e)
    | inr (row, found) ↦
        rw (clear_core, found)
          (flush-IsSingular _ rows (delete_first (is_core_of email) rows) _ h
            (λ e. omega (arith, h e, core_count-delete e (is_core_of email) rows)) e)
  ]

module _ {F : Type 0} ⦃num : Float F⦄ where
  one_more :
      (e email sid : String) (pct : F)
      → core_count e
          (record { subject = email; strategy_id = sid; sleeve_pct = pct; is_core = true } ∷ [])
        ≡ (if str_eq email e then 1 else 0)
  unfolding core_count
  one_more e email sid pct = ground arith

  no_more :
      (e email sid : String) (pct : F)
      → core_count e
          (record { subject = email; strategy_id = sid; sleeve_pct = pct; is_core = false } ∷ [])
        ≡ 0
  unfolding core_count
  no_more e email sid pct = ground arith

  write_core-IsSingular :
      (email sid : String) (rows : List (PlanSleeve F))
      → IsSingular rows
      → IsSingular (write_core email sid (get_core email rows) rows)
  unfolding write_core
  write_core-IsSingular email sid rows h = elim (Option-cases (get_core email rows)) [
    | inl missing ↦ λ e. rw missing (
        ground (
          arith,
          h e,
          none_there email rows missing,
          eq_iff email e,
          core_count-append e rows (
              record {
                subject = email;
                strategy_id = sid;
                sleeve_pct = num.dec 0 1;
                is_core = true;
              }
              ∷ []),
          one_more e email sid (num.dec 0 1),
        ))
    | inr (row, found) ↦ λ e. rw found (
        unfold core_count in
        omega (
          arith,
          h e,
          length-filter-set_first (is_core_of e) (is_core_of email)
              (λ r. record r { strategy_id = sid; sleeve_pct = num.dec 0 1 }) rows (λ r _. refl),
        ))
  ]

  set_core-IsSingular :
      (k : Catalogs F) (email sid : String) (rows : List (PlanSleeve F))
      → IsSingular rows
      → IsSingular (set_core k.strip k.is_rule k.is_static email sid rows).1
  unfolding set_core
  set_core-IsSingular k email sid rows h e =
      elim (Option-cases (validate_core k.strip k.is_rule k.is_static sid)) [
        | inl fits ↦
            rw (set_core, fits)
              (flush-IsSingular _ rows (write_core email sid (get_core email rows) rows) _ h
                (write_core-IsSingular email sid rows h) e)
        | inr (why, refuses) ↦ rw (set_core, refuses) (h e)
      ]

  place-IsSingular :
      (email sid : String) (pct : F) (row : Option (PlanSleeve F)) (rows : List (PlanSleeve F))
      → IsSingular rows
      → IsSingular (place email sid pct row rows).1
  unfolding place
  place-IsSingular email sid pct none rows h = flush-IsSingular _ rows _ _ h (λ e.
      unfold core_count in
      omega (
        arith,
        h e,
        core_count-append e rows
            (record { subject = email; strategy_id = sid; sleeve_pct = pct; is_core = false } ∷ []),
        no_more e email sid pct,
      ))
  place-IsSingular email sid pct (some row) rows h = flush-IsSingular _ rows _ _ h (λ e.
      unfold core_count in
      omega (
        arith,
        h e,
        length-filter-set_first (is_core_of e) (is_sleeve_for email sid)
            (λ s. record s { sleeve_pct = pct }) rows (λ r _. refl),
      ))

  add_or_resize-IsSingular :
      (k : Catalogs F) (email sid : String) (pct : F) (rows : List (PlanSleeve F))
      → IsSingular rows
      → IsSingular (add_or_resize k.strip email sid pct rows).1
  unfolding add_or_resize
  add_or_resize-IsSingular k email sid pct rows h e =
      let sleeves = list_sleeves email rows in
      elim (Option-cases (validate k.strip sleeves sid pct true)) [
        | inl fits ↦
            rw (add_or_resize, fits) (place-IsSingular email sid pct (find sid sleeves) rows h e)
        | inr (why, refuses) ↦ rw (add_or_resize, refuses) (h e)
      ]

  remove-IsSingular :
      (email sid : String) (rows : List (PlanSleeve F))
      → IsSingular rows
      → IsSingular (remove email sid rows).1
  unfolding remove
  remove-IsSingular email sid rows h e = elim (Option-cases (find sid (list_sleeves email rows))) [
    | inl missing ↦ rw (remove, missing) (h e)
    | inr (row, found) ↦
        rw (remove, found)
          (flush-IsSingular _ rows (delete_first (is_sleeve_for email sid) rows) _ h
            (λ e. omega (arith, h e, core_count-delete e (is_sleeve_for email sid) rows)) e)
  ]

  fill_none :
      (k : Catalogs F) (e : String) (plans : List (PlanRow F)) (existing : List Key)
      → core_count e (fill k.strip k.suggested plans existing) ≡ 0
  unfolding fill core_count
  fill_none k e [] existing = refl
  fill_none k e (plan ∷ plans) existing = ground (
    arith,
    fill_none k e plans existing,
    fill_none k e plans ((plan.email, k.strip plan.strategy) ∷ existing),
  )

  fill_core_count :
      (k : Catalogs F) (e : String) (plans : List (PlanRow F)) (have : List String)
      → core_count e (fill_core k.strip k.is_static plans have)
        ≤ (if any (λ s. str_eq s e) have then 0 else 1)
  unfolding fill_core core_count
  fill_core_count k e [] have = ground arith
  fill_core_count k e (plan ∷ plans) have = ground (
    arith,
    eq_iff plan.email e,
    fill_core_count k e plans have,
    fill_core_count k e plans (plan.email ∷ have),
  )

  core_subjects_count :
      (e : String) (rows : List (PlanSleeve F))
      → core_count e rows ≡ 0 ⊎ (any (λ s. str_eq s e) (core_subjects rows) ≡ true)
  unfolding core_subjects core_count
  core_subjects_count e [] = inl refl
  core_subjects_count e (r ∷ rows) = ground (arith, core_subjects_count e rows)

  commit-IsSingular :
      (key : String) (rows : List (PlanSleeve F)) (t : Tables F)
      → IsSingular t.sleeves
      → IsSingular (t.sleeves ++ rows)
      → IsSingular (commit key rows t).1.sleeves
  unfolding commit
  commit-IsSingular key rows t h k e = ground (arith, h e, k e)

  backfill_once-IsSingular :
      (k : Catalogs F) (plans : List (PlanRow F)) (t : Tables F)
      → IsSingular t.sleeves
      → IsSingular (backfill_once k.strip k.suggested plans t).1.sleeves
  unfolding backfill_once
  backfill_once-IsSingular k plans t h e =
      let existing = map (λ (s : PlanSleeve F). (s.subject, s.strategy_id)) t.sleeves in
      let rows = fill k.strip k.suggested plans existing in
      let after : IsSingular (t.sleeves ++ rows) =
        λ e. omega (arith, h e, core_count-append e t.sleeves rows, fill_none k e plans existing) in
      ground (arith, h e, commit-IsSingular backfill_key rows t h after e)

  backfill_core_once-IsSingular :
      (k : Catalogs F) (plans : List (PlanRow F)) (t : Tables F)
      → IsSingular t.sleeves
      → IsSingular (backfill_core_once k.strip k.is_static plans t).1.sleeves
  unfolding backfill_core_once
  backfill_core_once-IsSingular k plans t h e =
      let have = core_subjects t.sleeves in
      let rows = fill_core k.strip k.is_static plans have in
      let after : IsSingular (t.sleeves ++ rows) = λ e. ground (
        arith,
        h e,
        core_count-append e t.sleeves rows,
        fill_core_count k e plans have,
        core_subjects_count e t.sleeves,
      ) in
      ground (arith, h e, commit-IsSingular core_backfill_key rows t h after e)

  write-IsSingular :
      (k : Catalogs F) (w : Write F) (t : Tables F)
      → IsSingular t.sleeves
      → IsSingular (write k w t).sleeves
  unfolding write
  write-IsSingular k (put email sid pct) t h = add_or_resize-IsSingular k email sid pct t.sleeves h
  write-IsSingular k (drop email sid) t h = remove-IsSingular email sid t.sleeves h
  write-IsSingular k (choose email sid) t h = set_core-IsSingular k email sid t.sleeves h
  write-IsSingular k (forget email) t h = clear_core-IsSingular email t.sleeves h
  write-IsSingular k (fill_sleeves plans) t h = backfill_once-IsSingular k plans t h
  write-IsSingular k (fill_cores plans) t h = backfill_core_once-IsSingular k plans t h

  -- From a table with at most one core row for each subject, any sequence of additions, resizings,
  -- removals, choices and clearings of cores and backfills, the refused and the failed ones
  -- included, leaves at most one core row for each subject.
  pub write_all-IsSingular :
      (k : Catalogs F) (ws : List (Write F)) (t : Tables F)
      → IsSingular t.sleeves
      → IsSingular (write_all k ws t).sleeves
  unfolding write_all
  write_all-IsSingular k [] t h = h
  write_all-IsSingular k (w ∷ ws) t h =
      write_all-IsSingular k ws (write k w t) (write-IsSingular k w t h)
