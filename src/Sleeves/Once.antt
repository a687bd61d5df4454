-- ===== src/Sleeves/Once.antt =====
-- The backfill of the sleeves: it succeeds, and it runs once.
use investwise_pro.Prelude.{
  ◌≡◌, refl, Bool, true, false, ◌&&◌, ◌||◌, Option, none, String, List, [], ◌∷◌, ◌++◌, any,
  any-append, arith, str_eq, eq_iff, map, length, lookup, lookup-insert, Option-cases, Bool-cases,
  inl, inr,
}
use investwise_pro.Sleeves.Book.{PlanSleeve, is_unique, same_key}
use investwise_pro.Sleeves.Backfill.{
  PlanRow, Tables, already, created, backfill_key, Key, has_key, size_for, new_sleeve, fill,
  backfill_once,
}

module _ {F : Type 0} where
  -- some row has the key
  abbrev taken : String → String → List (PlanSleeve F) → Bool
  taken email sid rows = any (λ r. str_eq r.subject email && str_eq r.strategy_id sid) rows

  is_unique-append :
      (rows : List (PlanSleeve F)) (new : PlanSleeve F)
      → is_unique rows ≡ true
      → taken new.subject new.strategy_id rows ≡ false
      → is_unique (rows ++ (new ∷ [])) ≡ true
  unfolding is_unique
  is_unique-append [] new u h = refl
  is_unique-append (r ∷ rows) new u h =
      ground (arith, any-append (same_key r) rows (new ∷ []), is_unique-append rows new)

  taken-append :
      (email sid : String) (rows : List (PlanSleeve F)) (new : PlanSleeve F)
      → taken email sid (rows ++ (new ∷ []))
        ≡ (taken email sid rows || (str_eq new.subject email && str_eq new.strategy_id sid))
  taken-append email sid rows new = ground (
    arith,
    any-append (λ (r : PlanSleeve F). str_eq r.subject email && str_eq r.strategy_id sid) rows
        (new ∷ []),
  )

  append_one :
      (rows : List (PlanSleeve F)) (r : PlanSleeve F) (rest : List (PlanSleeve F))
      → rows ++ (r ∷ rest) ≡ (rows ++ (r ∷ [])) ++ rest
  append_one [] r rest = refl
  append_one (x ∷ rows) r rest = ground (arith, append_one rows r rest)

  append_nil : (rows : List (PlanSleeve F)) → rows ++ [] ≡ rows
  append_nil [] = refl
  append_nil (x ∷ rows) = ground (arith, append_nil rows)

  -- The keys of the table are among those that the loop knows.
  abbrev Covers : List Key → List (PlanSleeve F) → Type 0
  Covers existing rows =
      (email sid : String) → taken email sid rows ≡ true → has_key (email, sid) existing ≡ true

  fill_unique :
      (strip : String → String) (catalog : String → Option F) (plans : List (PlanRow F))
      (existing : List Key) (rows : List (PlanSleeve F))
      → Covers existing rows
      → is_unique rows ≡ true
      → is_unique (rows ++ fill strip catalog plans existing) ≡ true
  unfolding fill
  fill_unique strip catalog [] existing rows c u = rw (append_nil rows) u
  fill_unique strip catalog (plan ∷ plans) existing rows c u =
      let sid = strip plan.strategy in
      let skip = fill_unique strip catalog plans existing rows c u in
      elim (Bool-cases
        (str_eq sid "" || str_eq plan.email "" || has_key (plan.email, sid) existing)) [
          | inl skipped ↦ rw (fill, skipped) skip
          | inr open_ ↦ elim (Option-cases (size_for catalog sid plan.strategy_sleeve_pct)) [
            | inl unsized ↦ rw (fill, open_, unsized) skip
            | inr (pct, sized) ↦
                let new = new_sleeve plan.email sid pct in
                let free : taken plan.email sid rows ≡ false = ground (arith, c plan.email sid) in
                rw (fill, open_, sized)
                  (rw
                    (append_one rows new (fill strip catalog plans ((plan.email, sid) ∷ existing)))
                    (fill_unique strip catalog plans ((plan.email, sid) ∷ existing)
                      (rows ++ (new ∷ []))
                      (λ e s h. ground (arith, h, c e s, taken-append e s rows new))
                      (is_unique-append rows new u free)))
          ]
        ]

  abbrev pub key_of : PlanSleeve F → Key
  key_of s = (s.subject, s.strategy_id)

  keys-Covers : (rows : List (PlanSleeve F)) → Covers (map key_of rows) rows
  keys-Covers [] e s h = cc
  keys-Covers (r ∷ rows) e s h = ground (arith, h, keys-Covers rows e s)

  -- On a table that meets its unique constraint the backfill of the sleeves never fails to commit:
  -- where it has not run before it reports the number of rows that it added and leaves a table that
  -- meets the constraint, and a second run, over any plans, reports that it has run and changes
  -- nothing.
  pub backfill_once_lem :
      (strip : String → String) (catalog : String → Option F) (plans again : List (PlanRow F))
      (t : Tables F)
      → is_unique t.sleeves ≡ true
      → lookup backfill_key t.settings ≡ none
      → let rows = fill strip catalog plans (map key_of t.sleeves) in
        let after = (backfill_once strip catalog plans t).1 in
        ((backfill_once strip catalog plans t).0 ≡ created (length rows))
        × (after.sleeves ≡ t.sleeves ++ rows)
        × (is_unique after.sleeves ≡ true)
        × (backfill_once strip catalog again after ≡ (already, after))
  unfolding backfill_once
  backfill_once_lem strip catalog plans again t u h =
      let ok =
        fill_unique strip catalog plans (map key_of t.sleeves) t.sleeves (keys-Covers t.sleeves)
          u in
      ground (
        arith,
        h,
        ok,
        lookup-insert backfill_key backfill_key
            (length (fill strip catalog plans (map key_of t.sleeves))) t.settings,
        eq_iff backfill_key backfill_key,
      )
