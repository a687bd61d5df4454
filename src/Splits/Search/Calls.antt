-- ===== src/Splits/Search/Calls.antt =====
-- How many splits a search measures.
use investwise_pro.Prelude.{
  ℕ, zero, suc, ◌+◌, ◌*◌, ◌≤◌, ◌≡◌, refl, ap, sym, ◌∙◌, Bool, true, Option, none, some, List, [],
  ◌∷◌, all, length, arith, ◌==◌, Bool-cases, Option-cases, inl, inr, length-append,
}
use investwise_pro.Float.{Float}
use investwise_pro.Splits.Grid.{Point, Grid, grid, never_built, simplex_grid}
use investwise_pro.Splits.Grid.Laws.{
  grid_points, has_length, is_inside, simplex_grid-Inside, all-append,
}
use investwise_pro.Splits.Neighbours.{neighbours}
use investwise_pro.Splits.Neighbours.Count.{neighbours-le, neighbours-size}
use investwise_pro.Splits.Reading.{Measure, RankKey, Item, max_item}
use investwise_pro.Splits.Search.{
  Scored, Hunt, Report, Result, found, round_point, find_point, score, sweep, probe, rank_key,
  item_of, admissible_items, better, visit, scan, rounds, refine, max_refine_rounds, nothing_scored,
  search_from, search_grid, search,
}

module _ {F : Type 0} where
  abbrev measured_if : Result F → ℕ
  measured_if (found r) = r.coverage.measured_points
  measured_if _ = 0

module _ {F : Type 0} ⦃num : Float F⦄ (measure : Point F → Option (Measure F)) (key : RankKey)
    (max_total : F) (n : ℕ) where
  open num use {le}

  length-round_point : (p : Point F) → length (round_point p) ≡ length p
  length-round_point [] = refl
  length-round_point (x ∷ p) = omega (arith, length-round_point p)

  abbrev sized : List (Point F × Option (Measure F)) → Bool
  sized entries = all (λ (e : Point F × Option (Measure F)). length e.0 == n) entries

  score-le :
      (p : Point F) (s : Scored F) → length (score measure p s).1.entries ≤ suc (length s.entries)
  unfolding score
  score-le p s = elim (Option-cases (find_point (round_point p) s.entries)) [
    | inr (m, there) ↦ rw (score, there) (omega arith)
    | inl new ↦ elim (Option-cases (measure (round_point p))) [
      | inl failed ↦
          rw (score, new, failed)
            (omega (arith, length-append s.entries ((round_point p, none) ∷ [])))
      | inr (m, done) ↦
          rw (score, new, done)
            (omega (arith, length-append s.entries ((round_point p, some m) ∷ [])))
    ]
  ]

  score-sized :
      (p : Point F) (s : Scored F)
      → length p ≡ n
      → sized s.entries ≡ true
      → sized (score measure p s).1.entries ≡ true
  unfolding score
  score-sized p s size h = elim (Option-cases (find_point (round_point p) s.entries)) [
    | inr (m, there) ↦ rw (score, there) h
    | inl new ↦ elim (Option-cases (measure (round_point p))) [
      | inl failed ↦
          rw (score, new, failed)
            (ground (
              arith,
              h,
              size,
              length-round_point p,
              all-append (λ (e : Point F × Option (Measure F)). length e.0 == n) s.entries
                  ((round_point p, none) ∷ []),
            ))
      | inr (m, done) ↦
          rw (score, new, done)
            (ground (
              arith,
              h,
              size,
              length-round_point p,
              all-append (λ (e : Point F × Option (Measure F)). length e.0 == n) s.entries
                  ((round_point p, some m) ∷ []),
            ))
    ]
  ]

  sweep_lem :
      (ps : List (Point F)) (s : Scored F)
      → all (has_length n) ps ≡ true
      → sized s.entries ≡ true
      → (length (sweep measure ps s).entries ≤ length ps + length s.entries)
        × (sized (sweep measure ps s).entries ≡ true)
  unfolding sweep
  sweep_lem [] s h k = (omega arith, k)
  sweep_lem (p ∷ ps) s h k =
      let (count, ok) =
        sweep_lem ps (score measure p s).1 (ground (arith, h))
          (score-sized p s (ground (arith, h)) k) in
      (omega (arith, count, score-le p s), ok)

  item_size :
      (q : Point F) (m : Option (Measure F)) (i : Item F)
      → item_of key q m ≡ some i
      → length i.point ≡ length q
  item_size q none i h = ground (arith, h)
  item_size q (some m) i h = ground (arith, h)

  better_size :
      (best i : Item F) (q : Point F) (m : Option (Measure F))
      → better best (item_of key q m) ≡ some i
      → length i.point ≡ length q
  better_size best i q none h = ground (arith, h)
  better_size best i q (some m) h = ground (arith, h)

  visit_lem :
      (q : Point F) (h : Hunt F)
      → length q ≡ n
      → length h.best.point ≡ n
      → (length (visit measure key max_total q h).1.scored.entries ≤ suc (length h.scored.entries))
        × (length (visit measure key max_total q h).1.best.point ≡ n)
  unfolding visit
  visit_lem q h size best =
      let m = (score measure q h.scored).0 in
      elim (Option-cases (better h.best (item_of key q m))) [
        | inl kept ↦ rw (visit, kept) (score-le q h.scored, best)
        | inr (i, taken) ↦
            rw (visit, taken) (score-le q h.scored, better_size h.best i q m taken ∙ size)
      ]

  -- the most neighbours that a split has
  abbrev pub degree : ℕ
  degree = n * 2 + n * n

  scan_lem :
      (qs : List (Point F)) (h : Hunt F)
      → all (has_length n) qs ≡ true
      → length h.best.point ≡ n
      → (length (scan measure key max_total qs h).1.scored.entries
          ≤ length qs + length h.scored.entries)
        × (length (scan measure key max_total qs h).1.best.point ≡ n)
  unfolding scan
  scan_lem [] h sizes best = (omega arith, best)
  scan_lem (q ∷ qs) h sizes best =
      let (one, kept) = visit_lem q h (ground (arith, sizes)) best in
      let (count, ok) =
        scan_lem qs (visit measure key max_total q h).1 (ground (arith, sizes)) kept in
      (omega (arith, one, count), ok)

  rounds_lem :
      (k : ℕ) (fine : F) (h : Hunt F)
      → length h.best.point ≡ n
      → (length (rounds measure key max_total k fine h).scored.entries
          ≤ k * degree + length h.scored.entries)
        × (length (rounds measure key max_total k fine h).best.point ≡ n)
  unfolding rounds
  rounds_lem zero fine h best = (omega arith, best)
  rounds_lem (suc k) fine h best =
      let qs = neighbours h.best.point fine max_total in
      let sizes : all (has_length n) qs ≡ true =
        sym (ap (λ (m : ℕ). all (has_length m) qs) best)
        ∙ neighbours-size fine max_total h.best.point in
      let few = neighbours-le fine max_total h.best.point n best in
      let (count, ok) = scan_lem qs h sizes best in
      elim (Bool-cases (scan measure key max_total qs h).0) [
        | inl moved ↦
            let (more, ok') = rounds_lem k fine (scan measure key max_total qs h).1 ok in
            rw (rounds, moved) (omega (arith, few, count, more), ok')
        | inr stayed ↦ rw (rounds, stayed) (omega (arith, few, count), ok)
      ]

  refine-le :
      (used : F) (steps : List F) (h : Hunt F)
      → length h.best.point ≡ n
      → length (refine measure key max_total used steps h).scored.entries
        ≤ length steps * (6 * degree) + length h.scored.entries
  unfolding refine
  refine-le used [] h best = omega arith
  refine-le used (fine ∷ steps) h best = elim (Bool-cases (le used fine)) [
    | inl coarse ↦ rw (refine, coarse) (omega (arith, refine-le used steps h best))
    | inr finer ↦
        let (count, ok) = rounds_lem max_refine_rounds fine h best in
        rw (refine, finer)
          (omega (
            arith,
            count,
            refine-le used steps (rounds measure key max_total max_refine_rounds fine h) ok,
          ))
  ]

  items-sized :
      (entries : List (Point F × Option (Measure F)))
      → sized entries ≡ true
      → all (λ (i : Item F). length i.point == n) (admissible_items key entries) ≡ true
  unfolding admissible_items
  items-sized [] h = refl
  items-sized ((p, m) ∷ entries) h = elim (Option-cases (item_of key p m)) [
    | inl skipped ↦ rw skipped (items-sized entries (ground (arith, h)))
    | inr (i, there) ↦ rw there (ground (arith, h, item_size p m i there, items-sized entries))
  ]

  max_item-sized :
      (b : Item F) (items : List (Item F))
      → length b.point ≡ n
      → all (λ (i : Item F). length i.point == n) items ≡ true
      → length (max_item b items).point ≡ n
  max_item-sized b [] h k = h
  max_item-sized b (i ∷ items) h k = elim (Bool-cases (num.lt b.value i.value)) [
    | inl above ↦
        rw (max_item, above) (max_item-sized i items (ground (arith, k)) (ground (arith, k)))
    | inr below ↦ rw (max_item, below) (max_item-sized b items h (ground (arith, k)))
  ]

  search_from-le :
      (step : F) (refine_steps : List F) (top_n coarse : ℕ) (used : F) (s : Scored F)
      (items : List (Item F))
      → all (λ (i : Item F). length i.point == n) items ≡ true
      → measured_if (search_from measure max_total step refine_steps top_n coarse used s key items)
        ≤ length refine_steps * (6 * degree) + length s.entries
  unfolding search_from
  search_from-le step refine_steps top_n coarse used s [] h = omega arith
  search_from-le step refine_steps top_n coarse used s (i ∷ items) h =
      refine-le used refine_steps (record { scored = s; best = max_item i items })
        (max_item-sized i items (ground (arith, h)) (ground (arith, h)))

module _ {F : Type 0} ⦃num : Float F⦄ (measure : Point F → Option (Measure F)) (n : ℕ) where
  all_of_inside :
      (max_total : F) (max_points : ℕ) (ps : List (Point F))
      → all (is_inside n max_total max_points) ps ≡ true
      → all (has_length n) ps ≡ true
  all_of_inside max_total max_points [] h = refl
  all_of_inside max_total max_points (p ∷ ps) h =
      ground (arith, h, all_of_inside max_total max_points ps)

  search_grid-le :
      (g : Grid F) (max_total step : F) (refine_steps : List F) (max_points top_n : ℕ)
      → length (grid_points g) ≤ max_points
      → all (is_inside n max_total max_points) (grid_points g) ≡ true
      → measured_if (search_grid measure max_total step refine_steps top_n g)
        ≤ max_points + length refine_steps * (6 * (n * 2 + n * n))
  unfolding search_grid
  search_grid-le never_built max_total step refine_steps max_points top_n h k = omega arith
  search_grid-le (grid [] used) max_total step refine_steps max_points top_n h k = omega arith
  search_grid-le (grid (p ∷ ps) used) max_total step refine_steps max_points top_n h k =
      let s = sweep measure (p ∷ ps) nothing_scored in
      let key = rank_key (probe s.entries) in
      let (count, sizes) =
        sweep_lem measure key max_total n (p ∷ ps) nothing_scored
          (all_of_inside max_total max_points (p ∷ ps) k) refl in
      omega (
        arith,
        h,
        count,
        search_from-le measure key max_total n step refine_steps top_n (length (p ∷ ps)) used s
            (admissible_items key s.entries) (items-sized measure key max_total n s.entries sizes),
      )

  -- A search that returns a winner has measured at most as many splits as the ceiling on the coarse
  -- grid and, for each refinement step, six rounds of the 2n + n² neighbours that a split of n sleeves
  -- has at most, whatever the measure answers.
  pub search_calls :
      (max_total step : F) (refine_steps : List F) (max_points top_n : ℕ) (r : Report F)
      → search measure n max_total step refine_steps max_points top_n ≡ found r
      → r.coverage.measured_points ≤ max_points + length refine_steps * (6 * (n * 2 + n * n))
  unfolding search
  search_calls max_total step refine_steps max_points top_n r h =
      let (few, inside) = simplex_grid-Inside n max_total max_points step in
      omega (
        arith,
        ap measured_if h,
        search_grid-le (simplex_grid n step max_total max_points) max_total step refine_steps
            max_points top_n few inside,
      )
