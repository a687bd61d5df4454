-- ===== src/Splits/Search/Best.antt =====
-- The winner of `search`: measured, admissible, and at least the best of the sweep.
use investwise_pro.Prelude.{
  ℕ, zero, suc, ◌≡◌, refl, ap, sym, ◌∙◌, or_else, true, Option, none, some, List, [], ◌∷◌, all, All,
  length, arith, Bool-cases, Option-cases, inl, inr,
}
use investwise_pro.Float.{Float, IsRounded, ◌≼◌}
use investwise_pro.Float.Order.{le_of_lt}
use investwise_pro.Float.Rounding.{le-add}
use investwise_pro.Splits.Grid.{Point, Grid, grid, never_built, simplex_grid}
use investwise_pro.Splits.Grid.Laws.{grid_points}
use investwise_pro.Splits.Neighbours.{neighbours}
use investwise_pro.Splits.Reading.{Measure, RankKey, Item, max_item}
use investwise_pro.Splits.Search.{
  Scored, Hunt, Report, Result, found, no_grid, name_error, nothing_admissible, round_point, score,
  sweep, probe, rank_key, value_of, item_of, admissible_items, better, visit, scan, rounds, refine,
  max_refine_rounds, report_of, nothing_scored, search_from, search_grid, search,
}
use investwise_pro.Splits.Search.Table.{
  fair, IsMeasure, Measured, score_lem, sweep-Measured, sweep-fair, items-fair,
}
use investwise_pro.Splits.Search.Winner.{
  and_true, IsWinner, item_of-IsWinner, items-IsWinner, max_item-IsWinner, max_item-le,
}

module _ {F : Type 0} ⦃num : Float F⦄ (laws : IsRounded F) where
  open num use {dec, add, le, lt, round}

  module _ (measure : Point F → Option (Measure F)) (is : IsMeasure measure)
      (again : (x : F) → round (round x 4) 4 ≡ round x 4) (key : RankKey) where
    abbrev MayWin : Item F → Type 0
    MayWin = IsWinner laws measure is again key

    -- the table is sound, its winner may win, and is at least a figure
    abbrev IsHunt : F → Hunt F → Type 0
    IsHunt b h =
        All (Measured measure is again) h.scored.entries × MayWin h.best × (b ≼ h.best.value)

    above-le : (x y : F) → x ≼ x → lt (add x (dec 1 9)) y ≡ true → x ≼ y
    above-le x y n above =
        let (sum, _) = laws.refl_of_lt (add x (dec 1 9)) y above in
        laws.le_trans x (add x (dec 1 9)) y
          (le-add laws x (dec 1 9) n (laws.dec_mono 0 0 1 9 (omega arith)) sum)
          (le_of_lt laws.ordered (add x (dec 1 9)) y above)

    better-le :
        (best i : Item F) (o : Option (Item F))
        → best.value ≼ best.value
        → better best o ≡ some i
        → (o ≡ some i) × (best.value ≼ i.value)
    better-le best i none n h = ground (arith, h)
    better-le best i (some j) n h = elim (Bool-cases (lt (add best.value (dec 1 9)) j.value)) [
      | inl above ↦
          let taken : better best (some j) ≡ some j = rw above refl in
          let same : i ≡ j = ap (λ (o : Option (Item F)). or_else o i) (sym h ∙ taken) in
          (sym taken ∙ h, rw same (above-le best.value j.value n above))
      | inr below ↦
          let refused : better best (some j) ≡ none = rw below refl in ground (arith, refused, h)
    ]

    module _ (max_total b : F) where
      visit-IsHunt :
          (q : Point F) (h : Hunt F) → IsHunt b h → IsHunt b (visit measure key max_total q h).1
      unfolding visit
      visit-IsHunt q h (ok, w, up) =
          let m = (score measure q h.scored).0 in
          let (of_point, ok') = score_lem measure is again q h.scored ok in
          elim (Option-cases (better h.best (item_of key q m))) [
            | inl kept ↦ rw (visit, kept) (ok', w, up)
            | inr (i, taken) ↦
                let (there, rise) = better-le h.best i (item_of key q m) w.3 taken in
                rw (visit, taken)
                  (
                    ok',
                    item_of-IsWinner laws measure is again key q m i (sym of_point) there,
                    laws.le_trans b h.best.value i.value up rise,
                  )
          ]

      scan-IsHunt :
          (qs : List (Point F)) (h : Hunt F)
          → IsHunt b h
          → IsHunt b (scan measure key max_total qs h).1
      unfolding scan
      scan-IsHunt [] h good = good
      scan-IsHunt (q ∷ qs) h good =
          scan-IsHunt qs (visit measure key max_total q h).1 (visit-IsHunt q h good)

      rounds-IsHunt :
          (n : ℕ) (fine : F) (h : Hunt F)
          → IsHunt b h
          → IsHunt b (rounds measure key max_total n fine h)
      unfolding rounds
      rounds-IsHunt zero fine h good = good
      rounds-IsHunt (suc n) fine h good =
          let qs = neighbours h.best.point fine max_total in
          let next = scan-IsHunt qs h good in
          elim (Bool-cases (scan measure key max_total qs h).0) [
            | inl moved ↦
                rw (rounds, moved) (rounds-IsHunt n fine (scan measure key max_total qs h).1 next)
            | inr stayed ↦ rw (rounds, stayed) next
          ]

      refine-IsHunt :
          (used : F) (steps : List F) (h : Hunt F)
          → IsHunt b h
          → IsHunt b (refine measure key max_total used steps h)
      unfolding refine
      refine-IsHunt used [] h good = good
      refine-IsHunt used (fine ∷ steps) h good = elim (Bool-cases (le used fine)) [
        | inl coarse ↦ rw (refine, coarse) (refine-IsHunt used steps h good)
        | inr finer ↦
            rw (refine, finer)
              (refine-IsHunt used steps _ (rounds-IsHunt max_refine_rounds fine h good))
      ]

    abbrev report_if : Report F → Result F → Report F
    report_if d no_grid = d
    report_if d name_error = d
    report_if d (nothing_admissible c u f) = d
    report_if d (found r) = r

    -- what a report says of its winner
    abbrev Wins : Report F → Type 0
    Wins r =
        (measure (round_point r.best.point) ≡ some r.best.measure)
        × (r.best.measure.admissible ≡ true)
        × (value_of r.ranked_on r.best.measure ≡ some r.best.value)
        × (r.coarse_best.value ≼ r.best.value)

    search_from_lem :
        (max_total step : F) (refine_steps : List F) (top_n coarse : ℕ) (used : F) (s : Scored F)
        (items : List (Item F)) (r : Report F)
        → search_from measure max_total step refine_steps top_n coarse used s key items ≡ found r
        → All (Measured measure is again) s.entries
        → All MayWin items
        → Wins r
          × (r.ranked_on ≡ key)
          × (all (λ (i : Item F). le i.value r.coarse_best.value) items ≡ true)
    unfolding search_from
    search_from_lem max_total step refine_steps top_n coarse used s [] r h ok ws = ground (arith, h)
    search_from_lem max_total step refine_steps top_n coarse used s (i ∷ items) r h ok (w, ws) =
        let best = max_item i items in
        let won = max_item-IsWinner laws measure is again key i items w ws in
        let (first, others) = max_item-le laws measure is again key i best items refl w ws in
        let start : Hunt F = record { scored = s; best = best } in
        let (_, (measured, allowed, ranked, _), up) =
          refine-IsHunt max_total best.value used refine_steps start (ok, won, won.3) in
        let same : r
            ≡ report_of key step coarse used top_n best
                (refine measure key max_total used refine_steps start) =
          ap (report_if r) (sym h) in
        (
          rw same (measured, allowed, ranked, up),
          ap (λ (t : Report F). t.ranked_on) same,
          ap (λ (t : Report F). all (λ (j : Item F). le j.value t.coarse_best.value) (i ∷ items))
                same
              ∙ and_true first others,
        )

  grid_best :
      (measure : Point F → Option (Measure F)) (is : IsMeasure measure)
      (again : (x : F) → round (round x 4) 4 ≡ round x 4) (g : Grid F) (max_total step : F)
      (refine_steps : List F) (top_n : ℕ) (r : Report F)
      → search_grid measure max_total step refine_steps top_n g ≡ found r
      → (measure (round_point r.best.point) ≡ some r.best.measure)
        × (r.best.measure.admissible ≡ true)
        × (value_of r.ranked_on r.best.measure ≡ some r.best.value)
        × (r.coarse_best.value ≼ r.best.value)
        × (all
              (λ p. fair r.ranked_on (λ v. le v r.coarse_best.value) (measure (round_point p)))
              (grid_points g)
            ≡ true)
  unfolding search_grid
  grid_best measure is again never_built max_total step refine_steps top_n r h = ground (arith, h)
  grid_best measure is again (grid [] used) max_total step refine_steps top_n r h =
      ground (arith, h)
  grid_best measure is again (grid (p ∷ ps) used) max_total step refine_steps top_n r h =
      let s = sweep measure (p ∷ ps) nothing_scored in
      let key = rank_key (probe s.entries) in
      let ok = sweep-Measured measure is again (p ∷ ps) nothing_scored tt in
      let ((measured, allowed, ranked, up), on, top) =
        search_from_lem measure is again key max_total step refine_steps top_n (length (p ∷ ps))
          used s (admissible_items key s.entries) r h ok
          (items-IsWinner laws measure is again key s.entries ok) in
      let table = items-fair measure is again key (λ v. le v r.coarse_best.value) s.entries top in
      let (_, sweep_fair) =
        sweep-fair measure is again key (λ v. le v r.coarse_best.value) (p ∷ ps) nothing_scored tt
          table in
      (
        measured,
        allowed,
        ranked,
        up,
        ap
              (λ (k : RankKey).
                all (λ q. fair k (λ v. le v r.coarse_best.value) (measure (round_point q)))
                  (p ∷ ps))
              on
            ∙ sweep_fair,
      )

  -- With correctly rounded numbers, where rounding to four digits again changes nothing, and a measure
  -- that does not tell a zero from a negative zero and whose figures are numbers, a search that returns a
  -- winner returns a split that was measured and is admissible, with the figure that the search ranks on;
  -- the figure is at least that of the best split of the sweep, which is at least that of every
  -- admissible split of the coarse grid.
  pub search_best :
      (measure : Point F → Option (Measure F))
      → IsMeasure measure
      → ((x : F) → round (round x 4) 4 ≡ round x 4)
      → (n : ℕ) (max_total step : F) (refine_steps : List F) (max_points top_n : ℕ) (r : Report F)
      → search measure n max_total step refine_steps max_points top_n ≡ found r
      → (measure (round_point r.best.point) ≡ some r.best.measure)
        × (r.best.measure.admissible ≡ true)
        × (value_of r.ranked_on r.best.measure ≡ some r.best.value)
        × (r.coarse_best.value ≼ r.best.value)
        × (all
              (λ p. fair r.ranked_on (λ v. le v r.coarse_best.value) (measure (round_point p)))
              (grid_points (simplex_grid n step max_total max_points))
            ≡ true)
  unfolding search search_grid search_from
  search_best measure is again n max_total step refine_steps max_points top_n r h =
      grid_best measure is again (simplex_grid n step max_total max_points) max_total step
        refine_steps top_n r h
