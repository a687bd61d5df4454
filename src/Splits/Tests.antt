-- ===== src/Splits/Tests.antt =====
-- A search over a concrete measure, and the grids at which the coarsening gives up.
use investwise_pro.Prelude.{
  ℕ, ◌*◌, ◌≤◌, ◌≡◌, refl, ap, true, Option, none, some, List, [], ◌∷◌, all, length, arith,
}
use investwise_pro.Prelude.Int.{pos, ◌+ℤ◌, ◌-ℤ◌, leb_ℤ}
use investwise_pro.Float.{◌≼◌}
use investwise_pro.Float.Fixed.{
  Fixed, fixed_float, round_fixed, mul_fixed, div_fixed, round_fixed_again, Fixed-IsRounded,
}
use investwise_pro.Splits.Grid.{
  Point, grid, never_built, simplex_grid, coarsen, product, sorted, same_point,
}
use investwise_pro.Splits.Grid.Laws.{grid_points, is_inside, simplex_grid-Inside}
use investwise_pro.Splits.Neighbours.{neighbours, distinct}
use investwise_pro.Splits.Reading.{spread, fit_test, Measure}
use investwise_pro.Splits.Search.{
  Report, found, search, search_grid, search_from, sweep, score, admissible_items, refine, rounds,
  scan, visit, round_point, value_of,
}
use investwise_pro.Splits.Search.Table.{fair, IsMeasure}
use investwise_pro.Splits.Search.Best.{search_best}
use investwise_pro.Splits.Search.Found.{is_found, search_found}
use investwise_pro.Splits.Search.Calls.{search_calls}

abbrev units : ℕ → Fixed
units n = pos (n * 1_000_000)

-- one sleeve: the larger the better, up to 22%
abbrev tent : Point Fixed → Option (Measure Fixed)
tent [] = none
tent (x ∷ p) = some (record {
  excess_pct = some x;
  oos_excess_pct = some x;
  admissible = leb_ℤ x (units 22);
  max_drawdown_pct = none;
})

-- the list is cut off, at half of the step that is reported
cut_off : simplex_grid 1 (units 1) (units 130) 1 ≡ grid ((units 0 ∷ []) ∷ []) (units 256)
unfolding simplex_grid coarsen product sorted round_fixed mul_fixed ◌+ℤ◌ ◌-ℤ◌
cut_off = refl

-- no list is ever built
eighteen_sleeves : simplex_grid 18 (units 1) (units 128) 400 ≡ never_built
unfolding simplex_grid coarsen mul_fixed
eighteen_sleeves = refl

eq_path : (x y : Fixed) → fixed_float.eq x y ≡ true → x ≡ y
eq_path x y h = ground (arith, h)

same_point_path : (p q : Point Fixed) → same_point q p ≡ true → q ≡ p
same_point_path [] [] h = refl
same_point_path [] (y ∷ q) h = ground (arith, h)
same_point_path (x ∷ p) [] h = ground (arith, h)
same_point_path (x ∷ p) (y ∷ q) h =
    rw (eq_path y x (ground (arith, h)), same_point_path p q (ground (arith, h))) refl

tent-IsMeasure : IsMeasure tent
tent-IsMeasure = record {
  respects = λ p q h. ap tent (same_point_path p q h);
  is_number = λ p m key v h k. ground arith;
}

winning_run :
    (r : Report Fixed) × (search tent 1 (units 40) (units 10) (units 5 ∷ units 1 ∷ []) 400 8
      ≡ found r)
unfolding search search_grid search_from simplex_grid coarsen product sorted round_fixed mul_fixed
    div_fixed ◌+ℤ◌ ◌-ℤ◌ sweep score admissible_items refine rounds scan visit neighbours distinct
    spread fit_test
winning_run = (_, refl)

abbrev winner : Report Fixed
winner = winning_run.0

search_best_example :
    (tent (round_point winner.best.point) ≡ some winner.best.measure)
    × (winner.best.measure.admissible ≡ true)
    × (value_of winner.ranked_on winner.best.measure ≡ some winner.best.value)
    × (winner.coarse_best.value ≼ winner.best.value)
    × (all
          (λ p.
            fair winner.ranked_on (λ v. leb_ℤ v winner.coarse_best.value) (tent (round_point p)))
          (grid_points (simplex_grid 1 (units 10) (units 40) 400))
        ≡ true)
search_best_example =
    search_best Fixed-IsRounded tent tent-IsMeasure round_fixed_again 1 (units 40) (units 10)
      (units 5 ∷ units 1 ∷ []) 400 8 winner winning_run.1

search_calls_example : winner.coverage.measured_points ≤ 436
search_calls_example =
    search_calls tent 1 (units 40) (units 10) (units 5 ∷ units 1 ∷ []) 400 8 winner winning_run.1

abbrev tens : List (Point Fixed)
tens = (units 0 ∷ []) ∷ (units 10 ∷ []) ∷ (units 20 ∷ []) ∷ (units 30 ∷ []) ∷ (units 40 ∷ []) ∷ []

search_found_example :
    is_found (search tent 1 (units 40) (units 10) (units 5 ∷ units 1 ∷ []) 400 8) ≡ true
unfolding simplex_grid coarsen product sorted round_fixed mul_fixed ◌+ℤ◌ ◌-ℤ◌
search_found_example =
    search_found tent tent-IsMeasure round_fixed_again 1 (units 40) (units 10)
      (units 5 ∷ units 1 ∷ []) 400 8 (units 10) tens refl refl

simplex_grid-Inside_example :
    (length (grid_points (simplex_grid 1 (units 10) (units 40) 400)) ≤ 400)
    × (all (is_inside 1 (units 40) 400) (grid_points (simplex_grid 1 (units 10) (units 40) 400))
        ≡ true)
simplex_grid-Inside_example = simplex_grid-Inside 1 (units 40) 400 (units 10)
