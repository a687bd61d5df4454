-- ===== src/Splits/Search/Found.antt =====
-- When `search` returns a winner.
use investwise_pro.Prelude.{
  ℕ, ◌≡◌, refl, ap, ◌∙◌, Bool, true, false, ◌&&◌, Option, none, some, List, [], ◌∷◌, all, any,
  is_some, arith, length,
}
use investwise_pro.Float.{Float}
use investwise_pro.Splits.Grid.{Point, Grid, grid, simplex_grid}
use investwise_pro.Splits.Reading.{Measure, RankKey, by_oos, by_excess, Item}
use investwise_pro.Splits.Search.{
  Result, found, Scored, round_point, admissible_items, nothing_scored, sweep, rank_key, probe,
  search_from, search_grid, search,
}
use investwise_pro.Splits.Search.Table.{fair, IsMeasure, sweep-fair, items-fair}

-- what would make a false test true is itself false
refuted : {x y : Bool} → (x ≡ true → y ≡ true) → y ≡ false → x ≡ false
refuted h k = ground (arith, h, k)

module _ {F : Type 0} ⦃num : Float F⦄ where
  -- an admissible measure with both figures
  abbrev pub may_win : Option (Measure F) → Bool
  may_win none = false
  may_win (some m) = m.admissible && (is_some m.excess_pct && is_some m.oos_excess_pct)

  abbrev pub is_found : Result F → Bool
  is_found (found r) = true
  is_found _ = false

  unfair :
      (key : RankKey) (m : Option (Measure F)) → may_win m ≡ true → fair key (λ v. false) m ≡ false
  unfair key none h = ground (arith, h)
  unfair by_oos (some m) h = ground (arith, h)
  unfair by_excess (some m) h = ground (arith, h)

  -- a point of a sweep that may win leaves an item
  unfair_somewhere :
      (measure : Point F → Option (Measure F)) (key : RankKey) (ps : List (Point F))
      → any (λ q. may_win (measure (round_point q))) ps ≡ true
      → all (λ q. fair key (λ v. false) (measure (round_point q))) ps ≡ false
  unfair_somewhere measure key [] h = ground (arith, h)
  unfair_somewhere measure key (p ∷ ps) h =
      ground (arith, h, unfair key (measure (round_point p)), unfair_somewhere measure key ps)

  some_item :
      (measure : Point F → Option (Measure F)) (is : IsMeasure measure)
      (again : (x : F) → num.round (num.round x 4) 4 ≡ num.round x 4) (max_total step : F)
      (refine_steps : List F) (top_n coarse : ℕ) (used : F) (s : Scored F) (key : RankKey)
      (items : List (Item F))
      → all (λ (i : Item F). false) items ≡ false
      → is_found (search_from measure max_total step refine_steps top_n coarse used s key items)
        ≡ true
  unfolding search_from
  some_item measure is again max_total step refine_steps top_n coarse used s key [] h =
      ground (arith, h)
  some_item measure is again max_total step refine_steps top_n coarse used s key (i ∷ items) h =
      refl

  found_in_grid :
      (measure : Point F → Option (Measure F)) (is : IsMeasure measure)
      (again : (x : F) → num.round (num.round x 4) 4 ≡ num.round x 4) (max_total step : F)
      (refine_steps : List F) (top_n : ℕ) (used : F) (ps : List (Point F))
      → any (λ q. may_win (measure (round_point q))) ps ≡ true
      → is_found (search_grid measure max_total step refine_steps top_n (grid ps used)) ≡ true
  unfolding search_grid
  found_in_grid measure is again max_total step refine_steps top_n used [] h = ground (arith, h)
  found_in_grid measure is again max_total step refine_steps top_n used (p ∷ ps) h =
      let s = sweep measure (p ∷ ps) nothing_scored in
      let key = rank_key (probe s.entries) in
      let unmet = unfair_somewhere measure key (p ∷ ps) h in
      some_item measure is again max_total step refine_steps top_n (length (p ∷ ps)) used s key
        (admissible_items key s.entries)
        (refuted
          (λ top.
            (sweep-fair measure is again key (λ v. false) (p ∷ ps) nothing_scored tt
              (items-fair measure is again key (λ v. false) s.entries top)).1)
          unmet)

  -- Where rounding to four digits again changes nothing, with a measure that does not tell a zero from a
  -- negative zero and whose figures are numbers, a search returns a winner if its grid is built and a
  -- split of it is measured as admissible with both of the figures that the search may rank on.
  pub search_found :
      (measure : Point F → Option (Measure F))
      → IsMeasure measure
      → ((x : F) → num.round (num.round x 4) 4 ≡ num.round x 4)
      → (n : ℕ) (max_total step : F) (refine_steps : List F) (max_points top_n : ℕ) (used : F)
        (ps : List (Point F))
      → simplex_grid n step max_total max_points ≡ grid ps used
      → any (λ q. may_win (measure (round_point q))) ps ≡ true
      → is_found (search measure n max_total step refine_steps max_points top_n) ≡ true
  unfolding search
  search_found measure is again n max_total step refine_steps max_points top_n used ps built h =
      ap (λ (g : Grid F). is_found (search_grid measure max_total step refine_steps top_n g)) built
      ∙ found_in_grid measure is again max_total step refine_steps top_n used ps h
