-- ===== src/Splits/Search.antt =====
-- `search` of app/services/split_solver.py.
pub mod Table
pub mod Winner
pub mod Best
pub mod Found
pub mod Calls
use investwise_pro.Prelude.{
  take, ℕ, zero, suc, ◌+◌, Bool, true, false, not, ◌&&◌, ◌||◌, Option, none, some, String, List, [],
  ◌∷◌, ◌++◌, map, length, if◌then◌else◌,
}
use investwise_pro.Float.{Float}
use investwise_pro.Splits.Grid.{
  Point, Grid, grid, never_built, simplex_grid, same_point, total, sorted,
}
use investwise_pro.Splits.Neighbours.{neighbours}
use investwise_pro.Splits.Reading.{
  Measure, RankKey, by_oos, by_excess, Item, Spread, FitTest, spread, fit_test, max_item, gap_of,
  rounded,
}

-- `scored`, in the order of its keys, and `unmeasurable`
pub record Scored (F : Type 0) : Type 0 where
  pub entries : List (Point F × Option (Measure F))
  pub unmeasurable : ℕ

-- the state of the refinement
pub record Hunt (F : Type 0) : Type 0 where
  pub scored : Scored F
  pub best : Item F

pub record Coverage (F : Type 0) : Type 0 where
  pub coarse_points : ℕ
  pub step_pct : F
  pub step_was_coarsened : Bool
  pub measured_points : ℕ
  pub admissible_points : ℕ
  pub unmeasurable : ℕ

-- a row of `top`
pub record TopRow (F : Type 0) : Type 0 where
  pub split_pct : Point F
  pub total_pct : F
  pub measure : Measure F
  pub gap_pct : Option F

pub record Report (F : Type 0) : Type 0 where
  pub best : Item F
  pub total_pct : F
  pub coarse_best : Item F
  pub refinement_moved : Bool
  pub spread : Spread F
  pub coverage : Coverage F
  pub ranked_on : RankKey
  pub fit_test : Option (FitTest F)
  pub top : List (TopRow F)
  pub scored : List (Point F × F)

-- The two refusals, a winner, and the `NameError` of a grid that was never built.
pub data Result (F : Type 0) : Type 0 where
  no_grid name_error : Result F
  nothing_admissible : ℕ → F → ℕ → Result F
  found : Report F → Result F

-- `MAX_REFINE_ROUNDS`
abbrev pub max_refine_rounds : ℕ
max_refine_rounds = 6

module _ {F : Type 0} ⦃num : Float F⦄ where
  open num use {dec, add, sub, le, lt, round}

  -- `tuple(round(x, 4) for x in p)`
  abbrev pub round_point : Point F → Point F
  round_point [] = []
  round_point (x ∷ p) = round x 4 ∷ round_point p

  abbrev pub find_point :
      Point F → List (Point F × Option (Measure F)) → Option (Option (Measure F))
  find_point p [] = none
  find_point p ((q, m) ∷ entries) = if same_point q p then some m else find_point p entries

  abbrev pub entered : Point F → Option (Measure F) → Scored F → Scored F
  entered p none s = record {
    entries = s.entries ++ ((p, none) ∷ []);
    unmeasurable = s.unmeasurable + 1;
  }
  entered p (some m) s = record s { entries = s.entries ++ ((p, some m) ∷ []) }

  module _ (measure : Point F → Option (Measure F)) where
    unfoldable pub score : Point F → Scored F → Option (Measure F) × Scored F
    score p s = elim (find_point (round_point p) s.entries) [
      | some m ↦ (m, s)
      | none ↦ let m = measure (round_point p) in (m, entered (round_point p) m s)
    ]

    -- the coarse sweep
    unfoldable pub sweep : List (Point F) → Scored F → Scored F
    unfolding score
    sweep [] s = s
    sweep (p ∷ ps) s = sweep ps (score p s).1

  -- the first measure that is not None
  abbrev pub probe : List (Point F × Option (Measure F)) → Option (Measure F)
  probe [] = none
  probe ((p, none) ∷ entries) = probe entries
  probe ((p, some m) ∷ entries) = some m

  abbrev pub figure_key : Option F → RankKey
  figure_key none = by_excess
  figure_key (some v) = by_oos

  -- The figure that decides, from the first measured point.
  abbrev pub rank_key : Option (Measure F) → RankKey
  rank_key none = by_excess
  rank_key (some m) = figure_key m.oos_excess_pct

  -- `m.get(rank_key)`
  abbrev pub value_of : RankKey → Measure F → Option F
  value_of by_oos m = m.oos_excess_pct
  value_of by_excess m = m.excess_pct

  abbrev item_if : Point F → Measure F → Option F → Option (Item F)
  item_if p m none = none
  item_if p m (some v) =
      if m.admissible then some (record { point = p; measure = m; value = v }) else none

  -- the item of a point that is admissible and has the figure
  abbrev pub item_of : RankKey → Point F → Option (Measure F) → Option (Item F)
  item_of key p none = none
  item_of key p (some m) = item_if p m (value_of key m)

  abbrev pub and_item : Option (Item F) → List (Item F) → List (Item F)
  and_item none items = items
  and_item (some i) items = i ∷ items

  -- `admissible_items()`
  unfoldable pub admissible_items : RankKey → List (Point F × Option (Measure F)) → List (Item F)
  admissible_items key [] = []
  admissible_items key ((p, m) ∷ entries) =
      and_item (item_of key p m) (admissible_items key entries)

  -- the new best, if an item is better than it by more than 1e-9
  abbrev pub better : Item F → Option (Item F) → Option (Item F)
  better best none = none
  better best (some i) = if lt (add best.value (dec 1 9)) i.value then some i else none

  abbrev pub moved_to : Hunt F → Option (Item F) → Bool × Hunt F
  moved_to h none = (false, h)
  moved_to h (some i) = (true, record h { best = i })

  module _ (measure : Point F → Option (Measure F)) (key : RankKey) (max_total : F) where
    -- one neighbour
    unfoldable pub visit : Point F → Hunt F → Bool × Hunt F
    unfolding score
    visit q h =
        let (m, s) = score measure q h.scored in
        moved_to (record h { scored = s }) (better h.best (item_of key q m))

    unfoldable pub scan : List (Point F) → Hunt F → Bool × Hunt F
    unfolding visit
    scan [] h = (false, h)
    scan (q ∷ qs) h =
        let (moved, h') = visit q h in let (later, h'') = scan qs h' in (moved || later, h'')

    -- the rounds that are left at a step
    unfoldable pub rounds : ℕ → F → Hunt F → Hunt F
    unfolding scan
    rounds zero fine h = h
    rounds (suc n) fine h =
        let (moved, h') = scan (neighbours h.best.point fine max_total) h in
        let rest = rounds n fine h' in if moved then rest else h'

    unfoldable pub refine : F → List F → Hunt F → Hunt F
    unfolding rounds
    refine used_step [] h = h
    refine used_step (fine ∷ steps) h =
        refine used_step steps (if le used_step fine then h else rounds max_refine_rounds fine h)

  abbrev top_row : Item F → TopRow F
  top_row i = record {
    split_pct = i.point;
    total_pct = round (total i.point) 2;
    measure = i.measure;
    gap_pct = rounded (gap_of i.measure);
  }

  abbrev fit_of : List (Item F) → Option (FitTest F)
  fit_of [] = none
  fit_of (i ∷ items) = fit_test i items

  abbrev pub report_of : RankKey → F → ℕ → F → ℕ → Item F → Hunt F → Report F
  report_of key step coarse used_step top_n coarse_best h =
      let items = admissible_items key h.scored.entries in
      record {
        best = h.best;
        total_pct = round (total h.best.point) 2;
        coarse_best = coarse_best;
        refinement_moved =
            not (same_point (round_point h.best.point) (round_point coarse_best.point));
        spread = spread (map (λ i. some i.value) items);
        coverage = record {
          coarse_points = coarse;
          step_pct = used_step;
          step_was_coarsened = lt step used_step;
          measured_points = length h.scored.entries;
          admissible_points = length items;
          unmeasurable = h.scored.unmeasurable;
        };
        ranked_on = key;
        fit_test = fit_of items;
        top = map top_row (take top_n (sorted (λ a b. lt b.value a.value) items));
        scored = map (λ i. (i.point, i.value)) items;
      }

  abbrev pub nothing_scored : Scored F
  nothing_scored = record { entries = []; unmeasurable = 0 }

  -- what is done with the items of the sweep
  unfoldable pub search_from :
      (Point F → Option (Measure F))
      → F
      → F
      → List F
      → ℕ
      → ℕ
      → F
      → Scored F
      → RankKey
      → List (Item F)
      → Result F
  unfolding refine
  search_from measure max_total step refine_steps top_n coarse used_step s key [] =
      nothing_admissible coarse used_step s.unmeasurable
  search_from measure max_total step refine_steps top_n coarse used_step s key (i ∷ items) =
      let best = max_item i items in
      let h =
        refine measure key max_total used_step refine_steps (record { scored = s; best = best }) in
      found (report_of key step coarse used_step top_n best h)

  unfoldable pub search_grid :
      (Point F → Option (Measure F)) → F → F → List F → ℕ → Grid F → Result F
  unfolding search_from sweep
  search_grid measure max_total step refine_steps top_n never_built = name_error
  search_grid measure max_total step refine_steps top_n (grid [] used_step) = no_grid
  search_grid measure max_total step refine_steps top_n (grid (p ∷ ps) used_step) =
      let s = sweep measure (p ∷ ps) nothing_scored in
      let key = rank_key (probe s.entries) in
      search_from measure max_total step refine_steps top_n (length (p ∷ ps)) used_step s key
        (admissible_items key s.entries)

  unfoldable pub search : (Point F → Option (Measure F)) → ℕ → F → F → List F → ℕ → ℕ → Result F
  unfolding search_grid
  search measure n max_total step refine_steps max_points top_n =
      search_grid measure max_total step refine_steps top_n
        (simplex_grid n step max_total max_points)
