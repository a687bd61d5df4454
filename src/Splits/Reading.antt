-- ===== src/Splits/Reading.antt =====
-- `spread`, `rank_of`, `stability`, `fit_test` and `compare_to_ratio` of app/services/split_solver.py:
-- what is said of a search's result. The text of a natural number is an argument.
use investwise_pro.Prelude.{
  ℕ, ◌+◌, ◌-◌, ◌/◌, ◌%◌, Bool, true, false, ◌||◌, Option, none, some, String, List, [], ◌∷◌, map,
  filter, length, fstring, or_else, ◌==◌, if◌then◌else◌,
}
use investwise_pro.Float.{Float}
use investwise_pro.Splits.Grid.{Point, sorted, get_at}

-- the dict that a measure of a split gives
pub record Measure (F : Type 0) : Type 0 where
  pub excess_pct : Option F
  pub oos_excess_pct : Option F
  pub admissible : Bool
  pub max_drawdown_pct : Option F

-- `rank_key`
pub data RankKey : Type 0 where
  by_oos by_excess : RankKey

pub record Spread (F : Type 0) : Type 0 where
  pub n : ℕ
  pub best_pct : Option F
  pub median_pct : Option F
  pub worst_pct : Option F
  pub best_minus_median_pct : Option F
  pub is_noise : Bool

pub data Verdict : Type 0 where
  held weak failed unknown : Verdict

pub record Gains (F : Type 0) : Type 0 where
  pub in_sample_gain_pct : F
  pub out_of_sample_gain_pct : F
  pub decay_pct : F

pub record Stability (F : Type 0) : Type 0 where
  pub ok : Bool
  pub rank : ℕ
  pub of : ℕ
  pub percentile : Option F
  pub verdict : Verdict
  pub note : String
  pub gains : Option (Gains F)

pub record FitTest (F : Type 0) : Type 0 where
  pub winner_in_sample_pct : Option F
  pub winner_out_of_sample_pct : Option F
  pub winner_gap_pct : Option F
  pub median_gap_pct : F
  pub winner_decays_more_than_typical : Bool

-- a point that may win, with its measure and the figure that it is ranked on
pub record Item (F : Type 0) : Type 0 where
  pub point : Point F
  pub measure : Measure F
  pub value : F

pub record Comparison (F : Type 0) : Type 0 where
  pub gain_pct : F
  pub at_ratio_excess_pct : F
  pub best_excess_pct : F
  pub is_noise : Bool
  pub note : String

module _ {F : Type 0} ⦃num : Float F⦄ where
  open num use {dec, add, sub, mul, div, abs, le, lt, round, format}

  -- the values that are not None
  abbrev pub known : List (Option F) → List F
  known [] = []
  known (none ∷ vs) = known vs
  known (some v ∷ vs) = v ∷ known vs

  abbrev noise_floor : F
  noise_floor = dec 25 2

  abbrev middle : List F → F
  middle vals =
      let mid = length vals / 2 in
      if length vals % 2 == 0
      then div (add (get_at (dec 0 0) (mid - 1) vals) (get_at (dec 0 0) mid vals)) (dec 2 0)
      else get_at (dec 0 0) mid vals

  abbrev last_or : F → List F → F
  last_or d [] = d
  last_or d (x ∷ xs) = last_or x xs

  abbrev spread_sorted : List F → Spread F
  spread_sorted [] = record {
    n = 0;
    best_pct = none;
    median_pct = none;
    worst_pct = none;
    best_minus_median_pct = none;
    is_noise = true;
  }
  spread_sorted (x ∷ xs) =
      let median = middle (x ∷ xs) in
      let best = last_or x xs in
      record {
        n = length (x ∷ xs);
        best_pct = some (round best 2);
        median_pct = some (round median 2);
        worst_pct = some (round x 2);
        best_minus_median_pct = some (round (sub best median) 2);
        is_noise = lt (sub best median) noise_floor;
      }

  unfoldable pub spread : List (Option F) → Spread F
  spread values = spread_sorted (sorted lt (known values))

  -- of a value that is not None
  unfoldable pub rank_of : F → List (Option F) → ℕ
  rank_of value values =
      let vals = known values in
      if length vals == 0 then 0 else 1 + length (filter (λ v. lt (add value (dec 1 12)) v) vals)

  abbrev gains_of : Option F → Option F → Option (Gains F)
  gains_of (some i) (some o) = some (record {
    in_sample_gain_pct = round i 2;
    out_of_sample_gain_pct = round o 2;
    decay_pct = round (sub i o) 2;
  })
  gains_of (some i) none = none
  gains_of none o = none

  -- the verdict and its note on a percentile
  abbrev judged : (ℕ → String) → ℕ → ℕ → F → Verdict × String
  judged str rank n_points pct =
      if le pct (dec 25 0)
      then (
        held,
        fstring (
            "the split chosen on the first half ranked "
            ∷ str rank
            ∷ " of "
            ∷ str n_points
            ∷ " on the second half (top "
            ∷ format "" pct
            ∷ "%). It kept working on data it was not chosen on."
            ∷ []),
      )
      else if le pct (dec 60 0)
      then (
        weak,
        fstring (
            "the split chosen on the first half ranked only "
            ∷ str rank
            ∷ " of "
            ∷ str n_points
            ∷ " on the second half (top "
            ∷ format "" pct
            ∷ "%). Middling. Treat the improvement as unproven rather than measured."
            ∷ []),
      )
      else (
        failed,
        fstring (
            "the split chosen on the first half ranked "
            ∷ str rank
            ∷ " of "
            ∷ str n_points
            ∷ " on the second half (bottom "
            ∷ format "" (round (sub (dec 100 0) pct) 1)
            ∷ "%). This split is a story about the first window, not a property of the strategies. The gain will probably not repeat."
            ∷ []),
      )

  unfoldable pub stability : (ℕ → String) → ℕ → ℕ → Option F → Option F → Stability F
  stability str rank n_points in_gain out_gain =
      let pct = round (div (mul (dec 100 0) (dec rank 0)) (dec n_points 0)) 1 in
      let (verdict, note) = judged str rank n_points pct in
      if n_points == 0 || rank == 0
      then record {
        ok = false;
        rank = 0;
        of = 0;
        percentile = none;
        verdict = unknown;
        note =
            "the split could not be re-tested on a second window, so there is no evidence it holds up out of sample";
        gains = none;
      }
      else record {
        ok = true;
        rank = rank;
        of = n_points;
        percentile = some pct;
        verdict = verdict;
        note = note;
        gains = gains_of in_gain out_gain;
      }

  abbrev pub gap : Option F → Option F → Option F
  gap (some f) (some o) = some (sub f o)
  gap (some f) none = none
  gap none o = none

  abbrev pub gap_of : Measure F → Option F
  gap_of m = gap m.excess_pct m.oos_excess_pct

  abbrev pub rounded : Option F → Option F
  rounded none = none
  rounded (some x) = some (round x 2)

  -- `max(items, key=…)`: the first of the largest
  abbrev pub max_item : Item F → List (Item F) → Item F
  max_item best [] = best
  max_item best (i ∷ items) = max_item (if lt best.value i.value then i else best) items

  abbrev decays : Option F → F → Bool
  decays none median = false
  decays (some g) median = lt (add median noise_floor) g

  abbrev fit_against : Item F → List F → Option (FitTest F)
  fit_against best [] = none
  fit_against best (g ∷ gaps) =
      let median = middle (g ∷ gaps) in
      some (record {
        winner_in_sample_pct = rounded best.measure.excess_pct;
        winner_out_of_sample_pct = rounded best.measure.oos_excess_pct;
        winner_gap_pct = rounded (gap_of best.measure);
        median_gap_pct = round median 2;
        winner_decays_more_than_typical = decays (gap_of best.measure) median;
      })

  -- of a list of items that is not empty
  unfoldable pub fit_test : Item F → List (Item F) → Option (FitTest F)
  fit_test i items =
      fit_against (max_item i items) (sorted lt (known (map (λ k. gap_of k.measure) (i ∷ items))))

  -- of the excess of a best split, if there is one, and of that at the ratio
  unfoldable pub compare_to_ratio : Option (Option F) → Option (Option F) → Option (Comparison F)
  compare_to_ratio none at_ratio = none
  compare_to_ratio (some best) none = none
  compare_to_ratio (some best) (some none) = none
  compare_to_ratio (some best) (some (some ratio)) =
      let excess = or_else best (dec 0 0) in
      let gain = sub excess ratio in
      some (record {
        gain_pct = round gain 2;
        at_ratio_excess_pct = round ratio 2;
        best_excess_pct = round excess 2;
        is_noise = lt (abs gain) noise_floor;
        note =
            if lt (abs gain) noise_floor
            then "below the noise floor -- the two splits measured the same, so there is nothing here worth acting on"
            else fstring (
                "the wider search found "
                ∷ format "+.2f" gain
                ∷ "%/yr over the ratio you run"
                ∷ []);
      })
