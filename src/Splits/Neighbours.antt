-- ===== src/Splits/Neighbours.antt =====
-- `neighbours` of app/services/split_solver.py.
pub mod Count
use investwise_pro.Prelude.{
  ℕ, zero, suc, Bool, true, false, not, ◌&&◌, ◌||◌, List, [], ◌∷◌, ◌++◌, map, filter, any, length,
  ◌==◌, if◌then◌else◌,
}
use investwise_pro.Float.{Float, min}
use investwise_pro.Splits.Grid.{Point, total, point_lt, same_point, sorted, update_at, get_at}

module _ {F : Type 0} ⦃num : Float F⦄ where
  open num use {dec, add, sub, lt, round}

  -- `x < -1e-9`
  abbrev pub below_zero : F → Bool
  below_zero x = lt x (sub (dec 0 0) (dec 1 9))

  -- `round(sum(q), 4) > max_total + 1e-9`
  abbrev pub exceeds : F → Point F → Bool
  exceeds max_total q = lt (add max_total (dec 1 9)) (round (total q) 4)

  abbrev up : F → F → F
  up step x = round (add x step) 4

  abbrev down : F → F → F
  down step x = round (sub x step) 4

  -- a point, unless it leaves the space
  abbrev kept : F → F → Point F → List (Point F)
  kept max_total x q = if below_zero x || exceeds max_total q then [] else q ∷ []

  abbrev axis_move : F → Point F → ℕ → (F → F) → List (Point F)
  axis_move max_total p i f = let q = update_at i f p in kept max_total (get_at (dec 0 0) i q) q

  -- the moves along the axes below the n-th
  abbrev axis_moves : F → F → Point F → ℕ → List (Point F)
  axis_moves step max_total p zero = []
  axis_moves step max_total p (suc i) =
      axis_moves step max_total p i
      ++ (axis_move max_total p i (down step) ++ axis_move max_total p i (up step))

  abbrev min_from : F → Point F → F
  min_from least [] = least
  min_from least (x ∷ p) = min_from (min least x) p

  -- `min(q)`
  abbrev least : Point F → F
  least [] = dec 0 0
  least (x ∷ p) = min_from x p

  abbrev pair_move : F → F → Point F → ℕ → ℕ → List (Point F)
  pair_move step max_total p i j =
      let q = update_at j (down step) (update_at i (up step) p) in
      if i == j then [] else kept max_total (least q) q

  -- the moves from the axes below the n-th to the i-th
  abbrev pair_moves_to : F → F → Point F → ℕ → ℕ → List (Point F)
  pair_moves_to step max_total p i zero = []
  pair_moves_to step max_total p i (suc j) =
      pair_moves_to step max_total p i j ++ pair_move step max_total p i j

  abbrev pair_moves : F → F → Point F → ℕ → ℕ → List (Point F)
  pair_moves step max_total p n zero = []
  pair_moves step max_total p n (suc i) =
      pair_moves step max_total p n i ++ pair_moves_to step max_total p i n

  -- a set of points
  unfoldable pub distinct : List (Point F) → List (Point F)
  distinct [] = []
  distinct (p ∷ ps) = let rest = distinct ps in if any (same_point p) ps then rest else p ∷ rest

  unfoldable pub neighbours : Point F → F → F → List (Point F)
  unfolding distinct sorted
  neighbours point step max_total =
      let n = length point in
      let out = axis_moves step max_total point n ++ pair_moves step max_total point n n in
      sorted point_lt (filter (λ q. not (same_point q point)) (distinct out))
