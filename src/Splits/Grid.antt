-- ===== src/Splits/Grid.antt =====
-- `simplex_grid` and `neighbours` of app/services/split_solver.py.
pub mod Laws
use investwise_pro.Prelude.{
  take, ℕ, zero, suc, ◌+◌, ◌^◌, Bool, true, false, not, ◌&&◌, ◌||◌, List, [], ◌∷◌, ◌++◌, map,
  filter, any, length, ltb, leb, ◌==◌, if◌then◌else◌,
}
use investwise_pro.Float.{Float, truthy}

-- a split: the size of each sleeve in percent
abbrev pub Point : Type 0 → Type 0
Point F = List F

-- what the grid is searched for: its points with the step that is reported, or the `NameError` of a
-- list that was never built
pub data Grid (F : Type 0) : Type 0 where
  grid : List (Point F) → F → Grid F
  never_built : Grid F

module _ {A : Type 0} where
  -- `sorted`, stable, by a test that is `<`
  abbrev pub put_in : (A → A → Bool) → A → List A → List A
  put_in less x [] = x ∷ []
  put_in less x (y ∷ ys) = let rest = put_in less x ys in if less y x then y ∷ rest else x ∷ y ∷ ys

  unfoldable pub sorted : (A → A → Bool) → List A → List A
  sorted less [] = []
  sorted less (x ∷ xs) = put_in less x (sorted less xs)

  -- `product(levels, repeat=n)`
  abbrev pub with_first : List A → List (List A) → List (List A)
  with_first [] rest = []
  with_first (x ∷ xs) rest = map (λ p. x ∷ p) rest ++ with_first xs rest

  unfoldable pub product : List A → ℕ → List (List A)
  product levels zero = [] ∷ []
  product levels (suc n) = with_first levels (product levels n)

  -- `x[i] = f(x[i])`
  abbrev pub update_at : ℕ → (A → A) → List A → List A
  update_at i f [] = []
  update_at zero f (x ∷ xs) = f x ∷ xs
  update_at (suc i) f (x ∷ xs) = x ∷ update_at i f xs

  abbrev pub get_at : A → ℕ → List A → A
  get_at d i [] = d
  get_at d zero (x ∷ xs) = x
  get_at d (suc i) (x ∷ xs) = get_at d i xs

module _ {F : Type 0} ⦃num : Float F⦄ where
  open num use {dec, add, sub, mul, le, lt, eq, round, floordiv}

  -- `sum(p)`
  abbrev sum_from : F → Point F → F
  sum_from total [] = total
  sum_from total (x ∷ p) = sum_from (add total x) p

  abbrev pub total : Point F → F
  total p = sum_from (dec 0 0) p

  -- `round(sum(p), 4) <= max_total + 1e-9`
  abbrev pub fits : F → Point F → Bool
  fits max_total p = le (round (total p) 4) (add max_total (dec 1 9))

  -- tuples are compared at the first put_in where they differ
  abbrev pub point_lt : Point F → Point F → Bool
  point_lt [] [] = false
  point_lt [] (y ∷ q) = true
  point_lt (x ∷ p) [] = false
  point_lt (x ∷ p) (y ∷ q) = let rest = point_lt p q in if eq x y then rest else lt x y

  abbrev pub same_point : Point F → Point F → Bool
  same_point [] [] = true
  same_point (x ∷ p) (y ∷ q) = eq x y && same_point p q
  same_point [] (y ∷ q) = false
  same_point (x ∷ p) [] = false

  -- `[round(i * used, 4) for i in range(…)]`, from the i-th on
  abbrev levels_from : F → ℕ → ℕ → List F
  levels_from used i zero = []
  levels_from used i (suc n) = round (mul (dec i 0) used) 4 ∷ levels_from used (suc i) n

  abbrev levels : F → F → List F
  levels used max_total = levels_from used 0 (suc (floordiv max_total used))

  -- the points that fit
  abbrev pub points : ℕ → F → F → List (Point F)
  points n used max_total = filter (fits max_total) (product (levels used max_total) n)

  -- the list that the loop ends with, if it built one
  abbrev cut : ℕ → F → List (List (Point F)) → Grid F
  cut max_points used [] = never_built
  cut max_points used (pts ∷ _) = grid (sorted point_lt (take max_points pts)) used

  -- The rounds that are left of the loop, with the lists built so far, the last one first.
  unfoldable pub coarsen : ℕ → ℕ → F → ℕ → F → List (List (Point F)) → Grid F
  unfolding product
  coarsen zero n max_total max_points used built = cut max_points used built
  coarsen (suc rounds) n max_total max_points used built =
      let twice = mul used (dec 2 0) in
      let pts = points n used max_total in
      let skipped = coarsen rounds n max_total max_points twice built in
      let coarser = coarsen rounds n max_total max_points twice (pts ∷ built) in
      if ltb 200_000 (length (levels used max_total) ^ n)
      then skipped
      else if leb (length pts) max_points
      then grid (sorted point_lt pts) used
      else coarser

  unfoldable pub simplex_grid : ℕ → F → F → ℕ → Grid F
  unfolding coarsen
  simplex_grid n step max_total max_points =
      if n == 0 || le step (dec 0 0) || le max_total (dec 0 0)
      then grid [] step
      else coarsen 8 n max_total max_points step []
