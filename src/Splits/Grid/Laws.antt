-- ===== src/Splits/Grid/Laws.antt =====
-- The grid of `simplex_grid`: its size, and that its points are in the space.
use investwise_pro.Prelude.{
  take, ℕ, zero, suc, ◌^◌, ◌≤◌, ◌≡◌, refl, Bool, true, ◌&&◌, ◌||◌, List, [], ◌∷◌, ◌++◌, map, filter,
  all, length, arith, ltb, leb, ◌==◌, Bool-cases, inl, inr,
}
use investwise_pro.Float.{Float}
use investwise_pro.Splits.Grid.{
  Point, Grid, grid, never_built, put_in, sorted, with_first, product, fits, points, point_lt,
  levels, cut, coarsen, simplex_grid,
}

module _ {A : Type 0} where
  length-put_in :
      (less : A → A → Bool) (x : A) (xs : List A) → length (put_in less x xs) ≡ suc (length xs)
  length-put_in less x [] = refl
  length-put_in less x (y ∷ ys) = ground (arith, length-put_in less x ys)

  pub length-sorted : (less : A → A → Bool) (xs : List A) → length (sorted less xs) ≡ length xs
  unfolding sorted
  length-sorted less [] = refl
  length-sorted less (x ∷ xs) =
      omega (arith, length-put_in less x (sorted less xs), length-sorted less xs)

  all-put_in :
      (p : A → Bool) (less : A → A → Bool) (x : A) (xs : List A)
      → all p (put_in less x xs) ≡ (p x && all p xs)
  all-put_in p less x [] = refl
  all-put_in p less x (y ∷ ys) = ground (arith, all-put_in p less x ys)

  pub all-sorted :
      (p : A → Bool) (less : A → A → Bool) (xs : List A) → all p (sorted less xs) ≡ all p xs
  unfolding sorted
  all-sorted p less [] = refl
  all-sorted p less (x ∷ xs) =
      ground (arith, all-put_in p less x (sorted less xs), all-sorted p less xs)

  pub all-filter : (p q : A → Bool) (xs : List A) → all p xs ≡ true → all p (filter q xs) ≡ true
  all-filter p q [] h = refl
  all-filter p q (x ∷ xs) h = ground (arith, h, all-filter p q xs)

  holds-filter : (q : A → Bool) (xs : List A) → all q (filter q xs) ≡ true
  holds-filter q [] = refl
  holds-filter q (x ∷ xs) = ground (arith, holds-filter q xs)

  all-take : (p : A → Bool) (n : ℕ) (xs : List A) → all p xs ≡ true → all p (take n xs) ≡ true
  all-take p zero xs h = refl
  all-take p (suc n) [] h = refl
  all-take p (suc n) (x ∷ xs) h = ground (arith, h, all-take p n xs)

  length-take : (n : ℕ) (xs : List A) → length (take n xs) ≤ n
  length-take zero xs = omega arith
  length-take (suc n) [] = omega arith
  length-take (suc n) (x ∷ xs) = omega (arith, length-take n xs)

  pub all-append : (p : A → Bool) (xs ys : List A) → all p (xs ++ ys) ≡ (all p xs && all p ys)
  all-append p [] ys = refl
  all-append p (x ∷ xs) ys = ground (arith, all-append p xs ys)

module _ {A : Type 0} where
  -- a list of n entries
  abbrev pub has_length : ℕ → List A → Bool
  has_length n p = length p == n

  longer :
      (x : A) (n : ℕ) (rest : List (List A))
      → all (has_length n) rest ≡ true
      → all (has_length (suc n)) (map (λ p. x ∷ p) rest) ≡ true
  longer x n [] h = refl
  longer x n (p ∷ rest) h = ground (arith, h, longer x n rest)

  with_first-lengths :
      (xs : List A) (n : ℕ) (rest : List (List A))
      → all (has_length n) rest ≡ true
      → all (has_length (suc n)) (with_first xs rest) ≡ true
  with_first-lengths [] n rest h = refl
  with_first-lengths (x ∷ xs) n rest h = ground (
    arith,
    longer x n rest h,
    with_first-lengths xs n rest h,
    all-append (has_length (suc n)) (map (λ p. x ∷ p) rest) (with_first xs rest),
  )

  pub product-lengths : (levels : List A) (n : ℕ) → all (has_length n) (product levels n) ≡ true
  unfolding product
  product-lengths levels zero = refl
  product-lengths levels (suc n) =
      with_first-lengths levels n (product levels n) (product-lengths levels n)

module _ {F : Type 0} where
  -- the points of a grid, if it was built
  abbrev pub grid_points : Grid F → List (Point F)
  grid_points (grid pts step) = pts
  grid_points never_built = []

module _ {F : Type 0} ⦃num : Float F⦄ (n : ℕ) (max_total : F) (max_points : ℕ) where
  abbrev pub is_inside : Point F → Bool
  is_inside p = fits max_total p && has_length n p

  abbrev Inside : Grid F → Type 0
  Inside g = (length (grid_points g) ≤ max_points) × (all is_inside (grid_points g) ≡ true)

  all_and :
      (p q : Point F → Bool) (xs : List (Point F))
      → all p xs ≡ true
      → all q xs ≡ true
      → all (λ x. p x && q x) xs ≡ true
  all_and p q [] h k = refl
  all_and p q (x ∷ xs) h k = ground (arith, h, k, all_and p q xs)

  points-inside : (used : F) → all is_inside (points n used max_total) ≡ true
  points-inside used =
      all_and (fits max_total) (has_length n) (points n used max_total)
        (holds-filter (fits max_total) (product (levels used max_total) n))
        (all-filter (has_length n) (fits max_total) (product (levels used max_total) n)
          (product-lengths (levels used max_total) n))

  sorted-Inside :
      (used : F) (pts : List (Point F))
      → length pts ≤ max_points
      → all is_inside pts ≡ true
      → Inside (grid (sorted point_lt pts) used)
  sorted-Inside used pts h k =
      (omega (arith, length-sorted point_lt pts), ground (arith, all-sorted is_inside point_lt pts))

  cut-Inside :
      (used : F) (built : List (List (Point F)))
      → all (all is_inside) built ≡ true
      → Inside (cut max_points used built)
  cut-Inside used [] h = (omega arith, refl)
  cut-Inside used (pts ∷ built) h =
      sorted-Inside used (take max_points pts) (length-take max_points pts)
        (all-take is_inside max_points pts (ground (arith, h)))

  coarsen-Inside :
      (rounds : ℕ) (used : F) (built : List (List (Point F)))
      → all (all is_inside) built ≡ true
      → Inside (coarsen rounds n max_total max_points used built)
  unfolding coarsen
  coarsen-Inside zero used built h = cut-Inside used built h
  coarsen-Inside (suc rounds) used built h =
      elim (Bool-cases (ltb 200_000 (length (levels used max_total) ^ n))) [
        | inl huge ↦ rw (coarsen, huge) (coarsen-Inside rounds _ built h)
        | inr buildable ↦ elim (Bool-cases (leb (length (points n used max_total)) max_points)) [
          | inl few ↦
              rw (coarsen, buildable, few)
                (sorted-Inside used (points n used max_total) (ground (arith, few))
                  (points-inside used))
          | inr many ↦
              rw (coarsen, buildable, many)
                (coarsen-Inside rounds _ (points n used max_total ∷ built)
                  (ground (arith, h, points-inside used)))
        ]
      ]

  -- The grid of a search has at most as many points as the ceiling allows, whatever its step, and each
  -- is a size for every sleeve whose rounded total is within the share that may be sleeved, up to 1e-9.
  pub simplex_grid-Inside :
      (step : F)
      → (length (grid_points (simplex_grid n step max_total max_points)) ≤ max_points)
        × (all is_inside (grid_points (simplex_grid n step max_total max_points)) ≡ true)
  unfolding simplex_grid
  simplex_grid-Inside step =
      elim (Bool-cases (n == 0 || num.le step (num.dec 0 0) || num.le max_total (num.dec 0 0))) [
        | inl refused ↦ rw (simplex_grid, refused) (omega arith, refl)
        | inr asked ↦ rw (simplex_grid, asked) (coarsen-Inside 8 step [] refl)
      ]
