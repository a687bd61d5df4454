-- ===== src/Splits/Neighbours/Count.antt =====
-- How many neighbours a split has, and that they are splits over the same sleeves.
use investwise_pro.Prelude.{
  ℕ, zero, suc, ◌+◌, ◌*◌, ◌≤◌, ◌≡◌, refl, sym, ◌∙◌, Bool, true, not, List, [], ◌∷◌, ◌++◌, filter,
  all, length, arith, ◌==◌, length-append, length-filter-le,
}
use investwise_pro.Float.{Float}
use investwise_pro.Splits.Grid.{Point, update_at, get_at, point_lt, same_point}
use investwise_pro.Splits.Grid.Laws.{length-sorted, all-sorted, all-filter, all-append}
use investwise_pro.Splits.Neighbours.{
  up, down, kept, axis_move, axis_moves, pair_move, pair_moves_to, pair_moves, least, distinct,
  neighbours,
}

length-update_at :
    {A : Type 0} (i : ℕ) (f : A → A) (xs : List A) → length (update_at i f xs) ≡ length xs
length-update_at i f [] = ground arith
length-update_at zero f (x ∷ xs) = refl
length-update_at (suc i) f (x ∷ xs) = omega (arith, length-update_at i f xs)

module _ {F : Type 0} ⦃num : Float F⦄ where
  distinct-le : (ps : List (Point F)) → length (distinct ps) ≤ length ps
  unfolding distinct
  distinct-le [] = omega arith
  distinct-le (p ∷ ps) = ground (arith, distinct-le ps)

  all-distinct :
      (q : Point F → Bool) (ps : List (Point F)) → all q ps ≡ true → all q (distinct ps) ≡ true
  unfolding distinct
  all-distinct q [] h = refl
  all-distinct q (p ∷ ps) h = ground (arith, h, all-distinct q ps)

  module _ (step max_total : F) (p : Point F) where
    kept-le : (x : F) (q : Point F) → length (kept max_total x q) ≤ 1
    kept-le x q = ground arith

    axis_moves-le : (i : ℕ) → length (axis_moves step max_total p i) ≤ i * 2
    axis_moves-le zero = omega arith
    axis_moves-le (suc i) =
        let low = axis_move max_total p i (down step) in
        let high = axis_move max_total p i (up step) in
        omega (
          arith,
          axis_moves-le i,
          length-append (axis_moves step max_total p i) (low ++ high),
          length-append low high,
          kept-le (get_at (num.dec 0 0) i (update_at i (down step) p)) (update_at i (down step) p),
          kept-le (get_at (num.dec 0 0) i (update_at i (up step) p)) (update_at i (up step) p),
        )

    pair_move-le : (i j : ℕ) → length (pair_move step max_total p i j) ≤ 1
    pair_move-le i j = ground arith

    pair_moves_to-le : (i j : ℕ) → length (pair_moves_to step max_total p i j) ≤ j
    pair_moves_to-le i zero = omega arith
    pair_moves_to-le i (suc j) = omega (
      arith,
      pair_moves_to-le i j,
      pair_move-le i j,
      length-append (pair_moves_to step max_total p i j) (pair_move step max_total p i j),
    )

    pair_moves-le : (n i : ℕ) → length (pair_moves step max_total p n i) ≤ i * n
    pair_moves-le n zero = omega arith
    pair_moves-le n (suc i) = omega (
      arith,
      pair_moves-le n i,
      pair_moves_to-le i n,
      length-append (pair_moves step max_total p n i) (pair_moves_to step max_total p i n),
    )

    abbrev same_size : Point F → Bool
    same_size q = length q == length p

    kept-size :
        (x : F) (q : Point F) → length q ≡ length p → all same_size (kept max_total x q) ≡ true
    kept-size x q h = ground (arith, h)

    axis_moves-size : (i : ℕ) → all same_size (axis_moves step max_total p i) ≡ true
    axis_moves-size zero = refl
    axis_moves-size (suc i) =
        let low = axis_move max_total p i (down step) in
        let high = axis_move max_total p i (up step) in
        ground (
          arith,
          axis_moves-size i,
          all-append same_size (axis_moves step max_total p i) (low ++ high),
          all-append same_size low high,
          kept-size (get_at (num.dec 0 0) i (update_at i (down step) p)) (update_at i (down step) p)
              (length-update_at i (down step) p),
          kept-size (get_at (num.dec 0 0) i (update_at i (up step) p)) (update_at i (up step) p)
              (length-update_at i (up step) p),
        )

    pair_move-size : (i j : ℕ) → all same_size (pair_move step max_total p i j) ≡ true
    pair_move-size i j =
        let q = update_at j (down step) (update_at i (up step) p) in
        ground (
          arith,
          kept-size (least q) q,
          length-update_at j (down step) (update_at i (up step) p),
          length-update_at i (up step) p,
        )

    pair_moves_to-size : (i j : ℕ) → all same_size (pair_moves_to step max_total p i j) ≡ true
    pair_moves_to-size i zero = refl
    pair_moves_to-size i (suc j) = ground (
      arith,
      pair_moves_to-size i j,
      pair_move-size i j,
      all-append same_size (pair_moves_to step max_total p i j) (pair_move step max_total p i j),
    )

    pair_moves-size : (n i : ℕ) → all same_size (pair_moves step max_total p n i) ≡ true
    pair_moves-size n zero = refl
    pair_moves-size n (suc i) = ground (
      arith,
      pair_moves-size n i,
      pair_moves_to-size i n,
      all-append same_size (pair_moves step max_total p n i) (pair_moves_to step max_total p i n),
    )

    -- A split of n sleeves has at most 2n + n² neighbours.
    pub neighbours-le :
        (n : ℕ) → length p ≡ n → length (neighbours p step max_total) ≤ n * 2 + n * n
    unfolding neighbours
    neighbours-le n size =
        let out =
          axis_moves step max_total p (length p)
          ++ pair_moves step max_total p (length p) (length p) in
        let moves = filter (λ q. not (same_point q p)) (distinct out) in
        rw (sym size) (
          omega (
            arith,
            length-sorted point_lt moves,
            length-filter-le (λ q. not (same_point q p)) (distinct out),
            distinct-le out,
            length-append (axis_moves step max_total p (length p))
                (pair_moves step max_total p (length p) (length p)),
            axis_moves-le (length p),
            pair_moves-le (length p) (length p),
          ))

    -- Each has a size for every sleeve.
    pub neighbours-size : all same_size (neighbours p step max_total) ≡ true
    unfolding neighbours
    neighbours-size =
        let out =
          axis_moves step max_total p (length p)
          ++ pair_moves step max_total p (length p) (length p) in
        let moves = filter (λ q. not (same_point q p)) (distinct out) in
        all-sorted same_size point_lt moves
        ∙ all-filter same_size (λ q. not (same_point q p)) (distinct out)
            (all-distinct same_size out (
              ground (
                arith,
                axis_moves-size (length p),
                pair_moves-size (length p) (length p),
                all-append same_size (axis_moves step max_total p (length p))
                    (pair_moves step max_total p (length p) (length p)),
              )))
