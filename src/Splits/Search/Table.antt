-- ===== src/Splits/Search/Table.antt =====
-- The table of a search: each measure is that of its point, and what is fair to the table is fair to
-- the points of the sweep.
use investwise_pro.Prelude.{
  ◌≡◌, refl, ap, sym, ◌∙◌, or_else, Bool, true, Option, none, some, List, [], ◌∷◌, ◌++◌, all, All,
  All-append, arith, Bool-cases, Option-cases, inl, inr, ◌⊎◌,
}
use investwise_pro.Float.{Float, ◌≼◌}
use investwise_pro.Splits.Grid.{Point, same_point}
use investwise_pro.Splits.Grid.Laws.{all-append}
use investwise_pro.Splits.Reading.{Measure, RankKey, Item}
use investwise_pro.Splits.Search.{
  Scored, round_point, find_point, score, sweep, value_of, item_of, admissible_items,
}

module _ {F : Type 0} ⦃num : Float F⦄ where
  open num use {dec, add, le, lt, round}

  -- a measure whose figure meets a test, or that cannot win
  abbrev pub fair : RankKey → (F → Bool) → Option (Measure F) → Bool
  fair key test m = elim (item_of key [] m) [ none ↦ true | some i ↦ test i.value ]

  -- What is asked of a measure of splits: it does not tell a zero from a negative zero, and its figures
  -- are numbers.
  pub record IsMeasure (measure : Point F → Option (Measure F)) : Type 0 where
    pub respects : (p q : Point F) → same_point q p ≡ true → measure q ≡ measure p
    pub is_number :
        (p : Point F) (m : Measure F) (key : RankKey) (v : F)
        → measure p ≡ some m
        → value_of key m ≡ some v
        → v ≼ v

  round_point_again :
      ((x : F) → round (round x 4) 4 ≡ round x 4)
      → (p : Point F) → round_point (round_point p) ≡ round_point p
  round_point_again again [] = refl
  round_point_again again (x ∷ p) = rw (again x, round_point_again again p) refl

  module _ (measure : Point F → Option (Measure F)) (is : IsMeasure measure)
      (again : (x : F) → round (round x 4) 4 ≡ round x 4) where
    abbrev pub Measured : Point F × Option (Measure F) → Type 0
    Measured e = (round_point e.0 ≡ e.0) × (measure e.0 ≡ e.1)

    found-Measured :
        (p : Point F) (entries : List (Point F × Option (Measure F))) (m : Option (Measure F))
        → All Measured entries
        → find_point p entries ≡ some m
        → measure p ≡ m
    found-Measured p [] m ok h = ground (arith, h)
    found-Measured p ((q, o) ∷ entries) m ((k, here), ok) h = elim (Bool-cases (same_point q p)) [
      | inl same ↦
          let first : find_point p ((q, o) ∷ entries) ≡ some o = rw same refl in
          sym (is.respects p q same)
          ∙ (here ∙ ap (λ (x : Option (Option (Measure F))). or_else x o) (sym first ∙ h))
      | inr other ↦ found-Measured p entries m ok (ground (arith, h, other))
    ]

    -- a point that is scored is known already, or its measure is entered at the end
    score-entries :
        (p : Point F) (s : Scored F)
        → ((m : Option (Measure F)) × (find_point (round_point p) s.entries ≡ some m)
            × (score measure p s ≡ (m, s)))
          ⊎ (((score measure p s).0 ≡ measure (round_point p))
              × ((score measure p s).1.entries
                  ≡ s.entries ++ ((round_point p, measure (round_point p)) ∷ [])))
    unfolding score
    score-entries p s = elim (Option-cases (find_point (round_point p) s.entries)) [
      | inr (m, there) ↦ inl (m, there, rw (score, there) refl)
      | inl new ↦ elim (Option-cases (measure (round_point p))) [
        | inl failed ↦ inr (rw (score, new, failed) (refl, refl))
        | inr (m, done) ↦ inr (rw (score, new, done) (refl, refl))
      ]
    ]

    pub score_lem :
        (p : Point F) (s : Scored F)
        → All Measured s.entries
        → ((score measure p s).0 ≡ measure (round_point p))
          × All Measured (score measure p s).1.entries
    score_lem p s ok = elim (score-entries p s) [
      | inl (m, there, same) ↦
          rw same (sym (found-Measured (round_point p) s.entries m ok there), ok)
      | inr (done, longer) ↦ (
        done,
        rw longer (All-append Measured s.entries _ ok ((round_point_again again p, refl), tt)),
      )
    ]

    pub sweep-Measured :
        (ps : List (Point F)) (s : Scored F)
        → All Measured s.entries
        → All Measured (sweep measure ps s).entries
    unfolding sweep
    sweep-Measured [] s ok = ok
    sweep-Measured (p ∷ ps) s ok = sweep-Measured ps (score measure p s).1 (score_lem p s ok).1

    module _ (key : RankKey) (test : F → Bool) where
      abbrev pub all_fair : List (Point F × Option (Measure F)) → Bool
      all_fair entries = all (λ (e : Point F × Option (Measure F)). fair key test e.1) entries

      find_point-fair :
          (p : Point F) (entries : List (Point F × Option (Measure F))) (m : Option (Measure F))
          → all_fair entries ≡ true
          → find_point p entries ≡ some m
          → fair key test m ≡ true
      find_point-fair p [] m h k = ground (arith, k)
      find_point-fair p ((q, o) ∷ entries) m h k = elim (Bool-cases (same_point q p)) [
        | inl same ↦
            let first : find_point p ((q, o) ∷ entries) ≡ some o = rw same refl in
            let same_m : o ≡ m =
              ap (λ (x : Option (Option (Measure F))). or_else x o) (sym first ∙ k) in
            ap (λ (x : Option (Measure F)). fair key test x) (sym same_m) ∙ ground (arith, h)
        | inr other ↦ find_point-fair p entries m (ground (arith, h)) (ground (arith, k, other))
      ]

      -- what is fair to a table is fair to what it was before a point was scored, and to the point
      score-fair :
          (p : Point F) (s : Scored F)
          → All Measured s.entries
          → all_fair (score measure p s).1.entries ≡ true
          → (all_fair s.entries ≡ true) × (fair key test (measure (round_point p)) ≡ true)
      score-fair p s ok h = elim (score-entries p s) [
        | inl (m, there, same) ↦
            let before : all_fair s.entries ≡ true =
              sym (ap (λ (t : Option (Measure F) × Scored F). all_fair t.1.entries) same) ∙ h in
            (
              before,
              ap (λ (x : Option (Measure F)). fair key test x)
                    (found-Measured (round_point p) s.entries m ok there)
                  ∙ find_point-fair (round_point p) s.entries m before there,
            )
        | inr (done, longer) ↦
            let both : all_fair (s.entries ++ ((round_point p, measure (round_point p)) ∷ []))
                ≡ true =
              sym (ap all_fair longer) ∙ h in
            let parts =
              all-append (λ (e : Point F × Option (Measure F)). fair key test e.1) s.entries
                ((round_point p, measure (round_point p)) ∷ []) in
            (ground (arith, both, parts), ground (arith, both, parts))
      ]

      -- so it is fair to all points of a sweep
      pub sweep-fair :
          (ps : List (Point F)) (s : Scored F)
          → All Measured s.entries
          → all_fair (sweep measure ps s).entries ≡ true
          → (all_fair s.entries ≡ true)
            × (all (λ p. fair key test (measure (round_point p))) ps ≡ true)
      unfolding sweep
      sweep-fair [] s ok h = (h, refl)
      sweep-fair (p ∷ ps) s ok h =
          let (after, others) = sweep-fair ps (score measure p s).1 (score_lem p s ok).1 h in
          let (before, this) = score-fair p s ok after in (before, ground (arith, this, others))

      -- a test that every item meets is fair to the table
      pub items-fair :
          (entries : List (Point F × Option (Measure F)))
          → all (λ (i : Item F). test i.value) (admissible_items key entries) ≡ true
          → all_fair entries ≡ true
      unfolding admissible_items
      items-fair [] h = refl
      items-fair ((p, none) ∷ entries) h = items-fair entries h
      items-fair ((p, some m) ∷ entries) h = ground (arith, h, items-fair entries)
