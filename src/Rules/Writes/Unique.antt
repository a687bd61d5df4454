-- ===== src/Rules/Writes/Unique.antt =====
-- At most one row of a table meets a test: what the writes of rules_service.py do to that.
use investwise_pro.Prelude.{
  ◌≡◌, refl, Bool, true, false, not, ◌&&◌, List, [], ◌∷◌, ◌++◌, filter, any, any-append, arith,
  Bool-cases, inl, inr,
}
use investwise_pro.Rules.Data.{TradingRule}
use investwise_pro.Rules.Writes.{set_first}

module _ {A : Type 0} where
  abbrev pub at_most_one : (A → Bool) → List A → Bool
  at_most_one p [] = true
  at_most_one p (x ∷ xs) = not (p x && any p xs) && at_most_one p xs

  any-filter_none : (p q : A → Bool) (xs : List A) → any p xs ≡ false → any p (filter q xs) ≡ false
  any-filter_none p q [] h = refl
  any-filter_none p q (x ∷ xs) h = ground (arith, h, any-filter_none p q xs)

  pub at_most_one-filter :
      (p q : A → Bool) (xs : List A) → at_most_one p xs ≡ true → at_most_one p (filter q xs) ≡ true
  at_most_one-filter p q [] h = refl
  at_most_one-filter p q (x ∷ xs) h =
      ground (arith, h, any-filter_none p q xs, at_most_one-filter p q xs)

  pub at_most_one-snoc :
      (p : A → Bool) (xs : List A) (x : A)
      → at_most_one p xs ≡ true
      → (p x && any p xs) ≡ false
      → at_most_one p (xs ++ (x ∷ [])) ≡ true
  at_most_one-snoc p [] x h k = ground arith
  at_most_one-snoc p (y ∷ xs) x h k =
      ground (arith, h, k, any-append p xs (x ∷ []), at_most_one-snoc p xs x)

-- row by row, the second table meets a test where the first does
pub data Below {A : Type 0} (p : A → Bool) : List A → List A → Type 0 where
  none_left : Below p [] []
  row :
      {x y : A} {xs ys : List A}
      → (p y ≡ true → p x ≡ true)
      → Below p xs ys
      → Below p (x ∷ xs) (y ∷ ys)

module _ {A : Type 0} (p : A → Bool) where
  pub Below-same : (xs : List A) → Below p xs xs
  Below-same [] = none_left
  Below-same (x ∷ xs) = row (λ h. h) (Below-same xs)

  any-Below : {xs ys : List A} → Below p xs ys → any p xs ≡ false → any p ys ≡ false
  any-Below none_left h = refl
  any-Below (row k rest) h = ground (arith, h, k, any-Below rest)

  pub at_most_one-Below :
      {xs ys : List A} → Below p xs ys → at_most_one p xs ≡ true → at_most_one p ys ≡ true
  at_most_one-Below none_left h = refl
  at_most_one-Below (row k rest) h = ground (arith, h, k, any-Below rest, at_most_one-Below rest)

module _ {F : Type 0} where
  pub set_first-Below :
      (p : TradingRule F → Bool) (f : TradingRule F → TradingRule F) (q : TradingRule F → Bool)
      → ((r : TradingRule F) → p r ≡ true → q (f r) ≡ true → q r ≡ true)
      → (rules : List (TradingRule F)) → Below q rules (set_first p f rules)
  set_first-Below p f q keeps [] = none_left
  set_first-Below p f q keeps (r ∷ rules) = elim (Bool-cases (p r)) [
    | inl found ↦ rw found (row (keeps r found) (Below-same q rules))
    | inr other ↦ rw other (row (λ h. h) (set_first-Below p f q keeps rules))
  ]
