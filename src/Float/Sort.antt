-- ===== src/Float/Sort.antt =====
-- `list.sort(key=…, reverse=True)`: stable, and from the largest key down.
use investwise_pro.Prelude.{
  ◌≡◌, refl, Bool, true, List, [], ◌∷◌, arith, if◌then◌else◌, any, ◌||◌, not, ◌&&◌,
}
use investwise_pro.Float.{Float, IsOrdered}

module _ {F A : Type 0} ⦃num : Float F⦄ (key : A → F) where
  open num use {lt}

  abbrev pub place_down : A → List A → List A
  place_down x [] = x ∷ []
  place_down x (y ∷ ys) =
      let rest = place_down x ys in if lt (key x) (key y) then y ∷ rest else x ∷ y ∷ ys

  unfoldable pub sort_down : List A → List A
  sort_down [] = []
  sort_down (x ∷ xs) = place_down x (sort_down xs)

  -- No key is below the one after it.
  abbrev pub is_down : List A → Bool
  is_down [] = true
  is_down (x ∷ []) = true
  is_down (x ∷ y ∷ ys) = not (lt (key x) (key y)) && is_down (y ∷ ys)

  place_down-is_down :
      IsOrdered F → (x : A) (ys : List A) → is_down ys ≡ true → is_down (place_down x ys) ≡ true
  place_down-is_down laws x [] h = refl
  place_down-is_down laws x (y ∷ []) h = ground (
    arith,
    laws.lt-eq-not-le (key x) (key y),
    laws.lt-eq-not-le (key y) (key x),
    laws.refl_of_lt (key x) (key y),
    laws.le_total (key x) (key y),
  )
  place_down-is_down laws x (y ∷ z ∷ zs) h = ground (
    arith,
    laws.lt-eq-not-le (key x) (key y),
    laws.lt-eq-not-le (key y) (key x),
    laws.refl_of_lt (key x) (key y),
    laws.le_total (key x) (key y),
    place_down-is_down laws x (z ∷ zs),
  )

  any-place_down :
      (p : A → Bool) (x : A) (ys : List A) → any p (place_down x ys) ≡ (p x || any p ys)
  any-place_down p x [] = refl
  any-place_down p x (y ∷ ys) = ground (arith, any-place_down p x ys)

  pub sort_down-is_down : IsOrdered F → (xs : List A) → is_down (sort_down xs) ≡ true
  unfolding sort_down
  sort_down-is_down laws [] = refl
  sort_down-is_down laws (x ∷ xs) =
      place_down-is_down laws x (sort_down xs) (sort_down-is_down laws xs)

  pub any-sort_down : (p : A → Bool) (xs : List A) → any p (sort_down xs) ≡ any p xs
  unfolding sort_down
  any-sort_down p [] = refl
  any-sort_down p (x ∷ xs) = ground (arith, any-place_down p x (sort_down xs), any-sort_down p xs)
