-- ===== src/Sleeves/Rows.antt =====
-- How a query answers after a row is added, changed or deleted.
use investwise_pro.Prelude.{
  ◌≤◌, ◌≡◌, refl, Bool, true, false, List, [], ◌∷◌, ◌++◌, filter, length, arith,
}
use investwise_pro.Sleeves.Book.{PlanSleeve}
use investwise_pro.Sleeves.Writes.{set_first, delete_first}

pub filter-append :
    {A : Type 0} (p : A → Bool) (xs ys : List A) → filter p (xs ++ ys) ≡ filter p xs ++ filter p ys
filter-append p [] ys = refl
filter-append p (x ∷ xs) ys = ground (arith, filter-append p xs ys)

module _ {F : Type 0} where
  pub length-filter-set_first :
      (p q : PlanSleeve F → Bool) (f : PlanSleeve F → PlanSleeve F) (rows : List (PlanSleeve F))
      → ((r : PlanSleeve F) → q r ≡ true → p (f r) ≡ p r)
      → length (filter p (set_first q f rows)) ≡ length (filter p rows)
  length-filter-set_first p q f [] h = refl
  length-filter-set_first p q f (r ∷ rows) h =
      ground (arith, h r, length-filter-set_first p q f rows h)

  pub length-filter-delete_first :
      (p q : PlanSleeve F → Bool) (rows : List (PlanSleeve F))
      → length (filter p (delete_first q rows)) ≤ length (filter p rows)
  length-filter-delete_first p q [] = omega arith
  length-filter-delete_first p q (r ∷ rows) = ground (arith, length-filter-delete_first p q rows)

  -- rows that the query does not ask for
  pub filter-set_first_ne :
      (p q : PlanSleeve F → Bool) (f : PlanSleeve F → PlanSleeve F) (rows : List (PlanSleeve F))
      → ((r : PlanSleeve F) → q r ≡ true → (p r ≡ false) × (p (f r) ≡ false))
      → filter p (set_first q f rows) ≡ filter p rows
  filter-set_first_ne p q f [] h = refl
  filter-set_first_ne p q f (r ∷ rows) h = ground (arith, h r, filter-set_first_ne p q f rows h)

  pub filter-delete_first_ne :
      (p q : PlanSleeve F → Bool) (rows : List (PlanSleeve F))
      → ((r : PlanSleeve F) → q r ≡ true → p r ≡ false)
      → filter p (delete_first q rows) ≡ filter p rows
  filter-delete_first_ne p q [] h = refl
  filter-delete_first_ne p q (r ∷ rows) h = ground (arith, h r, filter-delete_first_ne p q rows h)

pub filter-append_ne :
    {A : Type 0} (p : A → Bool) (x : A) (xs : List A)
    → p x ≡ false
    → filter p (xs ++ (x ∷ [])) ≡ filter p xs
filter-append_ne p x [] h = ground arith
filter-append_ne p x (y ∷ ys) h = ground (arith, filter-append_ne p x ys h)
