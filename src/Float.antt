-- ===== src/Float.antt =====
-- Python's numbers with a fraction, `float` and `decimal.Decimal`, as an interface: the operations
-- that the program calls, and the laws of correctly rounded arithmetic that its proofs rest on.
-- No law speaks of exact sums or products, since neither type has them.
pub mod Order
pub mod Rounding
pub mod Fixed
pub mod Sort
use investwise_pro.Prelude.{
  ℕ, ◌*◌, ◌^◌, ◌≤◌, ◌≡◌, ◌⊎◌, Bool, true, not, ◌&&◌, String, if◌then◌else◌,
}

pub record Float (F : Type 0) : Type 0 where
  -- the literal m / 10 ^ k
  pub dec : ℕ → ℕ → F
  pub add : F → F → F
  pub sub : F → F → F
  pub mul : F → F → F
  -- the quotient by a number that is not zero
  pub div : F → F → F
  pub abs : F → F
  -- `x <= y`, `x < y` and `x == y`, all false at NaN
  pub le : F → F → Bool
  pub lt : F → F → Bool
  pub eq : F → F → Bool
  -- `round(x, n)`
  pub round : F → ℕ → F
  -- `int(x)` of a number that is not negative
  pub trunc : F → ℕ
  -- `int(x // y)` of numbers that are not negative
  pub floordiv : F → F → ℕ
  -- `format(x, spec)`, as f-strings call it
  pub format : String → F → String

infix 4 ◌≼◌
abbrev pub ◌≼◌ : {F : Type 0} ⦃num : Float F⦄ → F → F → Type 0
◌≼◌ ⦃num⦄ x y = num.le x y ≡ true

module _ {F : Type 0} ⦃num : Float F⦄ where
  -- Python's `max` and `min` of two: the first unless the second is beyond it.
  abbrev pub max : F → F → F
  max x y = if num.lt x y then y else x

  abbrev pub min : F → F → F
  min x y = if num.lt y x then y else x

  -- `bool(x)`
  abbrev pub truthy : F → Bool
  truthy x = not (num.eq x (num.dec 0 0))

-- NaN is the value that is not `<=` itself; the order is total away from it.
pub record IsOrdered (F : Type 0) ⦃num : Float F⦄ : Type 0 where
  pub dec_mono : (m k n j : ℕ) → m * 10 ^ j ≤ n * 10 ^ k → num.dec m k ≼ num.dec n j
  pub refl_of_le : (x y : F) → x ≼ y → (x ≼ x) × (y ≼ y)
  pub refl_of_lt : (x y : F) → num.lt x y ≡ true → (x ≼ x) × (y ≼ y)
  pub le_trans : (x y z : F) → x ≼ y → y ≼ z → x ≼ z
  pub le_total : (x y : F) → x ≼ x → y ≼ y → (x ≼ y) ⊎ (y ≼ x)
  pub lt-eq-not-le : (x y : F) → x ≼ x → y ≼ y → num.lt x y ≡ not (num.le y x)
  pub eq-eq-le : (x y : F) → num.eq x y ≡ (num.le x y && num.le y x)

-- Arithmetic that rounds a result correctly keeps the order of exact results, where no result is
-- NaN.
pub record IsRounded (F : Type 0) ⦃num : Float F⦄ : Type 0 where
  pub ordered : IsOrdered F
  pub open ordered use *
  -- NaN goes through
  pub nan_add : (x y : F) → num.add x y ≼ num.add x y → (x ≼ x) × (y ≼ y)
  pub nan_sub : (x y : F) → num.sub x y ≼ num.sub x y → (x ≼ x) × (y ≼ y)
  pub nan_mul : (x y : F) → num.mul x y ≼ num.mul x y → (x ≼ x) × (y ≼ y)
  pub add_mono :
      (x y z w : F)
      → x ≼ y
      → z ≼ w
      → num.add x z ≼ num.add x z
      → num.add y w ≼ num.add y w
      → num.add x z ≼ num.add y w
  pub sub_mono :
      (x y z w : F)
      → x ≼ y
      → w ≼ z
      → num.sub x z ≼ num.sub x z
      → num.sub y w ≼ num.sub y w
      → num.sub x z ≼ num.sub y w
  pub mul_mono :
      (x y z : F)
      → x ≼ y
      → num.dec 0 0 ≼ z
      → num.mul z x ≼ num.mul z x
      → num.mul z y ≼ num.mul z y
      → num.mul z x ≼ num.mul z y
  pub add_zero : (x : F) → x ≼ x → (num.add x (num.dec 0 0) ≼ x) × (x ≼ num.add x (num.dec 0 0))
  pub sub_zero : (x : F) → x ≼ x → (num.sub x (num.dec 0 0) ≼ x) × (x ≼ num.sub x (num.dec 0 0))
  pub mul_nonneg :
      (x y : F)
      → num.dec 0 0 ≼ x
      → num.dec 0 0 ≼ y
      → num.mul x y ≼ num.mul x y
      → num.dec 0 0 ≼ num.mul x y
  pub mul_nonpos :
      (x y : F)
      → num.dec 0 0 ≼ x
      → y ≼ num.dec 0 0
      → num.mul x y ≼ num.mul x y
      → num.mul x y ≼ num.dec 0 0
  pub sub_nonneg : (x y : F) → y ≼ x → num.sub x y ≼ num.sub x y → num.dec 0 0 ≼ num.sub x y
  pub sub_nonpos : (x y : F) → x ≼ y → num.sub x y ≼ num.sub x y → num.sub x y ≼ num.dec 0 0
