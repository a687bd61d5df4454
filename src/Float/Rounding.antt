-- ===== src/Float/Rounding.antt =====
-- Signs and bounds of sums and differences, from the laws of rounded arithmetic.
use investwise_pro.Float.{Float, ◌≼◌, IsRounded}

module _ {F : Type 0} ⦃num : Float F⦄ (laws : IsRounded F) where
  open num use {dec, add, sub}
  open laws use {refl_of_le, le_trans, add_mono, add_zero, sub_mono, sub_zero}

  pub le-add : (x y : F) → x ≼ x → dec 0 0 ≼ y → add x y ≼ add x y → x ≼ add x y
  le-add x y hx hy n =
      let same = add_zero x hx in
      le_trans x (add x (dec 0 0)) (add x y) same.1
        (add_mono x x (dec 0 0) y hx hy (refl_of_le _ _ same.0).0 n)

  pub add_nonneg : (x y : F) → dec 0 0 ≼ x → dec 0 0 ≼ y → add x y ≼ add x y → dec 0 0 ≼ add x y
  add_nonneg x y hx hy n = le_trans _ x _ hx (le-add x y (refl_of_le _ _ hx).1 hy n)

  pub sub-le : (x y : F) → x ≼ x → dec 0 0 ≼ y → sub x y ≼ sub x y → sub x y ≼ x
  sub-le x y hx hy n =
      let same = sub_zero x hx in
      le_trans (sub x y) (sub x (dec 0 0)) x
        (sub_mono x x y (dec 0 0) hx hy n (refl_of_le _ _ same.0).0) same.0

  pub add-le : (x y : F) → x ≼ x → y ≼ dec 0 0 → add x y ≼ add x y → add x y ≼ x
  add-le x y hx hy n =
      let same = add_zero x hx in
      le_trans (add x y) (add x (dec 0 0)) x
        (add_mono x x y (dec 0 0) hx hy n (refl_of_le _ _ same.0).0) same.0

  pub add_nonpos : (x y : F) → x ≼ dec 0 0 → y ≼ dec 0 0 → add x y ≼ add x y → add x y ≼ dec 0 0
  add_nonpos x y hx hy n = le_trans _ x _ (add-le x y (refl_of_le _ _ hx).0 hy n) hx
