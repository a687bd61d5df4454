-- ===== src/Splits/Search/Winner.antt =====
-- The items that may win, and the largest of them.
use investwise_pro.Prelude.{
  ◌≡◌, refl, ap, sym, ◌∙◌, or_else, Bool, true, ◌&&◌, Option, none, some, List, [], ◌∷◌, all, All,
  arith, Bool-cases, Option-cases, inl, inr, if◌then◌else◌,
}
use investwise_pro.Float.{Float, IsRounded, ◌≼◌}
use investwise_pro.Float.Order.{le_of_lt, le_of_not-lt}
use investwise_pro.Splits.Grid.{Point}
use investwise_pro.Splits.Reading.{Measure, RankKey, Item, max_item}
use investwise_pro.Splits.Search.{round_point, value_of, item_of, admissible_items}
use investwise_pro.Splits.Search.Table.{IsMeasure, Measured}

pub and_true : {x y : Bool} → x ≡ true → y ≡ true → (x && y) ≡ true
and_true h k = rw (h, k) refl

module _ {F : Type 0} ⦃num : Float F⦄ (laws : IsRounded F) where
  open num use {dec, add, le, lt, round}

  module _ (measure : Point F → Option (Measure F)) (is : IsMeasure measure)
      (again : (x : F) → round (round x 4) 4 ≡ round x 4) (key : RankKey) where
    -- an item is measured, may win, and has a number for its figure
    abbrev pub IsWinner : Item F → Type 0
    IsWinner i =
        (measure (round_point i.point) ≡ some i.measure)
        × (i.measure.admissible ≡ true)
        × (value_of key i.measure ≡ some i.value)
        × (i.value ≼ i.value)

    pub item_of-IsWinner :
        (q : Point F) (m : Option (Measure F)) (i : Item F)
        → measure (round_point q) ≡ m
        → item_of key q m ≡ some i
        → IsWinner i
    item_of-IsWinner q none i h k = ground (arith, k)
    item_of-IsWinner q (some m) i h k = elim (Option-cases (value_of key m)) [
      | inl missing ↦
          let gone : item_of key q (some m) ≡ none = rw missing refl in ground (arith, gone, k)
      | inr (v, there) ↦ elim (Bool-cases m.admissible) [
        | inr barred ↦
            let gone : item_of key q (some m) ≡ none = rw (there, barred) refl in
            ground (arith, gone, k)
        | inl allowed ↦
            let made : item_of key q (some m)
                ≡ some (record { point = q; measure = m; value = v }) =
              rw (there, allowed) refl in
            let same : i ≡ record { point = q; measure = m; value = v } =
              ap (λ (o : Option (Item F)). or_else o i) (sym k ∙ made) in
            rw same (h, allowed, there, is.is_number (round_point q) m key v h there)
      ]
    ]

    pub items-IsWinner :
        (entries : List (Point F × Option (Measure F)))
        → All (Measured measure is again) entries
        → All IsWinner (admissible_items key entries)
    unfolding admissible_items
    items-IsWinner [] ok = tt
    items-IsWinner ((p, m) ∷ entries) ((k, here), ok) = elim (Option-cases (item_of key p m)) [
      | inl skipped ↦ rw skipped (items-IsWinner entries ok)
      | inr (i, there) ↦
          rw there (item_of-IsWinner p m i (ap measure k ∙ here) there, items-IsWinner entries ok)
    ]

    pub max_item-IsWinner :
        (b : Item F) (items : List (Item F))
        → IsWinner b
        → All IsWinner items
        → IsWinner (max_item b items)
    max_item-IsWinner b [] w ws = w
    max_item-IsWinner b (i ∷ items) w (v, ws) = elim (Bool-cases (lt b.value i.value)) [
      | inl above ↦ rw (max_item, above) (max_item-IsWinner i items v ws)
      | inr below ↦ rw (max_item, below) (max_item-IsWinner b items w ws)
    ]

    -- the largest is at least the first, and every item
    pub max_item-le :
        (b t : Item F) (items : List (Item F))
        → max_item b items ≡ t
        → IsWinner b
        → All IsWinner items
        → (b.value ≼ t.value) × (all (λ (i : Item F). le i.value t.value) items ≡ true)
    max_item-le b t [] top w ws = (rw (sym top) w.3, refl)
    max_item-le b t (i ∷ items) top w (v, ws) = elim (Bool-cases (lt b.value i.value)) [
      | inl above ↦
          let skip = ap (λ (x : Bool). max_item (if x then i else b) items) above in
          let (first, others) = max_item-le i t items (sym skip ∙ top) v ws in
          (
            laws.le_trans b.value i.value t.value (le_of_lt laws.ordered b.value i.value above)
                first,
            and_true first others,
          )
      | inr below ↦
          let skip = ap (λ (x : Bool). max_item (if x then i else b) items) below in
          let (first, others) = max_item-le b t items (sym skip ∙ top) w ws in
          let under = le_of_not-lt laws.ordered b.value i.value w.3 v.3 below in
          (first, and_true (laws.le_trans i.value b.value t.value under first) others)
    ]
