-- ===== src/Engines/Health.antt =====
-- app/engines/whs_engine.py: the Wealth Health Score. The components stand in the order of the dict.
use investwise_pro.Prelude.{
  ◌≡◌, refl, Bool, true, false, ◌&&◌, Option, none, some, String, List, [], ◌∷◌, arith, all,
  if◌then◌else◌,
}
use investwise_pro.Float.{Float}

pub data Rating : Type 0 where
  strong healthy needs_attention at_risk : Rating

-- a component with its name, its weight and its value
pub record Component (F : Type 0) : Type 0 where
  pub name : String
  pub weight : F
  pub value : F

pub record HealthScore (F : Type 0) : Type 0 where
  pub score : F
  pub rating : Rating
  pub components : List (Component F)

-- `ValueError`, with the name of the component that is out of range
pub data Scored (F : Type 0) : Type 0 where
  scored : HealthScore F → Scored F
  value_error : String → Scored F

module _ {F : Type 0} ⦃num : Float F⦄ where
  open num use {dec, add, mul, le, round}

  unfoldable pub rating_of : F → Rating
  rating_of score =
      if le (dec 80 0) score
      then strong
      else if le (dec 60 0) score
      then healthy
      else if le (dec 40 0) score
      then needs_attention
      else at_risk

  -- `WEIGHTS` with a thematic value, and `MEASURED_WEIGHTS` without
  unfoldable pub components : F → F → F → F → Option F → List (Component F)
  components risk tax alloc liq none =
      record { name = "risk"; weight = dec 30 2; value = risk }
      ∷ record { name = "tax"; weight = dec 25 2; value = tax }
      ∷ record { name = "alloc"; weight = dec 25 2; value = alloc }
      ∷ record { name = "liq"; weight = dec 20 2; value = liq }
      ∷ []
  components risk tax alloc liq (some thematic) =
      record { name = "risk"; weight = dec 25 2; value = risk }
      ∷ record { name = "tax"; weight = dec 25 2; value = tax }
      ∷ record { name = "alloc"; weight = dec 20 2; value = alloc }
      ∷ record { name = "liq"; weight = dec 15 2; value = liq }
      ∷ record { name = "thematic"; weight = dec 15 2; value = thematic }
      ∷ []

  abbrev pub in_range : Component F → Bool
  in_range c = le (dec 0 1) c.value && le c.value (dec 100 0)

  unfoldable pub weighted_sum : F → List (Component F) → F
  weighted_sum acc [] = acc
  weighted_sum acc (c ∷ cs) = weighted_sum (add acc (mul c.weight c.value)) cs

  -- the loop that checks, then what follows it
  unfoldable pub check_then : HealthScore F → List (Component F) → Scored F
  check_then result [] = scored result
  check_then result (c ∷ cs) =
      let rest = check_then result cs in if in_range c then rest else value_error c.name

  unfoldable pub compute : F → F → F → F → Option F → Scored F
  unfolding weighted_sum check_then
  compute risk tax alloc liq thematic =
      let cs = components risk tax alloc liq thematic in
      let score = weighted_sum (dec 0 0) cs in
      check_then (record { score = round score 2; rating = rating_of score; components = cs }) cs

  abbrev pub is_scored : Scored F → Bool
  is_scored (scored _) = true
  is_scored (value_error _) = false

  check_then-all :
      (result : HealthScore F) (cs : List (Component F))
      → is_scored (check_then result cs) ≡ all in_range cs
  unfolding check_then
  check_then-all result [] = refl
  check_then-all result (c ∷ cs) = ground (arith, check_then-all result cs)

  -- The book is scored exactly where every component lies from 0 to 100, and otherwise the call raises.
  pub compute_scored :
      (risk tax alloc liq : F) (thematic : Option F)
      → is_scored (compute risk tax alloc liq thematic)
        ≡ all in_range (components risk tax alloc liq thematic)
  unfolding compute
  compute_scored risk tax alloc liq thematic =
      check_then-all _ (components risk tax alloc liq thematic)
