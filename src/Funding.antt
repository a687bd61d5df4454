-- ===== src/Funding.antt =====
-- app/services/funding_service.py, its amounts and its ledger, and the table and the classes of
-- app/services/allocation_mix.py.
pub mod Tests
pub mod Positions
pub mod Sales
pub mod Mix
pub mod Prose
pub mod Purchase
use investwise_pro.Prelude.{
  ◌≡◌, Bool, true, false, not, ◌&&◌, ◌||◌, Option, none, some, String, List, [], ◌∷◌, any, arith,
  str_eq, Dict, insert, get_or, or_else, if◌then◌else◌,
}
use investwise_pro.Float.{Float, ◌≼◌, max, min, truthy, IsOrdered}
use investwise_pro.Float.Order.{dec_refl, le-max_left, max-le, min-le_left}

-- `FundingLedger`
pub record FundingLedger (F : Type 0) : Type 0 where
  pub shares : Dict F
  pub cash_ils : F

-- What the ledger reads of a purchase's funding: the cash drawn, and the shares sold of each ticker.
pub record Funding (F : Type 0) : Type 0 where
  pub from_cash_ils : F
  pub sells : List (String × F)

abbrev pub or_objective : Option String → String
or_objective none = "Balanced"
or_objective (some o) = if str_eq o "" then "Balanced" else o

module _ {F : Type 0} ⦃num : Float F⦄ where
  open num use {dec, add, sub, mul, round}

  -- `CASH_FLOOR_PCT.get(objective or "Balanced", _DEFAULT_FLOOR)`
  unfoldable pub floor_for : String → F
  floor_for objective =
      if str_eq objective "Preserve"
      then dec 10 2
      else if str_eq objective "Income"
      then dec 7 2
      else if str_eq objective "Balanced"
      then dec 5 2
      else if str_eq objective "Grow"
      then dec 3 2
      else dec 5 2

  -- the objective, and the plan's own share where it has one
  unfoldable pub cash_floor_pct : Option String → Option F → F
  cash_floor_pct objective none = floor_for (or_objective objective)
  cash_floor_pct objective (some override) = max (dec 0 1) (min (dec 5 1) override)

  unfoldable pub cash_floor_ils : F → Option String → Option F → F
  cash_floor_ils nav objective override =
      mul (max (dec 0 1) nav) (cash_floor_pct objective override)

  unfoldable pub spendable_cash : F → F → Option String → Option F → F
  spendable_cash cash nav objective override =
      max (dec 0 1) (sub cash (cash_floor_ils nav objective override))

  unfoldable pub class_gap_ils : F → Dict F → String → F → F
  class_gap_ils nav mix cls target =
      if truthy nav && truthy target
      then round (mul nav (max (dec 0 1) (sub target (get_or cls (dec 0 1) mix)))) 2
      else dec 0 1

  unfoldable pub name_room_ils : F → F → Option F → F
  name_room_ils nav weight none = dec 0 1
  name_room_ils nav weight (some cap) =
      if truthy nav then round (mul nav (max (dec 0 1) (sub cap weight))) 2 else dec 0 1

  -- the loop of `commit`
  unfoldable pub take_shares : (String → String) → List (String × F) → Dict F → Dict F
  take_shares upper [] shares = shares
  take_shares upper ((ticker, n) ∷ sells) shares =
      take_shares upper sells
        (insert (upper ticker) (add (get_or (upper ticker) (dec 0 1) shares) n) shares)

  unfoldable pub commit : (String → String) → Funding F → FundingLedger F → FundingLedger F
  unfolding take_shares
  commit upper fund ledger = record {
    shares = take_shares upper fund.sells ledger.shares;
    cash_ils = add ledger.cash_ils fund.from_cash_ils;
  }

  -- `OBJ_TARGET`
  unfoldable pub obj_target : String → Option (Dict F)
  obj_target objective =
      if str_eq objective "Grow"
      then some
          (("Equities", dec 80 2) ∷ ("Fixed Income", dec 10 2) ∷ ("Commodities", dec 10 2) ∷ [])
      else if str_eq objective "Balanced"
      then some
          (("Equities", dec 60 2) ∷ ("Fixed Income", dec 30 2) ∷ ("Commodities", dec 10 2) ∷ [])
      else if str_eq objective "Preserve"
      then some (("Equities", dec 30 2) ∷ ("Fixed Income", dec 60 2) ∷ ("Cash", dec 10 2) ∷ [])
      else if str_eq objective "Income"
      then some
          (("Equities", dec 40 2) ∷ ("Fixed Income", dec 50 2) ∷ ("Commodities", dec 10 2) ∷ [])
      else none

  -- Whatever the objective and the plan's own share, NaN included, the share of the book that is kept
  -- liquid lies from 0 to 0.5.
  pub cash_floor_pct_bounds :
      IsOrdered F
      → (objective : Option String) (override : Option F)
      → (dec 0 1 ≼ cash_floor_pct objective override)
        × (cash_floor_pct objective override ≼ dec 5 1)
  unfolding cash_floor_pct floor_for
  cash_floor_pct_bounds laws objective none = ground (
    arith,
    laws.dec_mono 0 1 10 2,
    laws.dec_mono 0 1 7 2,
    laws.dec_mono 0 1 5 2,
    laws.dec_mono 0 1 3 2,
    laws.dec_mono 10 2 5 1,
    laws.dec_mono 7 2 5 1,
    laws.dec_mono 5 2 5 1,
    laws.dec_mono 3 2 5 1,
  )
  cash_floor_pct_bounds laws objective (some x) = (
    le-max_left laws (dec 0 1) (min (dec 5 1) x) (dec_refl laws 0 1),
    max-le laws (dec 0 1) (min (dec 5 1) x) (dec 5 1) (laws.dec_mono 0 1 5 1 (omega arith))
        (min-le_left laws (dec 5 1) x (dec_refl laws 5 1)),
  )

-- `asset_class` where it is set, and else by `mentions k ticker`, which is `k in ticker.upper()`
unfoldable pub classify : (String → String → Bool) → String → String → Option String → String
classify mentions ticker market asset_class =
    let given = or_else asset_class "" in
    if not (str_eq given "")
    then given
    else if any (λ k. mentions k ticker) ("BOND" ∷ "BND" ∷ "AGG" ∷ "GOV" ∷ "GILT" ∷ [])
    then "Fixed Income"
    else if str_eq market "SPOT" || any (λ k. mentions k ticker) ("GOLD" ∷ "OIL" ∷ "SILVER" ∷ [])
    then "Commodities"
    else "Equities"
