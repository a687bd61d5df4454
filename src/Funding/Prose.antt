-- ===== src/Funding/Prose.antt =====
-- `describe_funding` of app/services/funding_service.py.
use investwise_pro.Prelude.{
  Bool, not, ◌&&◌, String, List, [], ◌∷◌, ◌++◌, all, map, str_eq, fstring, join, is_empty,
  if◌then◌else◌,
}
use investwise_pro.Float.{Float, truthy}
use investwise_pro.Funding.Positions.{Desk}
use investwise_pro.Funding.Sales.{Sale, FundingPlan}

-- the classes that are named
abbrev sold_names : List String → List String
sold_names [] = []
sold_names (s ∷ ss) = let rest = sold_names ss in if str_eq s "" then rest else s ∷ rest

-- `sold == {buying_class}`
abbrev swaps_class : List String → String → Bool
swaps_class sold cls =
    not (str_eq cls "") && (not (is_empty (sold_names sold)) && all (str_eq cls) (sold_names sold))

module _ {F : Type 0} ⦃num : Float F⦄ where
  open num use {dec, add, sub, mul, div, abs, le, lt, round, format}

  abbrev sale_text : Desk F → Sale F → String
  sale_text desk s =
      fstring (
        "₪" ∷ format ",.0f" s.value_ils ∷ " by selling " ∷ desk.text s.shares ∷ " " ∷ s.ticker ∷ [])

  abbrev fund_bits : Desk F → FundingPlan F → List String
  fund_bits desk fund =
      (if truthy fund.from_cash_ils
        then fstring ("₪" ∷ format ",.0f" fund.from_cash_ils ∷ " from cash" ∷ []) ∷ []
        else [])
      ++ map (sale_text desk) fund.sells

  abbrev tax_text : FundingPlan F → String
  tax_text fund =
      if truthy fund.tax_ils
      then fstring (" Estimated tax on the sale: ₪" ∷ format ",.0f" fund.tax_ils ∷ "." ∷ [])
      else ""

  abbrev swap_text : Desk F → FundingPlan F → String → String
  swap_text desk fund cls =
      if swaps_class (map (λ (s : Sale F). s.asset_class) fund.sells) cls
      then fstring (
          " This does not change your "
          ∷ cls
          ∷ " weight — the proceeds buy "
          ∷ cls
          ∷ " again. It swaps which "
          ∷ desk.lower cls
          ∷ " you hold."
          ∷ [])
      else ""

  abbrev shortfall_text : FundingPlan F → String
  shortfall_text fund =
      if truthy fund.shortfall_ils
      then fstring (" That still leaves ₪" ∷ format ",.0f" fund.shortfall_ils ∷ " short." ∷ [])
      else ""

  -- of a class, empty where the purchase has no one class
  unfoldable pub describe_funding : Desk F → FundingPlan F → String → String
  describe_funding desk fund cls =
      if is_empty (fund_bits desk fund)
      then "You don't have spendable cash above your floor, and nothing is overweight enough to trim."
      else fstring (
          "Fund it with "
          ∷ join " and " (fund_bits desk fund)
          ∷ "."
          ∷ tax_text fund
          ∷ swap_text desk fund cls
          ∷ shortfall_text fund
          ∷ [])
