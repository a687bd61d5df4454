-- ===== src/Engines/Fees.antt =====
-- app/engines/fee_engine.py and app/schemas/fees.py. The checks that pydantic makes of a report's
-- numbers are left out: a report is returned as it is built.
use investwise_pro.Prelude.{
  ℕ, ◌+◌, ◌≡◌, refl, Bool, true, false, ◌||◌, Option, none, some, String, List, [], ◌∷◌, arith, any,
  str_eq, if◌then◌else◌,
}
use investwise_pro.Float.{Float, truthy, IsOrdered}
use investwise_pro.Float.Sort.{sort_down, is_down, sort_down-is_down, any-sort_down}
use investwise_pro.Settings.{Settings}

pub record FeeAlternative (F : Type 0) : Type 0 where
  pub ticker : String
  pub name : String
  pub expense_ratio_pct : F

pub record FeeFinding (F : Type 0) : Type 0 where
  pub ticker : String
  pub asset_class : String
  pub value_ils : F
  pub current_expense_ratio_pct : F
  pub current_annual_fee_ils : F
  pub alternative : FeeAlternative F
  pub alternative_annual_fee_ils : F
  pub annual_saving_ils : F
  pub saving_pct_of_fee : F

pub record FeeReport (F : Type 0) : Type 0 where
  pub threshold_pct : F
  pub scanned : ℕ
  pub findings : List (FeeFinding F)
  pub total_annual_saving_ils : F

-- A holding's dict; the value is the one that `float(h.get("value_ils") or 0.0)` gives.
pub record Holding (F : Type 0) : Type 0 where
  pub ticker : String
  pub asset_class : String
  pub value_ils : F
  pub expense_ratio_pct : Option F

module _ {F : Type 0} ⦃num : Float F⦄ where
  open num use {dec, add, sub, mul, div, le, lt, round}

  -- `LOW_FEE_ALTERNATIVES`
  unfoldable pub low_fee_alternatives : String → Option (FeeAlternative F)
  low_fee_alternatives cls =
      if str_eq cls "Equities"
      then some (record {
        ticker = "VWRA";
        name = "Vanguard FTSE All-World UCITS";
        expense_ratio_pct = dec 22 2;
      })
      else if str_eq cls "Fixed Income"
      then some (record {
        ticker = "AGGG";
        name = "iShares Core Global Aggregate Bond";
        expense_ratio_pct = dec 10 2;
      })
      else if str_eq cls "Commodities"
      then some
          (record { ticker = "SGLN"; name = "iShares Physical Gold"; expense_ratio_pct = dec 12 2 })
      else if str_eq cls "Real Estate"
      then some (record {
        ticker = "IWDP";
        name = "iShares Developed Mkts Property Yield";
        expense_ratio_pct = dec 24 2;
      })
      else if str_eq cls "Alternatives"
      then some (record {
        ticker = "MNA";
        name = "IQ Merger Arbitrage (liquid alt)";
        expense_ratio_pct = dec 77 2;
      })
      else none

  -- `value * er / 100.0`
  abbrev pub annual_fee : F → F → F
  annual_fee value er = div (mul value er) (dec 1000 1)

  -- the finding on a holding whose ratio is above the threshold, with its alternative
  unfoldable pub compare_with : Holding F → F → Option (FeeAlternative F) → Option (FeeFinding F)
  compare_with h er none = none
  compare_with h er (some alt) =
      let current = annual_fee h.value_ils er in
      let alt_fee = annual_fee h.value_ils alt.expense_ratio_pct in
      let saving = sub current alt_fee in
      if le er alt.expense_ratio_pct || le saving (dec 0 0)
      then none
      else some (record {
        ticker = h.ticker;
        asset_class = h.asset_class;
        value_ils = round h.value_ils 2;
        current_expense_ratio_pct = er;
        current_annual_fee_ils = round current 2;
        alternative = alt;
        alternative_annual_fee_ils = round alt_fee 2;
        annual_saving_ils = round saving 2;
        saving_pct_of_fee =
            if truthy current then round (mul (div saving current) (dec 1000 1)) 1 else dec 0 1;
      })

  -- one round of the loop: whether the holding is scanned, and its finding
  unfoldable pub look_at : F → Holding F → Option F → Bool × Option (FeeFinding F)
  unfolding compare_with
  look_at thr h none = (false, none)
  look_at thr h (some er) =
      if le h.value_ils (dec 0 0)
      then (false, none)
      else if lt er thr
      then (true, none)
      else (true, compare_with h er (low_fee_alternatives h.asset_class))

  abbrev pub with_finding : Option (FeeFinding F) → List (FeeFinding F) → List (FeeFinding F)
  with_finding none rest = rest
  with_finding (some f) rest = f ∷ rest

  unfoldable pub scan_all : F → List (Holding F) → ℕ × List (FeeFinding F)
  unfolding look_at
  scan_all thr [] = (0, [])
  scan_all thr (h ∷ holdings) =
      let (scanned, findings) = scan_all thr holdings in
      let (looked, found) = look_at thr h h.expense_ratio_pct in
      ((if looked then 1 else 0) + scanned, with_finding found findings)

  unfoldable pub saving_sum : F → List (FeeFinding F) → F
  saving_sum acc [] = acc
  saving_sum acc (f ∷ fs) = saving_sum (add acc f.annual_saving_ils) fs

  abbrev pub saving_of : FeeFinding F → F
  saving_of f = f.annual_saving_ils

  unfoldable pub scan : Settings F → List (Holding F) → FeeReport F
  unfolding saving_sum
  scan s holdings =
      let (scanned, findings) = scan_all s.fee_high_threshold_pct holdings in
      let sorted = sort_down saving_of findings in
      record {
        threshold_pct = s.fee_high_threshold_pct;
        scanned = scanned;
        findings = sorted;
        total_annual_saving_ils = round (saving_sum (dec 0 0) sorted) 2;
      }

  -- a ratio below the threshold, or an alternative that costs as much
  abbrev pub is_idle : F → FeeFinding F → Bool
  is_idle thr f =
      lt f.current_expense_ratio_pct thr
      || le f.current_expense_ratio_pct f.alternative.expense_ratio_pct

  look_at_useful :
      (thr : F) (h : Holding F) (er : Option F) (f : FeeFinding F)
      → (look_at thr h er).1 ≡ some f
      → is_idle thr f ≡ false
  unfolding look_at compare_with
  look_at_useful thr h none f e = cc
  look_at_useful thr h (some er) f e = ground arith

  scan_all_useful :
      (thr : F) (holdings : List (Holding F)) → any (is_idle thr) (scan_all thr holdings).1 ≡ false
  unfolding scan_all
  scan_all_useful thr [] = refl
  scan_all_useful thr (h ∷ holdings) =
      ground (arith, scan_all_useful thr holdings, look_at_useful thr h h.expense_ratio_pct)

  -- The findings of a report come from the largest saving down, and each is on a holding whose
  -- expense ratio is not below the threshold and is above the one of its alternative.
  pub scan_findings :
      IsOrdered F
      → (s : Settings F) (holdings : List (Holding F))
      → (is_down saving_of (scan s holdings).findings ≡ true)
        × (any (is_idle s.fee_high_threshold_pct) (scan s holdings).findings ≡ false)
  unfolding scan
  scan_findings laws s holdings =
      let thr = s.fee_high_threshold_pct in
      let found = (scan_all thr holdings).1 in
      (
        sort_down-is_down saving_of laws found,
        ground (arith, any-sort_down saving_of (is_idle thr) found, scan_all_useful thr holdings),
      )
