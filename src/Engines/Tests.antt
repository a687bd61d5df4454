-- ===== src/Engines/Tests.antt =====
-- The engines of a portfolio on concrete holdings.
use investwise_pro.Prelude.{
  ℕ, ◌+◌, ◌*◌, ◌≡◌, refl, true, false, ◌||◌, none, some, String, List, [], ◌∷◌, any, length, ltb,
  Dict, get_or, lookup, if◌then◌else◌,
}
use investwise_pro.Prelude.Int.{pos, ◌-ℤ◌}
use investwise_pro.Float.Fixed.{Fixed, fixed_float, Fixed-IsOrdered, div_fixed, mul_fixed}
use investwise_pro.Float.Sort.{is_down}
use investwise_pro.Money.Fixed.{fixed_decimals}
use investwise_pro.Settings.{Settings, default_settings}
use investwise_pro.Lifecycle.Signals.{Market, ActionType, DetectedSignal, ok}
use investwise_pro.Engines.Safety.{Proposal, is_blocked, is_reckless, check, blocked-check}
use investwise_pro.Engines.Lag.{
  LagObservation, priority_of, is_noise, scan_lem, detect, detect_all, detected_signal,
  divergence_pct,
}
use investwise_pro.Engines.Lag as Lag
use investwise_pro.Engines.Fees as Fees
use investwise_pro.Engines.Fees.{Holding, saving_of, is_idle, scan_findings}
use investwise_pro.Engines.Learning.{
  Profile, Row, compute_profile, impact_boost, boost_for, aggregate, rates, tally_of,
  compute_profile_lem,
}

abbrev units : ℕ → Fixed
units n = pos (n * 1_000_000)

abbrev settings : Settings Fixed
settings = default_settings

abbrev held : Dict Fixed
held = ("TEVA", pos 300_000) ∷ ("NICE", pos 100_000) ∷ []

abbrev proposals : List (Proposal Fixed)
proposals =
    record {
      ticker = "NICE";
      action = "Buy";
      weight_delta = pos 200_000;
      risk_score = some (units 60);
    }
    ∷ []

blocked-check_example : is_blocked (check settings held (units 1) proposals).verdict ≡ (
    any (is_reckless settings held) proposals
    || fixed_float.lt (units 1) settings.min_liquidity_ratio)
blocked-check_example = blocked-check settings held (units 1) proposals

abbrev observed : ℕ → ℕ → LagObservation Fixed
observed depth listing = record {
  ticker = "TEVA";
  market = Market.tase;
  action_type = ActionType.buy;
  spot_price = units 100;
  listing_price = units listing;
  depth = depth;
  expected_return_pct = none;
  volatility_pct = none;
}

abbrev observations : List (LagObservation Fixed)
observations = observed 1 105 ∷ observed 2 101 ∷ observed 3 104 ∷ []

abbrev no_show : ℕ → String
no_show n = "n"

scanned : (ss : List (DetectedSignal Fixed)) × (Lag.scan no_show settings observations ≡ ok ss)
unfolding Lag.scan detect_all detect detected_signal divergence_pct div_fixed mul_fixed ◌-ℤ◌
scanned = (_, refl)

scan_lem_example :
    (is_down priority_of scanned.0 ≡ true) × (any (is_noise no_show settings) scanned.0 ≡ false)
scan_lem_example = scan_lem no_show settings Fixed-IsOrdered observations scanned.0 scanned.1

abbrev funds : List (Holding Fixed)
funds =
    record {
      ticker = "AAA";
      asset_class = "Equities";
      value_ils = units 1_000;
      expense_ratio_pct = some (units 1);
    }
    ∷ record {
      ticker = "BBB";
      asset_class = "Commodities";
      value_ils = units 9_000;
      expense_ratio_pct = some (units 2);
    }
    ∷ []

scan_findings_example :
    (is_down saving_of (Fees.scan settings funds).findings ≡ true)
    × (any (is_idle settings.fee_high_threshold_pct) (Fees.scan settings funds).findings ≡ false)
scan_findings_example = scan_findings Fixed-IsOrdered settings funds

abbrev three_classes : Dict Fixed → Dict Fixed → List String
three_classes target current = "Commodities" ∷ "Equities" ∷ "Fixed Income" ∷ []

abbrev target : Dict Fixed
target = ("Equities", pos 600_000) ∷ ("Fixed Income", pos 400_000) ∷ []

abbrev current : Dict Fixed
current = ("Equities", pos 700_000) ∷ ("Fixed Income", pos 300_000) ∷ []

abbrev history : List Row
history = ("accepted", "Buy") ∷ ("ignored", "Sell") ∷ ("accepted", "Buy") ∷ []

abbrev profile : Profile Fixed
profile = compute_profile history

compute_profile_lem_example :
    (profile.accepted + profile.ignored ≡ profile.total_actions)
    × (get_or "Buy" (record { accepted = 0; seen = 0 }) (aggregate history [])
        ≡ tally_of "Buy" history)
    × (impact_boost profile "Buy" ≡ (
        if ltb (length history) 3
        then fixed_float.dec 10 1
        else boost_for (lookup "Buy" (rates (aggregate history [])))))
compute_profile_lem_example = compute_profile_lem history "Buy"
