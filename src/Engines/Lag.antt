-- ===== src/Engines/Lag.antt =====
-- app/engines/lag_engine.py and app/schemas/lag.py.
use investwise_pro.Prelude.{
  ℕ, ◌≡◌, Bool, true, false, ◌&&◌, Option, none, some, String, List, [], ◌∷◌, arith, fstring, ◌==◌,
  if◌then◌else◌, any, Option-cases, inl, inr, leb, ◌∙◌, ap,
}
use investwise_pro.Float.{Float, IsOrdered, truthy}
use investwise_pro.Float.Sort.{sort_down, is_down, sort_down-is_down, any-sort_down}
use investwise_pro.Settings.{Settings}
use investwise_pro.Lifecycle.Signals.{
  Market, ActionType, DetectedSignal, market_value, Result, ok, ◌>>=◌, >>=-eq-ok, checked, finite,
  non_neg, optional,
}

pub record LagObservation (F : Type 0) : Type 0 where
  pub ticker : String
  pub market : Market
  pub action_type : ActionType
  pub spot_price : F
  pub listing_price : F
  pub depth : ℕ
  pub expected_return_pct : Option F
  pub volatility_pct : Option F

-- `DEPTH_LABEL`, and "" for any other depth
abbrev pub depth_label : ℕ → String
depth_label d =
    if d == 1 then "hype" else if d == 2 then "mid" else if d == 3 then "backbone" else ""

module _ {F : Type 0} ⦃num : Float F⦄ where
  open num use {dec, add, sub, mul, div, abs, lt, format}

  unfoldable pub divergence_pct : F → F → F
  divergence_pct spot listing = mul (div (sub listing spot) spot) (dec 100 0)

  unfoldable pub depth_weight : ℕ → F
  depth_weight d =
      if d == 1 then dec 1 0 else if d == 2 then dec 15 1 else if d == 3 then dec 2 0 else dec 1 0

  unfoldable pub priority : F → ℕ → F
  priority divergence depth = mul (abs divergence) (depth_weight depth)

  abbrev pub priority_of : DetectedSignal F → F
  priority_of s = priority s.divergence_pct s.depth

  abbrev divergence_of : LagObservation F → F
  divergence_of obs = divergence_pct obs.spot_price obs.listing_price

  -- What pydantic asks of a detected signal with these fields.
  unfoldable pub detected_signal : DetectedSignal F → Result (DetectedSignal F)
  detected_signal d =
      checked
        (finite d.divergence_pct
          && optional finite d.expected_return_pct
          && optional non_neg d.volatility_pct
          && (leb 1 d.depth && leb d.depth 3))
        d

  abbrev trigger_of : (ℕ → String) → LagObservation F → F → String
  trigger_of show obs div = fstring (
      "Depth "
      ∷ show obs.depth
      ∷ " "
      ∷ depth_label obs.depth
      ∷ " divergence "
      ∷ format "+.1f" div
      ∷ "% ("
      ∷ market_value obs.market
      ∷ " vs spot)"
      ∷ [])

  unfoldable pub detect :
      (ℕ → String) → Settings F → LagObservation F → Result (Option (DetectedSignal F))
  detect show s obs =
      let div = divergence_of obs in
      if lt (abs div) s.lag_min_divergence_pct then ok none else (do
        d ← detected_signal (record {
          ticker = obs.ticker;
          market = obs.market;
          action_type = obs.action_type;
          trigger = trigger_of show obs div;
          depth = obs.depth;
          divergence_pct = div;
          notes = "Awaiting Data";
          gross_gain_ils = none;
          prior_taxable_income_ils = dec 0 1;
          loss_carry_forward_ils = dec 0 1;
          expected_return_pct = obs.expected_return_pct;
          volatility_pct = obs.volatility_pct;
          liquidity_score = none;
        })
        ok (some d))

  abbrev and_then : Option (DetectedSignal F) → List (DetectedSignal F) → List (DetectedSignal F)
  and_then none rest = rest
  and_then (some d) rest = d ∷ rest

  unfoldable pub detect_all :
      (ℕ → String) → Settings F → List (LagObservation F) → Result (List (DetectedSignal F))
  detect_all show s [] = ok []
  detect_all show s (o ∷ observations) = do
    found ← detect show s o
    rest ← detect_all show s observations
    ok (and_then found rest)

  unfoldable pub scan :
      (ℕ → String) → Settings F → List (LagObservation F) → Result (List (DetectedSignal F))
  scan show s observations = do
    detected ← detect_all show s observations
    ok (sort_down priority_of detected)

  -- the sum over the observations of one depth
  unfoldable pub divergence_sum : ℕ → F → List (LagObservation F) → F
  divergence_sum depth acc [] = acc
  divergence_sum depth acc (o ∷ observations) =
      let next = add acc (abs (divergence_of o)) in
      divergence_sum depth (if o.depth == depth then next else acc) observations

  unfoldable pub backbone_vs_hype : List (LagObservation F) → Option F
  unfolding divergence_sum
  backbone_vs_hype observations =
      let backbone = divergence_sum 3 (dec 0 0) observations in
      let hype = divergence_sum 1 (dec 0 0) observations in
      if truthy hype then some (div backbone hype) else none

  module _ (show : ℕ → String) (s : Settings F) where
    abbrev pub is_noise : DetectedSignal F → Bool
    is_noise d = lt (abs d.divergence_pct) s.lag_min_divergence_pct

    detect_loud :
        (o : LagObservation F) (d : DetectedSignal F)
        → detect show s o ≡ ok (some d)
        → is_noise d ≡ false
    unfolding detect detected_signal
    detect_loud o d h = ground arith

    detect_all_loud :
        (observations : List (LagObservation F)) (found : List (DetectedSignal F))
        → detect_all show s observations ≡ ok found
        → any is_noise found ≡ false
    unfolding detect_all
    detect_all_loud [] found h = ground arith
    detect_all_loud (o ∷ observations) found h =
        let (one, by, rest) = >>=-eq-ok (detect show s o) _ h in
        let (more, again, both) = >>=-eq-ok (detect_all show s observations) _ rest in
        elim (Option-cases one) [
          | inl missing ↦ ground (arith, both, missing, detect_all_loud observations more again)
          | inr (d, there) ↦ ground (
            arith,
            both,
            there,
            detect_loud o d (by ∙ ap ok there),
            detect_all_loud observations more again,
          )
        ]

    -- A scan that raises nothing returns its signals from the highest priority down, and none of them
    -- has a divergence below the noise floor.
    pub scan_lem :
        IsOrdered F
        → (observations : List (LagObservation F)) (signals : List (DetectedSignal F))
        → scan show s observations ≡ ok signals
        → (is_down priority_of signals ≡ true) × (any is_noise signals ≡ false)
    unfolding scan
    scan_lem laws observations signals h =
        let (found, by, rest) = >>=-eq-ok (detect_all show s observations) _ h in
        ground (
          arith,
          rest,
          sort_down-is_down priority_of laws found,
          any-sort_down priority_of is_noise found,
          detect_all_loud observations found by,
        )
