-- ===== src/Engines/Rebalance.antt =====
-- app/engines/allocation_engine.py and app/schemas/allocation.py. `sorted(set(…) | set(…))`, Python's
-- order of strings, is the argument `classes_of` of the two dicts.
use investwise_pro.Prelude.{
  ◌≡◌, refl, Bool, true, not, String, List, [], ◌∷◌, arith, any, is_empty, Dict, get_or,
  if◌then◌else◌,
}
use investwise_pro.Float.{Float, IsOrdered}
use investwise_pro.Float.Sort.{sort_down, is_down, sort_down-is_down, any-sort_down}
use investwise_pro.Money.{Decimals, money}
use investwise_pro.Settings.{Settings}

pub data Side : Type 0 where
  buy_side sell_side : Side

pub record RebalanceAction (F : Type 0) : Type 0 where
  pub asset_class : String
  pub action_type : Side
  pub target_weight : F
  pub estimated_trade_value_currency : F
  pub tax_drag_currency : F
  pub transaction_cost_currency : F
  pub slippage_cost_currency : F
  pub net_trade_value_currency : F

pub record AllocationReport (F : Type 0) : Type 0 where
  pub nav : F
  pub target_allocation : Dict F
  pub current_allocation : Dict F
  pub drift_percentage : Dict F
  pub rebalance_required : Bool
  pub rebalance_actions : List (RebalanceAction F)

module _ {F : Type 0} ⦃float : Float F⦄ where
  unfoldable pub drifts : Dict F → Dict F → List String → Dict F
  drifts target current [] = []
  drifts target current (c ∷ classes) =
      (
        c,
        float.round (float.sub (get_or c (float.dec 0 1) current) (get_or c (float.dec 0 1) target))
            6,
      )
      ∷ drifts target current classes

module _ {F : Type 0} (D : Type 0) ⦃float : Float F⦄ ⦃num : Float D⦄ ⦃conv : Decimals F D⦄
    (s : Settings F) where
  open num use {dec, add, sub, mul, div, abs}
  open conv use {decimal}

  -- the action for a class with its drift
  unfoldable pub action_for : Dict F → F → String → F → RebalanceAction F
  action_for target nav c d =
      let gross = mul (abs (decimal d)) (decimal nav) in
      let is_sell = float.lt (float.dec 0 0) d in
      let tax_drag =
        if is_sell
        then mul (mul (decimal s.cgt_rate) (decimal s.rebalance_assumed_gain_ratio)) gross
        else dec 0 0 in
      let txn_cost = mul (div (decimal s.rebalance_txn_cost_bps) (dec 10_000 0)) gross in
      let slippage = mul (div (decimal s.rebalance_slippage_bps) (dec 10_000 0)) gross in
      record {
        asset_class = c;
        action_type = if is_sell then sell_side else buy_side;
        target_weight = get_or c (float.dec 0 1) target;
        estimated_trade_value_currency = money gross;
        tax_drag_currency = money tax_drag;
        transaction_cost_currency = money txn_cost;
        slippage_cost_currency = money slippage;
        net_trade_value_currency = money (sub (sub (sub gross tax_drag) txn_cost) slippage);
      }

  abbrev pub within : F → Bool
  within d = float.le (float.abs d) s.allocation_drift_threshold

  unfoldable pub actions : Dict F → F → Dict F → List (RebalanceAction F)
  actions target nav [] = []
  actions target nav ((c, d) ∷ drift) =
      let rest = actions target nav drift in
      if within d then rest else action_for target nav c d ∷ rest

  abbrev pub trade_value : RebalanceAction F → F
  trade_value a = a.estimated_trade_value_currency

  unfoldable pub compute :
      (Dict F → Dict F → List String) → Dict F → Dict F → F → AllocationReport F
  unfolding actions
  compute classes_of target current nav =
      let drift = drifts target current (classes_of target current) in
      let found = actions target nav drift in
      record {
        nav = nav;
        target_allocation = target;
        current_allocation = current;
        drift_percentage = drift;
        rebalance_required = not (is_empty (sort_down trade_value found));
        rebalance_actions = sort_down trade_value found;
      }

  -- the classes that `overweight_classes` puts into a set, in the order of the dict
  unfoldable pub overweight_classes : Dict F → List String
  overweight_classes [] = []
  overweight_classes ((c, d) ∷ drift) =
      let rest = overweight_classes drift in
      if float.lt s.allocation_drift_threshold d then c ∷ rest else rest

  abbrev always : RebalanceAction F → Bool
  always a = true

  any-always : (found : List (RebalanceAction F)) → any always found ≡ not (is_empty found)
  any-always [] = refl
  any-always (a ∷ found) = refl

  abbrev pub is_drifted : String × F → Bool
  is_drifted (c, d) = not (within d)

  actions_drifted :
      (target : Dict F) (nav : F) (drift : Dict F)
      → any always (actions target nav drift) ≡ any is_drifted drift
  unfolding actions
  actions_drifted target nav [] = refl
  actions_drifted target nav ((c, d) ∷ drift) = ground (arith, actions_drifted target nav drift)

  -- A rebalancing is required exactly where the drift of some asset class is beyond the threshold in
  -- one direction or the other, and its actions come from the largest trade down.
  pub compute_lem :
      IsOrdered F
      → (classes_of : Dict F → Dict F → List String) (target current : Dict F) (nav : F)
      → let r = compute classes_of target current nav in
        (r.rebalance_required ≡ any is_drifted r.drift_percentage)
        × (is_down trade_value r.rebalance_actions ≡ true)
  unfolding compute
  compute_lem laws classes_of target current nav =
      let drift = drifts target current (classes_of target current) in
      let found = actions target nav drift in
      (
        ground (
          arith,
          any-always (sort_down trade_value found),
          any-sort_down trade_value always found,
          actions_drifted target nav drift,
        ),
        sort_down-is_down trade_value laws found,
      )
