-- ===== src/Funding/Tests.antt =====
-- The cash floor and a purchase of a concrete plan.
use investwise_pro.Prelude.{
  is_empty, ℕ, ◌*◌, ◌≡◌, refl, true, false, not, ◌&&◌, ◌||◌, none, some, [], ◌∷◌, str_eq,
}
use investwise_pro.Prelude.Int.{pos, ◌+ℤ◌, ◌-ℤ◌}
use investwise_pro.Float.{◌≼◌}
use investwise_pro.Float.Fixed.{
  Fixed, fixed_float, mul_fixed, div_fixed, round_fixed, Fixed-IsOrdered,
}
use investwise_pro.Float.Sort.{sort_down}
use investwise_pro.Funding.{
  FundingLedger, cash_floor_pct, cash_floor_pct_bounds, floor_for, cash_floor_ils, spendable_cash,
  class_gap_ils, name_room_ils, obj_target, classify,
}
use investwise_pro.Funding.Positions.{
  Desk, PositionRow, price_currency, fx_rate, position_rows, by_class, targets_for, min_trade,
  trim_list, rank_trim_candidates,
}
use investwise_pro.Funding.Sales.{
  Request, allowance, sell_up_to, sell_one, sell_all, raise, plan_funding,
}
use investwise_pro.Funding.Purchase.{
  FundedBuy, Proposal, is_swap, wanted, funded, kind_of, judged, proposed, propose_funded_buy,
  worsens, mixes_of,
}
use investwise_pro.Funding.Purchase.Laws.{propose_funded_buy_lem}
use investwise_pro.Funding.Sales.Spares.{sells_any}

abbrev own_floor : Fixed
own_floor = pos 900_000

cash_floor_pct_bounds_example :
    (pos 0 ≼ cash_floor_pct (some "Grow") (some own_floor))
    × (cash_floor_pct (some "Grow") (some own_floor) ≼ pos 500_000)
cash_floor_pct_bounds_example = cash_floor_pct_bounds Fixed-IsOrdered (some "Grow") (some own_floor)

abbrev units : ℕ → Fixed
units n = pos (n * 1_000_000)

abbrev desk : Desk Fixed
desk = record {
  upper = λ s. s;
  mentions = str_eq;
  base = "ILS";
  quote = λ ccy base. none;
  cgt_rate = pos 250_000;
  lower = λ s. s;
  text = λ n. "";
  set_order = λ names. names;
}

abbrev spy : PositionRow Fixed
spy = record {
  ticker = "SPY";
  market = "NYSE";
  current_price = units 100;
  quantity = units 950;
  cost_basis = units 80;
  price_currency = some "ILS";
  asset_class = none;
}

-- a book that is all equities but for cash below what it should keep
abbrev request : Request Fixed
request = record {
  rows = spy ∷ [];
  nav = units 100_000;
  floor_override = none;
  objective = some "Grow";
  cap = pos 200_000;
  cash_ils = units 5_000;
  exclude = "QQQ" ∷ [];
  reserved = [];
  cash_used = pos 0;
}

abbrev gold : Proposal Fixed
gold = record {
  ticker = "GLD";
  buying_class = "Commodities";
  requested_ils = none;
  allow_within_class_swap = false;
}

abbrev fresh_ledger : FundingLedger Fixed
fresh_ledger = record { shares = []; cash_ils = pos 0 }

gold_card :
    (card : FundedBuy Fixed) × ((propose_funded_buy desk gold request fresh_ledger).0 ≡ some card)
unfolding propose_funded_buy proposed wanted funded kind_of judged plan_funding raise sell_all
    sell_one sell_up_to allowance rank_trim_candidates trim_list position_rows fx_rate
    price_currency floor_for cash_floor_pct cash_floor_ils spendable_cash class_gap_ils
    name_room_ils obj_target classify sort_down mul_fixed div_fixed round_fixed ◌+ℤ◌ ◌-ℤ◌
gold_card = (_, refl)

propose_funded_buy_lem_example :
    (sells_any ("GLD" ∷ "QQQ" ∷ []) gold_card.0.fund.sells ≡ false)
    × ((is_swap gold_card.0.kind && true) ≡ false)
    × ((amount : Fixed) × (gold_card.0.amount_ils ≡ fixed_float.round amount 2)
        × (fixed_float.lt amount min_trade ≡ false)
        × ((is_swap gold_card.0.kind
              || not (
                  worsens desk (targets_for request.objective) (
                    mixes_of gold.buying_class amount gold_card.0.fund (
                      by_class
                        (λ h. h.value_ils)
                        (position_rows desk request.nav request.rows)
                        []))))
            ≡ true))
propose_funded_buy_lem_example =
    propose_funded_buy_lem desk gold request fresh_ledger gold_card.0 gold_card.1

-- A purchase from cash alone that is small against the book is called a swap within its class.
small_purchase_swaps :
    (card : FundedBuy Fixed) × ((propose_funded_buy desk
        (record gold { requested_ils = some (units 300); allow_within_class_swap = true })
        request
        fresh_ledger).0
      ≡ some card)
    × (is_swap card.kind ≡ true)
    × (is_empty card.fund.sells ≡ true)
unfolding propose_funded_buy proposed wanted funded kind_of judged plan_funding raise sell_all
    sell_one sell_up_to allowance rank_trim_candidates trim_list position_rows fx_rate
    price_currency floor_for cash_floor_pct cash_floor_ils spendable_cash class_gap_ils
    name_room_ils obj_target classify sort_down mul_fixed div_fixed round_fixed ◌+ℤ◌ ◌-ℤ◌
small_purchase_swaps = (_, refl, refl, refl)
