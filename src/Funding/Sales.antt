-- ===== src/Funding/Sales.antt =====
-- `plan_funding` of app/services/funding_service.py.
pub mod Spares
use investwise_pro.Prelude.{
  ℕ, suc, ◌==◌, Bool, ◌&&◌, ◌||◌, Option, none, some, String, List, [], ◌∷◌, map, is_some, Dict,
  insert, lookup, get_or, if◌then◌else◌,
}
use investwise_pro.Float.{Float, max, min}
use investwise_pro.Funding.{cash_floor_ils, cash_floor_pct, spendable_cash}
use investwise_pro.Funding.Positions.{
  Desk, PositionRow, Held, TrimCandidate, rate_of, position_rows, by_class, targets_for, min_trade,
  over_name, rank_trim_candidates,
}

-- a holding that is trimmed
pub record Sale (F : Type 0) : Type 0 where
  pub ticker : String
  pub market : String
  pub shares : ℕ
  pub value_ils : F
  pub tax_ils : F
  pub asset_class : String
  pub reason : String
  pub gain_pct : F

pub record FundingPlan (F : Type 0) : Type 0 where
  pub amount_ils : F
  pub from_cash_ils : F
  pub sells : List (Sale F)
  pub tax_ils : F
  pub funded_ils : F
  pub shortfall_ils : F
  pub cash_floor_ils : F
  pub cash_floor_pct : F

-- What a plan is made of: the rows and the value of the book, its objective, the floor of its plan and
-- the cap on a name, the cash, and what earlier cards have reserved and used of it.
pub record Request (F : Type 0) : Type 0 where
  pub rows : List (PositionRow F)
  pub nav : F
  pub floor_override : Option F
  pub objective : Option String
  pub cap : F
  pub cash_ils : F
  pub exclude : List String
  pub reserved : Dict F
  pub cash_used : F

-- the variables of the loop over the candidates
pub record Raising (F : Type 0) : Type 0 where
  pub remaining_net : F
  pub tax_total : F
  pub class_budget : Dict F

module _ {F : Type 0} ⦃num : Float F⦄ where
  open num use {dec, add, sub, mul, div, le, lt, round, trunc}

  -- `{c: max(0.0, w - target.get(c, 0.0)) * nav for c, w in class_mix.items()}`
  abbrev pub budgets : F → Dict F → Dict F → Dict F
  budgets nav target [] = []
  budgets nav target ((c, w) ∷ mix) =
      (c, mul (max (dec 0 1) (sub w (get_or c (dec 0 1) target))) nav) ∷ budgets nav target mix

  abbrev pub sum_from : F → List F → F
  sum_from total [] = total
  sum_from total (x ∷ xs) = sum_from (add total x) xs

  abbrev values : Dict F → List F
  values [] = []
  values ((c, v) ∷ d) = v ∷ values d

  -- `book_has_budget`
  abbrev pub has_budget : F → F → Dict F → List (Held F) → Bool
  has_budget nav cap budget positions = le min_trade (
      add (sum_from (dec 0 0) (values budget))
        (sum_from (dec 0 0) (map (λ p. mul (over_name cap p) nav) positions)))

  -- how much of a candidate may be sold, none where it is passed over
  unfoldable pub allowance : F → F → Bool → Dict F → Held F → Option F
  allowance nav cap book_has_budget budget p =
      let allow = max (mul (over_name cap p) nav) (get_or p.asset_class (dec 0 1) budget) in
      if le min_trade allow then some allow else if book_has_budget then none else some p.value_ils

  abbrev gain_per_share : Held F → F
  gain_per_share p = max (dec 0 1) (sub p.price p.cost_basis)

  abbrev tax_fraction : Desk F → Held F → F → F
  tax_fraction desk p rate =
      min (dec 95 2) (div (mul (mul (gain_per_share p) rate) desk.cgt_rate) p.price_ils)

  -- the whole shares to sell, with one more where the raise would fall short by less than a share
  abbrev lots : F → F → F → F → F → ℕ
  lots remaining price_ils tax_frac take sellable =
      let shares = trunc (div take price_ils) in
      let net = mul price_ils (sub (dec 10 1) tax_frac) in
      if lt (mul (dec shares 0) net) remaining && le (mul (dec (suc shares) 0) price_ils) sellable
      then suc shares
      else shares

  -- the sale of some shares of a candidate, and the loop's variables after it
  abbrev sale_of : Desk F → F → TrimCandidate F → ℕ → Raising F → Sale F × Raising F
  sale_of desk rate c shares s =
      let p = c.held in
      let value = mul (dec shares 0) p.price_ils in
      let tax = mul (mul (mul (gain_per_share p) (dec shares 0)) rate) desk.cgt_rate in
      let left = max (dec 0 1) (sub (get_or p.asset_class (dec 0 1) s.class_budget) value) in
      (
        record {
          ticker = p.ticker;
          market = p.market;
          shares = shares;
          value_ils = round value 2;
          tax_ils = round tax 2;
          asset_class = p.asset_class;
          reason = c.reason;
          gain_pct = c.gain_pct;
        },
        record {
          remaining_net = round (sub s.remaining_net (sub value tax)) 2;
          tax_total = add s.tax_total tax;
          class_budget =
              if is_some (lookup p.asset_class s.class_budget)
              then insert p.asset_class left s.class_budget
              else s.class_budget;
        },
      )

  abbrev tax_frac_of : Desk F → Held F → F
  tax_frac_of desk p = tax_fraction desk p (rate_of desk p.market p.meta_currency)

  -- the shares that no earlier card has claimed
  abbrev avail_shares : Dict F → Held F → F
  avail_shares reserved p = sub p.quantity (get_or p.ticker (dec 0 1) reserved)

  abbrev sellable_value : Dict F → Held F → F
  sellable_value reserved p = mul (avail_shares reserved p) p.price_ils

  abbrev take_of : Desk F → Dict F → Held F → F → Raising F → F
  take_of desk reserved p allow s =
      min (min (div s.remaining_net (sub (dec 10 1) (tax_frac_of desk p))) allow)
        (sellable_value reserved p)

  -- no shares are left, or too little is to be sold of them
  abbrev pub is_passed : Desk F → Dict F → Held F → F → Raising F → Bool
  is_passed desk reserved p allow s =
      le (avail_shares reserved p) (dec 0 0)
      || lt (take_of desk reserved p allow s) min_trade
      || trunc (div (take_of desk reserved p allow s) p.price_ils) == 0

  -- a candidate that may be sold up to an amount
  unfoldable pub sell_up_to :
      Desk F → Dict F → TrimCandidate F → F → Raising F → Option (Sale F × Raising F)
  sell_up_to desk reserved c allow s =
      let p = c.held in
      let shares =
        lots s.remaining_net p.price_ils (tax_frac_of desk p) (take_of desk reserved p allow s)
          (sellable_value reserved p) in
      if is_passed desk reserved p allow s
      then none
      else some (sale_of desk (rate_of desk p.market p.meta_currency) c shares s)

  abbrev pub sell_if :
      Desk F → Dict F → TrimCandidate F → Option F → Raising F → Option (Sale F × Raising F)
  sell_if desk reserved c none s = none
  sell_if desk reserved c (some allow) s = sell_up_to desk reserved c allow s

  -- one round of the loop: the sale of a candidate, if it is not passed over
  unfoldable pub sell_one :
      Desk F → Request F → Bool → TrimCandidate F → Raising F → Option (Sale F × Raising F)
  unfolding allowance sell_up_to
  sell_one desk q book_has_budget c s =
      if le c.held.price_ils (dec 0 0)
      then none
      else sell_if desk q.reserved c (allowance q.nav q.cap book_has_budget s.class_budget c.held) s

  abbrev pub after_sale : Raising F → Option (Sale F × Raising F) → Raising F
  after_sale s none = s
  after_sale s (some (sale, s')) = s'

  abbrev pub and_sale : Option (Sale F × Raising F) → List (Sale F) → List (Sale F)
  and_sale none sells = sells
  and_sale (some (sale, s')) sells = sale ∷ sells

  -- the loop over the candidates, until no more is needed
  unfoldable pub sell_all :
      Desk F → Request F → Bool → List (TrimCandidate F) → Raising F → List (Sale F) × Raising F
  unfolding sell_one
  sell_all desk q book_has_budget [] s = ([], s)
  sell_all desk q book_has_budget (c ∷ candidates) s =
      let sold = sell_one desk q book_has_budget c s in
      let (sells, s') = sell_all desk q book_has_budget candidates (after_sale s sold) in
      if lt s.remaining_net min_trade then ([], s) else (and_sale sold sells, s')

  -- the sales that raise what cash does not cover
  unfoldable pub raise : Desk F → Request F → F → List (Sale F) × Raising F
  unfolding sell_all
  raise desk q remaining_net =
      let positions = position_rows desk q.nav q.rows in
      let budget =
        budgets q.nav (targets_for q.objective) (by_class (λ p. p.weight) positions []) in
      let start : Raising F = record {
        remaining_net = remaining_net;
        tax_total = dec 0 1;
        class_budget = budget;
      } in
      if le min_trade remaining_net
      then sell_all desk q (has_budget q.nav q.cap budget positions)
          (rank_trim_candidates desk q.nav q.objective q.cap q.exclude q.rows) start
      else ([], start)

  unfoldable pub plan_funding : Desk F → Request F → F → FundingPlan F
  unfolding raise
  plan_funding desk q asked =
      let amount = max (dec 0 1) asked in
      let avail =
        max (dec 0 1)
          (sub (spendable_cash q.cash_ils q.nav q.objective q.floor_override) q.cash_used) in
      let from_cash = min avail amount in
      let (sells, s) = raise desk q (round (sub amount from_cash) 2) in
      let funded =
        round
          (sub (add from_cash (sum_from (dec 0 0) (map (λ (x : Sale F). x.value_ils) sells)))
            s.tax_total)
          2 in
      record {
        amount_ils = round amount 2;
        from_cash_ils = round from_cash 2;
        sells = sells;
        tax_ils = round s.tax_total 2;
        funded_ils = max (dec 0 1) funded;
        shortfall_ils = round (max (dec 0 1) (sub amount (max (dec 0 1) funded))) 2;
        cash_floor_ils = round (cash_floor_ils q.nav q.objective q.floor_override) 2;
        cash_floor_pct = cash_floor_pct q.objective q.floor_override;
      }
