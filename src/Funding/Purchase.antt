-- ===== src/Funding/Purchase.antt =====
-- `propose_funded_buy` of app/services/funding_service.py.
pub mod Laws
use investwise_pro.Prelude.{
  ℕ, Bool, true, false, not, ◌&&◌, ◌||◌, Option, none, some, String, List, [], ◌∷◌, ◌++◌, any, all,
  map, str_eq, fstring, join, is_empty, Dict, insert, lookup, get_or, if◌then◌else◌,
}
use investwise_pro.Float.{Float, max, min, truthy}
use investwise_pro.Funding.{FundingLedger, Funding, class_gap_ils, name_room_ils, commit}
use investwise_pro.Funding.Positions.{Desk, Held, position_rows, by_class, targets_for, min_trade}
use investwise_pro.Funding.Sales.{Sale, FundingPlan, Request, plan_funding, sum_from}
use investwise_pro.Funding.Prose.{describe_funding}

pub data BuyKind : Type 0 where
  toward_target within_class_swap : BuyKind

-- `FundedBuy.is_swap`, of a card's kind
abbrev pub is_swap : BuyKind → Bool
is_swap toward_target = false
is_swap within_class_swap = true

pub record FundedBuy (F : Type 0) : Type 0 where
  pub ticker : String
  pub buying_class : String
  pub amount_ils : F
  pub fund : FundingPlan F
  pub class_before : F
  pub class_after : F
  pub class_target : F
  pub kind : BuyKind
  pub summary : String
  pub impact : String

-- the other arguments of a proposal
pub record Proposal (F : Type 0) : Type 0 where
  pub ticker : String
  pub buying_class : String
  pub requested_ils : Option F
  pub allow_within_class_swap : Bool

-- the mix of a book before and after a purchase: the value of each class, and of all of them
pub record Mixes (F : Type 0) : Type 0 where
  pub before : Dict F
  pub invested : F
  pub after : Dict F
  pub invested_after : F

module _ {V : Type 0} where
  abbrev keys : Dict V → List String
  keys [] = []
  keys ((k, v) ∷ d) = k ∷ keys d

-- `set(…)`
abbrev distinct_names : List String → List String
distinct_names [] = []
distinct_names (s ∷ ss) =
    let rest = distinct_names ss in if any (str_eq s) ss then rest else s ∷ rest

module _ {F : Type 0} ⦃num : Float F⦄ where
  open num use {dec, add, sub, mul, div, abs, le, lt, round, format}

  abbrev pub values : Dict F → List F
  values [] = []
  values ((c, v) ∷ d) = v ∷ values d

  abbrev pub shares_of : F → Dict F → Dict F
  shares_of invested [] = []
  shares_of invested ((c, v) ∷ d) = (c, div v invested) ∷ shares_of invested d

  abbrev pub weight_of : String → List (Held F) → List F
  weight_of tk [] = []
  weight_of tk (p ∷ positions) =
      let rest = weight_of tk positions in if str_eq p.ticker tk then p.weight ∷ rest else rest

  abbrev asked : F → Option F → F
  asked want none = want
  asked want (some r) = min want (max (dec 0 1) r)

  -- how much the plan wants here, or none where that is not worth a trade
  unfoldable pub wanted : Proposal F → Request F → Dict F → F → F → Option F
  wanted p q mix ticker_weight target =
      let gap = class_gap_ils q.nav mix p.buying_class target in
      let room = name_room_ils q.nav ticker_weight (some q.cap) in
      let want = asked (if le min_trade gap then min gap room else room) p.requested_ils in
      if lt gap min_trade && not p.allow_within_class_swap
      then none
      else if lt want min_trade
      then none
      else some want

  -- The plan of a purchase at what is wanted, or at what the book can pay for; none where that is not
  -- worth a trade.
  unfoldable pub funded : Desk F → Request F → F → Option (FundingPlan F × F)
  funded desk q want =
      let fund = plan_funding desk q want in
      let amount = min want fund.funded_ils in
      let fund' = plan_funding desk q amount in
      let amount' = min amount fund'.funded_ils in
      if lt amount min_trade
      then none
      else if lt amount want
      then (if lt amount' min_trade then none else some (fund', amount'))
      else some (fund, amount)

  abbrev without_sales : List (Sale F) → Dict F → Dict F
  without_sales [] after = after
  without_sales (s ∷ sells) after = without_sales sells (
      if str_eq s.asset_class ""
      then after
      else insert s.asset_class (sub (get_or s.asset_class (dec 0 1) after) s.value_ils) after)

  -- the simulated mix
  abbrev pub simulate : String → F → List (Sale F) → Dict F → Dict F
  simulate cls amount sells before =
      without_sales sells (insert cls (add (get_or cls (dec 0 1) before) amount) before)

  abbrev deviation : Dict F → Dict F → F → String → F
  deviation mix targets invested c =
      abs (sub (div (get_or c (dec 0 1) mix) invested) (get_or c (dec 0 1) targets))

  -- how far a mix is from the targets, over some classes
  abbrev pub drift : List String → Dict F → Dict F → F → F
  drift classes targets mix invested =
      sum_from (dec 0 0) (map (deviation mix targets invested) classes)

  abbrev pub classes_of : Desk F → Dict F → Mixes F → List String
  classes_of desk targets x =
      desk.set_order (distinct_names (keys targets ++ (keys x.before ++ keys x.after)))

  -- the share of a class before and after
  abbrev pub class_before : String → Mixes F → F
  class_before cls x = get_or cls (dec 0 1) (shares_of x.invested x.before)

  abbrev pub class_after : String → Mixes F → F
  class_after cls x = div (get_or cls (dec 0 1) x.after) x.invested_after

  abbrev pub worsens : Desk F → Dict F → Mixes F → Bool
  worsens desk targets x =
      let classes = classes_of desk targets x in
      lt (add (drift classes targets x.before x.invested) (dec 1 9))
        (drift classes targets x.after x.invested_after)

  -- what the purchase is to be called, none where there is no card
  unfoldable pub kind_of : Desk F → Proposal F → Dict F → F → Mixes F → Option BuyKind
  kind_of desk p targets class_target x =
      let before = class_before p.buying_class x in
      let moved = sub (class_after p.buying_class x) before in
      if lt (abs moved) (dec 5 3)
      then (if p.allow_within_class_swap then some within_class_swap else none)
      else if lt (dec 0 0) (mul moved (sub class_target before))
      then (if worsens desk targets x then none else some toward_target)
      else none

  abbrev impact_of : Desk F → String → F → Mixes F → BuyKind → String
  impact_of desk cls target x toward_target = fstring (
      "Moves "
      ∷ cls
      ∷ " from "
      ∷ format ".0%" (class_before cls x)
      ∷ " to "
      ∷ format ".0%" (class_after cls x)
      ∷ " against your "
      ∷ format ".0%" target
      ∷ " target."
      ∷ [])
  impact_of desk cls target x within_class_swap = fstring (
      "Does not move your "
      ∷ cls
      ∷ " weight ("
      ∷ format ".0%" (class_before cls x)
      ∷ "). Swaps which "
      ∷ desk.lower cls
      ∷ " you hold."
      ∷ [])

  abbrev pub card_of : Desk F → Proposal F → F → Mixes F → FundingPlan F → F → BuyKind → FundedBuy F
  card_of desk p class_target x fund amount kind = record {
    ticker = desk.upper p.ticker;
    buying_class = p.buying_class;
    amount_ils = round amount 2;
    fund = fund;
    class_before = round (class_before p.buying_class x) 4;
    class_after = round (class_after p.buying_class x) 4;
    class_target = round class_target 4;
    kind = kind;
    summary = describe_funding desk fund p.buying_class;
    impact = impact_of desk p.buying_class class_target x kind;
  }

  abbrev pub card_if :
      Desk F → Proposal F → F → Mixes F → FundingPlan F → F → Option BuyKind → Option (FundedBuy F)
  card_if desk p class_target x fund amount none = none
  card_if desk p class_target x fund amount (some kind) =
      some (card_of desk p class_target x fund amount kind)

  abbrev pub mixes_of : String → F → FundingPlan F → Dict F → Mixes F
  mixes_of cls amount fund before =
      let after = simulate cls amount fund.sells before in
      record {
        before = before;
        invested = sum_from (dec 0 0) (values before);
        after = after;
        invested_after = sum_from (dec 0 0) (values after);
      }

  -- the card of a purchase that is funded
  unfoldable pub judged :
      Desk F
      → Proposal F
      → Option String
      → Dict F
      → Option (FundingPlan F × F)
      → Option (FundedBuy F)
  unfolding kind_of
  judged desk p objective before none = none
  judged desk p objective before (some (fund, amount)) =
      let x = mixes_of p.buying_class amount fund before in
      let targets = targets_for objective in
      let target = get_or p.buying_class (dec 0 1) targets in
      if le x.invested_after (dec 0 0)
      then none
      else card_if desk p target x fund amount (kind_of desk p targets target x)

  abbrev pub funded_if : Desk F → Request F → Option F → Option (FundingPlan F × F)
  funded_if desk q none = none
  funded_if desk q (some want) = funded desk q want

  -- the request of a proposal, which never sells what it buys
  abbrev pub request_for : Desk F → Proposal F → Request F → Request F
  request_for desk p q = record q { exclude = desk.upper p.ticker ∷ map desk.upper q.exclude }

  unfoldable pub proposed : Desk F → Proposal F → Request F → Option (FundedBuy F)
  unfolding wanted funded judged
  proposed desk p q =
      let positions = position_rows desk q.nav q.rows in
      let before = by_class (λ h. h.value_ils) positions [] in
      let invested = sum_from (dec 0 0) (values before) in
      let target = get_or p.buying_class (dec 0 1) (targets_for q.objective) in
      let ticker_weight = sum_from (dec 0 0) (weight_of (desk.upper p.ticker) positions) in
      let want = wanted p q (shares_of invested before) ticker_weight target in
      if not (truthy q.nav) || str_eq (desk.upper p.ticker) "" || str_eq p.buying_class ""
      then none
      else if le invested (dec 0 0)
      then none
      else judged desk p q.objective before (funded_if desk (request_for desk p q) want)

  -- what the ledger reads of a plan
  abbrev pub funding_of : FundingPlan F → Funding F
  funding_of fund = record {
    from_cash_ils = fund.from_cash_ils;
    sells = map (λ (s : Sale F). (s.ticker, dec s.shares 0)) fund.sells;
  }

  -- the request on what a ledger leaves
  abbrev pub on_ledger : FundingLedger F → Request F → Request F
  on_ledger ledger q = record q { reserved = ledger.shares; cash_used = ledger.cash_ils }

  abbrev pub committed : Desk F → FundingLedger F → Option (FundedBuy F) → FundingLedger F
  committed desk ledger none = ledger
  committed desk ledger (some card) = commit desk.upper (funding_of card.fund) ledger

  -- with a ledger; without one it is `proposed` on nothing reserved
  unfoldable pub propose_funded_buy :
      Desk F → Proposal F → Request F → FundingLedger F → Option (FundedBuy F) × FundingLedger F
  unfolding proposed
  propose_funded_buy desk p q ledger =
      let card = proposed desk p (on_ledger ledger q) in (card, committed desk ledger card)
