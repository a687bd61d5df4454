-- ===== src/Funding/Purchase/Laws.antt =====
-- What a card is never shown for.
use investwise_pro.Prelude.{
  ◌∷◌, ◌≡◌, refl, ap, subst, true, false, not, ◌&&◌, ◌||◌, Option, none, some, String, List, [],
  map, str_eq, Dict, get_or, Bool-cases, inl, inr,
}
use investwise_pro.Float.{Float, truthy, min}
use investwise_pro.Funding.Positions.{Desk, Held, position_rows, by_class, targets_for, min_trade}
use investwise_pro.Funding.{FundingLedger}
use investwise_pro.Funding.Sales.{sum_from, FundingPlan, Request, plan_funding}
use investwise_pro.Funding.Purchase.{
  is_swap, BuyKind, FundedBuy, Proposal, Mixes, funded, worsens, class_before, class_after, kind_of,
  card_if, mixes_of, judged, funded_if, request_for, proposed, propose_funded_buy, on_ledger,
  values,
}
use investwise_pro.Funding.Sales.Spares.{sells_any, plan_funding-spares}

module _ {F : Type 0} ⦃num : Float F⦄ where
  open num use {dec, le, lt, round}

  -- the plan of a purchase, if there is one, leaves some tickers alone and is worth a trade
  abbrev IsFunded : List String → Option (FundingPlan F × F) → Type 0
  IsFunded tickers none = Unit
  IsFunded tickers (some (fund, amount)) =
      (sells_any tickers fund.sells ≡ false) × (lt amount min_trade ≡ false)

  funded-IsFunded :
      (desk : Desk F) (q : Request F) (want : F)
      → IsFunded (map desk.upper q.exclude) (funded desk q want)
  unfolding funded
  funded-IsFunded desk q want =
      let fund = plan_funding desk q want in
      let amount = min want fund.funded_ils in
      let fund' = plan_funding desk q amount in
      elim (Bool-cases (lt amount min_trade)) [
        | inl small ↦ rw (funded, small) tt
        | inr enough ↦ elim (Bool-cases (lt amount want)) [
          | inr whole ↦ rw (funded, enough, whole) (plan_funding-spares desk q want, enough)
          | inl part ↦ elim (Bool-cases (lt (min amount fund'.funded_ils) min_trade)) [
            | inl small' ↦ rw (funded, enough, part, small') tt
            | inr enough' ↦
                rw (funded, enough, part, enough') (plan_funding-spares desk q amount, enough')
          ]
        ]
      ]

  -- what a card may be called: a swap that the caller allows, or a purchase that does not worsen the mix
  abbrev IsAllowed : Desk F → Proposal F → Dict F → Mixes F → Option BuyKind → Type 0
  IsAllowed desk p targets x none = Unit
  IsAllowed desk p targets x (some kind) =
      ((is_swap kind && not p.allow_within_class_swap) ≡ false)
      × ((is_swap kind || not (worsens desk targets x)) ≡ true)

  kind_of-IsAllowed :
      (desk : Desk F) (p : Proposal F) (targets : Dict F) (target : F) (x : Mixes F)
      → IsAllowed desk p targets x (kind_of desk p targets target x)
  unfolding kind_of
  kind_of-IsAllowed desk p targets target x =
      let before = class_before p.buying_class x in
      let moved = num.sub (class_after p.buying_class x) before in
      elim (Bool-cases (lt (num.abs moved) (dec 5 3))) [
        | inl still ↦ elim (Bool-cases p.allow_within_class_swap) [
          | inl allowed ↦ rw (kind_of, still, allowed) (refl, refl)
          | inr refused ↦ rw (kind_of, still, refused) tt
        ]
        | inr moves ↦ elim (Bool-cases (lt (dec 0 0) (num.mul moved (num.sub target before)))) [
          | inr away ↦ rw (kind_of, moves, away) tt
          | inl toward ↦ elim (Bool-cases (worsens desk targets x)) [
            | inl worse ↦ rw (kind_of, moves, toward, worse) tt
            | inr fine ↦ rw (kind_of, moves, toward, fine) (refl, ap not fine)
          ]
        ]
      ]

  -- what holds of a card, if there is one
  abbrev pub IsHonest :
      Desk F → Proposal F → List String → Option String → Dict F → Option (FundedBuy F) → Type 0
  IsHonest desk p tickers objective before none = Unit
  IsHonest desk p tickers objective before (some card) =
      (sells_any tickers card.fund.sells ≡ false)
      × ((is_swap card.kind && not p.allow_within_class_swap) ≡ false)
      × ((amount : F) × (card.amount_ils ≡ round amount 2)
          × (lt amount min_trade ≡ false)
          × ((is_swap card.kind
                || not (
                    worsens desk (targets_for objective)
                      (mixes_of p.buying_class amount card.fund before)))
              ≡ true))

  card_if-IsHonest :
      (desk : Desk F) (p : Proposal F) (tickers : List String) (objective : Option String)
      (before : Dict F) (fund : FundingPlan F) (amount : F)
      → sells_any tickers fund.sells ≡ false
      → lt amount min_trade ≡ false
      → (o : Option BuyKind)
      → IsAllowed desk p (targets_for objective) (mixes_of p.buying_class amount fund before) o
      → IsHonest desk p tickers objective before (
          card_if desk p
            (get_or p.buying_class (dec 0 1) (targets_for objective))
            (mixes_of p.buying_class amount fund before)
            fund
            amount
            o)
  card_if-IsHonest desk p tickers objective before fund amount spared enough none h = tt
  card_if-IsHonest desk p tickers objective before fund amount spared enough (some kind)
        (allowed, better) =
      (spared, allowed, (amount, refl, enough, better))

  funded_if-IsFunded :
      (desk : Desk F) (q : Request F) (want : Option F)
      → IsFunded (map desk.upper q.exclude) (funded_if desk q want)
  funded_if-IsFunded desk q none = tt
  funded_if-IsFunded desk q (some want) = funded-IsFunded desk q want

  judged-IsHonest :
      (desk : Desk F) (p : Proposal F) (tickers : List String) (objective : Option String)
      (before : Dict F) (o : Option (FundingPlan F × F))
      → IsFunded tickers o
      → IsHonest desk p tickers objective before (judged desk p objective before o)
  unfolding judged
  judged-IsHonest desk p tickers objective before none h = tt
  judged-IsHonest desk p tickers objective before (some (fund, amount)) (spared, enough) =
      let x = mixes_of p.buying_class amount fund before in
      let targets = targets_for objective in
      let target = get_or p.buying_class (dec 0 1) targets in
      elim (Bool-cases (le x.invested_after (dec 0 0))) [
        | inl empty ↦ rw (judged, empty) tt
        | inr left ↦
            rw (judged, left)
              (card_if-IsHonest desk p tickers objective before fund amount spared enough
                (kind_of desk p targets target x) (kind_of-IsAllowed desk p targets target x))
      ]

  proposed-IsHonest :
      (desk : Desk F) (p : Proposal F) (q : Request F)
      → IsHonest desk p
          (map desk.upper (request_for desk p q).exclude)
          q.objective
          (by_class (λ h. h.value_ils) (position_rows desk q.nav q.rows) [])
          (proposed desk p q)
  unfolding proposed
  proposed-IsHonest desk p q =
      let before = by_class (λ (h : Held F). h.value_ils) (position_rows desk q.nav q.rows) [] in
      elim (Bool-cases
        (not (truthy q.nav) || str_eq (desk.upper p.ticker) "" || str_eq p.buying_class "")) [
          | inl blank ↦ rw (proposed, blank) tt
          | inr asked ↦ elim (Bool-cases (le (sum_from (dec 0 0) (values before)) (dec 0 0))) [
            | inl broke ↦ rw (proposed, asked, broke) tt
            | inr invested ↦
                rw (proposed, asked, invested)
                  (judged-IsHonest desk p (map desk.upper (request_for desk p q).exclude)
                    q.objective before _ (funded_if-IsFunded desk (request_for desk p q) _))
          ]
        ]

  of_card :
      (desk : Desk F) (p : Proposal F) (tickers : List String) (objective : Option String)
      (before : Dict F) (o : Option (FundedBuy F)) (card : FundedBuy F)
      → o ≡ some card
      → IsHonest desk p tickers objective before o
      → IsHonest desk p tickers objective before (some card)
  of_card desk p tickers objective before o card same h =
      subst (λ (x : Option (FundedBuy F)). IsHonest desk p tickers objective before x) same h

  -- A card for a purchase, built on what a ledger leaves, sells none of the tickers that the request
  -- excludes and not the ticker that it buys, each in upper case, is a swap within a class only if the caller allows one, and is for
  -- an amount that is not below the least trade; if it is not a swap, the mix that its own amount and
  -- sales lead to is not further from the plan's targets than the mix before, up to 1e-9.
  pub propose_funded_buy_lem :
      (desk : Desk F) (p : Proposal F) (q : Request F) (ledger : FundingLedger F)
      (card : FundedBuy F)
      → (propose_funded_buy desk p q ledger).0 ≡ some card
      → (sells_any (map desk.upper (desk.upper p.ticker ∷ map desk.upper q.exclude)) card.fund.sells
          ≡ false)
        × ((is_swap card.kind && not p.allow_within_class_swap) ≡ false)
        × ((amount : F) × (card.amount_ils ≡ round amount 2)
            × (lt amount min_trade ≡ false)
            × ((is_swap card.kind
                  || not (
                      worsens desk (targets_for q.objective) (
                        mixes_of p.buying_class amount card.fund
                          (by_class (λ h. h.value_ils) (position_rows desk q.nav q.rows) []))))
                ≡ true))
  unfolding propose_funded_buy
  propose_funded_buy_lem desk p q ledger card h =
      of_card desk p (map desk.upper (request_for desk p (on_ledger ledger q)).exclude) q.objective
        _ (proposed desk p (on_ledger ledger q)) card h
        (proposed-IsHonest desk p (on_ledger ledger q))
