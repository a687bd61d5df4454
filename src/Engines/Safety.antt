-- ===== src/Engines/Safety.antt =====
-- app/engines/safety_engine.py and app/schemas/safety.py.
use investwise_pro.Prelude.{
  ◌≡◌, refl, Bool, true, false, ◌&&◌, ◌||◌, Option, none, some, String, List, [], ◌∷◌, ◌++◌, any,
  any-append, arith, str_eq, fstring, is_empty, Dict, get_or, if◌then◌else◌,
}
use investwise_pro.Float.{Float}
use investwise_pro.Settings.{Settings}

pub data Level : Type 0 where
  medium high : Level

pub data Verdict : Type 0 where
  fine warn block : Verdict

pub record SafetyFlag : Type 0 where
  pub kind : String
  pub severity : Level
  pub ticker : Option String
  pub detail : String

pub record SafetyReport : Type 0 where
  pub verdict : Verdict
  pub flags : List SafetyFlag

-- A proposal's dict, whose ticker is given, with its defaults filled in: "Buy", and 0.0 for the weight that it adds.
pub record Proposal (F : Type 0) : Type 0 where
  pub ticker : String
  pub action : String
  pub weight_delta : F
  pub risk_score : Option F

abbrev pub is_high : SafetyFlag → Bool
is_high f = elim f.severity [ medium ↦ false | high ↦ true ]

unfoldable pub verdict_of : List SafetyFlag → Verdict
verdict_of flags = if any is_high flags then block else if is_empty flags then fine else warn

abbrev pub is_blocked : Verdict → Bool
is_blocked block = true
is_blocked fine = false
is_blocked warn = false

abbrev flag_if : Bool → SafetyFlag → List SafetyFlag
flag_if test f = if test then f ∷ [] else []

module _ {F : Type 0} ⦃num : Float F⦄ (s : Settings F) where
  open num use {dec, add, lt, format}

  -- the flags on the positions held
  unfoldable pub held_flags : Dict F → List SafetyFlag
  held_flags [] = []
  held_flags ((tk, w) ∷ holdings) =
      flag_if (lt s.concentration_cap w) (record {
        kind = "concentration";
        severity = medium;
        ticker = some tk;
        detail = fstring (
            tk
            ∷ " already "
            ∷ format ".0%" w
            ∷ " of portfolio (> "
            ∷ format ".0%" s.concentration_cap
            ∷ " cap)"
            ∷ []);
      })
      ++ held_flags holdings

  -- the weight that a proposal would reach
  abbrev pub reached : Dict F → Proposal F → F
  reached holdings p = add (get_or p.ticker (dec 0 1) holdings) p.weight_delta

  abbrev pub is_concentrated : Dict F → Proposal F → Bool
  is_concentrated holdings p = str_eq p.action "Buy" && lt s.concentration_cap (reached holdings p)

  abbrev pub below_30 : Option F → Bool
  below_30 none = false
  below_30 (some r) = lt r (dec 30 0)

  abbrev shown_score : Option F → String
  shown_score none = ""
  shown_score (some r) = format ".0f" r

  unfoldable pub proposal_flags : Dict F → List (Proposal F) → List SafetyFlag
  proposal_flags holdings [] = []
  proposal_flags holdings (p ∷ proposals) =
      flag_if (is_concentrated holdings p) (record {
        kind = "concentration";
        severity = high;
        ticker = some p.ticker;
        detail = fstring (
            "Buying "
            ∷ p.ticker
            ∷ " would reach "
            ∷ format ".0%" (reached holdings p)
            ∷ " (> "
            ∷ format ".0%" s.concentration_cap
            ∷ " cap)"
            ∷ []);
      })
      ++ (flag_if (below_30 p.risk_score) (record {
        kind = "irrational";
        severity = high;
        ticker = some p.ticker;
        detail = fstring (
            p.ticker
            ∷ " risk score "
            ∷ shown_score p.risk_score
            ∷ " is dangerously low for a "
            ∷ p.action
            ∷ []);
      })
          ++ proposal_flags holdings proposals)

  unfoldable pub liquidity_flags : F → List SafetyFlag
  liquidity_flags ratio = flag_if (lt ratio s.min_liquidity_ratio) (record {
    kind = "liquidity";
    severity = high;
    ticker = none;
    detail = fstring (
        "Liquidity "
        ∷ format ".0%" ratio
        ∷ " below "
        ∷ format ".0%" s.min_liquidity_ratio
        ∷ " minimum"
        ∷ []);
  })

  unfoldable pub check : Dict F → F → List (Proposal F) → SafetyReport
  unfolding held_flags proposal_flags liquidity_flags verdict_of
  check holdings ratio proposals =
      let flags =
        held_flags holdings ++ (proposal_flags holdings proposals ++ liquidity_flags ratio) in
      record { verdict = verdict_of flags; flags = flags }

  held_never_high : (holdings : Dict F) → any is_high (held_flags holdings) ≡ false
  unfolding held_flags
  held_never_high [] = refl
  held_never_high ((tk, w) ∷ holdings) = ground (arith, held_never_high holdings)

  abbrev pub is_reckless : Dict F → Proposal F → Bool
  is_reckless holdings p = is_concentrated holdings p || below_30 p.risk_score

  high-proposal_flags :
      (holdings : Dict F) (proposals : List (Proposal F))
      → any is_high (proposal_flags holdings proposals) ≡ any (is_reckless holdings) proposals
  unfolding proposal_flags
  high-proposal_flags holdings [] = refl
  high-proposal_flags holdings (p ∷ proposals) =
      ground (arith, high-proposal_flags holdings proposals)

  -- The verdict is to block exactly where some proposed purchase would lift its position above the
  -- cap, some proposal has a risk score below 30, or the liquidity is below its minimum; positions
  -- held above the cap alone never block.
  pub blocked-check :
      (holdings : Dict F) (ratio : F) (proposals : List (Proposal F))
      → is_blocked (check holdings ratio proposals).verdict
        ≡ (any (is_reckless holdings) proposals || lt ratio s.min_liquidity_ratio)
  unfolding check verdict_of liquidity_flags
  blocked-check holdings ratio proposals = ground (
    arith,
    any-append is_high (held_flags holdings)
        (proposal_flags holdings proposals ++ liquidity_flags ratio),
    any-append is_high (proposal_flags holdings proposals) (liquidity_flags ratio),
    held_never_high holdings,
    high-proposal_flags holdings proposals,
  )
