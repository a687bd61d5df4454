-- ===== src/Lifecycle/Signals.antt =====
-- The stages of app/schemas/state_machine.py. Each stage holds the one before it. A stage with a
-- constrained field is built by a function that raises pydantic's `ValidationError` as `invalid`.
use investwise_pro.Prelude.{
  ℕ, ◌≡◌, refl, ◌⊎◌, inl, inr, Bool, true, not, ◌&&◌, Option, none, some, String, str_eq, leb,
  if◌then◌else◌,
}
use investwise_pro.Float.{Float}

pub data Market : Type 0 where
  tase nyse nasdaq tsx b3 lse xetra euronext six jpx hkex sse nse asx spot other : Market

pub data ActionType : Type 0 where
  buy sell rebalance tax risk : ActionType

abbrev pub market_value : Market → String
market_value Market.tase = "TASE"
market_value Market.nyse = "NYSE"
market_value Market.nasdaq = "NASDAQ"
market_value Market.tsx = "TSX"
market_value Market.b3 = "B3"
market_value Market.lse = "LSE"
market_value Market.xetra = "XETRA"
market_value Market.euronext = "EURONEXT"
market_value Market.six = "SIX"
market_value Market.jpx = "JPX"
market_value Market.hkex = "HKEX"
market_value Market.sse = "SSE"
market_value Market.nse = "NSE"
market_value Market.asx = "ASX"
market_value Market.spot = "SPOT"
market_value Market.other = "OTHER"

abbrev pub action_value : ActionType → String
action_value ActionType.buy = "Buy"
action_value ActionType.sell = "Sell"
action_value ActionType.rebalance = "Rebalance"
action_value ActionType.tax = "Tax"
action_value ActionType.risk = "Risk"

-- What a transition may raise: pydantic's `ValidationError`, the `ValueError` of `optimize`, or the
-- `ValueError` of `compute_impact`.
pub data Error : Type 0 where
  invalid cannot_optimize bad_factor : Error

pub data Result {ℓ} (A : Type ℓ) : Type ℓ where
  err : Error → Result A
  ok : A → Result A

module _ {ℓ} {A B : Type ℓ} where
  infixl 5 ◌>>=◌
  abbrev pub ◌>>=◌ : Result A → (A → Result B) → Result B
  err e >>= rest = err e
  ok value >>= rest = rest value

  -- What a chain that ends well has passed.
  pub >>=-eq-ok :
      {end : B} (first : Result A) (rest : A → Result B)
      → (first >>= rest) ≡ ok end
      → (value : A) × (first ≡ ok value) × (rest value ≡ ok end)
  >>=-eq-ok (err e) rest h = cc
  >>=-eq-ok (ok value) rest h = (value, refl, h)

pub Result-cases {ℓ} :
    {A : Type ℓ} (m : Result A) → ((a : A) × (m ≡ ok a)) ⊎ ((e : Error) × (m ≡ err e))
Result-cases (ok a) = inl (a, refl)
Result-cases (err e) = inr (e, refl)

pub record DetectedSignal (F : Type 0) : Type 0 where
  pub ticker : String
  pub market : Market
  pub action_type : ActionType
  pub trigger : String
  pub depth : ℕ
  pub divergence_pct : F
  pub notes : String
  pub gross_gain_ils : Option F
  pub prior_taxable_income_ils : F
  pub loss_carry_forward_ils : F
  pub expected_return_pct : Option F
  pub volatility_pct : Option F
  pub liquidity_score : Option F

pub record VettedSignal (F : Type 0) : Type 0 where
  pub source : DetectedSignal F
  pub probability_of_ruin : Option F
  pub max_drawdown : Option F
  pub volatility : Option F
  pub veto_flag : Bool
  pub risk_critique : String

pub record OptimizedSignal (F : Type 0) : Type 0 where
  pub source : VettedSignal F
  pub net_gain_delta : Option F
  pub actual_tax_cost : Option F
  pub tax_saved : Option F
  pub tax_deferred : Option F

pub record ImpactScores (F : Type 0) : Type 0 where
  pub ret : F
  pub tax : F
  pub risk : F
  pub liquidity : F
  pub conviction : F

pub record ConfidenceBreakdown (F : Type 0) : Type 0 where
  pub data_quality : F
  pub model_agreement : F
  pub historical_accuracy : F
  pub market_stability : F

pub record RankedSignal (F : Type 0) : Type 0 where
  pub source : OptimizedSignal F
  pub impact_score : F
  pub confidence : F
  pub scores : ImpactScores F
  pub confidence_breakdown : ConfidenceBreakdown F
  pub complexity_label : String
  pub complexity_factor : F
  pub urgency : ℕ

pub record DisplayedItem (F : Type 0) : Type 0 where
  pub source : RankedSignal F
  pub path : String
  pub title : String

pub record VetoedSignal (F : Type 0) : Type 0 where
  pub source : VettedSignal F
  pub reason : String

abbrev pub checked : {A : Type 0} → Bool → A → Result A
checked test a = if test then ok a else err invalid

module _ {F : Type 0} ⦃num : Float F⦄ where
  open num use {dec, le, sub}

  -- The field types of app/schemas/validation.py. A finite number is one whose difference with
  -- itself is a number.
  abbrev pub finite : F → Bool
  finite x = le (sub x x) (sub x x)

  abbrev pub non_neg : F → Bool
  non_neg x = le (dec 0 0) x && finite x

  abbrev pub unit_fraction : F → Bool
  unit_fraction x = le (dec 0 0) x && le x (dec 1 0)

  abbrev pub score : F → Bool
  score x = le (dec 0 0) x && le x (dec 100 0)

  abbrev pub optional : (F → Bool) → Option F → Bool
  optional p none = true
  optional p (some x) = p x

  -- The `ValidationError` of a veto with an empty critique included; `strip` is Python's.
  unfoldable pub vetted_signal : (String → String) → VettedSignal F → Result (VettedSignal F)
  vetted_signal strip v =
      checked
        (optional unit_fraction v.probability_of_ruin
          && optional unit_fraction v.max_drawdown
          && optional non_neg v.volatility
          && not (v.veto_flag && str_eq (strip v.risk_critique) ""))
        v

  unfoldable pub optimized_signal : OptimizedSignal F → Result (OptimizedSignal F)
  optimized_signal o =
      checked
        (optional finite o.net_gain_delta
          && optional non_neg o.actual_tax_cost
          && optional finite o.tax_saved
          && optional non_neg o.tax_deferred)
        o

  abbrev pub valid_scores : ImpactScores F → Bool
  valid_scores s =
      score s.ret && score s.tax && score s.risk && score s.liquidity && score s.conviction

  abbrev pub valid_breakdown : ConfidenceBreakdown F → Bool
  valid_breakdown b =
      score b.data_quality
      && score b.model_agreement
      && score b.historical_accuracy
      && score b.market_stability

  unfoldable pub ranked_signal : RankedSignal F → Result (RankedSignal F)
  ranked_signal r =
      checked
        (score r.impact_score
          && score r.confidence
          && valid_scores r.scores
          && valid_breakdown r.confidence_breakdown
          && (le (dec 1 0) r.complexity_factor && le r.complexity_factor (dec 2 0))
          && (leb 1 r.urgency && leb r.urgency 100))
        r
