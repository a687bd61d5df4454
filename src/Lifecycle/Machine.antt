-- ===== src/Lifecycle/Machine.antt =====
-- app/engines/state_machine.py: the orchestrator over its three engines, which it takes as arguments,
-- and the adversary. `assert_handoff` of app/schemas/validation.py is the typing of the transitions.
pub mod Advice
pub mod Gates
pub mod Vetoes
use investwise_pro.Prelude.{
  Bool, true, false, ◌&&◌, ◌||◌, Option, none, some, String, List, [], ◌∷◌, ◌++◌, fstring, str_eq,
  if◌then◌else◌,
}
use investwise_pro.Float.{Float}
use investwise_pro.Settings.{Settings}
use investwise_pro.Lifecycle.Signals.{
  ActionType, DetectedSignal, VettedSignal, OptimizedSignal, RankedSignal, DisplayedItem,
  VetoedSignal, Result, ok, err, cannot_optimize, ◌>>=◌, market_value, action_value, vetted_signal,
}
use investwise_pro.Lifecycle.Adversary.{
  AdversaryNote, blocks, examine_detected, examine_vetted, examine_optimized, examine_ranked,
}

-- DisplayedItem, VetoedSignal or None
pub data Outcome (F : Type 0) : Type 0 where
  displayed : DisplayedItem F → Outcome F
  vetoed : VetoedSignal F → Outcome F
  no_action : Outcome F

pub record ExaminationResult (F : Type 0) : Type 0 where
  pub outcome : Outcome F
  pub notes : List AdversaryNote

-- The protocols `_Risk`, `_Tax` and `_Decision`, with the settings.
pub record StateMachine (F : Type 0) : Type 0 where
  pub settings : Settings F
  pub risk_vet : DetectedSignal F → Result (VettedSignal F)
  pub tax_optimize : VettedSignal F → Result (OptimizedSignal F)
  pub decision_rank : OptimizedSignal F → Result (RankedSignal F)

module _ {F : Type 0} ⦃num : Float F⦄ (strip : String → String) (m : StateMachine F) where
  open num use {lt}

  unfoldable pub vet : DetectedSignal F → Result (VettedSignal F)
  vet signal = m.risk_vet signal

  unfoldable pub optimize : VettedSignal F → Result (OptimizedSignal F)
  optimize signal = if signal.veto_flag then err cannot_optimize else m.tax_optimize signal

  unfoldable pub rank : OptimizedSignal F → Result (RankedSignal F)
  rank signal = m.decision_rank signal

  abbrev pub is_buy : ActionType → Bool
  is_buy ActionType.buy = true
  is_buy _ = false

  unfoldable pub display : RankedSignal F → Option (DisplayedItem F)
  display signal =
      if lt signal.impact_score m.settings.min_impact_score
        || lt signal.confidence m.settings.min_confidence
      then none
      else let detected = signal.source.source.source in
        some (record {
          source = signal;
          path = if is_buy detected.action_type then "Growth" else "Bulletproof";
          title = fstring (
              action_value detected.action_type
              ∷ " "
              ∷ detected.ticker
              ∷ " ("
              ∷ market_value detected.market
              ∷ ")"
              ∷ []);
        })

  -- `_adv_veto`
  unfoldable pub adv_veto : VettedSignal F → AdversaryNote → Outcome F
  adv_veto vetted note =
      vetoed (record { source = vetted; reason = fstring ("ADVERSARY " ∷ note.critique ∷ []) })

  -- `self.settings.adversary_enabled`, and with it the switch for a hard veto
  abbrev pub examine : Bool
  examine = m.settings.adversary_enabled

  abbrev pub enforce : Bool
  enforce = m.settings.adversary_enforce_veto

  -- the notes with a stage's note appended, if the adversary is on
  abbrev pub noted : List AdversaryNote → AdversaryNote → List AdversaryNote
  noted notes n = if examine then notes ++ (n ∷ []) else notes

  -- a note of the adversary stops the pipeline
  abbrev pub stops : AdversaryNote → Bool
  stops n = examine && (enforce && blocks n)

  abbrev pub ends : Outcome F → List AdversaryNote → Result (ExaminationResult F)
  ends o notes = ok (record { outcome = o; notes = notes })

  -- stage 5
  unfoldable pub gate : RankedSignal F → Outcome F
  unfolding display
  gate ranked = elim (display ranked) [ none ↦ no_action | some item ↦ displayed item ]

  -- stage 4 and after
  unfoldable pub from_optimized :
      VettedSignal F → OptimizedSignal F → List AdversaryNote → Result (ExaminationResult F)
  from_optimized vetted optimized notes = do
    ranked ← rank optimized
    let nr = examine_ranked ranked
    let notes' = noted notes nr
    if stops nr then ends (adv_veto vetted nr) notes' else ends (gate ranked) notes'

  -- stage 3 and after
  unfoldable pub from_vetted : VettedSignal F → List AdversaryNote → Result (ExaminationResult F)
  from_vetted vetted notes = do
    optimized ← optimize vetted
    let no_ = examine_optimized optimized
    let notes' = noted notes no_
    if stops no_ then ends (adv_veto vetted no_) notes' else from_optimized vetted optimized notes'

  -- `vetted.risk_critique or "Risk veto"`
  abbrev pub veto_reason : String → String
  veto_reason critique = if str_eq critique "" then "Risk veto" else critique

  -- stage 2 and after
  unfoldable pub from_detected :
      DetectedSignal F → List AdversaryNote → Result (ExaminationResult F)
  from_detected signal notes = do
    vetted ← vet signal
    let nv = examine_vetted m.settings vetted
    let notes' = noted notes nv
    if vetted.veto_flag
        then ends (vetoed (record { source = vetted; reason = veto_reason vetted.risk_critique }))
            notes'
        else if stops nv
        then ends (adv_veto vetted nv) notes'
        else from_vetted vetted notes'

  -- the vetted signal that stands for a detected one that the adversary blocks
  abbrev pub blocked_signal : DetectedSignal F → AdversaryNote → VettedSignal F
  blocked_signal signal nd = record {
    source = signal;
    probability_of_ruin = none;
    max_drawdown = none;
    volatility = none;
    veto_flag = true;
    risk_critique = fstring ("ADVERSARY " ∷ nd.critique ∷ []);
  }

  unfoldable pub cross_examine : DetectedSignal F → Result (ExaminationResult F)
  cross_examine signal =
      let nd = examine_detected signal in
      let notes = noted [] nd in
      if stops nd
      then (do
        vetted ← vetted_signal strip (blocked_signal signal nd)
        ends (vetoed (record { source = vetted; reason = nd.critique })) notes)
      else from_detected signal notes

  unfoldable pub run : DetectedSignal F → Result (Outcome F)
  run signal = do result ← cross_examine signal; ok result.outcome
