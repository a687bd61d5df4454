-- ===== src/Rules/Evaluation.antt =====
-- `_signal_side` and `evaluate_user` of app/services/rules_service.py, up to the push of what fired.
pub mod Shapes
pub mod Latch
pub mod Settles
use investwise_pro.Prelude.{
  Bool, true, false, not, ◌&&◌, ◌||◌, Option, none, some, String, List, [], ◌∷◌, ◌++◌, str_eq,
  fstring, or_else, is_some, Dict, lookup, get_or, if◌then◌else◌,
}
use investwise_pro.Float.{Float, max}
use investwise_pro.Rules.Data.{
  RuleType, trailing_stop, strategy_signal, is_standing, TradingRule, RuleEvent, EventAction, Plan,
  Position, Store, Strings,
}
use investwise_pro.Rules.Conditions.{
  evaluate, execution_plan, clears_with_margin, peak_or, is_signal,
}
use investwise_pro.Rules.Holdings.{purge_orphan_rules}

-- a flip that `strategy_signal_service` has recorded
pub record Flip (F : Type 0) : Type 0 where
  pub target : Dict F
  pub previous : Dict F

-- an entry of `newly`, with the event that is added for it
pub record Fired (F : Type 0) : Type 0 where
  pub id : String
  pub action : String
  pub event : RuleEvent F
  pub actionable : Bool

-- What an evaluation reads beside the rules: the clock, the flip of each strategy, the text that lists
-- a flip's targets, and the index of positions.
pub record World (F : Type 0) : Type 0 where
  pub now : F
  pub flip_of : String → Option (Flip F)
  pub listed : Dict F → String
  pub index : Dict (Position F)

abbrev pub is_trailing : RuleType → Bool
is_trailing trailing_stop = true
is_trailing _ = false

module _ {F : Type 0} ⦃num : Float F⦄ where
  open num use {dec, le, lt, round}

  unfoldable pub signal_side : (String → String) → Flip F → String → Option String
  signal_side upper flip ticker =
      let tk = upper ticker in
      let now_in = lt (dec 5 3) (get_or tk (dec 0 1) flip.target) in
      let was_in = lt (dec 5 3) (get_or tk (dec 0 1) flip.previous) in
      if now_in && not was_in
      then some "entry"
      else if was_in && not now_in
      then some "exit"
      else none

  -- the side to which the rule's strategy has turned, if its id is set
  abbrev pub side_of : (String → String) → Option (Flip F) → TradingRule F → Option String
  side_of upper none r = none
  side_of upper (some flip) r = signal_side upper flip r.ticker

  abbrev no_position : Position F
  no_position = record {
    price = dec 0 0;
    cost = dec 0 0;
    qty = dec 0 0;
    weight_pct = dec 0 0;
    value_ils = dec 0 0;
  }

  abbrev pub latched : World F → TradingRule F → TradingRule F
  latched w r = record r { triggered = true; last_triggered_at = some w.now }

  abbrev signal_title : TradingRule F → String → String
  signal_title r side =
      if str_eq side "entry"
      then fstring ("📈 " ∷ r.ticker ∷ " wants in" ∷ [])
      else fstring ("📉 " ∷ r.ticker ∷ " wants out" ∷ [])

  -- the firing of a signal
  unfoldable pub signal_fired :
      Strings → World F → TradingRule F → String → Flip F → String → Fired F
  signal_fired py w r sid flip side =
      let pos = or_else (lookup (py.upper r.ticker) w.index) no_position in
      record {
        id = r.id;
        action = fstring (
            "Your "
            ∷ sid
            ∷ " rule flipped to "
            ∷ side
            ∷ ": it now wants "
            ∷ w.listed flip.target
            ∷ "."
            ∷ []);
        event = record {
          subject = r.subject;
          rule_id = r.id;
          ticker = r.ticker;
          rule_type = r.rule_type;
          trigger_price = pos.price;
          target_price = none;
          title = signal_title r side;
          outcome = "triggered";
          outcome_at = none;
          action = record {
            plan = execution_plan py.upper r pos;
            side = some side;
            strategy_id = some sid;
            executed = none;
          };
        };
        actionable = true;
      }

  -- a rule on a signal, with its flip
  unfoldable pub step_flip :
      Strings
      → World F
      → TradingRule F
      → String
      → Option (Flip F)
      → TradingRule F × Option (Fired F)
  unfolding signal_fired
  step_flip py w r sid none = (r, none)
  step_flip py w r sid (some flip) = elim (signal_side py.upper flip r.ticker) [
    | none ↦ (r, none)
    | some side ↦
        if str_eq side r.mode && not r.triggered
        then (latched w r, some (signal_fired py w r sid flip side))
        else (r, none)
  ]

  abbrev pub step_signal :
      Strings → World F → TradingRule F → Option String → TradingRule F × Option (Fired F)
  step_signal py w r none = (r, none)
  step_signal py w r (some sid) =
      if str_eq sid "" then (r, none) else step_flip py w r sid (w.flip_of sid)

  -- an active rule whose ticker is not held: retired
  unfoldable pub retire : Strings → TradingRule F → TradingRule F
  retire py r =
      let off : TradingRule F = record r { active = false; triggered = false } in
      if py.starts_with (or_else r.note "") "retired:" || str_eq (py.upper r.ticker) "CASH"
      then off
      else record off {
        note =
            some
              (py.clip (fstring ("retired: " ∷ r.ticker ∷ " is no longer in your portfolio" ∷ [])));
      }

  -- `r.peak_price = max(r.peak_price or cur, cur)` of a trailing stop
  abbrev pub with_peak : TradingRule F → F → TradingRule F
  with_peak r cur =
      if is_trailing r.rule_type && lt (dec 0 0) cur
      then record r { peak_price = some (max (peak_or r.peak_price cur) cur) }
      else r

  abbrev event_of :
      World F → TradingRule F → Position F → String → Option F → Option (Plan F) → RuleEvent F
  event_of w r pos title target plan = record {
    subject = r.subject;
    rule_id = r.id;
    ticker = r.ticker;
    rule_type = r.rule_type;
    trigger_price = pos.price;
    target_price = target;
    title = title;
    outcome = "triggered";
    outcome_at = none;
    action = record { plan = plan; side = none; strategy_id = none; executed = none };
  }

  -- a rule on a holding, once its peak is raised
  unfoldable pub step_price :
      Strings → World F → TradingRule F → Position F → TradingRule F × Option (Fired F)
  step_price py w r pos =
      let e = evaluate r pos.price pos.cost pos.weight_pct in
      let plan = execution_plan py.upper r pos in
      if e.hit && not r.triggered
      then (
        latched w r,
        some (record {
          id = r.id;
          action = e.action;
          event = event_of w r pos e.title e.target plan;
          actionable = is_some plan;
        }),
      )
      else if not e.hit
          && r.triggered
          && is_standing r.rule_type
          && clears_with_margin r pos.price pos.weight_pct
      then (record r { triggered = false }, none)
      else (r, none)

  -- one round of the loop, on an active rule
  abbrev pub step_held :
      Strings → World F → TradingRule F → Option (Position F) → TradingRule F × Option (Fired F)
  step_held py w r none = (retire py r, none)
  step_held py w r (some pos) = step_price py w (with_peak r pos.price) pos

  unfoldable pub step : Strings → World F → TradingRule F → TradingRule F × Option (Fired F)
  unfolding step_flip retire step_price
  step py w r =
      if is_signal r.rule_type
      then step_signal py w r r.strategy_id
      else step_held py w r (lookup (py.upper r.ticker) w.index)

  abbrev pub and_fired : Option (Fired F) → List (Fired F) → List (Fired F)
  and_fired none rest = rest
  and_fired (some f) rest = f ∷ rest

  -- the loop over the active rules of a subject
  unfoldable pub step_all :
      Strings → World F → String → List (TradingRule F) → List (TradingRule F) × List (Fired F)
  step_all py w email [] = ([], [])
  step_all py w email (r ∷ rules) =
      let (rest, fired) = step_all py w email rules in
      if str_eq r.subject email && r.active
      then (let (r', f) = step py w r in (r' ∷ rest, and_fired f fired))
      else (r ∷ rest, fired)

  abbrev pub events_of : List (Fired F) → List (RuleEvent F)
  events_of [] = []
  events_of (f ∷ fired) = f.event ∷ events_of fired

  unfoldable pub evaluate_user : Strings → World F → String → Store F → List (Fired F) × Store F
  unfolding step_all
  evaluate_user py w email s =
      let kept = (purge_orphan_rules py.upper email w.index s).1 in
      let (rules, fired) = step_all py w email kept.rules in
      (fired, record { rules = rules; events = kept.events ++ events_of fired })
