-- ===== src/Engines/Learning.antt =====
-- app/engines/learning_engine.py, over the rows that the query of `compute_profile` returns.
use investwise_pro.Prelude.{
  ℕ, ◌+◌, ◌-◌, ◌≤◌, ◌≡◌, refl, Bool, Option, none, some, String, List, [], ◌∷◌, ◌++◌, arith, length,
  str_eq, ltb, fstring, join, is_empty, Dict, insert, get_or, lookup, lookup-insert, if◌then◌else◌,
  ◌==◌, eq_iff,
}
use investwise_pro.Float.{Float}

-- the action taken and the type of the item
abbrev pub Row : Type 0
Row = String × String

-- `{"a": …, "t": …}`
pub record Tally : Type 0 where
  pub accepted : ℕ
  pub seen : ℕ

pub record Profile (F : Type 0) : Type 0 where
  pub total_actions : ℕ
  pub accepted : ℕ
  pub ignored : ℕ
  pub acceptance_rate : Option F
  pub by_action_type : Dict F
  pub preferred_action_types : List String
  pub style : String

abbrev pub one_if : Bool → ℕ
one_if b = if b then 1 else 0

unfoldable pub accepted_count : List Row → ℕ
accepted_count [] = 0
accepted_count ((action, kind) ∷ rows) = one_if (str_eq action "accepted") + accepted_count rows

abbrev no_tally : Tally
no_tally = record { accepted = 0; seen = 0 }

unfoldable pub aggregate : List Row → Dict Tally → Dict Tally
aggregate [] agg = agg
aggregate ((action, kind) ∷ rows) agg =
    let d = get_or kind no_tally agg in
    aggregate rows (
      insert kind
        (record { accepted = d.accepted + one_if (str_eq action "accepted"); seen = d.seen + 1 })
        agg)

abbrev listed : String → List String → List String
listed text names = if is_empty names then [] else fstring (text ∷ join ", " names ∷ []) ∷ []

-- `"; ".join(bits) or "balanced across action types."`
abbrev or_balanced : List String → String
or_balanced [] = "balanced across action types."
or_balanced (b ∷ bits) = join "; " (b ∷ bits)

module _ {F : Type 0} ⦃num : Float F⦄ where
  open num use {dec, div, le, round}

  unfoldable pub rates : Dict Tally → Dict F
  rates [] = []
  rates ((kind, d) ∷ agg) = (kind, round (div (dec d.accepted 0) (dec d.seen 0)) 3) ∷ rates agg

  abbrev names_where : (F → Bool) → Dict F → List String
  names_where p [] = []
  names_where p ((k, r) ∷ d) = let rest = names_where p d in if p r then k ∷ rest else rest

  abbrev pub is_liked : F → Bool
  is_liked r = le (dec 60 2) r

  abbrev pub is_disliked : F → Bool
  is_disliked r = le r (dec 40 2)

  unfoldable pub style : Dict F → ℕ → String
  style by_rate total =
      if ltb total 3
      then "Learning - not enough actions yet to personalize."
      else or_balanced (
          listed "favors " (names_where is_liked by_rate)
          ++ listed "tends to skip " (names_where is_disliked by_rate))

  unfoldable pub compute_profile : List Row → Profile F
  unfolding rates style
  compute_profile rows =
      let total = length rows in
      let accepted = accepted_count rows in
      let by_rate = rates (aggregate rows []) in
      record {
        total_actions = total;
        accepted = accepted;
        ignored = total - accepted;
        acceptance_rate =
            if total == 0 then none else some (round (div (dec accepted 0) (dec total 0)) 3);
        by_action_type = by_rate;
        preferred_action_types = names_where is_liked by_rate;
        style = style by_rate total;
      }

  abbrev pub boost_for : Option F → F
  boost_for none = dec 10 1
  boost_for (some rate) =
      if is_liked rate then dec 110 2 else if is_disliked rate then dec 90 2 else dec 10 1

  unfoldable pub impact_boost : Profile F → String → F
  impact_boost profile action_type =
      if ltb profile.total_actions 3
      then dec 10 1
      else boost_for (lookup action_type profile.by_action_type)

-- the rows of one type, and the accepted ones among them
unfoldable pub tally_of : String → List Row → Tally
tally_of kind [] = no_tally
tally_of kind ((action, k) ∷ rows) =
    let d = tally_of kind rows in
    if str_eq k kind
    then record { accepted = one_if (str_eq action "accepted") + d.accepted; seen = 1 + d.seen }
    else d

aggregate_from :
    (kind : String) (rows : List Row) (agg : Dict Tally)
    → let d = get_or kind no_tally agg in
      let t = tally_of kind rows in
      get_or kind no_tally (aggregate rows agg)
      ≡ record { accepted = d.accepted + t.accepted; seen = d.seen + t.seen }
unfolding aggregate tally_of
aggregate_from kind [] agg = ground arith
aggregate_from kind ((action, k) ∷ rows) agg =
    let d = get_or k no_tally agg in
    let next =
      insert k
        (record { accepted = d.accepted + one_if (str_eq action "accepted"); seen = d.seen + 1 })
        agg in
    ground (
      arith,
      aggregate_from kind rows next,
      lookup-insert k kind
          (record { accepted = d.accepted + one_if (str_eq action "accepted"); seen = d.seen + 1 })
          agg,
      eq_iff k kind,
    )

accepted_count-le : (rows : List Row) → accepted_count rows ≤ length rows
unfolding accepted_count
accepted_count-le [] = omega arith
accepted_count-le ((action, kind) ∷ rows) = ground (arith, accepted_count-le rows)

module _ {F : Type 0} ⦃num : Float F⦄ where
  -- In the profile of any history the accepted and the ignored actions add up to all of them, the
  -- tally of every type counts its own rows, and with fewer than three actions no type's score is
  -- boosted or lowered.
  pub compute_profile_lem :
      (rows : List Row) (kind : String)
      → let p : Profile F = compute_profile rows in
        (p.accepted + p.ignored ≡ p.total_actions)
        × (get_or kind (record { accepted = 0; seen = 0 }) (aggregate rows []) ≡ tally_of kind rows)
        × (impact_boost p kind ≡ (
            if ltb (length rows) 3
            then num.dec 10 1
            else boost_for (lookup kind (rates (aggregate rows [])))))
  unfolding compute_profile impact_boost
  compute_profile_lem rows kind =
      (omega (arith, accepted_count-le rows), ground (arith, aggregate_from kind rows []), refl)
