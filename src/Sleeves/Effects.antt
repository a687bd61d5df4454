-- ===== src/Sleeves/Effects.antt =====
-- What a write changes of the book, and what it leaves.
use investwise_pro.Prelude.{
  ◌≡◌, refl, Bool, true, false, Option, none, some, String, List, [], ◌∷◌, ◌++◌, arith, str_eq,
  eq_iff, Option-cases, Bool-cases, inl, inr, ◌⊎◌, ap,
}
use investwise_pro.Float.{Float}
use investwise_pro.Sleeves.Book.{
  PlanSleeve, is_sleeve, is_core_of, list_sleeves, get_core, core_strategy_id, first, find,
  is_unique,
}
use investwise_pro.Sleeves.Rules.{validate, validate_core}
use investwise_pro.Sleeves.Writes.{
  Reply, done, refused, integrity_error, Placed, Refusal, set_first, flush, is_sleeve_for, place,
  add_or_resize,
}
use investwise_pro.Sleeves.Core.{CoreSet, set_core, write_core}
use investwise_pro.Sleeves.Steps.{Catalogs}
use investwise_pro.Sleeves.Rows.{filter-append_ne, filter-set_first_ne}

-- The handler answered with `ok` true.
abbrev pub is_done : {A R : Type 0} → Reply A R → Bool
is_done (done _) = true
is_done (refused _) = false
is_done integrity_error = false

module _ {F : Type 0} where
  flush_else :
      {A : Type 0} (R : Type 0) (before after : List (PlanSleeve F))
      (reply : List (PlanSleeve F) → A)
      → ((is_done (flush {R = R} before after reply).0 ≡ true)
          × ((flush {R = R} before after reply).1 ≡ after))
        ⊎ ((is_done (flush {R = R} before after reply).0 ≡ false)
            × ((flush {R = R} before after reply).1 ≡ before))
  unfolding flush
  flush_else R before after reply = ground arith

  get_core-set_first :
      (email sid : String) (pct : F) (row : PlanSleeve F) (rows : List (PlanSleeve F))
      → get_core email rows ≡ some row
      → core_strategy_id email (
          set_first (is_core_of email) (λ r. record r { strategy_id = sid; sleeve_pct = pct }) rows)
        ≡ some sid
  unfolding core_strategy_id get_core
  get_core-set_first email sid pct row [] h = cc
  get_core-set_first email sid pct row (r ∷ rows) h =
      ground (arith, get_core-set_first email sid pct row rows)

  get_core-append :
      (email : String) (new : PlanSleeve F) (rows : List (PlanSleeve F))
      → get_core email rows ≡ none
      → is_core_of email new ≡ true
      → core_strategy_id email (rows ++ (new ∷ [])) ≡ some new.strategy_id
  unfolding core_strategy_id get_core
  get_core-append email new [] h k = ground arith
  get_core-append email new (r ∷ rows) h k = ground (arith, get_core-append email new rows)

module _ {F : Type 0} ⦃num : Float F⦄ where
  core-write_core :
      (email sid : String) (rows : List (PlanSleeve F))
      → core_strategy_id email (write_core email sid (get_core email rows) rows) ≡ some sid
  unfolding write_core
  core-write_core email sid rows = elim (Option-cases (get_core email rows)) [
    | inl missing ↦ rw missing (
        get_core-append email
          (record { subject = email; strategy_id = sid; sleeve_pct = num.dec 0 1; is_core = true })
          rows missing (ground (arith, eq_iff email email)))
    | inr (row, found) ↦ rw found (get_core-set_first email sid (num.dec 0 1) row rows found)
  ]

  no_sleeve :
      (e email sid : String) (rows : List (PlanSleeve F))
      → list_sleeves e (write_core email sid (get_core email rows) rows) ≡ list_sleeves e rows
  unfolding write_core list_sleeves
  no_sleeve e email sid rows = elim (Option-cases (get_core email rows)) [
    | inl missing ↦ rw missing (filter-append_ne (is_sleeve e) _ rows (ground arith))
    | inr (row, found) ↦ rw found (
        filter-set_first_ne (is_sleeve e) (is_core_of email) _ rows
          (λ r q. (ground arith, ground arith)))
  ]

  chosen :
      (k : Catalogs F) (email sid : String) (rows : List (PlanSleeve F))
      (reply : List (PlanSleeve F) → CoreSet)
      → is_done (flush {R = String} rows (write_core email sid (get_core email rows) rows) reply).0
        ≡ true
      → let after =
          (flush {R = String} rows (write_core email sid (get_core email rows) rows) reply).1 in
        (core_strategy_id email after ≡ some sid)
        × ((e : String) → list_sleeves e after ≡ list_sleeves e rows)
  chosen k email sid rows reply h =
      elim (flush_else String rows (write_core email sid (get_core email rows) rows) reply) [
        | inl (ok, kept) ↦ rw kept (core-write_core email sid rows, λ e. no_sleeve e email sid rows)
        | inr (failed, kept) ↦ absurd (ground (arith, failed, h))
      ]

  -- A core strategy that is accepted is the core from then on, and no sleeve of any subject changes.
  pub set_core_lem :
      (k : Catalogs F) (email sid : String) (rows : List (PlanSleeve F))
      → is_done (set_core k.strip k.is_rule k.is_static email sid rows).0 ≡ true
      → let after = (set_core k.strip k.is_rule k.is_static email sid rows).1 in
        (core_strategy_id email after ≡ some sid)
        × ((e : String) → list_sleeves e after ≡ list_sleeves e rows)
  unfolding set_core
  set_core_lem k email sid rows h =
      elim (Option-cases (validate_core k.strip k.is_rule k.is_static sid)) [
        | inr (why, refuses) ↦ absurd (ground (arith, refuses))
        | inl fits ↦
            let after = write_core email sid (get_core email rows) rows in
            rw (set_core, fits) (chosen k email sid rows _ (rw (set_core, fits) at h))
      ]

  abbrev Leaves :
      String → List (PlanSleeve F) → Reply (Placed F) (Refusal F) × List (PlanSleeve F) → Type 0
  Leaves email rows (reply, after) =
      ((is_done reply ≡ true) ⊎ (after ≡ rows))
      × ((e : String) → get_core e after ≡ get_core e rows)
      × ((e : String) → str_eq email e ≡ false → list_sleeves e after ≡ list_sleeves e rows)

  flush-Leaves :
      (email : String) (rows after : List (PlanSleeve F)) (reply : List (PlanSleeve F) → Placed F)
      → ((e : String) → get_core e after ≡ get_core e rows)
      → ((e : String) → str_eq email e ≡ false → list_sleeves e after ≡ list_sleeves e rows)
      → Leaves email rows (flush rows after reply)
  unfolding flush
  flush-Leaves email rows after reply cores sleeves = elim (Bool-cases (is_unique after)) [
    | inl unique ↦ rw (flush, unique) (inl refl, cores, sleeves)
    | inr double ↦ rw (flush, double) (inr refl, λ e. refl, λ e h. refl)
  ]

  place_lem :
      (email sid : String) (pct : F) (row : Option (PlanSleeve F)) (rows : List (PlanSleeve F))
      → Leaves email rows (place email sid pct row rows)
  unfolding place get_core list_sleeves
  place_lem email sid pct none rows =
      flush-Leaves email rows _ _
        (λ e. unfold get_core in ap first (filter-append_ne (is_core_of e) _ rows (ground arith)))
        (λ e h. unfold list_sleeves in filter-append_ne (is_sleeve e) _ rows (ground (arith, h)))
  place_lem email sid pct (some row) rows =
      flush-Leaves email rows _ _
        (λ e.
          unfold get_core in
          ap first (
            filter-set_first_ne (is_core_of e) (is_sleeve_for email sid) _ rows
              (λ r q. (ground arith, ground arith))))
        (λ e h.
          unfold list_sleeves in
          filter-set_first_ne (is_sleeve e) (is_sleeve_for email sid) _ rows (λ r q.
            (ground (arith, h, eq_iff r.subject email), ground (arith, h, eq_iff r.subject email))))

  -- An addition or a resizing that is not answered with ok leaves the table as it is; one that is
  -- answered so leaves the core of every subject and the sleeves of every other subject.
  pub add_or_resize_lem :
      (strip : String → String) (email sid : String) (pct : F) (rows : List (PlanSleeve F))
      → let (reply, after) = add_or_resize strip email sid pct rows in
        ((is_done reply ≡ true) ⊎ (after ≡ rows))
        × ((e : String) → get_core e after ≡ get_core e rows)
        × ((e : String) → str_eq email e ≡ false → list_sleeves e after ≡ list_sleeves e rows)
  unfolding add_or_resize
  add_or_resize_lem strip email sid pct rows =
      elim (Option-cases (validate strip (list_sleeves email rows) sid pct true)) [
        | inr (why, refuses) ↦ rw (add_or_resize, refuses) (inr refl, λ e. refl, λ e h. refl)
        | inl fits ↦
            rw (add_or_resize, fits)
              (place_lem email sid pct (find sid (list_sleeves email rows)) rows)
      ]
