-- ===== src/Sleeves/Tests.antt =====
-- Sleeves and cores on concrete books.
use investwise_pro.Prelude.{
  ℕ, ◌*◌, ◌≡◌, refl, ◌⊎◌, true, false, Option, none, some, String, List, [], ◌∷◌, ◌++◌, str_eq,
  length, map, arith, if◌then◌else◌, ◌||◌,
}
use investwise_pro.Prelude.Int.{pos, ◌+ℤ◌, ◌-ℤ◌}
use investwise_pro.Float.Fixed.{Fixed, fixed_float, round_fixed}
use investwise_pro.Sleeves.Book.{
  PlanSleeve, list_sleeves, get_core, core_strategy_id, is_unique, total_pct, sum_pct,
  remainder_pct,
}
use investwise_pro.Sleeves.Rules.{validate, validate_core}
use investwise_pro.Sleeves.Writes.{Reply, Placed, Refusal, flush, place, placed, add_or_resize}
use investwise_pro.Sleeves.Core.{CoreSet, set_core, write_core}
use investwise_pro.Sleeves.Backfill.{
  PlanRow, Tables, already, commit_error, created, fill, fill_core, core_subjects, commit,
  backfill_once, backfill_core_once,
}
use investwise_pro.Sleeves.Steps.{Write, put, drop, choose, forget, fill_cores, Catalogs, write_all}
use investwise_pro.Sleeves.Cores.{core_count, IsSingular, write_all-IsSingular}
use investwise_pro.Sleeves.Effects.{is_done, set_core_lem, add_or_resize_lem}
use investwise_pro.Sleeves.Once.{key_of, backfill_once_lem}

abbrev pct : ℕ → Fixed
pct n = pos (n * 1_000_000)

-- Strips one space on the left, which is enough for the ids used here.
abbrev unspaced : String → String
unspaced s = if str_eq s " btm_trend" then "btm_trend" else s

abbrev catalogs : Catalogs Fixed
catalogs = record {
  strip = unspaced;
  is_rule = str_eq "btm_trend";
  is_static = λ s. str_eq s "all_weather" || str_eq s "sixty_forty";
  suggested = λ s. if str_eq s "btm_trend" then some (pct 20) else none;
}

abbrev sleeve : String → String → ℕ → PlanSleeve Fixed
sleeve email sid n = record {
  subject = email;
  strategy_id = sid;
  sleeve_pct = pct n;
  is_core = false;
}

abbrev core : String → String → PlanSleeve Fixed
core email sid = record { subject = email; strategy_id = sid; sleeve_pct = pct 0; is_core = true }

abbrev book : List (PlanSleeve Fixed)
book = sleeve "ann" "btm_trend" 20 ∷ core "ann" "sixty_forty" ∷ sleeve "bob" "btm_trend" 40 ∷ []

abbrev plan : String → String → Option Fixed → PlanRow Fixed
plan email sid size = record { strategy = sid; strategy_sleeve_pct = size; email = email }

abbrev tables : List (PlanSleeve Fixed) → Tables Fixed
tables rows = record { sleeves = rows; settings = [] }

book-IsSingular : IsSingular book
unfolding core_count
book-IsSingular e = ground arith

abbrev writes : List (Write Fixed)
writes =
    choose "ann" "all_weather"
    ∷ choose "bob" "sixty_forty"
    ∷ put "ann" "btm_trend" (pct 90)
    ∷ fill_cores (plan "ann" "sixty_forty" none ∷ [])
    ∷ drop "bob" "btm_trend"
    ∷ forget "ann"
    ∷ []

write_all-IsSingular_example : IsSingular (write_all catalogs writes (tables book)).sleeves
write_all-IsSingular_example = write_all-IsSingular catalogs writes (tables book) book-IsSingular

abbrev chosen : Reply CoreSet String × List (PlanSleeve Fixed)
chosen = set_core unspaced (str_eq "btm_trend") catalogs.is_static "bob" "all_weather" book

set_core_lem_example :
    (core_strategy_id "bob" chosen.1 ≡ some "all_weather")
    × ((e : String) → list_sleeves e chosen.1 ≡ list_sleeves e book)
unfolding set_core validate_core flush is_unique write_core get_core
set_core_lem_example = set_core_lem catalogs "bob" "all_weather" book refl

abbrev put_ann : Reply (Placed Fixed) (Refusal Fixed) × List (PlanSleeve Fixed)
put_ann = add_or_resize unspaced "ann" "btm_trend" (pct 30) book

add_or_resize_lem_example :
    ((is_done put_ann.0 ≡ true) ⊎ (put_ann.1 ≡ book))
    × ((e : String) → get_core e put_ann.1 ≡ get_core e book)
    × ((e : String) → str_eq "ann" e ≡ false → list_sleeves e put_ann.1 ≡ list_sleeves e book)
add_or_resize_lem_example = add_or_resize_lem unspaced "ann" "btm_trend" (pct 30) book

abbrev plans : List (PlanRow Fixed)
plans =
    plan "cem" " btm_trend" none
    ∷ plan "ann" "btm_trend" (some (pct 15))
    ∷ plan "dan" "all_weather" none
    ∷ []

abbrev filled : List (PlanSleeve Fixed)
filled = fill unspaced catalogs.suggested plans (map key_of book)

backfill_once_lem_example :
    let after = (backfill_once unspaced catalogs.suggested plans (tables book)).1 in
    ((backfill_once unspaced catalogs.suggested plans (tables book)).0 ≡ created (length filled))
    × (after.sleeves ≡ book ++ filled)
    × (is_unique after.sleeves ≡ true)
    × (backfill_once unspaced catalogs.suggested [] after ≡ (already, after))
unfolding is_unique
backfill_once_lem_example =
    backfill_once_lem unspaced catalogs.suggested plans [] (tables book) refl refl

filled_once : filled ≡ sleeve "cem" "btm_trend" 20 ∷ []
unfolding fill
filled_once = refl

-- An id with a space before it passes the check of sizes as a resizing, and is written as a second row.
padded_twice :
    list_sleeves "ann" (add_or_resize unspaced "ann" " btm_trend" (pct 90) book).1
    ≡ sleeve "ann" "btm_trend" 20 ∷ sleeve "ann" " btm_trend" 90 ∷ []
unfolding add_or_resize validate place placed flush is_unique list_sleeves total_pct sum_pct
    remainder_pct ◌+ℤ◌ ◌-ℤ◌ round_fixed
padded_twice = refl

-- A plan with a static strategy and a size becomes a sleeve, and then stops the backfill of the cores.
abbrev static_plans : List (PlanRow Fixed)
static_plans = plan "eve" "all_weather" (some (pct 50)) ∷ plan "dan" "sixty_forty" none ∷ []

core_backfill_fails :
    (backfill_core_once unspaced catalogs.is_static static_plans
      (backfill_once unspaced catalogs.suggested static_plans (tables [])).1).0
    ≡ commit_error
unfolding backfill_core_once backfill_once fill fill_core core_subjects commit is_unique
core_backfill_fails = refl
