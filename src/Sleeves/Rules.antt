-- ===== src/Sleeves/Rules.antt =====
-- `validate` and `validate_core` of app/services/sleeve_service.py: a reason to refuse, or none.
use investwise_pro.Prelude.{
  Bool, not, ◌&&◌, Option, none, some, String, List, [], ◌∷◌, any, filter, str_eq, fstring,
  if◌then◌else◌,
}
use investwise_pro.Float.{Float, max}
use investwise_pro.Sleeves.Book.{PlanSleeve, book_pct, total_pct}

module _ {F : Type 0} ⦃num : Float F⦄ (strip : String → String) where
  open num use {dec, add, sub, le, lt, format}

  -- `[s for s in sleeves if not (replacing and s.strategy_id == sid)]`
  abbrev pub others : List (PlanSleeve F) → String → Bool → List (PlanSleeve F)
  others sleeves sid replacing = filter (λ s. not (replacing && str_eq s.strategy_id sid)) sleeves

  -- the size is a number by its type
  unfoldable pub validate : List (PlanSleeve F) → String → F → Bool → Option String
  validate sleeves strategy_id pct replacing =
      let sid = strip strategy_id in
      let rest = total_pct (others sleeves sid replacing) in
      let free = sub book_pct rest in
      if le pct (dec 0 0)
      then some "a sleeve has to be worth something — 0% is a removal, not a size"
      else if lt book_pct pct
      then some (
          fstring
            ("a sleeve cannot be more than the whole book (" ∷ format "g" book_pct ∷ "%)" ∷ []))
      else if str_eq sid ""
      then some "a sleeve needs a strategy"
      else if not replacing && any (λ s. str_eq s.strategy_id sid) sleeves
      then some (
          fstring (
            sid ∷ " is already a sleeve on this book — change its size instead of adding it twice"
            ∷ []))
      else if lt (add free (dec 5 2)) pct
      then some (
          fstring (
            "that would allocate "
            ∷ format "g" (add rest pct)
            ∷ "% of the book. There is "
            ∷ format "g" (max (dec 0 1) free)
            ∷ "% left after the sleeves you already run — lower this one, or shrink another first"
            ∷ []))
      else none

-- `is_rule` and `is_static` tell what the two catalogs know.
unfoldable pub validate_core :
    (String → String) → (String → Bool) → (String → Bool) → String → Option String
validate_core strip is_rule is_static strategy_id =
    let sid = strip strategy_id in
    if str_eq sid ""
    then some "a core needs a strategy"
    else if is_rule sid
    then some (
        fstring (
          sid
          ∷ " is a rule-based sleeve, not a core. It governs a share of the book on a signal; a core is the whole-book mix the rest is managed to. Add it as a sleeve instead"
          ∷ []))
    else if not (is_static sid)
    then some (fstring ("'" ∷ sid ∷ "' is not a strategy this app knows" ∷ []))
    else none
