-- ===== src/Resilience/Cache.antt =====
-- `class TTLCache` of app/providers/resilience.py; `none` is the `_MISSING` mark.
pub mod Laws
use investwise_pro.Prelude.{Option, none, some, String, Dict, lookup, insert, erase, if◌then◌else◌}
use investwise_pro.Float.{Float}

pub record TtlCache (F V : Type 0) : Type 0 where
  pub ttl : F
  pub store : Dict (V × F)

module _ {F V : Type 0} ⦃num : Float F⦄ where
  open num use {add, le}

  -- what `get` does with the entry that it found
  unfoldable pub found : F → String → TtlCache F V → Option (V × F) → Option V × TtlCache F V
  found now key c none = (none, c)
  found now key c (some (value, expires)) =
      if le expires now then (none, record c { store = erase key c.store }) else (some value, c)

  unfoldable pub get : F → String → TtlCache F V → Option V × TtlCache F V
  unfolding found
  get now key c = found now key c (lookup key c.store)

  unfoldable pub set : F → String → V → TtlCache F V → TtlCache F V
  set now key value c = record c { store = insert key (value, add now c.ttl) c.store }
