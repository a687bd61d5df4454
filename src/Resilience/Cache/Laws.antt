-- ===== src/Resilience/Cache/Laws.antt =====
-- What a lookup sees after a write.
use investwise_pro.Prelude.{
  ◌≡◌, false, none, some, String, arith, lookup-insert, lookup-erase, str_eq, eq_iff, if◌then◌else◌,
}
use investwise_pro.Float.{Float}
use investwise_pro.Resilience.Cache.{TtlCache, get, set}

module _ {F V : Type 0} ⦃num : Float F⦄ where
  open num use {add, le}

  pub get-set_self :
      (t now : F) (k : String) (v : V) (c : TtlCache F V)
      → (get now k (set t k v c)).0 ≡ (if le (add t c.ttl) now then none else some v)
  unfolding get set
  get-set_self t now k v c = ground (arith, lookup-insert k k (v, add t c.ttl) c.store, eq_iff k k)

  pub get-set_ne :
      (t now : F) (k j : String) (v : V) (c : TtlCache F V)
      → str_eq k j ≡ false
      → (get now j (set t k v c)).0 ≡ (get now j c).0
  unfolding get set
  get-set_ne t now k j v c h = ground (arith, lookup-insert k j (v, add t c.ttl) c.store)

  -- After a write, a read of the same key finds the value until its time to live has passed and
  -- nothing from then on, and a read of any other key finds what it found before.
  pub get-set :
      (t now : F) (k j : String) (v : V) (c : TtlCache F V)
      → (get now j (set t k v c)).0
        ≡ (if str_eq k j then if le (add t c.ttl) now then none else some v else (get now j c).0)
  unfolding get set
  get-set t now k j v c =
      ground (arith, lookup-insert k j (v, add t c.ttl) c.store, eq_iff k j, eq_iff j k)

  -- A read drops at most the entry of its own key, and only an expired one.
  pub get-get :
      (t now : F) (k j : String) (c : TtlCache F V)
      → str_eq k j ≡ false
      → (get now j (get t k c).1).0 ≡ (get now j c).0
  unfolding get
  get-get t now k j c h = ground (arith, lookup-erase k j c.store)
