-- ===== src/Resilience/Flight.antt =====
-- The single-flight part of `class ResilienceTier` of app/providers/resilience.py under threads:
-- `_claim`, `_release` and the order of the steps of `call`. A block that holds the lock is one step;
-- `_release` sets the event after it has given the lock back, which is a step of its own.
pub mod Safety
pub mod Wakes
use Prim.Native.Nat.{◌+◌}
use investwise_pro.Prelude.{
  ℕ, ◌≡◌, Bool, true, false, Option, none, some, String, Dict, lookup, insert, erase, ◌==◌,
  if◌then◌else◌,
}

-- Where a thread stands in `call(key, fn)`: before the claim; in `_fetch` as the leader that made an
-- event; in `_release`, with the lock given back and `done` not yet set; after `_release`; in
-- `waiting.wait()`; after it; and returned.
pub data Place : Type 0 where
  entering : String → Place
  leading waiting : String → ℕ → Place
  releasing : Option ℕ → Place
  released : Place
  woken : String → Place
  returned : Place

-- `_inflight`; the flag of every event and the thread that made it; the next new event; the threads.
pub record Flight : Type 0 where
  pub inflight : Dict ℕ
  pub is_set : ℕ → Bool
  pub maker : ℕ → ℕ
  pub fresh : ℕ
  pub place : ℕ → Place

abbrev pub update {ℓ} : {A : Type ℓ} → (ℕ → A) → ℕ → A → ℕ → A
update f i a j = if j == i then a else f j

-- `_claim` by thread `t`: none for the leader, and otherwise the event to wait on
unfoldable pub claim : ℕ → String → Flight → Option ℕ × Flight
claim t key s = elim (lookup key s.inflight) [
  | some e ↦ (some e, s)
  | none ↦ (
    none,
    record s {
      inflight = insert key s.fresh s.inflight;
      is_set = update s.is_set s.fresh false;
      maker = update s.maker s.fresh t;
      fresh = s.fresh + 1;
    },
  )
]

-- the block of `_release` that holds the lock: `done`, and the key is free
unfoldable pub pop_claim : String → Flight → Option ℕ × Flight
pop_claim key s = elim (lookup key s.inflight) [
  | none ↦ (none, s)
  | some e ↦ (some e, record s { inflight = erase key s.inflight })
]

-- the end of `_release`, after that block
unfoldable pub set_done : Option ℕ → Flight → Flight
set_done none s = s
set_done (some e) s = record s { is_set = update s.is_set e true }

abbrev pub go : ℕ → Place → Flight → Flight
go t p s = record s { place = update s.place t p }

-- the place after a claim
abbrev pub claimed : String → ℕ → Option ℕ → Place
claimed key made none = leading key made
claimed key made (some e) = waiting key e

-- Thread `t` misses the cache and makes its claim.
unfoldable pub enter : ℕ → String → Flight → Flight
unfolding claim
enter t key s = let (o, s') = claim t key s in go t (claimed key s.fresh o) s'

-- Thread `t` leaves the locked block of `_release` with `done`.
unfoldable pub pop_done : ℕ → String → Flight → Flight
unfolding pop_claim
pop_done t key s = let (done, s') = pop_claim key s in go t (releasing done) s'

-- One step of one thread; the scheduler chooses.
pub data Step (s : Flight) : Flight → Type 0 where
  hit : (t : ℕ) (key : String) → s.place t ≡ entering key → Step s (go t returned s)
  miss : (t : ℕ) (key : String) → s.place t ≡ entering key → Step s (enter t key s)
  pop : (t : ℕ) (key : String) (e : ℕ) → s.place t ≡ leading key e → Step s (pop_done t key s)
  set :
      (t : ℕ) (done : Option ℕ)
      → s.place t ≡ releasing done
      → Step s (go t released (set_done done s))
  hand_back : (t : ℕ) → s.place t ≡ released → Step s (go t returned s)
  wake :
      (t : ℕ) (key : String) (e : ℕ)
      → s.place t ≡ waiting key e
      → s.is_set e ≡ true
      → Step s (go t (woken key) s)
  leave : (t : ℕ) (key : String) → s.place t ≡ woken key → Step s (go t returned s)

pub data Reach (s : Flight) : Flight → Type 0 where
  here : Reach s s
  next : {t u : Flight} → Reach s t → Step t u → Reach s u
