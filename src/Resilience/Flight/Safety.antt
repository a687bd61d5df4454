-- ===== src/Resilience/Flight/Safety.antt =====
-- One leader for a key at a time, and no follower left waiting on an event that nobody will set.
use investwise_pro.Prelude.{
  ℕ, ◌<◌, ◌≡◌, ◌⊎◌, inl, inr, true, false, some, String, lookup, arith, lookup-insert, lookup-erase,
  eq_iff, Option, none, Option-cases, [],
}
use investwise_pro.Resilience.Flight.{
  Place, entering, leading, waiting, releasing, released, woken, returned, Flight, set_done, go,
  enter, pop_done, Step, hit, miss, pop, set, hand_back, wake, leave, Reach, here, next,
}

pub record IsSound (s : Flight) : Type 0 where
  -- a leader's event is the one of its key, and the leader made it
  pub led :
      (t : ℕ) (key : String) (e : ℕ)
      → s.place t ≡ leading key e
      → (lookup key s.inflight ≡ some e) × (s.maker e ≡ t)
  -- the event of a key was made by a thread that still leads
  pub held :
      (key : String) (e : ℕ)
      → lookup key s.inflight ≡ some e
      → (s.place (s.maker e) ≡ leading key e) × (e < s.fresh)
  -- a follower's event is set, or still the one of its key, or about to be set by its maker
  pub awaited :
      (t : ℕ) (key : String) (e : ℕ)
      → s.place t ≡ waiting key e
      → (e < s.fresh)
        × ((s.is_set e ≡ true)
            ⊎ ((lookup key s.inflight ≡ some e) ⊎ (s.place (s.maker e) ≡ releasing (some e))))

-- A step that only moves a thread: from a place that neither leads nor has an event to set, to one
-- that neither leads nor waits.
abbrev Idle : Place → Type 0
Idle (leading _ _) = ⊥
Idle (waiting _ _) = ⊥
Idle _ = Unit

abbrev IsFree : Place → Type 0
IsFree (leading _ _) = ⊥
IsFree (releasing _) = ⊥
IsFree _ = Unit

go-IsSound :
    (t : ℕ) (p : Place) (s : Flight) → Idle p → IsFree (s.place t) → IsSound s → IsSound (go t p s)
go-IsSound t p s idle out v = record {
  led = λ u key e h. ground (arith, v.led u key e);
  held = λ key e h. ground (arith, v.held key e h);
  awaited = λ u key e h. ground (arith, v.awaited u key e);
}

-- The claim makes a leader where the key is free, and a follower of its event where it is not.
enter-IsSound :
    (t : ℕ) (key : String) (s : Flight)
    → s.place t ≡ entering key
    → IsSound s
    → IsSound (enter t key s)
unfolding enter
enter-IsSound t key s at v = elim (Option-cases (lookup key s.inflight)) [
  | inl free ↦ record {
    led = λ u k e h. ground (
      arith,
      free,
      v.led u k e,
      v.held k e,
      lookup-insert key k s.fresh s.inflight,
      eq_iff key k,
    );
    held = λ k e h.
        ground (arith, free, v.held k e, lookup-insert key k s.fresh s.inflight, eq_iff key k);
    awaited = λ u k e h.
        ground (arith, free, v.awaited u k e, lookup-insert key k s.fresh s.inflight, eq_iff key k);
  }
  | inr (e₀, taken) ↦ record {
    led = λ u k e h. ground (arith, taken, v.led u k e);
    held = λ k e h. ground (arith, taken, v.held k e);
    awaited = λ u k e h. ground (arith, taken, v.awaited u k e, v.held key e₀ taken);
  }
]

-- The locked block frees the key, and leaves the event to its maker.
pop_done-IsSound :
    (t : ℕ) (key : String) (e₀ : ℕ) (s : Flight)
    → s.place t ≡ leading key e₀
    → IsSound s
    → IsSound (pop_done t key s)
unfolding pop_done
pop_done-IsSound t key e₀ s at v =
    let (mine, made) = v.led t key e₀ at in
    record {
      led = λ u k e h.
          ground (arith, mine, made, v.led u k e, lookup-erase key k s.inflight, eq_iff key k);
      held = λ k e h.
          ground (arith, mine, made, v.held k e, lookup-erase key k s.inflight, eq_iff key k);
      awaited = λ u k e h.
          ground (arith, mine, made, v.awaited u k e, lookup-erase key k s.inflight, eq_iff key k);
    }

-- Another leader may have claimed the key by now; the event that is set is still the popped one.
set_done-IsSound :
    (t : ℕ) (done : Option ℕ) (s : Flight)
    → s.place t ≡ releasing done
    → IsSound s
    → IsSound (go t released (set_done done s))
unfolding set_done
set_done-IsSound t none s at v = record {
  led = λ u k e h. ground (arith, v.led u k e);
  held = λ k e h. ground (arith, v.held k e);
  awaited = λ u k e h. ground (arith, v.awaited u k e);
}
set_done-IsSound t (some d) s at v = record {
  led = λ u k e h. ground (arith, v.led u k e);
  held = λ k e h. ground (arith, v.held k e);
  awaited = λ u k e h. ground (arith, v.awaited u k e);
}

Step-IsSound : {s t : Flight} → Step s t → IsSound s → IsSound t
Step-IsSound {s} (hit t key at) v = go-IsSound t returned s tt (ground (arith, at)) v
Step-IsSound {s} (miss t key at) v = enter-IsSound t key s at v
Step-IsSound {s} (pop t key e at) v = pop_done-IsSound t key e s at v
Step-IsSound {s} (set t done at) v = set_done-IsSound t done s at v
Step-IsSound {s} (hand_back t at) v = go-IsSound t returned s tt (ground (arith, at)) v
Step-IsSound {s} (wake t key e at _) v = go-IsSound t (woken key) s tt (ground (arith, at)) v
Step-IsSound {s} (leave t key at) v = go-IsSound t returned s tt (ground (arith, at)) v

pub Reach-IsSound : {s t : Flight} → IsSound s → Reach s t → IsSound t
Reach-IsSound v here = v
Reach-IsSound v (next r st) = Step-IsSound st (Reach-IsSound v r)

-- Every thread is about to call `call` with its key, and nothing is in flight.
abbrev pub start : (ℕ → String) → Flight
start keys = record {
  inflight = [];
  is_set = λ _. false;
  maker = λ _. 0;
  fresh = 0;
  place = λ t. entering (keys t);
}

pub start-IsSound : (keys : ℕ → String) → IsSound (start keys)
start-IsSound keys = record {
  led = λ t k e h. ground arith;
  held = λ k e h. ground arith;
  awaited = λ t k e h. ground arith;
}

-- In every interleaving, two threads that lead the fetch of the same key are the same thread.
pub one_leader :
    (keys : ℕ → String) (s : Flight)
    → Reach (start keys) s
    → (t u : ℕ) (key : String) (d e : ℕ) → s.place t ≡ leading key d
    → s.place u ≡ leading key e
    → t ≡ u
one_leader keys s r t u key d e h k =
    let v = Reach-IsSound (start-IsSound keys) r in ground (arith, v.led t key d h, v.led u key e k)

-- In every interleaving, a follower's event is set, so that it can go on, or the thread that made
-- that very event still leads with it, or is in `_release` between the locked block and the call
-- that sets it.
pub no_lost_wakeup :
    (keys : ℕ → String) (s : Flight)
    → Reach (start keys) s
    → (t : ℕ) (key : String) (e : ℕ) → s.place t ≡ waiting key e
    → (s.is_set e ≡ true)
      ⊎ ((s.place (s.maker e) ≡ leading key e) ⊎ (s.place (s.maker e) ≡ releasing (some e)))
no_lost_wakeup keys s r t key e h =
    let v = Reach-IsSound (start-IsSound keys) r in
    ground (arith, v.awaited t key e h, v.held key e)
