-- ===== src/Resilience/Flight/Wakes.antt =====
-- The ways on of a follower that waits in `call`.
use investwise_pro.Prelude.{ℕ, ◌≡◌, inl, inr, true, some, String, lookup, arith}
use investwise_pro.Resilience.Flight.{
  leading, waiting, releasing, released, woken, Flight, set_done, go, pop_done, Step, pop, set,
  wake, Reach, here, next,
}
use investwise_pro.Resilience.Flight.Safety.{start, start-IsSound, Reach-IsSound}

-- a follower of an event that is set
wake_set :
    (t : ℕ) (key : String) (e : ℕ) (s : Flight)
    → s.place t ≡ waiting key e
    → s.is_set e ≡ true
    → (u : Flight) × Reach s u × (u.place t ≡ woken key)
wake_set t key e s at on = (go t (woken key) s, next here (wake t key e at on), ground arith)

Reach-prepend : {s t u : Flight} → Step s t → Reach t u → Reach s u
Reach-prepend st here = next here st
Reach-prepend st (next r st') = next (Reach-prepend st r) st'

-- a follower of an event that thread `m` is about to set
wake_releasing :
    (t m : ℕ) (key : String) (e : ℕ) (s : Flight)
    → s.place t ≡ waiting key e
    → s.place m ≡ releasing (some e)
    → (u : Flight) × Reach s u × (u.place t ≡ woken key)
unfolding set_done
wake_releasing t m key e s at popped =
    let (u, r, woke) =
      wake_set t key e (go m released (set_done (some e) s)) (ground (arith, at, popped))
        (ground arith) in
    (u, Reach-prepend (set m (some e) popped) r, woke)

-- a follower of the event of a key in flight, whose leader is thread `m`
wake_leading :
    (t m : ℕ) (key : String) (e : ℕ) (s : Flight)
    → s.place t ≡ waiting key e
    → s.place m ≡ leading key e
    → lookup key s.inflight ≡ some e
    → (u : Flight) × Reach s u × (u.place t ≡ woken key)
unfolding pop_done
wake_leading t m key e s at leads mine =
    let (u, r, woke) =
      wake_releasing t m key e (pop_done m key s) (ground (arith, at, leads, mine))
        (ground (arith, mine)) in
    (u, Reach-prepend (pop m key e leads) r, woke)

-- From every state that an interleaving can reach, a follower that waits for its event can still be
-- woken: there are further steps after which it has left the wait.
pub follower_wakes :
    (keys : ℕ → String) (s : Flight)
    → Reach (start keys) s
    → (t : ℕ) (key : String) (e : ℕ) → s.place t ≡ waiting key e
    → (u : Flight) × Reach s u × (u.place t ≡ woken key)
follower_wakes keys s r t key e at =
    let v = Reach-IsSound (start-IsSound keys) r in
    elim (v.awaited t key e at).1 [
      | inl on ↦ wake_set t key e s at on
      | inr (inl mine) ↦ wake_leading t (s.maker e) key e s at (v.held key e mine).0 mine
      | inr (inr popped) ↦ wake_releasing t (s.maker e) key e s at popped
    ]
