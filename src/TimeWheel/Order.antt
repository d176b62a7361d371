-- ===== src/TimeWheel/Order.antt =====
-- `add_event` of src/common/time_whl.h: the order of the time units, and the events of each time.
use verilog_behavioral_simul.Base.{
  ℕ, ◌==◌, ◌≤◌, ◌<◌, ◌≡◌, refl, arith, List, [], ◌∷◌, ◌++◌, if◌then◌else◌,
}
use verilog_behavioral_simul.TimeWheel.{Node, Wheel, add_loop, add_event}

module _ {E : Type 0} where
  -- The first unit, if there is one, lies after `t`.
  abbrev pub After : ℕ → List (Node E) → Type 0
  After t [] = Unit
  After t (n ∷ ns) = t < n.time

  -- Times strictly increase.
  abbrev pub IsSorted : List (Node E) → Type 0
  IsSorted [] = Unit
  IsSorted (n ∷ ns) = After n.time ns × IsSorted ns

  -- The events that a list of units holds for a time.
  abbrev pub events_at : ℕ → List (Node E) → List E
  events_at u [] = []
  events_at u (n ∷ ns) = if n.time == u then n.events else events_at u ns

  After-add_loop :
      (a t : ℕ) (obj : E) (ns : List (Node E)) → After a ns → After a (add_loop t obj ns)
  unfolding add_loop
  After-add_loop a t obj [] h = tt
  After-add_loop a t obj (n ∷ []) h = ground arith
  After-add_loop a t obj (n ∷ m ∷ ns) h = ground arith

  pub add_loop-IsSorted :
      (t : ℕ) (obj : E) (ns : List (Node E)) → IsSorted ns → IsSorted (add_loop t obj ns)
  unfolding add_loop
  add_loop-IsSorted t obj [] s = tt
  add_loop-IsSorted t obj (n ∷ []) s = ground arith
  add_loop-IsSorted t obj (n ∷ m ∷ ns) s =
      let rest = add_loop-IsSorted t obj (m ∷ ns) s.1 in
      let after = After-add_loop n.time t obj (m ∷ ns) s.0 in ground arith

  After-events_at : (u : ℕ) (ns : List (Node E)) → IsSorted ns → After u ns → events_at u ns ≡ []
  After-events_at u [] s a = refl
  After-events_at u (n ∷ []) s a = ground arith
  After-events_at u (n ∷ m ∷ ns) s a = ground (arith, After-events_at u (m ∷ ns) s.1)

  -- The wheel's units are in order, and the first one is that of time `t`.
  abbrev pub StartsAt : ℕ → List (Node E) → Type 0
  StartsAt t [] = ⊥
  StartsAt t (n ∷ ns) = n.time ≡ t

  pub StartsAt-add_loop :
      (a t : ℕ) (obj : E) (ns : List (Node E)) → StartsAt a ns → StartsAt a (add_loop t obj ns)
  unfolding add_loop
  StartsAt-add_loop a t obj [] h = h
  StartsAt-add_loop a t obj (n ∷ []) h = ground arith
  StartsAt-add_loop a t obj (n ∷ m ∷ ns) h = ground arith

  add_loop-events_at :
      (t u : ℕ) (obj : E) (n : Node E) (ns : List (Node E))
      → IsSorted (n ∷ ns)
      → n.time ≤ t
      → events_at u (add_loop t obj (n ∷ ns))
        ≡ (if t == u then events_at u (n ∷ ns) ++ obj ∷ [] else events_at u (n ∷ ns))
  unfolding add_loop
  add_loop-events_at t u obj n [] s h = ground arith
  add_loop-events_at t u obj n (m ∷ ns) s h =
      ground (arith, add_loop-events_at t u obj m ns s.1, After-events_at u (m ∷ ns) s.1)

  -- `add_event` keeps the units in order of strictly increasing time, whatever the time.
  pub add_event-IsSorted :
      (t : ℕ) (obj : E) (w : Wheel E) → IsSorted w.nodes → IsSorted (add_event t obj w).nodes
  unfolding add_event
  add_event-IsSorted t obj w s = add_loop-IsSorted t obj w.nodes s

  -- On units in order, of which the first is not later than `t`, `add_event` at `t` puts the event
  -- behind those that are there for `t`, makes the unit if there is none, and leaves the events of
  -- every other time as they are.
  pub add_event-events_at :
      (t u : ℕ) (obj : E) (n : Node E) (w : Wheel E) (ns : List (Node E))
      → w.nodes ≡ n ∷ ns
      → IsSorted w.nodes
      → n.time ≤ t
      → events_at u (add_event t obj w).nodes
        ≡ (if t == u then events_at u w.nodes ++ obj ∷ [] else events_at u w.nodes)
  unfolding add_event
  add_event-events_at t u obj n w ns e s h = rw e (add_loop-events_at t u obj n ns (rw e at s) h)
