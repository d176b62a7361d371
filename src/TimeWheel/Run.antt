-- ===== src/TimeWheel/Run.antt =====
-- The triggers of src/common/time_whl.h, and the simulation time.
use verilog_behavioral_simul.Base.{
  sym, subst, ap, ◌∙◌, ℕ, ◌≤◌, ◌≡◌, refl, arith, true, List, [], ◌∷◌,
}
use verilog_behavioral_simul.TimeWheel.{
  trigger_first, Node, Wheel, add_event, new_wheel, pop_node, trigger_node, trigger_once, advance,
}
use verilog_behavioral_simul.TimeWheel.Order.{
  After, IsSorted, StartsAt, add_loop-IsSorted, StartsAt-add_loop,
}

module _ {E : Type 0} where
  -- What a handler may do to a wheel while it works at the first unit: take events off that unit
  -- and add events at any time.
  pub data Works : Wheel E → Wheel E → Type 0 where
    stop : {w : Wheel E} → Works w w
    take :
        {w w' : Wheel E} (n : Node E) (ns : List (Node E)) (left : List E)
        → w.nodes ≡ n ∷ ns
        → Works (record w { nodes = record n { events = left } ∷ ns }) w'
        → Works w w'
    add : {w w' : Wheel E} (t : ℕ) (obj : E) → Works (add_event t obj w) w' → Works w w'

  pub Works-keeps :
      {w w' : Wheel E} (t : ℕ)
      → Works w w'
      → IsSorted w.nodes
      → StartsAt t w.nodes
      → IsSorted w'.nodes × StartsAt t w'.nodes × (w'.latest_time ≡ w.latest_time)
  unfolding add_event
  Works-keeps t stop s a = (s, a, refl)
  Works-keeps t (take {w = w} n ns left e rest) s a = Works-keeps t rest (rw e at s) (rw e at a)
  Works-keeps t (add {w = w} u obj rest) s a =
      Works-keeps t rest (add_loop-IsSorted u obj w.nodes s) (StartsAt-add_loop t u obj w.nodes a)

  abbrev pub NotBefore : ℕ → List (Node E) → Type 0
  NotBefore t [] = Unit
  NotBefore t (n ∷ ns) = t ≤ n.time

  -- The units are in order, and none lies before the latest time.
  abbrev pub IsValid : Wheel E → Type 0
  IsValid w = IsSorted w.nodes × NotBefore w.latest_time w.nodes

  pop_node-After :
      (t : ℕ) (ns : List (Node E))
      → IsSorted ns
      → StartsAt t ns
      → IsSorted (pop_node ns) × After t (pop_node ns)
  pop_node-After t [] s a = absurd a
  pop_node-After t (n ∷ []) s a = (tt, tt)
  pop_node-After t (n ∷ m ∷ ns) s a = (s.1, omega (arith, s.0))

  After-NotBefore : (t : ℕ) (ns : List (Node E)) → After t ns → NotBefore t ns
  After-NotBefore t [] a = tt
  After-NotBefore t (n ∷ ns) a = omega arith

pub new_wheel-IsValid : (E : Type 0) → IsValid (new_wheel {E = E})
unfolding new_wheel
new_wheel-IsValid E = ((tt, tt), omega arith)

module _ {E S : Type 0} (handler : ℕ → Wheel E × S → Wheel E × S) where
  trigger_node-advances :
      (n : Node E) (w : Wheel E) (s : S)
      → ((t : ℕ) (w : Wheel E) (s : S) → Works w (handler t (w, s)).0)
      → IsSorted w.nodes
      → StartsAt n.time w.nodes
      → w.latest_time ≤ n.time
      → let w' = (trigger_node handler n w s).0 in
        (w'.latest_time ≡ n.time) × IsSorted w'.nodes × After n.time w'.nodes
  unfolding trigger_node
  trigger_node-advances n w s works sorted starts late =
      let w1 : Wheel E = record w { latest_time = advance w.latest_time n.time } in
      let (sorted', starts', same) = Works-keeps n.time (works n.time w1 s) sorted starts in
      let (order, after) = pop_node-After n.time (handler n.time (w1, s)).0.nodes sorted' starts' in
      (same ∙ ground arith, order, after)

  -- With a handler that only takes events off the first unit and adds events, `trigger_once` on a
  -- valid wheel that has a unit returns true, sets the latest time to that unit's time, which is
  -- not earlier than it was, and leaves a valid wheel whose units are all later.
  pub trigger_once-advances :
      (n : Node E) (ns : List (Node E)) (w : Wheel E) (s : S)
      → ((t : ℕ) (w : Wheel E) (s : S) → Works w (handler t (w, s)).0)
      → w.nodes ≡ n ∷ ns
      → IsValid w
      → let (more, w', s') = trigger_once handler w s in
        (more ≡ true)
        × (w'.latest_time ≡ n.time)
        × (w.latest_time ≤ n.time)
        × IsValid w'
        × After n.time w'.nodes
  unfolding trigger_once
  trigger_once-advances n ns w s works e valid =
      let late : w.latest_time ≤ n.time = rw e at valid.1 in
      let (now, sorted, after) = trigger_node-advances n w s works valid.0 (rw e) late in
      let step = ap (λ l. trigger_first handler l w s) e in
      subst
        (λ r.
          (r.0 ≡ true)
          × (r.1.latest_time ≡ n.time)
          × (w.latest_time ≤ n.time)
          × IsValid r.1
          × After n.time r.1.nodes)
        (sym step) (refl, now, late, (sorted, rw now (After-NotBefore n.time _ after)), after)
