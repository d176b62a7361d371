-- ===== src/Simulation/Serving.antt =====
-- The handlers of src/sim.cc against the relations of the schedule.
use verilog_behavioral_simul.Base.{
  ◌+◌, arith, Bool, List, Option, [], false, none, refl, some, suc, sym, true, zero, ℕ, ◌∙◌, ◌∷◌,
  ◌≡◌,
}
use verilog_behavioral_simul.EventQueue
use verilog_behavioral_simul.EventQueue.{
  Event, Queue, Region, drain, handle_events, in_active, in_inactive, in_monitor, in_nonblocking,
  move_out, move_strobe, next_region, region_list,
}
use verilog_behavioral_simul.Simulation.{
  Session, Status, exhausted, failed, running, trigger_postproc,
}
use verilog_behavioral_simul.Simulation.Handlers.{
  after_statement, eqhandler, go_on, put_queue, put_queued, queue_of, same, serve_statement,
  trigger_queue, while_running,
}
use verilog_behavioral_simul.Simulation.Schedule.{
  IsDrained, IsFirst, QueueRun, Served, ServedAll, all_served, at_end, next_event, region, strobes,
  waiting,
}
use verilog_behavioral_simul.Statement.{Engine, Outcome, done, fault, spent}
use verilog_behavioral_simul.Statement.Interface.{Call}

-- A session that has failed, or has used up its fuel, is not running.
pub not_failed : (c : Status) → c ≡ failed → ¬ (c ≡ running)
not_failed c e r = let d : running ≡ failed = sym r ∙ e in cc

pub not_exhausted : (c : Status) → c ≡ exhausted → ¬ (c ≡ running)
not_exhausted c e r = let d : running ≡ exhausted = sym r ∙ e in cc

-- The tests of `trigger` find the first region.
next_region-IsFirst : (r : Region) (q : Queue) → next_region q ≡ some r → IsFirst r q
unfolding next_region
next_region-IsFirst in_active q e = ground arith
next_region-IsFirst in_inactive q e = ground arith
next_region-IsFirst in_nonblocking q e = ground arith
next_region-IsFirst in_monitor q e = ground arith

next_region-IsDrained : (q : Queue) → next_region q ≡ none → IsDrained q
unfolding next_region
next_region-IsDrained q e = ground arith

module _ {X L S : Type 0} (call : Call X L S) where
  -- What is known of a session that a handler leaves running.
  abbrev pub WasServed :
      ℕ → (Session X L S → Session X L S) → Session X L S → Session X L S → Type 0
  WasServed st pop s s' = s'.status ≡ running → (s.status ≡ running) × Served call st pop s s'

  at_end-Served :
      (st : ℕ) (pop : Session X L S → Session X L S) (s : Session X L S) (m : Engine X L S)
      (o : Outcome (Engine X L S))
      → call st st s.engine ≡ done (true, m)
      → trigger_postproc st (pop (record s { engine = m })).engine ≡ o
      → (go_on (pop (record s { engine = m })) o).status ≡ running
      → Served call st pop s (go_on (pop (record s { engine = m })) o)
  at_end-Served st pop s m (done m') e q r = at_end m m' e q
  at_end-Served st pop s m fault e q r = absurd (not_failed failed refl r)
  at_end-Served st pop s m spent e q r = absurd (not_exhausted exhausted refl r)

  after_statement-Served :
      (st : ℕ) (pop : Session X L S → Session X L S) (s : Session X L S)
      (o : Outcome (Bool × Engine X L S))
      → call st st s.engine ≡ o
      → (after_statement st pop s o).status ≡ running
      → Served call st pop s (after_statement st pop s o)
  unfolding after_statement
  after_statement-Served st pop s (done (false, m)) e r = waiting m e
  after_statement-Served st pop s (done (true, m)) e r =
      at_end-Served st pop s m (trigger_postproc st (pop (record s { engine = m })).engine) e refl r
  after_statement-Served st pop s fault e r = absurd (not_failed failed refl r)
  after_statement-Served st pop s spent e r = absurd (not_exhausted exhausted refl r)

  pub serve_statement-Served :
      (st : ℕ) (pop : Session X L S → Session X L S) (s : Session X L S)
      → WasServed st pop s (serve_statement call st pop s)
  unfolding serve_statement
  serve_statement-Served st pop s = go s.status refl
    where
      go :
          (c : Status)
          → s.status ≡ c
          → WasServed st pop s
              (while_running c (λ t. after_statement st pop t (call st st t.engine)) s)
      go running q r = (q, after_statement-Served st pop s (call st st s.engine) refl r)
      go failed q r = absurd (not_failed s.status q r)
      go exhausted q r = absurd (not_exhausted s.status q r)

  -- The queue that a handler works on is the one of its session.
  abbrev pub whole : Queue × Session X L S → Session X L S
  whole st = put_queue st.0 st.1

  eqhandler-Served :
      (c : ℕ) (q : Queue) (s : Session X L S)
      → (eqhandler call c (q, s)).1.status ≡ running
      → (s.status ≡ running)
        × Served call
            (s.engine.shared.containers c).object
            same
            (put_queue q s)
            (whole (eqhandler call c (q, s)))
  unfolding eqhandler
  eqhandler-Served c q s r =
      serve_statement-Served (s.engine.shared.containers c).object same (put_queue q s) r

  handle_events-Served :
      (evs : List Event) (q : Queue) (s : Session X L S)
      → (handle_events (eqhandler call) evs (q, s)).1.status ≡ running
      → (s.status ≡ running)
        × ServedAll call evs (put_queue q s) (whole (handle_events (eqhandler call) evs (q, s)))
  unfolding handle_events
  handle_events-Served [] q s r = (r, all_served)
  handle_events-Served (ev ∷ evs) q s r =
      let (q', s') = eqhandler call ev.container (q, s) in
      let counted = record q' { triggered_events = q'.triggered_events + 1 } in
      let (r', rest) = handle_events-Served evs counted s' r in
      let (r'', first) = eqhandler-Served ev.container q s r' in (r'', next_event first rest)

  -- The loop of `trigger`, up to the strobe events: a run from where it ends is one from where it
  -- starts.
  abbrev pub Continues : Session X L S → Option (Queue × Session X L S) → Type 0
  Continues s none = Unit
  Continues s (some (q', s')) =
      s'.status ≡ running
      → (t : Session X L S) → (IsDrained q' → QueueRun call (put_queue q' s') t)
      → (s.status ≡ running) × QueueRun call s t

  Continues-region :
      (r : Region) (q : Queue) (s : Session X L S) (o : Option (Queue × Session X L S))
      → IsFirst r q
      → Continues (whole (handle_events (eqhandler call) (region_list r q) (move_out r q, s))) o
      → Continues (put_queue q s) o
  Continues-region r q s none first c = tt
  Continues-region r q s (some (q', s')) first c = λ running t k.
      let (r1, run) = c running t k in
      let (r2, all) = handle_events-Served (region_list r q) (move_out r q) s r1 in
      (r2, region r first all run)

  drain-Continues :
      (fuel : ℕ) (q : Queue) (s : Session X L S)
      → Continues (put_queue q s) (drain (eqhandler call) fuel (q, s))
  unfolding drain
  drain-Continues zero q s = tt
  drain-Continues (suc fuel) q s = go (drain-Continues fuel) (next_region q) refl
    where
      go :
          ((q : Queue) (s : Session X L S)
            → Continues (put_queue q s) (drain (eqhandler call) fuel (q, s)))
          → (o : Option Region) → next_region q ≡ o
          → Continues (put_queue q s) (elim o as (λ _. Option (Queue × Session X L S)) [
            | none ↦ some (q, s)
            | some r ↦
                drain
                  (eqhandler call)
                  fuel
                  (handle_events (eqhandler call) (region_list r q) (move_out r q, s))
          ])
      go ih none e = λ running t k. (running, k (next_region-IsDrained q e))
      go ih (some r) e =
          let st = handle_events (eqhandler call) (region_list r q) (move_out r q, s) in
          Continues-region r q s (drain (eqhandler call) fuel st) (next_region-IsFirst r q e)
            (ih st.0 st.1)

  -- The session after `trigger`, from the outcome of its loop.
  abbrev triggered : Session X L S → Option (Queue × Session X L S) → Session X L S
  triggered s o = put_queued call s (elim o as (λ _. Option (Queue × Session X L S)) [
    | none ↦ none
    | some (q, s) ↦ some (handle_events (eqhandler call) q.strobe_list (move_strobe q, s))
  ])

  -- A trigger of the queue that leaves the session running is a run of the queue.
  pub trigger_queue-QueueRun :
      (fuel : ℕ) (s : Session X L S)
      → (trigger_queue call fuel s).status ≡ running
      → QueueRun call s (trigger_queue call fuel s)
  unfolding trigger_queue EventQueue.trigger
  trigger_queue-QueueRun fuel s =
      go (drain (eqhandler call) fuel (queue_of s, s)) (drain-Continues fuel (queue_of s) s)
    where
      go :
          (o : Option (Queue × Session X L S))
          → Continues s o
          → (triggered s o).status ≡ running
          → QueueRun call s (triggered s o)
      go none c r = absurd (not_exhausted exhausted refl r)
      go (some (q', s')) c r =
          let (r', all) = handle_events-Served q'.strobe_list (move_strobe q') s' r in
          (c r' (whole (handle_events (eqhandler call) q'.strobe_list (move_strobe q', s')))
            (λ drained. strobes drained all)).1
