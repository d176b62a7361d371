-- ===== src/Simulation/Scheduling.antt =====
-- The loop of `twhandler` in src/sim.cc against the schedule of a time unit.
use verilog_behavioral_simul.Base.{List, [], refl, subst, suc, sym, zero, ℕ, ◌∷◌, ◌≡◌}
use verilog_behavioral_simul.Simulation.{Session, Status, exhausted, failed, running}
use verilog_behavioral_simul.Simulation.Handlers.{
  pop_event, queue_if_empty, serve_statement, trigger_queue, unit_events, unit_loop, unit_turn,
  wheel_of, while_running,
}
use verilog_behavioral_simul.Simulation.Order.{
  Behind, InUnit, serve_statement-Behind, trigger_queue-InUnit,
}
use verilog_behavioral_simul.Simulation.Schedule.{
  Served, UnitRun, UnitRun-empty, emptied, over, served,
}
use verilog_behavioral_simul.Simulation.Serving.{
  not_exhausted, not_failed, serve_statement-Served, trigger_queue-QueueRun,
}
use verilog_behavioral_simul.Statement.{Engine}
use verilog_behavioral_simul.Statement.Interface.{Call}
use verilog_behavioral_simul.Statement.Schedules.{Ends, wheel, wheel_after}

module _ {X L S : Type 0} (call : Call X L S) (queue_fuel : ℕ)
    (schedules : (st : ℕ) (m : Engine X L S) → Ends wheel_after (wheel m) (call st st m)) where
  -- The session has run a unit, if it is still running.
  abbrev pub Scheduled : Session X L S → Session X L S → Type 0
  Scheduled s s' = s'.status ≡ running → UnitRun call s s'

  -- What comes behind is only reached while the session is running.
  while_running-Scheduled :
      (go_on : Session X L S → Session X L S) (s t : Session X L S) (c : Status)
      → t.status ≡ c
      → (t.status ≡ running → Scheduled s (go_on t))
      → Scheduled s (while_running c go_on t)
  while_running-Scheduled go_on s t running e k = k e
  while_running-Scheduled go_on s t failed e k = λ r. absurd (not_failed t.status e r)
  while_running-Scheduled go_on s t exhausted e k = λ r. absurd (not_exhausted t.status e r)

  -- After an event was served, with the events that the unit has then.
  queue_if_empty-Scheduled :
      (go_on : Session X L S → Session X L S) (s s' : Session X L S) (st : ℕ) (rest : List ℕ)
      → ((t : Session X L S) → InUnit (wheel_of t) → Scheduled t (go_on t))
      → unit_events s ≡ st ∷ rest
      → s' ≡ serve_statement call st pop_event s
      → Behind rest s'
      → s'.status ≡ running
      → (l : List ℕ) → unit_events s' ≡ l
      → Scheduled s (queue_if_empty call queue_fuel go_on l s')
  queue_if_empty-Scheduled go_on s s' st rest k first q behind r (e ∷ es) now = λ end.
      let (added, order, u) = behind r in
      let (r', serving) =
        serve_statement-Served call st pop_event s (subst (λ x. x.status ≡ running) q r) in
      served st e rest added es first (subst (λ x. Served call st pop_event s x) (sym q) serving)
        order now (k s' u end)
  queue_if_empty-Scheduled go_on s s' st rest k first q behind r [] now =
      let (added, order, u) = behind r in
      let (r', serving) =
        serve_statement-Served call st pop_event s (subst (λ x. x.status ≡ running) q r) in
      let s'' = trigger_queue call queue_fuel s' in
      while_running-Scheduled go_on s s'' s''.status refl (λ r'' end.
        emptied st rest added first (subst (λ x. Served call st pop_event s x) (sym q) serving)
          order now (trigger_queue-QueueRun call queue_fuel s' r'')
          (k s'' (trigger_queue-InUnit call schedules queue_fuel s' u) end))

  unit_turn-Scheduled :
      (go_on : Session X L S → Session X L S) (s : Session X L S)
      → ((t : Session X L S) → InUnit (wheel_of t) → Scheduled t (go_on t))
      → InUnit (wheel_of s)
      → (l : List ℕ) → unit_events s ≡ l
      → Scheduled s (unit_turn call queue_fuel go_on l s)
  unit_turn-Scheduled go_on s k u [] e = λ r. over e
  unit_turn-Scheduled go_on s k u (st ∷ rest) e =
      let s' = serve_statement call st pop_event s in
      while_running-Scheduled (λ t. queue_if_empty call queue_fuel go_on (unit_events t) t) s s'
        s'.status refl
        (λ r.
          queue_if_empty-Scheduled go_on s s' st rest k e refl
            (serve_statement-Behind call schedules st rest s e u) r (unit_events s') refl)

  unit_loop-UnitRun :
      (fuel : ℕ) (s : Session X L S)
      → InUnit (wheel_of s)
      → Scheduled s (unit_loop call queue_fuel fuel s)
  unfolding unit_loop
  unit_loop-UnitRun zero s u = λ r. absurd (not_exhausted exhausted refl r)
  unit_loop-UnitRun (suc fuel) s u =
      unit_turn-Scheduled (unit_loop call queue_fuel fuel) s (unit_loop-UnitRun fuel) u
        (unit_events s) refl

  -- When the statements that are triggered do nothing to the time wheel but add events, a time
  -- unit that ends with the simulation still running has gone by the schedule: the events of the
  -- unit are served in the order in which they came, those that are added stand behind the
  -- others; whenever an event that was served leaves the unit empty, and only then, the event
  -- queue is run, region by region, with the strobe events last; and the unit ends when it has no
  -- event after that.
  pub unit_loop-Scheduled :
      (fuel : ℕ) (s : Session X L S)
      → InUnit (wheel_of s)
      → (unit_loop call queue_fuel fuel s).status ≡ running
      → UnitRun call s (unit_loop call queue_fuel fuel s)
        × (unit_events (unit_loop call queue_fuel fuel s) ≡ [])
  unit_loop-Scheduled fuel s u r =
      let run = unit_loop-UnitRun fuel s u r in (run, UnitRun-empty call run)
