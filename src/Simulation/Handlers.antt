-- ===== src/Simulation/Handlers.antt =====
-- The handlers of src/sim.cc, `vbs_sim_step` and `vbs_sim_run`. The session lies in three places
-- while the simulation runs: the wheel, the queue and the rest, and a handler puts them together
-- again before it triggers a statement.
use verilog_behavioral_simul.Base.{
  Bool, List, Option, [], false, if◌then◌else◌, negsuc, none, pos, some, suc, tail, true, zero, ℕ,
  ℤ, ◌∷◌,
}
use verilog_behavioral_simul.EventQueue.{Queue}
use verilog_behavioral_simul.Simulation.{
  Session, Status, exhausted, failed, is_before, running, to_int, trigger_postproc,
}
use verilog_behavioral_simul.Statement.{Engine, Outcome, done, fault, spent}
use verilog_behavioral_simul.Statement.Interface.{Call, on_shared}
use verilog_behavioral_simul.TimeWheel.{Node, Wheel, trigger_once}
use verilog_behavioral_simul.TimeWheel
use verilog_behavioral_simul.EventQueue

abbrev pub first_events : List (Node ℕ) → List ℕ
first_events [] = []
first_events (n ∷ ns) = n.events

abbrev pub pop_first : List (Node ℕ) → List (Node ℕ)
pop_first [] = []
pop_first (n ∷ ns) = record n { events = tail n.events } ∷ ns

module _ {X L S : Type 0} where
  abbrev pub put_wheel : Wheel ℕ → Session X L S → Session X L S
  put_wheel w s = record s { engine = on_shared (λ sh. record sh { timewheel = w }) s.engine }

  abbrev pub put_queue : Queue → Session X L S → Session X L S
  put_queue q s = record s { engine = on_shared (λ sh. record sh { eventqueue = q }) s.engine }

  abbrev pub wheel_of : Session X L S → Wheel ℕ
  wheel_of s = s.engine.shared.timewheel

  abbrev pub queue_of : Session X L S → Queue
  queue_of s = s.engine.shared.eventqueue

  -- The list of the unit that is being handled.
  abbrev pub unit_events : Session X L S → List ℕ
  unit_events s = first_events (wheel_of s).nodes

  -- `tlst.pop_front()`.
  abbrev pub pop_event : Session X L S → Session X L S
  pop_event s = put_wheel (record (wheel_of s) { nodes = pop_first (wheel_of s).nodes }) s

  abbrev pub step_result : Bool × Wheel ℕ × Session X L S → Bool × Session X L S
  step_result (more, w, s) = (more, put_wheel w s)

  -- Nothing is left to do after a run of all events.
  abbrev pub run_all : Option (Wheel ℕ × Session X L S) → Option (Bool × Session X L S)
  run_all none = none
  run_all (some (w, s)) = some (false, put_wheel w s)

  abbrev pub stop_with : Status → Session X L S → Session X L S
  stop_with c s = record s { status = c }

  -- The simulation goes on where an outcome is done.
  abbrev pub go_on : Session X L S → Outcome (Engine X L S) → Session X L S
  go_on s (done m) = record s { engine = m }
  go_on s fault = stop_with failed s
  go_on s spent = stop_with exhausted s

  -- What follows a statement: its event is taken off, if it came from the wheel, and then its end
  -- is seen to.
  unfoldable pub after_statement :
      ℕ
      → (Session X L S → Session X L S)
      → Session X L S
      → Outcome (Bool × Engine X L S)
      → Session X L S
  unfolding trigger_postproc
  after_statement st pop s fault = stop_with failed s
  after_statement st pop s spent = stop_with exhausted s
  after_statement st pop s (done (end_reached, m)) =
      let s1 = pop (record s { engine = m }) in
      if end_reached then go_on s1 (trigger_postproc st s1.engine) else s1

  -- The session goes on only while it is running.
  abbrev pub while_running :
      Status → (Session X L S → Session X L S) → Session X L S → Session X L S
  while_running running go_on s = go_on s
  while_running failed go_on s = s
  while_running exhausted go_on s = s

  abbrev pub same : Session X L S → Session X L S
  same s = s

module _ {X L S : Type 0} (call : Call X L S) where
  -- A statement is its own parent here. After the end of the simulation nothing is triggered.
  unfoldable pub serve_statement :
      ℕ → (Session X L S → Session X L S) → Session X L S → Session X L S
  unfolding after_statement
  serve_statement st pop s =
      while_running s.status (λ t. after_statement st pop t (call st st t.engine)) s

  -- `eqhandler`, at the container of an event.
  unfoldable pub eqhandler : ℕ → Queue × Session X L S → Queue × Session X L S
  unfolding serve_statement
  eqhandler c (q, s) =
      let s1 = put_queue q s in
      let s2 = serve_statement (s1.engine.shared.containers c).object same s1 in (queue_of s2, s2)

  abbrev pub put_queued : Session X L S → Option (Queue × Session X L S) → Session X L S
  put_queued s none = stop_with exhausted s
  put_queued s (some (q, s')) = put_queue q s'

  -- `eventqueue.trigger(eqhandler<T>())`.
  unfoldable pub trigger_queue : ℕ → Session X L S → Session X L S
  unfolding eqhandler
  trigger_queue fuel s = put_queued s (EventQueue.trigger eqhandler fuel (queue_of s, s))

  -- The time unit is handled before the event queue.
  abbrev pub queue_if_empty :
      ℕ → (Session X L S → Session X L S) → List ℕ → Session X L S → Session X L S
  queue_if_empty queue_fuel go_on (e ∷ es) s = go_on s
  queue_if_empty queue_fuel go_on [] s =
      let s' = trigger_queue queue_fuel s in while_running s'.status go_on s'

  -- One turn of the loop of `twhandler`, with what follows it.
  abbrev pub unit_turn :
      ℕ → (Session X L S → Session X L S) → List ℕ → Session X L S → Session X L S
  unit_turn queue_fuel go_on [] s = s
  unit_turn queue_fuel go_on (st ∷ rest) s =
      let s' = serve_statement st pop_event s in
      while_running s'.status (λ t. queue_if_empty queue_fuel go_on (unit_events t) t) s'

  unfoldable pub unit_loop : ℕ → ℕ → Session X L S → Session X L S
  unfolding serve_statement trigger_queue
  unit_loop queue_fuel zero s = stop_with exhausted s
  unit_loop queue_fuel (suc fuel) s =
      unit_turn queue_fuel (unit_loop queue_fuel fuel) (unit_events s) s

  -- `twhandler`: the changed variables are dumped at the end of the unit.
  module _ (dump_values : S → S) (queue_fuel fuel : ℕ) where
    unfoldable pub twhandler : ℕ → Wheel ℕ × Session X L S → Wheel ℕ × Session X L S
    unfolding unit_loop
    twhandler t (w, s) =
        let s1 = unit_loop queue_fuel fuel (put_wheel w s) in
        let s2 = record s1 {
          engine = on_shared (λ sh. record sh { nets = dump_values sh.nets }) s1.engine;
        } in
        (wheel_of s2, s2)

    -- `timewheel.trigger_once(twhandler<stmt_base>())`, and with it `vbs_sim_step`.
    unfoldable pub vbs_sim_step : Session X L S → Bool × Session X L S
    unfolding twhandler
    vbs_sim_step s = step_result (trigger_once twhandler (wheel_of s) s)

    abbrev pub step_until :
        (Session X L S → Option (Bool × Session X L S))
        → Bool × Session X L S
        → Option (Bool × Session X L S)
    step_until go_on (false, s) = some (false, s)
    step_until go_on (true, s) = go_on s

    -- The loop that runs until `end_time`, from the result of the last step.
    unfoldable pub run_until : ℕ → ℤ → Session X L S → Option (Bool × Session X L S)
    unfolding vbs_sim_step to_int
    run_until zero end_time s = none
    run_until (suc rounds) end_time s =
        if is_before (to_int (wheel_of s).latest_time) end_time
        then step_until (run_until rounds end_time) (vbs_sim_step s)
        else some (true, s)

    -- `vbs_sim_run`: whether there may be more to do, and the session.
    unfoldable pub vbs_sim_run : ℕ → ℤ → Session X L S → Option (Bool × Session X L S)
    unfolding run_until
    vbs_sim_run rounds (negsuc zero) s = run_all (TimeWheel.trigger twhandler rounds (wheel_of s) s)
    vbs_sim_run rounds (pos zero) s = some (vbs_sim_step s)
    vbs_sim_run rounds end_time s = run_until rounds end_time s
