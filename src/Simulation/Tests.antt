-- ===== src/Simulation/Tests.antt =====
-- Runs of small designs through the loop of src/sim.cc, and instances of the theorems.
use verilog_behavioral_simul.Base.{
  Bool, List, Option, [], arith, if◌then◌else◌, none, false, pos, refl, some, true, ℕ, ◌==◌, ◌∷◌,
  ◌≡◌,
}
use verilog_behavioral_simul.BitVector.{BitVector}
use verilog_behavioral_simul.Simulation.{Session, Status, running}
use verilog_behavioral_simul.Simulation.Handlers.{unit_events, unit_loop, vbs_sim_run}
use verilog_behavioral_simul.Simulation.Schedule.{UnitRun}
use verilog_behavioral_simul.Simulation.Scheduling.{unit_loop-Scheduled}
use verilog_behavioral_simul.Statement.{Engine, Stmt, systask}
use verilog_behavioral_simul.Statement.Interface.{Call}
use verilog_behavioral_simul.Statement.Schedules.{Ends, wheel}
use verilog_behavioral_simul.Statement.Schedules.{wheel_after}
use verilog_behavioral_simul.Statement.Delays.Trigger.{trigger-Schedules}
use verilog_behavioral_simul.Statement.Trigger.{trigger}
use verilog_behavioral_simul.Statement.Tests.{
  begin_end, engine_of, nested, pause, plain, plain-KeepsWheel, stmt_of,
}
use verilog_behavioral_simul.TimeWheel
use verilog_behavioral_simul.EventQueue

abbrev session_of : (ℕ → Stmt BitVector ℕ) → List ℕ → Session BitVector ℕ (List ℕ)
session_of ss first = record { engine = engine_of ss first; status = running }

abbrev call_of : ℕ → Call BitVector ℕ (List ℕ)
call_of f = trigger plain f

abbrev log_of : Option (Bool × Session BitVector ℕ (List ℕ)) → Option (Bool × ℕ × List ℕ × Status)
log_of none = none
log_of (some (b, s)) =
    some (b, s.engine.shared.timewheel.latest_time, s.engine.shared.nets, s.status)

run_nested :
    log_of (vbs_sim_run (call_of 10) (λ n. n) 10 10 10 (pos 5) (session_of nested (0 ∷ [])))
    ≡ some (false, 2, 1 ∷ 2 ∷ 3 ∷ [], running)
unfolding vbs_sim_run trigger EventQueue.new_queue TimeWheel.add_event TimeWheel.trigger_once
    TimeWheel.trigger_node EventQueue.trigger EventQueue.drain EventQueue.next_region
    EventQueue.handle_events EventQueue.move_strobe
run_nested = refl

-- `always begin $1; begin #2; $2; end $3; end` with one level more:
-- `begin $1; begin $4; begin #2; $2; end $5; end $3; end`.
abbrev deep : ℕ → Stmt BitVector ℕ
deep p =
    if p == 0
    then stmt_of (begin_end (1 ∷ 2 ∷ 3 ∷ []))
    else if p == 1
    then stmt_of (systask 1)
    else if p == 2
    then stmt_of (begin_end (7 ∷ 4 ∷ 8 ∷ []))
    else if p == 3
    then stmt_of (systask 3)
    else if p == 4
    then stmt_of (begin_end (5 ∷ 6 ∷ []))
    else if p == 5
    then pause
    else if p == 6
    then stmt_of (systask 2)
    else if p == 7
    then stmt_of (systask 4)
    else stmt_of (systask 5)

abbrev deep_always : ℕ → Stmt BitVector ℕ
deep_always p = if p == 0 then record (deep p) { always = true } else deep p

run_deep :
    log_of (vbs_sim_run (call_of 10) (λ n. n) 10 20 10 (pos 9) (session_of deep (0 ∷ [])))
    ≡ some (false, 2, 1 ∷ 4 ∷ 2 ∷ 5 ∷ 3 ∷ [], running)
unfolding vbs_sim_run trigger EventQueue.new_queue TimeWheel.add_event TimeWheel.trigger_once
    TimeWheel.trigger_node EventQueue.trigger EventQueue.drain EventQueue.next_region
    EventQueue.handle_events EventQueue.move_strobe
run_deep = refl

run_deep_always :
    log_of (vbs_sim_run (call_of 10) (λ n. n) 10 20 10 (pos 9) (session_of deep_always (0 ∷ [])))
    ≡ some (true, 10, 1 ∷ 4 ∷ 2 ∷ 2 ∷ 2 ∷ 2 ∷ 2 ∷ [], running)
unfolding vbs_sim_run trigger EventQueue.new_queue TimeWheel.add_event TimeWheel.trigger_once
    TimeWheel.trigger_node EventQueue.trigger EventQueue.drain EventQueue.next_region
    EventQueue.handle_events EventQueue.move_strobe
run_deep_always = refl

call_keeps :
    (st : ℕ) (m : Engine BitVector ℕ (List ℕ)) → Ends wheel_after (wheel m) (call_of 10 st st m)
call_keeps st m = trigger-Schedules plain plain-KeepsWheel 10 st st m

abbrev start : Session BitVector ℕ (List ℕ)
start = session_of nested (0 ∷ [])

unit_loop-Scheduled_example :
    UnitRun (call_of 10) start (unit_loop (call_of 10) 10 10 start)
    × (unit_events (unit_loop (call_of 10) 10 10 start) ≡ [])
unfolding unit_loop trigger EventQueue.new_queue TimeWheel.add_event EventQueue.trigger
    EventQueue.drain EventQueue.next_region EventQueue.handle_events
unit_loop-Scheduled_example =
    unit_loop-Scheduled (call_of 10) 10 call_keeps 10 start (omega arith) refl
