-- ===== src/Statement/Delay.antt =====
-- Delay and event controls: src/misc/dectrig.cc, and `handle_dec` of src/stmt/strigger.cc.
use verilog_behavioral_simul.Base.{
  Bool, List, Option, [], false, if◌then◌else◌, none, some, true, ℕ, ◌%◌, ◌+◌, ◌==◌, ◌^◌, ◌∷◌,
}
use verilog_behavioral_simul.EventQueue.{Event, add_event}
use verilog_behavioral_simul.Statement.{
  Container, ControlKind, Engine, Shared, Stmt, delay_id, delay_num, ored_event_expr, set_delayed,
  update,
}
use verilog_behavioral_simul.TimeWheel

unfoldable pub activate_all : List ℕ → (ℕ → Container) → ℕ → Container
activate_all [] cs = cs
activate_all (c ∷ rest) cs = activate_all rest (update cs c (record (cs c) { active = true }))

module _ {S : Type 0} where
  -- An event that is not queued is appended to the event queue.
  abbrev pub queue_once : Event → Shared S → Shared S
  queue_once ev sh =
      if sh.eventqueue.is_queued ev.container
      then sh
      else record sh { eventqueue = add_event ev sh.eventqueue }

  -- The common body of the delays: `next_time` units from now, or, when it is 0, as an event. The
  -- sum is an `unsigned long` and wraps round.
  unfoldable pub delay : ℕ → Event → ℕ → Shared S → Shared S
  delay next_time ev stmt sh = if next_time == 0 then queue_once ev sh else record sh {
    timewheel =
        TimeWheel.add_event ((sh.timewheel.latest_time + next_time) % 2 ^ 64) stmt sh.timewheel;
  }

  unfoldable pub trigger_dec : ControlKind → ℕ → Shared S → Shared S
  unfolding delay activate_all
  trigger_dec (delay_num next_time ev) stmt sh = delay next_time ev stmt sh
  trigger_dec (delay_id next_time ev) stmt sh = delay next_time ev stmt sh
  trigger_dec (ored_event_expr cs) stmt sh = record sh {
    containers = activate_all cs sh.containers;
  }

module _ {X L : Type 0} where
  -- The control that a statement waits for.
  abbrev pub control_of : Stmt X L → Stmt X L → Option ℕ
  control_of parent s = elim s.dec [ some c ↦ some c | none ↦ if parent.always then none else s.ec ]

module _ {X L S : Type 0} where
  -- `dec->trigger(trigger_dec(stmt))`.
  abbrev pub start_control : ℕ → ℕ → Engine X L S → Engine X L S
  start_control c stmt m = record m { shared = trigger_dec (m.controls c).control stmt m.shared }

  abbrev pub handle_control : ℕ → ℕ → Engine X L S → Bool × Engine X L S
  handle_control parent c m =
      if (m.controls c).delayed
      then (false, set_delayed c false m)
      else (true, start_control c parent (set_delayed c true m))

  -- `handle_dec`: whether the statement is to wait.
  unfoldable pub handle_dec : ℕ → ℕ → Engine X L S → Bool × Engine X L S
  unfolding update trigger_dec
  handle_dec parent p m = elim (control_of (m.statements parent) (m.statements p)) [
    | none ↦ (false, m)
    | some c ↦ handle_control parent c m
  ]
