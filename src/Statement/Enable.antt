-- ===== src/Statement/Enable.antt =====
-- The statement that enables a task: src/stmt/strigger.cc, and src/common/st_trig.cc.
use verilog_behavioral_simul.Base.{
  Bool, List, Option, [], false, if◌then◌else◌, none, some, tail, true, ℕ, ◌∷◌,
}
use verilog_behavioral_simul.EventQueue.{Event}
use verilog_behavioral_simul.Statement.{
  Engine, Kind, Outcome, Shared, Task, TaskEnable, change_kind, done, fault, task_enable_stmt,
  update, ◌>>=◌,
}
use verilog_behavioral_simul.Statement.Interface.{Call, Interface, on_shared}

module _ {X L : Type 0} where
  abbrev pub on_enable : (TaskEnable X → TaskEnable X) → Kind X L → Kind X L
  on_enable f (task_enable_stmt te) = task_enable_stmt (f te)
  on_enable f k = k

abbrev pub if_some : {A B : Type 0} → (A → Option B) → Option A → Option B
if_some f none = none
if_some f (some a) = f a

module _ {X L S : Type 0} where
  abbrev pub set_task : ℕ → Bool → Engine X L S → Engine X L S
  set_task t b m = record m { tasks = update m.tasks t (record (m.tasks t) { delayed = b }) }

  abbrev pub change_enable : ℕ → (TaskEnable X → TaskEnable X) → Engine X L S → Engine X L S
  change_enable p f m = change_kind p (on_enable f) m

  abbrev pub do_if : Bool → (Engine X L S → Engine X L S) → Engine X L S → Engine X L S
  do_if b f m = if b then f m else m

module _ {X L S : Type 0} (i : Interface X L S) where
  -- `st_task`'s trigger, with the call of the statement that enables it.
  unfoldable pub finish_task : ℕ → Task → TaskEnable X → Engine X L S → Bool × Engine X L S
  finish_task t task te m =
      (true, do_if task.has_iovariable (on_shared (i.exit_iovars t te.arguments)) m)

  abbrev pub after_body :
      ℕ → Task → TaskEnable X → Bool × Engine X L S → Outcome (Bool × Engine X L S)
  after_body t task te (true, m) = done (finish_task t task te m)
  after_body t task te (false, m) = done (false, set_task t true m)

  -- The statement of the task, with the caller for its parent in a system task.
  abbrev pub start_task :
      Call X L S → ℕ → ℕ → ℕ → Task → TaskEnable X → Engine X L S → Outcome (Bool × Engine X L S)
  start_task call parent p t task te m =
      if task.is_system
      then (call p task.entry m >>= λ r. done (finish_task t task te r.1))
      else (call parent task.entry m >>= after_body t task te)

  unfoldable pub trigger_task :
      Call X L S → ℕ → ℕ → ℕ → TaskEnable X → Engine X L S → Outcome (Bool × Engine X L S)
  unfolding finish_task update
  trigger_task call parent p t te m =
      let task = m.tasks t in
      if task.delayed
      then done (finish_task t task te (set_task t false m))
      else start_task call parent p t task te
          (do_if task.has_iovariable (on_shared (i.entry_iovars t te.arguments)) m)

  -- Monitoring of the arguments behind the format string.
  unfoldable pub monitor_all : Event → List X → Shared S → Option (Shared S)
  monitor_all ev [] sh = some sh
  monitor_all ev (a ∷ rest) sh = if_some (monitor_all ev rest) (i.monitor_expr ev a sh)

  -- An argument that cannot be monitored is an error, which ends the run.
  abbrev pub monitored : ℕ → Option (Shared S) → Engine X L S → Outcome (Bool × Engine X L S)
  monitored p none m = fault
  monitored p (some sh) m =
      done (true, change_enable p (λ t. record t { event = none }) (record m { shared = sh }))

  abbrev pub after_task : ℕ → Bool × Engine X L S → Outcome (Bool × Engine X L S)
  after_task p (true, m) = done (true, m)
  after_task p (false, m) = done (false, change_enable p (λ t. record t { delayed = true }) m)

  abbrev pub enable :
      Call X L S
      → ℕ
      → ℕ
      → Option Event
      → TaskEnable X
      → Engine X L S
      → Outcome (Bool × Engine X L S)
  enable call parent p (some ev) te m = monitored p (monitor_all ev (tail te.arguments) m.shared) m
  enable call parent p none te m = trigger_task call parent p te.task te m >>= after_task p

  unfoldable pub enable_task :
      Call X L S → ℕ → ℕ → TaskEnable X → Engine X L S → Outcome (Bool × Engine X L S)
  unfolding monitor_all trigger_task update
  enable_task call parent p te m = enable call parent p te.event te m
