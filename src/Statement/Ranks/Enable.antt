-- ===== src/Statement/Ranks/Enable.antt =====
-- What the statements of src/stmt/strigger.cc and src/common/st_trig.cc that enable tasks keep of
-- the blocks.
use verilog_behavioral_simul.Base.{
  Bool, Option, arith, false, none, refl, some, tail, true, ℕ, ◌<◌, ◌≡◌, ◌≤◌,
}
use verilog_behavioral_simul.EventQueue.{Event}
use verilog_behavioral_simul.Statement.{Engine, Shared, Task, TaskEnable}
use verilog_behavioral_simul.Statement.Enable.{
  after_body, after_task, do_if, enable, finish_task, monitor_all, monitored, set_task, start_task,
  trigger_task,
}
use verilog_behavioral_simul.Statement.Interface.{Call, Interface, on_shared}
use verilog_behavioral_simul.Statement.Ranks.{
  Callee, IsQuiet-same, Keeps, KeepsAfter, KeepsAfter-bind, KeepsAlways-bind, Ranking, TaskFits,
  Keeps-add, if_KeepsAfter,
}
use verilog_behavioral_simul.Statement.Ranks.Quiet.{change_enable-IsQuiet, set_task-IsQuiet}

module _ (g : Ranking) {X L S : Type 0} (i : Interface X L S) (call : Call X L S)
    (c : Callee g call) where
  do_if_shared-Keeps :
      (r : ℕ) (m0 : Engine X L S) (b : Bool) (f : Shared S → Shared S) (m : Engine X L S)
      → Keeps g r m0 m
      → Keeps g r m0 (do_if b (on_shared f) m)
  do_if_shared-Keeps r m0 true f m k = Keeps-add g r m0 m _ k (IsQuiet-same g m _ refl refl)
  do_if_shared-Keeps r m0 false f m k = k

  finish_task-Keeps :
      (r : ℕ) (m0 : Engine X L S) (t : ℕ) (task : Task) (te : TaskEnable X) (m : Engine X L S)
      → Keeps g r m0 m
      → Keeps g r m0 (finish_task i t task te m).1
  unfolding finish_task
  finish_task-Keeps r m0 t task te m k =
      do_if_shared-Keeps r m0 task.has_iovariable (i.exit_iovars t te.arguments) m k

  start_task-Keeps :
      (r : ℕ) (m0 : Engine X L S) (parent p t : ℕ) (task : Task) (te : TaskEnable X)
      (m : Engine X L S) (b : Bool)
      → task.is_system ≡ b
      → r ≤ g.rank parent
      → g.task_rank t < r
      → TaskFits g t task
      → Keeps g r m0 m
      → KeepsAfter g r m0 (start_task i call parent p t task te m)
  unfolding finish_task
  start_task-Keeps r m0 parent p t task te m true e up below fits k = rw e (
      KeepsAlways-bind g r m0 (call p task.entry m) _ (c.simple r m0 m p task.entry (fits.1 e) k)
        (λ b m1 h. finish_task-Keeps r m0 t task te m1 h))
  start_task-Keeps r m0 parent p t task te m false e up below fits k = rw e (
      KeepsAfter-bind g r m0 (call parent task.entry m) (after_body i t task te)
        (c.lower r m0 m parent task.entry (omega (arith, fits.0)) up k)
        (λ m1 h. finish_task-Keeps r m0 t task te m1 h) (λ m1. tt))

  trigger_task-Keeps :
      (r : ℕ) (m0 : Engine X L S) (parent p t : ℕ) (te : TaskEnable X) (m : Engine X L S)
      → r ≤ g.rank parent
      → g.task_rank t < r
      → Keeps g r m0 m
      → KeepsAfter g r m0 (trigger_task i call parent p t te m)
  unfolding trigger_task
  trigger_task-Keeps r m0 parent p t te m up below k =
      let task = m.tasks t in
      if_KeepsAfter g r m0 task.delayed _ _
        (finish_task-Keeps r m0 t task te (set_task t false m)
          (Keeps-add g r m0 m _ k (set_task-IsQuiet g t false m)))
        (start_task-Keeps r m0 parent p t task te _ task.is_system refl up below
          (k.ranked.tasks_fit t)
          (do_if_shared-Keeps r m0 task.has_iovariable (i.entry_iovars t te.arguments) m k))

  monitored-Keeps :
      (r : ℕ) (m0 : Engine X L S) (p : ℕ) (o : Option (Shared S)) (m : Engine X L S)
      → Keeps g r m0 m
      → KeepsAfter g r m0 (monitored i p o m)
  monitored-Keeps r m0 p none m k = tt
  monitored-Keeps r m0 p (some sh) m k =
      let m1 : Engine X L S = record m { shared = sh } in
      Keeps-add g r m0 m1 _ (Keeps-add g r m0 m m1 k (IsQuiet-same g m m1 refl refl))
        (change_enable-IsQuiet g p (λ t. record t { event = none }) m1 (λ te. refl))

  pub enable-Keeps :
      (r : ℕ) (m0 : Engine X L S) (parent p : ℕ) (o : Option Event) (te : TaskEnable X)
      (m : Engine X L S)
      → r ≤ g.rank parent
      → g.task_rank te.task < r
      → Keeps g r m0 m
      → KeepsAfter g r m0 (enable i call parent p o te m)
  enable-Keeps r m0 parent p (some ev) te m up below k =
      monitored-Keeps r m0 p (monitor_all i ev (tail te.arguments) m.shared) m k
  enable-Keeps r m0 parent p none te m up below k =
      KeepsAfter-bind g r m0 (trigger_task i call parent p te.task te m) (after_task i p)
        (trigger_task-Keeps r m0 parent p te.task te m up below k) (λ m1 h. h) (λ m1. tt)
