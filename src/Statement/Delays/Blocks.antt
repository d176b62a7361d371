-- ===== src/Statement/Delays/Blocks.antt =====
-- What the delays of src/stmt/strigger.cc add to the time wheel, class by class.
use verilog_behavioral_simul.Base.{
  Bool, List, Option, [], false, if◌then◌else◌, none, refl, some, suc, tail, true, zero, ℕ, ◌∙◌,
  ◌∷◌, ◌≡◌,
}
use verilog_behavioral_simul.EventQueue.{Event}
use verilog_behavioral_simul.Statement.{
  Engine, Outcome, SeqBlock, Shared, Task, TaskEnable, get_seq_block, seq_block_stmt, set_kind,
}
use verilog_behavioral_simul.Statement.Assign.{set_delayed?}
use verilog_behavioral_simul.Statement.Block.{
  Current, after_call, at, block, block_loop, block_turn, change_block, current, ended,
  next_statement, no_block, no_parent, push_block, push_on,
}
use verilog_behavioral_simul.Statement.Enable.{
  after_body, after_task, do_if, enable, finish_task, if_some, monitor_all, monitored, set_task,
  start_task, trigger_task,
}
use verilog_behavioral_simul.Statement.Interface.{Call, Interface, on_shared}
use verilog_behavioral_simul.Statement.Delays.{
  keep_clock, set_delayed-clock, Ends, Ends-bind, KeepsWheel, Kept, Delays, clock,
}
use verilog_behavioral_simul.Statement.Delays.{Clock}

pub if_Ends :
    {A : Type 0} (g : A → Clock) (w : Clock) (b : Bool) (x y : Outcome A)
    → Ends g w x
    → Ends g w y
    → Ends g w (if b then x else y)
if_Ends g w true x y p q = p
if_Ends g w false x y p q = q

module _ {X L S : Type 0} where
  abbrev pub clock_after : Bool × Engine X L S → Clock
  clock_after r = clock r.1

  abbrev pub clock_of_item : Bool × Bool × Engine X L S → Clock
  clock_of_item r = clock r.2

  pub push_block-Ends :
      (w : Clock) (parent p : ℕ) (b : SeqBlock) (m : Engine X L S)
      → Delays w (clock m)
      → Ends clock w (push_block parent p b m)
  unfolding push_block
  push_block-Ends w parent p b m s =
      let m1 = set_kind p (seq_block_stmt (record b { curstmt = 0; pushed = true })) m in
      go m1 s (get_seq_block (m1.statements parent))
    where
      go :
          (m1 : Engine X L S)
          → Delays w (clock m1)
          → (o : Option SeqBlock) → Ends clock w (push_on parent p o m1)
      go m1 s none = tt
      go m1 s (some pb) = s

  pub set_delayed?-clock :
      (o : Option ℕ) (b : Bool) (m : Engine X L S) → clock (set_delayed? o b m) ≡ clock m
  set_delayed?-clock none b m = refl
  set_delayed?-clock (some c) b m = set_delayed-clock c b m

  pub do_if-Delays :
      (w : Clock) (b : Bool) (f : Engine X L S → Engine X L S) (m : Engine X L S)
      → clock (f m) ≡ clock m
      → Delays w (clock m)
      → Delays w (clock (do_if b f m))
  do_if-Delays w true f m e s = rw e s
  do_if-Delays w false f m e s = s

module _ {X L S : Type 0} (i : Interface X L S) (k : KeepsWheel i) (call : Call X L S)
    (ih : (w : Clock) (parent p : ℕ) (m : Engine X L S)
      → Delays w (clock m)
      → Ends clock_after w (call parent p m)) where
  after_call-Ends :
      (w : Clock) (go_on : Engine X L S → Outcome (Bool × Engine X L S)) (nesting : ℕ)
      → ((m : Engine X L S) → Delays w (clock m) → Ends clock_after w (go_on m))
      → (r : Bool × Engine X L S) → Delays w (clock_after r)
      → Ends clock_after w (after_call go_on nesting r)
  unfolding change_block
  after_call-Ends w go_on nesting h (false, m) s = s
  after_call-Ends w go_on nesting h (true, m) s = h (next_statement nesting m) s

  block_turn-Ends :
      (w : Clock) (go_on : Engine X L S → Outcome (Bool × Engine X L S)) (parent : ℕ)
      → ((m : Engine X L S) → Delays w (clock m) → Ends clock_after w (go_on m))
      → (c : Current) (m : Engine X L S) → Delays w (clock m)
      → Ends clock_after w (block_turn call go_on parent c m)
  unfolding change_block
  block_turn-Ends w go_on parent h no_parent m s = tt
  block_turn-Ends w go_on parent h no_block m s = s
  block_turn-Ends w go_on parent h (ended nesting) m s = s
  block_turn-Ends w go_on parent h (at nesting st) m s =
      Ends-bind clock_after clock_after w (call parent st m) (after_call go_on nesting)
        (ih w parent st m s) (after_call-Ends w go_on nesting h)

  block_loop-Ends :
      (w : Clock) (fuel parent : ℕ) (m : Engine X L S)
      → Delays w (clock m)
      → Ends clock_after w (block_loop call fuel parent m)
  unfolding block_loop
  block_loop-Ends w zero parent m s = tt
  block_loop-Ends w (suc fuel) parent m s =
      block_turn-Ends w (block_loop call fuel parent) parent (block_loop-Ends w fuel parent)
        (current parent m) m s

  pub block-Ends :
      (w : Clock) (fuel parent p : ℕ) (b : SeqBlock) (m : Engine X L S)
      → Delays w (clock m)
      → Ends clock_after w (block call fuel parent p b m)
  unfolding block
  block-Ends w fuel parent p b m s =
      if_Ends clock_after w b.pushed _ _ (block_loop-Ends w fuel parent m s) (
        Ends-bind clock clock_after w (push_block parent p b m) (block_loop call fuel parent)
          (push_block-Ends w parent p b m s) (block_loop-Ends w fuel parent))

  after_body-Ends :
      (w : Clock) (t : ℕ) (task : Task) (te : TaskEnable X) (r : Bool × Engine X L S)
      → Delays w (clock_after r)
      → Ends clock_after w (after_body i t task te r)
  unfolding finish_task
  after_body-Ends w t task te (true, m) s =
      do_if-Delays w task.has_iovariable (on_shared (i.exit_iovars t te.arguments)) m
        (keep_clock m (k.exit_iovars_keeps t te.arguments m.shared)) s
  after_body-Ends w t task te (false, m) s = s

  start_task-Ends :
      (w : Clock) (parent p t : ℕ) (task : Task) (te : TaskEnable X) (m : Engine X L S)
      → Delays w (clock m)
      → Ends clock_after w (start_task i call parent p t task te m)
  start_task-Ends w parent p t task te m s =
      if_Ends clock_after w task.is_system _ _
        (Ends-bind clock_after clock_after w (call p task.entry m) _ (ih w p task.entry m s)
          (λ r h. after_body-Ends w t task te (true, r.1) h))
        (Ends-bind clock_after clock_after w (call parent task.entry m) _
          (ih w parent task.entry m s) (after_body-Ends w t task te))

  trigger_task-Ends :
      (w : Clock) (parent p t : ℕ) (te : TaskEnable X) (m : Engine X L S)
      → Delays w (clock m)
      → Ends clock_after w (trigger_task i call parent p t te m)
  unfolding trigger_task
  trigger_task-Ends w parent p t te m s =
      let task = m.tasks t in
      if_Ends clock_after w task.delayed _ _
        (after_body-Ends w t task te (true, set_task t false m) s)
        (start_task-Ends w parent p t task te _ (
          do_if-Delays w task.has_iovariable (on_shared (i.entry_iovars t te.arguments)) m
            (keep_clock m (k.entry_iovars_keeps t te.arguments m.shared)) s))

  monitored-Ends :
      (w : Clock) (p : ℕ) (m : Engine X L S) (o : Option (Shared S))
      → Kept m.shared o
      → Delays w (clock m)
      → Ends clock_after w (monitored i p o m)
  monitored-Ends w p m none h s = tt
  monitored-Ends w p m (some sh) h s = rw h s

  if_some-Kept :
      (sh : Shared S) (f : Shared S → Option (Shared S)) (o : Option (Shared S))
      → Kept sh o
      → ((sh' : Shared S) → Kept sh' (f sh'))
      → Kept sh (if_some f o)
  if_some-Kept sh f none h g = tt
  if_some-Kept sh f (some sh') h g = go (f sh') (g sh')
    where
      go : (o : Option (Shared S)) → Kept sh' o → Kept sh o
      go none q = tt
      go (some sh'') q = q ∙ h

  monitor_all-Kept : (ev : Event) (es : List X) (sh : Shared S) → Kept sh (monitor_all i ev es sh)
  unfolding monitor_all
  monitor_all-Kept ev [] sh = refl
  monitor_all-Kept ev (e ∷ es) sh =
      if_some-Kept sh (monitor_all i ev es) (i.monitor_expr ev e sh) (k.monitor_expr_keeps ev e sh)
        (monitor_all-Kept ev es)

  pub enable-Ends :
      (w : Clock) (parent p : ℕ) (o : Option Event) (te : TaskEnable X) (m : Engine X L S)
      → Delays w (clock m)
      → Ends clock_after w (enable i call parent p o te m)
  enable-Ends w parent p (some ev) te m s =
      monitored-Ends w p m _ (monitor_all-Kept ev (tail te.arguments) m.shared) s
  enable-Ends w parent p none te m s =
      Ends-bind clock_after clock_after w (trigger_task i call parent p te.task te m)
        (after_task i p) (trigger_task-Ends w parent p te.task te m s) go
    where
      go :
          (r : Bool × Engine X L S)
          → Delays w (clock_after r)
          → Ends clock_after w (after_task i p r)
      go (true, m) s = s
      go (false, m) s = s
