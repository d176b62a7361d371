-- ===== src/Statement/Delays/Trigger.antt =====
-- What the trigger of any statement adds to the time wheel: src/stmt/strigger.cc.
use verilog_behavioral_simul.Base.{
  Bool, Option, false, none, some, subst, suc, sym, true, zero, ℕ, ◌≡◌,
}
use verilog_behavioral_simul.Statement.{
  Engine, Kind, Loop, LoopType, Outcome, assignment_stmt, case_stmt, done, fault, spent, for_loop,
  forever_loop, get_loop, if_else_stmt, loop_stmt, null_stmt, repeat_loop, seq_block_stmt, systask,
  task_enable_stmt, while_loop,
}
use verilog_behavioral_simul.Statement.Delay.{handle_dec}
use verilog_behavioral_simul.Statement.Enable.{enable_task}
use verilog_behavioral_simul.Statement.Interface.{Call, Interface}
use verilog_behavioral_simul.Statement.Loops.{
  after_body_round, after_round, before_loop, change_loop, count_round, loop, rounds, suspend_loop,
}
use verilog_behavioral_simul.Statement.Delays.{
  Ends, Ends-bind, KeepsWheel, Delays, Delays-eq, Delays-trans, Delays-Schedules, keep_clock, kinds,
  handle_dec-Delays, stop, clock,
}
use verilog_behavioral_simul.Statement.Delays.Blocks.{
  block-Ends, enable-Ends, if_Ends, set_delayed?-clock, clock_after,
}
use verilog_behavioral_simul.Statement.Delays.Classes.{
  after_eval, assignment-Delays, case_of-Ends, if_else-Ends,
}
use verilog_behavioral_simul.Statement.Trigger.{has_control, run, trigger}
use verilog_behavioral_simul.Statement.Delays.{Clock}
use verilog_behavioral_simul.Statement.Schedules
use verilog_behavioral_simul.Statement.Schedules.{wheel, wheel_after}

module _ {X L S : Type 0} (i : Interface X L S) (k : KeepsWheel i) where
  module _ (call : Call X L S)
      (ih : (w : Clock) (parent p : ℕ) (m : Engine X L S)
        → Delays w (clock m)
        → Ends clock_after w (call parent p m)) where
    before_loop-Ends :
        (w : Clock) (p : ℕ) (t : LoopType X) (m : Engine X L S)
        → Delays w (clock m)
        → Ends clock_after w (before_loop i call p t m)
    unfolding before_loop
    before_loop-Ends w p forever_loop m s = s
    before_loop-Ends w p (repeat_loop e) m s = after_eval i k call ih w e m s
    before_loop-Ends w p (while_loop e) m s = after_eval i k call ih w e m s
    before_loop-Ends w p (for_loop pre e post) m s =
        Ends-bind clock_after clock_after w (call pre pre m) _ (ih w pre pre m s)
          (λ r h. after_eval i k call ih w e r.1 h)

    count_round-Ends :
        (w : Clock) (p : ℕ) (o : Option (Loop X)) (m : Engine X L S)
        → Delays w (clock m)
        → Ends clock_after w (count_round p o m)
    count_round-Ends w p none m s = tt
    count_round-Ends w p (some l) m s = s

    after_round-Ends :
        (w : Clock) (p : ℕ) (t : LoopType X) (m : Engine X L S)
        → Delays w (clock m)
        → Ends clock_after w (after_round i call p t m)
    unfolding after_round
    after_round-Ends w p forever_loop m s = s
    after_round-Ends w p (repeat_loop e) m s = count_round-Ends w p (get_loop (m.statements p)) m s
    after_round-Ends w p (while_loop e) m s = after_eval i k call ih w e m s
    after_round-Ends w p (for_loop pre e post) m s =
        Ends-bind clock_after clock_after w (call post post m) _ (ih w post post m s)
          (λ r h. after_eval i k call ih w e r.1 h)

    rounds-Ends :
        (w : Clock) (fuel parent p : ℕ) (t : LoopType X) (body : ℕ) (b : Bool) (m : Engine X L S)
        → Delays w (clock m)
        → Ends clock_after w (rounds i call fuel parent p t body b m)
    unfolding rounds
    rounds-Ends w zero parent p t body b m s = tt
    rounds-Ends w (suc fuel) parent p t body false m s = s
    rounds-Ends w (suc fuel) parent p t body true m s =
        Ends-bind clock_after clock_after w (call parent body m) _ (ih w parent body m s)
          (go (rounds-Ends w fuel parent p t body))
      where
        suspended : (m : Engine X L S) → clock (suspend_loop p m) ≡ clock m
        suspended m =
            set_delayed?-clock (m.statements p).dec true
              (change_loop p (λ l. record l { delayed = true }) m)

        go :
            ((b : Bool) (m : Engine X L S)
              → Delays w (clock m)
              → Ends clock_after w (rounds i call fuel parent p t body b m))
            → (r : Bool × Engine X L S) → Delays w (clock_after r)
            → Ends clock_after w
                (after_body_round i call p t (λ b m1. rounds i call fuel parent p t body b m1) r)
        go rest (false, m) h = Delays-trans h (Delays-eq (sym (suspended m)))
        go rest (true, m) h =
            Ends-bind clock_after clock_after w (after_round i call p t m) _
              (after_round-Ends w p t m h) (λ a q. rest a.0 a.1 q)

    loop-Ends :
        (w : Clock) (fuel parent p : ℕ) (l : Loop X) (m : Engine X L S)
        → Delays w (clock m)
        → Ends clock_after w (loop i call fuel parent p l m)
    unfolding loop
    loop-Ends w fuel parent p l m s =
        let next = λ (a : Bool × Engine X L S) (q : Delays w (clock_after a)).
          rounds-Ends w fuel parent p l.loop_type l.body a.0 a.1 q in
        if_Ends clock_after w l.delayed _ _
          (Ends-bind clock_after clock_after w _ _ (after_round-Ends w p l.loop_type _ s) next)
          (Ends-bind clock_after clock_after w _ _ (before_loop-Ends w p l.loop_type m s) next)

    run-Ends :
        (w : Clock) (fuel parent p : ℕ) (s : Kind X L) (m : Engine X L S)
        → Delays w (clock m)
        → Ends clock_after w (run i call fuel parent p s m)
    unfolding run enable_task
    run-Ends w fuel parent p null_stmt m s = s
    run-Ends w fuel parent p (seq_block_stmt b) m s = block-Ends i k call ih w fuel parent p b m s
    run-Ends w fuel parent p (task_enable_stmt te) m s =
        enable-Ends i k call ih w parent p te.event te m s
    run-Ends w fuel parent p (assignment_stmt a) m s = assignment-Delays i k w parent p a m s
    run-Ends w fuel parent p (if_else_stmt e t f) m s = if_else-Ends i k call ih w parent e t f m s
    run-Ends w fuel parent p (case_stmt t e items d) m s =
        case_of-Ends i k call ih w parent t e items d m s
    run-Ends w fuel parent p (loop_stmt l) m s = loop-Ends w fuel parent p l m s
    run-Ends w fuel parent p (systask n) m s =
        Delays-trans s (Delays-eq (sym (keep_clock m (k.system_keeps n parent m.shared))))

  pub trigger-Ends :
      (fuel : ℕ) (w : Clock) (parent p : ℕ) (m : Engine X L S)
      → Delays w (clock m)
      → Ends clock_after w (trigger i fuel parent p m)
  unfolding trigger
  trigger-Ends zero w parent p m s = tt
  trigger-Ends (suc fuel) w parent p m s =
      let m1 = (handle_dec parent p m).1 in
      let waited = Delays-trans s (handle_dec-Delays parent p m) in
      let call = trigger i fuel in
      if_Ends clock_after w (has_control (m.statements p).kind) _ _
        (if_Ends clock_after w (handle_dec parent p m).0 _ _ waited
          (run-Ends call (trigger-Ends fuel) w fuel parent p (m1.statements p).kind m1 waited))
        (run-Ends call (trigger-Ends fuel) w fuel parent p (m.statements p).kind m s)

  -- When the parts that a statement uses leave the time wheel alone, the trigger of a statement of
  -- any class, if it is done, leaves every control what it was, and has done nothing to the wheel
  -- but add events, each at the current time and the delay of one of the controls, as an unsigned
  -- sum of 64 bits.
  pub trigger-Delays :
      (fuel parent p : ℕ) (m : Engine X L S) {b : Bool} {m' : Engine X L S}
      → trigger i fuel parent p m ≡ done (b, m')
      → Delays (m.shared.timewheel, kinds m) (m'.shared.timewheel, kinds m')
  trigger-Delays fuel parent p m e =
      subst (Ends clock_after (clock m)) e (trigger-Ends fuel (clock m) parent p m stop)

  -- What the simulation relies on: events are added to the wheel, and none are taken from it.
  pub trigger-Schedules :
      (fuel parent p : ℕ) (m : Engine X L S)
      → verilog_behavioral_simul.Statement.Schedules.Ends wheel_after
          (wheel m)
          (trigger i fuel parent p m)
  trigger-Schedules fuel parent p m =
      go (trigger i fuel parent p m) (trigger-Ends fuel (clock m) parent p m stop)
    where
      go :
          (o : Outcome (Bool × Engine X L S))
          → Ends clock_after (clock m) o
          → verilog_behavioral_simul.Statement.Schedules.Ends wheel_after (wheel m) o
      go (done r) h = Delays-Schedules h
      go fault h = tt
      go spent h = tt
