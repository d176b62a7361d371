-- ===== src/Simulation/Units.antt =====
-- What a time unit of src/sim.cc does to the time wheel.
use verilog_behavioral_simul.EventQueue
use verilog_behavioral_simul.Base.{
  Bool, List, Option, [], ap, false, get_elem?, if◌then◌else◌, none, refl, some, subst, suc, sym,
  tail, true, zero, ℕ, ◌∙◌, ◌∷◌, ◌≡◌,
}
use verilog_behavioral_simul.EventQueue.{Queue}
use verilog_behavioral_simul.EventQueue.Invariant.{HoldsAfter, trigger-keeps}
use verilog_behavioral_simul.Simulation.{
  Session, Status, always_at, exhausted, failed, finish_always, finish_initial, finish_level,
  finish_stack, is_none, level_at, level_of, requeue, reset_dec, running, trigger_postproc, waits,
}
use verilog_behavioral_simul.Simulation.Handlers.{
  after_statement, eqhandler, go_on, pop_event, pop_first, put_queue, put_queued, put_wheel,
  queue_if_empty, queue_of, same, serve_statement, trigger_queue, twhandler, unit_events, unit_loop,
  unit_turn, wheel_of, while_running,
}
use verilog_behavioral_simul.Statement.{
  Engine, Outcome, SeqBlock, done, fault, get_seq_block, spent,
}
use verilog_behavioral_simul.Statement.Block.{change_block, next_statement}
use verilog_behavioral_simul.Statement.Interface.{Call}
use verilog_behavioral_simul.Statement.Schedules.{
  Ends, Schedules, Schedules-trans, wheel, if_Ends, wheel_after,
}
use verilog_behavioral_simul.TimeWheel.{Node, Wheel}
use verilog_behavioral_simul.TimeWheel.Run.{Works}

module _ {E : Type 0} where
  pub Works-trans : {u v w : Wheel E} → Works u v → Works v w → Works u w
  Works-trans Works.stop r = r
  Works-trans (Works.take n ns left e q) r = Works.take n ns left e (Works-trans q r)
  Works-trans (Works.add t obj q) r = Works.add t obj (Works-trans q r)

  pub Schedules-Works : {v w : Wheel E} → Schedules v w → Works v w
  Schedules-Works Schedules.stop = Works.stop
  Schedules-Works (Schedules.later t obj q) = Works.add t obj (Schedules-Works q)

pop_first-Works : (w : Wheel ℕ) → Works w (record w { nodes = pop_first w.nodes })
pop_first-Works w = go w.nodes refl
  where
    go : (ns : List (Node ℕ)) → w.nodes ≡ ns → Works w (record w { nodes = pop_first w.nodes })
    go [] e = subst (λ l. Works w (record w { nodes = l })) (e ∙ sym (ap pop_first e)) Works.stop
    go (n ∷ ns) e = Works.take n ns (tail n.events) e (
        subst
          (λ l.
            Works (record w { nodes = record n { events = tail n.events } ∷ ns })
              (record w { nodes = pop_first l }))
          (sym e) Works.stop)

module _ {X L S : Type 0} where
  if_engine :
      (w : Wheel ℕ) (b : Bool) (x y : Engine X L S)
      → Schedules w (wheel x)
      → Schedules w (wheel y)
      → Schedules w (wheel (if b then x else y))
  if_engine w true x y p q = p
  if_engine w false x y p q = q

  requeue-Schedules : (st : ℕ) (m : Engine X L S) → Schedules (wheel m) (wheel (requeue st m))
  requeue-Schedules st m = Schedules.later (wheel m).latest_time st Schedules.stop

  reset_dec-Schedules :
      (o : Option ℕ) (w : Wheel ℕ) (m : Engine X L S)
      → Schedules w (wheel m)
      → Schedules w (wheel (reset_dec o m))
  reset_dec-Schedules none w m s = s
  reset_dec-Schedules (some c) w m s = s

  always_at-Ends :
      (st : ℕ) (o : Option SeqBlock) (m : Engine X L S) → Ends wheel (wheel m) (always_at st o m)
  unfolding change_block
  always_at-Ends st none m = tt
  always_at-Ends st (some b) m =
      let m1 = next_statement st m in
      if_engine (wheel m) (is_none (m1.statements st).ec) _ _
        (Schedules-trans (reset_dec-Schedules (m1.statements st).dec (wheel m) m1 Schedules.stop)
          (requeue-Schedules st (reset_dec (m1.statements st).dec m1)))
        Schedules.stop

  level_at-Ends :
      (st top : ℕ) (o : Option ℕ) (m : Engine X L S) → Ends wheel (wheel m) (level_at st top o m)
  unfolding change_block
  level_at-Ends st top none m = tt
  level_at-Ends st top (some s) m =
      Schedules-trans
        (if_engine (wheel m) (waits (m.statements s)) m (next_statement top m) Schedules.stop
          Schedules.stop)
        (requeue-Schedules st (if waits (m.statements s) then m else next_statement top m))

  level_of-Ends :
      (st top : ℕ) (o : Option SeqBlock) (m : Engine X L S)
      → Ends wheel (wheel m) (level_of st top o m)
  level_of-Ends st top none m = tt
  level_of-Ends st top (some b) m = level_at-Ends st top (get_elem? b.stmts b.curstmt) m

  finish_stack-Ends :
      (st : ℕ) (l : List ℕ) (m : Engine X L S) → Ends wheel (wheel m) (finish_stack st l m)
  unfolding finish_level
  finish_stack-Ends st [] m = Schedules.stop
  finish_stack-Ends st (top ∷ rest) m = level_of-Ends st top (get_seq_block (m.statements top)) m

  finish_initial-Ends :
      (st : ℕ) (o : Option SeqBlock) (m : Engine X L S)
      → Ends wheel (wheel m) (finish_initial st o m)
  finish_initial-Ends st none m = Schedules.stop
  finish_initial-Ends st (some b) m = finish_stack-Ends st b.stk m

  pub trigger_postproc-Ends :
      (st : ℕ) (m : Engine X L S) → Ends wheel (wheel m) (trigger_postproc st m)
  unfolding trigger_postproc finish_always
  trigger_postproc-Ends st m =
      if_Ends wheel (wheel m) (m.statements st).always _ _
        (always_at-Ends st (get_seq_block (m.statements st)) m)
        (finish_initial-Ends st (get_seq_block (m.statements st)) m)

  -- The wheel of a session was reached from `w`.
  abbrev pub From : Wheel ℕ → Session X L S → Type 0
  From w s = Works w (wheel_of s)

  go_on-From :
      (w : Wheel ℕ) (s : Session X L S) (o : Outcome (Engine X L S))
      → From w s
      → Ends wheel (wheel_of s) o
      → From w (go_on s o)
  go_on-From w s (done m) h e = Works-trans h (Schedules-Works e)
  go_on-From w s fault h e = h
  go_on-From w s spent h e = h

  if_From :
      (w : Wheel ℕ) (b : Bool) (x y : Session X L S)
      → From w x
      → From w y
      → From w (if b then x else y)
  if_From w true x y p q = p
  if_From w false x y p q = q

  after_statement-From :
      (w : Wheel ℕ) (st : ℕ) (pop : Session X L S → Session X L S) (s : Session X L S)
      (o : Outcome (Bool × Engine X L S))
      → ((t : Session X L S) → From w t → From w (pop t))
      → From w s
      → Ends wheel_after (wheel_of s) o
      → From w (after_statement st pop s o)
  unfolding after_statement
  after_statement-From w st pop s fault p h e = h
  after_statement-From w st pop s spent p h e = h
  after_statement-From w st pop s (done (b, m)) p h e =
      let s1 = pop (record s { engine = m }) in
      let h1 = p (record s { engine = m }) (Works-trans h (Schedules-Works e)) in
      if_From w b _ _
        (go_on-From w s1 (trigger_postproc st s1.engine) h1 (trigger_postproc-Ends st s1.engine)) h1

  while_running-From :
      (w : Wheel ℕ) (c : Status) (f : Session X L S → Session X L S) (s : Session X L S)
      → ((t : Session X L S) → From w t → From w (f t))
      → From w s
      → From w (while_running c f s)
  while_running-From w running f s k h = k s h
  while_running-From w failed f s k h = h
  while_running-From w exhausted f s k h = h

module _ {X L S : Type 0} (call : Call X L S)
    (schedules : (st : ℕ) (m : Engine X L S) → Ends wheel_after (wheel m) (call st st m)) where
  pub serve_statement-From :
      (w : Wheel ℕ) (st : ℕ) (pop : Session X L S → Session X L S) (s : Session X L S)
      → ((t : Session X L S) → From w t → From w (pop t))
      → From w s
      → From w (serve_statement call st pop s)
  unfolding serve_statement
  serve_statement-From w st pop s p h =
      while_running-From w s.status _ s
        (λ t q. after_statement-From w st pop t (call st st t.engine) p q (schedules st t.engine)) h

  eqhandler-From :
      (w : Wheel ℕ) (c : ℕ) (q : Queue) (s : Session X L S)
      → From w s
      → From w (eqhandler call c (q, s)).1
  unfolding eqhandler
  eqhandler-From w c q s h =
      let s1 = put_queue q s in
      serve_statement-From w (s1.engine.shared.containers c).object same s1 (λ t k. k) h

  put_queued-From :
      (w : Wheel ℕ) (s : Session X L S) (o : Option (Queue × Session X L S))
      → From w s
      → HoldsAfter (From w) o
      → From w (put_queued call s o)
  put_queued-From w s none h e = h
  put_queued-From w s (some (q, s')) h e = e

  pub trigger_queue-From :
      (w : Wheel ℕ) (fuel : ℕ) (s : Session X L S) → From w s → From w (trigger_queue call fuel s)
  unfolding trigger_queue
  trigger_queue-From w fuel s h =
      put_queued-From w s (EventQueue.trigger (eqhandler call) fuel (queue_of s, s)) h
        (trigger-keeps (eqhandler call) (From w) (eqhandler-From w) fuel (queue_of s) s h)

  queue_if_empty-From :
      (w : Wheel ℕ) (qf : ℕ) (go_on : Session X L S → Session X L S)
      → ((t : Session X L S) → From w t → From w (go_on t))
      → (l : List ℕ) (s : Session X L S) → From w s
      → From w (queue_if_empty call qf go_on l s)
  queue_if_empty-From w qf go_on k (e ∷ es) s h = k s h
  queue_if_empty-From w qf go_on k [] s h =
      let s' = trigger_queue call qf s in
      while_running-From w s'.status go_on s' k (trigger_queue-From w qf s h)

  unit_turn-From :
      (w : Wheel ℕ) (qf : ℕ) (go_on : Session X L S → Session X L S)
      → ((t : Session X L S) → From w t → From w (go_on t))
      → (l : List ℕ) (s : Session X L S) → From w s
      → From w (unit_turn call qf go_on l s)
  unit_turn-From w qf go_on k [] s h = h
  unit_turn-From w qf go_on k (st ∷ rest) s h =
      let s' = serve_statement call st pop_event s in
      while_running-From w s'.status _ s'
        (λ t q. queue_if_empty-From w qf go_on k (unit_events t) t q)
        (serve_statement-From w st pop_event s (λ t q. Works-trans q (pop_first-Works (wheel_of t)))
          h)

  unit_loop-From :
      (w : Wheel ℕ) (qf fuel : ℕ) (s : Session X L S) → From w s → From w (unit_loop call qf fuel s)
  unfolding unit_loop
  unit_loop-From w qf zero s h = h
  unit_loop-From w qf (suc fuel) s h =
      unit_turn-From w qf (unit_loop call qf fuel) (unit_loop-From w qf fuel) (unit_events s) s h

  -- A time unit takes events off the first unit of the wheel and adds others, and no more.
  pub twhandler-Works :
      (dump_values : S → S) (qf fuel t : ℕ) (w : Wheel ℕ) (s : Session X L S)
      → Works w (twhandler call dump_values qf fuel t (w, s)).0
  unfolding twhandler
  twhandler-Works dump_values qf fuel t w s = unit_loop-From w qf fuel (put_wheel w s) Works.stop
