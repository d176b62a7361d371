-- ===== src/Statement/Assign.antt =====
-- Assignments: `trigger_stmt` of `assignment_stmt` in src/stmt/strigger.cc.
use verilog_behavioral_simul.Base.{Bool, Option, false, if◌then◌else◌, none, some, true, ℕ}
use verilog_behavioral_simul.BitVector.{BitVector, copy}
use verilog_behavioral_simul.EventQueue.{Event}
use verilog_behavioral_simul.Statement.{
  Assignment, Engine, Kind, assignment_stmt, change_kind, set_delayed, update,
}
use verilog_behavioral_simul.Statement.Delay.{control_of, queue_once, start_control, trigger_dec}
use verilog_behavioral_simul.Statement.Interface.{Interface, eval, on_shared, store}

module _ {X L : Type 0} where
  abbrev pub on_value : Option BitVector → Kind X L → Kind X L
  on_value v (assignment_stmt a) = assignment_stmt (record a { value = v })
  on_value v k = k

module _ {X L S : Type 0} where
  abbrev pub set_value : ℕ → Option BitVector → Engine X L S → Engine X L S
  set_value p v m = change_kind p (on_value v) m

  abbrev pub set_delayed? : Option ℕ → Bool → Engine X L S → Engine X L S
  set_delayed? none b m = m
  set_delayed? (some c) b m = set_delayed c b m

module _ {X L S : Type 0} (i : Interface X L S) where
  -- `_lval->set_target()` of the statement at a pointer.
  abbrev pub aim : Kind X L → Engine X L S → Engine X L S
  aim (assignment_stmt a) m = on_shared (i.set_target a.lval) m
  aim k m = m

  -- The store after a delay, or at the end of the time unit.
  abbrev pub schedule_store : Option ℕ → ℕ → Event → Engine X L S → Engine X L S
  schedule_store (some c) u ev m = start_control c u m
  schedule_store none u ev m = on_shared (queue_once ev) m

  -- A non-blocking assignment: the target and the value are taken now, for the statement `_update`.
  unfoldable pub assign_later : Assignment X L → Engine X L S → Engine X L S
  unfolding update trigger_dec
  assign_later a m =
      let u = a.update in
      let m1 = aim (m.statements u).kind m in
      let (v, m2) = eval i a.rval m1 in
      let m3 = set_value u (some (copy v)) m2 in schedule_store a.delayed_store u a.event m3

  -- A blocking assignment with a delay before the store.
  unfoldable pub assign_delayed : ℕ → ℕ → Assignment X L → ℕ → Engine X L S → Engine X L S
  unfolding update trigger_dec
  assign_delayed parent p a c m =
      let dec = control_of (m.statements parent) (m.statements p) in
      let (v, m1) = eval i a.rval (on_shared (i.set_target a.lval) m) in
      let m2 = set_delayed? dec true (set_value p (some (copy v)) m1) in
      start_control c parent (set_delayed c true m2)

  unfoldable pub assign_now : Assignment X L → Engine X L S → Engine X L S
  assign_now a m =
      let (v, m1) = eval i a.rval (on_shared (i.clr_target a.lval) m) in store i a.lval v m1

  -- The value that was taken earlier is stored.
  unfoldable pub assign_taken : ℕ → Assignment X L → BitVector → Engine X L S → Engine X L S
  unfolding update
  assign_taken p a v m = set_value p none (store i a.lval v (set_delayed? a.delayed_store false m))

  abbrev pub assign_blocking :
      ℕ → ℕ → Assignment X L → Option ℕ → Engine X L S → Bool × Engine X L S
  assign_blocking parent p a (some c) m = (false, assign_delayed parent p a c m)
  assign_blocking parent p a none m = (true, assign_now a m)

  abbrev pub assign_by :
      ℕ → ℕ → Assignment X L → Option BitVector → Engine X L S → Bool × Engine X L S
  assign_by parent p a (some v) m = (true, assign_taken p a v m)
  assign_by parent p a none m =
      if a.nonblocking
      then (true, assign_later a m)
      else assign_blocking parent p a a.delayed_store m

  unfoldable pub assignment : ℕ → ℕ → Assignment X L → Engine X L S → Bool × Engine X L S
  unfolding assign_later assign_delayed assign_now assign_taken
  assignment parent p a m = assign_by parent p a a.value m
