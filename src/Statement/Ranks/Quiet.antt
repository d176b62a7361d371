-- ===== src/Statement/Ranks/Quiet.antt =====
-- The parts of src/stmt/strigger.cc that leave blocks alone: controls, assignments and the flags
-- of the other statements.
use verilog_behavioral_simul.Base.{
  inr, ==_iff, inl, ◌==◌, Bool-cases, Bool, Option, false, if◌then◌else◌, none, refl, some, true, ℕ,
  ◌≡◌,
}
use verilog_behavioral_simul.BitVector.{BitVector, copy}
use verilog_behavioral_simul.EventQueue.{Event}
use verilog_behavioral_simul.Statement.{
  Assignment, Engine, Kind, Loop, TaskEnable, assignment_stmt, case_stmt, if_else_stmt, loop_stmt,
  null_stmt, seq_block_stmt, set_delayed, systask, task_enable_stmt, update,
}
use verilog_behavioral_simul.Statement.Assign.{
  aim, assign_blocking, assign_by, assign_delayed, assign_later, assign_now, assign_taken,
  assignment, on_value, schedule_store, set_delayed?, set_value,
}
use verilog_behavioral_simul.Statement.Delay.{control_of, handle_control, handle_dec}
use verilog_behavioral_simul.Statement.Enable.{change_enable, on_enable, set_task}
use verilog_behavioral_simul.Statement.Interface.{Interface, eval, on_shared, store}
use verilog_behavioral_simul.Statement.Loops.{change_loop, on_loop}
use verilog_behavioral_simul.Statement.Ranks.{
  Fits, IsQuiet, IsQuiet-refl, IsQuiet-same, IsQuiet-trans, Ranking, block_of, change_kind-IsQuiet,
}

module _ (g : Ranking) {X L S : Type 0} where
  pub set_delayed-IsQuiet : (c : ℕ) (b : Bool) (m : Engine X L S) → IsQuiet g m (set_delayed c b m)
  set_delayed-IsQuiet c b m = IsQuiet-same g m (set_delayed c b m) refl refl

  pub set_delayed?-IsQuiet :
      (o : Option ℕ) (b : Bool) (m : Engine X L S) → IsQuiet g m (set_delayed? o b m)
  set_delayed?-IsQuiet none b m = IsQuiet-refl g m
  set_delayed?-IsQuiet (some c) b m = set_delayed-IsQuiet c b m

  handle_control-IsQuiet :
      (parent c : ℕ) (m : Engine X L S) (b : Bool)
      → (m.controls c).delayed ≡ b
      → IsQuiet g m (handle_control parent c m).1
  handle_control-IsQuiet parent c m true e = rw e (IsQuiet-same g m _ refl refl)
  handle_control-IsQuiet parent c m false e = rw e (IsQuiet-same g m _ refl refl)

  pub handle_dec-IsQuiet : (parent p : ℕ) (m : Engine X L S) → IsQuiet g m (handle_dec parent p m).1
  unfolding handle_dec
  handle_dec-IsQuiet parent p m = go (control_of (m.statements parent) (m.statements p))
    where
      go :
          (o : Option ℕ)
          → IsQuiet g m
              (elim o as (λ _. Bool × Engine X L S) [
                | none ↦ (false, m)
                | some c ↦ handle_control parent c m
              ]).1
      go none = IsQuiet-refl g m
      go (some c) = handle_control-IsQuiet parent c m (m.controls c).delayed refl

  set_value-IsQuiet :
      (p : ℕ) (v : Option BitVector) (m : Engine X L S) → IsQuiet g m (set_value p v m)
  set_value-IsQuiet p v m = change_kind-IsQuiet g p (on_value v) m block fits
    where
      block : (k : Kind X L) → block_of (on_value v k) ≡ block_of k
      block null_stmt = refl
      block (seq_block_stmt b) = refl
      block (task_enable_stmt te) = refl
      block (assignment_stmt a) = refl
      block (if_else_stmt e t d) = refl
      block (case_stmt t e items d) = refl
      block (loop_stmt l) = refl
      block (systask s) = refl

      fits : (q : ℕ) (k : Kind X L) → Fits g q k → Fits g q (on_value v k)
      fits q null_stmt h = h
      fits q (seq_block_stmt b) h = h
      fits q (task_enable_stmt te) h = h
      fits q (assignment_stmt a) h = h
      fits q (if_else_stmt e t d) h = h
      fits q (case_stmt t e items d) h = h
      fits q (loop_stmt l) h = h
      fits q (systask s) h = h

  -- A change of a loop that keeps its parts.
  pub change_loop-IsQuiet :
      (p : ℕ) (f : Loop X → Loop X) (m : Engine X L S)
      → ((l : Loop X) → (f l).loop_type ≡ l.loop_type)
      → ((l : Loop X) → (f l).body ≡ l.body)
      → IsQuiet g m (change_loop p f m)
  change_loop-IsQuiet p f m type_kept body_kept = change_kind-IsQuiet g p (on_loop f) m block fits
    where
      block : (k : Kind X L) → block_of (on_loop f k) ≡ block_of k
      block null_stmt = refl
      block (seq_block_stmt b) = refl
      block (task_enable_stmt te) = refl
      block (assignment_stmt a) = refl
      block (if_else_stmt e t d) = refl
      block (case_stmt t e items d) = refl
      block (loop_stmt l) = refl
      block (systask s) = refl

      fits : (q : ℕ) (k : Kind X L) → Fits g q k → Fits g q (on_loop f k)
      fits q null_stmt h = h
      fits q (seq_block_stmt b) h = h
      fits q (task_enable_stmt te) h = h
      fits q (assignment_stmt a) h = h
      fits q (if_else_stmt e t d) h = h
      fits q (case_stmt t e items d) h = h
      fits q (loop_stmt l) h = rw (type_kept l, body_kept l) h
      fits q (systask s) h = h

  -- A change of an enabling statement that keeps its task.
  pub change_enable-IsQuiet :
      (p : ℕ) (f : TaskEnable X → TaskEnable X) (m : Engine X L S)
      → ((te : TaskEnable X) → (f te).task ≡ te.task)
      → IsQuiet g m (change_enable p f m)
  change_enable-IsQuiet p f m kept = change_kind-IsQuiet g p (on_enable f) m block fits
    where
      block : (k : Kind X L) → block_of (on_enable f k) ≡ block_of k
      block null_stmt = refl
      block (seq_block_stmt b) = refl
      block (task_enable_stmt te) = refl
      block (assignment_stmt a) = refl
      block (if_else_stmt e t d) = refl
      block (case_stmt t e items d) = refl
      block (loop_stmt l) = refl
      block (systask s) = refl

      fits : (q : ℕ) (k : Kind X L) → Fits g q k → Fits g q (on_enable f k)
      fits q null_stmt h = h
      fits q (seq_block_stmt b) h = h
      fits q (task_enable_stmt te) h = rw (kept te) h
      fits q (assignment_stmt a) h = h
      fits q (if_else_stmt e t d) h = h
      fits q (case_stmt t e items d) h = h
      fits q (loop_stmt l) h = h
      fits q (systask s) h = h

  pub set_task-IsQuiet : (t : ℕ) (b : Bool) (m : Engine X L S) → IsQuiet g m (set_task t b m)
  unfolding update
  set_task-IsQuiet t b m = record {
    ranked = λ h. record {
      statements_fit = h.statements_fit;
      tasks_fit = λ u. elim (Bool-cases (t == u)) [
        | inl e ↦ rw e (rw (← (==_iff t u).0 e) (h.tasks_fit t))
        | inr e ↦ rw e (h.tasks_fit u)
      ];
    };
    blocks = λ q. refl;
  }

module _ (g : Ranking) {X L S : Type 0} (i : Interface X L S) where
  aim-IsQuiet : (k : Kind X L) (m : Engine X L S) → IsQuiet g m (aim i k m)
  aim-IsQuiet (assignment_stmt a) m = IsQuiet-same g m _ refl refl
  aim-IsQuiet null_stmt m = IsQuiet-refl g m
  aim-IsQuiet (seq_block_stmt b) m = IsQuiet-refl g m
  aim-IsQuiet (task_enable_stmt te) m = IsQuiet-refl g m
  aim-IsQuiet (if_else_stmt e t f) m = IsQuiet-refl g m
  aim-IsQuiet (case_stmt t e items d) m = IsQuiet-refl g m
  aim-IsQuiet (loop_stmt l) m = IsQuiet-refl g m
  aim-IsQuiet (systask s) m = IsQuiet-refl g m

  store-IsQuiet : (l : L) (v : BitVector) (m : Engine X L S) → IsQuiet g m (store i l v m)
  store-IsQuiet l v m = go v.tristate
    where
      go : (b : Bool) → IsQuiet g m (if b then m else on_shared (i.trigger_lvalue l v) m)
      go true = IsQuiet-refl g m
      go false = IsQuiet-same g m _ refl refl

  schedule_store-IsQuiet :
      (o : Option ℕ) (u : ℕ) (ev : Event) (m : Engine X L S)
      → IsQuiet g m (schedule_store i o u ev m)
  schedule_store-IsQuiet (some c) u ev m = IsQuiet-same g m _ refl refl
  schedule_store-IsQuiet none u ev m = IsQuiet-same g m _ refl refl

  assign_later-IsQuiet : (a : Assignment X L) (m : Engine X L S) → IsQuiet g m (assign_later i a m)
  unfolding assign_later
  assign_later-IsQuiet a m =
      let m1 = aim i (m.statements a.update).kind m in
      let v = copy (eval i a.rval m1).0 in
      let m2 = (eval i a.rval m1).1 in
      let m3 = set_value a.update (some v) m2 in
      IsQuiet-trans g m m1 _ (aim-IsQuiet (m.statements a.update).kind m) (
        IsQuiet-trans g m1 m2 _ (IsQuiet-same g m1 m2 refl refl) (
          IsQuiet-trans g m2 m3 _ (set_value-IsQuiet g a.update (some v) m2)
            (schedule_store-IsQuiet a.delayed_store a.update a.event m3)))

  assign_delayed-IsQuiet :
      (parent p : ℕ) (a : Assignment X L) (c : ℕ) (m : Engine X L S)
      → IsQuiet g m (assign_delayed i parent p a c m)
  unfolding assign_delayed
  assign_delayed-IsQuiet parent p a c m =
      let m0 = on_shared (i.set_target a.lval) m in
      let v = copy (eval i a.rval m0).0 in
      let m1 = (eval i a.rval m0).1 in
      let m2 = set_value p (some v) m1 in
      let dec = control_of (m.statements parent) (m.statements p) in
      let m3 = set_delayed? dec true m2 in
      IsQuiet-trans g m m1 _ (IsQuiet-same g m m1 refl refl) (
        IsQuiet-trans g m1 m2 _ (set_value-IsQuiet g p (some v) m1) (
          IsQuiet-trans g m2 m3 _ (set_delayed?-IsQuiet g dec true m2)
            (IsQuiet-same g m3 _ refl refl)))

  assign_now-IsQuiet : (a : Assignment X L) (m : Engine X L S) → IsQuiet g m (assign_now i a m)
  unfolding assign_now
  assign_now-IsQuiet a m =
      let m0 = on_shared (i.clr_target a.lval) m in
      let m1 = (eval i a.rval m0).1 in
      IsQuiet-trans g m m1 _ (IsQuiet-same g m m1 refl refl)
        (store-IsQuiet a.lval (eval i a.rval m0).0 m1)

  assign_taken-IsQuiet :
      (p : ℕ) (a : Assignment X L) (v : BitVector) (m : Engine X L S)
      → IsQuiet g m (assign_taken i p a v m)
  unfolding assign_taken
  assign_taken-IsQuiet p a v m =
      let m1 = set_delayed? a.delayed_store false m in
      let m2 = store i a.lval v m1 in
      IsQuiet-trans g m m1 _ (set_delayed?-IsQuiet g a.delayed_store false m)
        (IsQuiet-trans g m1 m2 _ (store-IsQuiet a.lval v m1) (set_value-IsQuiet g p none m2))

  if_IsQuiet :
      (m : Engine X L S) (b : Bool) (x y : Bool × Engine X L S)
      → IsQuiet g m x.1
      → IsQuiet g m y.1
      → IsQuiet g m (if b then x else y).1
  if_IsQuiet m true x y p q = p
  if_IsQuiet m false x y p q = q

  pub assignment-IsQuiet :
      (parent p : ℕ) (a : Assignment X L) (m : Engine X L S)
      → IsQuiet g m (assignment i parent p a m).1
  unfolding assignment
  assignment-IsQuiet parent p a m = go a.value
    where
      blocking : (o : Option ℕ) → IsQuiet g m (assign_blocking i parent p a o m).1
      blocking (some c) = assign_delayed-IsQuiet parent p a c m
      blocking none = assign_now-IsQuiet a m

      go : (o : Option BitVector) → IsQuiet g m (assign_by i parent p a o m).1
      go (some v) = assign_taken-IsQuiet p a v m
      go none = if_IsQuiet m a.nonblocking _ _ (assign_later-IsQuiet a m) (blocking a.delayed_store)
