-- ===== src/Statement/Trigger.antt =====
-- The trigger of any statement: src/stmt/strigger.cc. A statement is triggered with the
-- statement that it belongs to, its parent. The depth of the calls and the rounds of every loop
-- are bounded by fuel.
use verilog_behavioral_simul.Base.{Bool, false, if◌then◌else◌, suc, true, zero, ℕ}
use verilog_behavioral_simul.Statement.{
  Engine, Kind, Outcome, assignment_stmt, case_stmt, done, if_else_stmt, loop_stmt, null_stmt,
  seq_block_stmt, spent, systask, task_enable_stmt,
}
use verilog_behavioral_simul.Statement.Assign.{assignment}
use verilog_behavioral_simul.Statement.Block.{block}
use verilog_behavioral_simul.Statement.Branch.{case_of, if_else}
use verilog_behavioral_simul.Statement.Delay.{handle_dec}
use verilog_behavioral_simul.Statement.Enable.{enable_task}
use verilog_behavioral_simul.Statement.Interface.{Call, Interface}
use verilog_behavioral_simul.Statement.Loops.{loop}

module _ {X L : Type 0} where
  abbrev pub has_control : Kind X L → Bool
  has_control (systask s) = false
  has_control _ = true

module _ {X L S : Type 0} (i : Interface X L S) where
  -- What each class does once it need not wait. A system task is called with no control.
  unfoldable pub run :
      Call X L S → ℕ → ℕ → ℕ → Kind X L → Engine X L S → Outcome (Bool × Engine X L S)
  unfolding block enable_task assignment if_else case_of loop
  run call fuel parent p null_stmt m = done (true, m)
  run call fuel parent p (seq_block_stmt b) m = block call fuel parent p b m
  run call fuel parent p (task_enable_stmt te) m = enable_task i call parent p te m
  run call fuel parent p (assignment_stmt a) m = done (assignment i parent p a m)
  run call fuel parent p (if_else_stmt e t f) m = if_else i call parent e t f m
  run call fuel parent p (case_stmt t e items d) m = case_of i call parent t e items d m
  run call fuel parent p (loop_stmt l) m = loop i call fuel parent p l m
  run call fuel parent p (systask s) m =
      let (b, sh) = i.system s parent m.shared in done (b, record m { shared = sh })

  unfoldable pub trigger : ℕ → Call X L S
  unfolding run handle_dec
  trigger zero parent p m = spent
  trigger (suc fuel) parent p m =
      if has_control (m.statements p).kind
      then (let (wait, m1) = handle_dec parent p m in
          if wait
          then done (false, m1)
          else run (trigger fuel) fuel parent p (m1.statements p).kind m1)
      else run (trigger fuel) fuel parent p (m.statements p).kind m
