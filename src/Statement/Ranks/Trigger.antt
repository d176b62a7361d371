-- ===== src/Statement/Ranks/Trigger.antt =====
-- What the trigger of any statement of src/stmt/strigger.cc keeps of the blocks.
use verilog_behavioral_simul.Base.{
  Bool, List, Option, [], ap, arith, false, if◌then◌else◌, none, refl, some, suc, true, zero, ℕ,
  ◌<◌, ◌∷◌, ◌≡◌, ◌≤◌,
}
use verilog_behavioral_simul.Statement.{
  CaseItem, Engine, Kind, Outcome, assignment_stmt, case_stmt, done, if_else_stmt, loop_stmt,
  null_stmt, seq_block_stmt, systask, task_enable_stmt,
}
use verilog_behavioral_simul.Statement.Assign.{assignment}
use verilog_behavioral_simul.Statement.Delay.{handle_dec}
use verilog_behavioral_simul.Statement.Enable.{enable_task}
use verilog_behavioral_simul.Statement.Interface.{Call, Interface}
use verilog_behavioral_simul.Statement.Ranks.{
  Callee, DefaultBelow, Fits, IsQuiet-same, ItemsBelow, Keeps, KeepsAfter, KeepsAlways, OptionBelow,
  Ranking, Keeps-add, block_of, if_KeepsAfter,
}
use verilog_behavioral_simul.Statement.Ranks.Classes.{case_of-Keeps, if_else-Keeps}
use verilog_behavioral_simul.Statement.Ranks.Enable.{enable-Keeps}
use verilog_behavioral_simul.Statement.Ranks.Entry.{block-Keeps}
use verilog_behavioral_simul.Statement.Ranks.Loops.{loop-Keeps}
use verilog_behavioral_simul.Statement.Ranks.Quiet.{assignment-IsQuiet, handle_dec-IsQuiet}
use verilog_behavioral_simul.Statement.Trigger.{has_control, run, trigger}

module _ (g : Ranking) where
  OptionBelow-mono : (r r' : ℕ) (o : Option ℕ) → r < r' → OptionBelow g r o → OptionBelow g r' o
  OptionBelow-mono r r' none less h = tt
  OptionBelow-mono r r' (some s) less h = omega arith

module _ (g : Ranking) {X : Type 0} where
  ItemsBelow-mono :
      (r r' : ℕ) (items : List (CaseItem X)) → r < r' → ItemsBelow g r items → ItemsBelow g r' items
  ItemsBelow-mono r r' [] less h = tt
  ItemsBelow-mono r r' (item ∷ items) less (e, low, rest) =
      (e, omega arith, ItemsBelow-mono r r' items less rest)

  DefaultBelow-mono :
      (r r' : ℕ) (d : Option (CaseItem X)) → r < r' → DefaultBelow g r d → DefaultBelow g r' d
  DefaultBelow-mono r r' none less h = tt
  DefaultBelow-mono r r' (some item) less h = omega arith

module _ (g : Ranking) {X L S : Type 0} (i : Interface X L S) where
  module _ (call : Call X L S) (c : Callee g call) where
    run-Keeps :
        (fuel r : ℕ) (m0 : Engine X L S) (parent p : ℕ) (s : Kind X L) (m : Engine X L S)
        → (m.statements p).kind ≡ s
        → Fits g p s
        → g.rank p < r
        → r ≤ g.rank parent
        → Keeps g r m0 m
        → KeepsAfter g r m0 (run i call fuel parent p s m)
    unfolding run enable_task
    run-Keeps fuel r m0 parent p null_stmt m e f low up k = k
    run-Keeps fuel r m0 parent p (seq_block_stmt b) m e f low up k =
        block-Keeps g call c fuel r m0 parent p b m low up (ap block_of e) k
    run-Keeps fuel r m0 parent p (task_enable_stmt te) m e f low up k =
        enable-Keeps g i call c r m0 parent p te.event te m up (omega (arith, f.1)) k
    run-Keeps fuel r m0 parent p (assignment_stmt a) m e f low up k =
        always (assignment i parent p a m)
          (Keeps-add g r m0 m _ k (assignment-IsQuiet g i parent p a m))
      where
        always : (x : Bool × Engine X L S) → Keeps g r m0 x.1 → KeepsAfter g r m0 (done x)
        always (true, m1) h = h
        always (false, m1) h = tt
    run-Keeps fuel r m0 parent p (if_else_stmt x t d) m e f low up k =
        if_else-Keeps g i call c r m0 parent x t d m up (omega (arith, f.1))
          (OptionBelow-mono g (g.rank p) r d low f.2) k
    run-Keeps fuel r m0 parent p (case_stmt t x items d) m e f low up k =
        case_of-Keeps g i call c r m0 parent t x items d m up
          (ItemsBelow-mono g (g.rank p) r items low f.1)
          (DefaultBelow-mono g (g.rank p) r d low f.2) k
    run-Keeps fuel r m0 parent p (loop_stmt l) m e f low up k =
        loop-Keeps g i call c fuel r m0 parent p l m up (omega (arith, f.1)) f.2 k
    run-Keeps fuel r m0 parent p (systask n) m e f low up k = always (i.system n parent m.shared).0
      where
        always :
            (b : Bool)
            → KeepsAfter g r m0 (done (b, record m { shared = (i.system n parent m.shared).1 }))
        always true = Keeps-add g r m0 m _ k (IsQuiet-same g m _ refl refl)
        always false = tt

    run_simple-Keeps :
        (fuel r : ℕ) (m0 : Engine X L S) (parent p : ℕ) (s : Kind X L) (m : Engine X L S)
        → Fits g p s
        → g.is_simple p ≡ true
        → Keeps g r m0 m
        → KeepsAlways g r m0 (run i call fuel parent p s m)
    unfolding run enable_task
    run_simple-Keeps fuel r m0 parent p null_stmt m f e k = k
    run_simple-Keeps fuel r m0 parent p (assignment_stmt a) m f e k =
        Keeps-add g r m0 m _ k (assignment-IsQuiet g i parent p a m)
    run_simple-Keeps fuel r m0 parent p (systask n) m f e k =
        Keeps-add g r m0 m _ k (IsQuiet-same g m _ refl refl)
    run_simple-Keeps fuel r m0 parent p (seq_block_stmt b) m f e k = absurd (let h = f.0 in cc)
    run_simple-Keeps fuel r m0 parent p (task_enable_stmt te) m f e k = absurd (let h = f.0 in cc)
    run_simple-Keeps fuel r m0 parent p (if_else_stmt x t d) m f e k = absurd (let h = f.0 in cc)
    run_simple-Keeps fuel r m0 parent p (case_stmt t x items d) m f e k = absurd (let h = f.0 in cc)
    run_simple-Keeps fuel r m0 parent p (loop_stmt l) m f e k = absurd (let h = f.0 in cc)

  if_KeepsAlways :
      (r : ℕ) (m : Engine X L S) (b : Bool) (x y : Outcome (Bool × Engine X L S))
      → KeepsAlways g r m x
      → KeepsAlways g r m y
      → KeepsAlways g r m (if b then x else y)
  if_KeepsAlways r m true x y p q = p
  if_KeepsAlways r m false x y p q = q

  -- A statement of a lower rank than `r`, once it is done and need not wait, has left every block
  -- of rank `r` and above as it was, and none of the others on a stack.
  pub trigger-Callee : (fuel : ℕ) → Callee g (trigger i fuel)
  unfolding trigger
  trigger-Callee zero = record {
    lower = λ r m0 m parent s low up k. tt;
    simple = λ r m0 m parent s e k. tt;
  }
  trigger-Callee (suc fuel) = record {
    lower = λ r m0 m parent s low up k.
        let m1 = (handle_dec parent s m).1 in
        let k1 = Keeps-add g r m0 m m1 k (handle_dec-IsQuiet g parent s m) in
        if_KeepsAfter g r m0 (has_control (m.statements s).kind) _ _
          (if_KeepsAfter g r m0 (handle_dec parent s m).0 _ _ tt (
            run-Keeps (trigger i fuel) (trigger-Callee fuel) fuel r m0 parent s
              (m1.statements s).kind m1 refl (k1.ranked.statements_fit s) low up k1))
          (run-Keeps (trigger i fuel) (trigger-Callee fuel) fuel r m0 parent s (m.statements s).kind
            m refl (k.ranked.statements_fit s) low up k);
    simple = λ r m0 m parent s e k.
        let m1 = (handle_dec parent s m).1 in
        let k1 = Keeps-add g r m0 m m1 k (handle_dec-IsQuiet g parent s m) in
        if_KeepsAlways r m0 (has_control (m.statements s).kind) _ _
          (if_KeepsAlways r m0 (handle_dec parent s m).0 _ _ k1 (
            run_simple-Keeps (trigger i fuel) (trigger-Callee fuel) fuel r m0 parent s
              (m1.statements s).kind m1 (k1.ranked.statements_fit s) e k1))
          (run_simple-Keeps (trigger i fuel) (trigger-Callee fuel) fuel r m0 parent s
            (m.statements s).kind m (k.ranked.statements_fit s) e k);
  }
