-- ===== src/Statement/Tests.antt =====
-- Small designs, and instances of the theorems on statements.
use verilog_behavioral_simul.Base.{
  zero, suc, suc, List, [], arith, drop, false, if◌then◌else◌, none, refl, some, true, ℕ, ◌++◌,
  ◌==◌, ◌∷◌, ◌≡◌,
}
use verilog_behavioral_simul.BitVector.{BitVector, of_bit}
use verilog_behavioral_simul.EventQueue.{Event, new_queue, nonblk}
use verilog_behavioral_simul.Logic.{hi, lo}
use verilog_behavioral_simul.Statement.{
  CaseItem, Engine, Kind, SeqBlock, Stmt, case_c, delay_num, done, null_stmt, seq_block_stmt,
  systask,
}
use verilog_behavioral_simul.Statement.Block.{block_loop}
use verilog_behavioral_simul.Statement.Branch.{case_of}
use verilog_behavioral_simul.Statement.Delay.{handle_dec}
use verilog_behavioral_simul.Statement.Interface.{Interface}
use verilog_behavioral_simul.Statement.Delays.{Delays, KeepsWheel, kinds}
use verilog_behavioral_simul.Statement.Delays.Trigger.{trigger-Delays}
use verilog_behavioral_simul.Statement.Selection.{case_of-first_match, first_match, run_choice}
use verilog_behavioral_simul.Statement.Ranks.{Fits, IsRanked, Ranking, Unpushed}
use verilog_behavioral_simul.Statement.Sequence.{in_turn}
use verilog_behavioral_simul.Statement.Turns.{block_loop-in_turn}
use verilog_behavioral_simul.Statement.Trigger.{trigger}

abbrev pub one : BitVector
one = of_bit hi

-- Expressions are their values, and an assignment or a system task writes its number to a log.
abbrev pub plain : Interface BitVector ℕ (List ℕ)
plain = record {
  evaluate = λ e sh. (e, sh);
  set_target = λ l sh. sh;
  clr_target = λ l sh. sh;
  trigger_lvalue = λ l v sh. record sh { nets = sh.nets ++ l ∷ [] };
  monitor_expr = λ ev e sh. some sh;
  system = λ t p sh. (true, record sh { nets = sh.nets ++ t ∷ [] });
  entry_iovars = λ t args sh. sh;
  exit_iovars = λ t args sh. sh;
}

pub plain-KeepsWheel : KeepsWheel plain
plain-KeepsWheel = record {
  evaluate_keeps = λ e sh. refl;
  set_target_keeps = λ l sh. refl;
  clr_target_keeps = λ l sh. refl;
  trigger_lvalue_keeps = λ l v sh. refl;
  monitor_expr_keeps = λ ev e sh. refl;
  system_keeps = λ t p sh. refl;
  entry_iovars_keeps = λ t args sh. refl;
  exit_iovars_keeps = λ t args sh. refl;
}

abbrev pub stmt_of : Kind BitVector ℕ → Stmt BitVector ℕ
stmt_of k = record { always = false; ec = none; dec = none; kind = k }

abbrev pub begin_end : List ℕ → Kind BitVector ℕ
begin_end l = seq_block_stmt (record { pushed = false; curstmt = 0; stk = []; stmts = l })

-- `#2 ;`, by the control 0.
abbrev pub pause : Stmt BitVector ℕ
pause = record { always = false; ec = none; dec = some 0; kind = null_stmt }

-- `begin $1; begin #2; $2; end $3; end`.
abbrev pub nested : ℕ → Stmt BitVector ℕ
nested p =
    if p == 0
    then stmt_of (begin_end (1 ∷ 2 ∷ 3 ∷ []))
    else if p == 1
    then stmt_of (systask 1)
    else if p == 2
    then stmt_of (begin_end (4 ∷ 5 ∷ []))
    else if p == 3
    then stmt_of (systask 3)
    else if p == 4
    then pause
    else stmt_of (systask 2)

abbrev pub any_event : Event
any_event = record { type = nonblk; container = 0 }

abbrev pub engine_of : (ℕ → Stmt BitVector ℕ) → List ℕ → Engine BitVector ℕ (List ℕ)
engine_of ss first = record {
  shared = record {
    timewheel = record { latest_time = 0; nodes = record { time = 0; events = first } ∷ [] };
    eventqueue = new_queue 0;
    containers = λ c. record { active = false; force = false; object = 0 };
    nets = [];
  };
  statements = ss;
  controls = λ c. record { delayed = false; control = delay_num 2 any_event };
  tasks = λ t. record { is_system = true; delayed = false; entry = 0; has_iovariable = false };
}

pause_waits :
    trigger plain 3 0 4 (engine_of nested [])
    ≡ done (false, (handle_dec 0 4 (engine_of nested [])).1)
unfolding trigger
pause_waits = refl

trigger-Delays_example :
    Delays
      ((engine_of nested []).shared.timewheel, kinds (engine_of nested []))
      (
        (handle_dec 0 4 (engine_of nested [])).1.shared.timewheel,
        kinds (handle_dec 0 4 (engine_of nested [])).1,
      )
trigger-Delays_example =
    trigger-Delays plain plain-KeepsWheel 3 0 4 (engine_of nested []) pause_waits

-- `begin $2; begin $2; $3; end end`, which has started.
abbrev started : SeqBlock
started = record { pushed = true; curstmt = 0; stk = 0 ∷ []; stmts = 2 ∷ 1 ∷ [] }

abbrev tree : ℕ → Stmt BitVector ℕ
tree zero = stmt_of (seq_block_stmt started)
tree (suc zero) = stmt_of (begin_end (2 ∷ 3 ∷ []))
tree (suc (suc n)) = stmt_of (systask (suc (suc n)))

abbrev tree_rank : ℕ → ℕ
tree_rank zero = 2
tree_rank (suc zero) = 1
tree_rank (suc (suc n)) = 0

-- No statement is simple and no task is there.
abbrev ranking : Ranking
ranking = record { rank = tree_rank; task_rank = λ t. 3; is_simple = λ p. false }

abbrev engine_started : Engine BitVector ℕ (List ℕ)
engine_started = record (engine_of tree []) {
  tasks = λ t. record { is_system = false; delayed = false; entry = 0; has_iovariable = false };
}

tree-Fits : (p : ℕ) → Fits ranking p (tree p).kind
tree-Fits zero = (refl, (omega arith, (omega arith, tt)))
tree-Fits (suc zero) = (refl, (omega arith, (omega arith, tt)))
tree-Fits (suc (suc n)) = tt

tree-IsRanked : IsRanked ranking engine_started
tree-IsRanked = record { statements_fit = tree-Fits; tasks_fit = λ t. (omega arith, λ e. cc) }

tree-Unpushed : Unpushed ranking 2 engine_started
tree-Unpushed zero b low e = absurd (omega arith)
tree-Unpushed (suc zero) b low e = cc
tree-Unpushed (suc (suc n)) b low e = cc

block_loop-in_turn_example :
    block_loop (trigger plain 5) 3 0 engine_started
    ≡ in_turn (trigger plain 5) 0 0 (drop 0 started.stmts) engine_started
block_loop-in_turn_example =
    block_loop-in_turn ranking plain 5 0 0 3 started engine_started (omega arith) tree-IsRanked
      tree-Unpushed
      (record {
        outer = started;
        below = [];
        parent_block = refl;
        top_block = refl;
        own_block = refl;
      })
      (omega arith)

abbrev zero_or_one : List (CaseItem BitVector)
zero_or_one =
    record { stmt = 3; exprs = some (of_bit lo ∷ []) }
    ∷ record { stmt = 1; exprs = some (of_bit lo ∷ one ∷ []) }
    ∷ []

case_of-first_match_example :
    case_of plain (trigger plain 1) 0 case_c one zero_or_one none (engine_of nested [])
    ≡ run_choice plain
        (λ e sh. refl)
        (trigger plain 1)
        0
        (first_match case_c one (λ e. e) zero_or_one)
        none
        (engine_of nested [])
case_of-first_match_example =
    case_of-first_match plain (λ e sh. refl) (trigger plain 1) 0 case_c one zero_or_one none
      (engine_of nested []) (refl, (refl, tt)) tt
