-- ===== src/Statement/Interface.antt =====
-- What statements use of the other parts, and the steps that they share.
use verilog_behavioral_simul.Base.{Bool, List, Option, if◌then◌else◌, ℕ, ◌%◌, ◌+◌, ◌-◌, ◌^◌}
use verilog_behavioral_simul.BitVector.{BitVector}
use verilog_behavioral_simul.BitVector.Bitwise.{truth}
use verilog_behavioral_simul.BitVector.Compare.{compare_c, compare_x, compare_z}
use verilog_behavioral_simul.EventQueue.{Event}
use verilog_behavioral_simul.Logic.{is_high}
use verilog_behavioral_simul.Statement.{CaseType, Engine, Outcome, Shared, case_c, case_x, case_z}

-- What statements use of expressions, lvalues, system tasks and the arguments of tasks.
pub record Interface (X L S : Type 0) : Type 0 where
  pub evaluate : X → Shared S → BitVector × Shared S
  pub set_target : L → Shared S → Shared S
  pub clr_target : L → Shared S → Shared S
  pub trigger_lvalue : L → BitVector → Shared S → Shared S
  pub monitor_expr : Event → X → Shared S → Option (Shared S)
  pub system : ℕ → ℕ → Shared S → Bool × Shared S
  pub entry_iovars : ℕ → List X → Shared S → Shared S
  pub exit_iovars : ℕ → List X → Shared S → Shared S

-- `--_repeat_count`, an unsigned 32-bit number.
abbrev pub count_down : ℕ → ℕ
count_down n = (n + 2 ^ 32 - 1) % 2 ^ 32

abbrev pub compare_case : CaseType → BitVector → BitVector → Bool
compare_case case_x v e = is_high (compare_x v e)
compare_case case_z v e = is_high (compare_z v e)
compare_case case_c v e = is_high (compare_c v e)

-- A call of a statement's `trigger`, at its parent.
abbrev pub Call : Type 0 → Type 0 → Type 0 → Type 0
Call X L S = ℕ → ℕ → Engine X L S → Outcome (Bool × Engine X L S)

module _ {X L S : Type 0} where
  abbrev pub on_shared : (Shared S → Shared S) → Engine X L S → Engine X L S
  on_shared f m = record m { shared = f m.shared }

module _ {X L S : Type 0} (i : Interface X L S) where
  abbrev pub eval : X → Engine X L S → BitVector × Engine X L S
  eval e m = let (v, sh) = i.evaluate e m.shared in (v, record m { shared = sh })

  abbrev pub test : X → Engine X L S → Bool × Engine X L S
  test e m = let (v, m') = eval e m in (truth v, m')

  -- An lvalue takes a value that is not marked as high impedance.
  abbrev pub store : L → BitVector → Engine X L S → Engine X L S
  store l v m = if v.tristate then m else on_shared (i.trigger_lvalue l v) m
