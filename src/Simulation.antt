-- ===== src/Simulation.antt =====
-- The simulation loop of src/sim.cc: the handlers that it gives to the time wheel and to the event
-- queue, what it does when a statement reaches its end, and the entry points that step and run a
-- simulation. Statements are triggered by the argument `call`, the trigger of Statement/Trigger.
pub mod Handlers
pub mod Units
pub mod Running
pub mod Order
pub mod Tests
pub mod Schedule
pub mod Scheduling
pub mod Serving
use verilog_behavioral_simul.Base.{
  Bool, List, Option, [], false, get_elem?, if◌then◌else◌, ltb, negsuc, none, pos, some, true, ℕ, ℤ,
  ◌%◌, ◌-◌, ◌^◌, ◌||◌, ◌∷◌,
}
use verilog_behavioral_simul.Statement.{
  Engine, Outcome, SeqBlock, Stmt, done, fault, get_loop, get_seq_block, get_task_enable,
  set_delayed,
}
use verilog_behavioral_simul.Statement.Block.{change_block, next_statement}
use verilog_behavioral_simul.Statement.Interface.{on_shared}
use verilog_behavioral_simul.TimeWheel
use verilog_behavioral_simul.EventQueue

-- A simulation goes on, or it ended at a fault or for want of rounds.
pub data Status : Type 0 where
  running failed exhausted : Status

pub record Session (X L S : Type 0) : Type 0 where
  pub engine : Engine X L S
  pub status : Status

-- `(int) current_time`, an `int` of 32 bits.
unfoldable pub to_int : ℕ → ℤ
to_int t = let r = t % 2 ^ 32 in if ltb r (2 ^ 31) then pos r else negsuc (2 ^ 32 - 1 - r)

abbrev pub is_before : ℤ → ℤ → Bool
is_before (pos a) (pos b) = ltb a b
is_before (pos a) (negsuc b) = false
is_before (negsuc a) (pos b) = true
is_before (negsuc a) (negsuc b) = ltb b a

abbrev pub is_none {ℓ} : {A : Type ℓ} → Option A → Bool
is_none none = true
is_none (some a) = false

module _ {X L : Type 0} where
  -- Whether the statement that a block has reached waits in a loop or in a task.
  abbrev pub waits : Stmt X L → Bool
  waits s =
      elim (get_loop s) [ none ↦ false | some l ↦ l.delayed ]
      || elim (get_task_enable s) [ none ↦ false | some t ↦ t.delayed ]

module _ {X L S : Type 0} where
  -- `timewheel.add_event(timewheel.current_time(), st)`.
  abbrev pub requeue : ℕ → Engine X L S → Engine X L S
  requeue st =
      on_shared
        λ sh. record sh { timewheel = TimeWheel.add_event sh.timewheel.latest_time st sh.timewheel }

  -- `_dec->_delayed = false`.
  abbrev pub reset_dec : Option ℕ → Engine X L S → Engine X L S
  reset_dec none m = m
  reset_dec (some c) m = set_delayed c false m

  -- `trigger_postproc` of a statement of an always construct.
  abbrev pub always_at : ℕ → Option SeqBlock → Engine X L S → Outcome (Engine X L S)
  always_at st none m = fault
  always_at st (some b) m =
      let m1 = next_statement st m in
      done (
        if is_none (m1.statements st).ec
        then requeue st (reset_dec (m1.statements st).dec m1)
        else m1)

  unfoldable pub finish_always : ℕ → Engine X L S → Outcome (Engine X L S)
  unfolding change_block
  finish_always st m = always_at st (get_seq_block (m.statements st)) m

  -- The statement that the block on top of the stack has reached.
  abbrev pub level_at : ℕ → ℕ → Option ℕ → Engine X L S → Outcome (Engine X L S)
  level_at st top none m = fault
  level_at st top (some s) m =
      done (requeue st (if waits (m.statements s) then m else next_statement top m))

  abbrev pub level_of : ℕ → ℕ → Option SeqBlock → Engine X L S → Outcome (Engine X L S)
  level_of st top none m = fault
  level_of st top (some b) m = level_at st top (get_elem? b.stmts b.curstmt) m

  -- `trigger_postproc` of an initial construct whose stack has a block on top.
  unfoldable pub finish_level : ℕ → ℕ → Engine X L S → Outcome (Engine X L S)
  unfolding change_block
  finish_level st top m = level_of st top (get_seq_block (m.statements top)) m

  abbrev pub finish_stack : ℕ → List ℕ → Engine X L S → Outcome (Engine X L S)
  finish_stack st [] m = done m
  finish_stack st (top ∷ rest) m = finish_level st top m

  abbrev pub finish_initial : ℕ → Option SeqBlock → Engine X L S → Outcome (Engine X L S)
  finish_initial st none m = done m
  finish_initial st (some b) m = finish_stack st b.stk m

  unfoldable pub trigger_postproc : ℕ → Engine X L S → Outcome (Engine X L S)
  unfolding finish_always finish_level
  trigger_postproc st m =
      if (m.statements st).always
      then finish_always st m
      else finish_initial st (get_seq_block (m.statements st)) m
