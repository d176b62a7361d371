-- ===== src/Statement/Loops.antt =====
-- Loops: `trigger_stmt` of `loop_stmt` in src/stmt/strigger.cc.
use verilog_behavioral_simul.Base.{
  Bool, Option, false, if◌then◌else◌, none, not, some, suc, true, zero, ℕ, ◌==◌,
}
use verilog_behavioral_simul.BitVector.Decimal.{to_unsigned_int}
use verilog_behavioral_simul.Statement.{
  Engine, Kind, Loop, LoopType, Outcome, change_kind, done, fault, for_loop, forever_loop, get_loop,
  loop_stmt, repeat_loop, spent, update, while_loop, ◌>>=◌,
}
use verilog_behavioral_simul.Statement.Assign.{set_delayed?}
use verilog_behavioral_simul.Statement.Interface.{Call, Interface, count_down, eval, test}

module _ {X L : Type 0} where
  abbrev pub on_loop : (Loop X → Loop X) → Kind X L → Kind X L
  on_loop f (loop_stmt l) = loop_stmt (f l)
  on_loop f k = k

module _ {X L S : Type 0} where
  abbrev pub change_loop : ℕ → (Loop X → Loop X) → Engine X L S → Engine X L S
  change_loop p f m = change_kind p (on_loop f) m

  -- `--_repeat_count`, and whether it is not 0.
  abbrev pub count_round : ℕ → Option (Loop X) → Engine X L S → Outcome (Bool × Engine X L S)
  count_round p none m = fault
  count_round p (some l) m =
      let n = count_down l.repeat_count in
      done (not (n == 0), change_loop p (λ l. record l { repeat_count = n }) m)

  -- The statement waits in the middle of the loop.
  unfoldable pub suspend_loop : ℕ → Engine X L S → Engine X L S
  unfolding update
  suspend_loop p m =
      set_delayed? (m.statements p).dec true (change_loop p (λ l. record l { delayed = true }) m)

module _ {X L S : Type 0} (i : Interface X L S) where
  -- The test before the first round.
  unfoldable pub before_loop :
      Call X L S → ℕ → LoopType X → Engine X L S → Outcome (Bool × Engine X L S)
  unfolding update
  before_loop call p forever_loop m = done (true, m)
  before_loop call p (repeat_loop e) m =
      let (v, m1) = eval i e m in
      let n = to_unsigned_int v in
      let m2 = change_loop p (λ l. record l { repeat_count = n.number }) m1 in
      done (if n.fail then false else not (n.number == 0), m2)
  before_loop call p (while_loop e) m = done (test i e m)
  before_loop call p (for_loop pre e post) m = call pre pre m >>= λ r. done (test i e r.1)

  -- The test after a round.
  unfoldable pub after_round :
      Call X L S → ℕ → LoopType X → Engine X L S → Outcome (Bool × Engine X L S)
  unfolding update
  after_round call p forever_loop m = done (true, m)
  after_round call p (repeat_loop e) m = count_round p (get_loop (m.statements p)) m
  after_round call p (while_loop e) m = done (test i e m)
  after_round call p (for_loop pre e post) m = call post post m >>= λ r. done (test i e r.1)

  -- After the body: the loop waits with it, or asks its test again.
  abbrev pub after_body_round :
      Call X L S
      → ℕ
      → LoopType X
      → (Bool → Engine X L S → Outcome (Bool × Engine X L S))
      → Bool × Engine X L S
      → Outcome (Bool × Engine X L S)
  after_body_round call p t go_on (false, m) = done (false, suspend_loop p m)
  after_body_round call p t go_on (true, m) = after_round call p t m >>= λ a. go_on a.0 a.1

  -- The `while` of a loop statement, at the answer of its test.
  unfoldable pub rounds :
      Call X L S → ℕ → ℕ → ℕ → LoopType X → ℕ → Bool → Engine X L S → Outcome (Bool × Engine X L S)
  unfolding after_round suspend_loop
  rounds call zero parent p t body more m = spent
  rounds call (suc fuel) parent p t body false m = done (true, m)
  rounds call (suc fuel) parent p t body true m =
      call parent body m
      >>= after_body_round call p t (λ b m1. rounds call fuel parent p t body b m1)

  unfoldable pub loop :
      Call X L S → ℕ → ℕ → ℕ → Loop X → Engine X L S → Outcome (Bool × Engine X L S)
  unfolding before_loop rounds after_round update
  loop call fuel parent p l m =
      if l.delayed
      then (after_round call p l.loop_type (change_loop p (λ l. record l { delayed = false }) m)
          >>= λ a. rounds call fuel parent p l.loop_type l.body a.0 a.1)
      else (before_loop call p l.loop_type m >>= λ a.
          rounds call fuel parent p l.loop_type l.body a.0 a.1)
