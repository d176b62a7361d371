-- ===== src/Statement/Block.antt =====
-- Sequential blocks: `trigger_stmt` of `seq_block_stmt` in src/stmt/strigger.cc.
use verilog_behavioral_simul.Base.{
  Bool, List, Option, [], false, get_elem?, if◌then◌else◌, none, some, suc, tail, true, zero, ℕ,
  ◌+◌, ◌∷◌,
}
use verilog_behavioral_simul.Statement.{
  Engine, Kind, Outcome, SeqBlock, change_kind, done, fault, get_seq_block, seq_block_stmt,
  set_kind, spent, update, ◌>>=◌,
}
use verilog_behavioral_simul.Statement.Interface.{Call}

module _ {X L : Type 0} where
  -- A change of the block that lies at a pointer.
  abbrev pub on_block : (SeqBlock → SeqBlock) → Kind X L → Kind X L
  on_block f (seq_block_stmt b) = seq_block_stmt (f b)
  on_block f k = k

module _ {X L S : Type 0} where
  unfoldable pub change_block : ℕ → (SeqBlock → SeqBlock) → Engine X L S → Engine X L S
  unfolding update
  change_block p f m = change_kind p (on_block f) m

  -- `_stk.push(p)` of the parent's block.
  abbrev pub push_on : ℕ → ℕ → Option SeqBlock → Engine X L S → Outcome (Engine X L S)
  push_on parent p none m = fault
  push_on parent p (some pb) m =
      done (set_kind parent (seq_block_stmt (record pb { stk = p ∷ pb.stk })) m)

  -- The block starts at its first statement, and is put on its parent's stack.
  unfoldable pub push_block : ℕ → ℕ → SeqBlock → Engine X L S → Outcome (Engine X L S)
  unfolding update
  push_block parent p b m =
      let m1 = set_kind p (seq_block_stmt (record b { curstmt = 0; pushed = true })) m in
      push_on parent p (get_seq_block (m1.statements parent)) m1

  -- `_stk.pop()` of the parent's block, and the flag of the block that ended.
  abbrev pub pop_block : ℕ → ℕ → Engine X L S → Engine X L S
  pop_block parent p m =
      change_block p (λ b. record b { pushed = false })
        (change_block parent (λ b. record b { stk = tail b.stk }) m)

  abbrev pub next_statement : ℕ → Engine X L S → Engine X L S
  next_statement p m = change_block p (λ b. record b { curstmt = b.curstmt + 1 }) m

-- The statement that the block on top of the parent's stack has to trigger.
pub data Current : Type 0 where
  no_parent : Current
  no_block : Current
  ended : ℕ → Current
  at : ℕ → ℕ → Current

abbrev pub position : ℕ → Option SeqBlock → Current
position nesting none = no_parent
position nesting (some b) = elim (get_elem? b.stmts b.curstmt) [
  | none ↦ ended nesting
  | some s ↦ at nesting s
]

module _ {X L S : Type 0} where
  abbrev pub top_of : List ℕ → Engine X L S → Current
  top_of [] m = no_block
  top_of (nesting ∷ rest) m = position nesting (get_seq_block (m.statements nesting))

  unfoldable pub current : ℕ → Engine X L S → Current
  current parent m = elim (get_seq_block (m.statements parent)) [
    | none ↦ no_parent
    | some pb ↦ top_of pb.stk m
  ]

  -- After a statement of the block: on, unless it waits.
  abbrev pub after_call :
      (Engine X L S → Outcome (Bool × Engine X L S))
      → ℕ
      → Bool × Engine X L S
      → Outcome (Bool × Engine X L S)
  after_call go_on nesting (false, m) = done (false, m)
  after_call go_on nesting (true, m) = go_on (next_statement nesting m)

  -- One turn of the outer `while` of a sequential block, with what follows it.
  abbrev pub block_turn :
      Call X L S
      → (Engine X L S → Outcome (Bool × Engine X L S))
      → ℕ
      → Current
      → Engine X L S
      → Outcome (Bool × Engine X L S)
  block_turn call go_on parent no_parent m = fault
  block_turn call go_on parent no_block m = done (true, m)
  block_turn call go_on parent (ended nesting) m = done (true, pop_block parent nesting m)
  block_turn call go_on parent (at nesting s) m = call parent s m >>= after_call go_on nesting

  unfoldable pub block_loop : Call X L S → ℕ → ℕ → Engine X L S → Outcome (Bool × Engine X L S)
  unfolding change_block current
  block_loop call zero parent m = spent
  block_loop call (suc fuel) parent m =
      block_turn call (block_loop call fuel parent) parent (current parent m) m

  unfoldable pub block :
      Call X L S → ℕ → ℕ → ℕ → SeqBlock → Engine X L S → Outcome (Bool × Engine X L S)
  unfolding push_block block_loop
  block call fuel parent p b m =
      if b.pushed
      then block_loop call fuel parent m
      else (push_block parent p b m >>= λ m1. block_loop call fuel parent m1)
