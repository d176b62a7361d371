-- ===== src/Statement/Turns.antt =====
-- The loop of a sequential block in src/stmt/strigger.cc, with the trigger of the statements.
use verilog_behavioral_simul.Base.{
  ◌+◌, arith, drop, length, refl, subst, sym, ℕ, ◌-◌, ◌<◌, ◌∙◌, ◌≡◌, ◌≤◌,
}
use verilog_behavioral_simul.Statement.{Engine, SeqBlock}
use verilog_behavioral_simul.Statement.Block.{block_loop, next_statement}
use verilog_behavioral_simul.Statement.Interface.{Interface}
use verilog_behavioral_simul.Statement.Ranks.{
  AllBelow-elem, IsQuiet-Keeps, IsQuiet-refl, IsRanked, Keeps, KeepsAfter, Ranking, Unpushed,
}
use verilog_behavioral_simul.Statement.Ranks.Blocks.{
  block-Fits, change_block-IsRanked, change_block-other,
}
use verilog_behavioral_simul.Statement.Ranks.Nested.{apart}
use verilog_behavioral_simul.Statement.Ranks.Trigger.{trigger-Callee}
use verilog_behavioral_simul.Statement.Sequence.{OnTop, StaysOnTop, in_turn, loop-in_turn}
use verilog_behavioral_simul.Statement.Trigger.{trigger}

module _ (g : Ranking) {X L S : Type 0} (i : Interface X L S) (depth : ℕ) where
  -- The ranks fit, and of the blocks of a lower rank than `p` none is on a stack.
  abbrev pub Ready : ℕ → Engine X L S → Type 0
  Ready p m = IsRanked g m × Unpushed g (g.rank p) m

  Ready-next : (p : ℕ) (m : Engine X L S) → Ready p m → Ready p (next_statement p m)
  Ready-next p m (ranked, unpushed) = (
    change_block-IsRanked g p (λ b. record b { curstmt = b.curstmt + 1 }) m (λ b. refl) ranked,
    λ q b low e. unpushed q b low (
        sym (
          change_block-other p q (λ b. record b { curstmt = b.curstmt + 1 }) m
            (λ w. apart g q p low (sym w)))
        ∙ e),
  )

  trigger-StaysOnTop :
      (parent p : ℕ) → g.rank p ≤ g.rank parent → StaysOnTop (trigger i depth) parent p (Ready p)
  trigger-StaysOnTop parent p up = record {
    stays = λ s b m m' (ranked, unpushed) h now e.
        let low =
          AllBelow-elem g (g.rank p) b.stmts b.curstmt s
            (block-Fits g p (m.statements p).kind b (ranked.statements_fit p) h.own_block).1 now in
        let k : Keeps g (g.rank p) m m' = subst (KeepsAfter g (g.rank p) m) e (
          (trigger-Callee g i depth).lower (g.rank p) m m parent s low up
            (IsQuiet-Keeps g (g.rank p) m m ranked unpushed (IsQuiet-refl g m))) in
        (
          (k.ranked, k.unpushed),
          record {
            outer = h.outer;
            below = h.below;
            parent_block = k.blocks parent up ∙ h.parent_block;
            top_block = h.top_block;
            own_block = k.blocks p (omega arith) ∙ h.own_block;
          },
        );
    advances = Ready-next p;
  }

  -- In a design whose statements form a tree, by ranks, where the heads of for loops and the
  -- statements of system tasks are assignments, null statements or system tasks, and the default
  -- of a case statement is not among its items: when no block of a lower rank than `p` is on a
  -- stack and `p` is on top of its parent's, the loop of the block, with more rounds than
  -- statements left, does what the recursion on these statements does, whatever statements, nested
  -- blocks among them, they are: it triggers each statement once, in order and from where the
  -- block stands, so that a block that waited goes on with the statement that it waited for, and
  -- when all are done takes the block off the stack.
  pub block_loop-in_turn :
      (parent p fuel : ℕ) (b : SeqBlock) (m : Engine X L S)
      → g.rank p ≤ g.rank parent
      → IsRanked g m
      → Unpushed g (g.rank p) m
      → OnTop parent p b m
      → length b.stmts - b.curstmt < fuel
      → block_loop (trigger i depth) fuel parent m
        ≡ in_turn (trigger i depth) parent p (drop b.curstmt b.stmts) m
  block_loop-in_turn parent p fuel b m up ranked unpushed h few =
      loop-in_turn (trigger i depth) parent p (Ready p) (trigger-StaysOnTop parent p up) fuel b m
        (ranked, unpushed) h few
