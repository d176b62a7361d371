-- ===== src/Statement/Ranks/Blocks.antt =====
-- What a nested block of src/stmt/strigger.cc keeps of the other blocks: it is put on the stack of
-- the parent, and when it is done it is off again.
use verilog_behavioral_simul.Base.{
  ==_iff, Bool-cases, ap, false, inl, inr, refl, some, sym, true, ℕ, ◌==◌, ◌∙◌, ◌≡◌,
}
use verilog_behavioral_simul.Statement.{
  Engine, Kind, SeqBlock, assignment_stmt, case_stmt, if_else_stmt, loop_stmt, null_stmt,
  seq_block_stmt, set_kind, systask, task_enable_stmt, update,
}
use verilog_behavioral_simul.Statement.Block.{change_block, on_block}
use verilog_behavioral_simul.Statement.Ranks.{AllBelow, Fits, IsRanked, Ranking, block_at, block_of}

same_place : (p : ℕ) → (p == p) ≡ true
same_place p = (==_iff p p).1 refl

module _ {X L : Type 0} where
  on_block-some :
      (f : SeqBlock → SeqBlock) (k : Kind X L) (b : SeqBlock)
      → block_of k ≡ some b
      → block_of (on_block f k) ≡ some (f b)
  on_block-some f (seq_block_stmt c) b e = let q : c ≡ b = cc in ap (λ x. some (f x)) q
  on_block-some f null_stmt b e = cc
  on_block-some f (task_enable_stmt te) b e = cc
  on_block-some f (assignment_stmt a) b e = cc
  on_block-some f (if_else_stmt x t d) b e = cc
  on_block-some f (case_stmt t x items d) b e = cc
  on_block-some f (loop_stmt l) b e = cc
  on_block-some f (systask n) b e = cc

module _ (g : Ranking) {X L : Type 0} where
  on_block-Fits :
      (f : SeqBlock → SeqBlock)
      → ((b : SeqBlock) → (f b).stmts ≡ b.stmts)
      → (q : ℕ) (k : Kind X L) → Fits g q k
      → Fits g q (on_block f k)
  on_block-Fits f same q (seq_block_stmt b) h = rw (same b) h
  on_block-Fits f same q null_stmt h = h
  on_block-Fits f same q (task_enable_stmt te) h = h
  on_block-Fits f same q (assignment_stmt a) h = h
  on_block-Fits f same q (if_else_stmt x t d) h = h
  on_block-Fits f same q (case_stmt t x items d) h = h
  on_block-Fits f same q (loop_stmt l) h = h
  on_block-Fits f same q (systask n) h = h

  pub block-Fits :
      (q : ℕ) (k : Kind X L) (b : SeqBlock)
      → Fits g q k
      → block_of k ≡ some b
      → (g.is_simple q ≡ false) × AllBelow g (g.rank q) b.stmts
  block-Fits q (seq_block_stmt c) b h e = let same : c ≡ b = cc in rw (← same) h
  block-Fits q null_stmt b h e = cc
  block-Fits q (task_enable_stmt te) b h e = cc
  block-Fits q (assignment_stmt a) b h e = cc
  block-Fits q (if_else_stmt x t d) b h e = cc
  block-Fits q (case_stmt t x items d) b h e = cc
  block-Fits q (loop_stmt l) b h e = cc
  block-Fits q (systask n) b h e = cc

module _ {X L S : Type 0} where
  pub set_kind-same :
      (p : ℕ) (k : Kind X L) (m : Engine X L S) → block_at (set_kind p k m) p ≡ block_of k
  unfolding update
  set_kind-same p k m = rw (same_place p) refl

  pub set_kind-other :
      (p q : ℕ) (k : Kind X L) (m : Engine X L S)
      → ¬ (q ≡ p)
      → block_at (set_kind p k m) q ≡ block_at m q
  unfolding update
  set_kind-other p q k m ne = elim (Bool-cases (p == q)) [
    | inl e ↦ absurd (ne (sym ((==_iff p q).0 e)))
    | inr e ↦ rw e refl
  ]

  pub change_block-same :
      (p : ℕ) (f : SeqBlock → SeqBlock) (m : Engine X L S) (b : SeqBlock)
      → block_at m p ≡ some b
      → block_at (change_block p f m) p ≡ some (f b)
  unfolding change_block
  change_block-same p f m b e =
      set_kind-same p (on_block f (m.statements p).kind) m
      ∙ on_block-some f (m.statements p).kind b e

  pub change_block-other :
      (p q : ℕ) (f : SeqBlock → SeqBlock) (m : Engine X L S)
      → ¬ (q ≡ p)
      → block_at (change_block p f m) q ≡ block_at m q
  unfolding change_block
  change_block-other p q f m ne = set_kind-other p q (on_block f (m.statements p).kind) m ne

module _ (g : Ranking) {X L S : Type 0} where
  pub set_kind-IsRanked :
      (p : ℕ) (k : Kind X L) (m : Engine X L S)
      → IsRanked g m
      → Fits g p k
      → IsRanked g (set_kind p k m)
  unfolding update
  set_kind-IsRanked p k m h fits = record {
    statements_fit = λ q. elim (Bool-cases (p == q)) [
      | inl e ↦ rw e (rw ((==_iff p q).0 e) at fits)
      | inr e ↦ rw e (h.statements_fit q)
    ];
    tasks_fit = h.tasks_fit;
  }

  pub change_block-IsRanked :
      (p : ℕ) (f : SeqBlock → SeqBlock) (m : Engine X L S)
      → ((b : SeqBlock) → (f b).stmts ≡ b.stmts)
      → IsRanked g m
      → IsRanked g (change_block p f m)
  unfolding change_block
  change_block-IsRanked p f m same h =
      set_kind-IsRanked p (on_block f (m.statements p).kind) m h
        (on_block-Fits g f same p (m.statements p).kind (h.statements_fit p))
