-- ===== src/Statement/Ranks/Entry.antt =====
-- The trigger of a nested block in src/stmt/strigger.cc, from the push to the pop.
use verilog_behavioral_simul.Base.{
  Bool, Option, arith, false, get_elem?, none, refl, some, suc, sym, true, zero, ℕ, ◌<◌, ◌∙◌, ◌∷◌,
  ◌≡◌, ◌≤◌,
}
use verilog_behavioral_simul.Statement.{
  Engine, Outcome, SeqBlock, done, fault, seq_block_stmt, set_kind, spent, ◌>>=◌,
}
use verilog_behavioral_simul.Statement.Block.{
  after_call, at, block, block_loop, block_turn, ended, next_statement, push_block, push_on,
}
use verilog_behavioral_simul.Statement.Interface.{Call}
use verilog_behavioral_simul.Statement.Ranks.{
  AllBelow-elem, Callee, IsQuiet-Keeps, IsQuiet-refl, Keeps, KeepsAfter, Keeps-trans, Ranking,
  Unpushed, block_at,
}
use verilog_behavioral_simul.Statement.Ranks.Blocks.{
  block-Fits, set_kind-IsRanked, set_kind-other, set_kind-same,
}
use verilog_behavioral_simul.Statement.Ranks.Nested.{
  Inside, Inside-Keeps, Inside-OnTop, Inside-next, apart, pop_block-Keeps,
}
use verilog_behavioral_simul.Statement.Sequence.{current-OnTop}

module _ (g : Ranking) {X L S : Type 0} where
  KeepsAfter-trans :
      (r : ℕ) (m0 m : Engine X L S) (o : Outcome (Bool × Engine X L S))
      → Keeps g r m0 m
      → KeepsAfter g r m o
      → KeepsAfter g r m0 o
  KeepsAfter-trans r m0 m (done (true, m')) k h = Keeps-trans g r m0 m m' k h
  KeepsAfter-trans r m0 m (done (false, m')) k h = tt
  KeepsAfter-trans r m0 m fault k h = tt
  KeepsAfter-trans r m0 m spent k h = tt

  push-Inside :
      (r parent p : ℕ) (b pb : SeqBlock) (m : Engine X L S)
      → g.rank p < r
      → r ≤ g.rank parent
      → Keeps g r m m
      → block_at m p ≡ some b
      → block_at m parent ≡ some pb
      → Inside g parent p pb m (
          set_kind parent
            (seq_block_stmt (record pb { stk = p ∷ pb.stk }))
            (set_kind p (seq_block_stmt (record b { curstmt = 0; pushed = true })) m))
  push-Inside r parent p b pb m low up k e f =
      let away = apart g p parent (omega arith) in
      let below_p = seq_block_stmt (record b { curstmt = 0; pushed = true }) in
      let below_parent = seq_block_stmt (record pb { stk = p ∷ pb.stk }) in
      let m1 = set_kind p below_p m in
      record {
        ranked =
            set_kind-IsRanked g parent below_parent m1
              (set_kind-IsRanked g p below_p m k.ranked
                (block-Fits g p (m.statements p).kind b (k.ranked.statements_fit p) e))
              (block-Fits g parent (m.statements parent).kind pb (k.ranked.statements_fit parent)
                f);
        unpushed = λ q c less now. k.unpushed q c (omega arith) (
            sym (
              set_kind-other parent q below_parent m1 (λ w. apart g q parent (omega arith) (sym w))
              ∙ set_kind-other p q below_p m (λ w. apart g q p less (sym w)))
            ∙ now);
        parent_block = set_kind-same parent below_parent m1;
        own = record b { curstmt = 0; pushed = true };
        own_block =
            set_kind-other parent p below_parent m1 (λ w. away (sym w)) ∙ set_kind-same p below_p m;
        others =
            λ q le a c. set_kind-other parent q below_parent m1 c ∙ set_kind-other p q below_p m a;
      }

  module _ (call : Call X L S) (c : Callee g call) where
    nested_loop-Keeps :
        (fuel r parent p : ℕ) (pb : SeqBlock) (m m' : Engine X L S)
        → g.rank p < r
        → r ≤ g.rank parent
        → Unpushed g r m
        → block_at m parent ≡ some pb
        → Inside g parent p pb m m'
        → KeepsAfter g r m (block_loop call fuel parent m')
    unfolding block_loop
    nested_loop-Keeps zero r parent p pb m m' low up u f h = tt
    nested_loop-Keeps (suc fuel) r parent p pb m m' low up u f h =
        rw (current-OnTop parent p h.own m' (Inside-OnTop g parent p pb m m' h))
          (turn (nested_loop-Keeps fuel r parent p pb m) (get_elem? h.own.stmts h.own.curstmt) refl)
      where
        after :
            ((m' : Engine X L S)
              → g.rank p < r
              → r ≤ g.rank parent
              → Unpushed g r m
              → block_at m parent ≡ some pb
              → Inside g parent p pb m m'
              → KeepsAfter g r m (block_loop call fuel parent m'))
            → (o : Outcome (Bool × Engine X L S)) → KeepsAfter g (g.rank p) m' o
            → KeepsAfter g r m (o >>= after_call (block_loop call fuel parent) p)
        after ih (done (true, m'')) k = ih (next_statement p m'') low up u f (
            Inside-next g parent p pb m m'' (omega arith)
              (Inside-Keeps g parent p pb m m' m'' (omega arith) h k))
        after ih (done (false, m'')) k = tt
        after ih fault k = tt
        after ih spent k = tt

        turn :
            ((m' : Engine X L S)
              → g.rank p < r
              → r ≤ g.rank parent
              → Unpushed g r m
              → block_at m parent ≡ some pb
              → Inside g parent p pb m m'
              → KeepsAfter g r m (block_loop call fuel parent m'))
            → (o : Option ℕ) → get_elem? h.own.stmts h.own.curstmt ≡ o
            → KeepsAfter g r m (
                block_turn call
                  (block_loop call fuel parent)
                  parent
                  (elim o [ none ↦ ended p | some s ↦ at p s ])
                  m')
        turn ih none e = pop_block-Keeps g r parent p pb m m' low up u f h
        turn ih (some s) e = after ih (call parent s m') (
            c.lower (g.rank p) m' m' parent s
              (AllBelow-elem g (g.rank p) h.own.stmts h.own.curstmt s
                (block-Fits g p (m'.statements p).kind h.own (h.ranked.statements_fit p)
                  h.own_block).1
                e)
              (omega arith)
              (IsQuiet-Keeps g (g.rank p) m' m' h.ranked h.unpushed (IsQuiet-refl g m')))

    pub block-Keeps :
        (fuel r : ℕ) (m0 : Engine X L S) (parent p : ℕ) (b : SeqBlock) (m : Engine X L S)
        → g.rank p < r
        → r ≤ g.rank parent
        → block_at m p ≡ some b
        → Keeps g r m0 m
        → KeepsAfter g r m0 (block call fuel parent p b m)
    unfolding block push_block
    block-Keeps fuel r m0 parent p b m low up e k =
        KeepsAfter-trans r m0 m (block call fuel parent p b m) k
          (rw (k.unpushed p b low e) (go (block_at m1 parent) refl))
      where
        m1 : Engine X L S
        m1 = set_kind p (seq_block_stmt (record b { curstmt = 0; pushed = true })) m

        go :
            (o : Option SeqBlock)
            → block_at m1 parent ≡ o
            → KeepsAfter g r m (push_on parent p o m1 >>= λ m2. block_loop call fuel parent m2)
        go none f = tt
        go (some pb) f =
            let f' = sym (set_kind-other p parent _ m (apart g p parent (omega arith))) ∙ f in
            nested_loop-Keeps fuel r parent p pb m _ low up k.unpushed f' (
              push-Inside r parent p b pb m low up
                (IsQuiet-Keeps g r m m k.ranked k.unpushed (IsQuiet-refl g m)) e f')
