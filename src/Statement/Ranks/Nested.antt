-- ===== src/Statement/Ranks/Nested.antt =====
-- A nested block of src/stmt/strigger.cc: it is put on the stack of the parent, its statements are
-- triggered, and when it is done it is off the stack again, and all others are as they were.
use verilog_behavioral_simul.Base.{
  ◌⊎◌, ◌==◌, ==_iff, ◌+◌, tail, Bool-cases, ap, arith, dec_lt, false, inl, inr, refl, some, sym,
  true, ℕ, ◌<◌, ◌∙◌, ◌∷◌, ◌≡◌, ◌≤◌,
}
use verilog_behavioral_simul.Statement.{Engine, SeqBlock}
use verilog_behavioral_simul.Statement.Block.{change_block, next_statement, pop_block}
use verilog_behavioral_simul.Statement.Ranks.{IsRanked, Keeps, Ranking, Unpushed, block_at}
use verilog_behavioral_simul.Statement.Ranks.Blocks.{
  change_block-IsRanked, change_block-other, change_block-same,
}
use verilog_behavioral_simul.Statement.Sequence.{OnTop}

-- Of different ranks.
pub apart : (g : Ranking) (p q : ℕ) → g.rank p < g.rank q → ¬ (q ≡ p)
apart g p q less e = let same : g.rank q ≡ g.rank p = ap g.rank e in omega arith

same_or_not : (p q : ℕ) → (p ≡ q) ⊎ ¬ (p ≡ q)
same_or_not p q = elim (Bool-cases (p == q)) [
  | inl e ↦ inl ((==_iff p q).0 e)
  | inr e ↦ inr (λ w. let t : (p == q) ≡ true = (==_iff p q).1 w in cc)
]

module _ (g : Ranking) {X L S : Type 0} where
  -- The session of a nested block `p`, from the engine `m` in which its parent was the block `pb`.
  pub record Inside (parent p : ℕ) (pb : SeqBlock) (m m' : Engine X L S) : Type 0 where
    pub ranked : IsRanked g m'
    pub unpushed : Unpushed g (g.rank p) m'
    pub parent_block : block_at m' parent ≡ some (record pb { stk = p ∷ pb.stk })
    pub own : SeqBlock
    pub own_block : block_at m' p ≡ some own
    pub others :
        (q : ℕ) → g.rank p ≤ g.rank q → ¬ (q ≡ p) → ¬ (q ≡ parent) → block_at m' q ≡ block_at m q

  pub Inside-OnTop :
      (parent p : ℕ) (pb : SeqBlock) (m m' : Engine X L S) (h : Inside parent p pb m m')
      → OnTop parent p h.own m'
  Inside-OnTop parent p pb m m' h = record {
    outer = record pb { stk = p ∷ pb.stk };
    below = pb.stk;
    parent_block = h.parent_block;
    top_block = refl;
    own_block = h.own_block;
  }

  pub Inside-Keeps :
      (parent p : ℕ) (pb : SeqBlock) (m m' m'' : Engine X L S)
      → g.rank p < g.rank parent
      → Inside parent p pb m m'
      → Keeps g (g.rank p) m' m''
      → Inside parent p pb m m''
  Inside-Keeps parent p pb m m' m'' less h k = record {
    ranked = k.ranked;
    unpushed = k.unpushed;
    parent_block = k.blocks parent (omega arith) ∙ h.parent_block;
    own = h.own;
    own_block = k.blocks p (omega arith) ∙ h.own_block;
    others = λ q le a b. k.blocks q le ∙ h.others q le a b;
  }

  pub Inside-next :
      (parent p : ℕ) (pb : SeqBlock) (m m' : Engine X L S)
      → g.rank p < g.rank parent
      → Inside parent p pb m m'
      → Inside parent p pb m (next_statement p m')
  Inside-next parent p pb m m' less h = record {
    ranked =
        change_block-IsRanked g p (λ b. record b { curstmt = b.curstmt + 1 }) m' (λ b. refl)
          h.ranked;
    unpushed = λ q b low e.
        h.unpushed q b low (sym (change_block-other p q _ m' (λ w. apart g q p low (sym w))) ∙ e);
    parent_block = change_block-other p parent _ m' (apart g p parent less) ∙ h.parent_block;
    own = record h.own { curstmt = h.own.curstmt + 1 };
    own_block =
        change_block-same p (λ b. record b { curstmt = b.curstmt + 1 }) m' h.own h.own_block;
    others = λ q le a b. change_block-other p q _ m' a ∙ h.others q le a b;
  }

  -- At the end the parent's block is what it was, and the block itself is off the stack.
  pub pop_block-Keeps :
      (r parent p : ℕ) (pb : SeqBlock) (m m' : Engine X L S)
      → g.rank p < r
      → r ≤ g.rank parent
      → Unpushed g r m
      → block_at m parent ≡ some pb
      → Inside parent p pb m m'
      → Keeps g r m (pop_block parent p m')
  pop_block-Keeps r parent p pb m m' low up u e h = record {
    ranked =
        change_block-IsRanked g p off m1 (λ b. refl)
          (change_block-IsRanked g parent pop m' (λ b. refl) h.ranked);
    unpushed = unpushed;
    blocks = blocks;
  }
    where
      off : SeqBlock → SeqBlock
      off b = record b { pushed = false }

      pop : SeqBlock → SeqBlock
      pop b = record b { stk = tail b.stk }

      m1 : Engine X L S
      m1 = change_block parent pop m'

      own_then : block_at (change_block p off m1) p ≡ some (off h.own)
      own_then = change_block-same p off m1 h.own (
          change_block-other parent p pop m' (λ q. apart g p parent (omega arith) (sym q))
          ∙ h.own_block)

      other :
          (q : ℕ) → ¬ (q ≡ p) → ¬ (q ≡ parent) → block_at (change_block p off m1) q ≡ block_at m' q
      other q a b = change_block-other p q off m1 a ∙ change_block-other parent q pop m' b

      unpushed : Unpushed g r (change_block p off m1)
      unpushed q b less now = elim (same_or_not q p) [
        | inl same ↦
            let own : some (off h.own) ≡ some b =
              sym own_then ∙ ap (block_at (change_block p off m1)) (sym same) ∙ now in
            cc
        | inr differ ↦
            let there = sym (other q differ (λ w. apart g q parent (omega arith) (sym w))) ∙ now in
            elim (dec_lt (g.rank q) (g.rank p)) [
              | yes below ↦ h.unpushed q b below there
              | no above ↦ u q b less (
                  sym
                    (h.others q (omega arith) differ (λ w. apart g q parent (omega arith) (sym w)))
                  ∙ there)
            ]
      ]

      blocks : (q : ℕ) → r ≤ g.rank q → block_at (change_block p off m1) q ≡ block_at m q
      blocks q le = elim (same_or_not q parent) [
        | inl same ↦ rw same (
            change_block-other p parent off m1 (apart g p parent (omega arith))
            ∙ change_block-same parent pop m' _ h.parent_block
            ∙ sym e)
        | inr differ ↦
            let away = apart g p q (omega arith) in
            other q away differ ∙ h.others q (omega arith) away differ
      ]
