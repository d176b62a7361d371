-- ===== src/Statement/Sequence.antt =====
-- The loop of a sequential block in src/stmt/strigger.cc, against a recursion on its statements.
use verilog_behavioral_simul.Base.{
  ==_iff, Bool, Bool-cases, List, Option, [], ap, arith, drop, drop-none, drop-some, false,
  get_elem?, get_elem?-some, if◌then◌else◌, inl, inr, length, none, refl, some, suc, true, zero, ℕ,
  ◌+◌, ◌-◌, ◌<◌, ◌==◌, ◌∙◌, ◌∷◌, ◌≡◌,
}
use verilog_behavioral_simul.Simulation.Handlers.{same}
use verilog_behavioral_simul.Statement.{
  Engine, Kind, Outcome, SeqBlock, Stmt, assignment_stmt, case_stmt, done, fault, get_seq_block,
  if_else_stmt, loop_stmt, null_stmt, seq_block_stmt, spent, systask, task_enable_stmt, update,
  ◌>>=◌,
}
use verilog_behavioral_simul.Statement.Block.{
  after_call, at, block_loop, block_turn, change_block, current, ended, next_statement, on_block,
  pop_block, position,
}
use verilog_behavioral_simul.Statement.Interface.{Call}

same_place : (p : ℕ) → (p == p) ≡ true
same_place p = (==_iff p p).1 refl

if_stk :
    (t : Bool) (f : SeqBlock → SeqBlock) (c : SeqBlock)
    → (f c).stk ≡ c.stk
    → (if t then f c else c).stk ≡ c.stk
if_stk true f c e = e
if_stk false f c e = refl

abbrev pub advance_block : SeqBlock → SeqBlock
advance_block b = record b { curstmt = b.curstmt + 1 }

module _ {X L : Type 0} where
  on_block-some :
      (f : SeqBlock → SeqBlock) (s : Stmt X L) (b : SeqBlock)
      → get_seq_block s ≡ some b
      → get_seq_block (record s { kind = on_block f s.kind }) ≡ some (f b)
  on_block-some f s b e = go s.kind e
    where
      go :
          (k : Kind X L)
          → elim k as (λ _. Option SeqBlock) [ seq_block_stmt c ↦ some c | _ ↦ none ] ≡ some b
          → elim (on_block f k) as (λ _. Option SeqBlock) [ seq_block_stmt c ↦ some c | _ ↦ none ]
            ≡ some (f b)
      go (seq_block_stmt c) e = let q : c ≡ b = cc in ap (λ x. some (f x)) q
      go null_stmt e = cc
      go (task_enable_stmt te) e = cc
      go (assignment_stmt a) e = cc
      go (if_else_stmt x t f') e = cc
      go (case_stmt t x items d) e = cc
      go (loop_stmt l) e = cc
      go (systask n) e = cc

module _ {X L S : Type 0} where
  -- `p` is the block on top of the parent's stack, and is in the state `b`.
  pub record OnTop (parent p : ℕ) (b : SeqBlock) (m : Engine X L S) : Type 0 where
    pub outer : SeqBlock
    pub below : List ℕ
    pub parent_block : get_seq_block (m.statements parent) ≡ some outer
    pub top_block : outer.stk ≡ p ∷ below
    pub own_block : get_seq_block (m.statements p) ≡ some b

  pub current-OnTop :
      (parent p : ℕ) (b : SeqBlock) (m : Engine X L S)
      → OnTop parent p b m
      → current parent m ≡ position p (some b)
  unfolding current
  current-OnTop parent p b m h = rw (current, h.parent_block, h.top_block, h.own_block) refl

  changed-some :
      (p q : ℕ) (f : SeqBlock → SeqBlock) (c : SeqBlock) (m : Engine X L S)
      → get_seq_block (m.statements q) ≡ some c
      → get_seq_block ((change_block p f m).statements q) ≡ some (if p == q then f c else c)
  unfolding change_block update
  changed-some p q f c m e = elim (Bool-cases (p == q)) [
    | inl h ↦ rw h (on_block-some f (m.statements p) c (rw ((==_iff p q).0 h) e))
    | inr h ↦ rw h e
  ]

  -- A change of the block on top that leaves its stack keeps it on top.
  pub change_block-OnTop :
      (parent p : ℕ) (b : SeqBlock) (f : SeqBlock → SeqBlock) (m : Engine X L S)
      → ((c : SeqBlock) → (f c).stk ≡ c.stk)
      → OnTop parent p b m
      → OnTop parent p (f b) (change_block p f m)
  change_block-OnTop parent p b f m same h = record {
    outer = if p == parent then f h.outer else h.outer;
    below = h.below;
    parent_block = changed-some p parent f h.outer m h.parent_block;
    top_block = if_stk (p == parent) f h.outer (same h.outer) ∙ h.top_block;
    own_block =
        changed-some p p f b m h.own_block ∙ ap (λ t. some (if t then f b else b)) (same_place p);
  }

  -- The statements of a block one after another: the first that waits ends the run, and at the end
  -- the block leaves the stack.
  pub in_turn : Call X L S → ℕ → ℕ → List ℕ → Engine X L S → Outcome (Bool × Engine X L S)
  in_turn call parent p [] m = done (true, pop_block parent p m)
  in_turn call parent p (s ∷ ss) m = call parent s m >>= after_call (in_turn call parent p ss) p

  -- In states with a property that `next_statement` keeps, the block stays on top, in its state,
  -- when the statement that it stands at is done.
  pub record StaysOnTop (call : Call X L S) (parent p : ℕ) (P : Engine X L S → Type 0)
      : Type 0 where
    pub stays :
        (s : ℕ) (b : SeqBlock) (m m' : Engine X L S)
        → P m
        → OnTop parent p b m
        → get_elem? b.stmts b.curstmt ≡ some s
        → call parent s m ≡ done (true, m')
        → P m' × OnTop parent p b m'
    pub advances : (m : Engine X L S) → P m → P (next_statement p m)

  module _ (call : Call X L S) (parent p : ℕ) (P : Engine X L S → Type 0)
      (top : StaysOnTop call parent p P) where
    after_call-in_turn :
        (fuel s : ℕ) (ss : List ℕ) (b : SeqBlock) (m : Engine X L S)
        → ((m' : Engine X L S)
            → P m'
            → OnTop parent p (advance_block b) m'
            → block_loop call fuel parent m' ≡ in_turn call parent p ss m')
        → P m
        → OnTop parent p b m
        → get_elem? b.stmts b.curstmt ≡ some s
        → (o : Outcome (Bool × Engine X L S)) → call parent s m ≡ o
        → (o >>= after_call (block_loop call fuel parent) p)
          ≡ (o >>= after_call (in_turn call parent p ss) p)
    after_call-in_turn fuel s ss b m ih g h now fault e = refl
    after_call-in_turn fuel s ss b m ih g h now spent e = refl
    after_call-in_turn fuel s ss b m ih g h now (done (false, m')) e = refl
    after_call-in_turn fuel s ss b m ih g h now (done (true, m')) e =
        let (g', h') = top.stays s b m m' g h now e in
        ih (next_statement p m') (top.advances m' g')
          (change_block-OnTop parent p b advance_block m' (λ c. refl) h')

    turn-in_turn :
        (fuel : ℕ) (b : SeqBlock) (m : Engine X L S)
        → ((m' : Engine X L S)
            → P m'
            → OnTop parent p (advance_block b) m'
            → length b.stmts - (b.curstmt + 1) < fuel
            → block_loop call fuel parent m'
              ≡ in_turn call parent p (drop (b.curstmt + 1) b.stmts) m')
        → P m
        → OnTop parent p b m
        → length b.stmts - b.curstmt < suc fuel
        → (o : Option ℕ) → get_elem? b.stmts b.curstmt ≡ o
        → block_turn call
            (block_loop call fuel parent)
            parent
            (elim o [ none ↦ ended p | some s ↦ at p s ])
            m
          ≡ in_turn call parent p (drop b.curstmt b.stmts) m
    unfolding in_turn
    turn-in_turn fuel b m ih g h few none e = rw (drop-none b.curstmt b.stmts e) refl
    turn-in_turn fuel b m ih g h few (some s) e = rw (drop-some b.curstmt b.stmts s e) (
        after_call-in_turn fuel s (drop (b.curstmt + 1) b.stmts) b m
          (λ m' g' t. ih m' g' t (omega (arith, get_elem?-some b.stmts b.curstmt s e))) g h e
          (call parent s m) refl)

    pub loop-in_turn :
        (fuel : ℕ) (b : SeqBlock) (m : Engine X L S)
        → P m
        → OnTop parent p b m
        → length b.stmts - b.curstmt < fuel
        → block_loop call fuel parent m ≡ in_turn call parent p (drop b.curstmt b.stmts) m
    unfolding block_loop
    loop-in_turn zero b m g h few = absurd (omega arith)
    loop-in_turn (suc fuel) b m g h few = rw (current-OnTop parent p b m h) (
        turn-in_turn fuel b m (λ m' g' t less. loop-in_turn fuel (advance_block b) m' g' t less) g h
          few (get_elem? b.stmts b.curstmt) refl)
