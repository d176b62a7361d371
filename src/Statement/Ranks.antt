-- ===== src/Statement/Ranks.antt =====
-- Statements of a design as a tree, and what a trigger of one of them keeps of the blocks: the
-- stacks and the flags that src/stmt/strigger.cc keeps in them.
pub mod Quiet
pub mod Classes
pub mod Enable
pub mod Blocks
pub mod Nested
pub mod Entry
pub mod Loops
pub mod Trigger
use verilog_behavioral_simul.Base.{
  sym, ==_iff, Bool, Bool-cases, List, Option, [], ap, arith, false, get_elem?, if◌then◌else◌, inl,
  inr, none, refl, some, suc, true, zero, ℕ, ◌<◌, ◌==◌, ◌∙◌, ◌∷◌, ◌≡◌, ◌≤◌,
}
use verilog_behavioral_simul.Statement.Interface.{Call}
use verilog_behavioral_simul.Statement.{
  CaseItem, Engine, Kind, LoopType, Outcome, SeqBlock, Task, assignment_stmt, case_stmt,
  change_kind, done, fault, for_loop, forever_loop, get_seq_block, if_else_stmt, is_default,
  loop_stmt, null_stmt, repeat_loop, seq_block_stmt, spent, systask, task_enable_stmt, update,
  while_loop, ◌>>=◌,
}

-- A rank for every statement and every task, and the statements that are to be simple: those of
-- the head of a for loop, and those of system tasks.
pub record Ranking : Type 0 where
  pub rank : ℕ → ℕ
  pub task_rank : ℕ → ℕ
  pub is_simple : ℕ → Bool

module _ (g : Ranking) where
  abbrev pub AllBelow : ℕ → List ℕ → Type 0
  AllBelow r [] = Unit
  AllBelow r (s ∷ ss) = (g.rank s < r) × AllBelow r ss

  pub AllBelow-elem :
      (r : ℕ) (ss : List ℕ) (k s : ℕ) → AllBelow r ss → get_elem? ss k ≡ some s → g.rank s < r
  AllBelow-elem r [] k s h e = cc
  AllBelow-elem r (x ∷ xs) zero s h e = let q : x ≡ s = cc in rw (← q) h.0
  AllBelow-elem r (x ∷ xs) (suc k) s h e = AllBelow-elem r xs k s h.1 e

  abbrev pub OptionBelow : ℕ → Option ℕ → Type 0
  OptionBelow r none = Unit
  OptionBelow r (some s) = g.rank s < r

  abbrev pub TaskFits : ℕ → Task → Type 0
  TaskFits t task =
      (g.rank task.entry < g.task_rank t) × (task.is_system ≡ true → g.is_simple task.entry ≡ true)

module _ (g : Ranking) {X : Type 0} where
  -- The default of a case statement is not among its items.
  abbrev pub ItemsBelow : ℕ → List (CaseItem X) → Type 0
  ItemsBelow r [] = Unit
  ItemsBelow r (item ∷ items) =
      (is_default item ≡ false) × (g.rank item.stmt < r) × ItemsBelow r items

  abbrev pub DefaultBelow : ℕ → Option (CaseItem X) → Type 0
  DefaultBelow r none = Unit
  DefaultBelow r (some item) = g.rank item.stmt < r

  abbrev pub HeadFits : LoopType X → Type 0
  HeadFits forever_loop = Unit
  HeadFits (repeat_loop e) = Unit
  HeadFits (while_loop e) = Unit
  HeadFits (for_loop pre e post) = (g.is_simple pre ≡ true) × (g.is_simple post ≡ true)

module _ (g : Ranking) {X L : Type 0} where
  -- The statements in a statement have a lower rank, and a simple statement has none.
  abbrev pub Fits : ℕ → Kind X L → Type 0
  Fits p null_stmt = Unit
  Fits p (seq_block_stmt b) = (g.is_simple p ≡ false) × AllBelow g (g.rank p) b.stmts
  Fits p (task_enable_stmt te) = (g.is_simple p ≡ false) × (g.task_rank te.task ≤ g.rank p)
  Fits p (assignment_stmt a) = Unit
  Fits p (if_else_stmt e t f) =
      (g.is_simple p ≡ false) × (g.rank t < g.rank p) × OptionBelow g (g.rank p) f
  Fits p (case_stmt t e items d) =
      (g.is_simple p ≡ false) × ItemsBelow g (g.rank p) items × DefaultBelow g (g.rank p) d
  Fits p (loop_stmt l) =
      (g.is_simple p ≡ false) × (g.rank l.body < g.rank p) × HeadFits g l.loop_type
  Fits p (systask s) = Unit

module _ {X L : Type 0} where
  abbrev pub block_of : Kind X L → Option SeqBlock
  block_of k = elim k [ seq_block_stmt b ↦ some b | _ ↦ none ]

module _ {X L S : Type 0} where
  abbrev pub block_at : Engine X L S → ℕ → Option SeqBlock
  block_at m q = get_seq_block (m.statements q)

module _ (g : Ranking) {X L S : Type 0} where
  -- The ranks fit all statements and tasks.
  pub record IsRanked (m : Engine X L S) : Type 0 where
    pub statements_fit : (p : ℕ) → Fits g p (m.statements p).kind
    pub tasks_fit : (t : ℕ) → TaskFits g t (m.tasks t)

  -- No block of a lower rank is on a stack.
  abbrev pub Unpushed : ℕ → Engine X L S → Type 0
  Unpushed r m = (q : ℕ) (b : SeqBlock) → g.rank q < r → block_at m q ≡ some b → b.pushed ≡ false

  -- No block changes, and the ranks still fit.
  pub record IsQuiet (m m' : Engine X L S) : Type 0 where
    pub ranked : IsRanked m → IsRanked m'
    pub blocks : (q : ℕ) → block_at m' q ≡ block_at m q

  -- The blocks of the given rank and above have not changed, and none below is left on a stack.
  pub record Keeps (r : ℕ) (m m' : Engine X L S) : Type 0 where
    pub ranked : IsRanked m'
    pub unpushed : Unpushed r m'
    pub blocks : (q : ℕ) → r ≤ g.rank q → block_at m' q ≡ block_at m q

  pub IsQuiet-refl : (m : Engine X L S) → IsQuiet m m
  IsQuiet-refl m = record { ranked = λ h. h; blocks = λ q. refl }

  pub IsQuiet-trans : (m m1 m2 : Engine X L S) → IsQuiet m m1 → IsQuiet m1 m2 → IsQuiet m m2
  IsQuiet-trans m m1 m2 a b = record {
    ranked = λ h. b.ranked (a.ranked h);
    blocks = λ q. b.blocks q ∙ a.blocks q;
  }

  pub IsQuiet-Keeps :
      (r : ℕ) (m m' : Engine X L S) → IsRanked m → Unpushed r m → IsQuiet m m' → Keeps r m m'
  IsQuiet-Keeps r m m' h u a = record {
    ranked = a.ranked h;
    unpushed = λ q b less e. u q b less (sym (a.blocks q) ∙ e);
    blocks = λ q le. a.blocks q;
  }

  pub Keeps-trans : (r : ℕ) (m m1 m2 : Engine X L S) → Keeps r m m1 → Keeps r m1 m2 → Keeps r m m2
  Keeps-trans r m m1 m2 a b = record {
    ranked = b.ranked;
    unpushed = b.unpushed;
    blocks = λ q le. b.blocks q le ∙ a.blocks q le;
  }

  -- Statements and tasks are as they were.
  pub IsQuiet-same :
      (m m' : Engine X L S) → m'.statements ≡ m.statements → m'.tasks ≡ m.tasks → IsQuiet m m'
  IsQuiet-same m m' e f = record {
    ranked = λ h. record {
      statements_fit = λ p. rw e (h.statements_fit p);
      tasks_fit = λ t. rw f (h.tasks_fit t);
    };
    blocks = λ q. ap (λ ss. get_seq_block (ss q)) e;
  }

  -- A change of one statement that leaves blocks alone.
  pub change_kind-IsQuiet :
      (p : ℕ) (f : Kind X L → Kind X L) (m : Engine X L S)
      → ((k : Kind X L) → block_of (f k) ≡ block_of k)
      → ((q : ℕ) (k : Kind X L) → Fits g q k → Fits g q (f k))
      → IsQuiet m (change_kind p f m)
  unfolding update
  change_kind-IsQuiet p f m same fits = record {
    ranked = λ h. record { statements_fit = λ q. fit h q; tasks_fit = h.tasks_fit };
    blocks = λ q. block q;
  }
    where
      fit : IsRanked m → (q : ℕ) → Fits g q ((change_kind p f m).statements q).kind
      fit h q = elim (Bool-cases (p == q)) [
        | inl e ↦ rw e (fits q _ (rw ((==_iff p q).0 e) (h.statements_fit q)))
        | inr e ↦ rw e (h.statements_fit q)
      ]

      block : (q : ℕ) → block_at (change_kind p f m) q ≡ block_at m q
      block q = elim (Bool-cases (p == q)) [
        | inl e ↦ rw e (same (m.statements p).kind ∙ ap (block_at m) ((==_iff p q).0 e))
        | inr e ↦ rw e refl
      ]

  -- What a run keeps if it is done and need not wait, and whatever its result is.
  abbrev pub KeepsAfter : ℕ → Engine X L S → Outcome (Bool × Engine X L S) → Type 0
  KeepsAfter r m (done (true, m')) = Keeps r m m'
  KeepsAfter r m (done (false, m')) = Unit
  KeepsAfter r m fault = Unit
  KeepsAfter r m spent = Unit

  abbrev pub KeepsAlways : ℕ → Engine X L S → Outcome (Bool × Engine X L S) → Type 0
  KeepsAlways r m (done (b, m')) = Keeps r m m'
  KeepsAlways r m fault = Unit
  KeepsAlways r m spent = Unit

  pub Keeps-add : (r : ℕ) (m0 m m' : Engine X L S) → Keeps r m0 m → IsQuiet m m' → Keeps r m0 m'
  Keeps-add r m0 m m' k q = Keeps-trans r m0 m m' k (IsQuiet-Keeps r m m' k.ranked k.unpushed q)

  pub if_KeepsAfter :
      (r : ℕ) (m : Engine X L S) (b : Bool) (x y : Outcome (Bool × Engine X L S))
      → KeepsAfter r m x
      → KeepsAfter r m y
      → KeepsAfter r m (if b then x else y)
  if_KeepsAfter r m true x y p q = p
  if_KeepsAfter r m false x y p q = q

  -- What comes behind a run that did not have to wait; a run that has to, makes the whole wait.
  pub KeepsAfter-bind :
      (r : ℕ) (m : Engine X L S) (o : Outcome (Bool × Engine X L S))
      (f : Bool × Engine X L S → Outcome (Bool × Engine X L S))
      → KeepsAfter r m o
      → ((m1 : Engine X L S) → Keeps r m m1 → KeepsAfter r m (f (true, m1)))
      → ((m1 : Engine X L S) → KeepsAfter r m (f (false, m1)))
      → KeepsAfter r m (o >>= f)
  KeepsAfter-bind r m (done (true, m1)) f h k w = k m1 h
  KeepsAfter-bind r m (done (false, m1)) f h k w = w m1
  KeepsAfter-bind r m fault f h k w = tt
  KeepsAfter-bind r m spent f h k w = tt

  pub KeepsAlways-bind :
      (r : ℕ) (m : Engine X L S) (o : Outcome (Bool × Engine X L S))
      (f : Bool × Engine X L S → Outcome (Bool × Engine X L S))
      → KeepsAlways r m o
      → ((b : Bool) (m1 : Engine X L S) → Keeps r m m1 → KeepsAfter r m (f (b, m1)))
      → KeepsAfter r m (o >>= f)
  KeepsAlways-bind r m (done (b, m1)) f h k = k b m1 h
  KeepsAlways-bind r m fault f h k = tt
  KeepsAlways-bind r m spent f h k = tt

-- What is known of the calls of other statements: of one of a lower rank, and of a simple one.
pub record Callee (g : Ranking) {X L S : Type 0} (call : Call X L S) : Type 0 where
  pub lower :
      (r : ℕ) (m0 m : Engine X L S) (parent s : ℕ)
      → g.rank s < r
      → r ≤ g.rank parent
      → Keeps g r m0 m
      → KeepsAfter g r m0 (call parent s m)
  pub simple :
      (r : ℕ) (m0 m : Engine X L S) (parent s : ℕ)
      → g.is_simple s ≡ true
      → Keeps g r m0 m
      → KeepsAlways g r m0 (call parent s m)
