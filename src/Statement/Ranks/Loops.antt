-- ===== src/Statement/Ranks/Loops.antt =====
-- What the loops of src/stmt/strigger.cc keep of the blocks.
use verilog_behavioral_simul.Base.{
  Bool, Option, false, none, refl, some, suc, true, zero, ℕ, ◌<◌, ◌≡◌, ◌≤◌,
}
use verilog_behavioral_simul.Statement.{
  Engine, Loop, LoopType, Outcome, done, fault, for_loop, forever_loop, get_loop, repeat_loop,
  spent, while_loop, ◌>>=◌,
}
use verilog_behavioral_simul.Statement.Interface.{Call, Interface, eval, test}
use verilog_behavioral_simul.Statement.Loops.{
  after_body_round, after_round, before_loop, change_loop, count_round, loop, rounds,
}
use verilog_behavioral_simul.Statement.Ranks.{
  Callee, HeadFits, Keeps, KeepsAfter, KeepsAfter-bind, KeepsAlways, KeepsAlways-bind, Ranking,
  Keeps-add, if_KeepsAfter,
}
use verilog_behavioral_simul.Statement.Ranks.Classes.{eval-Keeps}
use verilog_behavioral_simul.Statement.Ranks.Quiet.{change_loop-IsQuiet}

module _ (g : Ranking) {X L S : Type 0} (i : Interface X L S) (call : Call X L S)
    (c : Callee g call) where
  test_after :
      (r : ℕ) (m0 : Engine X L S) (e : X) (o : Outcome (Bool × Engine X L S))
      → KeepsAlways g r m0 o
      → KeepsAlways g r m0 (o >>= λ a. done (test i e a.1))
  test_after r m0 e (done (b, m)) k = eval-Keeps g i r m0 e m k
  test_after r m0 e fault k = tt
  test_after r m0 e spent k = tt

  change_loop-Keeps :
      (r : ℕ) (m0 : Engine X L S) (p : ℕ) (f : Loop X → Loop X) (m : Engine X L S)
      → ((l : Loop X) → (f l).loop_type ≡ l.loop_type)
      → ((l : Loop X) → (f l).body ≡ l.body)
      → Keeps g r m0 m
      → Keeps g r m0 (change_loop p f m)
  change_loop-Keeps r m0 p f m a b k = Keeps-add g r m0 m _ k (change_loop-IsQuiet g p f m a b)

  before_loop-Keeps :
      (r : ℕ) (m0 : Engine X L S) (p : ℕ) (t : LoopType X) (m : Engine X L S)
      → HeadFits g t
      → Keeps g r m0 m
      → KeepsAlways g r m0 (before_loop i call p t m)
  unfolding before_loop
  before_loop-Keeps r m0 p forever_loop m h k = k
  before_loop-Keeps r m0 p (repeat_loop e) m h k =
      change_loop-Keeps r m0 p _ (eval i e m).1 (λ l. refl) (λ l. refl) (eval-Keeps g i r m0 e m k)
  before_loop-Keeps r m0 p (while_loop e) m h k = eval-Keeps g i r m0 e m k
  before_loop-Keeps r m0 p (for_loop pre e post) m h k =
      test_after r m0 e (call pre pre m) (c.simple r m0 m pre pre h.0 k)

  count_round-Keeps :
      (r : ℕ) (m0 : Engine X L S) (p : ℕ) (o : Option (Loop X)) (m : Engine X L S)
      → Keeps g r m0 m
      → KeepsAlways g r m0 (count_round p o m)
  count_round-Keeps r m0 p none m k = tt
  count_round-Keeps r m0 p (some l) m k = change_loop-Keeps r m0 p _ m (λ l. refl) (λ l. refl) k

  after_round-Keeps :
      (r : ℕ) (m0 : Engine X L S) (p : ℕ) (t : LoopType X) (m : Engine X L S)
      → HeadFits g t
      → Keeps g r m0 m
      → KeepsAlways g r m0 (after_round i call p t m)
  unfolding after_round
  after_round-Keeps r m0 p forever_loop m h k = k
  after_round-Keeps r m0 p (repeat_loop e) m h k =
      count_round-Keeps r m0 p (get_loop (m.statements p)) m k
  after_round-Keeps r m0 p (while_loop e) m h k = eval-Keeps g i r m0 e m k
  after_round-Keeps r m0 p (for_loop pre e post) m h k =
      test_after r m0 e (call post post m) (c.simple r m0 m post post h.1 k)

  rounds-Keeps :
      (fuel r : ℕ) (m0 : Engine X L S) (parent p : ℕ) (t : LoopType X) (body : ℕ) (b : Bool)
      (m : Engine X L S)
      → r ≤ g.rank parent
      → g.rank body < r
      → HeadFits g t
      → Keeps g r m0 m
      → KeepsAfter g r m0 (rounds i call fuel parent p t body b m)
  unfolding rounds
  rounds-Keeps zero r m0 parent p t body b m up low h k = tt
  rounds-Keeps (suc fuel) r m0 parent p t body false m up low h k = k
  rounds-Keeps (suc fuel) r m0 parent p t body true m up low h k =
      let again = λ (b : Bool) (m1 : Engine X L S) (k1 : Keeps g r m0 m1).
        rounds-Keeps fuel r m0 parent p t body b m1 up low h k1 in
      KeepsAfter-bind g r m0 (call parent body m)
        (after_body_round i call p t λ b m1. rounds i call fuel parent p t body b m1)
        (c.lower r m0 m parent body low up k)
        (λ m1 k1.
          KeepsAlways-bind g r m0 (after_round i call p t m1) _ (after_round-Keeps r m0 p t m1 h k1)
            again)
        (λ m1. tt)

  pub loop-Keeps :
      (fuel r : ℕ) (m0 : Engine X L S) (parent p : ℕ) (l : Loop X) (m : Engine X L S)
      → r ≤ g.rank parent
      → g.rank l.body < r
      → HeadFits g l.loop_type
      → Keeps g r m0 m
      → KeepsAfter g r m0 (loop i call fuel parent p l m)
  unfolding loop
  loop-Keeps fuel r m0 parent p l m up low h k =
      let go_on = λ (b : Bool) (m1 : Engine X L S) (k1 : Keeps g r m0 m1).
        rounds-Keeps fuel r m0 parent p l.loop_type l.body b m1 up low h k1 in
      if_KeepsAfter g r m0 l.delayed _ _
        (KeepsAlways-bind g r m0 _ _
          (after_round-Keeps r m0 p l.loop_type _ h (
            change_loop-Keeps r m0 p (λ l. record l { delayed = false }) m (λ l. refl) (λ l. refl)
              k))
          go_on)
        (KeepsAlways-bind g r m0 _ _ (before_loop-Keeps r m0 p l.loop_type m h k) go_on)
