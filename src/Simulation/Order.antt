-- ===== src/Simulation/Order.antt =====
-- The order in which src/sim.cc serves the events of a time unit and of the event queue.
use verilog_behavioral_simul.EventQueue
use verilog_behavioral_simul.Base.{
  Bool, Bool-cases, List, Option, [], ap, false, if◌then◌else◌, inl, inr, ltb, none, refl, some,
  sym, tail, true, ℕ, ◌++◌, ◌==◌, ◌∙◌, ◌∷◌, ◌≡◌,
}
use verilog_behavioral_simul.EventQueue.{Queue}
use verilog_behavioral_simul.EventQueue.Invariant.{HoldsAfter, trigger-keeps}
use verilog_behavioral_simul.Simulation.{
  Session, Status, exhausted, failed, running, trigger_postproc,
}
use verilog_behavioral_simul.Simulation.Handlers.{
  after_statement, eqhandler, first_events, go_on, pop_event, pop_first, put_queue, put_queued,
  queue_of, same, serve_statement, trigger_queue, unit_events, wheel_of, while_running,
}
use verilog_behavioral_simul.Simulation.Units.{trigger_postproc-Ends}
use verilog_behavioral_simul.Statement.{Engine, Outcome, done, fault, spent}
use verilog_behavioral_simul.Statement.Interface.{Call}
use verilog_behavioral_simul.Statement.Schedules.{Ends, Schedules, wheel, wheel_after}
use verilog_behavioral_simul.TimeWheel.{Node, Wheel, add_event, add_loop}
use mathlib.Core.List.{append-nil, append_assoc}

-- The first unit is the one of the current time.
abbrev pub StartsNow : ℕ → List (Node ℕ) → Type 0
StartsNow t [] = ⊥
StartsNow t (n ∷ ns) = n.time ≡ t

abbrev pub InUnit : Wheel ℕ → Type 0
InUnit w = StartsNow w.latest_time w.nodes

-- Events were added behind those of the unit.
abbrev pub Grown : Wheel ℕ → Wheel ℕ → Type 0
Grown w w' = (added : List ℕ) × (first_events w'.nodes ≡ first_events w.nodes ++ added) × InUnit w'

add_loop-Grown :
    (now t obj : ℕ) (ns : List (Node ℕ))
    → StartsNow now ns
    → (added : List ℕ) × (first_events (add_loop t obj ns) ≡ first_events ns ++ added)
      × StartsNow now (add_loop t obj ns)
unfolding add_loop
add_loop-Grown now t obj [] s = absurd s
add_loop-Grown now t obj (n ∷ []) s = elim (Bool-cases (t == n.time)) [
  | inl e ↦ rw e (obj ∷ [], refl, s)
  | inr e ↦ rw e (elim (Bool-cases (ltb n.time t)) [
    | inl f ↦ rw f ([], sym (append-nil n.events), s)
    | inr f ↦ rw f ([], sym (append-nil n.events), s)
  ])
]
add_loop-Grown now t obj (n ∷ m ∷ ns) s = elim (Bool-cases (t == n.time)) [
  | inl e ↦ rw e (obj ∷ [], refl, s)
  | inr e ↦ rw e (elim (Bool-cases (ltb n.time t)) [
    | inr g ↦ rw g ([], sym (append-nil n.events), s)
    | inl g ↦ rw g (elim (Bool-cases (ltb t m.time)) [
      | inl f ↦ rw f ([], sym (append-nil n.events), s)
      | inr f ↦ rw f ([], sym (append-nil n.events), s)
    ])
  ])
]

Grown-trans : (u v w : Wheel ℕ) → Grown u v → Grown v w → Grown u w
Grown-trans u v w (a, e, s) (b, f, r) =
    (a ++ b, f ∙ ap (λ l. l ++ b) e ∙ append_assoc (first_events u.nodes) a b, r)

Grown-refl : (w : Wheel ℕ) → InUnit w → Grown w w
Grown-refl w s = ([], sym (append-nil (first_events w.nodes)), s)

pub Schedules-Grown : {w w' : Wheel ℕ} → Schedules w w' → InUnit w → Grown w w'
unfolding add_event
Schedules-Grown (Schedules.stop {w = w}) s = Grown-refl w s
Schedules-Grown (Schedules.later {w = w} t obj q) s =
    let g = add_loop-Grown w.latest_time t obj w.nodes s in
    Grown-trans w (add_event t obj w) _ g (Schedules-Grown q g.2)

pop_first-Grown :
    (w : Wheel ℕ) (st : ℕ) (rest : List ℕ)
    → first_events w.nodes ≡ st ∷ rest
    → InUnit w
    → (first_events (pop_first w.nodes) ≡ rest) × StartsNow w.latest_time (pop_first w.nodes)
pop_first-Grown w st rest e s = go w.nodes e s
  where
    go :
        (ns : List (Node ℕ))
        → first_events ns ≡ st ∷ rest
        → StartsNow w.latest_time ns
        → (first_events (pop_first ns) ≡ rest) × StartsNow w.latest_time (pop_first ns)
    go [] e s = absurd s
    go (n ∷ ns) e s = (ap tail e, s)

module _ {X L S : Type 0} where
  -- While the simulation goes on, the events of the unit are those given and some behind them.
  abbrev pub Behind : List ℕ → Session X L S → Type 0
  Behind rest s =
      s.status ≡ running → (added : List ℕ) × (unit_events s ≡ rest ++ added) × InUnit (wheel_of s)

  go_on-Behind :
      (rest : List ℕ) (s : Session X L S) (o : Outcome (Engine X L S))
      → (unit_events s ≡ rest) × InUnit (wheel_of s)
      → Ends wheel (wheel_of s) o
      → Behind rest (go_on s o)
  go_on-Behind rest s (done m) (e, u) h r =
      let (added, f, u') = Schedules-Grown h u in (added, f ∙ ap (λ l. l ++ added) e, u')
  go_on-Behind rest s fault h e r = cc
  go_on-Behind rest s spent h e r = cc

  Behind-append :
      (rest added : List ℕ) (s : Session X L S) → Behind (rest ++ added) s → Behind rest s
  Behind-append rest added s h r =
      let (more, e, u) = h r in (added ++ more, e ∙ append_assoc rest added more, u)

  if_Behind :
      (rest : List ℕ) (b : Bool) (x y : Session X L S)
      → Behind rest x
      → Behind rest y
      → Behind rest (if b then x else y)
  if_Behind rest true x y p q = p
  if_Behind rest false x y p q = q

  after_statement-Behind :
      (st : ℕ) (rest : List ℕ) (s : Session X L S) (o : Outcome (Bool × Engine X L S))
      → unit_events s ≡ st ∷ rest
      → InUnit (wheel_of s)
      → Ends wheel_after (wheel_of s) o
      → Behind rest (after_statement st pop_event s o)
  unfolding after_statement
  after_statement-Behind st rest s fault e u h r = cc
  after_statement-Behind st rest s spent e u h r = cc
  after_statement-Behind st rest s (done (b, m)) e u h r =
      let (added, f, u') = Schedules-Grown h u in
      let (g, u'') = pop_first-Grown (wheel m) st (rest ++ added) (f ∙ ap (λ l. l ++ added) e) u' in
      let s1 = pop_event (record s { engine = m }) in
      let post = trigger_postproc st s1.engine in
      if_Behind rest b _ _
        (Behind-append rest added (go_on s1 post)
          (go_on-Behind (rest ++ added) s1 post (g, u'') (trigger_postproc-Ends st s1.engine)))
        (λ r. (added, g, u'')) r

module _ {X L S : Type 0} (call : Call X L S)
    (schedules : (st : ℕ) (m : Engine X L S) → Ends wheel_after (wheel m) (call st st m)) where
  pub serve_statement-Behind :
      (st : ℕ) (rest : List ℕ) (s : Session X L S)
      → unit_events s ≡ st ∷ rest
      → InUnit (wheel_of s)
      → Behind rest (serve_statement call st pop_event s)
  unfolding serve_statement
  serve_statement-Behind st rest s e u = go s.status refl
    where
      go :
          (c : Status)
          → s.status ≡ c
          → Behind rest
              (while_running c (λ t. after_statement st pop_event t (call st st t.engine)) s)
      go running q r =
          after_statement-Behind st rest s (call st st s.engine) e u (schedules st s.engine) r
      go failed q r = let c : running ≡ failed = sym r ∙ q in cc
      go exhausted q r = let c : running ≡ exhausted = sym r ∙ q in cc

  go_on-InUnit :
      (s : Session X L S) (o : Outcome (Engine X L S))
      → InUnit (wheel_of s)
      → Ends wheel (wheel_of s) o
      → InUnit (wheel_of (go_on s o))
  go_on-InUnit s (done m) u h = (Schedules-Grown h u).2
  go_on-InUnit s fault u h = u
  go_on-InUnit s spent u h = u

  if_InUnit :
      (b : Bool) (x y : Session X L S)
      → InUnit (wheel_of x)
      → InUnit (wheel_of y)
      → InUnit (wheel_of (if b then x else y))
  if_InUnit true x y p q = p
  if_InUnit false x y p q = q

  after_statement-InUnit :
      (st : ℕ) (s : Session X L S) (o : Outcome (Bool × Engine X L S))
      → InUnit (wheel_of s)
      → Ends wheel_after (wheel_of s) o
      → InUnit (wheel_of (after_statement st same s o))
  unfolding after_statement
  after_statement-InUnit st s fault u h = u
  after_statement-InUnit st s spent u h = u
  after_statement-InUnit st s (done (b, m)) u h =
      let s1 = same (record s { engine = m }) in
      let u1 = (Schedules-Grown h u).2 in
      if_InUnit b _ _
        (go_on-InUnit s1 (trigger_postproc st s1.engine) u1 (trigger_postproc-Ends st s1.engine)) u1

  eqhandler-InUnit :
      (c : ℕ) (q : Queue) (s : Session X L S)
      → InUnit (wheel_of s)
      → InUnit (wheel_of (eqhandler call c (q, s)).1)
  unfolding eqhandler serve_statement
  eqhandler-InUnit c q s u =
      let s1 = put_queue q s in go ((s1.engine.shared.containers c).object) s1 s.status u
    where
      go :
          (st : ℕ) (s1 : Session X L S) (b : Status)
          → InUnit (wheel_of s1)
          → InUnit
              (wheel_of (while_running b (λ t. after_statement st same t (call st st t.engine)) s1))
      go st s1 running u =
          after_statement-InUnit st s1 (call st st s1.engine) u (schedules st s1.engine)
      go st s1 failed u = u
      go st s1 exhausted u = u

  pub trigger_queue-InUnit :
      (fuel : ℕ) (s : Session X L S)
      → InUnit (wheel_of s)
      → InUnit (wheel_of (trigger_queue call fuel s))
  unfolding trigger_queue
  trigger_queue-InUnit fuel s u = go (EventQueue.trigger (eqhandler call) fuel (queue_of s, s)) (
      trigger-keeps (eqhandler call) (λ s. InUnit (wheel_of s)) eqhandler-InUnit fuel (queue_of s) s
        u)
    where
      go :
          (o : Option (Queue × Session X L S))
          → HoldsAfter (λ s. InUnit (wheel_of s)) o
          → InUnit (wheel_of (put_queued call s o))
      go none h = u
      go (some (q, s')) h = h
