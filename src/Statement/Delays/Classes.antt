-- ===== src/Statement/Delays/Classes.antt =====
-- What the delays in assignments and branches add to the time wheel: src/stmt/strigger.cc.
use verilog_behavioral_simul.Base.{
  Bool, List, Option, [], false, if◌then◌else◌, none, refl, some, sym, true, ℕ, ◌∙◌, ◌∷◌, ◌≡◌,
}
use verilog_behavioral_simul.BitVector.{BitVector, copy}
use verilog_behavioral_simul.EventQueue.{Event}
use verilog_behavioral_simul.Statement.{
  Assignment, CaseItem, CaseType, Engine, Kind, assignment_stmt, case_stmt, if_else_stmt, loop_stmt,
  null_stmt, seq_block_stmt, set_delayed, systask, task_enable_stmt,
}
use verilog_behavioral_simul.Statement.Assign.{
  aim, assign_blocking, assign_by, assign_delayed, assign_later, assign_now, assign_taken,
  assignment, schedule_store, set_delayed?, set_value,
}
use verilog_behavioral_simul.Statement.Branch.{
  after_item, any_match, case_item, case_loop, case_of, if_else, item_of, optional, or_default,
}
use verilog_behavioral_simul.Statement.Delay.{control_of}
use verilog_behavioral_simul.Statement.Interface.{
  Call, Interface, compare_case, eval, on_shared, store, test,
}
use verilog_behavioral_simul.Statement.Delays.{
  kinds, set_delayed-clock, keep_clock, start_control-Delays, Ends, Ends-bind, KeepsWheel, Delays,
  Delays-eq, Delays-trans, queue_once_keeps, clock,
}
use verilog_behavioral_simul.Statement.Delays.Blocks.{
  if_Ends, set_delayed?-clock, clock_after, clock_of_item,
}
use verilog_behavioral_simul.Statement.Delays.{Clock}

module _ {X L S : Type 0} (i : Interface X L S) (k : KeepsWheel i) where
  aim-clock : (s : Kind X L) (m : Engine X L S) → clock (aim i s m) ≡ clock m
  aim-clock (assignment_stmt a) m = keep_clock m (k.set_target_keeps a.lval m.shared)
  aim-clock null_stmt m = refl
  aim-clock (seq_block_stmt b) m = refl
  aim-clock (task_enable_stmt te) m = refl
  aim-clock (if_else_stmt e t f) m = refl
  aim-clock (case_stmt t e items d) m = refl
  aim-clock (loop_stmt l) m = refl
  aim-clock (systask s) m = refl

  store-clock : (l : L) (v : BitVector) (m : Engine X L S) → clock (store i l v m) ≡ clock m
  store-clock l v m = go v.tristate
    where
      go : (b : Bool) → clock (if b then m else on_shared (i.trigger_lvalue l v) m) ≡ clock m
      go true = refl
      go false = keep_clock m (k.trigger_lvalue_keeps l v m.shared)

  eval-clock : (e : X) (m : Engine X L S) → clock (eval i e m).1 ≡ clock m
  eval-clock e m = keep_clock m (k.evaluate_keeps e m.shared)

  schedule_store-Delays :
      (w : Clock) (o : Option ℕ) (u : ℕ) (ev : Event) (m : Engine X L S)
      → Delays w (clock m)
      → Delays w (clock (schedule_store i o u ev m))
  schedule_store-Delays w (some c) u ev m s = Delays-trans s (start_control-Delays c u m)
  schedule_store-Delays w none u ev m s = Delays-trans s (queue_once_keeps (kinds m) ev m.shared)

  assign_later-Delays :
      (w : Clock) (a : Assignment X L) (m : Engine X L S)
      → Delays w (clock m)
      → Delays w (clock (assign_later i a m))
  unfolding assign_later
  assign_later-Delays w a m s =
      let m1 = aim i (m.statements a.update).kind m in
      schedule_store-Delays w a.delayed_store a.update a.event
        (set_value a.update (some (copy (eval i a.rval m1).0)) (eval i a.rval m1).1)
        (Delays-trans s
          (Delays-eq (sym (eval-clock a.rval m1 ∙ aim-clock (m.statements a.update).kind m))))

  assign_delayed-Delays :
      (w : Clock) (parent p : ℕ) (a : Assignment X L) (c : ℕ) (m : Engine X L S)
      → Delays w (clock m)
      → Delays w (clock (assign_delayed i parent p a c m))
  unfolding assign_delayed
  assign_delayed-Delays w parent p a c m s =
      let m0 = on_shared (i.set_target a.lval) m in
      let m1 = (eval i a.rval m0).1 in
      let m2 =
        set_delayed? (control_of (m.statements parent) (m.statements p)) true
          (set_value p (some (copy (eval i a.rval m0).0)) m1) in
      let m3 = set_delayed c true m2 in
      Delays-trans s (
        Delays-trans
          (Delays-eq (
            sym (
              set_delayed?-clock (control_of (m.statements parent) (m.statements p)) true
                (set_value p (some (copy (eval i a.rval m0).0)) m1)
              ∙ eval-clock a.rval m0
              ∙ keep_clock m (k.set_target_keeps a.lval m.shared))))
          (Delays-trans (Delays-eq (sym (set_delayed-clock c true m2)))
            (start_control-Delays c parent m3)))

  assign_now-Delays :
      (w : Clock) (a : Assignment X L) (m : Engine X L S)
      → Delays w (clock m)
      → Delays w (clock (assign_now i a m))
  unfolding assign_now
  assign_now-Delays w a m s =
      let m0 = on_shared (i.clr_target a.lval) m in
      Delays-trans s (
        Delays-eq (
          sym (
            store-clock a.lval (eval i a.rval m0).0 (eval i a.rval m0).1
            ∙ eval-clock a.rval m0
            ∙ keep_clock m (k.clr_target_keeps a.lval m.shared))))

  assign_taken-Delays :
      (w : Clock) (p : ℕ) (a : Assignment X L) (v : BitVector) (m : Engine X L S)
      → Delays w (clock m)
      → Delays w (clock (assign_taken i p a v m))
  unfolding assign_taken
  assign_taken-Delays w p a v m s = Delays-trans s (
      Delays-eq (
        sym (
          store-clock a.lval v (set_delayed? a.delayed_store false m)
          ∙ set_delayed?-clock a.delayed_store false m)))

  if_clock :
      (w : Clock) (b : Bool) (x y : Bool × Engine X L S)
      → Delays w (clock_after x)
      → Delays w (clock_after y)
      → Delays w (clock_after (if b then x else y))
  if_clock w true x y p q = p
  if_clock w false x y p q = q

  pub assignment-Delays :
      (w : Clock) (parent p : ℕ) (a : Assignment X L) (m : Engine X L S)
      → Delays w (clock m)
      → Delays w (clock_after (assignment i parent p a m))
  unfolding assignment
  assignment-Delays w parent p a m s = go a.value
    where
      blocking : (o : Option ℕ) → Delays w (clock_after (assign_blocking i parent p a o m))
      blocking (some c) = assign_delayed-Delays w parent p a c m s
      blocking none = assign_now-Delays w a m s

      go : (o : Option BitVector) → Delays w (clock_after (assign_by i parent p a o m))
      go (some v) = assign_taken-Delays w p a v m s
      go none =
          if_clock w a.nonblocking _ _ (assign_later-Delays w a m s) (blocking a.delayed_store)

  module _ (call : Call X L S)
      (ih : (w : Clock) (parent p : ℕ) (m : Engine X L S)
        → Delays w (clock m)
        → Ends clock_after w (call parent p m)) where
    pub after_eval :
        (w : Clock) (e : X) (m : Engine X L S)
        → Delays w (clock m)
        → Delays w (clock (eval i e m).1)
    after_eval w e m s = Delays-trans s (Delays-eq (sym (eval-clock e m)))

    optional-Ends :
        (w : Clock) (parent : ℕ) (o : Option ℕ) (m : Engine X L S)
        → Delays w (clock m)
        → Ends clock_after w (optional call parent o m)
    optional-Ends w parent none m s = s
    optional-Ends w parent (some st) m s = ih w parent st m s

    pub if_else-Ends :
        (w : Clock) (parent : ℕ) (e : X) (t : ℕ) (f : Option ℕ) (m : Engine X L S)
        → Delays w (clock m)
        → Ends clock_after w (if_else i call parent e t f m)
    unfolding if_else
    if_else-Ends w parent e t f m s =
        let h = after_eval w e m s in
        if_Ends clock_after w (test i e m).0 _ _ (ih w parent t _ h) (optional-Ends w parent f _ h)

    any_match-Delays :
        (w : Clock) (t : CaseType) (v : BitVector) (es : List X) (m : Engine X L S)
        → Delays w (clock m)
        → Delays w (clock_after (any_match i t v es m))
    unfolding any_match
    any_match-Delays w t v [] m s = s
    any_match-Delays w t v (e ∷ es) m s =
        let h = after_eval w e m s in
        if_clock w (compare_case t v (eval i e m).0) _ _ h (any_match-Delays w t v es _ h)

    item_of-Ends :
        (w : Clock) (parent stmt : ℕ) (t : CaseType) (v : BitVector) (o : Option (List X))
        (m : Engine X L S)
        → Delays w (clock m)
        → Ends clock_of_item w (item_of i call parent stmt t v o m)
    item_of-Ends w parent stmt t v none m s =
        Ends-bind clock_after clock_of_item w (call parent stmt m) _ (ih w parent stmt m s)
          (λ r h. h)
    item_of-Ends w parent stmt t v (some es) m s =
        let h = any_match-Delays w t v es m s in
        let m1 = (any_match i t v es m).1 in
        if_Ends clock_of_item w (any_match i t v es m).0 _ _
          (Ends-bind clock_after clock_of_item w (call parent stmt m1) _ (ih w parent stmt m1 h)
            (λ r h. h))
          h

    case_loop-Ends :
        (w : Clock) (parent : ℕ) (t : CaseType) (v : BitVector) (ret : Bool)
        (items : List (CaseItem X)) (m : Engine X L S)
        → Delays w (clock m)
        → Ends clock_of_item w (case_loop i call parent t v ret items m)
    unfolding case_loop case_item
    case_loop-Ends w parent t v ret [] m s = s
    case_loop-Ends w parent t v ret (item ∷ items) m s =
        Ends-bind clock_of_item clock_of_item w (case_item i call parent t v item m)
          (after_item λ ret' m1. case_loop i call parent t v ret' items m1)
          (item_of-Ends w parent item.stmt t v item.exprs m s)
          (go λ ret' m1 h. case_loop-Ends w parent t v ret' items m1 h)
      where
        go :
            ((ret' : Bool) (m1 : Engine X L S)
              → Delays w (clock m1)
              → Ends clock_of_item w (case_loop i call parent t v ret' items m1))
            → (r : Bool × Bool × Engine X L S) → Delays w (clock_of_item r)
            → Ends clock_of_item w
                (after_item (λ ret' m1. case_loop i call parent t v ret' items m1) r)
        go rest (ret', true, m1) h = h
        go rest (ret', false, m1) h = rest ret' m1 h

    or_default-Ends :
        (w : Clock) (parent : ℕ) (t : CaseType) (v : BitVector) (d : Option (CaseItem X))
        (r : Bool × Bool × Engine X L S)
        → Delays w (clock_of_item r)
        → Ends clock_after w (or_default i call parent t v d r)
    unfolding case_item
    or_default-Ends w parent t v d (ret, true, m) h = h
    or_default-Ends w parent t v none (ret, false, m) h = h
    or_default-Ends w parent t v (some item) (ret, false, m) h =
        Ends-bind clock_of_item clock_after w (case_item i call parent t v item m) _
          (item_of-Ends w parent item.stmt t v item.exprs m h) (λ r q. q)

    pub case_of-Ends :
        (w : Clock) (parent : ℕ) (t : CaseType) (e : X) (items : List (CaseItem X))
        (d : Option (CaseItem X)) (m : Engine X L S)
        → Delays w (clock m)
        → Ends clock_after w (case_of i call parent t e items d m)
    unfolding case_of
    case_of-Ends w parent t e items d m s =
        let v = (eval i e m).0 in
        Ends-bind clock_of_item clock_after w
          (case_loop i call parent t v true items (eval i e m).1) (or_default i call parent t v d)
          (case_loop-Ends w parent t v true items _ (after_eval w e m s))
          (or_default-Ends w parent t v d)
