-- ===== src/Statement/Delays.antt =====
-- The delays of statements, and the time wheel: src/stmt/strigger.cc, src/common/st_trig.cc and
-- src/misc/dectrig.cc.
pub mod Blocks
pub mod Classes
pub mod Trigger
use verilog_behavioral_simul.Base.{
  ap, arith, sym, Bool, List, Option, false, if◌then◌else◌, none, refl, some, subst, true, ℕ, ◌%◌,
  ◌+◌, ◌==◌, ◌^◌, ◌≡◌,
}
use verilog_behavioral_simul.BitVector.{BitVector}
use verilog_behavioral_simul.EventQueue.{Event}
use verilog_behavioral_simul.Statement.{
  set_delayed, update, ControlKind, Engine, Outcome, Shared, delay_id, delay_num, done, fault,
  ored_event_expr, spent, ◌>>=◌,
}
use verilog_behavioral_simul.Statement.Delay.{
  start_control, control_of, delay, handle_control, handle_dec, queue_once, trigger_dec,
}
use verilog_behavioral_simul.Statement.Interface.{Interface}
use verilog_behavioral_simul.Statement.Schedules.{Schedules}
use verilog_behavioral_simul.TimeWheel.{Wheel}
use verilog_behavioral_simul.TimeWheel

-- What the delays of statements depend on: the time wheel, and what each control is.
abbrev pub Clock : Type 0
Clock = Wheel ℕ × (ℕ → ControlKind)

-- A control is a delay of `n` units.
abbrev pub IsDelay : ℕ → ControlKind → Type 0
IsDelay n (delay_num next_time ev) = next_time ≡ n
IsDelay n (delay_id next_time ev) = next_time ≡ n
IsDelay n (ored_event_expr cs) = ⊥

-- Events were added by delays: each at the current time and a delay that is a control, as a sum
-- of 64 bits.
pub data Delays : Clock → Clock → Type 0 where
  stop : {w : Clock} → Delays w w
  later :
      {w w' : Clock} (obj c n : ℕ)
      → IsDelay n (w.1 c)
      → Delays (TimeWheel.add_event ((w.0.latest_time + n) % 2 ^ 64) obj w.0, w.1) w'
      → Delays w w'

pub Delays-trans : {u v w : Clock} → Delays u v → Delays v w → Delays u w
Delays-trans stop r = r
Delays-trans (later obj c n h q) r = later obj c n h (Delays-trans q r)

pub Delays-eq : {v w : Clock} → v ≡ w → Delays v w
Delays-eq {v} e = subst (λ w. Delays v w) e stop

pub Delays-Schedules : {v w : Clock} → Delays v w → Schedules v.0 w.0
Delays-Schedules stop = Schedules.stop
Delays-Schedules (later {w = w} obj c n h q) =
    Schedules.later ((w.0.latest_time + n) % 2 ^ 64) obj (Delays-Schedules q)

abbrev pub Kept : {S : Type 0} → Shared S → Option (Shared S) → Type 0
Kept sh none = Unit
Kept sh (some sh') = sh'.timewheel ≡ sh.timewheel

-- The parts that a statement uses leave the wheel as it is.
pub record KeepsWheel {X L S : Type 0} (i : Interface X L S) : Type 0 where
  pub evaluate_keeps : (e : X) (sh : Shared S) → (i.evaluate e sh).1.timewheel ≡ sh.timewheel
  pub set_target_keeps : (l : L) (sh : Shared S) → (i.set_target l sh).timewheel ≡ sh.timewheel
  pub clr_target_keeps : (l : L) (sh : Shared S) → (i.clr_target l sh).timewheel ≡ sh.timewheel
  pub trigger_lvalue_keeps :
      (l : L) (v : BitVector) (sh : Shared S) → (i.trigger_lvalue l v sh).timewheel ≡ sh.timewheel
  pub monitor_expr_keeps : (ev : Event) (e : X) (sh : Shared S) → Kept sh (i.monitor_expr ev e sh)
  pub system_keeps : (t p : ℕ) (sh : Shared S) → (i.system t p sh).1.timewheel ≡ sh.timewheel
  pub entry_iovars_keeps :
      (t : ℕ) (args : List X) (sh : Shared S) → (i.entry_iovars t args sh).timewheel ≡ sh.timewheel
  pub exit_iovars_keeps :
      (t : ℕ) (args : List X) (sh : Shared S) → (i.exit_iovars t args sh).timewheel ≡ sh.timewheel

-- A run that is done has only scheduled; `g` gives the clock of its result.
abbrev pub Ends : {A : Type 0} → (A → Clock) → Clock → Outcome A → Type 0
Ends g w (done a) = Delays w (g a)
Ends g w fault = Unit
Ends g w spent = Unit

pub Ends-bind :
    {A B : Type 0} (g : A → Clock) (h : B → Clock) (w : Clock) (o : Outcome A) (f : A → Outcome B)
    → Ends g w o
    → ((a : A) → Delays w (g a) → Ends h w (f a))
    → Ends h w (o >>= f)
Ends-bind g h w (done a) f e k = k a e
Ends-bind g h w fault f e k = tt
Ends-bind g h w spent f e k = tt

module _ {S : Type 0} where
  -- The controls stay as they are.
  abbrev pub ByShared : (ℕ → ControlKind) → Shared S → Shared S → Type 0
  ByShared ks sh sh' = Delays (sh.timewheel, ks) (sh'.timewheel, ks)

  if_shared :
      (ks : ℕ → ControlKind) (sh : Shared S) (b : Bool) (x y : Shared S)
      → ByShared ks sh x
      → ByShared ks sh y
      → ByShared ks sh (if b then x else y)
  if_shared ks sh true x y p q = p
  if_shared ks sh false x y p q = q

  pub queue_once_keeps :
      (ks : ℕ → ControlKind) (ev : Event) (sh : Shared S) → ByShared ks sh (queue_once ev sh)
  queue_once_keeps ks ev sh = if_shared ks sh (sh.eventqueue.is_queued ev.container) _ _ stop stop

  delay-Delays :
      (ks : ℕ → ControlKind) (c n : ℕ) (ev : Event) (stmt : ℕ) (sh : Shared S)
      → IsDelay n (ks c)
      → ByShared ks sh (delay n ev stmt sh)
  unfolding delay
  delay-Delays ks c n ev stmt sh h =
      if_shared ks sh (n == 0) _ _ (queue_once_keeps ks ev sh) (later stmt c n h stop)

  pub trigger_dec-Delays :
      (ks : ℕ → ControlKind) (c : ℕ) (k : ControlKind) (stmt : ℕ) (sh : Shared S)
      → ks c ≡ k
      → ByShared ks sh (trigger_dec k stmt sh)
  unfolding trigger_dec
  trigger_dec-Delays ks c (delay_num n ev) stmt sh e = delay-Delays ks c n ev stmt sh (rw e refl)
  trigger_dec-Delays ks c (delay_id n ev) stmt sh e = delay-Delays ks c n ev stmt sh (rw e refl)
  trigger_dec-Delays ks c (ored_event_expr cs) stmt sh e = stop

module _ {X L S : Type 0} where
  abbrev pub kinds : Engine X L S → ℕ → ControlKind
  kinds m c = (m.controls c).control

  abbrev pub clock : Engine X L S → Clock
  clock m = (m.shared.timewheel, kinds m)

  pub keep_clock :
      (m : Engine X L S) {w : Wheel ℕ} → w ≡ m.shared.timewheel → (w, kinds m) ≡ clock m
  keep_clock m e = ap (λ w. (w, kinds m)) e

  pub set_delayed-clock :
      (c : ℕ) (b : Bool) (m : Engine X L S) → clock (set_delayed c b m) ≡ clock m
  unfolding update
  set_delayed-clock c b m = ap (λ ks. (m.shared.timewheel, ks)) (λ i d. same d i)
    where
      same : (d : ℕ) → kinds (set_delayed c b m) d ≡ kinds m d
      same d = ground arith

  -- A control is started that was marked before.
  pub start_control-Delays :
      (c stmt : ℕ) (m : Engine X L S) → Delays (clock m) (clock (start_control c stmt m))
  start_control-Delays c stmt m =
      trigger_dec-Delays (kinds m) c (m.controls c).control stmt m.shared refl

  handle_control-Delays :
      (parent c : ℕ) (m : Engine X L S) (b : Bool)
      → (m.controls c).delayed ≡ b
      → Delays (clock m) (clock (handle_control parent c m).1)
  handle_control-Delays parent c m true e = rw e (Delays-eq (sym (set_delayed-clock c false m)))
  handle_control-Delays parent c m false e = rw e (
      Delays-trans (Delays-eq (sym (set_delayed-clock c true m)))
        (start_control-Delays c parent (set_delayed c true m)))

  pub handle_dec-Delays :
      (parent p : ℕ) (m : Engine X L S) → Delays (clock m) (clock (handle_dec parent p m).1)
  unfolding handle_dec
  handle_dec-Delays parent p m = go (control_of (m.statements parent) (m.statements p))
    where
      go :
          (o : Option ℕ)
          → Delays (clock m) (
              clock
                (elim o as (λ _. Bool × Engine X L S) [
                  | none ↦ (false, m)
                  | some c ↦ handle_control parent c m
                ]).1)
      go none = stop
      go (some c) = handle_control-Delays parent c m (m.controls c).delayed refl
