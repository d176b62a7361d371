-- ===== src/Statement/Schedules.antt =====
-- What a run of statements may do to the time wheel, seen from src/sim.cc: add events.
use verilog_behavioral_simul.Base.{Bool, false, if◌then◌else◌, true, ℕ}
use verilog_behavioral_simul.Statement.{Engine, Outcome, done, fault, spent}
use verilog_behavioral_simul.TimeWheel.{Wheel}
use verilog_behavioral_simul.TimeWheel

-- Events were added, at any times.
pub data Schedules {E : Type 0} : Wheel E → Wheel E → Type 0 where
  stop : {w : Wheel E} → Schedules w w
  later :
      {w w' : Wheel E} (t : ℕ) (obj : E)
      → Schedules (TimeWheel.add_event t obj w) w'
      → Schedules w w'

module _ {E : Type 0} where
  pub Schedules-trans : {u v w : Wheel E} → Schedules u v → Schedules v w → Schedules u w
  Schedules-trans stop r = r
  Schedules-trans (later t obj q) r = later t obj (Schedules-trans q r)

-- A run that is done has only scheduled; `g` gives the wheel of its result.
abbrev pub Ends : {A : Type 0} → (A → Wheel ℕ) → Wheel ℕ → Outcome A → Type 0
Ends g w (done a) = Schedules w (g a)
Ends g w fault = Unit
Ends g w spent = Unit

pub if_Ends :
    {A : Type 0} (g : A → Wheel ℕ) (w : Wheel ℕ) (b : Bool) (x y : Outcome A)
    → Ends g w x
    → Ends g w y
    → Ends g w (if b then x else y)
if_Ends g w true x y p q = p
if_Ends g w false x y p q = q

module _ {X L S : Type 0} where
  abbrev pub wheel : Engine X L S → Wheel ℕ
  wheel m = m.shared.timewheel

  abbrev pub wheel_after : Bool × Engine X L S → Wheel ℕ
  wheel_after r = wheel r.1
