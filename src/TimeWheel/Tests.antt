-- ===== src/TimeWheel/Tests.antt =====
-- Runs of a time wheel with three units.
use verilog_behavioral_simul.TimeWheel.Total.{trigger-done}
use verilog_behavioral_simul.TimeWheel.{trigger, Node, Wheel, add_event, trigger_once}
use verilog_behavioral_simul.Base.{
  some, ℕ, ◌+◌, ◌==◌, ◌≤◌, ◌≡◌, refl, arith, true, List, [], ◌∷◌, ◌++◌, if◌then◌else◌,
}
use verilog_behavioral_simul.TimeWheel.Run.{IsValid, trigger_once-advances, Works, stop, add}
use verilog_behavioral_simul.TimeWheel.Order.{IsSorted, add_event-events_at, events_at, After}

abbrev first_unit : Node ℕ
first_unit = record { time = 2; events = 7 ∷ [] }

abbrev later_units : List (Node ℕ)
later_units = record { time = 5; events = 8 ∷ 9 ∷ [] } ∷ []

abbrev wheel : Wheel ℕ
wheel = record { latest_time = 1; nodes = first_unit ∷ later_units }

abbrev wheel_IsSorted : IsSorted wheel.nodes
wheel_IsSorted = (omega arith, (tt, tt))

add_event-events_at_example :
    events_at 5 (add_event 5 6 wheel).nodes
    ≡ (if 5 == 5 then events_at 5 wheel.nodes ++ 6 ∷ [] else events_at 5 wheel.nodes)
add_event-events_at_example =
    add_event-events_at 5 5 6 first_unit wheel later_units refl wheel_IsSorted (omega arith)

-- A handler that queues one event ten units later.
abbrev handler : ℕ → Wheel ℕ × ℕ → Wheel ℕ × ℕ
handler t st = (add_event (t + 10) 1 st.0, st.1 + 1)

abbrev handler_Works : (t : ℕ) (w : Wheel ℕ) (s : ℕ) → Works w (handler t (w, s)).0
handler_Works t w s = add (t + 10) 1 stop

trigger_once-advances_example :
    let (more, w', s') = trigger_once handler wheel 0 in
    (more ≡ true)
    × (w'.latest_time ≡ first_unit.time)
    × (wheel.latest_time ≤ first_unit.time)
    × IsValid w'
    × After first_unit.time w'.nodes
trigger_once-advances_example =
    trigger_once-advances handler first_unit later_units wheel 0 handler_Works refl
      (wheel_IsSorted, omega arith)

-- A handler that counts the units, and adds nothing.
abbrev counting : ℕ → Wheel ℕ × ℕ → Wheel ℕ × ℕ
counting t st = (st.0, st.1 + 1)

trigger-done_example :
    (w' : Wheel ℕ) × (s' : ℕ) × (trigger counting 3 wheel 0 ≡ some (w', s')) × (w'.nodes ≡ [])
trigger-done_example =
    trigger-done counting (λ s. 0) (λ t st h. h) (λ t st. omega arith) 3 wheel 0 (omega arith)
