-- ===== src/Simulation/Running.antt =====
-- `vbs_sim_step` and `vbs_sim_run` of src/sim.cc.
use verilog_behavioral_simul.Base.{
  Bool, List, Option, [], ap, false, refl, some, suc, sym, true, zero, ℕ, ◌^◌, ◌∙◌, ◌∷◌, ◌≡◌, ◌≤◌,
  ◌⊎◌,
}
use verilog_behavioral_simul.Simulation.{Session, Status, exhausted, failed, running}
use verilog_behavioral_simul.Simulation.Handlers.{vbs_sim_step, wheel_of}
use verilog_behavioral_simul.Statement.{Engine}
use verilog_behavioral_simul.Statement.Interface.{Call}
use verilog_behavioral_simul.Statement.Schedules.{Ends, wheel, wheel_after}
use verilog_behavioral_simul.TimeWheel.{Node}
use verilog_behavioral_simul.TimeWheel.Order.{After}
use verilog_behavioral_simul.TimeWheel.Run.{IsValid}

module _ {X L S : Type 0} (call : Call X L S)
    (schedules : (st : ℕ) (m : Engine X L S) → Ends wheel_after (wheel m) (call st st m))
    (dump_values : S → S) (queue_fuel fuel : ℕ) where
  -- The result of a step: either the wheel was empty, and nothing changed, or the first unit was
  -- handled, and time has moved to it.
  abbrev pub Stepped : Session X L S → Bool × Session X L S → Type 0
  Stepped s (false, s') = ((wheel_of s).nodes ≡ []) × (s' ≡ s)
  Stepped s (true, s') =
      (n : Node ℕ) × (ns : List (Node ℕ)) × ((wheel_of s).nodes ≡ n ∷ ns)
      × ((wheel_of s').latest_time ≡ n.time)
      × ((wheel_of s).latest_time ≤ n.time)
      × IsValid (wheel_of s')
      × After n.time (wheel_of s').nodes

  -- Sessions that steps lead to.
  pub data Steps : Session X L S → Session X L S → Type 0 where
    here : {s : Session X L S} → Steps s s
    next :
        {s s' s'' : Session X L S}
        → vbs_sim_step call dump_values queue_fuel fuel s ≡ (true, s')
        → Steps s' s''
        → Steps s s''

  -- Every unit that the steps from here handle ends with the simulation running: no statement
  -- fails, and none goes on for ever.
  abbrev pub UnitsEnd : Session X L S → Type 0
  UnitsEnd s = (s' : Session X L S) → Steps s s' → s'.status ≡ running

  -- The steps from a session end within so many, all of them at sessions that are running.
  abbrev pub step_running : (Session X L S → Bool) → Bool × Session X L S → Bool
  step_running rest (false, s) = true
  step_running rest (true, s) = rest s

  abbrev pub if_running : Status → Bool → Bool
  if_running running b = b
  if_running failed b = false
  if_running exhausted b = false

  unfoldable pub all_running : ℕ → Session X L S → Bool
  all_running zero s = false
  all_running (suc n) s =
      if_running s.status
        (step_running (all_running n) (vbs_sim_step call dump_values queue_fuel fuel s))

  if_running-eq : (c : Status) (b : Bool) → if_running c b ≡ true → (c ≡ running) × (b ≡ true)
  if_running-eq running b e = (refl, e)
  if_running-eq failed b e = cc
  if_running-eq exhausted b e = cc

  pub all_running-UnitsEnd : (n : ℕ) (s : Session X L S) → all_running n s ≡ true → UnitsEnd s
  unfolding all_running
  all_running-UnitsEnd zero s e t steps = cc
  all_running-UnitsEnd (suc n) s e t here = (if_running-eq s.status _ e).0
  all_running-UnitsEnd (suc n) s e t (next {s' = s'} q steps) =
      all_running-UnitsEnd n s'
        (sym (ap (step_running (all_running n)) q) ∙ (if_running-eq s.status _ e).1) t steps

  -- Where a run until `end_time` ends: it has reached the time, or nothing is left to do.
  abbrev pub Reached : ℕ → Bool → Session X L S → Type 0
  Reached end_time true s = end_time ≤ (wheel_of s).latest_time
  Reached end_time false s = (wheel_of s).nodes ≡ []

  -- A time that is not an `int` of 32 bits.
  abbrev pub Overflows : Session X L S → Type 0
  Overflows s = (s' : Session X L S) × Steps s s' × (2 ^ 31 ≤ (wheel_of s').latest_time)

  abbrev pub Ran : ℕ → Session X L S → Option (Bool × Session X L S) → Type 0
  Ran end_time s o =
      ((b : Bool) × (s' : Session X L S) × (o ≡ some (b, s'))
        × Steps s s'
        × (s'.status ≡ running)
        × Reached end_time b s')
      ⊎ Overflows s
