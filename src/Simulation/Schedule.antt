-- ===== src/Simulation/Schedule.antt =====
-- The schedule of a time unit, as relations between sessions: what `twhandler`, `eqhandler` and
-- `event_queue::trigger` of src/sim.cc and src/common/event.h are to do, apart from how their
-- loops are written.
use verilog_behavioral_simul.Base.{List, [], false, true, ℕ, ◌+◌, ◌++◌, ◌∷◌, ◌≡◌}
use verilog_behavioral_simul.EventQueue.{
  Event, Queue, Region, in_active, in_inactive, in_monitor, in_nonblocking, move_out, move_strobe,
  region_list,
}
use verilog_behavioral_simul.Simulation.{Session, trigger_postproc}
use verilog_behavioral_simul.Simulation.Handlers.{pop_event, put_queue, queue_of, same, unit_events}
use verilog_behavioral_simul.Statement.{Engine, done}
use verilog_behavioral_simul.Statement.Interface.{Call}

-- The first region that has an event.
abbrev pub IsFirst : Region → Queue → Type 0
IsFirst in_active q = ¬ (q.active_list ≡ [])
IsFirst in_inactive q = (q.active_list ≡ []) × ¬ (q.inactive_list ≡ [])
IsFirst in_nonblocking q =
    (q.active_list ≡ []) × (q.inactive_list ≡ []) × ¬ (q.nonblocking_list ≡ [])
IsFirst in_monitor q =
    (q.active_list ≡ [])
    × (q.inactive_list ≡ [])
    × (q.nonblocking_list ≡ [])
    × ¬ (q.monitor_list ≡ [])

-- Only strobe events may be left.
abbrev pub IsDrained : Queue → Type 0
IsDrained q =
    (q.active_list ≡ [])
    × (q.inactive_list ≡ [])
    × (q.nonblocking_list ≡ [])
    × (q.monitor_list ≡ [])

module _ {X L S : Type 0} where
  abbrev pub take_region : Region → Session X L S → Session X L S
  take_region r s = put_queue (move_out r (queue_of s)) s

  abbrev pub take_strobes : Session X L S → Session X L S
  take_strobes s = put_queue (move_strobe (queue_of s)) s

  abbrev pub count_event : Session X L S → Session X L S
  count_event s =
      put_queue (record (queue_of s) { triggered_events = (queue_of s).triggered_events + 1 }) s

  -- The statement of an event's container.
  abbrev pub statement_of : Event → Session X L S → ℕ
  statement_of ev s = (s.engine.shared.containers ev.container).object

module _ {X L S : Type 0} (call : Call X L S) where
  -- A statement is triggered and its event taken off; if it has come to its end, that is seen to.
  pub data Served (st : ℕ) (pop : Session X L S → Session X L S)
      : Session X L S → Session X L S → Type 0 where
    waiting :
        {s : Session X L S} (m : Engine X L S)
        → call st st s.engine ≡ done (false, m)
        → Served st pop s (pop (record s { engine = m }))
    at_end :
        {s : Session X L S} (m m' : Engine X L S)
        → call st st s.engine ≡ done (true, m)
        → trigger_postproc st (pop (record s { engine = m })).engine ≡ done m'
        → Served st pop s (record (pop (record s { engine = m })) { engine = m' })

  -- The statements of a list of events are served, one behind the other.
  pub data ServedAll : List Event → Session X L S → Session X L S → Type 0 where
    all_served : {s : Session X L S} → ServedAll [] s s
    next_event :
        {ev : Event} {evs : List Event} {s s' s'' : Session X L S}
        → Served (statement_of ev s) same s s'
        → ServedAll evs (count_event s') s''
        → ServedAll (ev ∷ evs) s s''

  -- The event queue is run: time and again the first region that has an event, and when none has
  -- one, the strobe events.
  pub data QueueRun : Session X L S → Session X L S → Type 0 where
    strobes :
        {s s' : Session X L S}
        → IsDrained (queue_of s)
        → ServedAll (queue_of s).strobe_list (take_strobes s) s'
        → QueueRun s s'
    region :
        {s s' s'' : Session X L S} (r : Region)
        → IsFirst r (queue_of s)
        → ServedAll (region_list r (queue_of s)) (take_region r s) s'
        → QueueRun s' s''
        → QueueRun s s''

  -- A time unit: the oldest event is served, and what is added stands behind the others; whenever
  -- that leaves the unit without events, the event queue is run; and the unit is over when it has
  -- none after that.
  pub data UnitRun : Session X L S → Session X L S → Type 0 where
    over : {s : Session X L S} → unit_events s ≡ [] → UnitRun s s
    served :
        {s s' s'' : Session X L S} (st next : ℕ) (rest added others : List ℕ)
        → unit_events s ≡ st ∷ rest
        → Served st pop_event s s'
        → unit_events s' ≡ rest ++ added
        → unit_events s' ≡ next ∷ others
        → UnitRun s' s''
        → UnitRun s s''
    emptied :
        {s s' s'' s''' : Session X L S} (st : ℕ) (rest added : List ℕ)
        → unit_events s ≡ st ∷ rest
        → Served st pop_event s s'
        → unit_events s' ≡ rest ++ added
        → unit_events s' ≡ []
        → QueueRun s' s''
        → UnitRun s'' s'''
        → UnitRun s s'''

  pub UnitRun-empty : {s s' : Session X L S} → UnitRun s s' → unit_events s' ≡ []
  UnitRun-empty (over e) = e
  UnitRun-empty (served st next rest added others e q f g r) = UnitRun-empty r
  UnitRun-empty (emptied st rest added e q f g h r) = UnitRun-empty r
