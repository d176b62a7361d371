-- ===== src/TimeWheel.antt =====
-- The time wheel of src/common/time_whl.h: a list of time units, each with the events that it was
-- given, and the time of the latest unit triggered. An event is any type; the handler is a
-- function on a state of the client's, which is where the wheel itself lies when the handler
-- queues more events.
pub mod Order
pub mod Run
pub mod Total
pub mod Tests
use verilog_behavioral_simul.Base.{
  Bool, List, Option, [], false, if◌then◌else◌, ltb, none, some, suc, true, zero, ℕ, ◌++◌, ◌==◌,
  ◌∷◌,
}

-- `time_wheel_node`.
pub record Node (E : Type 0) : Type 0 where
  pub time : ℕ
  pub events : List E

-- `time_wheel`.
pub record Wheel (E : Type 0) : Type 0 where
  pub latest_time : ℕ
  pub nodes : List (Node E)

-- `if (tmp.time() > _latest_time) _latest_time = tmp.time()`.
abbrev pub advance : ℕ → ℕ → ℕ
advance latest t = if ltb latest t then t else latest

module _ {E : Type 0} where
  -- The constructor makes the unit of time 0.
  unfoldable pub new_wheel : Wheel E
  new_wheel = record { latest_time = 0; nodes = record { time = 0; events = [] } ∷ [] }

  abbrev pub single : ℕ → E → Node E
  single t obj = record { time = t; events = obj ∷ [] }

  -- `node.add_event`.
  abbrev pub push_event : Node E → E → Node E
  push_event n obj = record n { events = n.events ++ obj ∷ [] }

  -- The loop of `add_event`, at a node with the nodes behind it. A time before the first node is
  -- reported and dropped.
  unfoldable pub add_loop : ℕ → E → List (Node E) → List (Node E)
  add_loop t obj [] = []
  add_loop t obj (n ∷ []) =
      if t == n.time
      then push_event n obj ∷ []
      else if ltb n.time t
      then n ∷ single t obj ∷ []
      else n ∷ []
  add_loop t obj (n ∷ m ∷ ns) =
      let rest = add_loop t obj (m ∷ ns) in
      if t == n.time
      then push_event n obj ∷ m ∷ ns
      else if ltb n.time t
      then (if ltb t m.time then n ∷ single t obj ∷ m ∷ ns else n ∷ rest)
      else n ∷ m ∷ ns

  unfoldable pub add_event : ℕ → E → Wheel E → Wheel E
  unfolding add_loop
  add_event t obj w = record w { nodes = add_loop t obj w.nodes }

  -- `_node.pop_front()`.
  abbrev pub pop_node : List (Node E) → List (Node E)
  pop_node [] = []
  pop_node (n ∷ ns) = ns

-- The triggers take the handler as a function on the wheel and the client's state together, since
-- a handler reaches the wheel: it takes events off the first node and adds others.
module _ {E S : Type 0} (handler : ℕ → Wheel E × S → Wheel E × S) where
  -- The body that `trigger_once` and the loop of `trigger` share, at a first node.
  unfoldable pub trigger_node : Node E → Wheel E → S → Wheel E × S
  trigger_node n w s =
      let (w', s') = handler n.time (record w { latest_time = advance w.latest_time n.time }, s) in
      (record w' { nodes = pop_node w'.nodes }, s')

  -- `trigger_once`, with its result, at the nodes of the wheel.
  unfoldable pub trigger_first : List (Node E) → Wheel E → S → Bool × Wheel E × S
  trigger_first [] w s = (false, w, s)
  trigger_first (n ∷ ns) w s = let (w', s') = trigger_node n w s in (true, w', s')

  unfoldable pub trigger_once : Wheel E → S → Bool × Wheel E × S
  unfolding trigger_first
  trigger_once w s = trigger_first w.nodes w s

  -- `trigger`: until no node is left, or `none` when the fuel is used up.
  unfoldable pub trigger : ℕ → Wheel E → S → Option (Wheel E × S)
  trigger zero w s = none
  trigger (suc fuel) w s =
      let (more, w', s') = trigger_once w s in
      let rest = trigger fuel w' s' in if more then rest else some (w, s)
