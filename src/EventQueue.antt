-- ===== src/EventQueue.antt =====
-- The event queue of src/common/event.h: five lists, one for each region of the standard's
-- scheduling order, and the counters. Events of one statement share a container; its `_queued`
-- flag is kept in the queue's record here, by the number of the container.
pub mod Regions
pub mod Drain
pub mod Invariant
pub mod Order
pub mod Tests
use Prim.Native.Nat.{bit_and}
use verilog_behavioral_simul.Base.{
  ℕ, zero, suc, ◌+◌, ◌==◌, Bool, true, false, Option, none, some, List, [], ◌∷◌, ◌++◌,
  if◌then◌else◌,
}

-- `TRIG_TYPE`, and its codes.
pub data TrigType : Type 0 where
  negedge posedge chng inactive nonblk monitor strobe : TrigType

abbrev pub code : TrigType → ℕ
code negedge = 0x01
code posedge = 0x02
code chng = 0x04
code inactive = 0x10
code nonblk = 0x20
code monitor = 0x40
code strobe = 0x80

-- `(l & r) != TRIG_NONE`.
abbrev pub has_type : TrigType → TrigType → Bool
has_type l r = if bit_and (code l) (code r) == 0 then false else true

-- `event_base`: its type, and its container, by which a handler knows the statement.
pub record Event : Type 0 where
  pub type : TrigType
  pub container : ℕ

pub record Queue : Type 0 where
  pub queued_active : ℕ
  pub queued_inactive : ℕ
  pub queued_nonblocking : ℕ
  pub queued_monitor : ℕ
  pub queued_strobe : ℕ
  pub triggered_events : ℕ
  pub active_list : List Event
  pub inactive_list : List Event
  pub nonblocking_list : List Event
  pub monitor_list : List Event
  pub strobe_list : List Event
  pub is_queued : ℕ → Bool

-- The constructor. It leaves `_queued_nonblocking` as the memory has it.
unfoldable pub new_queue : ℕ → Queue
new_queue garbage = record {
  queued_active = 0;
  queued_inactive = 0;
  queued_nonblocking = garbage;
  queued_monitor = 0;
  queued_strobe = 0;
  triggered_events = 0;
  active_list = [];
  inactive_list = [];
  nonblocking_list = [];
  monitor_list = [];
  strobe_list = [];
  is_queued = λ c. false;
}

abbrev pub set_flag : (ℕ → Bool) → ℕ → Bool → ℕ → Bool
set_flag f c b d = if c == d then b else f d

unfoldable pub add_event : Event → Queue → Queue
add_event ev q =
    let flags = set_flag q.is_queued ev.container true in
    if has_type ev.type strobe
    then record q {
      strobe_list = q.strobe_list ++ ev ∷ [];
      queued_strobe = q.queued_strobe + 1;
      is_queued = flags;
    }
    else if has_type ev.type monitor
    then record q {
      monitor_list = q.monitor_list ++ ev ∷ [];
      queued_monitor = q.queued_monitor + 1;
      is_queued = flags;
    }
    else if has_type ev.type nonblk
    then record q {
      nonblocking_list = q.nonblocking_list ++ ev ∷ [];
      queued_nonblocking = q.queued_nonblocking + 1;
      is_queued = flags;
    }
    else if has_type ev.type inactive
    then record q {
      inactive_list = q.inactive_list ++ ev ∷ [];
      queued_inactive = q.queued_inactive + 1;
      is_queued = flags;
    }
    else record q {
      active_list = q.active_list ++ ev ∷ [];
      queued_active = q.queued_active + 1;
      is_queued = flags;
    }

-- The flags after `move_events` of a list: each event of it may be queued again.
unfoldable pub unqueue_all : List Event → (ℕ → Bool) → ℕ → Bool
unqueue_all [] f = f
unqueue_all (ev ∷ evs) f = unqueue_all evs (set_flag f ev.container false)

unfoldable pub queued_events : Queue → ℕ
queued_events q = q.queued_active + q.queued_inactive + q.queued_monitor + q.queued_strobe

-- A region, in the order in which they are served.
pub data Region : Type 0 where
  in_active in_inactive in_nonblocking in_monitor : Region

-- The tests of the loop of `trigger`: the first list that is not empty.
unfoldable pub next_region : Queue → Option Region
next_region q = elim q.active_list [
  | e ∷ es ↦ some in_active
  | [] ↦ elim q.inactive_list [
    | e ∷ es ↦ some in_inactive
    | [] ↦ elim q.nonblocking_list [
      | e ∷ es ↦ some in_nonblocking
      | [] ↦ elim q.monitor_list [ e ∷ es ↦ some in_monitor | [] ↦ none ]
    ]
  ]
]

abbrev pub region_list : Region → Queue → List Event
region_list in_active q = q.active_list
region_list in_inactive q = q.inactive_list
region_list in_nonblocking q = q.nonblocking_list
region_list in_monitor q = q.monitor_list

-- `move_events(temp, list)` for a region's list: what is left in the queue.
unfoldable pub move_out : Region → Queue → Queue
unfolding unqueue_all
move_out r q =
    let flags = unqueue_all (region_list r q) q.is_queued in
    elim r [
      | in_active ↦ record q { active_list = []; is_queued = flags }
      | in_inactive ↦ record q { inactive_list = []; is_queued = flags }
      | in_nonblocking ↦ record q { nonblocking_list = []; is_queued = flags }
      | in_monitor ↦ record q { monitor_list = []; is_queued = flags }
    ]

unfoldable pub move_strobe : Queue → Queue
unfolding unqueue_all
move_strobe q = record q { strobe_list = []; is_queued = unqueue_all q.strobe_list q.is_queued }

-- The handler is given a container, and may queue more events.
module _ {S : Type 0} (handler : ℕ → Queue × S → Queue × S) where
  -- `handle_events`, on the list that was moved out.
  unfoldable pub handle_events : List Event → Queue × S → Queue × S
  handle_events [] st = st
  handle_events (ev ∷ evs) st =
      let (q, s) = handler ev.container st in
      handle_events evs (record q { triggered_events = q.triggered_events + 1 }, s)

  -- The loop of `trigger`, or `none` when the fuel is used up.
  unfoldable pub drain : ℕ → Queue × S → Option (Queue × S)
  drain zero st = none
  drain (suc fuel) st = elim (next_region st.0) [
    | none ↦ some st
    | some r ↦ drain fuel (handle_events (region_list r st.0) (move_out r st.0, st.1))
  ]

  -- `trigger`: the loop, and then the strobe events.
  unfoldable pub trigger : ℕ → Queue × S → Option (Queue × S)
  trigger fuel st = elim (drain fuel st) [
    | none ↦ none
    | some (q, s) ↦ some (handle_events q.strobe_list (move_strobe q, s))
  ]
