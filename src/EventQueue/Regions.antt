-- ===== src/EventQueue/Regions.antt =====
-- The regions in which `add_event` of src/common/event.h puts events.
use verilog_behavioral_simul.Base.{ℕ, ◌==◌, ◌≡◌, refl, true, List, [], ◌∷◌, ◌++◌, if◌then◌else◌}
use verilog_behavioral_simul.EventQueue.{
  TrigType, negedge, inactive, nonblk, monitor, strobe, Event, Queue, add_event,
}

-- The regions, as the standard orders them.
abbrev pub rank : TrigType → ℕ
rank inactive = 1
rank nonblk = 2
rank monitor = 3
rank strobe = 4
rank _ = 0

-- The list for events of a type.
abbrev pub list_of : TrigType → Queue → List Event
list_of inactive q = q.inactive_list
list_of nonblk q = q.nonblocking_list
list_of monitor q = q.monitor_list
list_of strobe q = q.strobe_list
list_of _ q = q.active_list

placed :
    (ty : TrigType) (c : ℕ) (q : Queue) (t : TrigType)
    → let ev : Event = record { type = ty; container = c } in
      list_of t (add_event ev q)
      ≡ (if rank ty == rank t then list_of t q ++ ev ∷ [] else list_of t q)
unfolding add_event
placed negedge c q negedge = refl
placed negedge c q _ = refl
placed _ c q strobe = refl
placed _ c q _ = refl

flagged :
    (ty : TrigType) (c : ℕ) (q : Queue) (d : ℕ)
    → (add_event (record { type = ty; container = c }) q).is_queued d
      ≡ (if c == d then true else q.is_queued d)
unfolding add_event
flagged negedge c q d = refl
flagged _ c q d = refl

-- Queuing an event puts it at the end of the list of its own region, leaves every other list as
-- it is, and marks its container, and no other, as queued.
pub add_event-list_of :
    (ev : Event) (q : Queue) (t : TrigType) (d : ℕ)
    → (list_of t (add_event ev q)
        ≡ (if rank ev.type == rank t then list_of t q ++ ev ∷ [] else list_of t q))
      × ((add_event ev q).is_queued d ≡ (if ev.container == d then true else q.is_queued d))
add_event-list_of ev q t d = (placed ev.type ev.container q t, flagged ev.type ev.container q d)
