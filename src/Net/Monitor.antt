-- ===== src/Net/Monitor.antt =====
-- `check_monitor` of src/common/st_util.cc, with the flags of src/common/event.h.
use verilog_behavioral_simul.Base.{
  Bool, List, Option, [], false, if◌then◌else◌, none, some, true, ℕ, ◌∷◌,
}
use verilog_behavioral_simul.BitVector.{BitVector, get_bit, start_pos}
use verilog_behavioral_simul.BitVector.Assign.{assign}
use verilog_behavioral_simul.BitVector.Compare.{compare_c}
use verilog_behavioral_simul.EventQueue.{
  Event, TrigType, add_event, chng, has_type, monitor, negedge, posedge, strobe,
}
use verilog_behavioral_simul.Logic.{
  Edge, Logic, edge_detect, lo, neg_edge, no_edge, pos_edge, same_bit,
}
use verilog_behavioral_simul.Net.{Watch, World, put_watch}
use verilog_behavioral_simul.Statement.{Container, Shared, update}

-- `is_active`.
abbrev pub is_active : Container → Bool
is_active c = if c.force then true else c.active

-- `(ev->type() & t) != TRIG_NONE`, where `t` has these types.
unfoldable pub has_any : TrigType → List TrigType → Bool
has_any ty [] = false
has_any ty (t ∷ ts) = if has_type ty t then true else has_any ty ts

abbrev pub change_types : List TrigType
change_types = chng ∷ monitor ∷ strobe ∷ []

-- The types that the change of a bit has.
abbrev pub edge_types : Edge → List TrigType
edge_types no_edge = change_types
edge_types pos_edge = posedge ∷ change_types
edge_types neg_edge = negedge ∷ change_types

-- `cbit(cbit.start_pos())`.
abbrev pub first_bit : BitVector → Logic
first_bit v = get_bit v (start_pos v)

module _ {X : Type 0} where
  abbrev pub watch_at : ℕ → Shared (World X) → Watch X
  watch_at e sh = sh.nets.watches e

  -- `previous_bit(b)`, which assigns to the bit that was kept.
  abbrev pub set_previous : ℕ → BitVector → Shared (World X) → Shared (World X)
  set_previous e v sh =
      let w = watch_at e sh in
      record sh { nets = put_watch e (record w { previous_bit = assign w.previous_bit v }) sh.nets }

  -- `deactivate()`.
  abbrev pub deactivate : ℕ → Shared (World X) → Shared (World X)
  deactivate c sh = record sh {
    containers = update sh.containers c (record (sh.containers c) { active = false });
  }

  -- An event that is not queued is queued if its type is among those of the change, and with that
  -- it is no longer active.
  unfoldable pub wake : Event → List TrigType → Shared (World X) → Shared (World X)
  unfolding update has_any
  wake ev ts sh =
      if sh.eventqueue.is_queued ev.container
      then sh
      else if has_any ev.type ts
      then deactivate ev.container (record sh { eventqueue = add_event ev sh.eventqueue })
      else sh

module _ {X : Type 0} (evaluate : X → Shared (World X) → BitVector × Shared (World X)) where
  -- An event that is not active keeps track of its bit.
  unfoldable pub idle_watch : ℕ → Option X → Shared (World X) → Shared (World X)
  unfolding update
  idle_watch e none sh = sh
  idle_watch e (some bit) sh = let (cbit, sh1) = evaluate bit sh in set_previous e cbit sh1

  unfoldable pub active_watch :
      BitVector → BitVector → ℕ → Event → Option X → Shared (World X) → Shared (World X)
  unfolding wake update
  active_watch before after e ev none sh =
      if same_bit (compare_c before after) lo then wake ev change_types sh else sh
  active_watch before after e ev (some bit) sh =
      let (cbit, sh1) = evaluate bit sh in
      let pb = first_bit (watch_at e sh1).previous_bit in
      let cb = first_bit cbit in
      let sh2 = if same_bit pb cb then sh1 else wake ev (edge_types (edge_detect pb cb)) sh1 in
      set_previous e cbit sh2

  -- One turn of the loop.
  unfoldable pub check_watch : BitVector → BitVector → ℕ → Shared (World X) → Shared (World X)
  unfolding idle_watch active_watch
  check_watch before after e sh =
      let w = watch_at e sh in
      if is_active (sh.containers w.event.container)
      then active_watch before after e w.event w.monitor_bit sh
      else idle_watch e w.monitor_bit sh

  unfoldable pub check_monitor :
      BitVector → BitVector → List ℕ → Shared (World X) → Shared (World X)
  unfolding check_watch
  check_monitor before after [] sh = sh
  check_monitor before after (e ∷ es) sh =
      check_monitor before after es (check_watch before after e sh)
