-- ===== src/Net/Assign.antt =====
-- `st_net_assign` of src/common/st_util.cc. An output port assigns to the net that it is connected
-- to; the depth of ports is bounded by fuel.
use verilog_behavioral_simul.Base.{
  List, Option, if◌then◌else◌, none, some, suc, true, zero, ℕ, ℤ, ◌&&◌, ◌>>=◌,
}
use verilog_behavioral_simul.BitVector.{BitVector, copy}
use verilog_behavioral_simul.BitVector.Compare.{compare_c}
use verilog_behavioral_simul.Logic.{hi, same_bit}
use verilog_behavioral_simul.Net.{
  IoDirection, World, element, inout_io, is_mem, minus_one, out_io, outside_memory, put_net,
}
use verilog_behavioral_simul.Net.Monitor.{check_monitor}
use verilog_behavioral_simul.Net.Store.{store_net}
use verilog_behavioral_simul.Statement.{Shared, update}

-- `_port_index != 0 && (_iodirection == OUT || _iodirection == INOUT)`.
abbrev pub drives : IoDirection → Option ℕ → Option ℕ
drives out_io p = p
drives inout_io p = p
drives _ p = none

module _ {X : Type 0} (evaluate : X → Shared (World X) → BitVector × Shared (World X)) where
  -- The assignment to the net behind an output port.
  abbrev pub drive :
      (ℕ → BitVector → ℤ → ℤ → Shared (World X) → Option (Shared (World X)))
      → Option ℕ
      → BitVector
      → ℤ
      → ℤ
      → Shared (World X)
      → Option (Shared (World X))
  drive go_on none after m l sh = some sh
  drive go_on (some q) after m l sh = go_on q after m l sh

  -- What follows a store that changed the value.
  unfoldable pub note_change :
      BitVector → BitVector → ℕ → List ℕ → Shared (World X) → Shared (World X)
  unfolding update check_monitor
  note_change before after p es sh =
      check_monitor evaluate before after es
        (record sh { nets = put_net p (record (sh.nets.nets p) { changed = true }) sh.nets })

  unfoldable pub assign_net :
      ℕ → ℕ → BitVector → ℤ → ℤ → ℤ → ℤ → Shared (World X) → Option (Shared (World X))
  unfolding update store_net note_change
  assign_net zero p num ms ls m l sh = none
  assign_net (suc fuel) p num ms ls m l sh =
      let n = sh.nets.nets p in
      let before = copy (n.storage (element n m)) in
      if is_mem n && outside_memory n m
      then some sh
      else store_net n num ms ls m l >>= λ stored.
          let sh1 = record sh {
            nets = put_net p (record n { storage = update n.storage (element n m) stored }) sh.nets;
          } in
          let after = copy stored in
          let rest =
            drive (λ q v a b s. assign_net fuel q v minus_one minus_one a b s)
              (drives n.iodirection n.port_index) after n.port_ms n.port_ls sh1 in
          if same_bit (compare_c before after) hi
          then some sh1
          else rest >>= λ sh2. some (note_change before after p n.monitored_by sh2)
