-- ===== src/Net/Evaluate.antt =====
-- `st_net_evaluate` of src/common/st_util.cc. An input port is evaluated by the net that it is
-- connected to; the depth of ports is bounded by fuel.
use verilog_behavioral_simul.Base.{
  Bool, Option, if◌then◌else◌, none, some, suc, true, zero, ℕ, ℤ, ◌>>=◌,
}
use verilog_behavioral_simul.BitVector.{BitVector, of_bit}
use verilog_behavioral_simul.BitVector.Assign.{assign}
use verilog_behavioral_simul.BitVector.Select.{assign_selected, select}
use verilog_behavioral_simul.Logic.{dc}
use verilog_behavioral_simul.Net.{
  IoDirection, Net, World, at_index, in_io, inout_io, is_mem, is_minus_one, outside_memory, put_net,
}
use verilog_behavioral_simul.Statement.{update}

-- `(_iodirection == IN || _iodirection == INOUT) && _port_index != 0`.
abbrev pub reads : IoDirection → Option ℕ → Option ℕ
reads in_io p = p
reads inout_io p = p
reads _ p = none

-- The storage at a position, or the part of it that is selected, over the result. For a reference
-- by a port, the position of the port is put in place of the one that is asked for, unless the
-- net is a memory.
unfoldable pub own_value : Net → ℤ → ℤ → ℤ → ℤ → Bool → Option (BitVector × Net)
unfolding assign of_bit select assign_selected
own_value n p_m p_l m' l' port_reference =
    let m = if port_reference then p_m else m' in
    let l = if port_reference then p_l else l' in
    if is_mem n
    then if outside_memory n m'
      then (let v = assign n.net_result (of_bit dc) in some (v, record n { net_result = v }))
      else some (n.storage (at_index m'), n)
    else if is_minus_one m
    then some (n.storage 0, n)
    else select (n.storage 0) m l >>= λ sp.
        assign_selected n.net_result (n.storage 0) sp >>= λ v. some (v, record n { net_result = v })

module _ {X : Type 0} where
  -- `_result` of a net is written.
  unfoldable pub keep_result : ℕ → BitVector → World X → BitVector × World X
  unfolding update assign
  keep_result p v w =
      let r = assign (w.nets p).net_result v in
      (r, put_net p (record (w.nets p) { net_result = r }) w)

  abbrev pub by_port :
      (ℕ → Option (BitVector × World X))
      → ℕ
      → ℤ
      → ℤ
      → ℤ
      → ℤ
      → Bool
      → Option ℕ
      → World X
      → Option (BitVector × World X)
  by_port go_on p p_m p_l m l port_reference none w =
      own_value (w.nets p) p_m p_l m l port_reference >>= λ r. some (r.0, put_net p r.1 w)
  by_port go_on p p_m p_l m l port_reference (some q) w =
      go_on q >>= λ r. some (keep_result p r.0 r.1)

  unfoldable pub evaluate_net :
      ℕ → ℕ → ℤ → ℤ → ℤ → ℤ → Bool → World X → Option (BitVector × World X)
  unfolding own_value keep_result update
  evaluate_net zero p p_m p_l m l port_reference w = none
  evaluate_net (suc fuel) p p_m p_l m l port_reference w =
      by_port (λ q. evaluate_net fuel q p_m p_l m l true w) p p_m p_l m l port_reference
        (reads (w.nets p).iodirection (w.nets p).port_index) w
