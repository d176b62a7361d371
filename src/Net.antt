-- ===== src/Net.antt =====
-- Nets and their monitors: src/common/st_net.h, and the assignment and the evaluation of nets in
-- src/common/st_util.cc. A net, or an event that monitors nets, is a number, and the world gives
-- what lies there.
pub mod Monitor
pub mod Store
pub mod Assign
pub mod Evaluate
pub mod Lvalue
pub mod Wakes
pub mod Woken
pub mod Origin
pub mod ReadBack
pub mod Tests
use verilog_behavioral_simul.Base.{
  Bool, List, Option, geq, if◌then◌else◌, negsuc, not, pos, same_int, ℕ, ℤ, ◌||◌,
}
use verilog_behavioral_simul.BitVector.{BitVector}
use verilog_behavioral_simul.EventQueue.{Event}
use verilog_behavioral_simul.Statement.{update}

-- `iodirection_type`.
pub data IoDirection : Type 0 where
  undef_io in_io out_io inout_io : IoDirection

-- `st_net`: `_storage` is an array, which has one element if the net is no memory, and the upper
-- index of a memory is not -1. A null `_monitor` is an empty list.
pub record Net : Type 0 where
  pub iodirection : IoDirection
  pub changed : Bool
  pub storage : ℕ → BitVector
  pub net_result : BitVector
  pub upper_mem_idx : ℤ
  pub lower_mem_idx : ℤ
  pub port_index : Option ℕ
  pub port_ms : ℤ
  pub port_ls : ℤ
  pub monitored_by : List ℕ

-- The part of `event_base` that nets read: `_bit` is an expression of which one bit is monitored.
pub record Watch (X : Type 0) : Type 0 where
  pub event : Event
  pub previous_bit : BitVector
  pub monitor_bit : Option X

-- `SELECT_SIZE`.
pub data SelectSize : Type 0 where
  no_select one_bit part : SelectSize

-- An element of an lvalue: its name, the part of the number that it takes, and its target, which is
-- kept for a later store.
pub record Target : Type 0 where
  pub ident : ℕ
  pub ms : ℤ
  pub ls : ℤ
  pub targ_ms : ℤ
  pub targ_ls : ℤ
  pub targ_size : SelectSize

-- What a name stands for.
pub data NameKind : Type 0 where
  net_name : ℕ → NameKind
  function_name : ℕ → NameKind

pub record World (X : Type 0) : Type 0 where
  pub nets : ℕ → Net
  pub functions : ℕ → BitVector
  pub lvalues : ℕ → List Target
  pub watches : ℕ → Watch X

abbrev pub minus_one : ℤ
minus_one = negsuc 0

abbrev pub is_minus_one : ℤ → Bool
is_minus_one m = same_int m minus_one

-- `_upper_mem_idx != -1`.
abbrev pub is_mem : Net → Bool
is_mem n = not (is_minus_one n.upper_mem_idx)

-- `m > _upper_mem_idx || m < _lower_mem_idx`.
abbrev pub outside_memory : Net → ℤ → Bool
outside_memory n m = not (geq n.upper_mem_idx m) || not (geq m n.lower_mem_idx)

abbrev pub at_index : ℤ → ℕ
at_index (pos m) = m
at_index (negsuc m) = 0

-- The element that a position stands for.
abbrev pub element : Net → ℤ → ℕ
element n m = if is_mem n then at_index m else 0

module _ {X : Type 0} where
  abbrev pub put_net : ℕ → Net → World X → World X
  put_net p n w = record w { nets = update w.nets p n }

  abbrev pub put_watch : ℕ → Watch X → World X → World X
  put_watch e t w = record w { watches = update w.watches e t }
