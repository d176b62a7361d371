-- ===== src/Net/Tests.antt =====
-- Small nets with monitors, and instances of the theorems on them.
use verilog_behavioral_simul.Base.{
  [], arith, false, if◌then◌else◌, negsuc, none, refl, some, ℕ, ◌%◌, ◌+◌, ◌==◌, ◌^◌, ◌∷◌, ◌≡◌, ◌⊎◌,
}
use verilog_behavioral_simul.BitVector.{
  BitVector, base10, is_signed, of_bit, of_range, size, unsigned,
}
use verilog_behavioral_simul.BitVector.AssignLaws.{minus_part}
use verilog_behavioral_simul.BitVector.Compare.{compare_c}
use verilog_behavioral_simul.BitVector.Value.{Known, value}
use verilog_behavioral_simul.EventQueue.{chng, monitor, new_queue}
use verilog_behavioral_simul.Logic.{dc, hi, lo, logic_eqc}
use verilog_behavioral_simul.Net.{Net, Watch, World, minus_one, undef_io}
use verilog_behavioral_simul.Net.Assign.{assign_net}
use verilog_behavioral_simul.Net.Evaluate.{evaluate_net}
use verilog_behavioral_simul.Net.Monitor.{check_monitor, has_any, watch_at}
use verilog_behavioral_simul.Net.Origin.{check_monitor_only}
use verilog_behavioral_simul.Net.ReadBack.{assign_net-evaluate_net}
use verilog_behavioral_simul.Net.Wakes.{Active, KeepsEvents, Queued}
use verilog_behavioral_simul.Net.Woken.{check_monitor-Queued}
use verilog_behavioral_simul.Statement.{Shared}
use verilog_behavioral_simul.TimeWheel.{new_wheel}
use mathlib.Core.List.{Memᴰ}

-- Bits that are monitored are their values.
abbrev constant : BitVector → Shared (World BitVector) → BitVector × Shared (World BitVector)
constant v sh = (v, sh)

constant-KeepsEvents : KeepsEvents constant
constant-KeepsEvents = record {
  queue_kept = λ x sh. refl;
  containers_kept = λ x sh. refl;
  watches_kept = λ x sh. refl;
}

-- Two events of one statement, `@(n)`, and one of a `$monitor`, which does not wait.
abbrev watch_of : ℕ → Watch BitVector
watch_of e = record {
  event = record { type = if e == 2 then monitor else chng; container = if e == 2 then 1 else 0 };
  previous_bit = of_bit dc;
  monitor_bit = none;
}

abbrev two_bits : Net
two_bits = record {
  iodirection = undef_io;
  changed = false;
  storage = λ i. of_range 1 0 unsigned base10 lo;
  net_result = of_range 1 0 unsigned base10 dc;
  upper_mem_idx = negsuc 0;
  lower_mem_idx = negsuc 0;
  port_index = none;
  port_ms = negsuc 0;
  port_ls = negsuc 0;
  monitored_by = 2 ∷ 0 ∷ 1 ∷ [];
}

abbrev small_world : Shared (World BitVector)
small_world = record {
  timewheel = new_wheel;
  eventqueue = new_queue 0;
  containers = λ c. record { active = c == 0; force = false; object = c };
  nets = record {
    nets = λ n. two_bits;
    functions = λ f. of_bit dc;
    lvalues = λ l. [];
    watches = watch_of;
  };
}

abbrev zero_bits : BitVector
zero_bits = of_range 1 0 unsigned base10 lo

abbrev three_bits : BitVector
three_bits = of_range 1 0 unsigned base10 hi

check_monitor-Queued_example :
    Queued 0 (check_monitor constant zero_bits three_bits (2 ∷ 0 ∷ 1 ∷ []) small_world)
unfolding compare_c has_any of_range logic_eqc
check_monitor-Queued_example =
    check_monitor-Queued constant constant-KeepsEvents zero_bits three_bits (2 ∷ 0 ∷ 1 ∷ []) 1
      small_world (Memᴰ.tail (Memᴰ.tail (Memᴰ.head refl))) refl refl refl refl

woken : Queued 0 (check_monitor constant zero_bits three_bits (2 ∷ 0 ∷ 1 ∷ []) small_world)
unfolding compare_c has_any of_range logic_eqc
woken =
    check_monitor-Queued constant constant-KeepsEvents zero_bits three_bits (2 ∷ 0 ∷ 1 ∷ []) 0
      small_world (Memᴰ.tail (Memᴰ.head refl)) refl refl refl refl

check_monitor_only_example :
    Queued 0 small_world
    ⊎ ((e : ℕ) × Memᴰ e (2 ∷ 0 ∷ 1 ∷ [])
        × ((watch_at e small_world).event.container ≡ 0)
        × Active 0 small_world)
check_monitor_only_example =
    check_monitor_only constant constant-KeepsEvents zero_bits three_bits (2 ∷ 0 ∷ 1 ∷ [])
      small_world 0 woken

assign_net-evaluate_net_example :
    (sh' : Shared (World BitVector)) × (v : BitVector) × (w' : World BitVector) × (assign_net
        constant 1 0 three_bits minus_one minus_one minus_one minus_one small_world
      ≡ some sh')
    × (evaluate_net 1 0 minus_one minus_one minus_one minus_one false sh'.nets ≡ some (v, w'))
    × ((value v.bits + minus_part (is_signed three_bits.sign) three_bits.bits) % 2 ^ size zero_bits
        ≡ value three_bits.bits % 2 ^ size zero_bits)
    × Known v.bits
    × (size v ≡ size zero_bits)
    × ((q : ℕ) → ¬ (0 ≡ q) → sh'.nets.nets q ≡ small_world.nets.nets q)
unfolding of_range
assign_net-evaluate_net_example =
    assign_net-evaluate_net constant (λ x sh. refl) 0 0 minus_one minus_one minus_one minus_one
      three_bits small_world refl refl (refl, (refl, tt)) (omega arith) (omega arith)
