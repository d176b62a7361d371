-- ===== src/Expression/Tests.antt =====
-- Runs of setup and evaluation on small trees, and an instance of the theorem on sums.
use verilog_behavioral_simul.Base.{
  [], arith, false, if◌then◌else◌, refl, some, true, ℕ, ◌==◌, ◌∷◌, ◌≡◌,
}
use verilog_behavioral_simul.BitVector.{BitVector, base10, of_bit, of_range, size, unsigned}
use verilog_behavioral_simul.BitVector.Value.{Known, value}
use verilog_behavioral_simul.Expression.{
  Expr, Results, add_op, binary_op_expr, range_id, result_of, select_none, sub_op, typdelay,
}
use verilog_behavioral_simul.Expression.Evaluate.{evaluate}
use verilog_behavioral_simul.Expression.Setup.{Declared, a_net, other_net, setup, sized}
use verilog_behavioral_simul.Expression.SumLaws.{evaluate-setup}
use verilog_behavioral_simul.Expression.Sums.{
  Placed, Same, Sum, WholeNet, difference, meaning, minus_at, net, net_at, net_numbers, plus,
  plus_at,
}
use verilog_behavioral_simul.Logic.{dc, hi, lo}

-- The net 0 is 3 in four bits and the net 1 is 13, that is minus 3.
abbrev net_bits : ℕ → BitVector
net_bits n = record (of_range 3 0 unsigned base10 dc) {
  bits = if n == 0 then hi ∷ hi ∷ lo ∷ lo ∷ [] else hi ∷ lo ∷ hi ∷ hi ∷ [];
}

abbrev two_nets : Declared
two_nets = record {
  symbols = record {
    is_net = λ n. true;
    selection = λ n. select_none;
    net_value = λ n sel. net_bits n;
    call = λ f. of_bit dc;
    delay = typdelay;
  };
  named = λ n. a_net other_net 4;
  range_size = λ n ms ls. 1;
  function_size = λ f. 1;
  pow = λ a b. 1;
}

-- `(n0 - n1) + n0`.
abbrev small_sum : Sum
small_sum = plus (difference (net 0) (net 1)) (net 0)

abbrev small_tree : Expr
small_tree =
    binary_op_expr 4 add_op (binary_op_expr 2 sub_op (range_id 0 0) (range_id 1 1)) (range_id 3 0)

abbrev no_results : Results
no_results = λ p. of_bit dc

small_tree-Placed : Placed 0 5 small_sum small_tree
small_tree-Placed = plus_at (minus_at (net_at 0) (net_at 1)) (net_at 0)

net_bits-WholeNet :
    (n : ℕ) → Known (net_bits n).bits → size (net_bits n) ≡ 4 → WholeNet two_nets 4 n
net_bits-WholeNet n k e = record {
  declared = refl;
  is_net = refl;
  whole = refl;
  known = k;
  width = e;
}

evaluate-setup_example :
    (m1 : Results) × (m2 : Results) × (setup two_nets false 4 small_tree no_results
      ≡ sized 4 small_tree m1)
    × (evaluate two_nets.symbols small_tree m1 ≡ some m2)
    × Known (result_of small_tree m2).bits
    × (value (result_of small_tree m2).bits ≡ meaning 4 (net_numbers two_nets) small_sum)
    × (size (result_of small_tree m2) ≡ 4)
    × Same 0 5 no_results m2
evaluate-setup_example =
    evaluate-setup two_nets 4 (omega arith) 4 no_results (omega arith) small_tree-Placed (
      (
        net_bits-WholeNet 0 (refl, (refl, (refl, (refl, tt)))) refl,
        net_bits-WholeNet 1 (refl, (refl, (refl, (refl, tt)))) refl,
      ),
      net_bits-WholeNet 0 (refl, (refl, (refl, (refl, tt)))) refl,
    )
