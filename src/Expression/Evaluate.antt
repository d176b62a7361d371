-- ===== src/Expression/Evaluate.antt =====
-- `evaluate_expr` of src/expr/eeval.cc: the tree with the results of its nodes written, or `none`
-- where an operation writes out of bounds.
use verilog_behavioral_simul.Base.{
  Bool, Option, false, if◌then◌else◌, none, pos, some, suc, true, zero, ℕ, ◌*◌, ◌+◌, ◌/◌, ◌>>=◌,
}
use verilog_behavioral_simul.BitVector.{BitVector, of_bit, set_tristate, size}
use verilog_behavioral_simul.BitVector.Assign.{assign}
use verilog_behavioral_simul.BitVector.Bitwise.{ternary_cmp}
use verilog_behavioral_simul.BitVector.Compare.{greater}
use verilog_behavioral_simul.BitVector.Select.{select, write_selected}
use verilog_behavioral_simul.Expression.{
  BinaryOp, Elements, Expr, Optional, Results, Symbols, UnaryOp, absent, binary_op_expr,
  concatenation, cons, function_call, maxdelay, mindelay, mintypmax_expr, nil, number, power,
  present, put_result, qouted_str, range_id, result_of, select_none, select_range, select_unknown,
  ternary_op_expr, typdelay, unary_op_expr,
}
use verilog_behavioral_simul.Expression.Operators.{apply_binary, apply_unary}
use verilog_behavioral_simul.Logic.{Logic, dc, hi, lo}

-- `(*p->_result)(ms, ls) = value`.
abbrev pub written : Option (BitVector × ℕ) → Option BitVector
written none = none
written (some (v, zero)) = some v
written (some (v, suc n)) = none

unfoldable pub merge : BitVector → ℕ → ℕ → BitVector → Option BitVector
unfolding select write_selected
merge res ms ls v =
    select res (pos ms) (pos ls) >>= λ sp. written (write_selected res sp v.bits v.sign)

-- A name of a net, of which a range may be selected, or of a function.
unfoldable pub evaluate_name : Symbols → BitVector → ℕ → BitVector
unfolding assign of_bit
evaluate_name s res n =
    if s.is_net n
    then elim (s.selection n) [
      | select_none ↦ assign res (s.net_value n select_none)
      | select_unknown ↦ assign res (of_bit dc)
      | select_range ms ls ↦ assign res (s.net_value n (select_range ms ls))
    ]
    else assign res (of_bit dc)

-- The operator of a node over the results of its operands.
unfoldable pub unary_into : ℕ → UnaryOp → Expr → Results → Option Results
unfolding apply_unary put_result
unary_into p op e m = apply_unary op (m p) (result_of e m) >>= λ v. some (put_result p v m)

unfoldable pub binary_into : ℕ → BinaryOp → Expr → Expr → Results → Option Results
unfolding apply_binary put_result
binary_into p op l r m =
    apply_binary op (m p) (result_of l m) (result_of r m) >>= λ v. some (put_result p v m)

abbrev pub is_power : BinaryOp → Bool
is_power power = true
is_power _ = false

-- The copies of a concatenation, from the highest down, where a pass writes one copy.
unfoldable pub copies : (ℕ → Results → Option Results) → ℕ → ℕ → Results → Option Results
copies pass repeat_size zero m = some m
copies pass repeat_size (suc n) m = pass (n * repeat_size) m >>= copies pass repeat_size n

-- The result of a ternary operator, from the branch or the branches that were evaluated.
unfoldable pub ternary_result : Logic → BitVector → BitVector → BitVector → BitVector
unfolding assign set_tristate ternary_cmp
ternary_result lo res t f = set_tristate (assign res f)
ternary_result hi res t f = set_tristate (assign res t)
ternary_result _ res t f = set_tristate (ternary_cmp res t f)

-- The test of a ternary operator: its condition against zero.
unfoldable pub non_zero : Expr → Results → Logic
unfolding greater of_bit
non_zero c m = greater (result_of c m) (of_bit lo)

unfoldable mutual
  unfolding unary_into binary_into merge evaluate_name assign put_result copies ternary_result
      non_zero of_bit

  pub evaluate : Symbols → Expr → Results → Option Results
  evaluate s (number p v) m = some (put_result p (assign (m p) v) m)
  evaluate s (qouted_str p v) m = some (put_result p (assign (m p) v) m)
  evaluate s (range_id p n) m = some (put_result p (evaluate_name s (m p) n) m)
  evaluate s (function_call p f) m = some (put_result p (assign (m p) (s.call f)) m)
  evaluate s (concatenation p zero es) m = some (put_result p (assign (m p) (of_bit lo)) m)
  evaluate s (concatenation p (suc n) es) m =
      copies (evaluate_elements s p es) (size (m p) / suc n) (suc n) m
  evaluate s (unary_op_expr p op e) m = evaluate s e m >>= unary_into p op e
  evaluate s (binary_op_expr p op l r) m = elim (is_power op) [
    | true ↦ some m
    | false ↦ evaluate s l m >>= λ m1. evaluate s r m1 >>= binary_into p op l r
  ]
  evaluate s (ternary_op_expr p c t f) m = evaluate s c m >>= λ m1. elim (non_zero c m1) [
    | lo ↦ evaluate s f m1 >>= λ m2.
        some (put_result p (ternary_result lo (m2 p) (result_of t m2) (result_of f m2)) m2)
    | hi ↦ evaluate s t m1 >>= λ m2.
        some (put_result p (ternary_result hi (m2 p) (result_of t m2) (result_of f m2)) m2)
    | other ↦ evaluate s t m1 >>= λ m2. evaluate s f m2 >>= λ m3.
        some (put_result p (ternary_result other (m3 p) (result_of t m3) (result_of f m3)) m3)
  ]
  evaluate s (mintypmax_expr p a b c) m = elim s.delay [
    | mindelay ↦ evaluate_into s p a m
    | typdelay ↦ evaluate_into s p b m
    | maxdelay ↦ evaluate_into s p c m
  ]

  -- An alternative of a delay, which may be missing.
  pub evaluate_into : Symbols → ℕ → Optional → Results → Option Results
  evaluate_into s p absent m = some m
  evaluate_into s p (present e) m =
      evaluate s e m >>= λ m1. some (put_result p (assign (m1 p) (result_of e m1)) m1)

  -- One copy of the elements of a concatenation, `tmp` places up.
  pub evaluate_elements : Symbols → ℕ → Elements → ℕ → Results → Option Results
  evaluate_elements s p nil tmp m = some m
  evaluate_elements s p (cons ms ls e es) tmp m = evaluate s e m >>= λ m1.
      merge (m1 p) (ms + tmp) (ls + tmp) (result_of e m1) >>= λ v.
      evaluate_elements s p es tmp (put_result p v m1)
