-- ===== src/Expression/Operators.antt =====
-- The operators of src/expr/eeval.cc: the result of an operand, or of two, written over the
-- result that was there.
use verilog_behavioral_simul.Base.{Bool, Option, if◌then◌else◌, some, ◌&&◌, ◌||◌}
use verilog_behavioral_simul.BitVector.{BitVector, of_bit}
use verilog_behavioral_simul.BitVector.Arith.{binary_add, binary_sub, unary_inv, unary_neg}
use verilog_behavioral_simul.BitVector.Assign.{assign}
use verilog_behavioral_simul.BitVector.Bitwise.{
  logical_not, reduce_and, reduce_nand, reduce_nor, reduce_or, reduce_xnor, reduce_xor, truth,
  vec_and, vec_nand, vec_nor, vec_or, vec_xnor, vec_xor,
}
use verilog_behavioral_simul.BitVector.Compare.{
  compare_c, equal, greater, greater_equal, less, less_equal, not_equal,
}
use verilog_behavioral_simul.BitVector.Decimal.{of_decimal}
use verilog_behavioral_simul.BitVector.Divide.{binary_div, binary_mod}
use verilog_behavioral_simul.BitVector.Multiply.{binary_mul}
use verilog_behavioral_simul.BitVector.Shift.{binary_lshf, binary_rshf}
use verilog_behavioral_simul.Expression.{
  BinaryOp, UnaryOp, add_op, and_and, and_expr, divide, equal_equal, equal_equal_equal, grt_equal,
  grt_than, invert_expr, left_shift, less_equal_op, less_than, logic_and_op, logic_nand_op,
  logic_nor_op, logic_nxor_op, logic_or_op, logic_xnor_op, logic_xor_op, minus_expr, modulo,
  multiply, nand_expr, nor_expr, not_equal_equal, not_equal_op, not_expr, nxor_expr, or_expr, or_or,
  plus_expr, power, right_shift, sub_op, xnor_expr, xor_expr,
}
use verilog_behavioral_simul.Logic.{Logic, logic_inv}

-- `*p->_result = b`, for a bit and for a `bool`.
abbrev pub put_bit : BitVector → Logic → Option BitVector
put_bit res b = some (assign res (of_bit b))

abbrev pub put_bool : BitVector → Bool → Option BitVector
put_bool res b = some (assign res (of_decimal (if b then 1 else 0)))

unfoldable pub apply_unary : UnaryOp → BitVector → BitVector → Option BitVector
unfolding assign of_bit unary_neg unary_inv logical_not reduce_and reduce_or reduce_xor
apply_unary plus_expr res v = some (assign res v)
apply_unary minus_expr res v = some (unary_neg res v)
apply_unary not_expr res v = put_bit res (logical_not v)
apply_unary invert_expr res v = some (unary_inv res v)
apply_unary and_expr res v = put_bit res (reduce_and v)
apply_unary nand_expr res v = put_bit res (reduce_nand v)
apply_unary or_expr res v = put_bit res (reduce_or v)
apply_unary nor_expr res v = put_bit res (reduce_nor v)
apply_unary xor_expr res v = put_bit res (reduce_xor v)
apply_unary xnor_expr res v = put_bit res (reduce_xnor v)
apply_unary nxor_expr res v = put_bit res (reduce_xnor v)

-- The result of a power was calculated by setup.
unfoldable pub apply_binary : BinaryOp → BitVector → BitVector → BitVector → Option BitVector
unfolding assign of_bit of_decimal
apply_binary add_op res l r = binary_add res l r
apply_binary sub_op res l r = binary_sub res l r
apply_binary multiply res l r = binary_mul res l r
apply_binary divide res l r = binary_div res l r
apply_binary modulo res l r = binary_mod res l r
apply_binary power res l r = some res
apply_binary equal_equal res l r = put_bit res (equal l r)
apply_binary not_equal_op res l r = put_bit res (not_equal l r)
apply_binary equal_equal_equal res l r = put_bit res (compare_c l r)
apply_binary not_equal_equal res l r = put_bit res (logic_inv (compare_c l r))
apply_binary and_and res l r = put_bool res (truth l && truth r)
apply_binary or_or res l r = put_bool res (truth l || truth r)
apply_binary less_than res l r = put_bit res (less l r)
apply_binary less_equal_op res l r = put_bit res (less_equal l r)
apply_binary grt_than res l r = put_bit res (greater l r)
apply_binary grt_equal res l r = put_bit res (greater_equal l r)
apply_binary logic_and_op res l r = some (vec_and res l r)
apply_binary logic_nand_op res l r = some (vec_nand res l r)
apply_binary logic_or_op res l r = some (vec_or res l r)
apply_binary logic_nor_op res l r = some (vec_nor res l r)
apply_binary logic_xor_op res l r = some (vec_xor res l r)
apply_binary logic_xnor_op res l r = some (vec_xnor res l r)
apply_binary logic_nxor_op res l r = some (vec_xnor res l r)
apply_binary left_shift res l r = binary_lshf res l r
apply_binary right_shift res l r = binary_rshf res l r
