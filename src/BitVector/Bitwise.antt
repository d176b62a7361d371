-- ===== src/BitVector/Bitwise.antt =====
-- The bitwise operators, the reductions and the truth tests of src/common/bvector.h and
-- bvector.cc.
use verilog_behavioral_simul.Base.{Bool, true, false, List, [], ◌∷◌, if◌then◌else◌}
use verilog_behavioral_simul.Logic.{
  Logic, lo, hi, dc, above_hi, logic_inv, logic_and, logic_nand, logic_or, logic_nor, logic_xor,
  logic_xnor, logic_ternary, reduce_and_bit, reduce_or_bit, reduce_xor_bit,
}
use verilog_behavioral_simul.BitVector.{BitVector}

-- `logic_op`: the shorter operand goes on as 0, and the loop stops at the end of the result.
unfoldable pub op_loop : (Logic → Logic → Logic) → List Logic → List Logic → List Logic → List Logic
op_loop op [] ls rs = []
op_loop op (d ∷ ds) [] [] = op lo lo ∷ op_loop op ds [] []
op_loop op (d ∷ ds) [] (r ∷ rs) = op lo r ∷ op_loop op ds [] rs
op_loop op (d ∷ ds) (l ∷ ls) [] = op l lo ∷ op_loop op ds ls []
op_loop op (d ∷ ds) (l ∷ ls) (r ∷ rs) = op l r ∷ op_loop op ds ls rs

unfoldable pub logic_op : BitVector → BitVector → BitVector → (Logic → Logic → Logic) → BitVector
unfolding op_loop
logic_op bv l r op = record bv { bits = op_loop op bv.bits l.bits r.bits }

unfoldable pub vec_and : BitVector → BitVector → BitVector → BitVector
unfolding logic_op
vec_and bv l r = logic_op bv l r logic_and

unfoldable pub vec_nand : BitVector → BitVector → BitVector → BitVector
unfolding logic_op
vec_nand bv l r = logic_op bv l r logic_nand

unfoldable pub vec_or : BitVector → BitVector → BitVector → BitVector
unfolding logic_op
vec_or bv l r = logic_op bv l r logic_or

unfoldable pub vec_nor : BitVector → BitVector → BitVector → BitVector
unfolding logic_op
vec_nor bv l r = logic_op bv l r logic_nor

unfoldable pub vec_xor : BitVector → BitVector → BitVector → BitVector
unfolding logic_op
vec_xor bv l r = logic_op bv l r logic_xor

unfoldable pub vec_xnor : BitVector → BitVector → BitVector → BitVector
unfolding logic_op
vec_xnor bv l r = logic_op bv l r logic_xnor

unfoldable pub ternary_cmp : BitVector → BitVector → BitVector → BitVector
unfolding logic_op
ternary_cmp bv l r = logic_op bv l r logic_ternary

unfoldable pub fold_bits : (Logic → Logic → Logic) → Logic → List Logic → Logic
fold_bits f acc [] = acc
fold_bits f acc (b ∷ bs) = fold_bits f (f acc b) bs

-- The shape of the three reductions; one bit alone is taken as it is, or `dc`.
unfoldable pub reduce : (Logic → Logic → Logic) → List Logic → Logic
unfolding fold_bits
reduce f [] = dc
reduce f (b ∷ []) = if above_hi b then dc else b
reduce f (b ∷ c ∷ bs) = fold_bits f (f b c) bs

unfoldable pub reduce_and : BitVector → Logic
unfolding reduce
reduce_and bv = reduce reduce_and_bit bv.bits

unfoldable pub reduce_or : BitVector → Logic
unfolding reduce
reduce_or bv = reduce reduce_or_bit bv.bits

unfoldable pub reduce_xor : BitVector → Logic
unfolding reduce
reduce_xor bv = reduce reduce_xor_bit bv.bits

unfoldable pub reduce_nand : BitVector → Logic
unfolding reduce_and logic_inv
reduce_nand bv = logic_inv (reduce_and bv)

unfoldable pub reduce_nor : BitVector → Logic
unfolding reduce_or logic_inv
reduce_nor bv = logic_inv (reduce_or bv)

unfoldable pub reduce_xnor : BitVector → Logic
unfolding reduce_xor logic_inv
reduce_xnor bv = logic_inv (reduce_xor bv)

-- `operator!`, with the value so far.
unfoldable pub not_loop : Logic → List Logic → Logic
not_loop acc [] = acc
not_loop acc (lo ∷ bs) = not_loop acc bs
not_loop acc (hi ∷ bs) = not_loop lo bs
not_loop acc (_ ∷ bs) = dc

unfoldable pub logical_not : BitVector → Logic
unfolding not_loop
logical_not bv = not_loop hi bv.bits

-- `operator bool`: an unknown bit makes it false.
unfoldable pub truth_loop : Bool → List Logic → Bool
truth_loop found [] = found
truth_loop found (lo ∷ bs) = truth_loop found bs
truth_loop found (hi ∷ bs) = truth_loop true bs
truth_loop found (_ ∷ bs) = false

unfoldable pub truth : BitVector → Bool
unfolding truth_loop
truth bv = truth_loop false bv.bits
