-- ===== src/BitVector/BitwiseLaws.antt =====
-- What the bitwise operators and reductions of src/common/bvector.cc answer.
use verilog_behavioral_simul.Base.{
  ℕ, zero, suc, ◌+◌, ◌≤◌, ◌<◌, ◌==◌, ◌≡◌, refl, arith, ap, Bool, true, false, List, [], ◌∷◌, length,
  get_or, if◌then◌else◌,
}
use verilog_behavioral_simul.Logic.{
  Logic, lo, hi, dc, z, nvl, above_hi, of_parity, reduce_and_bit, reduce_or_bit, reduce_xor_bit,
}
use verilog_behavioral_simul.BitVector.{BitVector, size}
use verilog_behavioral_simul.BitVector.Value.{bit_value, value, Known}
use verilog_behavioral_simul.BitVector.Bitwise.{
  op_loop, logic_op, fold_bits, reduce, reduce_and, reduce_or, reduce_xor, not_loop, logical_not,
  truth_loop, truth,
}

op_loop-get_or :
    (op : Logic → Logic → Logic) (ds ls rs : List Logic) (i : ℕ) (d : Logic)
    → i < length ds
    → get_or (op_loop op ds ls rs) i d ≡ op (get_or ls i lo) (get_or rs i lo)
unfolding op_loop
op_loop-get_or op [] ls rs i d h = absurd (omega arith)
op_loop-get_or op (x ∷ ds) [] [] zero d h = refl
op_loop-get_or op (x ∷ ds) [] (r ∷ rs) zero d h = refl
op_loop-get_or op (x ∷ ds) (l ∷ ls) [] zero d h = refl
op_loop-get_or op (x ∷ ds) (l ∷ ls) (r ∷ rs) zero d h = refl
op_loop-get_or op (x ∷ ds) [] [] (suc i) d h = op_loop-get_or op ds [] [] i d (omega arith)
op_loop-get_or op (x ∷ ds) [] (r ∷ rs) (suc i) d h = op_loop-get_or op ds [] rs i d (omega arith)
op_loop-get_or op (x ∷ ds) (l ∷ ls) [] (suc i) d h = op_loop-get_or op ds ls [] i d (omega arith)
op_loop-get_or op (x ∷ ds) (l ∷ ls) (r ∷ rs) (suc i) d h =
    op_loop-get_or op ds ls rs i d (omega arith)

length-op_loop :
    (op : Logic → Logic → Logic) (ds ls rs : List Logic) → length (op_loop op ds ls rs) ≡ length ds
unfolding op_loop
length-op_loop op [] ls rs = refl
length-op_loop op (x ∷ ds) [] [] = ap suc (length-op_loop op ds [] [])
length-op_loop op (x ∷ ds) [] (r ∷ rs) = ap suc (length-op_loop op ds [] rs)
length-op_loop op (x ∷ ds) (l ∷ ls) [] = ap suc (length-op_loop op ds ls [])
length-op_loop op (x ∷ ds) (l ∷ ls) (r ∷ rs) = ap suc (length-op_loop op ds ls rs)

-- A bitwise operator fills the whole result, whatever it held: each bit is the table's answer on
-- the bits of the operands at that place, with 0 where an operand has ended.
pub logic_op-get_or :
    (op : Logic → Logic → Logic) (bv l r : BitVector) (i : ℕ) (d : Logic)
    → i < size bv
    → (get_or (logic_op bv l r op).bits i d ≡ op (get_or l.bits i lo) (get_or r.bits i lo))
      × (size (logic_op bv l r op) ≡ size bv)
unfolding logic_op
logic_op-get_or op bv l r i d h =
    (op_loop-get_or op bv.bits l.bits r.bits i d h, length-op_loop op bv.bits l.bits r.bits)

-- How many bits are 1.
abbrev pub ones : List Logic → ℕ
ones [] = 0
ones (b ∷ bs) = bit_value b + ones bs

ones-le-length : (bs : List Logic) → ones bs ≤ length bs
ones-le-length [] = omega arith
ones-le-length (b ∷ bs) = ground (arith, ones-le-length bs)

-- The tables of the reductions keep known bits known.
reduce_bits-known :
    (a b : Logic)
    → above_hi a ≡ false
    → above_hi b ≡ false
    → (above_hi (reduce_and_bit a b) ≡ false)
      × (above_hi (reduce_or_bit a b) ≡ false)
      × (above_hi (reduce_xor_bit a b) ≡ false)
unfolding reduce_and_bit reduce_or_bit reduce_xor_bit
reduce_bits-known a b h k = (ground arith, ground arith, ground arith)

fold_and-Known :
    (acc : Logic) (bs : List Logic)
    → above_hi acc ≡ false
    → Known bs
    → fold_bits reduce_and_bit acc bs
      ≡ (if bit_value acc + ones bs == suc (length bs) then hi else lo)
unfolding fold_bits reduce_and_bit
fold_and-Known acc [] ka k = ground arith
fold_and-Known acc (b ∷ bs) ka k = ground (
  arith,
  fold_and-Known (reduce_and_bit acc b) bs (reduce_bits-known acc b ka k.0).0 k.1,
  ones-le-length bs,
)

fold_or-Known :
    (acc : Logic) (bs : List Logic)
    → above_hi acc ≡ false
    → Known bs
    → fold_bits reduce_or_bit acc bs ≡ (if bit_value acc + ones bs == 0 then lo else hi)
unfolding fold_bits reduce_or_bit
fold_or-Known acc [] ka k = ground arith
fold_or-Known acc (b ∷ bs) ka k =
    ground (arith, fold_or-Known (reduce_or_bit acc b) bs (reduce_bits-known acc b ka k.0).1 k.1)

fold_xor-Known :
    (acc : Logic) (bs : List Logic)
    → above_hi acc ≡ false
    → Known bs
    → fold_bits reduce_xor_bit acc bs ≡ of_parity (bit_value acc + ones bs)
unfolding fold_bits reduce_xor_bit of_parity
fold_xor-Known acc [] ka k = ground arith
fold_xor-Known acc (b ∷ bs) ka k =
    ground (arith, fold_xor-Known (reduce_xor_bit acc b) bs (reduce_bits-known acc b ka k.0).2 k.1)

reduced :
    (bs : List Logic)
    → Known bs
    → 0 < length bs
    → (reduce reduce_and_bit bs ≡ (if ones bs == length bs then hi else lo))
      × (reduce reduce_or_bit bs ≡ (if ones bs == 0 then lo else hi))
      × (reduce reduce_xor_bit bs ≡ of_parity (ones bs))
unfolding reduce of_parity
reduced [] k h = absurd (omega arith)
reduced (b ∷ []) k h = (ground arith, ground arith, ground arith)
reduced (b ∷ c ∷ bs) k h = (
  fold_and-Known b (c ∷ bs) k.0 k.1,
  fold_or-Known b (c ∷ bs) k.0 k.1,
  fold_xor-Known b (c ∷ bs) k.0 k.1,
)

-- On known bits, of which there is at least one, `&` asks whether all are 1, `|` whether one is,
-- and `^` whether an odd number is.
pub reductions-Known :
    (bv : BitVector)
    → Known bv.bits
    → 0 < size bv
    → (reduce_and bv ≡ (if ones bv.bits == size bv then hi else lo))
      × (reduce_or bv ≡ (if ones bv.bits == 0 then lo else hi))
      × (reduce_xor bv ≡ of_parity (ones bv.bits))
unfolding reduce_and reduce_or reduce_xor
reductions-Known bv k h = reduced bv.bits k h

not_loop-Known :
    (acc : Logic) (bs : List Logic)
    → Known bs
    → not_loop acc bs ≡ (if value bs == 0 then acc else lo)
unfolding not_loop
not_loop-Known acc [] k = refl
not_loop-Known acc (lo ∷ bs) k = ground (arith, not_loop-Known acc bs k.1)
not_loop-Known acc (hi ∷ bs) k = ground (arith, not_loop-Known lo bs k.1)
not_loop-Known acc (dc ∷ bs) k = cc
not_loop-Known acc (z ∷ bs) k = cc
not_loop-Known acc (nvl ∷ bs) k = cc

truth_loop-Known :
    (found : Bool) (bs : List Logic)
    → Known bs
    → truth_loop found bs ≡ (if value bs == 0 then found else true)
unfolding truth_loop
truth_loop-Known found [] k = refl
truth_loop-Known found (lo ∷ bs) k = ground (arith, truth_loop-Known found bs k.1)
truth_loop-Known found (hi ∷ bs) k = ground (arith, truth_loop-Known true bs k.1)
truth_loop-Known found (dc ∷ bs) k = cc
truth_loop-Known found (z ∷ bs) k = cc
truth_loop-Known found (nvl ∷ bs) k = cc

-- On known bits `!` answers 1 exactly for the number 0, and the conversion to `bool` is true
-- exactly for the others.
pub truth-Known :
    (bv : BitVector)
    → Known bv.bits
    → (logical_not bv ≡ (if value bv.bits == 0 then hi else lo))
      × (truth bv ≡ (if value bv.bits == 0 then false else true))
unfolding logical_not truth
truth-Known bv k = (not_loop-Known hi bv.bits k, truth_loop-Known false bv.bits k)
