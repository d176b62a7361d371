-- ===== src/BitVector/Compare.antt =====
-- The comparisons of src/common/bvector.h and bvector.cc.
use verilog_behavioral_simul.Base.{
  ◌-◌, Bool, false, ◌&&◌, ◌||◌, Option, none, some, List, [], ◌∷◌, get_or, ltb, if◌then◌else◌,
}
use verilog_behavioral_simul.Logic.{
  Logic, lo, hi, dc, z, above_hi, same_bit, logic_inv, logic_equ, logic_eqc, logic_eqx, logic_eqz,
  logic_les,
}
use verilog_behavioral_simul.BitVector.{BitVector, size, is_signed, is_unsigned}

-- `_bits[_end]`.
abbrev pub high_bit : BitVector → Logic
high_bit v = get_or v.bits (size v - 1) dc

-- `compare_forward`, from the least significant bit on; the shorter operand goes on as `hb`.
-- Both branches of the code on the sizes make these comparisons in this order.
unfoldable pub forward_loop :
    (Logic → Logic → Logic) → Logic → Logic → Logic → List Logic → List Logic → Logic
unfolding same_bit
forward_loop cmp dft chk hb [] [] = dft
forward_loop cmp dft chk hb [] (r ∷ rs) =
    let res = cmp hb r in if same_bit res chk then forward_loop cmp dft chk hb [] rs else res
forward_loop cmp dft chk hb (l ∷ ls) [] =
    let res = cmp l hb in if same_bit res chk then forward_loop cmp dft chk hb ls [] else res
forward_loop cmp dft chk hb (l ∷ ls) (r ∷ rs) =
    let res = cmp l r in if same_bit res chk then forward_loop cmp dft chk hb ls rs else res

unfoldable pub compare_forward :
    BitVector → BitVector → Logic → Logic → (Logic → Logic → Logic) → Logic → Logic
unfolding forward_loop
compare_forward l r dft chk cmp hb = forward_loop cmp dft chk hb l.bits r.bits

-- The bit that a shorter signed operand is extended by.
unfoldable pub extension : BitVector → BitVector → Logic
extension l r =
    if ltb (size l) (size r) && is_signed l.sign
    then high_bit l
    else if ltb (size r) (size l) && is_signed r.sign
    then high_bit r
    else lo

-- `operator==`, `operator!=`.
unfoldable pub equal : BitVector → BitVector → Logic
unfolding compare_forward extension
equal l r = compare_forward l r hi hi logic_equ (extension l r)

unfoldable pub not_equal : BitVector → BitVector → Logic
unfolding equal logic_inv
not_equal l r = logic_inv (equal l r)

-- `compare_c`, `compare_x` and `compare_z`, for case, casex and casez.
unfoldable pub compare_c : BitVector → BitVector → Logic
unfolding compare_forward extension
compare_c l r = compare_forward l r hi hi logic_eqc (extension l r)

unfoldable pub compare_x : BitVector → BitVector → Logic
unfolding compare_forward
compare_x l r = compare_forward l r hi hi logic_eqx lo

unfoldable pub compare_z : BitVector → BitVector → Logic
unfolding compare_forward
compare_z l r = compare_forward l r hi hi logic_eqz lo

-- The first answer from the most significant position down that is not `chk`; the shorter operand
-- goes on as 0. The lists stand least significant first, so the rest is asked before the head.
abbrev pub decide_here : Logic → Logic → Option Logic
decide_here chk res = if same_bit res chk then none else some res

unfoldable pub backward_scan :
    (Logic → Logic → Logic) → Logic → List Logic → List Logic → Option Logic
unfolding same_bit
backward_scan cmp chk [] [] = none
backward_scan cmp chk [] (r ∷ rs) = elim (backward_scan cmp chk [] rs) [
  | some x ↦ some x
  | none ↦ decide_here chk (cmp lo r)
]
backward_scan cmp chk (l ∷ ls) [] = elim (backward_scan cmp chk ls []) [
  | some x ↦ some x
  | none ↦ decide_here chk (cmp l lo)
]
backward_scan cmp chk (l ∷ ls) (r ∷ rs) = elim (backward_scan cmp chk ls rs) [
  | some x ↦ some x
  | none ↦ decide_here chk (cmp l r)
]

-- The scans for a bit above HI.
unfoldable pub any_above : List Logic → Bool
any_above [] = false
any_above (b ∷ bs) = above_hi b || any_above bs

abbrev pub is_negative : BitVector → Bool
is_negative v = is_signed v.sign && same_bit (high_bit v) hi

-- UNSIGNED, or SIGNED with a high bit of 0.
abbrev pub is_positive : BitVector → Bool
is_positive v = is_unsigned v.sign || is_signed v.sign && same_bit (high_bit v) lo

abbrev pub scan_answer : Logic → Option Logic → Logic
scan_answer dft (some x) = x
scan_answer dft none = dft

-- `compare_backward`: first the two cases of operands of different sign.
unfoldable pub compare_backward :
    BitVector → BitVector → Logic → Logic → (Logic → Logic → Logic) → Logic
unfolding backward_scan any_above same_bit
compare_backward l r dft chk cmp =
    let plain = scan_answer dft (backward_scan cmp chk l.bits r.bits) in
    let doubtful = any_above l.bits || any_above r.bits in
    if is_negative l
    then (if is_positive r then (if doubtful then dc else hi) else plain)
    else if is_negative r && is_positive l
    then (if doubtful then dc else lo)
    else plain

-- `operator<` and the three that are made of it.
unfoldable pub less : BitVector → BitVector → Logic
unfolding compare_backward
less l r = compare_backward l r lo z logic_les

unfoldable pub greater : BitVector → BitVector → Logic
unfolding less
greater l r = less r l

unfoldable pub less_equal : BitVector → BitVector → Logic
unfolding less logic_inv
less_equal l r = logic_inv (less r l)

unfoldable pub greater_equal : BitVector → BitVector → Logic
unfolding less logic_inv
greater_equal l r = logic_inv (less l r)
