-- ===== src/BitVector/Multiply.antt =====
-- `binary_mul` of src/common/bvector.cc: words where they are enough, and shifts and additions if
-- not.
use verilog_behavioral_simul.Base.{
  ◌||◌, ℕ, ◌-◌, ◌*◌, ◌%◌, ◌^◌, ◌==◌, ◌&&◌, not, Bool, false, Option, none, some, List, [], ◌∷◌, leb,
  if◌then◌else◌, replicate,
}
use verilog_behavioral_simul.Logic.{Logic, lo, hi, dc, nvl, same_bit}
use verilog_behavioral_simul.BitVector.{
  BitVector, SignedType, unset, unsigned, signed, BaseType, base10, size, start_pos, take_sign,
  of_bit,
}
use verilog_behavioral_simul.BitVector.Arith.{binary_add, add_to, unary_inv, joint_sign}
use verilog_behavioral_simul.BitVector.Assign.{assign}
use verilog_behavioral_simul.BitVector.Compare.{is_negative}
use verilog_behavioral_simul.BitVector.Decimal.{word, to_decimal, of_decimal}
use verilog_behavioral_simul.BitVector.Shift.{shift_left_by}

-- `bit_vector(v._end, v._begin, s, b, val)`.
abbrev pub like : BitVector → SignedType → BaseType → Logic → BitVector
like v s b val = record {
  msb_lower = false;
  tristate = false;
  sign = s;
  base = b;
  low = replicate (start_pos v) nvl;
  bits = replicate (size v) val;
}

-- `-x` and `~x + 1` of a word.
abbrev pub negate_word : ℕ → ℕ
negate_word x = (word - x) % word

abbrev pub magnitude : Bool → ℕ → ℕ
magnitude neg d = if neg then negate_word d else d

-- The two's complement of `v`, by way of `tmp` of its range and of sign `s`, into `res`.
unfoldable pub complement_into : BitVector → SignedType → BitVector → BitVector → Option BitVector
unfolding unary_inv binary_add of_bit
complement_into res s range v = binary_add res (unary_inv (like range s base10 dc) v) (of_bit hi)

-- The loop over the bits of the multiplier: the product and the multiplicand.
unfoldable pub mul_loop : List Logic → BitVector → BitVector → BitVector
unfolding add_to shift_left_by same_bit
mul_loop [] p mcand = p
mul_loop (b ∷ bs) p mcand =
    mul_loop bs (if same_bit b hi then add_to p mcand else p) (shift_left_by mcand 1)

abbrev pub differ : Bool → Bool → Bool
differ a b = if a then not b else b

-- The multiplicand, in the range of the product. The multiplier starts as an empty vector, which
-- an assignment makes a copy of its source, while `binary_add` leaves it empty.
unfoldable pub multiplicand : BitVector → BitVector → Option BitVector
unfolding complement_into assign
multiplicand p l =
    let blank = like p unsigned base10 dc in
    if is_negative l then complement_into blank unsigned l l else some (assign blank l)

unfoldable pub multiplier : BitVector → Option BitVector
unfolding complement_into assign of_bit
multiplier r =
    if is_negative r
    then complement_into (of_bit nvl) unsigned r r
    else some (assign (of_bit nvl) r)

unfoldable pub shift_and_add : BitVector → BitVector → BitVector → Option BitVector
unfolding multiplicand multiplier mul_loop assign of_bit complement_into
shift_and_add p l r = elim (multiplicand p l) [
  | none ↦ none
  | some c ↦ elim (multiplier r) [
    | none ↦ none
    | some m ↦
        let p1 = mul_loop m.bits (assign p (of_bit lo)) c in
        if differ (is_negative l) (is_negative r) then complement_into p1 signed p1 p1 else some p1
  ]
]

abbrev pub not_a_number : BitVector → BitVector
not_a_number p = like p unset base10 dc

unfoldable pub binary_mul : BitVector → BitVector → BitVector → Option BitVector
unfolding to_decimal of_decimal assign shift_and_add
binary_mul p l r =
    let ld = to_decimal l 0 in
    let rd = to_decimal r 0 in
    let lud = magnitude (is_negative l) ld.number in
    let rud = magnitude (is_negative r) rd.number in
    let product = lud * rud % word in
    if size l == 0 || size r == 0
    then none
    else if ld.fail && ld.number == 0
    then some (assign p (not_a_number p))
    else if rd.fail && rd.number == 0
    then some (assign p (not_a_number p))
    else if (not ld.fail && leb lud (2 ^ 32 - 1)) && (not rd.fail && leb rud (2 ^ 32 - 1))
    then some (
        assign p (
          of_decimal
            (if differ (is_negative l) (is_negative r) then negate_word product else product)))
    else elim (shift_and_add p l r) [
      | none ↦ none
      | some out ↦ some (record out { sign = take_sign out.sign (joint_sign l r) })
    ]
