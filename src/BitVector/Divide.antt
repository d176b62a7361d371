-- ===== src/BitVector/Divide.antt =====
-- `binary_div_rem`, `binary_div` and `binary_mod` of src/common/bvector.cc: words where they are
-- enough, and shifts and subtractions if not.
use verilog_behavioral_simul.Base.{
  ◌||◌, Bool, Option, drop, get_or, if◌then◌else◌, length, ltb, none, not, set, some, suc, take,
  zero, ℕ, ◌%◌, ◌&&◌, ◌+◌, ◌/◌, ◌==◌,
}
use verilog_behavioral_simul.BitVector.{
  BitVector, base10, cells, of_bit, signed, size, start_pos, take_sign, unset, unsigned,
}
use verilog_behavioral_simul.BitVector.Arith.{joint_sign, sub_from}
use verilog_behavioral_simul.BitVector.Assign.{assign}
use verilog_behavioral_simul.BitVector.Compare.{equal, is_negative, less}
use verilog_behavioral_simul.BitVector.Decimal.{of_decimal, to_decimal}
use verilog_behavioral_simul.BitVector.Multiply.{
  complement_into, differ, like, magnitude, not_a_number,
}
use verilog_behavioral_simul.BitVector.Shift.{shift_left_by}
use verilog_behavioral_simul.Logic.{Logic, dc, hi, is_high, lo}

-- `v._bits[i] = b`, or `none` out of bounds.
unfoldable pub set_cell : BitVector → ℕ → Logic → Option BitVector
set_cell v i b =
    let cs = set (cells v) i b in
    if ltb i (length (cells v))
    then some (record v { low = take (start_pos v) cs; bits = drop (start_pos v) cs })
    else none

-- How the loop over the dividend ends: out of bounds, with an unknown comparison, or with the
-- quotient and the remainder.
pub data Divided : Type 0 where
  outside_array : Divided
  unknown : Divided
  quotient : BitVector → BitVector → Divided

-- The remainder takes in the next bit of the dividend.
unfoldable pub bring_down : BitVector → Logic → Option BitVector
unfolding set_cell shift_left_by
bring_down rem b = set_cell (shift_left_by rem 1) 0 b

-- The comparison of the remainder with the divisor: the bit of the quotient, and what is left.
unfoldable pub divide_bit : BitVector → BitVector → Option (Logic × BitVector)
unfolding less sub_from
divide_bit rem dsor = elim (less rem dsor) [
  | hi ↦ some (lo, rem)
  | lo ↦ some (hi, sub_from rem dsor)
  | _ ↦ none
]

-- The loop from the last bit of the dividend down to its first, `n` bits from the first.
unfoldable pub div_loop : ℕ → BitVector → BitVector → BitVector → BitVector → Divided
unfolding bring_down divide_bit set_cell
div_loop zero dend dsor q rem = quotient q rem
div_loop (suc n) dend dsor q rem =
    let i = start_pos dend + n in
    elim (bring_down rem (get_or (cells dend) i dc)) [
      | none ↦ outside_array
      | some r ↦ elim (divide_bit r dsor) [
        | none ↦ unknown
        | some (b, r') ↦ elim (set_cell q i b) [
          | none ↦ outside_array
          | some q' ↦ div_loop n dend dsor q' r'
        ]
      ]
    ]

-- The operand without its sign, in a vector of its range.
unfoldable pub absolute : BitVector → Option BitVector
unfolding complement_into assign
absolute v =
    let blank = like v unsigned base10 dc in
    if is_negative v then complement_into blank unsigned v v else some (assign blank v)

-- `unary_inv(tmp, q); binary_add(q, tmp, one)` where the test holds.
unfoldable pub negate_if : Bool → BitVector → Option BitVector
unfolding complement_into
negate_if b q = if b then complement_into q signed q q else some q

-- The quotient is negated once more where the dividend is negative.
unfoldable pub finish_division :
    BitVector → BitVector → BitVector → BitVector → Option (BitVector × BitVector)
unfolding negate_if
finish_division l r q rem = elim (negate_if (differ (is_negative l) (is_negative r)) q) [
  | none ↦ none
  | some q1 ↦
      let q2 = record q1 { sign = take_sign q1.sign (joint_sign l r) } in
      elim (negate_if (is_negative l) q2) [
        | none ↦ none
        | some q3 ↦ some (q3, record rem { sign = l.sign })
      ]
]

abbrev pub both_unknown : BitVector → BitVector → BitVector × BitVector
both_unknown q rem = (assign q (not_a_number q), assign rem (not_a_number q))

unfoldable pub shift_and_subtract :
    BitVector → BitVector → BitVector → BitVector → Option (BitVector × BitVector)
unfolding absolute div_loop finish_division assign equal of_bit
shift_and_subtract q rem l r =
    if is_high (equal r (of_bit lo)) then some (both_unknown q rem) else elim (absolute l) [
      | none ↦ none
      | some dend ↦ elim (absolute r) [
        | none ↦ none
        | some dsor ↦ elim (div_loop (size dend) dend dsor q rem) [
          | outside_array ↦ none
          | unknown ↦ some (both_unknown q rem)
          | quotient q' rem' ↦ finish_division l r q' rem'
        ]
      ]
    ]

-- The division of words. The remainder of a negative dividend is taken of its word negated.
unfoldable pub divide_words : BitVector → BitVector → Bool → Bool → ℕ → ℕ → BitVector × BitVector
unfolding assign of_decimal
divide_words q rem l_neg r_neg lud rud = if rud == 0 then both_unknown q rem else (
  assign q (of_decimal (magnitude (differ l_neg r_neg) (lud / rud))),
  assign rem (of_decimal (magnitude l_neg lud % rud)),
)

-- The quotient and the remainder, in vectors that the caller gives.
unfoldable pub binary_div_rem :
    BitVector → BitVector → BitVector → BitVector → Option (BitVector × BitVector)
unfolding to_decimal assign divide_words shift_and_subtract
binary_div_rem q rem l r =
    let ld = to_decimal l 0 in
    let rd = to_decimal r 0 in
    if size l == 0 || size r == 0
    then none
    else if ld.fail && ld.number == 0
    then some (both_unknown q rem)
    else if rd.fail && rd.number == 0
    then some (both_unknown q rem)
    else if not ld.fail && not rd.fail
    then some (
        divide_words q rem (is_negative l) (is_negative r) (magnitude (is_negative l) ld.number)
          (magnitude (is_negative r) rd.number))
    else shift_and_subtract q rem l r

abbrev pub first_of : Option (BitVector × BitVector) → Option BitVector
first_of none = none
first_of (some (q, rem)) = some q

abbrev pub second_of : Option (BitVector × BitVector) → Option BitVector
second_of none = none
second_of (some (q, rem)) = some rem

unfoldable pub binary_div : BitVector → BitVector → BitVector → Option BitVector
unfolding binary_div_rem assign of_bit
binary_div q l r = first_of (binary_div_rem (assign q (of_bit lo)) (like q unset base10 lo) l r)

unfoldable pub binary_mod : BitVector → BitVector → BitVector → Option BitVector
unfolding binary_div_rem assign of_bit
binary_mod rem l r =
    second_of (binary_div_rem (like rem unset base10 lo) (assign rem (of_bit lo)) l r)
