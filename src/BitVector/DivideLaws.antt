-- ===== src/BitVector/DivideLaws.antt =====
-- What division of src/common/bvector.cc makes of numbers.
use verilog_behavioral_simul.Base.{
  ap, arith, false, pos→ne_zero, refl, some, ℕ, ◌%◌, ◌/◌, ◌<◌, ◌^◌, ◌∙◌, ◌≡◌, ◌≤◌,
}
use verilog_behavioral_simul.BitVector.{BitVector, base10, of_bit, size, unset}
use verilog_behavioral_simul.BitVector.Assign.{assign}
use verilog_behavioral_simul.BitVector.AssignLaws.{assign-value}
use verilog_behavioral_simul.BitVector.Compare.{is_negative}
use verilog_behavioral_simul.BitVector.Decimal.{of_decimal, to_decimal, word, word_bits}
use verilog_behavioral_simul.BitVector.Divide.{
  binary_div, binary_div_rem, binary_mod, first_of, second_of,
}
use verilog_behavioral_simul.BitVector.Multiply.{like}
use verilog_behavioral_simul.BitVector.MultiplyLaws.{assign-of_decimal, number-value}
use verilog_behavioral_simul.BitVector.Value.{Known, value, value-lt}
use verilog_behavioral_simul.Logic.{lo}
use native.Mathlib.Nat.{div-le_self, mod-le, pow-le-pow_right}

-- The division of words, on operands that convert to words and are not negative.
division_in_words :
    (q rem l r : BitVector) (a b : ℕ)
    → 0 < size l
    → 0 < size r
    → (to_decimal l 0).fail ≡ false
    → (to_decimal l 0).number ≡ a
    → (to_decimal r 0).fail ≡ false
    → (to_decimal r 0).number ≡ b
    → is_negative l ≡ false
    → is_negative r ≡ false
    → 0 < b
    → binary_div_rem q rem l r
      ≡ some (assign q (of_decimal (a / b)), assign rem (of_decimal (a % b)))
unfolding binary_div_rem
division_in_words q rem l r a b pl pr fl el fr er nl nr p =
    rw (pos→ne_zero (size l) pl, pos→ne_zero (size r) pr, fl, el, fr, er, nl, nr, pos→ne_zero b p)
      refl

cleared_size : (v : BitVector) → 0 < size v → size (assign v (of_bit lo)) ≡ size v
unfolding of_bit
cleared_size v p = (assign-value v (of_bit lo) (refl, tt) (omega arith) p).2

quotient_lt : (a b : ℕ) → a < word → a / b < word
quotient_lt a b h = let q : a / b ≤ a = div-le_self a b in omega arith

remainder_lt : (a b : ℕ) → a < word → a % b < word
remainder_lt a b h = let q : a % b ≤ a = mod-le a b in omega arith

word_value : (v : BitVector) → size v ≤ word_bits → value v.bits < word
word_value v s =
    let p : 2 ^ size v ≤ 2 ^ word_bits = pow-le-pow_right (omega arith) s in
    omega (arith, value-lt v.bits)

-- `binary_div` and `binary_mod` of known operands that are not negative and are no wider than a
-- word, with a divisor that is not 0, leave the quotient and the remainder modulo 2 ^ the width of
-- the result, in known bits.
pub binary_div_mod-value :
    (q rem l r : BitVector)
    → Known l.bits
    → Known r.bits
    → 0 < size q
    → 0 < size rem
    → 0 < size l
    → 0 < size r
    → size l ≤ word_bits
    → size r ≤ word_bits
    → is_negative l ≡ false
    → is_negative r ≡ false
    → 0 < value r.bits
    → (q' : BitVector) × (rem' : BitVector) × (binary_div q l r ≡ some q')
      × (binary_mod rem l r ≡ some rem')
      × (value q'.bits ≡ value l.bits / value r.bits % 2 ^ size q)
      × (value rem'.bits ≡ value l.bits % value r.bits % 2 ^ size rem)
      × (Known q'.bits × Known rem'.bits)
unfolding binary_div binary_mod
binary_div_mod-value q rem l r kl kr pq prem pl pr sl sr nl nr nz =
    let (fl, el) = number-value l kl pl sl nl in
    let (fr, er) = number-value r kr pr sr nr in
    let a = value l.bits in
    let b = value r.bits in
    let q1 = assign q (of_bit lo) in
    let rem1 = assign rem (of_bit lo) in
    let (vq, kq, sq) =
      assign-of_decimal q1 (a / b) (quotient_lt a b (word_value l sl))
        (rw (cleared_size q pq) pq) in
    let (vr, kr', sr') =
      assign-of_decimal rem1 (a % b) (remainder_lt a b (word_value l sl))
        (rw (cleared_size rem prem) prem) in
    (
      assign q1 (of_decimal (a / b)),
      assign rem1 (of_decimal (a % b)),
      ap first_of
          (division_in_words q1 (like q unset base10 lo) l r a b pl pr fl el fr er nl nr nz),
      ap second_of
          (division_in_words (like rem unset base10 lo) rem1 l r a b pl pr fl el fr er nl nr nz),
      vq ∙ ap (λ n. a / b % 2 ^ n) (cleared_size q pq),
      vr ∙ ap (λ n. a % b % 2 ^ n) (cleared_size rem prem),
      (kq, kr'),
    )
