-- ===== src/BitVector/MultiplyLaws.antt =====
-- What `binary_mul` of src/common/bvector.cc makes of numbers.
use verilog_behavioral_simul.Base.{
  pos→ne_zero, subst, ℕ, ◌+◌, ◌-◌, ◌*◌, ◌%◌, ◌^◌, ◌≤◌, ◌<◌, ◌≡◌, refl, sym, ap, ◌∙◌, arith, false,
  some, if◌then◌else◌, le→leb,
}
use native.Mathlib.Nat.{mul-le-mul, mod-eq_of_lt}
use verilog_behavioral_simul.BitVector.{BitVector, size, is_signed}
use verilog_behavioral_simul.BitVector.Value.{value, value-lt, Known}
use verilog_behavioral_simul.BitVector.Assign.{assign}
use verilog_behavioral_simul.BitVector.AssignLaws.{assign-value, minus_part}
use verilog_behavioral_simul.BitVector.Compare.{is_negative}
use verilog_behavioral_simul.BitVector.Decimal.{word, word_bits, to_decimal, of_decimal}
use verilog_behavioral_simul.BitVector.DecimalLaws.{of_decimal-value, to_decimal-value}
use verilog_behavioral_simul.BitVector.Multiply.{binary_mul}

pub no_minus : (v : BitVector) → is_negative v ≡ false → minus_part (is_signed v.sign) v.bits ≡ 0
no_minus v n = ap (λ b. if b then 2 ^ size v else 0) n

-- A vector that is not negative converts to its number.
pub number-value :
    (v : BitVector)
    → Known v.bits
    → 0 < size v
    → size v ≤ word_bits
    → is_negative v ≡ false
    → ((to_decimal v 0).fail ≡ false) × ((to_decimal v 0).number ≡ value v.bits)
number-value v k p s n =
    let (f, e, b) = to_decimal-value v k s p in
    (
      f,
      sym (mod-eq_of_lt b)
          ∙ (ap (λ t. t % word) {x = (to_decimal v 0).number}
                {y = (to_decimal v 0).number + minus_part (is_signed v.sign) v.bits}
                (omega (arith, no_minus v n))
              ∙ e),
    )

of_decimal-positive : (n : ℕ) → is_negative (of_decimal n) ≡ false
unfolding of_decimal
of_decimal-positive n = refl

-- Assigning a word.
pub assign-of_decimal :
    (p : BitVector) (n : ℕ)
    → n < word
    → 0 < size p
    → (value (assign p (of_decimal n)).bits ≡ n % 2 ^ size p)
      × Known (assign p (of_decimal n)).bits
      × (size (assign p (of_decimal n)) ≡ size p)
assign-of_decimal p n h q =
    let (v, k, pos, s) = of_decimal-value n h in
    let (e, k', s') = assign-value p (of_decimal n) k pos q in
    (
      (sym (
            mod-eq_of_lt (
              subst (λ t. value (assign p (of_decimal n)).bits < 2 ^ t) s'
                (value-lt (assign p (of_decimal n)).bits)))
          ∙ ap (λ t. t % 2 ^ size p) {x = value (assign p (of_decimal n)).bits}
              {y = value (assign p (of_decimal n)).bits
                + minus_part (is_signed (of_decimal n).sign) (of_decimal n).bits}
              (omega (arith, no_minus (of_decimal n) (of_decimal-positive n)))
          ∙ e
          ∙ ap (λ t. t % 2 ^ size p) v),
      k',
      s',
    )

product_lt : (a b : ℕ) → a < 2 ^ 32 → b < 2 ^ 32 → a * b < word
product_lt a b ha hb = omega (
  arith,
  mul-le-mul {n₁ = a} {m₁ = b} {n₂ = 2 ^ 32 - 1} {m₂ = 2 ^ 32 - 1} (omega arith) (omega arith),
)

-- The branch that multiplies words.
in_words :
    (p l r : BitVector) (a b : ℕ)
    → 0 < size l
    → 0 < size r
    → (to_decimal l 0).fail ≡ false
    → (to_decimal l 0).number ≡ a
    → (to_decimal r 0).fail ≡ false
    → (to_decimal r 0).number ≡ b
    → is_negative l ≡ false
    → is_negative r ≡ false
    → a < 2 ^ 32
    → b < 2 ^ 32
    → binary_mul p l r ≡ some (assign p (of_decimal (a * b)))
unfolding binary_mul
in_words p l r a b pl pr fl el fr er nl nr ha hb =
    rw
      (
        pos→ne_zero (size l) pl,
        pos→ne_zero (size r) pr,
        fl,
        el,
        fr,
        er,
        nl,
        nr,
        le→leb a (2 ^ 32 - 1) (omega arith),
        le→leb b (2 ^ 32 - 1) (omega arith),
        mod-eq_of_lt (product_lt a b ha hb),
      )
      refl

-- `binary_mul` of known operands that are not negative, are no wider than a word and stand for
-- numbers below 2 ^ 32, into any result, writes nothing out of bounds and leaves the product
-- modulo 2 ^ width, in known bits, at the width of the result.
pub binary_mul-value :
    (p l r : BitVector)
    → Known l.bits
    → Known r.bits
    → 0 < size p
    → 0 < size l
    → 0 < size r
    → size l ≤ word_bits
    → size r ≤ word_bits
    → is_negative l ≡ false
    → is_negative r ≡ false
    → value l.bits < 2 ^ 32
    → value r.bits < 2 ^ 32
    → (out : BitVector) × (binary_mul p l r ≡ some out)
      × (value out.bits ≡ value l.bits * value r.bits % 2 ^ size p)
      × Known out.bits
      × (size out ≡ size p)
binary_mul-value p l r kl kr pp pl pr sl sr nl nr bl br =
    let (fl, el) = number-value l kl pl sl nl in
    let (fr, er) = number-value r kr pr sr nr in
    let small = product_lt (value l.bits) (value r.bits) bl br in
    let (v, k, s) = assign-of_decimal p (value l.bits * value r.bits) small pp in
    (
      assign p (of_decimal (value l.bits * value r.bits)),
      in_words p l r (value l.bits) (value r.bits) pl pr fl el fr er nl nr bl br,
      v,
      k,
      s,
    )
