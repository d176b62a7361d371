-- ===== src/BitVector/AssignLaws.antt =====
-- What `operator=` of src/common/bvector.h makes of the number that it copies.
use verilog_behavioral_simul.Base.{
  pos→ne_zero, dec_lt, length-replicate, length-take, length-append, not_lt→ltb, lt→ltb, ◌∙◌, ◌&&◌,
  ℕ, ◌+◌, ◌-◌, ◌%◌, ◌^◌, ◌≤◌, ◌<◌, ◌≡◌, refl, arith, ap, Bool, true, false, List, ◌++◌, length,
  get_or, take, replicate, if◌then◌else◌,
}
use native.Mathlib.Nat.{le_refl, mod-mod, add-zero}
use verilog_behavioral_simul.BitVector.Slices.{
  value-pad_lo, value-pad_hi, Known-high_bit, Known-append, Known-take, add_pow-mod, value-take,
}
use verilog_behavioral_simul.BitVector.Value.{Known-replicate_bit, value, Known}
use verilog_behavioral_simul.Logic.{same_bit, Logic, lo, hi, dc, z, nvl, above_hi}
use verilog_behavioral_simul.BitVector.{BitVector, size, is_signed}
use verilog_behavioral_simul.BitVector.Assign.{fit_bits, assign}

-- The high bit that a signed source is extended by.
abbrev pub top_bit : List Logic → Logic
top_bit bs = get_or bs (length bs - 1) dc

abbrev pub is_minus : Bool → List Logic → Bool
is_minus extend src = extend && same_bit (top_bit src) hi

-- What is taken off the bits' number where they stand for a negative one.
abbrev pub minus_part : Bool → List Logic → ℕ
minus_part extend src = if is_minus extend src then 2 ^ length src else 0

fill-value :
    (e : Bool) (b : Logic) (n : ℕ) (src : List Logic)
    → above_hi b ≡ false
    → length src ≤ n
    → (value (src ++ replicate (n - length src) (if e then b else lo))
          + (if e && same_bit b hi then 2 ^ length src else 0)
        ≡ value src + (if e && same_bit b hi then 2 ^ n else 0))
      × (above_hi (if e then b else lo) ≡ false)
unfolding same_bit
fill-value false b n src k h = (omega (arith, value-pad_lo src (n - length src)), refl)
fill-value true lo n src k h = (omega (arith, value-pad_lo src (n - length src)), refl)
fill-value true hi n src k h = (
  value-pad_hi src (n - length src)
      ∙ ap (λ t. value src + 2 ^ t) {x = length src + (n - length src)} {y = n} (omega arith),
  refl,
)
fill-value true dc n src k h = cc
fill-value true z n src k h = cc
fill-value true nvl n src k h = cc

fit_bits-short :
    (n : ℕ) (extend : Bool) (src : List Logic)
    → Known src
    → 0 < length src
    → length src < n
    → ((value (fit_bits n extend src) + minus_part extend src) % 2 ^ n ≡ value src % 2 ^ n)
      × Known (fit_bits n extend src)
      × (length (fit_bits n extend src) ≡ n)
unfolding fit_bits
fit_bits-short n extend src k pos short =
    let (sum, known) =
      fill-value extend (top_bit src) n src (Known-high_bit src k pos) (omega arith) in
    rw (lt→ltb _ _ short) (
      ap (λ t. t % 2 ^ n) sum ∙ extra (is_minus extend src),
      Known-append src _ k (Known-replicate_bit (n - length src) _ known),
      rw (length-append, length-replicate) (omega arith),
    )
  where
    extra : (m : Bool) → (value src + (if m then 2 ^ n else 0)) % 2 ^ n ≡ value src % 2 ^ n
    extra true = add_pow-mod (value src) n n (le_refl n)
    extra false = rw add-zero

fit_bits-long :
    (n : ℕ) (extend : Bool) (src : List Logic)
    → Known src
    → n ≤ length src
    → ((value (fit_bits n extend src) + minus_part extend src) % 2 ^ n ≡ value src % 2 ^ n)
      × Known (fit_bits n extend src)
      × (length (fit_bits n extend src) ≡ n)
unfolding fit_bits
fit_bits-long n extend src k long =
    rw (not_lt→ltb (length src) n long)
      (extra (is_minus extend src), Known-take n src k, rw length-take (omega arith))
  where
    extra :
        (m : Bool)
        → (value (take n src) + (if m then 2 ^ length src else 0)) % 2 ^ n ≡ value src % 2 ^ n
    extra true = rw value-take (add_pow-mod (value src % 2 ^ n) (length src) n long ∙ mod-mod _ _)
    extra false = rw (add-zero, value-take) (mod-mod _ _)

pub fit_bits-value :
    (n : ℕ) (extend : Bool) (src : List Logic)
    → Known src
    → 0 < length src
    → ((value (fit_bits n extend src) + minus_part extend src) % 2 ^ n ≡ value src % 2 ^ n)
      × Known (fit_bits n extend src)
      × (length (fit_bits n extend src) ≡ n)
fit_bits-value n extend src k pos = elim (dec_lt (length src) n) [
  | yes short ↦ fit_bits-short n extend src k pos short
  | no long ↦ fit_bits-long n extend src k (omega arith)
]

-- Assigning known bits to a vector keeps its width and leaves known bits that stand for the
-- number of the source modulo 2 ^ width: a signed source whose high bit is 1 stands for its
-- bits' number less 2 ^ its own width. So a wide source is truncated, and a narrow one extended
-- by its sign if it is signed and by zeros if not.
pub assign-value :
    (v bv : BitVector)
    → Known bv.bits
    → 0 < size bv
    → 0 < size v
    → ((value (assign v bv).bits + minus_part (is_signed bv.sign) bv.bits) % 2 ^ size v
        ≡ value bv.bits % 2 ^ size v)
      × Known (assign v bv).bits
      × (size (assign v bv) ≡ size v)
unfolding assign
assign-value v bv k pb pv =
    rw (pos→ne_zero (size bv) pb, pos→ne_zero (size v) pv)
      (fit_bits-value (size v) (is_signed bv.sign) bv.bits k pb)
