-- ===== src/BitVector/ShiftLaws.antt =====
-- What the shifts of src/common/bvector.cc make of the number that is shifted.
use verilog_behavioral_simul.Base.{
  pos→ne_zero, ◌∙◌, sym, ap, not_lt→ltb, lt→ltb, dec_lt, length-replicate, length-take,
  length-append, ℕ, ◌+◌, ◌-◌, ◌*◌, ◌/◌, ◌%◌, ◌^◌, ◌≤◌, ◌<◌, ◌≡◌, arith, false, some, List, length,
}
use native.Mathlib.Nat.{zero-add, mul-mod_right, mod-lt, mod-add-div}
use verilog_behavioral_simul.BitVector.Decimal.{to_decimal}
use verilog_behavioral_simul.BitVector.Value.{mod_unique, value-replicate, value}
use verilog_behavioral_simul.BitVector.Slices.{
  value-append, value-take, value-drop, value-pad_lo, pow-two-add, two-pow-pos,
}
use verilog_behavioral_simul.Logic.{Logic, lo}
use verilog_behavioral_simul.BitVector.{BitVector, size, start_pos}
use verilog_behavioral_simul.BitVector.Shift.{
  shift_up, shift_down, starts_outside, binary_lshf, binary_rshf,
}

shift_down-value :
    (n c : ℕ) (src : List Logic)
    → (value (shift_down n c src) ≡ value src / 2 ^ c % 2 ^ n) × (length (shift_down n c src) ≡ n)
unfolding shift_down
shift_down-value n c src = (
  rw (value-pad_lo, value-take, value-drop),
  rw (length-append, length-take, length-replicate) (omega arith),
)

-- Shifting what is left of a number after the cut is cutting the shifted number.
shl_mod : (v c d n : ℕ) → c + d ≡ n → 2 ^ c * (v % 2 ^ d) ≡ v * 2 ^ c % 2 ^ n
shl_mod v c d n e =
    mod_unique (2 ^ n) (2 ^ c * (v % 2 ^ d)) (v * 2 ^ c) (v / 2 ^ d) 0
      (rw (← e, pow-two-add) (mul_lt _ _ _ (two-pow-pos c) (mod-lt v (two-pow-pos d))))
      (rw (← e, pow-two-add) (omega (arith, ap (λ (t : ℕ). 2 ^ c * t) (mod-add-div v (2 ^ d)))))
  where
    mul_lt : (k a b : ℕ) → 0 < k → a < b → k * a < k * b
    mul_lt k a b p h = grind arith

shl_all : (v c n : ℕ) → n ≤ c → 0 ≡ v * 2 ^ c % 2 ^ n
shl_all v c n h =
    sym (mul-mod_right (2 ^ n) (v * 2 ^ (c - n)))
    ∙ ap (λ t. t % 2 ^ n) {x = 2 ^ n * (v * 2 ^ (c - n))} {y = v * 2 ^ c}
        (omega (
          arith,
          ap (λ (t : ℕ). v * t) (pow-two-add n (c - n)),
          ap (λ (t : ℕ). v * 2 ^ t) {x = n + (c - n)} {y = c} (omega arith),
        ))

shift_up-value :
    (n c : ℕ) (src : List Logic)
    → (value (shift_up n c src) ≡ value src * 2 ^ c % 2 ^ n) × (length (shift_up n c src) ≡ n)
unfolding shift_up
shift_up-value n c src = elim (dec_lt c n) [
  | yes short ↦ rw (lt→ltb c n short) (
    rw (value-append, value-pad_lo, value-take, value-replicate, length-replicate)
        (rw zero-add (shl_mod (value src) c (n - c) n (omega arith))),
    rw (length-append, length-append, length-take, length-replicate, length-replicate)
        (omega arith),
  )
  | no long ↦
      rw (not_lt→ltb c n (omega arith))
        (rw value-replicate (shl_all (value src) c n (omega arith)), length-replicate n lo)
]

inside : (c first : ℕ) → c + first < 2 ^ 63 → starts_outside c first ≡ false
inside c first h = ground arith

-- A left shift by an amount that is not an empty vector, converts to a number c, and with the
-- start of the result stays below 2 ^ 63, so that the position of the copy is not negative: no
-- access outside the bits, and the result is the number times 2 ^ c modulo 2 ^ width.
pub binary_lshf-value :
    (res l r : BitVector)
    → 0 < size r
    → (to_decimal r 0).fail ≡ false
    → (to_decimal r 0).number + start_pos res < 2 ^ 63
    → (out : BitVector) × (binary_lshf res l r ≡ some out)
      × (value out.bits ≡ value l.bits * 2 ^ (to_decimal r 0).number % 2 ^ size res)
      × (size out ≡ size res)
unfolding binary_lshf
binary_lshf-value res l r p ok small =
    let c = (to_decimal r 0).number in
    (
      record res { bits = shift_up (size res) c l.bits },
      rw (pos→ne_zero (size r) p, ok, inside c (start_pos res) small),
      (shift_up-value (size res) c l.bits).0,
      (shift_up-value (size res) c l.bits).1,
    )

-- A right shift by an amount that is not an empty vector, converts to a number c, and with the
-- start of the operand stays below 2 ^ 63: no access outside the bits, and the result is the
-- number divided by 2 ^ c, modulo 2 ^ width of the result.
pub binary_rshf-value :
    (res l r : BitVector)
    → 0 < size r
    → (to_decimal r 0).fail ≡ false
    → (to_decimal r 0).number + start_pos l < 2 ^ 63
    → (out : BitVector) × (binary_rshf res l r ≡ some out)
      × (value out.bits ≡ value l.bits / 2 ^ (to_decimal r 0).number % 2 ^ size res)
      × (size out ≡ size res)
unfolding binary_rshf
binary_rshf-value res l r p ok small =
    let c = (to_decimal r 0).number in
    (
      record res { bits = shift_down (size res) c l.bits },
      rw (pos→ne_zero (size r) p, ok, inside c (start_pos l) small),
      (shift_down-value (size res) c l.bits).0,
      (shift_down-value (size res) c l.bits).1,
    )
