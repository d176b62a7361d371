-- ===== src/BitVector/PrintLaws.antt =====
-- Printing in binary, octal and hexadecimal by src/common/bvector.cc, and reading it again.
use verilog_behavioral_simul.Base.{
  List, Option, [], ap, arith, drop, false, length, length-drop, map, negsuc, pos→ne_zero, refl,
  reverse, some, subst, suc, take, zero, ℕ, ℤ, ◌*◌, ◌+◌, ◌-◌, ◌<◌, ◌^◌, ◌∙◌, ◌∷◌, ◌≡◌, ◌≤◌,
}
use verilog_behavioral_simul.BitVector.{BaseType, BitVector, base16, base2, base8, size}
use verilog_behavioral_simul.BitVector.DigitLaws.{AllBelow, char_of, numeral}
use verilog_behavioral_simul.BitVector.ParseLaws.{
  Holds, Radix, assign_from, assign_from-value, binary, digit_bits, hexadecimal, literal, octal,
}
use verilog_behavioral_simul.BitVector.Print.{
  bits_as_int, digit_char, get_bits_as_int, places_for, print_digits, print_loop, print_size,
  to_string,
}
use verilog_behavioral_simul.BitVector.Slices.{
  Known-drop, Known-take, pow-two-add, two-pow-pos, value-drop, value-take,
}
use verilog_behavioral_simul.BitVector.Value.{Known, value}
use verilog_behavioral_simul.Logic.{Logic, dc, hi, lo, nvl, z}
use native.Mathlib.Nat.{mul_assoc, mul-suc, mul-zero, mod-add-div, mod-lt, one-mul}

two_powers : (k v : ℕ) → 0 + 2 ^ k * 2 ^ 1 * v ≡ 2 ^ k * (0 + 2 * v)
two_powers k v = omega (arith, mul_assoc (2 ^ k) 2 v)

high_power : (k v : ℕ) → 2 ^ k + 2 ^ k * 2 ^ 1 * v ≡ 2 ^ k * (1 + 2 * v)
high_power k v = omega (arith, mul_assoc (2 ^ k) 2 v)

bits_as_int-value : (k : ℕ) (bs : List Logic) → Known bs → bits_as_int k bs ≡ 2 ^ k * value bs
unfolding bits_as_int
bits_as_int-value k [] h = omega arith
bits_as_int-value k (lo ∷ bs) h =
    let e = bits_as_int-value (k + 1) bs h.1 in rw (e, pow-two-add k 1) (two_powers k (value bs))
bits_as_int-value k (hi ∷ bs) h =
    let e = bits_as_int-value (k + 1) bs h.1 in rw (e, pow-two-add k 1) (high_power k (value bs))
bits_as_int-value k (dc ∷ bs) h = cc
bits_as_int-value k (z ∷ bs) h = cc
bits_as_int-value k (nvl ∷ bs) h = cc

digit_char-char_of : (w d : ℕ) → d < 16 → digit_char w d ≡ char_of false (some d)
digit_char-char_of w d h = ground arith

-- The digits of a vector, the last first.
pub printed : ℕ → ℕ → List Logic → List (Option ℕ)
printed w zero bs = []
printed w (suc places) [] = []
printed w (suc places) (b ∷ bs) =
    some (value (take w (b ∷ bs))) ∷ printed w places (drop w (b ∷ bs))

-- So many places are just enough.
abbrev Enough : ℕ → ℕ → ℕ → Type 0
Enough w places n = (n ≤ w * places) × (w * places < n + w)

Enough-next : (w places n : ℕ) → Enough w (suc places) n → 0 < n → Enough w places (n - w)
Enough-next w places n (h, k) p =
    let e : w * suc places ≡ w + w * places = omega (arith, mul-suc w places) in
    (omega arith, omega arith)

take_value : (w : ℕ) (bs : List Logic) → value (take w bs) < 2 ^ w
take_value w bs = rw (value-take w bs) (mod-lt (value bs) (two-pow-pos w))

head_char :
    (w : ℕ) (bs : List Logic)
    → 2 ^ w ≤ 16
    → Known bs
    → digit_char w (get_bits_as_int w bs) ≡ char_of false (some (value (take w bs)))
unfolding get_bits_as_int
head_char w bs small k =
    let lt = take_value w bs in
    rw (bits_as_int-value 0 (take w bs) (Known-take w bs k), one-mul)
      (digit_char-char_of w (value (take w bs)) (omega arith))

print_loop-printed :
    (w places : ℕ) (bs : List Logic)
    → 2 ^ w ≤ 16
    → Known bs
    → Enough w places (length bs)
    → print_loop w places bs ≡ map (char_of false) (printed w places bs)
unfolding print_loop printed
print_loop-printed w zero bs small k e = refl
print_loop-printed w (suc places) [] small k (h, j) = absurd (omega (arith, mul-suc w places))
print_loop-printed w (suc places) (b ∷ bs) small k e =
    rw
      (
        head_char w (b ∷ bs) small k,
        print_loop-printed w places (drop w (b ∷ bs)) small (Known-drop w (b ∷ bs) k)
            (rw (length-drop w (b ∷ bs)) (Enough-next w places (length (b ∷ bs)) e (omega arith))),
      )
      refl

printed-AllBelow : (w places : ℕ) (bs : List Logic) → AllBelow (2 ^ w) (printed w places bs)
unfolding printed
printed-AllBelow w zero bs = tt
printed-AllBelow w (suc places) [] = tt
printed-AllBelow w (suc places) (b ∷ bs) =
    (take_value w (b ∷ bs), printed-AllBelow w places (drop w (b ∷ bs)))

numeral-printed :
    (w places : ℕ) (bs : List Logic)
    → Enough w places (length bs)
    → numeral w (printed w places bs) ≡ value bs
unfolding printed
numeral-printed w zero [] e = refl
numeral-printed w zero (b ∷ bs) e = absurd (omega (arith, mul-zero w))
numeral-printed w (suc places) [] e = refl
numeral-printed w (suc places) (b ∷ bs) e =
    rw
      (
        numeral-printed w places (drop w (b ∷ bs))
            (rw (length-drop w (b ∷ bs)) (Enough-next w places (length (b ∷ bs)) e (omega arith))),
        value-take w (b ∷ bs),
        value-drop w (b ∷ bs),
      )
      (mod-add-div (value (b ∷ bs)) (2 ^ w))

abbrev pub base_of : Radix → BaseType
base_of binary = base2
base_of octal = base8
base_of hexadecimal = base16

places-Enough :
    (r : Radix) (n : ℕ)
    → 0 < n
    → Enough (digit_bits r) (places_for n (digit_bits r)) n × (0 < places_for n (digit_bits r))
places-Enough binary n p = ground arith
places-Enough octal n p = ground arith
places-Enough hexadecimal n p = ground arith

radix_small : (r : Radix) → 2 ^ digit_bits r ≤ 16
radix_small binary = omega arith
radix_small octal = omega arith
radix_small hexadecimal = omega arith

print_digits-literal :
    (r : Radix) (n : ℕ) (v : BitVector)
    → Known v.bits
    → 0 < size v
    → print_digits (digit_bits r) (negsuc n) v
      ≡ literal false (printed (digit_bits r) (places_for (size v) (digit_bits r)) v.bits)
unfolding print_digits print_size
print_digits-literal r n v k p =
    let (enough, some_place) = places-Enough r (size v) p in
    rw (pos→ne_zero (places_for (size v) (digit_bits r)) some_place) (
      ap reverse (
        print_loop-printed (digit_bits r) (places_for (size v) (digit_bits r)) v.bits
          (radix_small r) k enough))

to_string-print_digits :
    (r : Radix) (len : ℤ) (v : BitVector)
    → to_string (base_of r) len v ≡ some (print_digits (digit_bits r) len v)
unfolding to_string
to_string-print_digits binary len v = refl
to_string-print_digits octal len v = refl
to_string-print_digits hexadecimal len v = refl

-- A vector of known bits that is printed in binary, octal or hexadecimal at its full width, and
-- read again into any vector in the same base, gives known bits that stand for its number, modulo
-- 2 ^ the width that it is read into.
pub to_string-assign_from :
    (r : Radix) (n : ℕ) (v u : BitVector)
    → Known v.bits
    → 0 < size v
    → (s : List ℕ) × (to_string (base_of r) (negsuc n) v ≡ some s)
      × Holds (value v.bits) u (assign_from r s u)
to_string-assign_from r n v u k p =
    let w = digit_bits r in
    let places = places_for (size v) w in
    let ds = printed w places v.bits in
    (
      literal false ds,
      to_string-print_digits r (negsuc n) v ∙ ap some (print_digits-literal r n v k p),
      subst (λ t. Holds t u (assign_from r (literal false ds) u))
          (numeral-printed w places v.bits (places-Enough r (size v) p).0)
          (assign_from-value r false ds u (printed-AllBelow w places v.bits)),
    )
