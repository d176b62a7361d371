-- ===== src/BitVector/DecimalLaws.antt =====
-- The conversions of src/common/bvector.h and bvector.cc between bits and machine integers.
use verilog_behavioral_simul.Base.{
  not_lt→ltb, lt→ltb, ◌&&◌, ltb, if◌then◌else◌, pos→ne_zero, dec_lt, ◌∙◌, ap, ℕ, zero, suc, ◌+◌,
  ◌-◌, ◌*◌, ◌/◌, ◌%◌, ◌^◌, ◌≤◌, ◌<◌, ◌≡◌, refl, arith, Bool, true, false, none, some, List, [], ◌∷◌,
  length, take, drop,
}
use verilog_behavioral_simul.Logic.{same_bit, Logic, lo, hi, dc, z, nvl}
use verilog_behavioral_simul.BitVector.Xor.{bit_xor_top}
use verilog_behavioral_simul.BitVector.Slices.{two-pow-pos, pow-le-value}
use verilog_behavioral_simul.BitVector.Value.{
  value-lt, of_parity-known, bit_value-of_parity, value, Known,
}
use verilog_behavioral_simul.BitVector.AssignLaws.{top_bit, minus_part}
use verilog_behavioral_simul.BitVector.Decimal.{
  sign_extend_word, digits_of, collect, all_same, to_decimal, of_decimal, split_bits, word,
  word_bits,
}
use native.Mathlib.Nat.{pow-le-pow_right, pow-suc}
use native.Mathlib.Numerals.{add-one}
use verilog_behavioral_simul.BitVector.{BitVector, size, is_signed}
use verilog_behavioral_simul.BitVector.Compare.{any_above}

collect-Known :
    (i res : ℕ) (bs : List Logic) → Known bs → collect i res bs ≡ some (res + 2 ^ i * value bs)
unfolding collect
collect-Known i res [] k = ap some (omega arith)
collect-Known i res (lo ∷ bs) k =
    collect-Known (i + 1) res bs k.1 ∙ ap some (rw (add-one, pow-suc) (omega arith))
collect-Known i res (hi ∷ bs) k =
    collect-Known (i + 1) (res + 2 ^ i) bs k.1 ∙ ap some (rw (add-one, pow-suc) (omega arith))
collect-Known i res (dc ∷ bs) k = cc
collect-Known i res (z ∷ bs) k = cc
collect-Known i res (nvl ∷ bs) k = cc

collect-unknown : (i res : ℕ) (bs : List Logic) → any_above bs ≡ true → collect i res bs ≡ none
unfolding collect any_above
collect-unknown i res [] k = cc
collect-unknown i res (lo ∷ bs) k = collect-unknown (i + 1) res bs k
collect-unknown i res (hi ∷ bs) k = collect-unknown (i + 1) (res + 2 ^ i) bs k
collect-unknown i res (dc ∷ bs) k = refl
collect-unknown i res (z ∷ bs) k = refl
collect-unknown i res (nvl ∷ bs) k = refl

split_bits-value :
    (fuel n : ℕ)
    → n < 2 ^ fuel
    → (value (split_bits fuel n) ≡ n)
      × Known (split_bits fuel n)
      × (length (split_bits fuel n) ≤ fuel)
unfolding split_bits
split_bits-value zero n h = (omega arith, tt, omega arith)
split_bits-value (suc fuel) zero h = (refl, tt, omega arith)
split_bits-value (suc fuel) (suc n) h =
    let (v, known, short) = split_bits-value fuel (suc n / 2) (omega (arith, rw pow-suc at h)) in
    rw (pos→ne_zero (suc n) (omega arith))
      (omega (arith, v, bit_value-of_parity (suc n)), (of_parity-known (suc n), known), omega arith)

digits_of-value :
    (fuel n : ℕ)
    → n < 2 ^ fuel
    → 0 < fuel
    → (value (digits_of fuel n) ≡ n)
      × Known (digits_of fuel n)
      × (0 < length (digits_of fuel n))
      × (length (digits_of fuel n) ≤ fuel)
unfolding digits_of
digits_of-value zero n h p = absurd (omega arith)
digits_of-value (suc fuel) zero h p = (refl, (refl, tt), omega arith, omega arith)
digits_of-value (suc fuel) (suc n) h p =
    let (v, known, short) = split_bits-value fuel (suc n / 2) (omega (arith, rw pow-suc at h)) in
    rw (pos→ne_zero (suc n) (omega arith)) (
      omega (arith, v, bit_value-of_parity (suc n)),
      (of_parity-known (suc n), known),
      omega arith,
      omega arith,
    )

-- `bit_vector(decimal_type)` holds the number that it is given, in known bits, of which there is
-- at least one and no more than a word has.
pub of_decimal-value :
    (n : ℕ)
    → n < word
    → (value (of_decimal n).bits ≡ n)
      × Known (of_decimal n).bits
      × (0 < size (of_decimal n))
      × (size (of_decimal n) ≤ word_bits)
unfolding of_decimal
of_decimal-value n h = digits_of-value word_bits n h (omega arith)

all_same-nil :
    (hb : Logic) (bs : List Logic) (n : ℕ) → length bs ≤ n → all_same hb (drop n bs) ≡ true
unfolding all_same
all_same-nil hb [] zero h = refl
all_same-nil hb [] (suc n) h = refl
all_same-nil hb (b ∷ bs) zero h = absurd (omega arith)
all_same-nil hb (b ∷ bs) (suc n) h = all_same-nil hb bs n (omega arith)

take-all {ℓ} : {A : Type ℓ} (n : ℕ) (xs : List A) → length xs ≤ n → take n xs ≡ xs
take-all zero [] h = refl
take-all zero (x ∷ xs) h = absurd (omega arith)
take-all (suc n) [] h = refl
take-all (suc n) (x ∷ xs) h = ap (◌∷◌ x) (take-all n xs (omega arith))

pow_mono : (m n : ℕ) → m ≤ n → 2 ^ m ≤ 2 ^ n
pow_mono m n h = pow-le-pow_right (omega arith) h

sign_extend_word-value :
    (n v : ℕ) → 0 < n → n ≤ 64 → 2 ^ n ≤ 2 * v → v < 2 ^ n → sign_extend_word n v + 2 ^ n ≡ v + word
unfolding sign_extend_word
sign_extend_word-value zero v p h lower upper = absurd (omega arith)
sign_extend_word-value (suc n) v p h lower upper =
    rw (suc_pred, pow-suc)
      (omega (
        arith,
        pow_mono n 63 (omega arith),
        bit_xor_top n v (omega (arith, rw pow-suc at lower)) upper,
        rw pow-suc at lower,
        rw pow-suc at upper,
      ))
  where
    suc_pred : suc n - 1 ≡ n
    suc_pred = omega arith

word_number :
    (s m : Bool) (n v : ℕ)
    → 0 < n
    → n ≤ 64
    → (m ≡ true → 2 ^ n ≤ 2 * v)
    → v < 2 ^ n
    → (((if ltb n 64 && s && m then sign_extend_word n v else v) + (if s && m then 2 ^ n else 0))
          % word
        ≡ v)
      × ((if ltb n 64 && s && m then sign_extend_word n v else v) < word)
word_number s m n v p h lower upper = elim (dec_lt n 64) [
  | yes short ↦ rw (lt→ltb n 64 short) (narrow s m lower)
  | no full ↦
      rw (not_lt→ltb n 64 (omega arith)) (wide s m (ap (λ t. 2 ^ t) {x = n} {y = 64} (omega arith)))
]
  where
    small : v < word
    small = omega (arith, pow_mono n 64 h)

    narrow :
        (s m : Bool)
        → (m ≡ true → 2 ^ n ≤ 2 * v)
        → (((if true && s && m then sign_extend_word n v else v) + (if s && m then 2 ^ n else 0))
              % word
            ≡ v)
          × ((if true && s && m then sign_extend_word n v else v) < word)
    narrow false m l = (omega (arith, small), small)
    narrow true false l = (omega (arith, small), small)
    narrow true true l =
        let e = sign_extend_word-value n v p h (l refl) upper in
        (rw e (omega (arith, small)), omega (arith, e, small, two-pow-pos n, upper))

    wide :
        (s m : Bool)
        → 2 ^ n ≡ word
        → (((if false && s && m then sign_extend_word n v else v) + (if s && m then 2 ^ n else 0))
              % word
            ≡ v)
          × ((if false && s && m then sign_extend_word n v else v) < word)
    wide false m e = (omega (arith, small), small)
    wide true false e = (omega (arith, small), small)
    wide true true e = (rw e (omega (arith, small)), small)

-- A vector of known bits that is not wider than a word converts without failure to the word that
-- stands for its number, a signed one whose high bit is 1 for the bits' number less 2 ^ width.
pub to_decimal-value :
    (v : BitVector)
    → Known v.bits
    → size v ≤ word_bits
    → 0 < size v
    → ((to_decimal v 0).fail ≡ false)
      × (((to_decimal v 0).number + minus_part (is_signed v.sign) v.bits) % word ≡ value v.bits)
      × ((to_decimal v 0).number < word)
unfolding to_decimal
to_decimal-value v k h p =
    let number =
      word_number (is_signed v.sign) (same_bit (top_bit v.bits) hi) (size v) (value v.bits) p h
        (pow-le-value v.bits p) (value-lt v.bits) in
    rw
      (
        take-all word_bits v.bits h,
        collect-Known 0 0 v.bits k,
        all_same-nil (top_bit v.bits) v.bits word_bits h,
        plain,
      )
      (refl, number.0, number.1)
  where
    plain : 0 + 1 * value v.bits ≡ value v.bits
    plain = omega arith
