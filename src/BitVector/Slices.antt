-- ===== src/BitVector/Slices.antt =====
-- The numbers of pieces of a bit list. Copies and shifts of src/common/bvector.h and bvector.cc
-- are made of these.
use verilog_behavioral_simul.Base.{
  true, subst, false, sym, ap, ◌∙◌, ℕ, zero, suc, ◌+◌, ◌-◌, ◌*◌, ◌/◌, ◌%◌, ◌^◌, ◌≤◌, ◌<◌, ◌≡◌, refl,
  arith, List, [], ◌∷◌, ◌++◌, length, get_or, take, drop, replicate,
}
use native.Mathlib.Nat.{
  add-mul-mod_self_left, zero-add, suc-add, zero-mod, zero-div, mod-lt, mod-add-div,
  div-div-eq-div-mul, pow-suc, mul_comm, one-le-pow,
}
use verilog_behavioral_simul.Logic.{z, nvl, same_bit, dc, Logic, lo, hi, above_hi}
use verilog_behavioral_simul.BitVector.Value.{value-replicate, bit_value, value, Known, mod_unique}

pub pow-two-add : (m n : ℕ) → 2 ^ (m + n) ≡ 2 ^ m * 2 ^ n
pow-two-add zero n = rw zero-add (omega arith)
pow-two-add (suc m) n = rw (suc-add, pow-suc, pow-suc) (omega (arith, pow-two-add m n))

pub two-pow-pos : (n : ℕ) → 0 < 2 ^ n
two-pow-pos n = one-le-pow n 2 (omega arith)

-- The remainder and the quotient of a number with one more digit in front.
digit_mod : (b v k : ℕ) → b < 2 → 0 < k → b + 2 * (v % k) ≡ (b + 2 * v) % (k * 2)
digit_mod b v k h p =
    mod_unique (k * 2) (b + 2 * (v % k)) (b + 2 * v) (v / k) 0 (omega (arith, mod-lt v p))
      (omega (arith, mod-add-div v k))

digit_div : (b v k : ℕ) → b < 2 → v / k ≡ (b + 2 * v) / (k * 2)
digit_div b v k h =
    ap (λ t. t / k) {x = v} {y = (b + 2 * v) / 2} (omega arith)
    ∙ div-div-eq-div-mul (b + 2 * v) 2 k
    ∙ ap (λ t. (b + 2 * v) / t) (mul_comm 2 k)

pub bit_value_lt : (b : Logic) → bit_value b < 2
bit_value_lt b = ground arith

pub value-append : (xs ys : List Logic) → value (xs ++ ys) ≡ value xs + 2 ^ length xs * value ys
value-append [] ys = omega arith
value-append (x ∷ xs) ys = rw (value-append xs ys, pow-suc) (omega arith)

pub value-take : (n : ℕ) (bs : List Logic) → value (take n bs) ≡ value bs % 2 ^ n
value-take zero bs = omega arith
value-take (suc n) [] = sym (zero-mod (2 ^ suc n))
value-take (suc n) (b ∷ bs) =
    rw (pow-suc, value-take n bs)
      (digit_mod (bit_value b) (value bs) (2 ^ n) (bit_value_lt b) (two-pow-pos n))

pub value-drop : (n : ℕ) (bs : List Logic) → value (drop n bs) ≡ value bs / 2 ^ n
value-drop zero bs = omega arith
value-drop (suc n) [] = sym (zero-div (2 ^ suc n))
value-drop (suc n) (b ∷ bs) =
    rw (pow-suc, value-drop n bs) (digit_div (bit_value b) (value bs) (2 ^ n) (bit_value_lt b))

pub value-replicate_hi : (n : ℕ) → value (replicate n hi) + 1 ≡ 2 ^ n
value-replicate_hi zero = refl
value-replicate_hi (suc n) = rw pow-suc (omega (arith, value-replicate_hi n))

pub Known-append : (xs ys : List Logic) → Known xs → Known ys → Known (xs ++ ys)
Known-append [] ys k l = l
Known-append (x ∷ xs) ys k l = (k.0, Known-append xs ys k.1 l)

pub Known-take : (n : ℕ) (bs : List Logic) → Known bs → Known (take n bs)
Known-take zero bs k = tt
Known-take (suc n) [] k = tt
Known-take (suc n) (b ∷ bs) k = (k.0, Known-take n bs k.1)

pub Known-drop : (n : ℕ) (bs : List Logic) → Known bs → Known (drop n bs)
Known-drop zero bs k = k
Known-drop (suc n) [] k = tt
Known-drop (suc n) (b ∷ bs) k = Known-drop n bs k.1

pub Known-high_bit :
    (bs : List Logic) → Known bs → 0 < length bs → above_hi (get_or bs (length bs - 1) dc) ≡ false
Known-high_bit [] k h = absurd (omega arith)
Known-high_bit (b ∷ []) k h = k.0
Known-high_bit (b ∷ c ∷ bs) k h =
    subst (λ i. above_hi (get_or (b ∷ c ∷ bs) i dc) ≡ false) {x = suc (length (c ∷ bs) - 1)}
      {y = length (b ∷ c ∷ bs) - 1} (omega arith) (Known-high_bit (c ∷ bs) k.1 (omega arith))

pub value-pad_lo : (src : List Logic) (k : ℕ) → value (src ++ replicate k lo) ≡ value src
value-pad_lo src k = rw (value-append, value-replicate) (omega arith)

pub value-pad_hi :
    (src : List Logic) (k : ℕ)
    → value (src ++ replicate k hi) + 2 ^ length src ≡ value src + 2 ^ (length src + k)
value-pad_hi src k =
    rw (value-append, pow-two-add)
      (omega (arith, ap (λ (t : ℕ). 2 ^ length src * t) (value-replicate_hi k)))

-- Numbers that are multiples of 2 ^ n vanish modulo 2 ^ n.
pub add_pow-mod : (v m n : ℕ) → n ≤ m → (v + 2 ^ m) % 2 ^ n ≡ v % 2 ^ n
add_pow-mod v m n h =
    ap (λ t. (v + 2 ^ t) % 2 ^ n) {x = m} {y = n + (m - n)} (omega arith)
    ∙ rw pow-two-add (add-mul-mod_self_left v (2 ^ n) (2 ^ (m - n)))

-- A high bit of 1 has its weight.
pub pow-le-value :
    (bs : List Logic)
    → 0 < length bs
    → same_bit (get_or bs (length bs - 1) dc) hi ≡ true
    → 2 ^ length bs ≤ 2 * value bs
unfolding same_bit
pow-le-value [] h e = absurd (omega arith)
pow-le-value (lo ∷ []) h e = cc
pow-le-value (hi ∷ []) h e = omega arith
pow-le-value (dc ∷ []) h e = cc
pow-le-value (z ∷ []) h e = cc
pow-le-value (nvl ∷ []) h e = cc
pow-le-value (b ∷ c ∷ bs) h e = rw pow-suc (
    omega (
      arith,
      pow-le-value (c ∷ bs) (omega arith) (
          subst (λ i. same_bit (get_or (b ∷ c ∷ bs) i dc) hi ≡ true) {x = length (b ∷ c ∷ bs) - 1}
            {y = suc (length (c ∷ bs) - 1)} (omega arith) e),
    ))
