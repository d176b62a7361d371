-- ===== src/BitVector/Value.antt =====
-- The numbers that bits stand for. This is the reference that the arithmetic of
-- src/common/bvector.cc is measured against.
use native.Mathlib.Nat.{pow-suc, mod-eq_of_lt, add-mul-mod_self_left}
use mathlib.Core.Path.{◌≡⟨◌⟩◌, ◌∎}
use verilog_behavioral_simul.Base.{
  ◌∙◌, sym, ◌%◌, ℕ, zero, suc, ◌+◌, ◌*◌, ◌^◌, ◌<◌, ◌≡◌, refl, arith, false, List, [], ◌∷◌, length,
  replicate,
}
use verilog_behavioral_simul.Logic.{Logic, lo, hi, above_hi, to_int, of_parity}

-- The weight of a bit.
abbrev pub bit_value : Logic → ℕ
bit_value hi = 1
bit_value _ = 0

-- The number that bits stand for, the least significant first; an unknown bit counts as 0.
abbrev pub value : List Logic → ℕ
value [] = 0
value (b ∷ bs) = bit_value b + 2 * value bs

-- Every bit is 0 or 1.
abbrev pub Known : List Logic → Type 0
Known [] = Unit
Known (b ∷ bs) = (above_hi b ≡ false) × Known bs

pub value-lt : (bs : List Logic) → value bs < 2 ^ length bs
value-lt [] = omega arith
value-lt (b ∷ bs) = ground (arith, value-lt bs, pow-suc 2 (length bs))

pub Known-replicate : (n : ℕ) → Known (replicate n lo)
Known-replicate zero = tt
Known-replicate (suc n) = (refl, Known-replicate n)

pub Known-replicate_bit : (n : ℕ) (b : Logic) → above_hi b ≡ false → Known (replicate n b)
Known-replicate_bit zero b k = tt
Known-replicate_bit (suc n) b k = (k, Known-replicate_bit n b k)

pub value-replicate : (n : ℕ) → value (replicate n lo) ≡ 0
value-replicate zero = refl
value-replicate (suc n) = omega (arith, value-replicate n)

pub to_int-eq-bit_value : (b : Logic) → above_hi b ≡ false → to_int b ≡ bit_value b
to_int-eq-bit_value b h = ground arith

pub to_int_lt : (b : Logic) → above_hi b ≡ false → to_int b < 2
to_int_lt b h = ground arith

pub of_parity-known : (n : ℕ) → above_hi (of_parity n) ≡ false
unfolding of_parity
of_parity-known n = ground arith

pub bit_value-of_parity : (n : ℕ) → bit_value (of_parity n) ≡ n % 2
unfolding of_parity
bit_value-of_parity n = ground arith

-- Numbers that differ by multiples of `k` have one remainder by `k`.
pub mod_congruent : (k a b up down : ℕ) → a + k * up ≡ b + k * down → a % k ≡ b % k
mod_congruent k a b up down e =
    a % k
    ≡⟨ sym (add-mul-mod_self_left a k up) ⟩ (a + k * up) % k
    ≡⟨ rw e (add-mul-mod_self_left b k down) ⟩ b % k ∎

-- A number below the modulus is the remainder of what it is congruent to.
pub mod_unique : (k v n up down : ℕ) → v < k → v + k * up ≡ n + k * down → v ≡ n % k
mod_unique k v n up down h e = sym (mod-eq_of_lt h) ∙ mod_congruent k v n up down e
