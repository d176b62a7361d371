-- ===== src/BitVector/Xor.antt =====
-- The exclusive or of a number and a power of two that it contains, for the sign extension of
-- `to_decimal_type` in src/common/bvector.cc.
use verilog_behavioral_simul.Base.{
  ap₂, ap, ◌∙◌, ℕ, zero, suc, ◌+◌, ◌*◌, ◌/◌, ◌%◌, ◌^◌, ◌≤◌, ◌<◌, ◌≡◌, refl, arith,
}
use Prim.Native.Nat.{bit_xor, bit_xor-bitwise, digits, differ}
use native.Mathlib.Nat.{pow-suc}
use verilog_behavioral_simul.BitVector.Slices.{two-pow-pos}

abbrev xor_digits : ℕ → ℕ → ℕ → ℕ
xor_digits n a b = digits (λ b. b) differ n a b

xor_digits_fuel : (n m a b : ℕ) → a ≤ n → a ≤ m → xor_digits n a b ≡ xor_digits m a b
xor_digits_fuel zero zero a b p q = refl
xor_digits_fuel zero (suc m) zero b p q = refl
xor_digits_fuel zero (suc m) (suc a) b p q = absurd (omega arith)
xor_digits_fuel (suc n) zero zero b p q = refl
xor_digits_fuel (suc n) zero (suc a) b p q = absurd (omega arith)
xor_digits_fuel (suc n) (suc m) zero b p q = refl
xor_digits_fuel (suc n) (suc m) (suc a) b p q =
    omega (arith, xor_digits_fuel n m (suc a / 2) (b / 2) (omega arith) (omega arith))

zero-bit_xor : (b : ℕ) → bit_xor 0 b ≡ b
zero-bit_xor b = bit_xor-bitwise 0 b

bit_xor_step :
    (a b : ℕ) → bit_xor (suc a) b ≡ bit_xor (suc a / 2) (b / 2) * 2 + differ (suc a % 2) (b % 2)
bit_xor_step a b = omega (
  arith,
  bit_xor-bitwise (suc a) b,
  bit_xor-bitwise (suc a / 2) (b / 2),
  xor_digits_fuel a (suc a / 2) (suc a / 2) (b / 2) (omega arith) (omega arith),
)

differ-zero : (x : ℕ) → x < 2 → differ x 0 ≡ x
differ-zero zero h = refl
differ-zero (suc zero) h = refl
differ-zero (suc (suc x)) h = absurd (omega arith)

-- One digit more on both sides.
bit_xor-double : (a p : ℕ) → 0 < a → bit_xor a (p * 2) ≡ bit_xor (a / 2) p * 2 + a % 2
bit_xor-double zero p h = absurd (omega arith)
bit_xor-double (suc a) p h =
    bit_xor_step a (p * 2)
    ∙ ap₂ (λ x y. bit_xor (suc a / 2) x * 2 + differ (suc a % 2) y) {x = p * 2 / 2} {y = p}
        {u = p * 2 % 2} {v = 0} (omega arith) (omega arith)
    ∙ ap (λ t. bit_xor (suc a / 2) p * 2 + t) (differ-zero (suc a % 2) (omega arith))

pub bit_xor_top : (k a : ℕ) → 2 ^ k ≤ a → a < 2 ^ suc k → bit_xor a (2 ^ k) + 2 ^ k ≡ a
bit_xor_top zero a h l = ap (λ t. bit_xor t 1 + 1) {x = a} {y = 1} (omega arith) ∙ omega arith
bit_xor_top (suc k) a h l =
    let h' : 2 ^ k * 2 ≤ a = rw pow-suc at h in
    let l' : a < 2 ^ k * 2 * 2 = rw (pow-suc, pow-suc) at l in
    rw (pow-suc, bit_xor-double a (2 ^ k) (omega (arith, two-pow-pos k)))
      (omega (arith, bit_xor_top k (a / 2) (omega arith) (rw pow-suc (omega arith))))
