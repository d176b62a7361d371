-- ===== src/BitVector/DigitLaws.antt =====
-- The loop over a literal's digits, of src/common/bvector.cc, on the digits of a numeral.
use verilog_behavioral_simul.Base.{
  not, length-drop, subst, length-take, length-append, dec_lt, ◌/◌, length-replicate, ℕ, ◌+◌, ◌-◌,
  ◌*◌, ◌%◌, ◌^◌, ◌≤◌, ◌<◌, ◌≡◌, refl, arith, ap, sym, Bool, true, false, ◌&&◌, Option, none, some,
  List, [], ◌∷◌, length, drop, map, ltb, if◌then◌else◌,
}
use native.Mathlib.Nat.{
  pow-le-pow_right, lt_of_lt_of_le, mod-eq_of_lt, zero-mod, mod-lt, mod-add-div, mul-le-mul_left,
  mul_assoc,
}
use verilog_behavioral_simul.BitVector.Value.{
  mod_congruent, mod_unique, Known-replicate, value-replicate, value, Known,
}
use Prim.Native.Nat.{min}
use verilog_behavioral_simul.BitVector.Slices.{
  pow-two-add, two-pow-pos, value-append, value-take, Known-append, Known-take,
}
use verilog_behavioral_simul.Logic.{Logic, lo}
use verilog_behavioral_simul.BitVector.Parse.{Digit, bits, skip, digit_loop}

-- The characters of a numeral: digits, by their numbers, and separators.
abbrev pub char_of : Bool → Option ℕ → ℕ
char_of upper none = 95
char_of upper (some d) = if ltb d 10 then 48 + d else if upper then 55 + d else 87 + d

-- The number of a numeral in base 2 ^ w whose last digit comes first.
abbrev pub numeral : ℕ → List (Option ℕ) → ℕ
numeral w [] = 0
numeral w (none ∷ ds) = numeral w ds
numeral w (some d ∷ ds) = d + 2 ^ w * numeral w ds

abbrev pub AllBelow : ℕ → List (Option ℕ) → Type 0
AllBelow n [] = Unit
AllBelow n (none ∷ ds) = AllBelow n ds
AllBelow n (some d ∷ ds) = (d < n) × AllBelow n ds

-- A character that stands for `d`.
abbrev pub Reads : ℕ → Digit → ℕ → Type 0
Reads w dg d = (bs : List Logic) × (dg ≡ bits bs) × Known bs × (length bs ≡ w) × (value bs ≡ d)

-- A digit in front of the others, in as many cells as there are.
digit_fits : (W K d num : ℕ) → d < W → 0 < K → d + W * (num % K) ≡ (d + W * num) % (W * K)
digit_fits W K d num h p =
    mod_unique (W * K) (d + W * (num % K)) (d + W * num) (num / K) 0
      (omega (arith, mul-le-mul_left W (mod-lt num p)))
      (omega (arith, ap (λ (t : ℕ). W * t) (mod-add-div num K), mul_assoc W K (num / K)))

digit_cut : (L j d num : ℕ) → d % 2 ^ L ≡ (d + 2 ^ (L + j) * num) % 2 ^ L
digit_cut L j d num =
    mod_congruent (2 ^ L) d (d + 2 ^ (L + j) * num) (2 ^ j * num) 0 (rw pow-two-add (omega arith))

shut : (a b : ℕ) → a ≡ b → a ≡ b
shut a b e = e

pow_mono : (m n : ℕ) → m ≤ n → 2 ^ m ≤ 2 ^ n
pow_mono m n h = pow-le-pow_right (omega arith) h

digits-wide :
    (w j d num : ℕ)
    → d < 2 ^ w
    → d % 2 ^ (w + j) + 2 ^ min (w + j) w * (num % 2 ^ (w + j - w))
      ≡ (d + 2 ^ w * num) % 2 ^ (w + j)
digits-wide w j d num h =
    rw
      (
        shut (min (w + j) w) w (omega arith),
        shut (w + j - w) j (omega arith),
        mod-eq_of_lt (lt_of_lt_of_le {k = 2 ^ (w + j)} h (pow_mono w (w + j) (omega arith))),
        pow-two-add,
      )
      (digit_fits (2 ^ w) (2 ^ j) d num h (two-pow-pos j))

digits-narrow :
    (L j d num : ℕ)
    → d % 2 ^ L + 2 ^ min L (L + j) * (num % 2 ^ (L - (L + j))) ≡ (d + 2 ^ (L + j) * num) % 2 ^ L
digits-narrow L j d num =
    rw
      (
        shut (min L (L + j)) L (omega arith),
        shut (L - (L + j)) 0 (omega arith),
        shut (num % 1) 0 (omega arith),
      )
      (omega (arith, digit_cut L j d num))

digits-mod :
    (w L d num : ℕ)
    → d < 2 ^ w
    → d % 2 ^ L + 2 ^ min L w * (num % 2 ^ (L - w)) ≡ (d + 2 ^ w * num) % 2 ^ L
digits-mod w L d num h = elim (dec_lt L w) [
  | yes short ↦
      subst (λ t. d % 2 ^ L + 2 ^ min L t * (num % 2 ^ (L - t)) ≡ (d + 2 ^ t * num) % 2 ^ L)
        {x = L + (w - L)} {y = w} (omega arith) (digits-narrow L (w - L) d num)
  | no long ↦
      subst (λ t. d % 2 ^ t + 2 ^ min t w * (num % 2 ^ (t - w)) ≡ (d + 2 ^ w * num) % 2 ^ t)
        {x = w + (L - w)} {y = L} (omega arith) (digits-wide w (L - w) d num h)
]

-- The loop on a numeral.
module _ (w : ℕ) (f : ℕ → Digit) (code : Option ℕ → ℕ) (skips : f (code none) ≡ skip)
    (reads : (d : ℕ) → d < 2 ^ w → Reads w (f (code (some d))) d) where
  pub digit_loop-value :
      (ds : List (Option ℕ)) (cs : List Logic)
      → AllBelow (2 ^ w) ds
      → (value (digit_loop f lo (map code ds) cs) ≡ numeral w ds % 2 ^ length cs)
        × Known (digit_loop f lo (map code ds) cs)
        × (length (digit_loop f lo (map code ds) cs) ≡ length cs)
  unfolding digit_loop
  digit_loop-value [] cs h =
      rw (value-replicate, length-replicate) (sym (zero-mod _), Known-replicate (length cs), refl)
  digit_loop-value (d ∷ ds) [] h = (omega arith, tt, refl)
  digit_loop-value (none ∷ ds) (c ∷ cs) h = rw skips (digit_loop-value ds (c ∷ cs) h)
  digit_loop-value (some d ∷ ds) (c ∷ cs) h =
      let (bs, e, k, l, v) = reads d h.0 in
      let (rv, rk, rl) = digit_loop-value ds (drop w (c ∷ cs)) h.1 in
      rw (e, l, value-append, rv, value-take, length-append, rl, length-take, length-drop, l, v)
        (
          digits-mod w (length (c ∷ cs)) d (numeral w ds) h.0,
          Known-append _ _ (Known-take (length (c ∷ cs)) bs k) rk,
          omega arith,
        )

pub both : (a b : Bool) → (a && b) ≡ true → (a ≡ true) × (b ≡ true)
both a b h = ground arith

pub not-true : (a : Bool) → not a ≡ true → a ≡ false
not-true a h = ground arith
