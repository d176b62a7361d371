-- ===== src/BitVector/ParseLaws.antt =====
-- The numbers that literals of src/common/bvector.cc stand for.
use verilog_behavioral_simul.Base.{
  ℕ_discrete, ==_iff, not, subst, ℕ, zero, suc, ◌%◌, ◌^◌, ◌≤◌, ◌<◌, ◌==◌, ◌≡◌, refl, arith, sym,
  Bool, true, false, ◌&&◌, Option, none, some, List, [], ◌∷◌, length, reverse, map,
}
use mathlib.Core.List.{reverse_aux, reverse-reverse}
use verilog_behavioral_simul.BitVector.Value.{value, Known}
use verilog_behavioral_simul.Logic.{Logic, lo, above_hi}
use verilog_behavioral_simul.BitVector.{BitVector, size}
use verilog_behavioral_simul.BitVector.Parse.{
  Digit, bits, skip, bad, digit, padding, assign_digits, assign_from_bin, assign_from_oct,
  assign_from_hex, bin_cases, oct_cases, hex_cases, is_x, is_z,
}
use verilog_behavioral_simul.BitVector.DigitLaws.{
  char_of, numeral, AllBelow, Reads, digit_loop-value, both, not-true,
}

-- A check of a digit table: every digit is read as its number.
known : List Logic → Bool
known [] = true
known (b ∷ bs) = not (above_hi b) && known bs

known-Known : (bs : List Logic) → known bs ≡ true → Known bs
unfolding known
known-Known [] h = tt
known-Known (b ∷ bs) h = let (x, y) = both _ _ h in (not-true _ x, known-Known bs y)

good : ℕ → Digit → ℕ → Bool
unfolding known
good w (bits bs) d = known bs && (length bs == w && value bs == d)
good w _ d = false

good-Reads : (w : ℕ) (dg : Digit) (d : ℕ) → good w dg d ≡ true → Reads w dg d
unfolding good
good-Reads w (bits bs) d h =
    let (x, y) = both _ _ h in
    let (l, v) = both _ _ y in (bs, refl, known-Known bs x, (==_iff _ _).0 l, (==_iff _ _).0 v)
good-Reads w skip d h = cc
good-Reads w bad d h = cc

all_below : (n : ℕ) (p : ℕ → Bool) → Bool
all_below zero p = true
all_below (suc n) p = p n && all_below n p

all_below-lem : (n : ℕ) (p : ℕ → Bool) → all_below n p ≡ true → (d : ℕ) → d < n → p d ≡ true
unfolding all_below
all_below-lem zero p h d k = absurd (omega arith)
all_below-lem (suc n) p h d k =
    let (x, y) = both _ _ h in
    elim (ℕ_discrete d n) [
      | yes e ↦ subst (λ t. p t ≡ true) (sym e) x
      | no e ↦ all_below-lem n p y d (omega (arith, e))
    ]

hex_good : (u : Bool) → all_below 16 (λ d. good 4 (digit 4 hex_cases (char_of u (some d))) d) ≡ true
unfolding all_below good digit
hex_good true = refl
hex_good false = refl

oct_good : (u : Bool) → all_below 8 (λ d. good 3 (digit 3 oct_cases (char_of u (some d))) d) ≡ true
unfolding all_below good digit
oct_good true = refl
oct_good false = refl

bin_good : (u : Bool) → all_below 2 (λ d. good 1 (digit 1 bin_cases (char_of u (some d))) d) ≡ true
unfolding all_below good digit
bin_good true = refl
bin_good false = refl

plain_good :
    (u : Bool)
    → all_below 16 (λ d. not (is_x (char_of u (some d))) && not (is_z (char_of u (some d)))) ≡ true
unfolding all_below
plain_good true = refl
plain_good false = refl

-- Characters that ask for zeros as padding.
Plain : List ℕ → Type 0
Plain [] = Unit
Plain (c ∷ cs) = (padding (c ∷ []) ≡ lo) × Plain cs

padding-Plain : (cs : List ℕ) → Plain cs → padding cs ≡ lo
unfolding padding Plain
padding-Plain [] h = refl
padding-Plain (c ∷ cs) h = h.0

Plain-reverse_aux : (cs r : List ℕ) → Plain cs → Plain r → Plain (reverse_aux cs r)
unfolding Plain
Plain-reverse_aux [] r h k = k
Plain-reverse_aux (c ∷ cs) r h k = Plain-reverse_aux cs (c ∷ r) h.1 (h.0, k)

plainly : (c : ℕ) → is_x c ≡ false → is_z c ≡ false → padding (c ∷ []) ≡ lo
unfolding padding
plainly c a b = ground arith

char_of-padding : (u : Bool) (d : ℕ) → d < 16 → padding (char_of u (some d) ∷ []) ≡ lo
unfolding padding
char_of-padding u d h =
    let (x, y) = both _ _ (all_below-lem 16 _ (plain_good u) d h) in
    plainly (char_of u (some d)) (not-true _ x) (not-true _ y)

char_of-Plain :
    (u : Bool) (n : ℕ) (ds : List (Option ℕ)) → n ≤ 16 → AllBelow n ds → Plain (map (char_of u) ds)
unfolding Plain padding
char_of-Plain u n [] h a = tt
char_of-Plain u n (none ∷ ds) h a = (refl, char_of-Plain u n ds h a)
char_of-Plain u n (some d ∷ ds) h a =
    (char_of-padding u d (omega (arith, a.0)), char_of-Plain u n ds h a.1)

-- A literal's string for a numeral whose last digit comes first.
abbrev pub literal : Bool → List (Option ℕ) → List ℕ
literal upper ds = reverse (map (char_of upper) ds)

-- Known bits of the vector's width that stand for a number.
abbrev pub Holds : ℕ → BitVector → BitVector → Type 0
Holds n v v' = (value v'.bits ≡ n % 2 ^ size v) × Known v'.bits × (size v' ≡ size v)

assign_digits-Holds :
    (w : ℕ) (ks : List (ℕ × List Logic))
    → 2 ^ w ≤ 16
    → digit w ks 95 ≡ skip
    → ((u : Bool) → all_below (2 ^ w) (λ d. good w (digit w ks (char_of u (some d))) d) ≡ true)
    → (upper : Bool) (ds : List (Option ℕ)) (v : BitVector) → AllBelow (2 ^ w) ds
    → Holds (numeral w ds) v (assign_digits w ks (literal upper ds) v)
unfolding assign_digits Plain
assign_digits-Holds w ks small sep check upper ds v a =
    rw
      (
        reverse-reverse (map (char_of upper) ds),
        padding-Plain (literal upper ds) (
            Plain-reverse_aux (map (char_of upper) ds) [] (char_of-Plain upper (2 ^ w) ds small a)
              tt),
      )
      (digit_loop-value w (digit w ks) (char_of upper) sep
        (λ d h. good-Reads w _ d (all_below-lem (2 ^ w) _ (check upper) d h)) ds v.bits a)

pub data Radix : Type 0 where
  binary octal hexadecimal : Radix

-- The bits of a digit, and the function that reads the literal.
abbrev pub digit_bits : Radix → ℕ
digit_bits binary = 1
digit_bits octal = 3
digit_bits hexadecimal = 4

abbrev pub assign_from : Radix → List ℕ → BitVector → BitVector
assign_from binary = assign_from_bin
assign_from octal = assign_from_oct
assign_from hexadecimal = assign_from_hex

-- Reading a binary, an octal or a hexadecimal literal, of digits in either case and separators
-- `_` anywhere, leaves known bits that stand for the literal's number modulo 2 ^ width: short
-- literals are extended by zeros, and long ones cut.
pub assign_from-value :
    (r : Radix) (upper : Bool) (ds : List (Option ℕ)) (v : BitVector)
    → AllBelow (2 ^ digit_bits r) ds
    → Holds (numeral (digit_bits r) ds) v (assign_from r (literal upper ds) v)
unfolding assign_from_bin assign_from_oct assign_from_hex digit
assign_from-value binary upper ds v a =
    assign_digits-Holds 1 bin_cases (omega arith) refl bin_good upper ds v a
assign_from-value octal upper ds v a =
    assign_digits-Holds 3 oct_cases (omega arith) refl oct_good upper ds v a
assign_from-value hexadecimal upper ds v a =
    assign_digits-Holds 4 hex_cases (omega arith) refl hex_good upper ds v a
