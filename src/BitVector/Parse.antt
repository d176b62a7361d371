-- ===== src/BitVector/Parse.antt =====
-- `assign_from_bin`, `assign_from_oct` and `assign_from_hex` of src/common/bvector.cc: the digits
-- of a literal, from its last character, fill the cells from the lowest on. A character is its
-- code.
use verilog_behavioral_simul.Base.{
  ℕ, ◌==◌, ◌||◌, Bool, List, [], ◌∷◌, ◌++◌, length, take, drop, replicate, reverse, if◌then◌else◌,
}
use verilog_behavioral_simul.Logic.{Logic, lo, hi, dc, z}
use verilog_behavioral_simul.BitVector.{BitVector}

-- What a character stands for: bits, the lowest first, or the separator `_`, or an error.
pub data Digit : Type 0 where
  bits : List Logic → Digit
  skip : Digit
  bad : Digit

-- 'x' and 'X', and then '?', 'z' and 'Z'.
abbrev pub is_x : ℕ → Bool
is_x c = c == 120 || c == 88

abbrev pub is_z : ℕ → Bool
is_z c = c == 63 || c == 122 || c == 90

-- The cases of the `switch` that are no digits; `w` bits to a digit.
unfoldable pub other_digit : ℕ → ℕ → Digit
other_digit w c =
    if is_x c
    then bits (replicate w dc)
    else if is_z c
    then bits (replicate w z)
    else if c == 95
    then skip
    else bad

-- The digits' cases, by the codes of their characters.
abbrev pub bin_cases : List (ℕ × List Logic)
bin_cases = (48, lo ∷ []) ∷ (49, hi ∷ []) ∷ []

abbrev pub oct_cases : List (ℕ × List Logic)
oct_cases =
    (48, lo ∷ lo ∷ lo ∷ [])
    ∷ (49, hi ∷ lo ∷ lo ∷ [])
    ∷ (50, lo ∷ hi ∷ lo ∷ [])
    ∷ (51, hi ∷ hi ∷ lo ∷ [])
    ∷ (52, lo ∷ lo ∷ hi ∷ [])
    ∷ (53, hi ∷ lo ∷ hi ∷ [])
    ∷ (54, lo ∷ hi ∷ hi ∷ [])
    ∷ (55, hi ∷ hi ∷ hi ∷ [])
    ∷ []

abbrev pub hex_cases : List (ℕ × List Logic)
hex_cases =
    (48, lo ∷ lo ∷ lo ∷ lo ∷ [])
    ∷ (49, hi ∷ lo ∷ lo ∷ lo ∷ [])
    ∷ (50, lo ∷ hi ∷ lo ∷ lo ∷ [])
    ∷ (51, hi ∷ hi ∷ lo ∷ lo ∷ [])
    ∷ (52, lo ∷ lo ∷ hi ∷ lo ∷ [])
    ∷ (53, hi ∷ lo ∷ hi ∷ lo ∷ [])
    ∷ (54, lo ∷ hi ∷ hi ∷ lo ∷ [])
    ∷ (55, hi ∷ hi ∷ hi ∷ lo ∷ [])
    ∷ (56, lo ∷ lo ∷ lo ∷ hi ∷ [])
    ∷ (57, hi ∷ lo ∷ lo ∷ hi ∷ [])
    ∷ (97, lo ∷ hi ∷ lo ∷ hi ∷ [])
    ∷ (65, lo ∷ hi ∷ lo ∷ hi ∷ [])
    ∷ (98, hi ∷ hi ∷ lo ∷ hi ∷ [])
    ∷ (66, hi ∷ hi ∷ lo ∷ hi ∷ [])
    ∷ (99, lo ∷ lo ∷ hi ∷ hi ∷ [])
    ∷ (67, lo ∷ lo ∷ hi ∷ hi ∷ [])
    ∷ (100, hi ∷ lo ∷ hi ∷ hi ∷ [])
    ∷ (68, hi ∷ lo ∷ hi ∷ hi ∷ [])
    ∷ (101, lo ∷ hi ∷ hi ∷ hi ∷ [])
    ∷ (69, lo ∷ hi ∷ hi ∷ hi ∷ [])
    ∷ (102, hi ∷ hi ∷ hi ∷ hi ∷ [])
    ∷ (70, hi ∷ hi ∷ hi ∷ hi ∷ [])
    ∷ []

unfoldable pub digit : ℕ → List (ℕ × List Logic) → ℕ → Digit
unfolding other_digit
digit w [] c = other_digit w c
digit w ((k, bs) ∷ ks) c = if c == k then bits bs else digit w ks c

-- The left padding, by the first character of the string.
unfoldable pub padding : List ℕ → Logic
padding [] = lo
padding (c ∷ cs) = if is_x c then dc else if is_z c then z else lo

-- The two loops: over the characters, from the last, and the cells from the current one on. A
-- digit's bits past the last cell are dropped, as in `assign_bits`.
unfoldable pub digit_loop : (ℕ → Digit) → Logic → List ℕ → List Logic → List Logic
digit_loop f pad [] cs = replicate (length cs) pad
digit_loop f pad (ch ∷ str) [] = []
digit_loop f pad (ch ∷ str) (c ∷ cs) = elim (f ch) [
  | bits bs ↦ take (length (c ∷ cs)) bs ++ digit_loop f pad str (drop (length bs) (c ∷ cs))
  | skip ↦ digit_loop f pad str (c ∷ cs)
  | bad ↦ c ∷ cs
]

unfoldable pub assign_digits : ℕ → List (ℕ × List Logic) → List ℕ → BitVector → BitVector
unfolding digit_loop digit padding
assign_digits w ks str v = record v {
  bits = digit_loop (digit w ks) (padding str) (reverse str) v.bits;
}

unfoldable pub assign_from_bin : List ℕ → BitVector → BitVector
unfolding assign_digits
assign_from_bin str v = assign_digits 1 bin_cases str v

unfoldable pub assign_from_oct : List ℕ → BitVector → BitVector
unfolding assign_digits
assign_from_oct str v = assign_digits 3 oct_cases str v

unfoldable pub assign_from_hex : List ℕ → BitVector → BitVector
unfolding assign_digits
assign_from_hex str v = assign_digits 4 hex_cases str v
