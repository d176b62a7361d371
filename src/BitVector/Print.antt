-- ===== src/BitVector/Print.antt =====
-- `to_string` of src/common/bvector.cc with its helpers: the digits of a vector in a base, its
-- decimal number, and its bytes. A character is its code; a string is built from its last
-- character.
use verilog_behavioral_simul.Base.{
  Bool, List, Option, [], drop, false, if◌then◌else◌, leb, length, ltb, negsuc, none, pos,
  replicate, reverse, some, suc, take, true, zero, ℕ, ℤ, ◌%◌, ◌&&◌, ◌*◌, ◌+◌, ◌-◌, ◌/◌, ◌==◌, ◌^◌,
  ◌||◌, ◌∷◌,
}
use verilog_behavioral_simul.BitVector.{
  BaseType, BitVector, base10, base16, base2, base8, basedflt, basestr, copy, is_signed, size,
  unsigned,
}
use verilog_behavioral_simul.BitVector.Compare.{high_bit}
use verilog_behavioral_simul.BitVector.Multiply.{complement_into}
use verilog_behavioral_simul.Logic.{Logic, dc, hi, lo, nvl, same_bit, z}

-- `BITS2INT[k][b]`.
abbrev pub bits2int : ℕ → Logic → ℕ
bits2int k lo = 0
bits2int k hi = 2 ^ k
bits2int k dc = 100
bits2int k z = 1000
bits2int k nvl = 10000

-- `get_bits_as_int` on the bits from the index on.
unfoldable pub bits_as_int : ℕ → List Logic → ℕ
bits_as_int k [] = 0
bits_as_int k (b ∷ bs) = bits2int k b + bits_as_int (k + 1) bs

unfoldable pub get_bits_as_int : ℕ → List Logic → ℕ
unfolding bits_as_int
get_bits_as_int numbits bs = bits_as_int 0 (take numbits bs)

-- The number of bits of a digit in the bases that are powers of two.
abbrev pub digit_width : BaseType → Option ℕ
digit_width base2 = some 1
digit_width base8 = some 3
digit_width base16 = some 4
digit_width _ = none

-- A digit's character: 'a' and on from 10, and 'z' or 'x' where bits are unknown.
abbrev pub digit_char : ℕ → ℕ → ℕ
digit_char w pad =
    if ltb 9 pad && ltb pad 16
    then pad - 10 + 97
    else if ltb pad 10
    then pad + 48
    else if w == 1 && leb 1000 pad
    then 122
    else 120

-- The loop over the places of the result and the bits left; the places in front stay blank.
unfoldable pub print_loop : ℕ → ℕ → List Logic → List ℕ
unfolding get_bits_as_int
print_loop w zero bs = []
print_loop w (suc places) [] = replicate (suc places) 32
print_loop w (suc places) (b ∷ bs) =
    digit_char w (get_bits_as_int w (b ∷ bs)) ∷ print_loop w places (drop w (b ∷ bs))

-- The bits up to the highest that is not 0.
unfoldable pub significant : List Logic → ℕ
significant [] = 0
significant (b ∷ bs) =
    let n = significant bs in if n == 0 then (if same_bit b lo then 0 else 1) else suc n

-- `Rnd(s, b) / b`.
abbrev pub places_for : ℕ → ℕ → ℕ
places_for s b = (if s % b == 0 then s else s + (b - s % b)) / b

-- The size of the result: what the number needs, what the vector needs, or what was asked for.
unfoldable pub print_size : ℕ → ℤ → BitVector → ℕ
unfolding significant
print_size w (pos zero) v = let n = places_for (significant v.bits) w in if n == 0 then 1 else n
print_size w (pos (suc n)) v = suc n
print_size w (negsuc n) v = let m = places_for (size v) w in if m == 0 then 1 else m

unfoldable pub print_digits : ℕ → ℤ → BitVector → List ℕ
unfolding print_size print_loop
print_digits w len v = reverse (print_loop w (print_size w len v) v.bits)

-- `find_hw`: the number of decimal digits of a word, by its weights.
unfoldable pub find_hw : ℕ → ℕ → ℕ → ℕ
find_hw zero val wt = 1
find_hw (suc fuel) val wt =
    let rest = find_hw fuel val (wt * 10) in if ltb (val / wt) 10 then 1 else suc rest

-- The flags of the loop over the bits of a decimal number, and the number.
pub record Collected : Type 0 where
  pub number : ℕ
  pub have_n : Bool
  pub have_x : Bool
  pub have_z : Bool

unfoldable pub collect_number : ℕ → List Logic → Collected → Collected
collect_number i [] c = c
collect_number i (dc ∷ bs) c = collect_number (i + 1) bs (record c { have_x = true })
collect_number i (z ∷ bs) c = collect_number (i + 1) bs (record c { have_z = true })
collect_number i (hi ∷ bs) c =
    collect_number (i + 1) bs (record c { number = c.number + 2 ^ i; have_n = true })
collect_number i (_ ∷ bs) c = collect_number (i + 1) bs c

-- The character of a number with unknown bits: 'x', 'z', 'Z' and 'X'.
abbrev pub unknown_char : Collected → Option ℕ
unknown_char c =
    if c.have_x
    then some (if c.have_n || c.have_z then 88 else 120)
    else if c.have_z
    then some (if c.have_n then 90 else 122)
    else none

-- The decimal digits in so many places, the last first, and blanks in front.
unfoldable pub decimal_digits : ℕ → ℕ → List ℕ
decimal_digits zero num = []
decimal_digits (suc places) num =
    let rest = decimal_digits places (num / 10) in
    (num % 10 + 48) ∷ (if num / 10 == 0 then replicate places 32 else rest)

-- The sign in the last place that is blank.
unfoldable pub put_minus : List ℕ → List ℕ
put_minus [] = []
put_minus (c ∷ cs) = let rest = put_minus cs in if c == 32 then 45 ∷ cs else c ∷ rest

abbrev pub decimal_size : ℤ → ℕ → ℕ
decimal_size (pos zero) num = find_hw 64 num 1
decimal_size (negsuc n) num = find_hw 64 (2 ^ 64 - 1) 1
decimal_size (pos (suc n)) num = suc n

unfoldable pub print_number : Bool → ℤ → Collected → List ℕ
unfolding decimal_digits put_minus find_hw
print_number neg len c = elim (unknown_char c) [
  | some ch ↦ ch ∷ []
  | none ↦
      let n = decimal_size len c.number in
      let digits = decimal_digits (if neg then n + 1 else n) c.number in
      reverse (if neg then put_minus digits else digits)
]

-- `binary_2_decimal`: a negative number is complemented first.
unfoldable pub binary_2_decimal : ℤ → BitVector → Option (List ℕ)
unfolding complement_into copy collect_number print_number
binary_2_decimal len v =
    let neg = is_signed v.sign && same_bit (high_bit v) hi in
    let blank : Collected = record { number = 0; have_n = false; have_x = false; have_z = false } in
    elim (if neg then complement_into (copy v) unsigned v v else some (copy v)) [
      | none ↦ none
      | some tmp ↦ some (print_number neg len (collect_number 0 (take 64 tmp.bits) blank))
    ]

-- `binary_2_string`: a byte of eight bits from the last on; a byte of 0 leaves a blank.
abbrev pub byte_char : ℕ → ℕ → ℕ
byte_char low high =
    if ltb 16 low || ltb 16 high then 63 else (let c = low + 16 * high in if c == 0 then 32 else c)

unfoldable pub string_loop : ℕ → List Logic → List ℕ
unfolding get_bits_as_int
string_loop zero bs = []
string_loop (suc places) bs =
    let rest = string_loop places (drop 8 bs) in
    if leb (length bs) 1
    then replicate (suc places) 32
    else byte_char (get_bits_as_int 4 bs) (get_bits_as_int 4 (drop 4 bs)) ∷ rest

unfoldable pub binary_2_string : BitVector → List ℕ
unfolding string_loop
binary_2_string v = reverse (string_loop ((size v + 7) / 8) v.bits)

-- `to_string` in a base that is not the default; the length is a signed word here.
abbrev pub print_base : BaseType → ℤ → BitVector → Option (List ℕ)
print_base basestr len v = some (binary_2_string v)
print_base base10 len v = binary_2_decimal len v
print_base base2 len v = some (print_digits 1 len v)
print_base base8 len v = some (print_digits 3 len v)
print_base base16 len v = some (print_digits 4 len v)
print_base basedflt len v = none

-- `to_string`. A vector whose own base is the default indexes the table of widths out of bounds.
unfoldable pub to_string : BaseType → ℤ → BitVector → Option (List ℕ)
unfolding binary_2_string binary_2_decimal print_digits
to_string basedflt len v = print_base v.base len v
to_string base len v = print_base base len v
