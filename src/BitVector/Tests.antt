-- ===== src/BitVector/Tests.antt =====
-- Runs of the bit vector's operations on small vectors.
use verilog_behavioral_simul.BitVector.Print.{to_string}
use verilog_behavioral_simul.BitVector.PrintLaws.{to_string-assign_from, base_of}
use verilog_behavioral_simul.BitVector.Divide.{binary_div, binary_mod}
use verilog_behavioral_simul.BitVector.DivideLaws.{binary_div_mod-value}
use verilog_behavioral_simul.Logic.{Logic, lo, hi, dc, of_parity}
use verilog_behavioral_simul.BitVector.Multiply.{binary_mul}
use verilog_behavioral_simul.BitVector.MultiplyLaws.{binary_mul-value}
use verilog_behavioral_simul.Base.{
  negsuc, drop, ◌++◌, ℕ, ◌+◌, ◌*◌, ◌/◌, ◌%◌, ◌^◌, ◌<◌, ◌==◌, ◌≡◌, refl, arith, true, false, Option,
  none, some, List, [], ◌∷◌, if◌then◌else◌,
}
use verilog_behavioral_simul.BitVector.AddStale.{binary_add-stale}
use verilog_behavioral_simul.BitVector.{
  BitVector, SignedType, unsigned, signed, base2, size, is_signed,
}
use verilog_behavioral_simul.BitVector.AddLaws.{
  binary_sub-value, add_to-value, unary_neg-value, sub_from-value, binary_add-value,
}
use verilog_behavioral_simul.BitVector.Arith.{sub_from, binary_sub, add_to, binary_add, unary_neg}
use verilog_behavioral_simul.BitVector.Assign.{assign}
use verilog_behavioral_simul.BitVector.AssignLaws.{assign-value, minus_part}
use verilog_behavioral_simul.BitVector.Bitwise.{
  reduce_or, reduce_and, reduce_xor, logical_not, truth,
}
use verilog_behavioral_simul.BitVector.BitwiseLaws.{truth-Known, reductions-Known, ones}
use verilog_behavioral_simul.BitVector.Decimal.{digits_of, to_decimal, word}
use verilog_behavioral_simul.BitVector.DecimalLaws.{to_decimal-value}
use verilog_behavioral_simul.BitVector.ParseLaws.{
  assign_from, Holds, assign_from-value, literal, hexadecimal, digit_bits,
}
use verilog_behavioral_simul.BitVector.DigitLaws.{numeral}
use verilog_behavioral_simul.BitVector.SelectRead.{Writes, write_selected-assign_selected}
use verilog_behavioral_simul.BitVector.Shift.{binary_lshf, binary_rshf}
use verilog_behavioral_simul.BitVector.ShiftLaws.{binary_lshf-value, binary_rshf-value}
use verilog_behavioral_simul.BitVector.Value.{value, Known}

abbrev vec : SignedType → List Logic → BitVector
vec s bs = record {
  msb_lower = false;
  tristate = false;
  sign = s;
  base = base2;
  low = [];
  bits = bs;
}

-- Nine, six and five in four bits, minus one in two, and a blank of four.
abbrev nine : BitVector
nine = vec unsigned (hi ∷ lo ∷ lo ∷ hi ∷ [])

abbrev nine_Known : Known nine.bits
nine_Known = (refl, (refl, (refl, (refl, tt))))

abbrev six : BitVector
six = vec unsigned (lo ∷ hi ∷ hi ∷ lo ∷ [])

abbrev six_Known : Known six.bits
six_Known = (refl, (refl, (refl, (refl, tt))))

abbrev minus_one : BitVector
minus_one = vec signed (hi ∷ hi ∷ [])

abbrev minus_one_Known : Known minus_one.bits
minus_one_Known = (refl, (refl, tt))

abbrev blank : BitVector
blank = vec unsigned (dc ∷ dc ∷ dc ∷ dc ∷ [])

binary_add-value_example :
    (out : BitVector) × (binary_add blank nine six ≡ some out)
    × (value out.bits ≡ (value nine.bits + value six.bits) % 2 ^ size blank)
    × Known out.bits
    × (size out ≡ size blank)
binary_add-value_example =
    binary_add-value blank nine six nine_Known six_Known refl (λ h. refl) (λ h. refl)

binary_sub-value_example :
    (out : BitVector) × (binary_sub blank six nine ≡ some out)
    × ((value out.bits + value nine.bits) % 2 ^ size blank ≡ value six.bits % 2 ^ size blank)
    × Known out.bits
    × (size out ≡ size blank)
binary_sub-value_example = binary_sub-value blank six nine six_Known nine_Known

add_to-value_example :
    (value (add_to nine six).bits ≡ (value nine.bits + value six.bits) % 2 ^ size nine)
    × Known (add_to nine six).bits
    × (size (add_to nine six) ≡ size nine)
add_to-value_example = add_to-value nine six nine_Known six_Known

sub_from-value_example :
    ((value (sub_from six nine).bits + value nine.bits) % 2 ^ size six
      ≡ value six.bits % 2 ^ size six)
    × Known (sub_from six nine).bits
    × (size (sub_from six nine) ≡ size six)
sub_from-value_example = sub_from-value six nine six_Known nine_Known

unary_neg-value_example :
    ((value (unary_neg blank nine).bits + value nine.bits) % 2 ^ size blank ≡ 0)
    × Known (unary_neg blank nine).bits
    × (size (unary_neg blank nine) ≡ size blank)
unary_neg-value_example = unary_neg-value blank nine nine_Known (omega arith)

reductions-Known_example :
    (reduce_and nine ≡ (if ones nine.bits == size nine then hi else lo))
    × (reduce_or nine ≡ (if ones nine.bits == 0 then lo else hi))
    × (reduce_xor nine ≡ of_parity (ones nine.bits))
reductions-Known_example = reductions-Known nine nine_Known (omega arith)

truth-Known_example :
    (logical_not nine ≡ (if value nine.bits == 0 then hi else lo))
    × (truth nine ≡ (if value nine.bits == 0 then false else true))
truth-Known_example = truth-Known nine nine_Known

to_decimal-value_example :
    ((to_decimal minus_one 0).fail ≡ false)
    × (((to_decimal minus_one 0).number + minus_part (is_signed minus_one.sign) minus_one.bits)
          % word
        ≡ value minus_one.bits)
    × ((to_decimal minus_one 0).number < word)
to_decimal-value_example = to_decimal-value minus_one minus_one_Known (omega arith) (omega arith)

-- Two, and minus one, as the amounts of shifts.
abbrev two : BitVector
two = vec unsigned (lo ∷ hi ∷ [])

binary_lshf-value_example :
    (out : BitVector) × (binary_lshf blank nine two ≡ some out)
    × (value out.bits ≡ value nine.bits * 2 ^ (to_decimal two 0).number % 2 ^ size blank)
    × (size out ≡ size blank)
unfolding to_decimal
binary_lshf-value_example = binary_lshf-value blank nine two (omega arith) refl (omega arith)

binary_rshf-value_example :
    (out : BitVector) × (binary_rshf blank nine two ≡ some out)
    × (value out.bits ≡ value nine.bits / 2 ^ (to_decimal two 0).number % 2 ^ size blank)
    × (size out ≡ size blank)
unfolding to_decimal
binary_rshf-value_example = binary_rshf-value blank nine two (omega arith) refl (omega arith)

assign-value_example :
    ((value (assign blank minus_one).bits + minus_part (is_signed minus_one.sign) minus_one.bits)
        % 2 ^ size blank
      ≡ value minus_one.bits % 2 ^ size blank)
    × Known (assign blank minus_one).bits
    × (size (assign blank minus_one) ≡ size blank)
assign-value_example = assign-value blank minus_one minus_one_Known (omega arith) (omega arith)

write_selected-assign_selected_example : Writes nine 1 2 minus_one.bits signed two
write_selected-assign_selected_example =
    write_selected-assign_selected nine two 1 2 minus_one.bits signed refl (omega arith)
      (omega arith) (omega arith) (refl, (refl, tt)) minus_one_Known

-- B_7.
abbrev digits : List (Option ℕ)
digits = some 7 ∷ none ∷ some 11 ∷ []

assign_from-value_example :
    Holds
      (numeral (digit_bits hexadecimal) digits)
      blank
      (assign_from hexadecimal (literal true digits) blank)
assign_from-value_example =
    assign_from-value hexadecimal true digits blank (omega arith, (omega arith, tt))

-- The bits of `blank` above those of `minus_one` stay unknown.
abbrev zero_bit : BitVector
zero_bit = vec unsigned (lo ∷ [])

binary_add-stale_example :
    (out : BitVector) × (binary_add blank minus_one zero_bit ≡ some out)
    × (out.bits ≡ minus_one.bits ++ drop (size minus_one) blank.bits)
binary_add-stale_example =
    binary_add-stale blank minus_one zero_bit 1 minus_one_Known refl (omega arith) (omega arith)
      refl

binary_mul-value_example :
    (out : BitVector) × (binary_mul blank nine six ≡ some out)
    × (value out.bits ≡ value nine.bits * value six.bits % 2 ^ size blank)
    × Known out.bits
    × (size out ≡ size blank)
binary_mul-value_example =
    binary_mul-value blank nine six nine_Known six_Known (omega arith) (omega arith) (omega arith)
      (omega arith) (omega arith) refl refl (omega arith) (omega arith)

binary_div_mod-value_example :
    (q' : BitVector) × (rem' : BitVector) × (binary_div blank nine six ≡ some q')
    × (binary_mod blank nine six ≡ some rem')
    × (value q'.bits ≡ value nine.bits / value six.bits % 2 ^ size blank)
    × (value rem'.bits ≡ value nine.bits % value six.bits % 2 ^ size blank)
    × (Known q'.bits × Known rem'.bits)
binary_div_mod-value_example =
    binary_div_mod-value blank blank nine six nine_Known six_Known (omega arith) (omega arith)
      (omega arith) (omega arith) (omega arith) (omega arith) refl refl (omega arith)

-- Minus seven in four bits, and three.
abbrev minus_seven : BitVector
minus_seven = vec signed (hi ∷ lo ∷ lo ∷ hi ∷ [])

abbrev three : BitVector
three = vec unsigned (hi ∷ hi ∷ [])

-- The quotient is minus two, and the remainder 0 in place of minus one.
divide_negative :
    (binary_div blank minus_seven three ≡ some (vec unsigned (lo ∷ hi ∷ hi ∷ hi ∷ [])))
    × (binary_mod blank minus_seven three ≡ some (vec unsigned (lo ∷ lo ∷ lo ∷ lo ∷ [])))
unfolding binary_div binary_mod digits_of
divide_negative = (refl, refl)

to_string-assign_from_example :
    (s : List ℕ) × (to_string (base_of hexadecimal) (negsuc 0) minus_seven ≡ some s)
    × Holds (value minus_seven.bits) blank (assign_from hexadecimal s blank)
to_string-assign_from_example =
    to_string-assign_from hexadecimal 0 minus_seven blank (refl, (refl, (refl, (refl, tt))))
      (omega arith)
