-- ===== src/BitVector/Decimal.antt =====
-- The conversions between bit vectors and machine integers of src/common/bvector.h and
-- bvector.cc. `decimal_type` is `unsigned long`, of 64 bits.
use Prim.Native.Nat.{bit_xor}
use verilog_behavioral_simul.Base.{
  ℕ, zero, suc, ◌+◌, ◌-◌, ◌/◌, ◌%◌, ◌^◌, ◌==◌, Bool, true, false, ◌&&◌, Option, none, some, List,
  [], ◌∷◌, get_or, take, drop, ltb, if◌then◌else◌,
}
use verilog_behavioral_simul.Logic.{Logic, lo, hi, dc, same_bit, of_parity}
use verilog_behavioral_simul.BitVector.{BitVector, unsigned, base10, size, is_signed}

abbrev pub word : ℕ
word = 2 ^ 64

-- `largest`, the bits of `decimal_type`.
abbrev pub word_bits : ℕ
word_bits = 64

-- The loop that collects the bits from position `i` on; `none` is an unknown bit. The bit that
-- `|=` sets is not set before, so it is added.
unfoldable pub collect : ℕ → ℕ → List Logic → Option ℕ
collect i res [] = some res
collect i res (lo ∷ bs) = collect (i + 1) res bs
collect i res (hi ∷ bs) = collect (i + 1) (res + 2 ^ i) bs
collect i res (_ ∷ bs) = none

-- The loop over the bits that do not fit: all must be as the highest bit.
unfoldable pub all_same : Logic → List Logic → Bool
unfolding same_bit
all_same hb [] = true
all_same hb (b ∷ bs) = same_bit b hb && all_same hb bs

-- `*fail` and the value that is returned.
pub record Converted : Type 0 where
  pub fail : Bool
  pub number : ℕ

-- `(res ^ tmp) - tmp`, with `tmp` the sign bit of a vector of `n` bits.
unfoldable pub sign_extend_word : ℕ → ℕ → ℕ
sign_extend_word n res = let tmp = 2 ^ (n - 1) in (bit_xor res tmp + word - tmp) % word

-- `to_decimal_type(fail, nb)`. Of an empty vector, of which the source reads `_bits[_end]` outside
-- of any array, it is not asked: the callers give `none` before.
unfoldable pub to_decimal : BitVector → ℕ → Converted
unfolding collect all_same sign_extend_word same_bit
to_decimal v nb' =
    let nb = if nb' == 0 then word_bits else nb' in
    let hb = get_or v.bits (size v - 1) dc in
    elim (collect 0 0 (take nb v.bits)) [
      | none ↦ record { fail = true; number = 0 }
      | some res ↦
          if all_same hb (drop nb v.bits)
          then record {
            fail = false;
            number =
                if ltb (size v) nb && is_signed v.sign && same_bit hb hi
                then sign_extend_word (size v) res
                else res;
          }
          else record { fail = true; number = word - 1 }
    ]

-- `to_signed_int`: the bit pattern of the `int`.
unfoldable pub to_signed_int : BitVector → Converted
unfolding to_decimal
to_signed_int v =
    let d = to_decimal v 32 in
    record { fail = d.fail; number = if d.fail then 2 ^ 31 else d.number % 2 ^ 32 }

unfoldable pub to_unsigned_int : BitVector → Converted
unfolding to_decimal
to_unsigned_int v = let d = to_decimal v 32 in record { fail = d.fail; number = d.number % 2 ^ 32 }

-- `while (rem > 0)` of the constructor, on fuel.
unfoldable pub split_bits : ℕ → ℕ → List Logic
unfolding of_parity
split_bits zero rem = []
split_bits (suc fuel) rem =
    let rest = split_bits fuel (rem / 2) in if rem == 0 then [] else of_parity rem ∷ rest

unfoldable pub digits_of : ℕ → ℕ → List Logic
unfolding split_bits
digits_of fuel value = if value == 0 then lo ∷ [] else split_bits fuel value

-- `bit_vector(decimal_type)`. A word has at most 64 digits.
unfoldable pub of_decimal : ℕ → BitVector
of_decimal value = record {
  msb_lower = false;
  tristate = false;
  sign = unsigned;
  base = base10;
  low = [];
  bits = digits_of word_bits value;
}
