-- ===== src/BitVector.antt =====
-- The bit vector of src/common/bvector.h: the object, its constructors and single-bit access.
-- `_bits` has `_end + 1` cells. `low` is the cells below `_begin`, which are not part of the
-- number, and `bits` the `_size` cells from `_begin` to `_end`, the least significant first.
pub mod Value
pub mod Arith
pub mod Sum
pub mod InPlace
pub mod Slices
pub mod Xor
pub mod AddLaws
pub mod AddStale
pub mod Compare
pub mod Bitwise
pub mod Assign
pub mod Select
pub mod Parse
pub mod Tests
pub mod DigitLaws
pub mod ParseLaws
pub mod SelectWrite
pub mod SelectRead
pub mod SelectLaws
pub mod Decimal
pub mod Shift
pub mod Multiply
pub mod Divide
pub mod MultiplyLaws
pub mod CompareLaws
pub mod AssignLaws
pub mod Print
pub mod PrintLaws
pub mod DecimalLaws
pub mod DivideLaws
pub mod ShiftLaws
pub mod BitwiseLaws
use verilog_behavioral_simul.Base.{
  ℕ, ◌+◌, ◌-◌, Bool, true, false, List, [], ◌∷◌, ◌++◌, length, get_or, replicate, ltb, leb,
  if◌then◌else◌, ◌||◌,
}
use verilog_behavioral_simul.Logic.{Logic, dc, z, nvl}

pub data SignedType : Type 0 where
  unset unsigned signed : SignedType

pub data BaseType : Type 0 where
  base2 base8 base10 base16 basestr basedflt : BaseType

pub record BitVector : Type 0 where
  pub msb_lower : Bool
  pub tristate : Bool
  pub sign : SignedType
  pub base : BaseType
  pub low : List Logic
  pub bits : List Logic

-- `_begin`, `_size` and `_end + 1`.
abbrev pub start_pos : BitVector → ℕ
start_pos v = length v.low

abbrev pub size : BitVector → ℕ
size v = length v.bits

abbrev pub past_end : BitVector → ℕ
past_end v = start_pos v + size v

-- `_bits`, from cell 0.
abbrev pub cells : BitVector → List Logic
cells v = v.low ++ v.bits

abbrev pub is_signed : SignedType → Bool
is_signed signed = true
is_signed _ = false

abbrev pub is_unsigned : SignedType → Bool
is_unsigned unsigned = true
is_unsigned _ = false

-- `if (_signed == UNSET) _signed = s`.
abbrev pub take_sign : SignedType → SignedType → SignedType
take_sign unset s = s
take_sign t _ = t

-- The default constructor, with one bit or none.
unfoldable pub of_bit : Logic → BitVector
of_bit nvl = record {
  msb_lower = false;
  tristate = false;
  sign = unset;
  base = base2;
  low = [];
  bits = [];
}
of_bit b = record {
  msb_lower = false;
  tristate = false;
  sign = unsigned;
  base = base2;
  low = [];
  bits = b ∷ [];
}

-- `bit_vector(ms, ls, s, b, val)`, for a declaration [ms:ls].
unfoldable pub of_range : ℕ → ℕ → SignedType → BaseType → Logic → BitVector
of_range ms ls s b val =
    if ltb ms ls
    then record {
      msb_lower = true;
      tristate = false;
      sign = s;
      base = b;
      low = replicate ms nvl;
      bits = replicate (ls - ms + 1) val;
    }
    else record {
      msb_lower = false;
      tristate = false;
      sign = s;
      base = b;
      low = replicate ls nvl;
      bits = replicate (ms - ls + 1) val;
    }

-- The copy constructor drops only the tristate flag.
unfoldable pub copy : BitVector → BitVector
copy v = record v { tristate = false }

-- `operator()(idx)`, the bit of a declared index; `dc` out of range.
unfoldable pub get_bit : BitVector → ℕ → Logic
get_bit v idx =
    if ltb idx (start_pos v) || leb (past_end v) idx
    then dc
    else if v.msb_lower
    then get_or (cells v) (past_end v - 1 - idx) dc
    else get_or (cells v) idx dc

-- `set_tristate`.
all_z : List Logic → Bool
all_z [] = true
all_z (z ∷ bs) = all_z bs
all_z (_ ∷ bs) = false

unfoldable pub set_tristate : BitVector → BitVector
unfolding all_z
set_tristate v = record v { tristate = all_z v.bits }

unfoldable pub clr_tristate : BitVector → BitVector
clr_tristate v = record v { tristate = false }
