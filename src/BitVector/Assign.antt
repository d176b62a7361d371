-- ===== src/BitVector/Assign.antt =====
-- `operator=` of src/common/bvector.h: truncation, and extension by zeros or by the sign.
use verilog_behavioral_simul.Base.{
  ℕ, ◌-◌, ◌==◌, Bool, ◌++◌, List, length, get_or, take, replicate, ltb, if◌then◌else◌,
}
use verilog_behavioral_simul.Logic.{Logic, lo, dc}
use verilog_behavioral_simul.BitVector.{BitVector, size, is_signed, take_sign}

-- The `memcpy` and `memset` into a target of `n` bits. `dst[i - 1]` is the last bit just copied.
unfoldable pub fit_bits : ℕ → Bool → List Logic → List Logic
fit_bits n extend src =
    if ltb (length src) n
    then src ++ replicate (n - length src) (if extend then get_or src (length src - 1) dc else lo)
    else take n src

-- `operator=(const bit_vector &)`: from or to an empty vector, and the ordinary case.
unfoldable pub assign : BitVector → BitVector → BitVector
unfolding fit_bits
assign v bv =
    if size bv == 0
    then v
    else if size v == 0
    then record v { msb_lower = bv.msb_lower; sign = bv.sign; low = bv.low; bits = bv.bits }
    else record v {
      sign = take_sign v.sign bv.sign;
      bits = fit_bits (size v) (is_signed bv.sign) bv.bits;
    }
