-- ===== src/BitVector/Shift.antt =====
-- The shifts of src/common/bvector.cc.
use mathlib.Core.Option
use verilog_behavioral_simul.Base.{
  ◌||◌, ℕ, ◌+◌, ◌-◌, ◌%◌, ◌^◌, ◌==◌, Bool, Option, none, some, List, ◌++◌, length, take, drop,
  replicate, leb, ltb, if◌then◌else◌,
}
use verilog_behavioral_simul.Logic.{Logic, lo, dc}
use verilog_behavioral_simul.BitVector.{BitVector, size, start_pos}
use verilog_behavioral_simul.BitVector.Decimal.{word, to_decimal}

-- `c` bits of 0 and then as much of `src` as fits, in `n` bits.
unfoldable pub shift_up : ℕ → ℕ → List Logic → List Logic
shift_up n c src =
    if ltb c n
    then replicate c lo ++ (take (n - c) src ++ replicate (n - c - length src) lo)
    else replicate n lo

-- What stands from bit `c` of `src` on, in `n` bits.
unfoldable pub shift_down : ℕ → ℕ → List Logic → List Logic
shift_down n c src = let rest = drop c src in take n rest ++ replicate (n - length rest) lo

-- `start = c + _begin` is a signed number. Where it comes out negative or wraps round to lie in
-- front of the bits, the `memcpy` reaches outside of them, which is `none`.
abbrev pub starts_outside : ℕ → ℕ → Bool
starts_outside c first = let start = (c + first) % word in ltb start first || leb (2 ^ 63) start

unfoldable pub binary_lshf : BitVector → BitVector → BitVector → Option BitVector
unfolding shift_up to_decimal
binary_lshf res l r =
    let c = to_decimal r 0 in
    if size r == 0
    then none
    else if c.fail
    then some (record res { bits = replicate (size res) dc })
    else if starts_outside c.number (start_pos res)
    then none
    else some (record res { bits = shift_up (size res) c.number l.bits })

unfoldable pub binary_rshf : BitVector → BitVector → BitVector → Option BitVector
unfolding shift_down to_decimal
binary_rshf res l r =
    let c = to_decimal r 0 in
    if size r == 0
    then none
    else if c.fail
    then some (record res { bits = replicate (size res) dc })
    else if starts_outside c.number (start_pos l)
    then none
    else some (record res { bits = shift_down (size res) c.number l.bits })

-- `operator<<=`; the amount -1 makes the bits unknown.
unfoldable pub shift_left_by : BitVector → ℕ → BitVector
unfolding shift_up
shift_left_by v amt =
    if amt == word - 1
    then record v { bits = replicate (size v) dc }
    else record v { bits = shift_up (size v) amt v.bits }

-- `memset` of `n` cells from cell `i` on, of which `none` runs past the end.
unfoldable pub fill_cells : ℕ → ℕ → Logic → List Logic → Option (List Logic)
fill_cells i n b bs =
    if leb (i + n) (length bs) then some (take i bs ++ (replicate n b ++ drop (i + n) bs)) else none

-- `operator>>=`, with its `memmove` and then its `memset` from cell `amt + 1` on.
unfoldable pub shift_right_by : BitVector → ℕ → Option BitVector
unfolding fill_cells
shift_right_by v amt =
    if amt == word - 1
    then some (record v { bits = replicate (size v) dc })
    else if ltb amt (size v)
    then Option.map (λ bs. record v { bits = bs })
        (fill_cells (amt + 1) amt lo (drop amt v.bits ++ drop (size v - amt) v.bits))
    else some (record v { bits = replicate (size v) lo })
