-- ===== src/BitVector/Arith.antt =====
-- Addition, subtraction and complement of src/common/bvector.cc. A loop that walks the result and
-- both operands in step is a recursion on what is left of the three.
use verilog_behavioral_simul.Base.{
  ℕ, suc, ◌+◌, ◌-◌, ◌/◌, ◌%◌, Bool, true, false, Option, none, some, List, [], ◌∷◌, ◌||◌, length,
  replicate, ltb, if◌then◌else◌,
}
use verilog_behavioral_simul.Logic.{Logic, lo, hi, dc, above_hi, to_int, of_parity, logic_inv}
use verilog_behavioral_simul.BitVector.{
  BitVector, SignedType, unsigned, signed, past_end, size, is_signed, take_sign, of_bit,
}

-- How a loop over the result ends: with the cells from its start on, by the reset of the whole
-- result after an unknown bit, or in a `memcpy` past the end of the result's array.
pub data Sweep : Type 0 where
  cells_from : List Logic → Sweep
  unknown overrun : Sweep

abbrev pub put_cell : Logic → Sweep → Sweep
put_cell b (cells_from bs) = cells_from (b ∷ bs)
put_cell b unknown = unknown
put_cell b overrun = overrun

-- `memcpy` of all of `src` to the start of `dst`.
unfoldable pub copy_over : List Logic → List Logic → Sweep
copy_over ds [] = cells_from ds
copy_over [] (s ∷ ss) = overrun
copy_over (d ∷ ds) (s ∷ ss) = put_cell s (copy_over ds ss)

-- `if (a._end > b._end) memcpy(…, rest of a) else memset(…, LO)`, where `longer` is the test. When
-- the loop is past the end of `a`, the size of the rest is negative, and as a `size_t` reaches
-- out of every array.
unfoldable pub finish : Bool → Bool → List Logic → List Logic → Sweep
unfolding copy_over
finish false past ds rest = cells_from (replicate (length ds) lo)
finish true false ds rest = copy_over ds rest
finish true true ds rest = overrun

-- The loop of `binary_add`. `lr` and `rl` are `l._end > r._end` and `r._end > l._end`, and `past`
-- tells whether `li > l._end + 1`.
unfoldable pub add_loop : Bool → Bool → Bool → List Logic → List Logic → List Logic → Logic → Sweep
unfolding finish of_parity
add_loop past lr rl [] ls rs ci = cells_from []
add_loop past lr rl (d ∷ ds) [] [] ci =
    let pad = to_int ci + to_int lo + to_int lo in
    let rest = add_loop true lr rl ds [] [] (of_parity (pad / 2)) in
    elim ci [ lo ↦ finish lr past (d ∷ ds) [] | _ ↦ put_cell (of_parity pad) rest ]
add_loop past lr rl (d ∷ ds) (l ∷ ls) [] ci =
    let pad = to_int ci + to_int l + to_int lo in
    let rest = add_loop false lr rl ds ls [] (of_parity (pad / 2)) in
    elim ci [
      | lo ↦ finish lr false (d ∷ ds) (l ∷ ls)
      | _ ↦ if above_hi l then unknown else put_cell (of_parity pad) rest
    ]
add_loop past lr rl (d ∷ ds) [] (r ∷ rs) ci =
    let pad = to_int ci + to_int lo + to_int r in
    let rest = add_loop true lr rl ds [] rs (of_parity (pad / 2)) in
    if above_hi r
    then unknown
    else elim ci [ lo ↦ finish rl false (d ∷ ds) (r ∷ rs) | _ ↦ put_cell (of_parity pad) rest ]
add_loop past lr rl (d ∷ ds) (l ∷ ls) (r ∷ rs) ci =
    let pad = to_int ci + to_int l + to_int r in
    let rest = add_loop false lr rl ds ls rs (of_parity (pad / 2)) in
    if above_hi r || above_hi l then unknown else put_cell (of_parity pad) rest

-- The result object after a loop: `none` is a write past the end of its array.
unfoldable pub settle : BitVector → SignedType → Sweep → Option BitVector
settle res s (cells_from bs) = some (record res { bits = bs; sign = take_sign res.sign s })
settle res s unknown =
    some (record res { bits = replicate (size res) dc; sign = take_sign res.sign s })
settle res s overrun = none

-- The sign that a result takes from two operands if it has none of its own.
abbrev pub joint_sign : BitVector → BitVector → SignedType
joint_sign l r = if is_signed l.sign || is_signed r.sign then signed else unsigned

unfoldable pub binary_add : BitVector → BitVector → BitVector → Option BitVector
unfolding add_loop settle
binary_add res l r = settle res (joint_sign l r) (
    add_loop false (ltb (past_end r) (past_end l)) (ltb (past_end l) (past_end r)) res.bits l.bits
      r.bits lo)

-- `pad = (L - R - Bi) & 3`, with 4 added first since `-` stops at 0.
abbrev pub borrow_pad : Logic → Logic → Logic → ℕ
borrow_pad l r bi = (4 + to_int l - to_int r - to_int bi) % 4

-- The loop of `binary_sub`. An operand that has ended reads as 0.
unfoldable pub sub_loop : List Logic → List Logic → List Logic → Logic → Sweep
unfolding of_parity
sub_loop [] ls rs bi = cells_from []
sub_loop (d ∷ ds) [] [] bi =
    let pad = borrow_pad lo lo bi in
    put_cell (of_parity pad) (sub_loop ds [] [] (of_parity (pad / 2)))
sub_loop (d ∷ ds) (l ∷ ls) [] bi =
    let pad = borrow_pad l lo bi in
    let rest = sub_loop ds ls [] (of_parity (pad / 2)) in
    if above_hi l then unknown else put_cell (of_parity pad) rest
sub_loop (d ∷ ds) [] (r ∷ rs) bi =
    let pad = borrow_pad lo r bi in
    let rest = sub_loop ds [] rs (of_parity (pad / 2)) in
    if above_hi r then unknown else put_cell (of_parity pad) rest
sub_loop (d ∷ ds) (l ∷ ls) (r ∷ rs) bi =
    let pad = borrow_pad l r bi in
    let rest = sub_loop ds ls rs (of_parity (pad / 2)) in
    if above_hi r || above_hi l then unknown else put_cell (of_parity pad) rest

unfoldable pub binary_sub : BitVector → BitVector → BitVector → Option BitVector
unfolding sub_loop settle
binary_sub res l r = settle res (joint_sign l r) (sub_loop res.bits l.bits r.bits lo)

-- The loop of `operator+=`, in place. An unknown bit makes the rest unknown, and what stands
-- before it stays.
unfoldable pub add_to_loop : List Logic → List Logic → Logic → List Logic
unfolding of_parity
add_to_loop [] rs ci = []
add_to_loop (l ∷ ls) [] ci =
    let pad = to_int ci + to_int l + to_int lo in
    let rest = add_to_loop ls [] (of_parity (pad / 2)) in
    elim ci [
      | lo ↦ l ∷ ls
      | _ ↦ if above_hi l then replicate (suc (length ls)) dc else of_parity pad ∷ rest
    ]
add_to_loop (l ∷ ls) (r ∷ rs) ci =
    let pad = to_int ci + to_int l + to_int r in
    let rest = add_to_loop ls rs (of_parity (pad / 2)) in
    if above_hi r || above_hi l then replicate (suc (length ls)) dc else of_parity pad ∷ rest

-- `operator+=`.
unfoldable pub add_to : BitVector → BitVector → BitVector
unfolding add_to_loop
add_to v bv = record v { bits = add_to_loop v.bits bv.bits lo }

unfoldable pub sub_from_loop : List Logic → List Logic → Logic → List Logic
unfolding of_parity
sub_from_loop [] rs bi = []
sub_from_loop (l ∷ ls) [] bi =
    let pad = borrow_pad l lo bi in
    let rest = sub_from_loop ls [] (of_parity (pad / 2)) in
    if above_hi l then replicate (suc (length ls)) dc else of_parity pad ∷ rest
sub_from_loop (l ∷ ls) (r ∷ rs) bi =
    let pad = borrow_pad l r bi in
    let rest = sub_from_loop ls rs (of_parity (pad / 2)) in
    if above_hi r || above_hi l then replicate (suc (length ls)) dc else of_parity pad ∷ rest

-- `operator-=`.
unfoldable pub sub_from : BitVector → BitVector → BitVector
unfolding sub_from_loop
sub_from v bv = record v { bits = sub_from_loop v.bits bv.bits lo }

-- `unary_inv`: where the result is longer, its upper bits are `~LO`.
unfoldable pub inv_loop : List Logic → List Logic → List Logic
unfolding logic_inv
inv_loop [] bs = []
inv_loop (d ∷ ds) [] = logic_inv lo ∷ inv_loop ds []
inv_loop (d ∷ ds) (b ∷ bs) = logic_inv b ∷ inv_loop ds bs

unfoldable pub unary_inv : BitVector → BitVector → BitVector
unfolding inv_loop
unary_inv res bv = record res { bits = inv_loop res.bits bv.bits }

unfoldable pub unary_neg : BitVector → BitVector → BitVector
unfolding unary_inv add_to of_bit
unary_neg res bv = add_to (unary_inv res bv) (of_bit hi)
