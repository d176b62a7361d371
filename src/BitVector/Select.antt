-- ===== src/BitVector/Select.antt =====
-- Part selects: `sub_bit_vector` and `const_sub_bit_vector` of src/common/bvector.h, which are a
-- vector and a span of its cells. Positions are signed there, and so they are here. An access to
-- a cell outside `_bits` is undefined: the operations then return `none`.
use verilog_behavioral_simul.Base.{
  ℕ, zero, suc, ◌+◌, ◌-◌, ◌==◌, Bool, not, ◌&&◌, ◌||◌, Option, none, some, List, [], ◌∷◌, ◌++◌,
  length, take, drop, replicate, ltb, leb, if◌then◌else◌, ℤ, pos, negsuc, is_neg, geq, gap, minus,
}
use verilog_behavioral_simul.Logic.{Logic, lo, dc, nvl}
use verilog_behavioral_simul.BitVector.{
  BitVector, SignedType, cells, start_pos, past_end, size, is_signed, take_sign,
}
use verilog_behavioral_simul.BitVector.Assign.{fit_bits}

-- `_begin` and `_size`. `_end` is one less than their sum.
pub record Span : Type 0 where
  pub first : ℤ
  pub count : ℕ

-- The part of both constructors that follows the declared direction. With the indices in the
-- other order neither branch sets `_begin` and `_end`, which is `none`.
unfoldable pub select_ordered : BitVector → ℤ → ℤ → Option Span
select_ordered v ms ls =
    if not v.msb_lower && geq ms ls
    then some (record { first = ls; count = suc (gap ms ls) })
    else if v.msb_lower && geq ls ms
    then some (record { first = minus (past_end v - 1 + start_pos v) ls; count = suc (gap ls ms) })
    else none

-- `sub_bit_vector(bv, ms, ls)`, and `const_sub_bit_vector(bv, ms, ls)`, which has no test of the
-- signs.
unfoldable pub select : BitVector → ℤ → ℤ → Option Span
unfolding select_ordered
select v ms ls =
    if is_neg ms || is_neg ls
    then some (record { first = pos 1; count = 0 })
    else select_ordered v ms ls

unfoldable pub select_const : BitVector → ℤ → ℤ → Option Span
unfolding select_ordered
select_const v ms ls = select_ordered v ms ls

-- `n` cells from a position on, as a `memcpy` reads them.
unfoldable pub read : List Logic → ℤ → ℕ → Option (List Logic)
read xs (pos f) n = if leb (f + n) (length xs) then some (take n (drop f xs)) else none
read xs (negsuc f) n = if n == 0 then some [] else none

-- `_begin > _BV._end || _end < _BV._begin`.
unfoldable pub outside : BitVector → Span → Bool
outside v sp = geq sp.first (pos (past_end v)) || elim sp.first [
  | pos f ↦ leb (f + sp.count) (start_pos v)
  | negsuc f ↦ leb sp.count (start_pos v + suc f)
]

-- `bit_vector::operator=` from a part select of `bv`.
unfoldable pub assign_selected : BitVector → BitVector → Span → Option BitVector
unfolding read outside fit_bits
assign_selected v bv sp =
    let m = if ltb sp.count (size v) then sp.count else size v in
    let sgn = take_sign v.sign bv.sign in
    if sp.count == 0
    then some v
    else if size v == 0
    then elim sp.first [
      | negsuc f ↦ none
      | pos f ↦ elim (read (cells bv) (pos 0) (f + sp.count)) [
        | none ↦ none
        | some xs ↦ some (record v {
          msb_lower = bv.msb_lower;
          sign = bv.sign;
          low = take f xs;
          bits = drop f xs;
        })
      ]
    ]
    else if outside bv sp
    then some (record v { sign = sgn; bits = replicate (size v) dc })
    else elim (read (cells bv) sp.first m) [
      | none ↦ none
      | some src ↦ some (record v { sign = sgn; bits = fit_bits (size v) (is_signed bv.sign) src })
    ]

-- What a write leaves: the cells, and how many cells past `_bits` it has cleared.
pub record Written : Type 0 where
  pub cells : List Logic
  pub overrun : ℕ

-- One cell: an unused one stays as it is, and is not copied either.
unfoldable pub overwrite : Logic → Logic → Logic
overwrite nvl s = nvl
overwrite _ nvl = dc
overwrite _ s = s

-- The loop of `sub_bit_vector::operator=` and the `memset` after it: the cells from the current
-- one to the vector's last, how many of them are selected, and the source.
unfoldable pub write_loop : List Logic → ℕ → List Logic → Written
unfolding overwrite
write_loop [] n src = record { cells = []; overrun = 0 }
write_loop (c ∷ cs) zero src = record { cells = c ∷ cs; overrun = 0 }
write_loop (c ∷ cs) (suc n) [] = record {
  cells = replicate (suc n) lo ++ drop (suc n) (c ∷ cs);
  overrun = suc n - length (c ∷ cs);
}
write_loop (c ∷ cs) (suc n) (s ∷ src) =
    let rest = write_loop cs n src in record rest { cells = overwrite c s ∷ rest.cells }

-- `sub_bit_vector::operator=`, for the source's cells and sign: a whole vector's, or those that
-- another part select reads.
unfoldable pub write_selected : BitVector → Span → List Logic → SignedType → Option (BitVector × ℕ)
unfolding write_loop
write_selected v sp src s = elim sp.first [
  | negsuc f ↦ if sp.count == 0 then some (record v { sign = take_sign v.sign s }, 0) else none
  | pos f ↦
      let w = write_loop (drop f (cells v)) sp.count src in
      let xs = take f (cells v) ++ take (length (cells v) - f) w.cells in
      some (
        record v {
          sign = take_sign v.sign s;
          low = take (start_pos v) xs;
          bits = drop (start_pos v) xs;
        },
        w.overrun,
      )
]
