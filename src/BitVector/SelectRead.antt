-- ===== src/BitVector/SelectRead.antt =====
-- A part select of src/common/bvector.h, read back after it was assigned.
use verilog_behavioral_simul.BitVector.Value.{value-lt, value, Known}
use verilog_behavioral_simul.Base.{
  not_le→leb, pos→ne_zero, length-take, lt→ltb, length-append, not_lt→ltb, dec_lt, ℕ, ◌+◌, ◌%◌, ◌^◌,
  ◌≤◌, ◌<◌, ◌≡◌, refl, arith, ap, ◌∙◌, sym, false, some, List, ◌++◌, length, take, drop, pos,
}
use verilog_behavioral_simul.BitVector.Select.{outside, read, write_selected, assign_selected}
use verilog_behavioral_simul.BitVector.{
  is_signed, BitVector, SignedType, cells, start_pos, past_end, size,
}
use native.Mathlib.Nat.{mod-eq_of_lt, lt_of_lt_of_le, pow-le-pow_right}
use verilog_behavioral_simul.BitVector.Slices.{value-pad_lo, value-take}
use verilog_behavioral_simul.Logic.{Logic}
use verilog_behavioral_simul.BitVector.Assign.{fit_bits}
use verilog_behavioral_simul.BitVector.SelectWrite.{
  Used, length-fit_bits, read-append, write_selected-cells, Used-Known, fit_bits-same,
}

-- Reading a part select that lies inside the vector into a vector of its width.
assign_selected-inside :
    (w v : BitVector) (f n : ℕ) (ys : List Logic)
    → size w ≡ n
    → 0 < n
    → start_pos v ≤ f
    → f + n ≤ past_end v
    → length ys ≡ n
    → read (cells v) (pos f) n ≡ some ys
    → (w' : BitVector) × (assign_selected w v (record { first = pos f; count = n }) ≡ some w')
      × (w'.bits ≡ ys)
unfolding assign_selected outside
assign_selected-inside w v f n ys ew pn hs he ey er =
    rw
      (
        ew,
        pos→ne_zero n pn,
        not_lt→ltb n n (omega arith),
        not_le→leb (past_end v) f (omega arith),
        not_le→leb (f + n) (start_pos v) (omega arith),
        er,
      )
      (_, refl, fit_bits-same (size w) (is_signed v.sign) ys (omega arith))

-- What a part-select assignment of `n` cells from cell `f` has to do: exactly these cells change,
-- to the source truncated or extended by zeros, none past the array is written, and reading the
-- same part select back into any vector of its width gives the source's number modulo 2 ^ n.
abbrev pub Writes : BitVector → ℕ → ℕ → List Logic → SignedType → BitVector → Type 0
Writes v f n src s w =
    (v' : BitVector) × (write_selected v (record { first = pos f; count = n }) src s ≡ some (v', 0))
    × (cells v' ≡ take f (cells v) ++ (fit_bits n false src ++ drop (f + n) (cells v)))
    × (w' : BitVector) × (assign_selected w v' (record { first = pos f; count = n }) ≡ some w')
    × (value w'.bits ≡ value src % 2 ^ n)

value-fit_zeros : (n : ℕ) (src : List Logic) → value (fit_bits n false src) ≡ value src % 2 ^ n
unfolding fit_bits
value-fit_zeros n src = elim (dec_lt (length src) n) [
  | yes short ↦
      rw (lt→ltb _ _ short, value-pad_lo)
        (sym (
          mod-eq_of_lt
            (lt_of_lt_of_le (value-lt src) (pow-le-pow_right (omega arith) (omega arith)))))
  | no long ↦ rw (not_lt→ltb (length src) n (omega arith)) (value-take n src)
]

-- Assigning known bits to a part select that lies inside a vector, all of whose selected cells
-- are in use, changes exactly the selected cells, and reading the part select back gives the
-- number that was assigned, modulo 2 ^ its width.
pub write_selected-assign_selected :
    (v w : BitVector) (f n : ℕ) (src : List Logic) (s : SignedType)
    → size w ≡ n
    → 0 < n
    → start_pos v ≤ f
    → f + n ≤ past_end v
    → Used (take n (drop f (cells v)))
    → Known src
    → Writes v f n src s w
write_selected-assign_selected v w f n src s ew pn hs he u k =
    let (v', wr, cs, st, sz) = write_selected-cells v f n src s he u (Used-Known src k) in
    let (w', rd, bs) =
      assign_selected-inside w v' f n (fit_bits n false src) ew pn (omega arith) (omega arith)
        (length-fit_bits n false src)
        (rw cs (
          read-append (take f (cells v)) (fit_bits n false src) (drop (f + n) (cells v)) f n
            (rw (length-take, length-append) (omega arith)) (length-fit_bits n false src))) in
    (v', wr, cs, w', rd, ap value bs ∙ value-fit_zeros n src)
