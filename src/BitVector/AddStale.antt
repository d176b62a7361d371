-- ===== src/BitVector/AddStale.antt =====
-- `binary_add` of src/common/bvector.cc into a result that is wider than its operands.
use verilog_behavioral_simul.Base.{
  false, ℕ, zero, suc, ◌≤◌, ◌<◌, ◌≡◌, refl, arith, ap, Bool, true, some, List, [], ◌∷◌, ◌++◌,
  length, drop, replicate, lt→ltb, length-replicate,
}
use verilog_behavioral_simul.Logic.{Logic, lo, hi, dc, z, nvl, of_parity}
use verilog_behavioral_simul.BitVector.{BitVector, size, start_pos, past_end}
use verilog_behavioral_simul.BitVector.Value.{Known}
use verilog_behavioral_simul.BitVector.Arith.{
  cells_from, put_cell, copy_over, finish, add_loop, settle, binary_add,
}

copy_over-fits :
    (ds ss : List Logic)
    → length ss ≤ length ds
    → copy_over ds ss ≡ cells_from (ss ++ drop (length ss) ds)
unfolding copy_over
copy_over-fits ds [] h = refl
copy_over-fits [] (s ∷ ss) h = absurd (omega arith)
copy_over-fits (d ∷ ds) (s ∷ ss) h = rw (copy_over-fits ds ss (omega arith)) refl

-- Adding zeros that end before the other operand copies that operand, and no more.
add_loop-zeros :
    (past rl : Bool) (ds ls : List Logic) (k : ℕ)
    → Known ls
    → k < length ls
    → length ls ≤ length ds
    → add_loop past true rl ds ls (replicate k lo) lo ≡ cells_from (ls ++ drop (length ls) ds)
unfolding add_loop finish of_parity
add_loop-zeros past rl [] [] k kn h m = absurd (omega arith)
add_loop-zeros past rl [] (l ∷ ls) k kn h m = absurd (omega arith)
add_loop-zeros past rl (d ∷ ds) [] k kn h m = absurd (omega arith)
add_loop-zeros past rl (d ∷ ds) (l ∷ ls) zero kn h m = copy_over-fits (d ∷ ds) (l ∷ ls) m
add_loop-zeros past rl (d ∷ ds) (lo ∷ ls) (suc k) kn h m =
    ap (put_cell lo) (add_loop-zeros false rl ds ls k kn.1 (omega arith) (omega arith))
add_loop-zeros past rl (d ∷ ds) (hi ∷ ls) (suc k) kn h m =
    ap (put_cell hi) (add_loop-zeros false rl ds ls k kn.1 (omega arith) (omega arith))
add_loop-zeros past rl (d ∷ ds) (dc ∷ ls) (suc k) kn h m = cc
add_loop-zeros past rl (d ∷ ds) (z ∷ ls) (suc k) kn h m = cc
add_loop-zeros past rl (d ∷ ds) (nvl ∷ ls) (suc k) kn h m = cc

-- `binary_add` of known bits and of a zero of fewer bits, into a result that is wider than both,
-- sets as many bits as the wider operand has, and leaves all bits of the result above these as
-- they were: the result stands for the sum only if these were 0.
pub binary_add-stale :
    (res l r : BitVector) (k : ℕ)
    → Known l.bits
    → r.bits ≡ replicate k lo
    → k < size l
    → size l < size res
    → start_pos l ≡ start_pos r
    → (out : BitVector) × (binary_add res l r ≡ some out)
      × (out.bits ≡ l.bits ++ drop (size l) res.bits)
unfolding binary_add settle
binary_add-stale res l r k kn e h m s =
    rw
      (
        binary_add,
        lt→ltb (past_end r) (past_end l) (rw (e, length-replicate) (omega arith)),
        e,
        add_loop-zeros false _ res.bits l.bits k kn h (omega arith),
      )
      (_, refl, refl)
