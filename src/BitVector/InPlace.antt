-- ===== src/BitVector/InPlace.antt =====
-- The in-place sum and difference, and the complement, of src/common/bvector.cc as numbers.
use native.Mathlib.Nat.{add-zero, pow-suc}
use verilog_behavioral_simul.Base.{◌+◌, ◌^◌, ◌≤◌, ◌≡◌, refl, arith, false, List, [], ◌∷◌, length}
use verilog_behavioral_simul.Logic.{Logic, lo, hi, dc, z, nvl, above_hi, to_int}
use verilog_behavioral_simul.BitVector.Value.{
  bit_value, value, Known, to_int_lt, to_int-eq-bit_value, of_parity-known,
}
use verilog_behavioral_simul.BitVector.Arith.{cells_from, add_to_loop, sub_from_loop, inv_loop}
use verilog_behavioral_simul.BitVector.Sum.{Settles, Settles-nil, Settles-add, Settles-sub}

Settles-same : (ls : List Logic) → Known ls → Settles ls (value ls) 0 (cells_from ls)
Settles-same ls k = record {
  out = ls;
  returns = refl;
  same_length = refl;
  known = k;
  up = 0;
  down = 0;
  sum = omega arith;
}

add_carry-Settles :
    (ls : List Logic) (ci : Logic)
    → above_hi ci ≡ false
    → Known ls
    → Settles ls (value ls + bit_value ci) 0 (cells_from (add_to_loop ls [] ci))
unfolding add_to_loop
add_carry-Settles [] ci k kl = Settles-nil _ _
add_carry-Settles (l ∷ ls) lo k kl = rw add-zero (Settles-same (l ∷ ls) kl)
add_carry-Settles (l ∷ ls) hi k kl = rw kl.0 (
    Settles-add l ls (value ls) _ (1 + to_int l + 0) (omega (arith, to_int_lt l kl.0))
      (omega (arith, to_int-eq-bit_value l kl.0)) (add_carry-Settles ls _ (of_parity-known _) kl.1))
add_carry-Settles (l ∷ ls) dc k kl = cc
add_carry-Settles (l ∷ ls) z k kl = cc
add_carry-Settles (l ∷ ls) nvl k kl = cc

pub add_to_loop-Settles :
    (ls rs : List Logic) (ci : Logic)
    → above_hi ci ≡ false
    → Known ls
    → Known rs
    → Settles ls (value ls + value rs + bit_value ci) 0 (cells_from (add_to_loop ls rs ci))
unfolding add_to_loop
add_to_loop-Settles ls [] ci k kl kr = rw add-zero (add_carry-Settles ls ci k kl)
add_to_loop-Settles [] (r ∷ rs) ci k kl kr = Settles-nil _ _
add_to_loop-Settles (l ∷ ls) (r ∷ rs) ci k kl kr =
    unfold add_to_loop in
    rw (kr.0, kl.0)
      (Settles-add l ls (value ls + value rs) _ (to_int ci + to_int l + to_int r)
        (omega (arith, to_int_lt ci k, to_int_lt l kl.0, to_int_lt r kr.0))
        (omega
          (arith, to_int-eq-bit_value ci k, to_int-eq-bit_value l kl.0, to_int-eq-bit_value r kr.0))
        (add_to_loop-Settles ls rs _ (of_parity-known _) kl.1 kr.1))

pub sub_from_loop-Settles :
    (ls rs : List Logic) (bi : Logic)
    → above_hi bi ≡ false
    → Known ls
    → Known rs
    → Settles ls (value ls) (value rs + bit_value bi) (cells_from (sub_from_loop ls rs bi))
unfolding sub_from_loop
sub_from_loop-Settles [] rs bi k kl kr = Settles-nil _ _
sub_from_loop-Settles (l ∷ ls) [] bi k kl kr = rw kl.0 (
    Settles-sub l ls _ 0 l lo bi kl.0 refl k
      (sub_from_loop-Settles ls [] _ (of_parity-known _) kl.1 tt))
sub_from_loop-Settles (l ∷ ls) (r ∷ rs) bi k kl kr =
    rw (kr.0, kl.0)
      (Settles-sub l ls _ _ l r bi kl.0 kr.0 k
        (sub_from_loop-Settles ls rs _ (of_parity-known _) kl.1 kr.1))

-- The complement in as many bits as the result has is 2 ^ width - 1 less the operand.
pub inv_loop-value :
    (ds bs : List Logic)
    → Known bs
    → length bs ≤ length ds
    → (value (inv_loop ds bs) + value bs + 1 ≡ 2 ^ length ds)
      × Known (inv_loop ds bs)
      × (length (inv_loop ds bs) ≡ length ds)
unfolding inv_loop
inv_loop-value [] [] k h = (refl, tt, refl)
inv_loop-value [] (b ∷ bs) k h = absurd (omega arith)
inv_loop-value (d ∷ ds) [] k h =
    let (v, kn, len) = inv_loop-value ds [] tt (omega arith) in
    (rw pow-suc (omega (arith, v)), (refl, kn), omega (arith, len))
inv_loop-value (d ∷ ds) (lo ∷ bs) k h =
    let (v, kn, len) = inv_loop-value ds bs k.1 (omega arith) in
    (rw pow-suc (omega (arith, v)), (refl, kn), omega (arith, len))
inv_loop-value (d ∷ ds) (hi ∷ bs) k h =
    let (v, kn, len) = inv_loop-value ds bs k.1 (omega arith) in
    (rw pow-suc (omega (arith, v)), (refl, kn), omega (arith, len))
inv_loop-value (d ∷ ds) (dc ∷ bs) k h = cc
inv_loop-value (d ∷ ds) (z ∷ bs) k h = cc
inv_loop-value (d ∷ ds) (nvl ∷ bs) k h = cc
