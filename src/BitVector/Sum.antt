-- ===== src/BitVector/Sum.antt =====
-- What the loops of addition and subtraction in src/common/bvector.cc compute, as numbers.
use verilog_behavioral_simul.Base.{
  subst, sym, ℕ, suc, ◌+◌, ◌*◌, ◌/◌, ◌%◌, ◌^◌, ◌≤◌, ◌<◌, ◌≡◌, refl, arith, Bool, true, false, ap,
  List, [], ◌∷◌, length, replicate, length-replicate,
}
use native.Mathlib.Nat.{pow-suc, zero-add, add-zero}
use verilog_behavioral_simul.Logic.{Logic, lo, hi, dc, z, nvl, above_hi, to_int, of_parity}
use verilog_behavioral_simul.BitVector.Value.{
  bit_value, value, Known, value-lt, mod_unique, mod_congruent, to_int_lt, to_int-eq-bit_value,
  of_parity-known, bit_value-of_parity, Known-replicate, value-replicate,
}
use verilog_behavioral_simul.BitVector.Arith.{
  Sweep, cells_from, put_cell, copy_over, add_loop, sub_loop, borrow_pad,
}

-- The loop over the result cells `ds` returns known bits whose number is `plus - minus` modulo
-- 2 ^ length ds.
pub record Settles (ds : List Logic) (plus minus : ℕ) (s : Sweep) : Type 0 where
  pub out : List Logic
  pub returns : s ≡ cells_from out
  pub same_length : length out ≡ length ds
  pub known : Known out
  pub up : ℕ
  pub down : ℕ
  pub sum : value out + minus + 2 ^ length ds * up ≡ plus + 2 ^ length ds * down

-- What a loop leaves, with nothing to take off, is `p` modulo 2 ^ width.
pub Settles-value :
    {ds : List Logic} {p : ℕ} {s : Sweep} (t : Settles ds p 0 s) → value t.out ≡ p % 2 ^ length ds
Settles-value {ds} {p} t =
    mod_unique (2 ^ length ds) (value t.out) p t.up t.down (rw (sym t.same_length) (value-lt t.out))
      (omega (arith, t.sum))

cells_from-injective : {xs ys : List Logic} → cells_from xs ≡ cells_from ys → ys ≡ xs
cells_from-injective e = cc

-- The same of cells that are at hand.
pub Settles-cells :
    {ds : List Logic} {p m : ℕ} {xs : List Logic}
    → Settles ds p m (cells_from xs)
    → ((value xs + m) % 2 ^ length ds ≡ p % 2 ^ length ds) × Known xs × (length xs ≡ length ds)
Settles-cells {ds} {p} {m} {xs} t =
    subst
      (λ ys.
        ((value ys + m) % 2 ^ length ds ≡ p % 2 ^ length ds) × Known ys × (length ys ≡ length ds))
      (cells_from-injective t.returns)
      (mod_congruent (2 ^ length ds) (value t.out + m) p t.up t.down t.sum, t.known, t.same_length)

pub Settles-put :
    (d b : Logic) (ds : List Logic) (p m p' m' : ℕ) {s : Sweep}
    → above_hi b ≡ false
    → bit_value b + 2 * p + m' ≡ p' + 2 * m
    → Settles ds p m s
    → Settles (d ∷ ds) p' m' (put_cell b s)
Settles-put d b ds p m p' m' known_b e t = record {
  out = b ∷ t.out;
  returns = ap (put_cell b) t.returns;
  same_length = ap suc t.same_length;
  known = (known_b, t.known);
  up = t.up;
  down = t.down;
  sum = rw (pow-suc 2 (length ds)) (omega (arith, t.sum));
}

-- A loop that ends at the end of the result.
pub Settles-nil : (p m : ℕ) → Settles [] p m (cells_from [])
Settles-nil p m = record {
  out = [];
  returns = refl;
  same_length = refl;
  known = tt;
  up = p;
  down = m;
  sum = omega arith;
}

Settles-zero : (ds : List Logic) → Settles ds 0 0 (cells_from (replicate (length ds) lo))
Settles-zero ds = record {
  out = replicate (length ds) lo;
  returns = refl;
  same_length = length-replicate (length ds) lo;
  known = Known-replicate (length ds);
  up = 0;
  down = 0;
  sum = omega (arith, value-replicate (length ds));
}

Settles-copy :
    (ds ls : List Logic)
    → length ls ≡ length ds
    → Known ls
    → Settles ds (value ls) 0 (copy_over ds ls)
unfolding copy_over
Settles-copy [] [] e k = Settles-nil 0 0
Settles-copy [] (l ∷ ls) e k = absurd (omega arith)
Settles-copy (d ∷ ds) [] e k = absurd (omega arith)
Settles-copy (d ∷ ds) (l ∷ ls) e k =
    Settles-put d l ds (value ls) 0 (value (l ∷ ls)) 0 k.0 (omega arith)
      (Settles-copy ds ls (omega arith) k.1)

-- One round of addition.
pub Settles-add :
    (d : Logic) (ds : List Logic) (p m : ℕ) {s : Sweep} (pad : ℕ)
    → pad ≤ 3
    → m ≡ p + p + pad
    → Settles ds (p + bit_value (of_parity (pad / 2))) 0 s
    → Settles (d ∷ ds) m 0 (put_cell (of_parity pad) s)
Settles-add d ds p m pad h e t =
    Settles-put d (of_parity pad) ds (p + bit_value (of_parity (pad / 2))) 0 m 0
      (of_parity-known pad) (omega (arith, bit_value-of_parity pad, bit_value-of_parity (pad / 2)))
      t

-- Where one operand has ended and nothing is carried, `memcpy` of the other must reach exactly the
-- end of the result, or nothing may be left to copy.
abbrev Tail : Bool → List Logic → List Logic → List Logic → Type 0
Tail flag ds longer shorter =
    length shorter < length longer → (flag ≡ true) × (length longer ≡ length ds)

-- Where both have ended and the result goes on, it is cleared.
abbrev Even : Bool → List Logic → List Logic → List Logic → Type 0
Even flag ds ls rs = length ls ≡ length rs → length ls < length ds → flag ≡ false

add_none-Settles :
    (past lr rl : Bool) (ds : List Logic) (ci : Logic)
    → above_hi ci ≡ false
    → (0 < length ds → lr ≡ false)
    → Settles ds (bit_value ci) 0 (add_loop past lr rl ds [] [] ci)
unfolding add_loop
add_none-Settles past lr rl [] ci k e = Settles-nil _ _
add_none-Settles past lr rl (d ∷ ds) lo k e = rw (e (omega arith)) (Settles-zero (d ∷ ds))
add_none-Settles past lr rl (d ∷ ds) hi k e =
    Settles-add d ds 0 1 1 (omega arith) (omega arith)
      (add_none-Settles true lr rl ds lo refl (λ q. e (omega arith)))
add_none-Settles past lr rl (d ∷ ds) dc k e = cc
add_none-Settles past lr rl (d ∷ ds) z k e = cc
add_none-Settles past lr rl (d ∷ ds) nvl k e = cc

add_left-Settles :
    (past lr rl : Bool) (ds ls : List Logic) (ci : Logic)
    → above_hi ci ≡ false
    → Known ls
    → Tail lr ds ls []
    → Even lr ds ls []
    → Settles ds (value ls + bit_value ci) 0 (add_loop past lr rl ds ls [] ci)
unfolding add_loop
add_left-Settles past lr rl ds [] ci k kl t e =
    rw zero-add (add_none-Settles past lr rl ds ci k (λ q. e refl q))
add_left-Settles past lr rl [] (l ∷ ls) ci k kl t e = Settles-nil _ _
add_left-Settles past lr rl (d ∷ ds) (l ∷ ls) lo k kl t e =
    let (long, fits) = t (omega arith) in
    rw (long, add-zero) (Settles-copy (d ∷ ds) (l ∷ ls) fits kl)
add_left-Settles past lr rl (d ∷ ds) (l ∷ ls) hi k kl t e =
    let (long, fits) = t (omega arith) in
    rw kl.0 (
      Settles-add d ds (value ls) _ (1 + to_int l + 0) (omega (arith, to_int_lt l kl.0))
        (omega (arith, to_int-eq-bit_value l kl.0))
        (add_left-Settles false lr rl ds ls _ (of_parity-known _) kl.1
          (λ q. (long, omega (arith, fits))) (λ q r. absurd (omega (arith, fits)))))
add_left-Settles past lr rl (d ∷ ds) (l ∷ ls) dc k kl t e = cc
add_left-Settles past lr rl (d ∷ ds) (l ∷ ls) z k kl t e = cc
add_left-Settles past lr rl (d ∷ ds) (l ∷ ls) nvl k kl t e = cc

add_right-Settles :
    (past lr rl : Bool) (ds rs : List Logic) (ci : Logic)
    → above_hi ci ≡ false
    → Known rs
    → Tail rl ds rs []
    → Even lr ds [] rs
    → Settles ds (value rs + bit_value ci) 0 (add_loop past lr rl ds [] rs ci)
unfolding add_loop
add_right-Settles past lr rl ds [] ci k kr t e =
    rw zero-add (add_none-Settles past lr rl ds ci k (λ q. e refl q))
add_right-Settles past lr rl [] (r ∷ rs) ci k kr t e = Settles-nil _ _
add_right-Settles past lr rl (d ∷ ds) (r ∷ rs) lo k kr t e =
    let (long, fits) = t (omega arith) in
    rw (kr.0, long, add-zero) (Settles-copy (d ∷ ds) (r ∷ rs) fits kr)
add_right-Settles past lr rl (d ∷ ds) (r ∷ rs) hi k kr t e =
    let (long, fits) = t (omega arith) in
    rw kr.0 (
      Settles-add d ds (value rs) _ (1 + 0 + to_int r) (omega (arith, to_int_lt r kr.0))
        (omega (arith, to_int-eq-bit_value r kr.0))
        (add_right-Settles true lr rl ds rs _ (of_parity-known _) kr.1
          (λ q. (long, omega (arith, fits))) (λ q p. absurd (omega (arith, fits)))))
add_right-Settles past lr rl (d ∷ ds) (r ∷ rs) dc k kr t e = cc
add_right-Settles past lr rl (d ∷ ds) (r ∷ rs) z k kr t e = cc
add_right-Settles past lr rl (d ∷ ds) (r ∷ rs) nvl k kr t e = cc

pub add_loop-Settles :
    (past lr rl : Bool) (ds ls rs : List Logic) (ci : Logic)
    → above_hi ci ≡ false
    → Known ls
    → Known rs
    → Tail lr ds ls rs
    → Tail rl ds rs ls
    → Even lr ds ls rs
    → Settles ds (value ls + value rs + bit_value ci) 0 (add_loop past lr rl ds ls rs ci)
unfolding add_loop
add_loop-Settles past lr rl ds [] rs ci k kl kr t u e =
    rw zero-add (add_right-Settles past lr rl ds rs ci k kr u e)
add_loop-Settles past lr rl ds (l ∷ ls) [] ci k kl kr t u e =
    rw add-zero (add_left-Settles past lr rl ds (l ∷ ls) ci k kl t e)
add_loop-Settles past lr rl [] (l ∷ ls) (r ∷ rs) ci k kl kr t u e = Settles-nil _ _
add_loop-Settles past lr rl (d ∷ ds) (l ∷ ls) (r ∷ rs) ci k kl kr t u e =
    unfold add_loop in
    rw (kr.0, kl.0)
      (Settles-add d ds (value ls + value rs) _ (to_int ci + to_int l + to_int r)
        (omega (arith, to_int_lt ci k, to_int_lt l kl.0, to_int_lt r kr.0))
        (omega
          (arith, to_int-eq-bit_value ci k, to_int-eq-bit_value l kl.0, to_int-eq-bit_value r kr.0))
        (add_loop-Settles false lr rl ds ls rs _ (of_parity-known _) kl.1 kr.1
          (λ q. let (long, fits) = t (omega arith) in (long, omega (arith, fits)))
          (λ q. let (long, fits) = u (omega arith) in (long, omega (arith, fits)))
          (λ q p. e (omega arith) (omega arith))))

-- One round of subtraction: the borrow and the bit taken from it.
borrow_round :
    (l r bi : Logic)
    → above_hi l ≡ false
    → above_hi r ≡ false
    → above_hi bi ≡ false
    → bit_value (of_parity (borrow_pad l r bi)) + bit_value r + bit_value bi
      ≡ bit_value l + 2 * bit_value (of_parity (borrow_pad l r bi / 2))
unfolding of_parity
borrow_round l r bi hl hr hb = ground arith

pub Settles-sub :
    (d : Logic) (ds : List Logic) (p m : ℕ) (l r bi : Logic) {s : Sweep}
    → above_hi l ≡ false
    → above_hi r ≡ false
    → above_hi bi ≡ false
    → Settles ds p (m + bit_value (of_parity (borrow_pad l r bi / 2))) s
    → Settles
        (d ∷ ds)
        (bit_value l + 2 * p)
        (bit_value r + 2 * m + bit_value bi)
        (put_cell (of_parity (borrow_pad l r bi)) s)
Settles-sub d ds p m l r bi hl hr hb t =
    Settles-put d (of_parity (borrow_pad l r bi)) ds p _ _ _ (of_parity-known _)
      (omega (arith, borrow_round l r bi hl hr hb)) t

pub sub_loop-Settles :
    (ds ls rs : List Logic) (bi : Logic)
    → above_hi bi ≡ false
    → Known ls
    → Known rs
    → Settles ds (value ls) (value rs + bit_value bi) (sub_loop ds ls rs bi)
unfolding sub_loop
sub_loop-Settles [] ls rs bi k kl kr = Settles-nil _ _
sub_loop-Settles (d ∷ ds) [] [] bi k kl kr =
    Settles-sub d ds 0 0 lo lo bi refl refl k
      (sub_loop-Settles ds [] [] _ (of_parity-known _) tt tt)
sub_loop-Settles (d ∷ ds) (l ∷ ls) [] bi k kl kr = rw kl.0 (
    Settles-sub d ds _ 0 l lo bi kl.0 refl k
      (sub_loop-Settles ds ls [] _ (of_parity-known _) kl.1 tt))
sub_loop-Settles (d ∷ ds) [] (r ∷ rs) bi k kl kr = rw kr.0 (
    Settles-sub d ds 0 _ lo r bi refl kr.0 k
      (sub_loop-Settles ds [] rs _ (of_parity-known _) tt kr.1))
sub_loop-Settles (d ∷ ds) (l ∷ ls) (r ∷ rs) bi k kl kr =
    rw (kr.0, kl.0)
      (Settles-sub d ds _ _ l r bi kl.0 kr.0 k
        (sub_loop-Settles ds ls rs _ (of_parity-known _) kl.1 kr.1))
