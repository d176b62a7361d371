-- ===== src/Expression/Sums.antt =====
-- Sums and differences of nets: their setup by src/expr/esetup.cc, with their evaluation by
-- src/expr/eeval.cc.
use verilog_behavioral_simul.Base.{
  ==_iff, Bool-cases, arith, inl, inr, refl, suc, true, ℕ, ◌%◌, ◌+◌, ◌-◌, ◌<◌, ◌==◌, ◌^◌, ◌≡◌, ◌≤◌,
  ◌⊎◌,
}
use verilog_behavioral_simul.BitVector.{BitVector, size, start_pos}
use verilog_behavioral_simul.BitVector.Value.{Known, value}
use verilog_behavioral_simul.Expression.{
  Expr, Results, add_op, binary_op_expr, place, put_result, range_id, select_none, sub_op,
}
use verilog_behavioral_simul.Expression.Setup.{Declared, a_net, other_net}

-- A sum as the designer writes it.
pub data Sum : Type 0 where
  net : ℕ → Sum
  plus difference : Sum → Sum → Sum

-- The tree of a sum, with places for results from `i` on and below `j`, each node's after those
-- of its operands, as setup makes them.
pub data Placed : ℕ → ℕ → Sum → Expr → Type 0 where
  net_at : {p : ℕ} (n : ℕ) → Placed p (suc p) (net n) (range_id p n)
  plus_at :
      {i mid j : ℕ} {a b : Sum} {l r : Expr}
      → Placed i mid a l
      → Placed mid j b r
      → Placed i (suc j) (plus a b) (binary_op_expr j add_op l r)
  minus_at :
      {i mid j : ℕ} {a b : Sum} {l r : Expr}
      → Placed i mid a l
      → Placed mid j b r
      → Placed i (suc j) (difference a b) (binary_op_expr j sub_op l r)

pub Placed-place : {i j : ℕ} {x : Sum} {e : Expr} → Placed i j x e → (i ≤ place e) × (place e < j)
Placed-place (net_at n) = (omega arith, omega arith)
Placed-place (plus_at l r) =
    let h = Placed-place l in let k = Placed-place r in (omega arith, omega arith)
Placed-place (minus_at l r) =
    let h = Placed-place l in let k = Placed-place r in (omega arith, omega arith)

-- The value of a sum in `w` bits, from the values of its nets.
unfoldable pub meaning : ℕ → (ℕ → ℕ) → Sum → ℕ
meaning w env (net n) = env n
meaning w env (plus a b) = (meaning w env a + meaning w env b) % 2 ^ w
meaning w env (difference a b) = (meaning w env a + (2 ^ w - meaning w env b)) % 2 ^ w

-- A net of `w` known bits, used whole, that is no parameter, integer or memory.
pub record WholeNet (d : Declared) (w n : ℕ) : Type 0 where
  pub declared : d.named n ≡ a_net other_net w
  pub is_net : d.symbols.is_net n ≡ true
  pub whole : d.symbols.selection n ≡ select_none
  pub known : Known (d.symbols.net_value n select_none).bits
  pub width : size (d.symbols.net_value n select_none) ≡ w

abbrev pub WholeNets : Declared → ℕ → Sum → Type 0
WholeNets d w (net n) = WholeNet d w n
WholeNets d w (plus a b) = WholeNets d w a × WholeNets d w b
WholeNets d w (difference a b) = WholeNets d w a × WholeNets d w b

abbrev pub net_numbers : Declared → ℕ → ℕ
net_numbers d n = value (d.symbols.net_value n select_none).bits

-- A result of `w` bits from the index 0 on.
abbrev pub Wide : ℕ → BitVector → Type 0
Wide w v = (size v ≡ w) × (start_pos v ≡ 0)

abbrev pub AllWide : ℕ → ℕ → ℕ → Results → Type 0
AllWide w i j m = (q : ℕ) → i ≤ q → q < j → Wide w (m q)

-- The results at places outside are as they were.
abbrev pub Same : ℕ → ℕ → Results → Results → Type 0
Same i j m m' = (q : ℕ) → (q < i) ⊎ (j ≤ q) → m' q ≡ m q

pub put_result-same : (p : ℕ) (v : BitVector) (m : Results) → put_result p v m p ≡ v
unfolding put_result
put_result-same p v m = rw ((==_iff p p).1 refl) refl

pub put_result-other :
    (p q : ℕ) (v : BitVector) (m : Results) → ¬ (p ≡ q) → put_result p v m q ≡ m q
unfolding put_result
put_result-other p q v m h = elim (Bool-cases (p == q)) [
  | inl e ↦ absurd (h ((==_iff p q).0 e))
  | inr e ↦ rw e refl
]
