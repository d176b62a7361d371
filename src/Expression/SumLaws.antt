-- ===== src/Expression/SumLaws.antt =====
-- Sums of nets, set up by src/expr/esetup.cc and evaluated by src/expr/eeval.cc.
use verilog_behavioral_simul.Base.{
  Option, ap, arith, false, inl, inr, length, not_lt→ltb, pos→ne_zero, refl, replicate, some, suc,
  sym, take-all, ℕ, ◌%◌, ◌+◌, ◌-◌, ◌/◌, ◌<◌, ◌^◌, ◌∙◌, ◌≡◌, ◌≤◌, ◌>>=◌,
}
use verilog_behavioral_simul.BitVector.{BitVector, SignedType, size, start_pos, take_sign}
use verilog_behavioral_simul.BitVector.AddLaws.{binary_add-value, binary_sub-value}
use verilog_behavioral_simul.BitVector.Arith.{
  Sweep, binary_add, binary_sub, cells_from, overrun, settle, unknown,
}
use verilog_behavioral_simul.BitVector.Assign.{assign, fit_bits}
use verilog_behavioral_simul.BitVector.Value.{Known, mod_unique, value, value-lt}
use verilog_behavioral_simul.Expression.{
  BinaryOp, Expr, Results, add_op, binary_op_expr, place, put_result, range_id, result_of,
  select_none, sub_op,
}
use verilog_behavioral_simul.Expression.Evaluate.{binary_into, evaluate, evaluate_name}
use verilog_behavioral_simul.Expression.Operators.{apply_binary}
use verilog_behavioral_simul.Expression.Setup.{Declared, setup, sized}
use verilog_behavioral_simul.Expression.SumSetup.{setup-SetUp}
use verilog_behavioral_simul.Expression.Sums.{
  AllWide, Placed, Placed-place, Same, Sum, WholeNet, WholeNets, Wide, difference, meaning,
  minus_at, net_at, net_numbers, plus, plus_at, put_result-other, put_result-same,
}
use verilog_behavioral_simul.Logic.{dc}
use verilog_behavioral_simul.Simulation.Handlers.{same}
use native.Mathlib.Nat.{mod-add-div, mod-eq_of_lt}

settle-start :
    (res : BitVector) (g : SignedType) (o : Sweep) (out : BitVector)
    → settle res g o ≡ some out
    → start_pos out ≡ start_pos res
unfolding settle
settle-start res g (cells_from bs) out e =
    let q : record res { bits = bs; sign = take_sign res.sign g } ≡ out = cc in ap start_pos (sym q)
settle-start res g unknown out e =
    let q : record res { bits = replicate (size res) dc; sign = take_sign res.sign g } ≡ out = cc in
    ap start_pos (sym q)
settle-start res g overrun out e = cc

assign-same_width :
    (v bv : BitVector)
    → size v ≡ size bv
    → 0 < size v
    → ((assign v bv).bits ≡ bv.bits) × (start_pos (assign v bv) ≡ start_pos v)
unfolding assign fit_bits
assign-same_width v bv e h =
    rw
      (
        pos→ne_zero (size bv) (omega arith),
        pos→ne_zero (size v) h,
        not_lt→ltb (size bv) (size v) (omega arith),
      )
      (take-all (size v) bv.bits (omega arith), refl)

-- What the evaluation of a tree with places from `i` on and below `j` leaves.
pub record Evaluated (w i j number : ℕ) (e : Expr) (m : Results) (o : Option Results) : Type 0 where
  pub after : Results
  pub returns : o ≡ some after
  pub known : Known (result_of e after).bits
  pub holds : value (result_of e after).bits ≡ number
  pub wide : Wide w (result_of e after)
  pub same : Same i j m after

module _ (w i mid j : ℕ) (op : BinaryOp) (l r : Expr) (m m1 m2 : Results) (out : BitVector) where
  -- A node whose operands have been evaluated.
  binary_into-Evaluated :
      (number : ℕ)
      → i ≤ mid
      → mid ≤ j
      → place l < mid
      → Same i mid m m1
      → Same mid j m1 m2
      → apply_binary op (m j) (m1 (place l)) (m2 (place r)) ≡ some out
      → Known out.bits
      → value out.bits ≡ number
      → Wide w out
      → Evaluated w i (suc j) number (binary_op_expr j op l r) m (binary_into j op l r m2)
  unfolding binary_into
  binary_into-Evaluated total p q k s1 s2 e known holds wide = record {
    after = put_result j out m2;
    returns =
        rw (s2 j (inr (omega arith)) ∙ s1 j (inr q), s2 (place l) (inl k))
          (ap (λ o. o >>= λ v. some (put_result j v m2)) e);
    known = rw (put_result-same j out m2) known;
    holds = rw (put_result-same j out m2) holds;
    wide = rw (put_result-same j out m2) wide;
    same = λ a o. elim o [
      | inl b ↦ put_result-other j a out m2 (omega arith) ∙ s2 a (inl (omega arith)) ∙ s1 a (inl b)
      | inr b ↦
          put_result-other j a out m2 (omega arith)
          ∙ s2 a (inr (omega arith))
          ∙ s1 a (inr (omega arith))
    ];
  }

-- A difference from the number that it gives with the subtrahend.
difference_number :
    (n a b out : ℕ) → a < n → b < n → out < n → (out + b) % n ≡ a % n → out ≡ (a + (n - b)) % n
difference_number n a b out p q h e =
    let same : (out + b) % n ≡ a = e ∙ mod-eq_of_lt p in
    mod_unique n out (a + (n - b)) 1 ((out + b) / n) h
      (omega (arith, same, mod-add-div (out + b) n))

Wide-value : (w : ℕ) (v : BitVector) (total : ℕ) → Wide w v → value v.bits ≡ total → total < 2 ^ w
Wide-value w v total h e = rw (sym e) (rw (sym h.0) (value-lt v.bits))

-- A result of `w` known bits that stand for a number.
abbrev pub HasValue : ℕ → ℕ → BitVector → Type 0
HasValue w total v = Known v.bits × (value v.bits ≡ total) × Wide w v

module _ (w a b : ℕ) (res l r : BitVector) (wide : Wide w res) (x : HasValue w a l)
    (y : HasValue w b r) where
  add_op-HasValue :
      (out : BitVector) × (apply_binary add_op res l r ≡ some out)
      × HasValue w ((a + b) % 2 ^ w) out
  unfolding apply_binary binary_add
  add_op-HasValue =
      let (out, e, holds, known, width) =
        binary_add-value res l r x.0 y.0 (x.2.1 ∙ sym y.2.1) (λ q. x.2.0 ∙ sym wide.0)
          (λ q. y.2.0 ∙ sym wide.0) in
      (
        out,
        e,
        (
          known,
          rw (sym x.1, sym y.1, sym wide.0) holds,
          (width ∙ wide.0, settle-start res _ _ out e ∙ wide.1),
        ),
      )

  sub_op-HasValue :
      (out : BitVector) × (apply_binary sub_op res l r ≡ some out)
      × HasValue w ((a + (2 ^ w - b)) % 2 ^ w) out
  unfolding apply_binary binary_sub
  sub_op-HasValue =
      let (out, e, holds, known, width) = binary_sub-value res l r x.0 y.0 in
      let out_wide : Wide w out = (width ∙ wide.0, settle-start res _ _ out e ∙ wide.1) in
      (
        out,
        e,
        (
          known,
          difference_number (2 ^ w) a b (value out.bits) (Wide-value w l a x.2 x.1)
              (Wide-value w r b y.2 y.1) (Wide-value w out _ out_wide refl)
              (rw (sym x.1, sym y.1, sym wide.0) holds),
          out_wide,
        ),
      )

module _ (d : Declared) (w : ℕ) (some_bits : 0 < w) where
  net_at-Evaluated :
      (p n : ℕ) (m : Results)
      → WholeNet d w n
      → AllWide w p (suc p) m
      → Evaluated w p
          (suc p)
          (net_numbers d n)
          (range_id p n)
          m
          (some (put_result p (evaluate_name d.symbols (m p) n) m))
  unfolding evaluate_name
  net_at-Evaluated p n m h wide =
      let v = d.symbols.net_value n select_none in
      let (at_p, from_0) = wide p (omega arith) (omega arith) in
      let (same_bits, same_start) = assign-same_width (m p) v (at_p ∙ sym h.width) (omega arith) in
      let out = assign (m p) v in
      rw (h.is_net, h.whole)
        (record {
          after = put_result p out m;
          returns = refl;
          known = rw (put_result-same p out m, same_bits) h.known;
          holds = rw (put_result-same p out m, same_bits) refl;
          wide = rw (put_result-same p out m) (ap length same_bits ∙ h.width, same_start ∙ from_0);
          same = λ a o. elim o [
            | inl b ↦ put_result-other p a out m (omega arith)
            | inr b ↦ put_result-other p a out m (omega arith)
          ];
        })

  left_wide :
      {i mid j : ℕ} {b : Sum} {r : Expr} (m : Results)
      → Placed mid j b r
      → AllWide w i (suc j) m
      → AllWide w i mid m
  left_wide m pr wide q x y = wide q x (omega (arith, Placed-place pr))

  right_wide :
      {i mid j : ℕ} {a : Sum} {l : Expr} (m m1 : Results)
      → Placed i mid a l
      → AllWide w i (suc j) m
      → Same i mid m m1
      → AllWide w mid j m1
  right_wide m m1 pl wide same q x y =
      rw (same q (inr x)) (wide q (omega (arith, Placed-place pl)) (omega arith))

  pub evaluate-Evaluated :
      {i j : ℕ} {x : Sum} {e : Expr} (m : Results)
      → Placed i j x e
      → WholeNets d w x
      → AllWide w i j m
      → Evaluated w i j (meaning w (net_numbers d) x) e m (evaluate d.symbols e m)
  unfolding evaluate meaning
  evaluate-Evaluated {i} m (net_at n) h wide = net_at-Evaluated i n m h wide
  evaluate-Evaluated {i} m (plus_at {mid = mid} {j = j} {a = a} {b = b} {l = l} {r = r} pl pr) h
        wide =
      let s = evaluate-Evaluated m pl h.0 (left_wide m pr wide) in
      let t = evaluate-Evaluated s.after pr h.1 (right_wide m s.after pl wide s.same) in
      let (out, e, holds) =
        add_op-HasValue w (meaning w (net_numbers d) a) (meaning w (net_numbers d) b) (m j)
          (result_of l s.after) (result_of r t.after)
          (wide j (omega (arith, Placed-place pl, Placed-place pr)) (omega arith))
          (s.known, s.holds, s.wide) (t.known, t.holds, t.wide) in
      rw (s.returns, t.returns)
        (binary_into-Evaluated w i mid j add_op l r m s.after t.after out
          (meaning w (net_numbers d) (plus a b)) (omega (arith, Placed-place pl))
          (omega (arith, Placed-place pr)) (Placed-place pl).1 s.same t.same e holds.0 holds.1
          holds.2)
  evaluate-Evaluated {i} m (minus_at {mid = mid} {j = j} {a = a} {b = b} {l = l} {r = r} pl pr) h
        wide =
      let s = evaluate-Evaluated m pl h.0 (left_wide m pr wide) in
      let t = evaluate-Evaluated s.after pr h.1 (right_wide m s.after pl wide s.same) in
      let (out, e, holds) =
        sub_op-HasValue w (meaning w (net_numbers d) a) (meaning w (net_numbers d) b) (m j)
          (result_of l s.after) (result_of r t.after)
          (wide j (omega (arith, Placed-place pl, Placed-place pr)) (omega arith))
          (s.known, s.holds, s.wide) (t.known, t.holds, t.wide) in
      rw (s.returns, t.returns)
        (binary_into-Evaluated w i mid j sub_op l r m s.after t.after out
          (meaning w (net_numbers d) (difference a b)) (omega (arith, Placed-place pl))
          (omega (arith, Placed-place pr)) (Placed-place pl).1 s.same t.same e holds.0 holds.1
          holds.2)

  -- Setup, in a context of at most `w` bits, of a tree of sums and differences of whole nets of `w`
  -- known bits succeeds and gives the node `w` bits; the evaluation of what it leaves writes
  -- nothing out of bounds, and leaves known bits in the node's result, which stand for the value of
  -- the sum modulo 2 ^ w; results that are not of the tree stay as they were.
  pub evaluate-setup :
      {i j : ℕ} {x : Sum} {e : Expr} (rsize : ℕ) (m : Results)
      → rsize ≤ w
      → Placed i j x e
      → WholeNets d w x
      → (m1 : Results) × (m2 : Results) × (setup d false rsize e m ≡ sized w e m1)
        × (evaluate d.symbols e m1 ≡ some m2)
        × Known (result_of e m2).bits
        × (value (result_of e m2).bits ≡ meaning w (net_numbers d) x)
        × (size (result_of e m2) ≡ w)
        × Same i j m m2
  evaluate-setup rsize m fits p nets =
      let s = setup-SetUp d w rsize some_bits fits m p nets in
      let t = evaluate-Evaluated s.after p nets s.wide in
      (
        s.after,
        t.after,
        s.returns,
        t.returns,
        t.known,
        t.holds,
        t.wide.0,
        λ q o. t.same q o ∙ s.same q o,
      )
