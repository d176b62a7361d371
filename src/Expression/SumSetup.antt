-- ===== src/Expression/SumSetup.antt =====
-- The setup of sums of nets: src/expr/esetup.cc.
use verilog_behavioral_simul.Base.{
  ==_iff, Bool-cases, ap, arith, dec_lt, false, inl, inr, length-replicate, not_lt→ltb, refl, suc,
  zero, ℕ, ◌+◌, ◌-◌, ◌<◌, ◌==◌, ◌∙◌, ◌≡◌, ◌≤◌,
}
use verilog_behavioral_simul.BitVector.{BaseType, BitVector, SignedType, base10, of_range, unset}
use verilog_behavioral_simul.Expression.{
  Expr, Results, add_op, binary_op_expr, put_result, range_id, sub_op,
}
use verilog_behavioral_simul.Expression.Setup.{
  Declared, Sized, at_least, binary_size, larger, make_result, name_size, new_result, ranged_size,
  setup, setup_binary, setup_name, sized,
}
use verilog_behavioral_simul.Expression.Sums.{
  AllWide, Placed, Placed-place, Same, Sum, WholeNet, WholeNets, Wide, minus_at, net_at, plus_at,
  put_result-other, put_result-same,
}
use verilog_behavioral_simul.Logic.{dc}

new_result-Wide : (w : ℕ) (neg : SignedType) (b : BaseType) → 0 < w → Wide w (new_result w neg b)
unfolding of_range
new_result-Wide zero neg b h = absurd (omega arith)
new_result-Wide (suc n) neg b h =
    rw (not_lt→ltb (suc n - 1) 0 (omega arith))
      (omega (arith, length-replicate (suc n - 1 - 0 + 1) dc), refl)

-- What the setup of a tree with places from `i` on and below `j` leaves.
pub record SetUp (w i j : ℕ) (e : Expr) (m : Results) (o : Sized Expr) : Type 0 where
  pub after : Results
  pub returns : o ≡ sized w e after
  pub wide : AllWide w i j after
  pub same : Same i j m after

-- A result of `w` bits is added at the end of two stretches that have theirs.
make_result-SetUp :
    (w i mid j : ℕ) (v : BitVector) (e : Expr) (m m1 m2 : Results)
    → i ≤ mid
    → mid ≤ j
    → Wide w v
    → AllWide w i mid m1
    → Same i mid m m1
    → AllWide w mid j m2
    → Same mid j m1 m2
    → SetUp w i (suc j) e m (make_result j v e m2)
unfolding make_result
make_result-SetUp w i mid j v e m m1 m2 p q wide w1 s1 w2 s2 = record {
  after = put_result j v m2;
  returns = ap (λ k. sized k e (put_result j v m2)) wide.0;
  wide = λ k a b. elim (Bool-cases (k == j)) [
    | inl h ↦ rw ((==_iff k j).0 h) (rw (put_result-same j v m2) wide)
    | inr h ↦ rw (put_result-other j k v m2 (λ x. other k x h)) (elim (dec_lt k mid) [
      | yes low ↦ rw (s2 k (inl low)) (w1 k a low)
      | no up ↦ w2 k (omega arith) (apart k h b)
    ])
  ];
  same = λ k out. elim out [
    | inl a ↦ put_result-other j k v m2 (omega arith) ∙ s2 k (inl (omega arith)) ∙ s1 k (inl a)
    | inr a ↦
        put_result-other j k v m2 (omega arith)
        ∙ s2 k (inr (omega arith))
        ∙ s1 k (inr (omega arith))
  ];
}
  where
    apart : (k : ℕ) → (k == j) ≡ false → k < suc j → k < j
    apart k h b = ground arith

    other : (k : ℕ) → j ≡ k → (k == j) ≡ false → ⊥
    other k x h = ground arith

module _ (d : Declared) (w rsize : ℕ) (some_bits : 0 < w) (fits : rsize ≤ w) where
  node_width : at_least (larger w w) rsize ≡ w
  node_width = ground arith

  WholeNet-name_size : (n : ℕ) → WholeNet d w n → name_size d false n (d.named n) ≡ inl (w, unset)
  unfolding name_size ranged_size
  WholeNet-name_size n h = rw h.declared (rw h.whole refl)

  net_at-SetUp :
      (p n : ℕ) (m : Results)
      → WholeNet d w n
      → SetUp w p (suc p) (range_id p n) m (setup_name d false p n m)
  unfolding setup_name
  net_at-SetUp p n m h =
      rw (setup_name, WholeNet-name_size n h)
        (make_result-SetUp w p p p (new_result w unset base10) (range_id p n) m m m (omega arith)
          (omega arith) (new_result-Wide w unset base10 some_bits) (λ q a b. absurd (omega arith))
          (λ q o. refl) (λ q a b. absurd (omega arith)) (λ q o. refl))

  -- The setup of a sum in a context of at most `w` bits gives every node `w` bits.
  pub setup-SetUp :
      {i j : ℕ} {x : Sum} {e : Expr} (m : Results)
      → Placed i j x e
      → WholeNets d w x
      → SetUp w i j e m (setup d false rsize e m)
  unfolding setup setup_binary binary_size
  setup-SetUp {i} m (net_at n) h = net_at-SetUp i n m h
  setup-SetUp {i} m (plus_at {mid = mid} {j = j} {l = l} {r = r} pl pr) h =
      let s = setup-SetUp m pl h.0 in
      let t = setup-SetUp s.after pr h.1 in
      rw (s.returns, t.returns, node_width)
        (make_result-SetUp w i mid j (new_result w unset base10) (binary_op_expr j add_op l r) m
          s.after t.after (omega (arith, Placed-place pl)) (omega (arith, Placed-place pr))
          (new_result-Wide w unset base10 some_bits) s.wide s.same t.wide t.same)
  setup-SetUp {i} m (minus_at {mid = mid} {j = j} {l = l} {r = r} pl pr) h =
      let s = setup-SetUp m pl h.0 in
      let t = setup-SetUp s.after pr h.1 in
      rw (s.returns, t.returns, node_width)
        (make_result-SetUp w i mid j (new_result w unset base10) (binary_op_expr j sub_op l r) m
          s.after t.after (omega (arith, Placed-place pl)) (omega (arith, Placed-place pr))
          (new_result-Wide w unset base10 some_bits) s.wide s.same t.wide t.same)
