-- ===== src/BitVector/AddLaws.antt =====
-- `binary_add`, `binary_sub`, `operator+=`, `operator-=` and `unary_neg` of src/common/bvector.cc
-- against arithmetic modulo the width of the result.
use verilog_behavioral_simul.BitVector.Sum.{
  Settles-cells, Settles, Settles-value, add_loop-Settles, sub_loop-Settles,
}
use verilog_behavioral_simul.Base.{
  false, ◌∙◌, sym, ℕ, ◌+◌, ◌%◌, ◌^◌, ◌≤◌, ◌<◌, ◌≡◌, refl, arith, some, List, length, ltb, ap,
  lt→ltb, not_lt→ltb,
}
use native.Mathlib.Nat.{add-zero, mod_self, mod-eq_of_lt, mod-add-mod}
use verilog_behavioral_simul.Logic.{Logic, lo, hi}
use verilog_behavioral_simul.BitVector.{BitVector, size, start_pos, past_end, of_bit, take_sign}
use verilog_behavioral_simul.BitVector.Value.{value, Known, value-lt, mod_congruent}
use verilog_behavioral_simul.BitVector.Arith.{
  add_loop, binary_add, binary_sub, settle, add_to, sub_from, unary_inv, unary_neg, joint_sign,
}
use verilog_behavioral_simul.BitVector.InPlace.{
  add_to_loop-Settles, sub_from_loop-Settles, inv_loop-value,
}

-- `binary_add` on known operands that begin at the same index, into a result that is exactly as
-- wide as the wider operand, or at least as wide if the operands are equally wide: it writes
-- nothing out of bounds, and leaves the sum modulo 2 ^ width, in known bits, at the same width.
pub binary_add-value :
    (res l r : BitVector)
    → Known l.bits
    → Known r.bits
    → start_pos l ≡ start_pos r
    → (size r < size l → size l ≡ size res)
    → (size l < size r → size r ≡ size res)
    → (out : BitVector) × (binary_add res l r ≡ some out)
      × (value out.bits ≡ (value l.bits + value r.bits) % 2 ^ size res)
      × Known out.bits
      × (size out ≡ size res)
unfolding binary_add
binary_add-value res l r kl kr same wl wr =
    let t : Settles res.bits (value l.bits + value r.bits + 0) 0 (
        add_loop false (ltb (past_end r) (past_end l)) (ltb (past_end l) (past_end r)) res.bits
          l.bits r.bits lo) =
      add_loop-Settles false _ _ res.bits l.bits r.bits lo refl kl kr
        (λ q. (lt→ltb _ _ (omega arith), wl q)) (λ q. (lt→ltb _ _ (omega arith), wr q))
        (λ q p. not_lt→ltb _ _ (omega arith)) in
    (
      record res { bits = t.out; sign = take_sign res.sign (joint_sign l r) },
      ap (settle res (joint_sign l r)) t.returns,
      rw add-zero at (Settles-value t),
      t.known,
      t.same_length,
    )

-- `binary_sub` on known operands, whatever the widths: it writes nothing out of bounds, and the
-- difference that it leaves, in known bits at the width of the result, gives the left operand
-- again when the right one is added, modulo 2 ^ width.
pub binary_sub-value :
    (res l r : BitVector)
    → Known l.bits
    → Known r.bits
    → (out : BitVector) × (binary_sub res l r ≡ some out)
      × ((value out.bits + value r.bits) % 2 ^ size res ≡ value l.bits % 2 ^ size res)
      × Known out.bits
      × (size out ≡ size res)
unfolding binary_sub
binary_sub-value res l r kl kr =
    let t = sub_loop-Settles res.bits l.bits r.bits lo refl kl kr in
    (
      record res { bits = t.out; sign = take_sign res.sign (joint_sign l r) },
      ap (settle res (joint_sign l r)) t.returns,
      mod_congruent (2 ^ size res) _ _ t.up t.down (omega (arith, t.sum)),
      t.known,
      t.same_length,
    )

value_of_mod :
    (xs : List Logic) (ds : List Logic) (n : ℕ)
    → length xs ≡ length ds
    → value xs % 2 ^ length ds ≡ n % 2 ^ length ds
    → value xs ≡ n % 2 ^ length ds
value_of_mod xs ds n len e = sym (mod-eq_of_lt (rw (sym len) (value-lt xs))) ∙ e

-- `operator+=` on known bits is addition modulo the width of the left operand, in place.
pub add_to-value :
    (v bv : BitVector)
    → Known v.bits
    → Known bv.bits
    → (value (add_to v bv).bits ≡ (value v.bits + value bv.bits) % 2 ^ size v)
      × Known (add_to v bv).bits
      × (size (add_to v bv) ≡ size v)
unfolding add_to
add_to-value v bv kv kb =
    let (e, known, len) = Settles-cells (add_to_loop-Settles v.bits bv.bits lo refl kv kb) in
    (value_of_mod _ _ _ len (rw (add-zero, add-zero) at e), known, len)

-- `operator-=` on known bits is subtraction modulo the width of the left operand, in place.
pub sub_from-value :
    (v bv : BitVector)
    → Known v.bits
    → Known bv.bits
    → ((value (sub_from v bv).bits + value bv.bits) % 2 ^ size v ≡ value v.bits % 2 ^ size v)
      × Known (sub_from v bv).bits
      × (size (sub_from v bv) ≡ size v)
unfolding sub_from
sub_from-value v bv kv kb =
    let (e, known, len) = Settles-cells (sub_from_loop-Settles v.bits bv.bits lo refl kv kb) in
    (rw add-zero at e, known, len)

neg_sum : (k x i v : ℕ) → x ≡ (i + 1) % k → i + v + 1 ≡ k → (x + v) % k ≡ 0
neg_sum k x i v e h =
    ap (λ t. (t + v) % k) e
    ∙ mod-add-mod (i + 1) k v
    ∙ ap (λ t. t % k) {x = i + 1 + v} {y = k} (omega arith)
    ∙ mod_self k

-- `unary_neg` of known bits, into a result that is at least as wide, is the two's complement in
-- the width of the result: with the operand it adds up to 0 modulo 2 ^ width.
pub unary_neg-value :
    (res bv : BitVector)
    → Known bv.bits
    → size bv ≤ size res
    → ((value (unary_neg res bv).bits + value bv.bits) % 2 ^ size res ≡ 0)
      × Known (unary_neg res bv).bits
      × (size (unary_neg res bv) ≡ size res)
unfolding unary_neg unary_inv of_bit
unary_neg-value res bv k h =
    let (v, known, len) = inv_loop-value res.bits bv.bits k h in
    let (e, known', len') = add_to-value (unary_inv res bv) (of_bit hi) known (refl, tt) in
    (neg_sum (2 ^ size res) _ (value (unary_inv res bv).bits) _ (rw len at e) v, known', len' ∙ len)
