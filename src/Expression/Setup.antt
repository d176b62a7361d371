-- ===== src/Expression/Setup.antt =====
-- `setup_expr` of src/expr/esetup.cc: the widths and the signs of results. Names have been found,
-- and the results of the operands have been made, before a node makes its own.
use verilog_behavioral_simul.Base.{
  Bool, Option, false, if◌then◌else◌, inl, inr, ltb, none, not, same_int, some, suc, true, zero, ℕ,
  ℤ, ◌*◌, ◌+◌, ◌-◌, ◌==◌, ◌||◌, ◌⊎◌,
}
use verilog_behavioral_simul.BitVector.{
  BaseType, BitVector, SignedType, base10, copy, of_range, signed, size, unset, unsigned,
}
use verilog_behavioral_simul.BitVector.Assign.{assign}
use verilog_behavioral_simul.BitVector.Decimal.{of_decimal, to_signed_int}
use verilog_behavioral_simul.Expression.{
  BinaryOp, Elements, Expr, Optional, Results, Selected, Symbols, UnaryOp, absent, add_op,
  binary_op_expr, concatenation, cons, divide, function_call, invert_expr, left_shift, logic_and_op,
  logic_nand_op, logic_nor_op, logic_nxor_op, logic_or_op, logic_xnor_op, logic_xor_op, maxdelay,
  mindelay, mintypmax_expr, minus_expr, modulo, multiply, nil, number, plus_expr, power, present,
  put_result, qouted_str, range_id, result_of, right_shift, select_none, select_range,
  select_unknown, sub_op, ternary_op_expr, typdelay, unary_op_expr,
}
use verilog_behavioral_simul.Expression.Evaluate.{evaluate, is_power}
use verilog_behavioral_simul.Logic.{dc}

-- The codes of the errors that setup reports.
pub data SetupError : Type 0 where
  se_type se_idxorder se_range : SetupError

-- A size, with the node as setup leaves it and the results; an error; or a result whose position
-- is below 0.
pub data Sized {ℓ} (A : Type ℓ) : Type ℓ where
  sized : ℕ → A → Results → Sized A
  refused : SetupError → Sized A
  undefined : Sized A

infixl 5 ◌>>=◌
abbrev pub ◌>>=◌ : {A B : Type 0} → Sized A → (ℕ → A → Results → Sized B) → Sized B
sized n a m >>= f = f n a m
refused e >>= f = refused e
undefined >>= f = undefined

-- What setup reads of symbols: nets by their kind, or functions, with their sizes and the size of
-- a range of them; and `pow` of two `int`s by their bit patterns, as a word.
pub data NetType : Type 0 where
  parameter integer memory other_net : NetType

pub data Named : Type 0 where
  a_net : NetType → ℕ → Named
  a_function : ℕ → Named
  something_else : Named

pub record Declared : Type 0 where
  pub symbols : Symbols
  pub named : ℕ → Named
  pub range_size : ℕ → ℤ → ℤ → ℕ
  pub function_size : ℕ → ℕ
  pub pow : ℕ → ℕ → ℕ

-- `new num_type(size - 1, 0, sign, base)`, a bit being unsigned.
abbrev pub new_result : ℕ → SignedType → BaseType → BitVector
new_result n neg b = of_range (n - 1) 0 (if n == 1 then unsigned else neg) b dc

abbrev pub larger : ℕ → ℕ → ℕ
larger a b = if ltb b a then a else b

-- `s < _result_size ? _result_size : s`.
abbrev pub at_least : ℕ → ℕ → ℕ
at_least s result_size = if ltb s result_size then result_size else s

unfoldable pub unary_size : UnaryOp → ℕ → ℕ → ℕ
unary_size minus_expr s result_size = at_least s result_size
unary_size plus_expr s result_size = at_least s result_size
unary_size invert_expr s result_size = at_least s result_size
unary_size _ s result_size = 1

-- The minus makes a constant signed.
abbrev pub unary_sign : UnaryOp → Expr → SignedType
unary_sign minus_expr (number p v) = signed
unary_sign _ _ = unset

-- A power is as wide as its value, and is handled by itself.
unfoldable pub binary_size : BinaryOp → ℕ → ℕ → ℕ → ℕ
binary_size add_op ls rs result_size = at_least (larger ls rs) result_size
binary_size sub_op ls rs result_size = at_least (larger ls rs) result_size
binary_size multiply ls rs result_size = at_least (ls + rs) result_size
binary_size divide ls rs result_size = at_least (larger ls rs) result_size
binary_size modulo ls rs result_size = at_least (larger ls rs) result_size
binary_size logic_and_op ls rs result_size = at_least (larger ls rs) result_size
binary_size logic_nand_op ls rs result_size = at_least (larger ls rs) result_size
binary_size logic_or_op ls rs result_size = at_least (larger ls rs) result_size
binary_size logic_nor_op ls rs result_size = at_least (larger ls rs) result_size
binary_size logic_xor_op ls rs result_size = at_least (larger ls rs) result_size
binary_size logic_xnor_op ls rs result_size = at_least (larger ls rs) result_size
binary_size logic_nxor_op ls rs result_size = at_least (larger ls rs) result_size
binary_size left_shift ls rs result_size = at_least ls result_size
binary_size right_shift ls rs result_size = at_least ls result_size
binary_size power ls rs result_size = 0
binary_size _ ls rs result_size = 1

-- A node's result is made, and its size returned.
unfoldable pub make_result : ℕ → BitVector → Expr → Results → Sized Expr
unfolding put_result
make_result p v e m = sized (size v) e (put_result p v m)

-- A range of a name, where one is selected whose position is known.
unfoldable pub ranged_size : Declared → ℕ → ℕ → Option ℕ
ranged_size d n whole = elim (d.symbols.selection n) [
  | select_range ms ls ↦ if d.range_size n ms ls == 0 then none else some (d.range_size n ms ls)
  | select_none ↦ some whole
  | select_unknown ↦ some whole
]

abbrev pub selects_part : Selected → Bool
selects_part (select_range ms ls) = not (same_int ms ls)
selects_part _ = false

-- The size and the sign of a name, or an error. A net other than a parameter is not constant.
unfoldable pub name_size : Declared → Bool → ℕ → Named → (ℕ × SignedType) ⊎ SetupError
unfolding ranged_size
name_size d check n (a_net parameter rs) = inl (rs, unset)
name_size d check n (a_net integer rs) = if check then inr se_type else inl (rs, signed)
name_size d check n (a_net memory rs) =
    if check
    then inr se_type
    else if selects_part (d.symbols.selection n)
    then inr se_type
    else inl (rs, unset)
name_size d check n (a_net other_net rs) =
    if check
    then inr se_type
    else elim (ranged_size d n rs) [ none ↦ inr se_idxorder | some k ↦ inl (k, unset) ]
name_size d check n (a_function rs) =
    if check
    then inr se_type
    else elim (ranged_size d n rs) [ none ↦ inr se_idxorder | some k ↦ inl (k, unset) ]
name_size d check n something_else = inr se_type

unfoldable pub setup_name : Declared → Bool → ℕ → ℕ → Results → Sized Expr
unfolding make_result name_size of_range
setup_name d check p n m = elim (name_size d check n (d.named n)) [
  | inl (rs, neg) ↦ make_result p (new_result rs neg base10) (range_id p n) m
  | inr er ↦ refused er
]

-- The result of a power: the value of its constant operands, now.
abbrev pub power_value : Declared → Expr → Expr → Results → Option BitVector
power_value d l r m = elim (evaluate d.symbols l m) [
  | none ↦ none
  | some m1 ↦ elim (evaluate d.symbols r m1) [
    | none ↦ none
    | some m2 ↦ some (
        of_decimal
          (d.pow (to_signed_int (result_of l m1)).number (to_signed_int (result_of r m2)).number))
  ]
]

abbrev pub setup_power : ℕ → Expr → Option BitVector → Results → Sized Expr
setup_power p e none m = undefined
setup_power p e (some tmp) m = make_result p (assign (new_result (size tmp) unset base10) tmp) e m

unfoldable pub setup_binary :
    Declared → ℕ → BinaryOp → ℕ → ℕ → ℕ → Expr → Expr → Results → Sized Expr
unfolding binary_size make_result evaluate of_decimal to_signed_int assign of_range
setup_binary d p op rsize ls rs l r m = elim (is_power op) [
  | true ↦ setup_power p (binary_op_expr p op l r) (power_value d l r m) m
  | false ↦
      make_result p (new_result (binary_size op ls rs rsize) unset base10) (binary_op_expr p op l r)
        m
]

unfoldable mutual
  unfolding setup_name setup_binary make_result unary_size of_range copy

  -- `check` is `_check_const` and `rsize` is `_result_size`. The result of a number is made once;
  -- a result of no bits stands for one that is not made.
  pub setup : Declared → Bool → ℕ → Expr → Results → Sized Expr
  setup d check rsize (number p v) m =
      if size (m p) == 0
      then make_result p (copy v) (number p v) m
      else sized (size (m p)) (number p v) m
  setup d check rsize (qouted_str p v) m = make_result p (copy v) (qouted_str p v) m
  setup d check rsize (range_id p n) m = setup_name d check p n m
  setup d check rsize (function_call p f) m =
      make_result p (new_result (d.function_size f) unset base10) (function_call p f) m
  setup d check rsize (concatenation p zero es) m = refused se_range
  setup d check rsize (concatenation p (suc n) es) m = setup_elements d check es m >>= λ k es' m1.
      make_result p (new_result (k * suc n) unset base10) (concatenation p (suc n) es') m1
  setup d check rsize (unary_op_expr p op e) m = setup d check rsize e m >>= λ k e' m1.
      make_result p (new_result (unary_size op k rsize) (unary_sign op e) base10)
        (unary_op_expr p op e') m1
  setup d check rsize (binary_op_expr p op l r) m =
      setup d (check || is_power op) rsize l m >>= λ ls l' m1.
      setup d (check || is_power op) rsize r m1 >>= λ rs r' m2.
      setup_binary d p op rsize ls rs l' r' m2
  setup d check rsize (ternary_op_expr p c t f) m = setup d check rsize c m >>= λ cs c' m1.
      setup d check rsize t m1 >>= λ ts t' m2. setup d check rsize f m2 >>= λ fs f' m3.
      make_result p (new_result (at_least (larger ts fs) rsize) unset base10)
        (ternary_op_expr p c' t' f') m3
  setup d check rsize (mintypmax_expr p a b c) m = elim d.symbols.delay [
    | mindelay ↦ setup_optional d check p a m >>= λ k a' m1.
        make_result p (new_result k unset base10) (mintypmax_expr p a' b c) m1
    | typdelay ↦ setup_optional d check p b m >>= λ k b' m1.
        make_result p (new_result k unset base10) (mintypmax_expr p a b' c) m1
    | maxdelay ↦ setup_optional d check p c m >>= λ k c' m1.
        make_result p (new_result k unset base10) (mintypmax_expr p a b c') m1
  ]

  -- An alternative of a delay. With none, the result would have the position -1.
  pub setup_optional : Declared → Bool → ℕ → Optional → Results → Sized Optional
  setup_optional d check p absent m = undefined
  setup_optional d check p (present e) m =
      setup d check 0 e m >>= λ k e' m1. sized k (present e') m1

  -- The elements of a concatenation, from the last to the first, with their positions.
  pub setup_elements : Declared → Bool → Elements → Results → Sized Elements
  setup_elements d check nil m = sized 0 nil m
  setup_elements d check (cons ms ls e es) m = setup_elements d check es m >>= λ prev es' m1.
      setup d check 0 e m1 >>= λ k e' m2. sized (prev + k) (cons (prev + k - 1) prev e' es') m2
