-- ===== src/Expression.antt =====
-- Expressions: the classes of src/expr/number.h, qstr.h, rangeid.h, funccall.h, unary_op.h,
-- binary_op.h, ternary_op.h, concat.h and mintypmax.h. Each node has a place for its result,
-- which setup makes and each evaluation writes over. A name is the number of its symbol.
pub mod Operators
pub mod Evaluate
pub mod Setup
pub mod Sums
pub mod SumSetup
pub mod SumLaws
pub mod Tests
use verilog_behavioral_simul.Base.{Bool, if◌then◌else◌, ℕ, ℤ, ◌==◌}
use verilog_behavioral_simul.BitVector.{BitVector}
use verilog_behavioral_simul.Statement.Delay.{delay}

-- `unary_op_expr::operator_type`.
pub data UnaryOp : Type 0 where
  plus_expr minus_expr not_expr invert_expr and_expr nand_expr or_expr nor_expr xor_expr : UnaryOp
  xnor_expr nxor_expr : UnaryOp

-- `binary_op_expr::operator_type`.
pub data BinaryOp : Type 0 where
  add_op sub_op multiply divide modulo power equal_equal not_equal_op equal_equal_equal : BinaryOp
  not_equal_equal and_and or_or less_than less_equal_op grt_than grt_equal logic_and_op : BinaryOp
  logic_nand_op logic_or_op logic_nor_op logic_xor_op logic_xnor_op logic_nxor_op : BinaryOp
  left_shift right_shift : BinaryOp

-- `mintypmax_expr::delay_type`.
pub data DelayType : Type 0 where
  mindelay typdelay maxdelay : DelayType

-- `get_select`: no selection, one that is unknown (a most significant position of -1), or a range.
pub data Selected : Type 0 where
  select_none select_unknown : Selected
  select_range : ℤ → ℤ → Selected

-- The number in front of a node is the place of its result.
mutual
  pub data Expr : Type 0 where
    number : ℕ → BitVector → Expr
    qouted_str : ℕ → BitVector → Expr
    range_id : ℕ → ℕ → Expr
    function_call : ℕ → ℕ → Expr
    concatenation : ℕ → ℕ → Elements → Expr
    unary_op_expr : ℕ → UnaryOp → Expr → Expr
    binary_op_expr : ℕ → BinaryOp → Expr → Expr → Expr
    ternary_op_expr : ℕ → Expr → Expr → Expr → Expr
    mintypmax_expr : ℕ → Optional → Optional → Optional → Expr

  -- The expressions of a concatenation, with the positions `_ms` and `_ls` of each.
  pub data Elements : Type 0 where
    nil : Elements
    cons : ℕ → ℕ → Expr → Elements → Elements

  -- A pointer to an expression, which may be null.
  pub data Optional : Type 0 where
    absent : Optional
    present : Expr → Optional

abbrev pub place : Expr → ℕ
place (number p v) = p
place (qouted_str p v) = p
place (range_id p n) = p
place (function_call p f) = p
place (concatenation p n es) = p
place (unary_op_expr p op e) = p
place (binary_op_expr p op l r) = p
place (ternary_op_expr p c t f) = p
place (mintypmax_expr p a b c) = p

-- The results of all nodes.
abbrev pub Results : Type 0
Results = ℕ → BitVector

-- `*_result`.
abbrev pub result_of : Expr → Results → BitVector
result_of e m = m (place e)

unfoldable pub put_result : ℕ → BitVector → Results → Results
put_result p v m q = if p == q then v else m q

-- The symbols and the settings that evaluation reads: whether a name is a net, what it selects,
-- the value of a net and of a function, and the delays in use.
pub record Symbols : Type 0 where
  pub is_net : ℕ → Bool
  pub selection : ℕ → Selected
  pub net_value : ℕ → Selected → BitVector
  pub call : ℕ → BitVector
  pub delay : DelayType
