-- ===== src/Logic.antt =====
-- The logic bit of src/common/logic.h: its five states, the lookup tables and the operators on
-- single bits.
pub mod Laws
use verilog_behavioral_simul.Base.{ℕ, ◌%◌, Bool, true, false, if◌then◌else◌, ◌==◌}

-- `state_value`, with the constants LO, HI, DC, Z and NVL.
pub data Logic : Type 0 where
  lo hi dc z nvl : Logic

-- `operator int`: the number that the state is stored as.
abbrev pub to_int : Logic → ℕ
to_int lo = 0
to_int hi = 1
to_int dc = 2
to_int z = 3
to_int nvl = 4

-- `operator bool`.
unfoldable pub is_high : Logic → Bool
is_high hi = true
is_high _ = false

-- `l > HI`, the test for a bit that is neither 0 nor 1.
abbrev pub above_hi : Logic → Bool
above_hi lo = false
above_hi hi = false
above_hi _ = true

pub data Edge : Type 0 where
  no_edge pos_edge neg_edge : Edge

-- A row of a table, read by the state of the second operand.
abbrev pub row {ℓ} : {A : Type ℓ} → A → A → A → A → A → Logic → A
row a b c d e lo = a
row a b c d e hi = b
row a b c d e dc = c
row a b c d e z = d
row a b c d e nvl = e

-- A table, read by the states of both operands.
abbrev pub table {ℓ} :
    {A : Type ℓ}
    → (Logic → A)
    → (Logic → A)
    → (Logic → A)
    → (Logic → A)
    → (Logic → A)
    → Logic
    → Logic
    → A
table a b c d e lo = a
table a b c d e hi = b
table a b c d e dc = c
table a b c d e z = d
table a b c d e nvl = e

unfoldable pub logic_inv : Logic → Logic
logic_inv = row hi lo dc dc dc

unfoldable pub logic_and : Logic → Logic → Logic
logic_and =
    table (row lo lo lo lo dc) (row lo hi dc dc dc) (row lo dc dc dc dc) (row lo dc dc dc dc)
      (row dc dc dc dc dc)

unfoldable pub logic_nand : Logic → Logic → Logic
logic_nand =
    table (row hi hi hi hi dc) (row hi lo dc dc dc) (row hi dc dc dc dc) (row hi dc dc dc dc)
      (row dc dc dc dc dc)

unfoldable pub logic_or : Logic → Logic → Logic
logic_or =
    table (row lo hi dc dc dc) (row hi hi hi hi dc) (row dc hi dc dc dc) (row dc hi dc dc dc)
      (row dc dc dc dc dc)

unfoldable pub logic_nor : Logic → Logic → Logic
logic_nor =
    table (row hi lo dc dc dc) (row lo lo lo lo dc) (row dc lo dc dc dc) (row dc lo dc dc dc)
      (row dc dc dc dc dc)

unfoldable pub logic_xor : Logic → Logic → Logic
logic_xor =
    table (row lo hi dc dc dc) (row hi lo dc dc dc) (row dc dc dc dc dc) (row dc dc dc dc dc)
      (row dc dc dc dc dc)

unfoldable pub logic_xnor : Logic → Logic → Logic
logic_xnor =
    table (row hi lo dc dc dc) (row lo hi dc dc dc) (row dc dc dc dc dc) (row dc dc dc dc dc)
      (row dc dc dc dc dc)

unfoldable pub logic_ternary : Logic → Logic → Logic
logic_ternary =
    table (row lo dc dc dc dc) (row dc hi dc dc dc) (row dc dc dc dc dc) (row dc dc dc dc dc)
      (row dc dc dc dc dc)

-- The running value and the next bit of a reduction.
unfoldable pub reduce_and_bit : Logic → Logic → Logic
reduce_and_bit =
    table (row lo lo lo lo dc) (row lo hi dc dc dc) (row lo dc dc dc dc) (row lo dc dc dc dc)
      (row dc dc dc dc dc)

unfoldable pub reduce_or_bit : Logic → Logic → Logic
reduce_or_bit =
    table (row lo hi dc dc dc) (row hi hi hi hi dc) (row dc hi dc dc dc) (row dc hi dc dc dc)
      (row dc dc dc dc dc)

unfoldable pub reduce_xor_bit : Logic → Logic → Logic
reduce_xor_bit =
    table (row lo hi dc dc dc) (row hi lo dc dc dc) (row dc dc dc dc dc) (row dc dc dc dc dc)
      (row dc dc dc dc dc)

-- Used by `==`.
unfoldable pub logic_equ : Logic → Logic → Logic
logic_equ =
    table (row hi lo dc dc dc) (row lo hi dc dc dc) (row dc dc dc dc dc) (row dc dc dc dc dc)
      (row dc dc dc dc dc)

-- Used by `<`: `z` says that this position does not decide.
unfoldable pub logic_les : Logic → Logic → Logic
logic_les =
    table (row z hi dc dc dc) (row lo z dc dc dc) (row dc dc dc dc dc) (row dc dc dc dc dc)
      (row dc dc dc dc dc)

-- Used by `===` and `case`.
unfoldable pub logic_eqc : Logic → Logic → Logic
logic_eqc =
    table (row hi lo lo lo lo) (row lo hi lo lo lo) (row lo lo hi lo lo) (row lo lo lo hi lo)
      (row lo lo lo lo hi)

-- Used by `casex`.
unfoldable pub logic_eqx : Logic → Logic → Logic
logic_eqx =
    table (row hi lo hi hi lo) (row lo hi hi hi lo) (row hi hi hi hi lo) (row hi hi hi hi lo)
      (row lo lo lo lo hi)

-- Used by `casez`.
unfoldable pub logic_eqz : Logic → Logic → Logic
logic_eqz =
    table (row hi lo lo hi lo) (row lo hi lo hi lo) (row lo lo hi hi lo) (row hi hi hi hi lo)
      (row lo lo lo lo hi)

-- `edge_detect(f, t)`, the edge of a bit that goes from `f` to `t`.
unfoldable pub edge_detect : Logic → Logic → Edge
edge_detect =
    table (row no_edge pos_edge pos_edge pos_edge no_edge)
      (row neg_edge no_edge neg_edge neg_edge no_edge)
      (row neg_edge pos_edge no_edge no_edge no_edge)
      (row neg_edge pos_edge no_edge no_edge no_edge) (row no_edge no_edge no_edge no_edge no_edge)

-- `operator==` on bits.
unfoldable pub same_bit : Logic → Logic → Bool
same_bit a b = to_int a == to_int b

-- `operator char`, as a character code.
unfoldable pub to_char : Logic → ℕ
to_char lo = b'0'
to_char hi = b'1'
to_char dc = b'x'
to_char z = b'z'
to_char nvl = b'.'

-- The bit that `static_cast<state_value>(pad & 1)` gives.
unfoldable pub of_parity : ℕ → Logic
of_parity n = if n % 2 == 0 then lo else hi
