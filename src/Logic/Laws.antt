-- ===== src/Logic/Laws.antt =====
-- The tables of src/common/logic.h against what they stand for: a bit that is not known may turn
-- out 0 or 1, and an operator may answer only what holds for each way it may turn out.
use verilog_behavioral_simul.Base.{Bool, true, false, not, ◌&&◌, ◌||◌, List, [], ◌∷◌, ◌++◌, map}
use verilog_behavioral_simul.Base.{arith, ℕ, ◌≡◌, refl, ◌≢◌, if◌then◌else◌, ltb}
use verilog_behavioral_simul.Logic.{
  Logic, lo, hi, dc, z, nvl, no_edge, pos_edge, neg_edge, edge_detect, logic_and, logic_nand,
  logic_or, logic_nor, logic_xor, logic_xnor, logic_equ, logic_eqc, logic_eqx, logic_eqz, same_bit,
}

-- The Boolean values that a bit may turn out to have.
abbrev pub outcomes : Logic → List Bool
outcomes lo = false ∷ []
outcomes hi = true ∷ []
outcomes _ = false ∷ true ∷ []

abbrev pub of_bool : Bool → Logic
of_bool false = lo
of_bool true = hi

-- The one value that all elements share, or `dc`.
abbrev pub join : Bool → Logic → Logic
join false lo = lo
join true hi = hi
join _ _ = dc

abbrev pub agree : List Bool → Logic
agree [] = dc
agree (b ∷ []) = of_bool b
agree (b ∷ c ∷ bs) = join b (agree (c ∷ bs))

abbrev pub pairs : (Bool → Bool → Bool) → List Bool → List Bool → List Bool
pairs f [] ys = []
pairs f (x ∷ xs) ys = map (f x) ys ++ pairs f xs ys

-- The sharpest answer of `f` on two bits: known exactly if every outcome gives it.
abbrev pub sharp : (Bool → Bool → Bool) → Logic → Logic → Logic
sharp f a b = agree (pairs f (outcomes a) (outcomes b))

abbrev pub bxor : Bool → Bool → Bool
bxor a true = not a
bxor a false = a

abbrev pub beq : Bool → Bool → Bool
beq a b = not (bxor a b)

-- On bits other than `nvl` the tables of &, ~&, |, ~|, ^, ~^ and == answer a known bit exactly
-- if every way the operands may turn out gives that bit, and `dc` if not.
pub logic_tables_sharp :
    (a b : Logic)
    → a ≢ nvl
    → b ≢ nvl
    → (logic_and a b ≡ sharp ◌&&◌ a b)
      × (logic_nand a b ≡ sharp (λ x y. not (x && y)) a b)
      × (logic_or a b ≡ sharp ◌||◌ a b)
      × (logic_nor a b ≡ sharp (λ x y. not (x || y)) a b)
      × (logic_xor a b ≡ sharp bxor a b)
      × (logic_xnor a b ≡ sharp beq a b)
      × (logic_equ a b ≡ sharp beq a b)
unfolding logic_and logic_nand logic_or logic_nor logic_xor logic_xnor logic_equ
logic_tables_sharp nvl b h k = absurd (h refl)
logic_tables_sharp a nvl h k = absurd (k refl)
logic_tables_sharp _ _ h k = (refl, refl, refl, refl, refl, refl, refl)

abbrev pub meets : List Bool → List Bool → Bool
meets [] ys = false
meets (x ∷ xs) [] = false
meets (false ∷ xs) (false ∷ ys) = true
meets (true ∷ xs) (true ∷ ys) = true
meets (x ∷ xs) (y ∷ ys) = meets (x ∷ xs) ys || meets xs (y ∷ ys)

abbrev pub is_z : Logic → Bool
is_z z = true
is_z _ = false

-- The three tables of the case statements, on bits other than `nvl`: === answers 1 exactly on
-- equal states, the one of casex on bits that can turn out equal, the one of casez on equal
-- states or where an operand is z; each answers 0 on all other bits, never `dc`.
pub case_tables_lem :
    (a b : Logic)
    → a ≢ nvl
    → b ≢ nvl
    → (logic_eqc a b ≡ of_bool (same_bit a b))
      × (logic_eqx a b ≡ of_bool (meets (outcomes a) (outcomes b)))
      × (logic_eqz a b ≡ of_bool (same_bit a b || is_z a || is_z b))
unfolding logic_eqc logic_eqx logic_eqz same_bit
case_tables_lem nvl b h k = absurd (h refl)
case_tables_lem a nvl h k = absurd (k refl)
case_tables_lem _ _ h k = (refl, refl, refl)

-- 0 below the unknown states below 1, as the standard orders them for edges.
abbrev pub rank : Logic → ℕ
rank lo = 0
rank hi = 2
rank _ = 1

-- A change of a bit is a positive edge exactly if its state rises in the order 0, x or z, 1,
-- a negative edge exactly if it falls, and no edge from or to `nvl`.
pub edge_detect_lem :
    (f t : Logic)
    → edge_detect f t ≡ (
        if same_bit f nvl || same_bit t nvl
        then no_edge
        else if ltb (rank f) (rank t)
        then pos_edge
        else if ltb (rank t) (rank f)
        then neg_edge
        else no_edge)
unfolding edge_detect same_bit
edge_detect_lem f t = ground arith
