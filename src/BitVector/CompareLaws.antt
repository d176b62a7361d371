-- ===== src/BitVector/CompareLaws.antt =====
-- The comparisons of src/common/bvector.h and bvector.cc on known bits, against the numbers.
use verilog_behavioral_simul.Base.{ℕ, Option, none, some, List, [], ◌∷◌, ltb, if◌then◌else◌}
use verilog_behavioral_simul.Logic.{Logic, lo, hi}
use verilog_behavioral_simul.BitVector.{BitVector}

-- The bits of the first list, extended by `hb` to at least the length of the second.
pub extend : Logic → List Logic → List Logic → List Logic
extend hb [] [] = []
extend hb [] (r ∷ rs) = hb ∷ extend hb [] rs
extend hb (l ∷ ls) [] = l ∷ extend hb ls []
extend hb (l ∷ ls) (r ∷ rs) = l ∷ extend hb ls rs

-- The answer of a comparison of two numbers from the top.
abbrev order_answer : ℕ → ℕ → Option Logic
order_answer a b = if ltb a b then some hi else if ltb b a then some lo else none
