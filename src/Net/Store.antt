-- ===== src/Net/Store.antt =====
-- The stores of `st_net_assign` in src/common/st_util.cc, and of `st_function` in
-- src/common/st_func.cc: a number, or the part of it that an element of an lvalue takes, over a
-- vector or over the part of it that is selected.
use verilog_behavioral_simul.Base.{
  Bool, List, Option, false, if◌then◌else◌, is_neg, ltb, not, some, true, ℕ, ℤ, ◌>>=◌,
}
use verilog_behavioral_simul.BitVector.{BitVector, cells}
use verilog_behavioral_simul.BitVector.Assign.{assign}
use verilog_behavioral_simul.BitVector.Select.{
  Span, assign_selected, read, select, select_const, write_selected,
}
use verilog_behavioral_simul.Expression.Evaluate.{written}
use verilog_behavioral_simul.Logic.{Logic}
use verilog_behavioral_simul.Net.{Net, at_index, is_mem, is_minus_one}

-- `dst = num` or `dst = num(ms, ls)`.
unfoldable pub store_whole : BitVector → BitVector → ℤ → ℤ → Bool → Option BitVector
unfolding assign select_const assign_selected
store_whole dst num ms ls true = select_const num ms ls >>= λ sp. assign_selected dst num sp
store_whole dst num ms ls false = some (assign dst num)

-- The cells of `num(ms, ls)` that an assignment to `n` cells reads.
abbrev pub part_of : BitVector → Span → ℕ → Option (List Logic)
part_of num sp n = read (cells num) sp.first (if ltb sp.count n then sp.count else n)

-- `dst(m, l) = num` or `dst(m, l) = num(ms, ls)`.
unfoldable pub store_part : BitVector → ℤ → ℤ → BitVector → ℤ → ℤ → Bool → Option BitVector
unfolding select select_const read write_selected
store_part dst m l num ms ls true = select dst m l >>= λ sp. select_const num ms ls >>= λ from.
    part_of num from sp.count >>= λ src. written (write_selected dst sp src num.sign)
store_part dst m l num ms ls false =
    select dst m l >>= λ sp. written (write_selected dst sp num.bits num.sign)

-- The store into a net: of a memory an element, which is written whole.
unfoldable pub store_net : Net → BitVector → ℤ → ℤ → ℤ → ℤ → Option BitVector
unfolding store_whole store_part
store_net n num ms ls m l =
    if is_mem n
    then store_whole (n.storage (at_index m)) num ms ls (not (is_minus_one ms))
    else if is_minus_one m
    then store_whole (n.storage 0) num ms ls (not (is_minus_one ms))
    else store_part (n.storage 0) m l num ms ls (not (is_minus_one ms))

-- `st_function::assignment`, which tests the signs.
unfoldable pub store_function : BitVector → BitVector → ℤ → ℤ → ℤ → ℤ → Option BitVector
unfolding store_whole store_part
store_function storage num ms ls m l =
    if is_neg m
    then store_whole storage num ms ls (not (is_neg ms))
    else store_part storage m l num ms ls (not (is_neg ms))
