-- ===== src/Net/Lvalue.antt =====
-- Lvalues: src/misc/lvalue.cc, and `trigger_lvalue` of src/misc/mtrigger.cc.
use verilog_behavioral_simul.Base.{List, Option, [], some, ℕ, ℤ, ◌>>=◌, ◌∷◌}
use verilog_behavioral_simul.BitVector.{BitVector, size}
use verilog_behavioral_simul.Net.{
  NameKind, SelectSize, Target, World, function_name, net_name, no_select, one_bit, part,
}
use verilog_behavioral_simul.Net.Assign.{assign_net}
use verilog_behavioral_simul.Net.Store.{store_function}
use verilog_behavioral_simul.Statement.{Shared, update}

module _ {X : Type 0} where
  abbrev pub put_lvalue : ℕ → List Target → World X → World X
  put_lvalue p ts w = record w { lvalues = update w.lvalues p ts }

  abbrev pub put_function : ℕ → BitVector → World X → World X
  put_function p v w = record w { functions = update w.functions p v }

-- What lvalues use: the kind of a name, and the position that it selects, which is evaluated.
module _ {X : Type 0} (kind_of : ℕ → NameKind)
    (get_select : ℕ → Shared (World X) → (SelectSize × ℤ × ℤ) × Shared (World X)) where
  unfoldable pub set_targets : List Target → Shared (World X) → List Target × Shared (World X)
  set_targets [] sh = ([], sh)
  set_targets (t ∷ ts) sh =
      let ((size, ms, ls), sh1) = get_select t.ident sh in
      let (rest, sh2) = set_targets ts sh1 in
      (record t { targ_size = size; targ_ms = ms; targ_ls = ls } ∷ rest, sh2)

  unfoldable pub set_target : ℕ → Shared (World X) → Shared (World X)
  unfolding set_targets update
  set_target p sh =
      let (ts, sh1) = set_targets (sh.nets.lvalues p) sh in
      record sh1 { nets = put_lvalue p ts sh1.nets }

  unfoldable pub clr_targets : List Target → List Target
  clr_targets [] = []
  clr_targets (t ∷ ts) = record t { targ_size = no_select } ∷ clr_targets ts

  unfoldable pub clr_target : ℕ → Shared (World X) → Shared (World X)
  unfolding clr_targets update
  clr_target p sh = record sh { nets = put_lvalue p (clr_targets (sh.nets.lvalues p)) sh.nets }

  -- The target of an element: what was kept, or what is selected now.
  abbrev pub target_of : Target → Shared (World X) → (ℤ × ℤ) × Shared (World X)
  target_of t sh = elim t.targ_size [
    | no_select ↦ let ((size, ms, ls), sh1) = get_select t.ident sh in ((ms, ls), sh1)
    | one_bit ↦ ((t.targ_ms, t.targ_ls), sh)
    | part ↦ ((t.targ_ms, t.targ_ls), sh)
  ]

  module _ (evaluate : X → Shared (World X) → BitVector × Shared (World X)) (fuel : ℕ) where
    -- The store into the net or the function of a name.
    unfoldable pub store_name :
        NameKind → BitVector → ℤ → ℤ → ℤ → ℤ → Shared (World X) → Option (Shared (World X))
    unfolding assign_net store_function update
    store_name (net_name n) num ms ls m l sh = assign_net evaluate fuel n num ms ls m l sh
    store_name (function_name f) num ms ls m l sh =
        store_function (sh.nets.functions f) num ms ls m l >>= λ v.
        some (record sh { nets = put_function f v sh.nets })

    unfoldable pub trigger_targets :
        BitVector → List Target → Shared (World X) → Option (Shared (World X))
    unfolding store_name
    trigger_targets num [] sh = some sh
    trigger_targets num (t ∷ ts) sh =
        let ((m, l), sh1) = target_of t sh in
        store_name (kind_of t.ident) num t.ms t.ls m l sh1 >>= λ sh2. trigger_targets num ts sh2

    unfoldable pub trigger_lvalue : ℕ → BitVector → Shared (World X) → Option (Shared (World X))
    unfolding trigger_targets
    trigger_lvalue p num sh = trigger_targets num (sh.nets.lvalues p) sh
