-- ===== src/Statement/Branch.antt =====
-- If and case: `trigger_stmt` and `trigger_case_item` in src/stmt/strigger.cc.
use verilog_behavioral_simul.Base.{
  Bool, List, Option, [], false, if◌then◌else◌, none, some, true, ℕ, ◌∷◌,
}
use verilog_behavioral_simul.BitVector.{BitVector}
use verilog_behavioral_simul.Statement.{CaseItem, CaseType, Engine, Outcome, done, ◌>>=◌}
use verilog_behavioral_simul.Statement.Interface.{Call, Interface, compare_case, eval, test}

module _ {X L S : Type 0} where
  abbrev pub optional : Call X L S → ℕ → Option ℕ → Engine X L S → Outcome (Bool × Engine X L S)
  optional call parent none m = done (true, m)
  optional call parent (some s) m = call parent s m

  -- The result of a statement beside the status, and without it.
  abbrev pub with_status : Bool → Bool × Engine X L S → Outcome (Bool × Bool × Engine X L S)
  with_status status r = done (r.0, status, r.1)

  abbrev pub drop_status : Bool × Bool × Engine X L S → Outcome (Bool × Engine X L S)
  drop_status d = done (d.0, d.2)

  -- After a case item: the loop ends where its status is set.
  abbrev pub after_item :
      (Bool → Engine X L S → Outcome (Bool × Bool × Engine X L S))
      → Bool × Bool × Engine X L S
      → Outcome (Bool × Bool × Engine X L S)
  after_item go_on (ret, true, m) = done (ret, true, m)
  after_item go_on (ret, false, m) = go_on ret m

module _ {X L S : Type 0} (i : Interface X L S) where
  unfoldable pub if_else :
      Call X L S → ℕ → X → ℕ → Option ℕ → Engine X L S → Outcome (Bool × Engine X L S)
  if_else call parent e true_stmt false_stmt m =
      let (b, m1) = test i e m in
      if b then call parent true_stmt m1 else optional call parent false_stmt m1

  -- The loop of a case item over its expressions: whether one of them matches.
  unfoldable pub any_match : CaseType → BitVector → List X → Engine X L S → Bool × Engine X L S
  any_match t v [] m = (false, m)
  any_match t v (e ∷ es) m =
      let (w, m1) = eval i e m in
      let rest = any_match t v es m1 in if compare_case t v w then (true, m1) else rest

  abbrev pub item_of :
      Call X L S
      → ℕ
      → ℕ
      → CaseType
      → BitVector
      → Option (List X)
      → Engine X L S
      → Outcome (Bool × Bool × Engine X L S)
  item_of call parent stmt t v none m = call parent stmt m >>= with_status false
  item_of call parent stmt t v (some es) m =
      let (matched, m1) = any_match t v es m in
      if matched then (call parent stmt m1 >>= with_status true) else done (true, false, m1)

  -- `trigger_case_item`: the result of the statement, and the status.
  unfoldable pub case_item :
      Call X L S
      → ℕ
      → CaseType
      → BitVector
      → CaseItem X
      → Engine X L S
      → Outcome (Bool × Bool × Engine X L S)
  unfolding any_match
  case_item call parent t v item m = item_of call parent item.stmt t v item.exprs m

  -- The default is triggered where no item matched.
  abbrev pub or_default :
      Call X L S
      → ℕ
      → CaseType
      → BitVector
      → Option (CaseItem X)
      → Bool × Bool × Engine X L S
      → Outcome (Bool × Engine X L S)
  or_default call parent t v default (ret, true, m) = done (ret, m)
  or_default call parent t v none (ret, false, m) = done (ret, m)
  or_default call parent t v (some item) (ret, false, m) =
      case_item call parent t v item m >>= drop_status

  -- The items in their order up to the first that matches, with the last result.
  unfoldable pub case_loop :
      Call X L S
      → ℕ
      → CaseType
      → BitVector
      → Bool
      → List (CaseItem X)
      → Engine X L S
      → Outcome (Bool × Bool × Engine X L S)
  unfolding case_item
  case_loop call parent t v ret [] m = done (ret, false, m)
  case_loop call parent t v ret (item ∷ items) m =
      case_item call parent t v item m
      >>= after_item λ ret' m1. case_loop call parent t v ret' items m1

  unfoldable pub case_of :
      Call X L S
      → ℕ
      → CaseType
      → X
      → List (CaseItem X)
      → Option (CaseItem X)
      → Engine X L S
      → Outcome (Bool × Engine X L S)
  unfolding case_loop
  case_of call parent t e items default m =
      let (v, m1) = eval i e m in
      case_loop call parent t v true items m1 >>= or_default call parent t v default
