-- ===== src/Statement/Ranks/Classes.antt =====
-- What if, case and task enable statements of src/stmt/strigger.cc keep of the blocks.
use verilog_behavioral_simul.Base.{
  Bool, List, Option, [], false, if◌then◌else◌, none, refl, some, true, ℕ, ◌<◌, ◌∷◌, ◌≡◌, ◌≤◌,
}
use verilog_behavioral_simul.BitVector.{BitVector}
use verilog_behavioral_simul.Statement.{
  CaseItem, CaseType, Engine, Outcome, done, fault, spent, ◌>>=◌,
}
use verilog_behavioral_simul.Statement.Branch.{
  after_item, any_match, case_item, case_loop, case_of, drop_status, if_else, item_of, optional,
  or_default, with_status,
}
use verilog_behavioral_simul.Statement.Interface.{Call, Interface, compare_case, eval, test}
use verilog_behavioral_simul.Statement.Ranks.{
  Callee, DefaultBelow, IsQuiet-same, ItemsBelow, Keeps, KeepsAfter, OptionBelow, Ranking,
  Keeps-add, if_KeepsAfter,
}

module _ (g : Ranking) {X L S : Type 0} (i : Interface X L S) where
  pub eval-Keeps :
      (r : ℕ) (m0 : Engine X L S) (e : X) (m : Engine X L S)
      → Keeps g r m0 m
      → Keeps g r m0 (eval i e m).1
  eval-Keeps r m0 e m k = Keeps-add g r m0 m _ k (IsQuiet-same g m _ refl refl)

  -- A case item that matched has triggered its statement; one that did not has done nothing.
  abbrev pub ItemKeeps : ℕ → Engine X L S → Outcome (Bool × Bool × Engine X L S) → Type 0
  ItemKeeps r m (done (true, true, m')) = Keeps g r m m'
  ItemKeeps r m (done (false, true, m')) = Unit
  ItemKeeps r m (done (ret, false, m')) = Keeps g r m m'
  ItemKeeps r m fault = Unit
  ItemKeeps r m spent = Unit

  any_match-Keeps :
      (r : ℕ) (m0 : Engine X L S) (t : CaseType) (v : BitVector) (es : List X) (m : Engine X L S)
      → Keeps g r m0 m
      → Keeps g r m0 (any_match i t v es m).1
  unfolding any_match
  any_match-Keeps r m0 t v [] m k = k
  any_match-Keeps r m0 t v (e ∷ es) m k =
      let h = eval-Keeps r m0 e m k in
      let rest = any_match-Keeps r m0 t v es (eval i e m).1 h in
      go (compare_case t v (eval i e m).0) h rest
    where
      go :
          (b : Bool)
          → Keeps g r m0 (eval i e m).1
          → Keeps g r m0 (any_match i t v es (eval i e m).1).1
          → Keeps g r m0 (if b then (true, (eval i e m).1) else any_match i t v es (eval i e m).1).1
      go true h rest = h
      go false h rest = rest

  module _ (call : Call X L S) (c : Callee g call) where
    optional-Keeps :
        (r : ℕ) (m0 : Engine X L S) (parent : ℕ) (o : Option ℕ) (m : Engine X L S)
        → r ≤ g.rank parent
        → OptionBelow g r o
        → Keeps g r m0 m
        → KeepsAfter g r m0 (optional call parent o m)
    optional-Keeps r m0 parent none m up below k = k
    optional-Keeps r m0 parent (some s) m up below k = c.lower r m0 m parent s below up k

    pub if_else-Keeps :
        (r : ℕ) (m0 : Engine X L S) (parent : ℕ) (e : X) (t : ℕ) (f : Option ℕ) (m : Engine X L S)
        → r ≤ g.rank parent
        → g.rank t < r
        → OptionBelow g r f
        → Keeps g r m0 m
        → KeepsAfter g r m0 (if_else i call parent e t f m)
    unfolding if_else
    if_else-Keeps r m0 parent e t f m up below_t below_f k =
        let h = eval-Keeps r m0 e m k in
        if_KeepsAfter g r m0 (test i e m).0 _ _ (c.lower r m0 _ parent t below_t up h)
          (optional-Keeps r m0 parent f _ up below_f h)

    with_status-Keeps :
        (r : ℕ) (m0 : Engine X L S) (o : Outcome (Bool × Engine X L S))
        → KeepsAfter g r m0 o
        → ItemKeeps r m0 (o >>= with_status true)
    with_status-Keeps r m0 (done (true, m)) k = k
    with_status-Keeps r m0 (done (false, m)) k = tt
    with_status-Keeps r m0 fault k = tt
    with_status-Keeps r m0 spent k = tt

    if_ItemKeeps :
        (r : ℕ) (m0 : Engine X L S) (b : Bool) (x y : Outcome (Bool × Bool × Engine X L S))
        → ItemKeeps r m0 x
        → ItemKeeps r m0 y
        → ItemKeeps r m0 (if b then x else y)
    if_ItemKeeps r m0 true x y p q = p
    if_ItemKeeps r m0 false x y p q = q

    item_of-Keeps :
        (r : ℕ) (m0 : Engine X L S) (parent stmt : ℕ) (t : CaseType) (v : BitVector)
        (o : Option (List X)) (m : Engine X L S)
        → r ≤ g.rank parent
        → g.rank stmt < r
        → elim o [ none ↦ true | some es ↦ false ] ≡ false
        → Keeps g r m0 m
        → ItemKeeps r m0 (item_of i call parent stmt t v o m)
    item_of-Keeps r m0 parent stmt t v none m up below e k = cc
    item_of-Keeps r m0 parent stmt t v (some es) m up below e k =
        let h = any_match-Keeps r m0 t v es m k in
        if_ItemKeeps r m0 (any_match i t v es m).0 _ _
          (with_status-Keeps r m0 (call parent stmt (any_match i t v es m).1)
            (c.lower r m0 _ parent stmt below up h))
          h

    case_loop-Keeps :
        (r : ℕ) (m0 : Engine X L S) (parent : ℕ) (t : CaseType) (v : BitVector) (ret : Bool)
        (items : List (CaseItem X)) (m : Engine X L S)
        → r ≤ g.rank parent
        → ItemsBelow g r items
        → Keeps g r m0 m
        → ItemKeeps r m0 (case_loop i call parent t v ret items m)
    unfolding case_loop case_item
    case_loop-Keeps r m0 parent t v true [] m up below k = k
    case_loop-Keeps r m0 parent t v false [] m up below k = k
    case_loop-Keeps r m0 parent t v ret (item ∷ items) m up (some_exprs, below, rest) k =
        go (item_of i call parent item.stmt t v item.exprs m)
          (item_of-Keeps r m0 parent item.stmt t v item.exprs m up below some_exprs k)
          (λ ret' m1 h. case_loop-Keeps r m0 parent t v ret' items m1 up rest h)
      where
        go :
            (o : Outcome (Bool × Bool × Engine X L S))
            → ItemKeeps r m0 o
            → ((ret' : Bool) (m1 : Engine X L S)
                → Keeps g r m0 m1
                → ItemKeeps r m0 (case_loop i call parent t v ret' items m1))
            → ItemKeeps r m0 (o >>= after_item λ ret' m1. case_loop i call parent t v ret' items m1)
        go (done (true, true, m1)) h next = h
        go (done (false, true, m1)) h next = tt
        go (done (true, false, m1)) h next = next true m1 h
        go (done (false, false, m1)) h next = next false m1 h
        go fault h next = tt
        go spent h next = tt

    drop_status-Keeps :
        (r : ℕ) (m0 : Engine X L S) (b : Bool) (o : Outcome (Bool × Engine X L S))
        → KeepsAfter g r m0 o
        → KeepsAfter g r m0 (o >>= with_status b >>= drop_status)
    drop_status-Keeps r m0 b (done (true, m)) k = k
    drop_status-Keeps r m0 b (done (false, m)) k = tt
    drop_status-Keeps r m0 b fault k = tt
    drop_status-Keeps r m0 b spent k = tt

    default-Keeps :
        (r : ℕ) (m0 : Engine X L S) (parent stmt : ℕ) (t : CaseType) (v : BitVector)
        (o : Option (List X)) (m : Engine X L S)
        → r ≤ g.rank parent
        → g.rank stmt < r
        → Keeps g r m0 m
        → KeepsAfter g r m0 (item_of i call parent stmt t v o m >>= drop_status)
    default-Keeps r m0 parent stmt t v none m up below k =
        drop_status-Keeps r m0 false (call parent stmt m) (c.lower r m0 m parent stmt below up k)
    default-Keeps r m0 parent stmt t v (some es) m up below k =
        let h = any_match-Keeps r m0 t v es m k in
        go (any_match i t v es m).0 h (
          drop_status-Keeps r m0 true _
            (c.lower r m0 (any_match i t v es m).1 parent stmt below up h))
      where
        go :
            (b : Bool)
            → Keeps g r m0 (any_match i t v es m).1
            → KeepsAfter g r m0
                (call parent stmt (any_match i t v es m).1 >>= with_status true >>= drop_status)
            → KeepsAfter g r m0 (
                (if b
                  then (call parent stmt (any_match i t v es m).1 >>= with_status true)
                  else done (true, false, (any_match i t v es m).1))
                >>= drop_status)
        go true h s = s
        go false h s = h

    or_default-Keeps :
        (r : ℕ) (m0 : Engine X L S) (parent : ℕ) (t : CaseType) (v : BitVector)
        (d : Option (CaseItem X)) (o : Outcome (Bool × Bool × Engine X L S))
        → r ≤ g.rank parent
        → DefaultBelow g r d
        → ItemKeeps r m0 o
        → KeepsAfter g r m0 (o >>= or_default i call parent t v d)
    unfolding case_item
    or_default-Keeps r m0 parent t v d (done (true, true, m)) up below k = k
    or_default-Keeps r m0 parent t v d (done (false, true, m)) up below k = tt
    or_default-Keeps r m0 parent t v none (done (true, false, m)) up below k = k
    or_default-Keeps r m0 parent t v none (done (false, false, m)) up below k = tt
    or_default-Keeps r m0 parent t v (some item) (done (true, false, m)) up below k =
        default-Keeps r m0 parent item.stmt t v item.exprs m up below k
    or_default-Keeps r m0 parent t v (some item) (done (false, false, m)) up below k =
        default-Keeps r m0 parent item.stmt t v item.exprs m up below k
    or_default-Keeps r m0 parent t v d fault up below k = tt
    or_default-Keeps r m0 parent t v d spent up below k = tt

    pub case_of-Keeps :
        (r : ℕ) (m0 : Engine X L S) (parent : ℕ) (t : CaseType) (e : X) (items : List (CaseItem X))
        (d : Option (CaseItem X)) (m : Engine X L S)
        → r ≤ g.rank parent
        → ItemsBelow g r items
        → DefaultBelow g r d
        → Keeps g r m0 m
        → KeepsAfter g r m0 (case_of i call parent t e items d m)
    unfolding case_of
    case_of-Keeps r m0 parent t e items d m up below_items below_d k =
        or_default-Keeps r m0 parent t (eval i e m).0 d _ up below_d (
          case_loop-Keeps r m0 parent t (eval i e m).0 true items _ up below_items
            (eval-Keeps r m0 e m k))
