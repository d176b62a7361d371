-- ===== src/Statement/Selection.antt =====
-- Case statements of src/stmt/strigger.cc, against the choice of the first item that matches.
use verilog_behavioral_simul.Base.{
  Bool, List, Option, [], ap, false, if◌then◌else◌, none, refl, some, true, ℕ, ◌∙◌, ◌∷◌, ◌≡◌,
}
use verilog_behavioral_simul.BitVector.{BitVector}
use verilog_behavioral_simul.Simulation.{is_none}
use verilog_behavioral_simul.Statement.{
  CaseItem, CaseType, Engine, Outcome, Shared, done, fault, is_default, spent, ◌>>=◌,
}
use verilog_behavioral_simul.Statement.Branch.{
  after_item, any_match, case_item, case_loop, case_of, drop_status, item_of, or_default,
  with_status,
}
use verilog_behavioral_simul.Statement.Interface.{Call, Interface, compare_case, eval}

-- The item that a case statement is to trigger, where `val` gives the values of expressions.
module _ {X : Type 0} where
  pub matches : CaseType → BitVector → (X → BitVector) → List X → Bool
  matches t v val [] = false
  matches t v val (e ∷ es) = if compare_case t v (val e) then true else matches t v val es

  -- No item of the list is a default: setup has taken it out.
  abbrev pub NoDefault : List (CaseItem X) → Type 0
  NoDefault [] = Unit
  NoDefault (item ∷ items) = (is_default item ≡ false) × NoDefault items

  abbrev pub item_matches : CaseType → BitVector → (X → BitVector) → Option (List X) → Bool
  item_matches t v val none = false
  item_matches t v val (some es) = matches t v val es

  pub first_match : CaseType → BitVector → (X → BitVector) → List (CaseItem X) → Option (CaseItem X)
  unfolding matches
  first_match t v val [] = none
  first_match t v val (item ∷ items) =
      if item_matches t v val item.exprs then some item else first_match t v val items

module _ {X L S : Type 0} (i : Interface X L S)
    (pure : (e : X) (sh : Shared S) → (i.evaluate e sh).1 ≡ sh) where
  eval-pure :
      (e : X) (m : Engine X L S)
      → ◌≡◌ {A = BitVector × Engine X L S} (eval i e m) ((i.evaluate e m.shared).0, m)
  eval-pure e m = ap (λ sh. ((i.evaluate e m.shared).0, record m { shared = sh })) (pure e m.shared)

  abbrev pub value_in : Engine X L S → X → BitVector
  value_in m e = (i.evaluate e m.shared).0

  if_pair :
      (b c : Bool) (m : Engine X L S)
      → ◌≡◌ {A = Bool × Engine X L S} (if b then (true, m) else (c, m)) (if b then true else c, m)
  if_pair true c m = refl
  if_pair false c m = refl

  any_match-matches :
      (t : CaseType) (v : BitVector) (es : List X) (m : Engine X L S)
      → ◌≡◌ {A = Bool × Engine X L S} (any_match i t v es m) (matches t v (value_in m) es, m)
  unfolding any_match matches
  any_match-matches t v [] m = refl
  any_match-matches t v (e ∷ es) m =
      ap
        (λ r.
          let (w, m1) = r in
          let rest = any_match i t v es m1 in if compare_case t v w then (true, m1) else rest)
        (eval-pure e m)
      ∙ ap (λ r. if compare_case t v (value_in m e) then (true, m) else r)
          (any_match-matches t v es m)
      ∙ if_pair (compare_case t v (value_in m e)) (matches t v (value_in m) es) m

  module _ (call : Call X L S) (parent : ℕ) where
    abbrev pub run_item : CaseItem X → Engine X L S → Outcome (Bool × Bool × Engine X L S)
    run_item item m = call parent item.stmt m >>= with_status true

    item_of-matches :
        (t : CaseType) (v : BitVector) (item : CaseItem X) (m : Engine X L S)
        → is_default item ≡ false
        → item_of i call parent item.stmt t v item.exprs m ≡ (
            if item_matches t v (value_in m) item.exprs
            then run_item item m
            else done (true, false, m))
    item_of-matches t v item m h = go item.exprs h
      where
        go :
            (o : Option (List X))
            → is_none o ≡ false
            → item_of i call parent item.stmt t v o m
              ≡ (if item_matches t v (value_in m) o then run_item item m else done (true, false, m))
        go none h = cc
        go (some es) h =
            ap
              (λ r.
                let (matched, m1) = r in
                if matched then run_item item m1 else done (true, false, m1))
              (any_match-matches t v es m)

    -- The item that is chosen, if there is one.
    abbrev pub run_chosen :
        Option (CaseItem X) → Engine X L S → Outcome (Bool × Bool × Engine X L S)
    run_chosen none m = done (true, false, m)
    run_chosen (some item) m = run_item item m

    case_loop-first_match :
        (t : CaseType) (v : BitVector) (items : List (CaseItem X)) (m : Engine X L S)
        → NoDefault items
        → case_loop i call parent t v true items m
          ≡ run_chosen (first_match t v (value_in m) items) m
    unfolding case_loop case_item first_match
    case_loop-first_match t v [] m n = refl
    case_loop-first_match t v (item ∷ items) m n =
        ap (λ o. o >>= after_item λ ret' m1. case_loop i call parent t v ret' items m1)
          (item_of-matches t v item m n.0)
        ∙ go (item_matches t v (value_in m) item.exprs) (case_loop-first_match t v items m n.1)
      where
        after_run :
            (o : Outcome (Bool × Engine X L S))
            → ((o >>= with_status true)
                >>= after_item λ ret' m1. case_loop i call parent t v ret' items m1)
              ≡ (o >>= with_status true)
        after_run (done (b, m')) = refl
        after_run fault = refl
        after_run spent = refl

        go :
            (b : Bool)
            → case_loop i call parent t v true items m
              ≡ run_chosen (first_match t v (value_in m) items) m
            → ((if b then run_item item m else done (true, false, m))
                >>= after_item λ ret' m1. case_loop i call parent t v ret' items m1)
              ≡ run_chosen (if b then some item else first_match t v (value_in m) items) m
        go true ih = after_run (call parent item.stmt m)
        go false ih = ih

    -- The statement that a case is to trigger: the item's, or the default's.
    abbrev pub run_choice :
        Option (CaseItem X) → Option (CaseItem X) → Engine X L S → Outcome (Bool × Engine X L S)
    run_choice (some item) default m = call parent item.stmt m
    run_choice none (some item) m = call parent item.stmt m
    run_choice none none m = done (true, m)

    abbrev pub DefaultIs : Option (CaseItem X) → Type 0
    DefaultIs none = Unit
    DefaultIs (some item) = is_default item ≡ true

    or_default-choice :
        (t : CaseType) (v : BitVector) (chosen default : Option (CaseItem X)) (m : Engine X L S)
        → DefaultIs default
        → (run_chosen chosen m >>= or_default i call parent t v default)
          ≡ run_choice chosen default m
    unfolding case_item
    or_default-choice t v (some item) default m d = go (call parent item.stmt m)
      where
        go :
            (o : Outcome (Bool × Engine X L S))
            → ((o >>= with_status true) >>= or_default i call parent t v default) ≡ o
        go (done (b, m')) = refl
        go fault = refl
        go spent = refl
    or_default-choice t v none none m d = refl
    or_default-choice t v none (some item) m d = go item.exprs d (call parent item.stmt m) refl
      where
        plain :
            (o : Outcome (Bool × Engine X L S)) → ((o >>= with_status false) >>= drop_status) ≡ o
        plain (done (b, m')) = refl
        plain fault = refl
        plain spent = refl

        go :
            (es : Option (List X))
            → is_none es ≡ true
            → (o : Outcome (Bool × Engine X L S)) → call parent item.stmt m ≡ o
            → (item_of i call parent item.stmt t v es m >>= drop_status) ≡ call parent item.stmt m
        go none q o e = plain (call parent item.stmt m)
        go (some l) q o e = cc

    -- When evaluating an expression changes nothing, and setup has taken the default out of the
    -- items, a case statement triggers the statement of the first item with an expression that
    -- matches, under the comparison of its kind, or else the statement of the default, or else
    -- nothing, and returns what that statement returns.
    pub case_of-first_match :
        (t : CaseType) (e : X) (items : List (CaseItem X)) (default : Option (CaseItem X))
        (m : Engine X L S)
        → NoDefault items
        → DefaultIs default
        → case_of i call parent t e items default m
          ≡ run_choice (first_match t (value_in m e) (value_in m) items) default m
    unfolding case_of
    case_of-first_match t e items default m n d =
        let v = value_in m e in
        ap
          (λ r.
            let (w, m1) = r in
            case_loop i call parent t w true items m1 >>= or_default i call parent t w default)
          (eval-pure e m)
        ∙ ap (λ o. o >>= or_default i call parent t v default) (case_loop-first_match t v items m n)
        ∙ or_default-choice t v (first_match t v (value_in m) items) default m d
