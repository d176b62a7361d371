-- ===== src/SymbolTable/Refusal.antt =====
-- `add` of src/common/sym_tab.cc on symbols that `find` can see.
use verilog_behavioral_simul.Base.{
  ℕ, zero, suc, ◌-◌, ◌==◌, ◌≡◌, refl, sym, ◌∙◌, Bool, true, false, Option, none, some, [], ◌∷◌, leb,
  if◌then◌else◌, ℤ, negsuc,
}
use verilog_behavioral_simul.SymbolTable.{
  Name, same_name, HashValue, Node, Table, hash, rehash, get, AddResult, duplicate, add_loop, add,
  no_table, undefined, found, find_loop, find_scopes, find,
}
use verilog_behavioral_simul.SymbolTable.Lookup.{hash-scope}
use verilog_behavioral_simul.SymbolTable.Turns.{add_loop-some, find_loop-some}

find_loop-none :
    (k i : ℕ) (idx : HashValue) (t : Table) (n : Name)
    → get t idx ≡ none
    → find_loop (suc k) i idx n t ≡ none
unfolding find_loop
find_loop-none k i idx t n e = rw (find_loop, e) refl

-- Where the loop of `find` sees a symbol, the loop of `add` meets it.
module _ (p : Node) (t : Table) (j : HashValue) where
  Meets : ℕ → ℕ → HashValue → Type 0
  Meets k i idx = find_loop k i idx p.name t ≡ some j → add_loop k i idx p t ≡ (duplicate, t)

  meets_some :
      (k i : ℕ) (idx : HashValue) (tmp : Node) (b : Bool)
      → Meets k (suc i) (rehash t.size idx (suc i))
      → (if b then some idx else find_loop k (suc i) (rehash t.size idx (suc i)) p.name t) ≡ some j
      → ◌≡◌ {A = AddResult × Table}
          (if b then (duplicate, t) else add_loop k (suc i) (rehash t.size idx (suc i)) p t)
          (duplicate, t)
  unfolding Meets
  meets_some k i idx tmp true ih h = refl
  meets_some k i idx tmp false ih h = ih h

  find_loop-Meets : (k i : ℕ) (idx : HashValue) → Meets k i idx
  unfolding Meets find_loop
  find_loop-Meets zero i idx h = cc
  find_loop-Meets (suc k) i idx h =
      turn (find_loop-Meets k (suc i) (rehash t.size idx (suc i))) (get t idx) refl
    where
      turn :
          Meets k (suc i) (rehash t.size idx (suc i))
          → (o : Option Node) → get t idx ≡ o
          → add_loop (suc k) i idx p t ≡ (duplicate, t)
      turn ih none e = let c : none ≡ some j = sym (find_loop-none k i idx t p.name e) ∙ h in cc
      turn ih (some tmp) e =
          add_loop-some k i idx t p tmp e
          ∙ meets_some k i idx tmp (same_name tmp.name p.name) ih
              (sym (find_loop-some k i idx t p.name tmp e) ∙ h)

-- What an answer of `find` in one scope says of the table and of the loop.
find-inner :
    (t : Table) (n : Name) (sc : ℤ) (init : Bool) (j : HashValue)
    → find t n (sc ∷ []) init ≡ found j
    → ((t.size == 0) ≡ false)
      × (find_loop (t.size - 1) 1 (record (hash t.size n (negsuc 0) init) { scope = sc }) n t
          ≡ some j)
unfolding find find_scopes
find-inner t n sc init j h = go (t.size == 0) (t.amount == 0) _ h
  where
    go :
        (a b : Bool) (o : Option HashValue)
        → (if a
            then no_table
            else if b
            then undefined
            else elim o [ some idx ↦ found idx | none ↦ undefined ])
          ≡ found j
        → (a ≡ false) × (o ≡ some j)
    go true b o e = cc
    go false true o e = cc
    go false false none e = cc
    go false false (some idx) e = (refl, cc)

past_guards :
    {A : Type 0} (a b : Bool) (x y r : A)
    → a ≡ false
    → b ≡ false
    → (if a then x else if b then y else r) ≡ r
past_guards true b x y r h k = cc
past_guards false true x y r h k = cc
past_guards false false x y r h k = refl

add-inside :
    (t : Table) (p : Node) (init : Bool)
    → (t.size == 0) ≡ false
    → leb t.size t.amount ≡ false
    → add t p init ≡ add_loop (t.size - 1) 1 (hash t.size p.name p.scope init) p t
unfolding add
add-inside t p init hs room = past_guards (t.size == 0) (leb t.size t.amount) _ _ _ hs room

-- `add` refuses a symbol, and leaves the table as it is, if `find` gives one of the same name in
-- the same scope and the table is not full.
pub add-duplicate :
    (t : Table) (p : Node) (init : Bool) (j : HashValue)
    → find t p.name (p.scope ∷ []) init ≡ found j
    → leb t.size t.amount ≡ false
    → add t p init ≡ (duplicate, t)
unfolding Meets
add-duplicate t p init j h room =
    let (hs, f) = find-inner t p.name p.scope init j h in
    add-inside t p init hs room
    ∙ find_loop-Meets p t j (t.size - 1) 1 (hash t.size p.name p.scope init)
        (rw (hash-scope t.size p init hs).1 at f)
