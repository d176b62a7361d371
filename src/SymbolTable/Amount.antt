-- ===== src/SymbolTable/Amount.antt =====
-- The count of used buckets of src/common/sym_tab.cc.
use verilog_behavioral_simul.Base.{
  ◌-◌, subst, ℕ, zero, suc, ◌+◌, ◌==◌, ◌≡◌, refl, sym, ◌∙◌, arith, Bool, true, false, List, [], ◌∷◌,
  if◌then◌else◌, leb, is_neg, ◌||◌, Bool-cases, inl, inr, Option, none, some,
}
use verilog_behavioral_simul.SymbolTable.{
  HashValue, Node, Table, new_table, put, erase_first, remove, add_loop, add, AddResult, get, hash,
  rehash, duplicate, gave_up, stored, same_name, not_initialized, full,
}
use verilog_behavioral_simul.SymbolTable.Turns.{add_loop-none, add_loop-some}

-- With a count of 0 every bucket is empty, so that `find` may stop there.
abbrev pub Counts : Table → Type 0
Counts t = (i : ℕ) → (t.amount == 0) ≡ true → t.buckets i ≡ []

put-amount : (t : Table) (i : ℕ) (p : Node) → Counts t → ((put t i p).amount == 0) ≡ false
unfolding put
put-amount t i p c = go (t.buckets i) refl
  where
    go :
        (ps : List Node)
        → t.buckets i ≡ ps
        → (elim ps [ [] ↦ t.amount + 1 | _ ↦ t.amount ] == 0) ≡ false
    go [] e = ground arith
    go (x ∷ xs) e = elim (Bool-cases (t.amount == 0)) [
      | inl h ↦ let f : [] ≡ x ∷ xs = sym (c i h) ∙ e in cc
      | inr h ↦ h
    ]

put-Counts : (t : Table) (i : ℕ) (p : Node) → Counts t → Counts (put t i p)
put-Counts t i p c j h = let f : false ≡ true = sym (put-amount t i p c) ∙ h in cc

-- What `add` should return with a table: where it has stored a symbol, the count is not 0.
abbrev pub Counted : AddResult × Table → Type 0
Counted (stored idx, t) = Counts t × ((t.amount == 0) ≡ false)
Counted (_, t) = Counts t

Counted-unstored :
    (b : Bool) (t : Table) (x : AddResult × Table)
    → Counts t
    → Counted x
    → Counted (if b then (duplicate, t) else x)
Counted-unstored true t x c d = c
Counted-unstored false t x c d = d

add_loop-Counted :
    (k i : ℕ) (idx : HashValue) (p : Node) (t : Table) → Counts t → Counted (add_loop k i idx p t)
unfolding add_loop
add_loop-Counted zero i idx p t c = c
add_loop-Counted (suc k) i idx p t c =
    turn (add_loop-Counted k (suc i) (rehash t.size idx (suc i)) p t c) (get t idx) refl
  where
    turn :
        Counted (add_loop k (suc i) (rehash t.size idx (suc i)) p t)
        → (o : Option Node) → get t idx ≡ o
        → Counted (add_loop (suc k) i idx p t)
    turn ih none e =
        subst (λ x. Counted x) (sym (add_loop-none k i idx t p e))
          (put-Counts t idx.value p c, put-amount t idx.value p c)
    turn ih (some tmp) e =
        subst (λ x. Counted x) (sym (add_loop-some k i idx t p tmp e))
          (Counted-unstored (same_name tmp.name p.name) t _ c ih)

pub add-Counted : (t : Table) (p : Node) (init : Bool) → Counts t → Counted (add t p init)
unfolding add
add-Counted t p init c =
    go (t.size == 0) (leb t.size t.amount) _
      (add_loop-Counted (t.size - 1) 1 (hash t.size p.name p.scope init) p t c)
  where
    go :
        (a b : Bool) (x : AddResult × Table)
        → Counted x
        → Counted (if a then (not_initialized, t) else if b then (full, t) else x)
    go true b x d = c
    go false true x d = c
    go false false x d = d

Counted-Counts : (x : AddResult × Table) → Counted x → Counts x.1
Counted-Counts (stored idx, t) d = d.0
Counted-Counts (not_initialized, t) d = d
Counted-Counts (full, t) d = d
Counted-Counts (duplicate, t) d = d
Counted-Counts (gave_up idx, t) d = d

remove-Counts : (t : Table) (idx : HashValue) → Counts t → Counts (remove idx t)
unfolding remove erase_first
remove-Counts t idx c = go (is_neg idx.scope || t.size == 0)
  where
    one :
        (b : Bool) (i : ℕ)
        → t.buckets i ≡ []
        → (if b then erase_first idx (t.buckets i) else t.buckets i) ≡ []
    one true i e = rw e refl
    one false i e = e

    go :
        (b : Bool)
        → Counts (
            if b then t else record t {
              buckets = λ j. if j == idx.value then erase_first idx (t.buckets j) else t.buckets j;
            })
    go true = c
    go false = λ i h. one (i == idx.value) i (c i h)

-- A count of 0 means that every bucket is empty, in a new table, and in what `add`, with whatever
-- result, and `remove` make of a table in which it means that.
pub add-remove-Counts :
    (t : Table) (p : Node) (init : Bool) (idx : HashValue) (s : ℕ)
    → Counts t
    → Counts (new_table s) × Counts (add t p init).1 × Counts (remove idx t)
unfolding new_table
add-remove-Counts t p init idx s c =
    (λ i h. refl, Counted-Counts (add t p init) (add-Counted t p init c), remove-Counts t idx c)
