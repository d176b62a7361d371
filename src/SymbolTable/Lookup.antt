-- ===== src/SymbolTable/Lookup.antt =====
-- What `find` of src/common/sym_tab.cc sees of what `add` has stored.
use verilog_behavioral_simul.Base.{
  ==_iff, ℕ, zero, suc, ◌-◌, ◌==◌, ◌||◌, ◌≡◌, refl, sym, ap, ◌∙◌, subst, Bool, true, false, not,
  Option, none, some, List, ◌∷◌, leb, if◌then◌else◌, ℤ, pos, negsuc, is_neg, same_int,
}
use verilog_behavioral_simul.SymbolTable.Amount.{Counts, Counted, add-Counted}
use verilog_behavioral_simul.SymbolTable.{
  Name, same_name, HashValue, Node, Table, hash, rehash, matches, get, put, AddResult,
  not_initialized, full, duplicate, stored, gave_up, add_loop, add, found, find_loop, find_scopes,
  find,
}
use verilog_behavioral_simul.SymbolTable.Turns.{
  Keeps, put-Keeps, same_number, get-put, put-size, rehash-rest, same_name_refl, add_loop-none,
  add_loop-some, find_loop-some,
}

matches-rehash :
    (n : ℕ) (idx : HashValue) (i : ℕ) (p : Node)
    → (n == 0) ≡ false
    → matches (rehash n idx i) p ≡ matches idx p
matches-rehash n idx i p h = let (s, t) = rehash-rest n idx i h in rw (s, t) refl

unfoldable pub stored_index : HashValue → AddResult → HashValue
stored_index d (stored idx) = idx
stored_index d _ = d

-- The loop of `find` retraces the loop of `add` that stored `p` at the index `j`.
Retraces : ℕ → ℕ → HashValue → Node → Table → Table → HashValue → Type 0
Retraces k i idx p t t' j =
    (find_loop k i idx p.name t' ≡ some j) × (get t' j ≡ some p) × Keeps t t' × (t'.size ≡ t.size)

module _ (p : Node) (t t' : Table) (j : HashValue) (hs : (t.size == 0) ≡ false) where
  Hypothesis : ℕ → ℕ → HashValue → Type 0
  Hypothesis k i idx =
      is_neg idx.scope ≡ false
      → matches idx p ≡ true
      → add_loop k i idx p t ≡ (stored j, t')
      → Retraces k i idx p t t' j

  turn_some :
      (k i : ℕ) (idx : HashValue) (tmp : Node)
      → Hypothesis k (suc i) (rehash t.size idx (suc i))
      → get t idx ≡ some tmp
      → is_neg idx.scope ≡ false
      → matches idx p ≡ true
      → (b : Bool) → same_name tmp.name p.name ≡ b
      → (if b then (duplicate, t) else add_loop k (suc i) (rehash t.size idx (suc i)) p t)
        ≡ (stored j, t')
      → Retraces (suc k) i idx p t t' j
  unfolding Hypothesis Retraces
  turn_some k i idx tmp ih e hn m true b h = let c : duplicate ≡ stored j = ap (λ x. x.0) h in cc
  turn_some k i idx tmp ih e hn m false b h =
      let (f, g, keep, sz) =
        ih (rw (rehash-rest t.size idx (suc i) hs).0 hn)
          (matches-rehash t.size idx (suc i) p hs ∙ m) h in
      (
        find_loop-some k i idx t' p.name tmp (keep idx tmp e)
            ∙ rw b (
                subst (λ n. find_loop k (suc i) (rehash n idx (suc i)) p.name t' ≡ some j) (sym sz)
                  f),
        g,
        keep,
        sz,
      )

  turn_none :
      (k i : ℕ) (idx : HashValue)
      → get t idx ≡ none
      → is_neg idx.scope ≡ false
      → matches idx p ≡ true
      → ◌≡◌ {A = AddResult × Table} (stored idx, put t idx.value p) (stored j, t')
      → Retraces (suc k) i idx p t t' j
  unfolding Retraces stored_index
  turn_none k i idx e hn m h =
      subst (λ u. Retraces (suc k) i idx p t u j) (ap (λ x. x.1) h)
        (subst (λ v. Retraces (suc k) i idx p t (put t idx.value p) v)
          (ap (λ x. stored_index idx x.0) h)
          (
            find_loop-some k i idx (put t idx.value p) p.name p (get-put t idx p hs hn m e)
                ∙ rw same_name_refl refl,
            get-put t idx p hs hn m e,
            put-Keeps t idx.value p,
            put-size t idx.value p,
          ))

  add_loop-Retraces : (k i : ℕ) (idx : HashValue) → Hypothesis k i idx
  unfolding Hypothesis add_loop
  add_loop-Retraces zero i idx hn m h = let c : gave_up idx ≡ stored j = ap (λ x. x.0) h in cc
  add_loop-Retraces (suc k) i idx hn m h =
      turn (add_loop-Retraces k (suc i) (rehash t.size idx (suc i))) (get t idx) refl
    where
      turn :
          Hypothesis k (suc i) (rehash t.size idx (suc i))
          → (o : Option Node) → get t idx ≡ o
          → Retraces (suc k) i idx p t t' j
      turn ih none e = turn_none k i idx e hn m (sym (add_loop-none k i idx t p e) ∙ h)
      turn ih (some tmp) e =
          turn_some k i idx tmp ih e hn m (same_name tmp.name p.name) refl
            (sym (add_loop-some k i idx t p tmp e) ∙ h)

same_number_iff : (a b : ℕ) → (a == b) ≡ true → a ≡ b
same_number_iff a b h = (==_iff a b).0 h

same_int_refl : (a : ℤ) → same_int a a ≡ true
same_int_refl (pos a) = same_number a
same_int_refl (negsuc a) = same_number a

hash-matches :
    (n : ℕ) (p : Node) (init : Bool)
    → (n == 0) ≡ false
    → (not init || p.has_instantiation) ≡ true
    → matches (hash n p.name p.scope init) p ≡ true
unfolding hash
hash-matches n p init hs e = rw (hs, same_int_refl, e) refl

pub hash-scope :
    (n : ℕ) (p : Node) (init : Bool)
    → (n == 0) ≡ false
    → ((hash n p.name p.scope init).scope ≡ p.scope)
      × ((record (hash n p.name (negsuc 0) init) { scope = p.scope }) ≡ hash n p.name p.scope init)
unfolding hash
hash-scope n p init hs = rw hs (refl, refl)

add-inside :
    (t t' : Table) (p : Node) (init : Bool) (j : HashValue)
    → add t p init ≡ (stored j, t')
    → ((t.size == 0) ≡ false)
      × (add_loop (t.size - 1) 1 (hash t.size p.name p.scope init) p t ≡ (stored j, t'))
unfolding add
add-inside t t' p init j h = go (t.size == 0) (leb t.size t.amount) _ h
  where
    go :
        (a b : Bool) (r : AddResult × Table)
        → (if a then (not_initialized, t) else if b then (full, t) else r) ≡ (stored j, t')
        → (a ≡ false) × (r ≡ (stored j, t'))
    go true b r e = let c : not_initialized ≡ stored j = ap (λ x. x.0) e in cc
    go false true r e = let c : full ≡ stored j = ap (λ x. x.0) e in cc
    go false false r e = (refl, e)

find_scopes-head :
    (t : Table) (orig j : HashValue) (n : Name) (sc : ℤ) (scopes : List ℤ)
    → find_loop (t.size - 1) 1 (record orig { scope = sc }) n t ≡ some j
    → find_scopes (sc ∷ scopes) orig n t ≡ found j
unfolding find_scopes
find_scopes-head t orig j n sc scopes f = rw (find_scopes, f) refl

find-inside :
    (t : Table) (n : Name) (scopes : List ℤ) (init : Bool)
    → (t.size == 0) ≡ false
    → (t.amount == 0) ≡ false
    → find t n scopes init ≡ find_scopes scopes (hash t.size n (negsuc 0) init) n t
unfolding find
find-inside t n scopes init hs ha = rw (hs, ha) refl

find-head :
    (t : Table) (p : Node) (init : Bool) (j : HashValue) (scopes : List ℤ)
    → (t.size == 0) ≡ false
    → (t.amount == 0) ≡ false
    → find_loop (t.size - 1) 1 (hash t.size p.name p.scope init) p.name t ≡ some j
    → find t p.name (p.scope ∷ scopes) init ≡ found j
find-head t p init j scopes hs ha f =
    find-inside t p.name (p.scope ∷ scopes) init hs ha
    ∙ find_scopes-head t (hash t.size p.name (negsuc 0) init) j p.name p.scope scopes (
        subst (λ x. find_loop (t.size - 1) 1 x p.name t ≡ some j)
          (sym (hash-scope t.size p init hs).1) f)

-- A symbol that `add` has stored, whose scope is not negative, and that has an instantiation if
-- one is asked for, is what its index gives, and `find` in a list of scopes that its own heads
-- gives this index. Whatever an index gave before, it gives still. The table that it was added to
-- is one in which a count of 0 means that every bucket is empty.
pub add-find :
    (t t' : Table) (p : Node) (init : Bool) (j : HashValue) (scopes : List ℤ)
    → add t p init ≡ (stored j, t')
    → is_neg p.scope ≡ false
    → (not init || p.has_instantiation) ≡ true
    → Counts t
    → (find t' p.name (p.scope ∷ scopes) init ≡ found j) × (get t' j ≡ some p) × Keeps t t'
unfolding Hypothesis Retraces
add-find t t' p init j scopes h hn e c =
    let counted : Counted (stored j, t') = subst (λ x. Counted x) h (add-Counted t p init c) in
    let (hs, run) = add-inside t t' p init j h in
    let (f, g, keep, sz) =
      add_loop-Retraces p t t' j hs (t.size - 1) 1 (hash t.size p.name p.scope init)
        (rw (hash-scope t.size p init hs).0 hn) (hash-matches t.size p init hs e) run in
    (
      (find-head t' p init j scopes (rw sz hs) counted.1 (
          subst (λ n. find_loop (n - 1) 1 (hash n p.name p.scope init) p.name t' ≡ some j) (sym sz)
            f)),
      g,
      keep,
    )
