-- ===== src/SymbolTable/Turns.antt =====
-- The turns of the probing loops of src/common/sym_tab.cc.
use verilog_behavioral_simul.Base.{
  ℕ, suc, ◌==◌, ◌||◌, ◌≡◌, refl, sym, ◌∙◌, arith, Bool, true, false, Option, none, some, List, [],
  ◌∷◌, ◌++◌, if◌then◌else◌, is_neg,
}
use verilog_behavioral_simul.SymbolTable.{
  Name, same_name, HashValue, Node, Table, rehash, matches, first_match, get, put, duplicate,
  stored, add_loop, find_loop,
}

module _ {ℓ} {A : Type ℓ} where
  -- Results of a search whose head, or whose guard, is common.
  after_head :
      (b : Bool) (r q : A) (x y : Option A)
      → (x ≡ some q → y ≡ some q)
      → (if b then some r else x) ≡ some q
      → (if b then some r else y) ≡ some q
  after_head true r q x y f h = h
  after_head false r q x y f h = f h

  after_miss :
      (b : Bool) (r q : A) (x y : Option A)
      → (x ≡ none → y ≡ some q)
      → (if b then some r else x) ≡ none
      → (if b then some r else y) ≡ some q
  after_miss true r q x y f h = cc
  after_miss false r q x y f h = f h

  after_guard :
      (b : Bool) (q : A) (x y : Option A)
      → (x ≡ some q → y ≡ some q)
      → (if b then none else x) ≡ some q
      → (if b then none else y) ≡ some q
  after_guard true q x y f h = h
  after_guard false q x y f h = f h

first_match-keep :
    (idx : HashValue) (ps : List Node) (p q : Node)
    → first_match idx ps ≡ some q
    → first_match idx (ps ++ p ∷ []) ≡ some q
unfolding first_match
first_match-keep idx [] p q e = cc
first_match-keep idx (r ∷ ps) p q e =
    after_head (matches idx r) r q _ _ (first_match-keep idx ps p q) e

first_match-new :
    (idx : HashValue) (ps : List Node) (p : Node)
    → matches idx p ≡ true
    → first_match idx ps ≡ none
    → first_match idx (ps ++ p ∷ []) ≡ some p
unfolding first_match
first_match-new idx [] p m e = rw m refl
first_match-new idx (r ∷ ps) p m e =
    after_miss (matches idx r) r p _ _ (first_match-new idx ps p m) e

-- What is found stays found.
abbrev pub Keeps : Table → Table → Type 0
Keeps t t' = (idx : HashValue) (q : Node) → get t idx ≡ some q → get t' idx ≡ some q

picked :
    (b : Bool) (idx : HashValue) (ps : List Node) (p q : Node)
    → first_match idx ps ≡ some q
    → first_match idx (if b then ps ++ p ∷ [] else ps) ≡ some q
picked true idx ps p q e = first_match-keep idx ps p q e
picked false idx ps p q e = e

pub put-Keeps : (t : Table) (i : ℕ) (p : Node) → Keeps t (put t i p)
unfolding get put
put-Keeps t i p idx q e =
    after_guard (is_neg idx.scope || t.size == 0) q _ _
      (picked (idx.value == i) idx (t.buckets idx.value) p q) e

get-inside :
    (t : Table) (idx : HashValue)
    → (t.size == 0) ≡ false
    → is_neg idx.scope ≡ false
    → get t idx ≡ first_match idx (t.buckets idx.value)
unfolding get
get-inside t idx hs hn = rw (hn, hs) refl

pub same_number : (a : ℕ) → (a == a) ≡ true
same_number a = ground arith

pub get-put :
    (t : Table) (idx : HashValue) (p : Node)
    → (t.size == 0) ≡ false
    → is_neg idx.scope ≡ false
    → matches idx p ≡ true
    → get t idx ≡ none
    → get (put t idx.value p) idx ≡ some p
unfolding put
get-put t idx p hs hn m e =
    get-inside (put t idx.value p) idx hs hn
    ∙ rw same_number
        (first_match-new idx (t.buckets idx.value) p m (sym (get-inside t idx hs hn) ∙ e))

pub put-size : (t : Table) (i : ℕ) (p : Node) → (put t i p).size ≡ t.size
unfolding put
put-size t i p = refl

-- What `rehash` leaves.
pub rehash-rest :
    (n : ℕ) (idx : HashValue) (i : ℕ)
    → (n == 0) ≡ false
    → ((rehash n idx i).scope ≡ idx.scope) × ((rehash n idx i).test ≡ idx.test)
unfolding rehash
rehash-rest n idx i h = rw h (refl, refl)

pub same_name_refl : (n : Name) → same_name n n ≡ true
same_name_refl [] = refl
same_name_refl (c ∷ n) = rw (same_number c) (same_name_refl n)

-- One turn of each loop.
module _ (k i : ℕ) (idx : HashValue) (t : Table) where
  pub add_loop-none :
      (p : Node) → get t idx ≡ none → add_loop (suc k) i idx p t ≡ (stored idx, put t idx.value p)
  unfolding add_loop
  add_loop-none p e = rw (add_loop, e) refl

  pub add_loop-some :
      (p tmp : Node)
      → get t idx ≡ some tmp
      → add_loop (suc k) i idx p t ≡ (
          if same_name tmp.name p.name
          then (duplicate, t)
          else add_loop k (suc i) (rehash t.size idx (suc i)) p t)
  unfolding add_loop
  add_loop-some p tmp e = rw (add_loop, e) refl

  pub find_loop-some :
      (n : Name) (node : Node)
      → get t idx ≡ some node
      → find_loop (suc k) i idx n t ≡ (
          if same_name node.name n
          then some idx
          else find_loop k (suc i) (rehash t.size idx (suc i)) n t)
  unfolding find_loop
  find_loop-some n node e = rw (find_loop, e) refl
