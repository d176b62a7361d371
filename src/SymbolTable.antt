-- ===== src/SymbolTable.antt =====
-- The symbol table of src/common/sym_tab.cc, and its hash function of src/common/hash.cc: buckets
-- of nodes of different scopes, probed by `rehash`. Names are the codes of their characters. The
-- global `TABLESIZE` is the size of the table, which sets it.
pub mod Turns
pub mod Amount
pub mod Lookup
pub mod Refusal
pub mod Tests
use Prim.Native.Nat.{bit_and, bit_xor}
use verilog_behavioral_simul.Base.{
  ℕ, zero, suc, ◌+◌, ◌-◌, ◌*◌, ◌/◌, ◌%◌, ◌^◌, ◌==◌, ◌&&◌, ◌||◌, Bool, true, false, not, Option,
  none, some, List, [], ◌∷◌, ◌++◌, leb, if◌then◌else◌, ℤ, pos, negsuc, is_neg, same_int,
}

abbrev pub Name : Type 0
Name = List ℕ

abbrev pub same_name : Name → Name → Bool
same_name [] [] = true
same_name (a ∷ s) (b ∷ t) = a == b && same_name s t
same_name _ _ = false

-- `hash_value`.
pub record HashValue : Type 0 where
  pub test : Bool
  pub value : ℕ
  pub scope : ℤ

-- A node: its name and scope, and whether `get_instantiation` is not null.
pub record Node : Type 0 where
  pub name : Name
  pub scope : ℤ
  pub has_instantiation : Bool

pub record Table : Type 0 where
  pub size : ℕ
  pub amount : ℕ
  pub last_scope : ℤ
  pub buckets : ℕ → List Node

-- One character, on the 16 bits of `work`. `HIGH_BITS` is 0xc000 there.
unfoldable pub hash_step : ℕ → ℕ → ℕ
hash_step work c =
    let w = (work * 4 + c) % 2 ^ 16 in
    let hb = bit_and w 0xc000 in if hb == 0 then w else bit_and (bit_xor w (hb / 2 ^ 12)) 0xc000

unfoldable pub hash_name : ℕ → Name → ℕ
unfolding hash_step
hash_name work [] = work
hash_name work (c ∷ s) = hash_name (hash_step work c) s

unfoldable pub hash : ℕ → Name → ℤ → Bool → HashValue
unfolding hash_name
hash table_size s sc init =
    if table_size == 0
    then record { test = false; value = 1; scope = negsuc 0 }
    else record { test = init; value = hash_name 0 s % table_size; scope = sc }

-- The product is of 64 bits.
unfoldable pub rehash : ℕ → HashValue → ℕ → HashValue
rehash table_size hv i =
    if table_size == 0
    then record hv { value = 0; scope = negsuc 0 }
    else record hv { value = hv.value * i % 2 ^ 64 % table_size }

unfoldable pub new_table : ℕ → Table
new_table s = record { size = s; amount = 0; last_scope = pos 1; buckets = λ i. [] }

-- `initialize`, and what it returns.
unfoldable pub initialize : ℕ → Table → Table × Bool
initialize siz t =
    if t.size == 0 then (record t { size = siz; buckets = λ i. [] }, true) else (t, false)

-- A node that an index asks for.
abbrev pub matches : HashValue → Node → Bool
matches idx p = same_int p.scope idx.scope && (not idx.test || p.has_instantiation)

unfoldable pub first_match : HashValue → List Node → Option Node
first_match idx [] = none
first_match idx (p ∷ ps) = if matches idx p then some p else first_match idx ps

unfoldable pub get : Table → HashValue → Option Node
unfolding first_match
get t idx = if is_neg idx.scope || t.size == 0 then none else first_match idx (t.buckets idx.value)

-- `_table[i].push_back(p)`.
unfoldable pub put : Table → ℕ → Node → Table
put t i p = record t {
  amount = elim (t.buckets i) [ [] ↦ t.amount + 1 | _ ↦ t.amount ];
  buckets = λ j. if j == i then t.buckets j ++ p ∷ [] else t.buckets j;
}

-- What `add` returns: an error, or the index; it also returns the index, and has stored nothing,
-- when the loop comes to its end.
pub data AddResult : Type 0 where
  not_initialized full duplicate : AddResult
  stored : HashValue → AddResult
  gave_up : HashValue → AddResult

-- The loop of `add`: the turns left, `i`, and the index.
unfoldable pub add_loop : ℕ → ℕ → HashValue → Node → Table → AddResult × Table
unfolding get put rehash
add_loop zero i idx p t = (gave_up idx, t)
add_loop (suc k) i idx p t =
    let rest = add_loop k (suc i) (rehash t.size idx (suc i)) p t in
    elim (get t idx) [
      | none ↦ (stored idx, put t idx.value p)
      | some tmp ↦ if same_name tmp.name p.name then (duplicate, t) else rest
    ]

unfoldable pub add : Table → Node → Bool → AddResult × Table
unfolding add_loop hash
add t p init =
    if t.size == 0
    then (not_initialized, t)
    else if leb t.size t.amount
    then (full, t)
    else add_loop (t.size - 1) 1 (hash t.size p.name p.scope init) p t

unfoldable pub erase_first : HashValue → List Node → List Node
erase_first idx [] = []
erase_first idx (p ∷ ps) = if matches idx p then ps else p ∷ erase_first idx ps

unfoldable pub remove : HashValue → Table → Table
unfolding erase_first
remove idx t = if is_neg idx.scope || t.size == 0 then t else record t {
  buckets = λ j. if j == idx.value then erase_first idx (t.buckets j) else t.buckets j;
}

-- What `find` returns.
pub data FindResult : Type 0 where
  no_table undefined : FindResult
  found : HashValue → FindResult

-- The loop of one scope.
unfoldable pub find_loop : ℕ → ℕ → HashValue → Name → Table → Option HashValue
unfolding get rehash
find_loop zero i idx n t = none
find_loop (suc k) i idx n t =
    let rest = find_loop k (suc i) (rehash t.size idx (suc i)) n t in
    elim (get t idx) [ none ↦ none | some node ↦ if same_name node.name n then some idx else rest ]

unfoldable pub find_scopes : List ℤ → HashValue → Name → Table → FindResult
unfolding find_loop
find_scopes [] orig n t = undefined
find_scopes (sc ∷ scopes) orig n t =
    elim (find_loop (t.size - 1) 1 (record orig { scope = sc }) n t) [
      | some idx ↦ found idx
      | none ↦ find_scopes scopes orig n t
    ]

unfoldable pub find : Table → Name → List ℤ → Bool → FindResult
unfolding find_scopes hash
find t n scopes init =
    if t.size == 0
    then no_table
    else if t.amount == 0
    then undefined
    else find_scopes scopes (hash t.size n (negsuc 0) init) n t
