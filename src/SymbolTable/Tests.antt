-- ===== src/SymbolTable/Tests.antt =====
-- Runs of a symbol table of five buckets.
use verilog_behavioral_simul.SymbolTable.Amount.{Counts, add-remove-Counts}
use verilog_behavioral_simul.SymbolTable.{
  remove, duplicate, hash, HashValue, Node, Table, new_table, add, find, get, found,
}
use verilog_behavioral_simul.SymbolTable.Refusal.{add-duplicate}
use verilog_behavioral_simul.SymbolTable.Lookup.{add-find, stored_index}
use verilog_behavioral_simul.SymbolTable.Turns.{Keeps}
use verilog_behavioral_simul.Base.{◌≡◌, refl, false, [], ◌∷◌, some, pos}

-- The modules `top` and `tb`, both of scope 2.
abbrev top : Node
top = record { name = 116 ∷ 111 ∷ 112 ∷ []; scope = pos 2; has_instantiation = false }

abbrev tb : Node
tb = record { name = 116 ∷ 98 ∷ []; scope = pos 2; has_instantiation = false }

abbrev one_symbol : Table
one_symbol = (add (new_table 5) top false).1

abbrev two_symbols : Table
two_symbols = (add one_symbol tb false).1

abbrev tb_index : HashValue
tb_index = stored_index (hash 5 [] (pos 0) false) (add one_symbol tb false).0

new_table-Counts : Counts (new_table 5)
unfolding new_table
new_table-Counts i h = refl

one_symbol-Counts : Counts one_symbol
one_symbol-Counts =
    (add-remove-Counts (new_table 5) top false (hash 5 [] (pos 0) false) 0 new_table-Counts).1

add-find_example :
    (find two_symbols tb.name (tb.scope ∷ pos 1 ∷ []) false ≡ found tb_index)
    × (get two_symbols tb_index ≡ some tb)
    × Keeps one_symbol two_symbols
unfolding add new_table stored_index
add-find_example =
    add-find one_symbol two_symbols tb false tb_index (pos 1 ∷ []) refl refl refl one_symbol-Counts

-- Another `tb` of the same scope.
add-duplicate_example : add two_symbols tb false ≡ (duplicate, two_symbols)
unfolding add new_table stored_index find
add-duplicate_example = add-duplicate two_symbols tb false tb_index refl refl

add-remove-Counts_example :
    Counts (new_table 7) × Counts (add one_symbol tb false).1 × Counts (remove tb_index one_symbol)
add-remove-Counts_example = add-remove-Counts one_symbol tb false tb_index 7 one_symbol-Counts
