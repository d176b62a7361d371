-- ===== src/Lib.antt =====
-- Verification of the behavioral Verilog simulator's core: its bit vectors, expressions and
-- statements, its nets, its time wheel and event queue, its simulation loop, and its symbol table.
--
-- The parts and how they interact. Values of the simulated design are bit vectors; expressions are
-- trees whose nodes keep their results. The time wheel holds the statements to be triggered at each
-- later time, and the simulation loop gives it a handler that triggers those of the first unit.
-- A statement that waits puts itself on the wheel, or an event into the event queue, which is
-- triggered region by region before the time advances; a statement that goes on starts where it
-- left off. An assignment that changes a net queues the events that monitor the net. Names are
-- looked up in the symbol table.
--
-- Logic: src/common/logic.h, the states and the tables. A `logic` is a value of `Logic`, and a
--   table is a function of two of them. The heap manager for arrays is not modelled.
-- BitVector: src/common/bvector.h and src/common/bvector.cc. The object is a record; `_bits` is
--   two lists, the cells below `_begin` and those from `_begin` to `_end`, the lowest first. A
--   function that writes to a result object takes that object and returns it; an access outside
--   an array, which is undefined in the source, is `none`. Child modules follow the groups of
--   functions: Arith (`binary_add`, `binary_sub`, `operator+=`, `operator-=`, `unary_neg`), Compare
--   (the relational and the case comparisons), Bitwise (`logic_op` and the reductions), Assign
--   (`operator=`), Multiply (`binary_mul`), Divide (`binary_div_rem`), Select (`sub_bit_vector`),
--   Decimal (conversions from and to words), Shift, Parse (`assign_from_bin`, `assign_from_oct`,
--   `assign_from_hex`) and Print (`to_string`). The proofs stand in the modules whose names begin
--   like these (AddLaws, SelectWrite, DigitLaws and so on), with Sum and InPlace for the adders'
--   loops, Slices and Xor for arithmetic, and Value for the number that bits stand for, which is
--   their measure. Words have 64 bits: what wraps is written with `% 2 ^ 64`.
-- Expression: src/expr. A tree with a place for the result of each node. Evaluate is
--   src/expr/eeval.cc and Setup src/expr/esetup.cc, which makes the results; the values of nets and
--   of function calls, the declarations of names and `pow` are parameters. Sums, SumSetup and
--   SumLaws are about sums of nets, with `meaning` for their value.
-- Statement: src/stmt. Pointers are numbers, and the heap gives the statements, controls and tasks
--   that lie there. Delay is src/misc/dectrig.cc with `handle_dec`; Block, Enable, Assign, Branch
--   and Loops are the classes of src/stmt/strigger.cc, and Trigger any of them; Enable has the
--   tasks of src/common/st_trig.cc too. What statements use of expressions, lvalues, system tasks
--   and the arguments of tasks is a record, Interface. Delays is about what they add to the time
--   wheel, and Schedules what the simulation loop needs of that; Ranks, with Sequence
--   and Turns, is about blocks and what the other classes keep of them, for designs whose
--   statements form a tree, and Selection about case statements.
-- Net: src/common/st_net.h, the assignment and the evaluation of nets in src/common/st_util.cc
--   with `check_monitor`, which queues the events that monitor a net, `st_function::assignment`, and
--   the lvalues of src/misc/lvalue.cc and src/misc/mtrigger.cc. Nets, functions, lvalues and events
--   lie in a world, by their numbers; the evaluation of expressions is an argument. Store is what
--   is written where, Wakes, Woken and Origin are about the events, and ReadBack about values.
-- Simulation: src/sim.cc. `trigger_postproc`, and in Handlers the handlers of the wheel and of the
--   queue, `vbs_sim_step` and `vbs_sim_run`, with the trigger of statements as an argument. Units
--   and Order are what a unit does to the wheel, and Running is about runs. Schedule has the
--   schedule of a unit and of the event queue as relations, apart from the loops; Serving and
--   Scheduling show that the handlers follow it.
-- TimeWheel: src/common/time_whl.h. The wheel is a record of the latest time and the list of units.
--   The handler is a function on the wheel and the client's state, so that it may add events.
-- EventQueue: src/common/event.h. The five lists and the counters; the handler is as for the
--   wheel. An event is its type and its container.
-- SymbolTable: src/common/sym_tab.h, src/common/sym_tab.cc, src/common/hash.h and
--   src/common/hash.cc. Buckets are a function of their index; names are lists of character codes
--   below 128.
-- Base: arrays as lists, tests on numbers, and signed positions.
--
-- Fuel. The loops of `trigger`, of the wheel and of the queue, run until nothing is left, and
-- end only if the handlers stop adding events, so they are on fuel: more than what is queued
-- and what the handler can still add. The conversion of a word to bits has fuel 64, the digits
-- of a word. The probing loops of the symbol table make at most as many turns as the source's,
-- one less than the size of the table. The triggers of statements have fuel for the depth of
-- their calls and for the rounds of every loop, since a loop of a design need not end: `spent`
-- is a run that needs more. The assignment and the evaluation of nets have fuel for the depth
-- of the ports. A block needs more rounds than it has statements left. The loop of a time unit
-- has fuel, and a session whose unit needs more, as one with a loop without delay does whatever
-- the fuel, is `exhausted` and no longer `running`; `vbs_sim_run` until an end time needs more
-- rounds than that time and one, and what is shown of it supposes that its units end. All other loops are recursions on lists.
--
-- Not modelled: the string constructor, decimal literals and display of the bit vector; the
-- bodies of system tasks and functions, and $finish; the setup of statements, nets, lvalues and
-- files; the reading of memories from files; module items; the scope table; dumping, error
-- reporting, the scanner and parser, and the interfaces to other programs.
pub mod Base
pub mod Logic
pub mod BitVector
pub mod TimeWheel
pub mod EventQueue
pub mod Expression
pub mod Simulation
pub mod Statement
pub mod Net
pub mod SymbolTable
