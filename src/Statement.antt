-- ===== src/Statement.antt =====
-- Statements as the simulation keeps them: src/stmt/stmtbase.h, seqblk.h, ifelse.h, case.h,
-- loopstmt.h, assign.h and taskenbl.h, the delay and event controls of src/misc/decbase.h,
-- delaynum.h, delayid.h and evntexpr.h, the tasks of src/common/st_task.h, and the containers of
-- src/common/event.h. A pointer to a statement, a control, a task or a container is a number, and
-- the heap gives what lies there, since statements share and change one another.
pub mod Delay
pub mod Interface
pub mod Block
pub mod Enable
pub mod Assign
pub mod Branch
pub mod Loops
pub mod Trigger
pub mod Delays
pub mod Ranks
pub mod Schedules
pub mod Sequence
pub mod Turns
pub mod Selection
pub mod Tests
use verilog_behavioral_simul.Base.{
  Bool, List, Option, false, if◌then◌else◌, none, some, true, ℕ, ◌==◌,
}
use verilog_behavioral_simul.BitVector.{BitVector}
use verilog_behavioral_simul.EventQueue.{Event, Queue}
use verilog_behavioral_simul.TimeWheel.{Wheel}

-- The value of a function at one place is replaced.
unfoldable pub update {ℓ} : {A : Type ℓ} → (ℕ → A) → ℕ → A → ℕ → A
update f p a q = if p == q then a else f q

-- `delay_num` and `delay_id` with the value that setup gave them, and `ored_event_expr` with the
-- containers of its events.
pub data ControlKind : Type 0 where
  delay_num : ℕ → Event → ControlKind
  delay_id : ℕ → Event → ControlKind
  ored_event_expr : List ℕ → ControlKind

-- `dec_base`.
pub record Control : Type 0 where
  pub delayed : Bool
  pub control : ControlKind

-- `event_base::event_container`, less the `_queued` flag, which the queue keeps.
pub record Container : Type 0 where
  pub active : Bool
  pub force : Bool
  pub object : ℕ

-- `seq_block_stmt`: `_curstmt` is a position of `_stmt`.
pub record SeqBlock : Type 0 where
  pub pushed : Bool
  pub curstmt : ℕ
  pub stk : List ℕ
  pub stmts : List ℕ

pub data CaseType : Type 0 where
  case_c case_x case_z : CaseType

-- What an expression (`X`) and an lvalue (`L`) are is the client's.
module _ (X : Type 0) where
  -- `case_item`: with no expressions it is the default.
  pub record CaseItem : Type 0 where
    pub stmt : ℕ
    pub exprs : Option (List X)

  -- `loop_type`, with the parts that the type has.
  pub data LoopType : Type 0 where
    forever_loop : LoopType
    repeat_loop : X → LoopType
    while_loop : X → LoopType
    for_loop : ℕ → X → ℕ → LoopType

  -- `loop_stmt`.
  pub record Loop : Type 0 where
    pub delayed : Bool
    pub repeat_count : ℕ
    pub loop_type : LoopType
    pub body : ℕ

  -- `task_enable_stmt`: `_event` is there until monitoring starts.
  pub record TaskEnable : Type 0 where
    pub delayed : Bool
    pub task : ℕ
    pub arguments : List X
    pub event : Option Event

abbrev pub is_default : {X : Type 0} → CaseItem X → Bool
is_default item = elim item.exprs [ none ↦ true | some es ↦ false ]

module _ (X L : Type 0) where
  -- `assignment_stmt`.
  pub record Assignment : Type 0 where
    pub lval : L
    pub rval : X
    pub delayed_store : Option ℕ
    pub nonblocking : Bool
    pub value : Option BitVector
    pub event : Event
    pub update : ℕ

  -- The classes that derive from `stmt_base`. A system task is a number.
  pub data Kind : Type 0 where
    null_stmt : Kind
    seq_block_stmt : SeqBlock → Kind
    task_enable_stmt : TaskEnable X → Kind
    assignment_stmt : Assignment → Kind
    if_else_stmt : X → ℕ → Option ℕ → Kind
    case_stmt : CaseType → X → List (CaseItem X) → Option (CaseItem X) → Kind
    loop_stmt : Loop X → Kind
    systask : ℕ → Kind

  -- `stmt_base`.
  pub record Stmt : Type 0 where
    pub always : Bool
    pub ec : Option ℕ
    pub dec : Option ℕ
    pub kind : Kind

-- `st_task`; the name of a system task begins with a dollar sign.
pub record Task : Type 0 where
  pub is_system : Bool
  pub delayed : Bool
  pub entry : ℕ
  pub has_iovariable : Bool

-- What statements and the other parts change: the time wheel and the event queue of the engine,
-- the containers of events, and the nets (`S`).
pub record Shared (S : Type 0) : Type 0 where
  pub timewheel : Wheel ℕ
  pub eventqueue : Queue
  pub containers : ℕ → Container
  pub nets : S

pub record Engine (X L S : Type 0) : Type 0 where
  pub shared : Shared S
  pub statements : ℕ → Stmt X L
  pub controls : ℕ → Control
  pub tasks : ℕ → Task

-- A run is done, follows a null pointer, or needs more rounds than it was given.
pub data Outcome {ℓ} (A : Type ℓ) : Type ℓ where
  done : A → Outcome A
  fault : Outcome A
  spent : Outcome A

infixl 5 ◌>>=◌
abbrev pub ◌>>=◌ {ℓ κ} : {A : Type ℓ} {B : Type κ} → Outcome A → (A → Outcome B) → Outcome B
done a >>= f = f a
fault >>= f = fault
spent >>= f = spent

module _ {X L : Type 0} where
  -- `get_seq_block`, `get_loop` and `get_task_enable`.
  abbrev pub get_seq_block : Stmt X L → Option SeqBlock
  get_seq_block s = elim s.kind [ seq_block_stmt b ↦ some b | _ ↦ none ]

  abbrev pub get_loop : Stmt X L → Option (Loop X)
  get_loop s = elim s.kind [ loop_stmt l ↦ some l | _ ↦ none ]

  abbrev pub get_task_enable : Stmt X L → Option (TaskEnable X)
  get_task_enable s = elim s.kind [ task_enable_stmt t ↦ some t | _ ↦ none ]

module _ {X L S : Type 0} where
  -- A change of the object at a pointer.
  abbrev pub set_kind : ℕ → Kind X L → Engine X L S → Engine X L S
  set_kind p k m = record m {
    statements = update m.statements p (record (m.statements p) { kind = k });
  }

  abbrev pub change_kind : ℕ → (Kind X L → Kind X L) → Engine X L S → Engine X L S
  change_kind p f m = set_kind p (f (m.statements p).kind) m

  abbrev pub set_delayed : ℕ → Bool → Engine X L S → Engine X L S
  set_delayed c b m = record m {
    controls = update m.controls c (record (m.controls c) { delayed = b });
  }
