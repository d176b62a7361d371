-- ===== src/Net/ReadBack.antt =====
-- An assignment of src/common/st_util.cc to a whole net, and the evaluation of the net after it.
use verilog_behavioral_simul.Base.{
  ==_iff, Bool, Bool-cases, List, Option, [], ap, false, if◌then◌else◌, inl, inr, none, refl, some,
  suc, true, ℕ, ℤ, ◌%◌, ◌+◌, ◌<◌, ◌==◌, ◌^◌, ◌∙◌, ◌∷◌, ◌≡◌,
}
use verilog_behavioral_simul.BitVector.{BitVector, copy, is_signed, size}
use verilog_behavioral_simul.BitVector.Assign.{assign}
use verilog_behavioral_simul.BitVector.AssignLaws.{assign-value, minus_part}
use verilog_behavioral_simul.BitVector.Compare.{compare_c}
use verilog_behavioral_simul.BitVector.Select.{read}
use verilog_behavioral_simul.BitVector.Value.{Known, value}
use verilog_behavioral_simul.EventQueue.{Event, TrigType}
use verilog_behavioral_simul.Logic.{edge_detect, hi, lo, same_bit}
use verilog_behavioral_simul.Net.{
  IoDirection, Net, World, in_io, inout_io, is_mem, minus_one, out_io, put_net, undef_io,
}
use verilog_behavioral_simul.Net.Assign.{assign_net, drives, note_change}
use verilog_behavioral_simul.Net.Evaluate.{evaluate_net, own_value, reads}
use verilog_behavioral_simul.Net.Monitor.{
  active_watch, change_types, check_monitor, check_watch, edge_types, first_bit, has_any,
  idle_watch, is_active, wake, watch_at,
}
use verilog_behavioral_simul.Net.Store.{store_net, store_whole}
use verilog_behavioral_simul.Statement.{Shared, update}

-- The evaluation of a monitored bit leaves nets as they are.
abbrev pub KeepsNets : {X : Type 0} → (X → Shared (World X) → BitVector × Shared (World X)) → Type 0
KeepsNets {X} evaluate =
    (x : X) (sh : Shared (World X)) → (evaluate x sh).1.nets.nets ≡ sh.nets.nets

module _ {X : Type 0} where
  wake_keeps :
      (ev : Event) (ts : List TrigType) (sh : Shared (World X)) → (wake ev ts sh).nets ≡ sh.nets
  unfolding wake
  wake_keeps ev ts sh = elim (Bool-cases (sh.eventqueue.is_queued ev.container)) [
    | inl h ↦ rw h refl
    | inr h ↦ elim (Bool-cases (has_any ev.type ts)) [
      | inl t ↦ rw (h, t) refl
      | inr t ↦ rw (h, t) refl
    ]
  ]

  if_keeps :
      (f : ℕ → Net) (b : Bool) (x y : Shared (World X))
      → x.nets.nets ≡ f
      → y.nets.nets ≡ f
      → (if b then x else y).nets.nets ≡ f
  if_keeps f true x y p q = p
  if_keeps f false x y p q = q

module _ {X : Type 0} (evaluate : X → Shared (World X) → BitVector × Shared (World X))
    (k : KeepsNets evaluate) where
  idle_watch_keeps :
      (e : ℕ) (o : Option X) (sh : Shared (World X))
      → (idle_watch evaluate e o sh).nets.nets ≡ sh.nets.nets
  unfolding idle_watch
  idle_watch_keeps e none sh = refl
  idle_watch_keeps e (some bit) sh = k bit sh

  active_watch_keeps :
      (before after : BitVector) (e : ℕ) (ev : Event) (o : Option X) (sh : Shared (World X))
      → (active_watch evaluate before after e ev o sh).nets.nets ≡ sh.nets.nets
  unfolding active_watch
  active_watch_keeps before after e ev none sh =
      if_keeps sh.nets.nets (same_bit (compare_c before after) lo) _ sh
        (ap (λ w. w.nets) (wake_keeps ev change_types sh)) refl
  active_watch_keeps before after e ev (some bit) sh =
      let sh1 = (evaluate bit sh).1 in
      let pb = first_bit (watch_at e sh1).previous_bit in
      let cb = first_bit (evaluate bit sh).0 in
      if_keeps sh1.nets.nets (same_bit pb cb) sh1 (wake ev (edge_types (edge_detect pb cb)) sh1)
        refl (ap (λ w. w.nets) (wake_keeps ev (edge_types (edge_detect pb cb)) sh1))
      ∙ k bit sh

  check_monitor_keeps :
      (before after : BitVector) (es : List ℕ) (sh : Shared (World X))
      → (check_monitor evaluate before after es sh).nets.nets ≡ sh.nets.nets
  unfolding check_monitor check_watch
  check_monitor_keeps before after [] sh = refl
  check_monitor_keeps before after (e ∷ es) sh =
      let w = watch_at e sh in
      check_monitor_keeps before after es (check_watch evaluate before after e sh)
      ∙ if_keeps sh.nets.nets (is_active (sh.containers w.event.container)) _ _
          (active_watch_keeps before after e w.event w.monitor_bit sh)
          (idle_watch_keeps e w.monitor_bit sh)

  update_same : {A : Type 0} (f : ℕ → A) (p : ℕ) (a : A) → update f p a p ≡ a
  unfolding update
  update_same f p a = rw ((==_iff p p).1 refl) refl

  update_other : {A : Type 0} (f : ℕ → A) (p q : ℕ) (a : A) → ¬ (p ≡ q) → update f p a q ≡ f q
  unfolding update
  update_other f p q a h = elim (Bool-cases (p == q)) [
    | inl e ↦ absurd (h ((==_iff p q).0 e))
    | inr e ↦ rw e refl
  ]

  -- What an assignment of the whole of `v` to the net leaves.
  abbrev pub Holding : ℕ → BitVector → Shared (World X) → Shared (World X) → Type 0
  Holding p v sh sh' =
      ((sh'.nets.nets p).storage 0 ≡ v)
      × ((sh'.nets.nets p).upper_mem_idx ≡ (sh.nets.nets p).upper_mem_idx)
      × ((sh'.nets.nets p).port_index ≡ (sh.nets.nets p).port_index)
      × ((q : ℕ) → ¬ (p ≡ q) → sh'.nets.nets q ≡ sh.nets.nets q)

  drives-none : (d : IoDirection) → drives d none ≡ none
  drives-none undef_io = refl
  drives-none in_io = refl
  drives-none out_io = refl
  drives-none inout_io = refl

  reads-none : (d : IoDirection) → reads d none ≡ none
  reads-none undef_io = refl
  reads-none in_io = refl
  reads-none out_io = refl
  reads-none inout_io = refl

  no_memory_is : (n : Net) → n.upper_mem_idx ≡ minus_one → is_mem n ≡ false
  no_memory_is n e = rw e refl

  drives_nothing : (n : Net) → n.port_index ≡ none → drives n.iodirection n.port_index ≡ none
  drives_nothing n e = rw e (drives-none n.iodirection)

  reads_nothing : (n : Net) → n.port_index ≡ none → reads n.iodirection n.port_index ≡ none
  reads_nothing n e = rw e (reads-none n.iodirection)

  -- The net with a new value.
  abbrev pub stored_in : ℕ → BitVector → Shared (World X) → Shared (World X)
  stored_in p v sh = record sh {
    nets =
        put_net p (record (sh.nets.nets p) { storage = update (sh.nets.nets p).storage 0 v })
          sh.nets;
  }

  stored_in-Holding :
      (p : ℕ) (v : BitVector) (sh : Shared (World X)) → Holding p v sh (stored_in p v sh)
  stored_in-Holding p v sh =
      let n = record (sh.nets.nets p) { storage = update (sh.nets.nets p).storage 0 v } in
      let e = update_same sh.nets.nets p n in
      (
        ap (λ x. x.storage 0) e ∙ update_same (sh.nets.nets p).storage 0 v,
        ap (λ x. x.upper_mem_idx) e,
        ap (λ x. x.port_index) e,
        λ q o. update_other sh.nets.nets p q n o,
      )

  note_change-Holding :
      (before after v : BitVector) (p : ℕ) (es : List ℕ) (sh sh1 : Shared (World X))
      → Holding p v sh sh1
      → Holding p v sh (note_change evaluate before after p es sh1)
  unfolding note_change
  note_change-Holding before after v p es sh sh1 h =
      let n = record (sh1.nets.nets p) { changed = true } in
      let all = check_monitor_keeps before after es (record sh1 { nets = put_net p n sh1.nets }) in
      let e = ap (λ f. f p) all ∙ update_same sh1.nets.nets p n in
      (
        ap (λ x. x.storage 0) e ∙ h.0,
        ap (λ x. x.upper_mem_idx) e ∙ h.1,
        ap (λ x. x.port_index) e ∙ h.2,
        λ q o. ap (λ f. f q) all ∙ update_other sh1.nets.nets p q n o ∙ h.3 q o,
      )

  abbrev pub Stored : ℕ → BitVector → Shared (World X) → Option (Shared (World X)) → Type 0
  Stored p v sh o = (sh' : Shared (World X)) × (o ≡ some sh') × Holding p v sh sh'

  if_Stored :
      (b : Bool) (p : ℕ) (v : BitVector) (sh x y : Shared (World X))
      → Holding p v sh x
      → Holding p v sh y
      → Stored p v sh (if b then some x else some y)
  if_Stored true p v sh x y f g = (x, refl, f)
  if_Stored false p v sh x y f g = (y, refl, g)

  assign_net-Stored :
      (fuel p : ℕ) (num : BitVector) (l : ℤ) (sh : Shared (World X))
      → (sh.nets.nets p).upper_mem_idx ≡ minus_one
      → (sh.nets.nets p).port_index ≡ none
      → Stored p
          (assign ((sh.nets.nets p).storage 0) num)
          sh
          (assign_net evaluate (suc fuel) p num minus_one minus_one minus_one l sh)
  unfolding assign_net store_net store_whole
  assign_net-Stored fuel p num l sh no_memory no_port =
      let n = sh.nets.nets p in
      let v = assign (n.storage 0) num in
      rw (no_memory_is n no_memory, drives_nothing n no_port)
        (if_Stored (same_bit (compare_c (copy (n.storage 0)) (copy v)) hi) p v sh (stored_in p v sh)
          (note_change evaluate (copy (n.storage 0)) (copy v) p n.monitored_by (stored_in p v sh))
          (stored_in-Holding p v sh)
          (note_change-Holding (copy (n.storage 0)) (copy v) v p n.monitored_by sh
            (stored_in p v sh) (stored_in-Holding p v sh)))

  evaluate_net-whole :
      (fuel p : ℕ) (p_m p_l l : ℤ) (w : World X)
      → (w.nets p).upper_mem_idx ≡ minus_one
      → (w.nets p).port_index ≡ none
      → (w' : World X) × (evaluate_net (suc fuel) p p_m p_l minus_one l false w
          ≡ some ((w.nets p).storage 0, w'))
  unfolding evaluate_net own_value
  evaluate_net-whole fuel p p_m p_l l w no_memory no_port =
      rw (reads_nothing (w.nets p) no_port, no_memory_is (w.nets p) no_memory)
        (put_net p (w.nets p) w, refl)

  -- An assignment of known bits to the whole of a net, which is neither a memory nor a port, writes
  -- nothing out of bounds, and the evaluation of the net after it gives known bits, in the width
  -- of the net, that stand for the number that was assigned, modulo 2 ^ that width, where a signed
  -- number is extended by its sign; no other net is changed. Monitored bits are evaluated on the
  -- way; that is to leave nets as they are.
  pub assign_net-evaluate_net :
      (fuel p : ℕ) (p_m p_l m l : ℤ) (num : BitVector) (sh : Shared (World X))
      → (sh.nets.nets p).upper_mem_idx ≡ minus_one
      → (sh.nets.nets p).port_index ≡ none
      → Known num.bits
      → 0 < size num
      → 0 < size ((sh.nets.nets p).storage 0)
      → (sh' : Shared (World X)) × (v : BitVector) × (w' : World X) × (assign_net evaluate
            (suc fuel)
            p
            num
            minus_one
            minus_one
            minus_one
            m
            sh
          ≡ some sh')
        × (evaluate_net (suc fuel) p p_m p_l minus_one l false sh'.nets ≡ some (v, w'))
        × ((value v.bits + minus_part (is_signed num.sign) num.bits)
              % 2 ^ size ((sh.nets.nets p).storage 0)
            ≡ value num.bits % 2 ^ size ((sh.nets.nets p).storage 0))
        × Known v.bits
        × (size v ≡ size ((sh.nets.nets p).storage 0))
        × ((q : ℕ) → ¬ (p ≡ q) → sh'.nets.nets q ≡ sh.nets.nets q)
  assign_net-evaluate_net fuel p p_m p_l m l num sh no_memory no_port known some_bits wide =
      let old = (sh.nets.nets p).storage 0 in
      let (sh', done_so, (now, mem, port, others)) =
        assign_net-Stored fuel p num m sh no_memory no_port in
      let (w', read) =
        evaluate_net-whole fuel p p_m p_l l sh'.nets (mem ∙ no_memory) (port ∙ no_port) in
      let (sum, known', width) = assign-value old num known some_bits wide in
      (
        sh',
        assign old num,
        w',
        done_so,
        read ∙ ap (λ v. some (v, w')) now,
        sum,
        known',
        width,
        others,
      )
