-- ===== src/Net/Origin.antt =====
-- Where the events that `check_monitor` of src/common/st_util.cc queues come from.
use verilog_behavioral_simul.Base.{
  ==_iff, Bool, Bool-cases, List, Option, [], ap, false, if◌then◌else◌, inl, inr, none, refl, some,
  subst, sym, true, ℕ, ◌==◌, ◌∙◌, ◌∷◌, ◌≡◌, ◌⊎◌,
}
use verilog_behavioral_simul.BitVector.{BitVector}
use verilog_behavioral_simul.BitVector.Compare.{compare_c}
use verilog_behavioral_simul.EventQueue.{Event, TrigType}
use verilog_behavioral_simul.Logic.{edge_detect, lo, same_bit}
use verilog_behavioral_simul.Net.{World}
use verilog_behavioral_simul.Net.Monitor.{
  active_watch, change_types, check_monitor, check_watch, edge_types, first_bit, has_any,
  idle_watch, is_active, wake, watch_at,
}
use verilog_behavioral_simul.Net.Wakes.{
  Active, KeepsEvents, Queued, check_watch-Wakes, queue_and_deactivate, queued_after,
}
use verilog_behavioral_simul.Statement.{Shared}
use mathlib.Core.List.{Memᴰ}

module _ {X : Type 0} (evaluate : X → Shared (World X) → BitVector × Shared (World X))
    (k : KeepsEvents evaluate) where
  if_Queued :
      {R : Type 0} (c : ℕ) (b : Bool) (x y : Shared (World X))
      → (Queued c x → R)
      → (Queued c y → R)
      → Queued c (if b then x else y)
      → R
  if_Queued c true x y f g = f
  if_Queued c false x y f g = g

  wake_only :
      (ev : Event) (ts : List TrigType) (sh : Shared (World X)) (c : ℕ)
      → Queued c (wake ev ts sh)
      → Queued c sh ⊎ (ev.container ≡ c)
  unfolding wake
  wake_only ev ts sh c =
      if_Queued c (sh.eventqueue.is_queued ev.container) sh _ inl
        (if_Queued c (has_any ev.type ts) (queue_and_deactivate ev sh) sh new inl)
    where
      new : Queued c (queue_and_deactivate ev sh) → Queued c sh ⊎ (ev.container ≡ c)
      new q = elim (Bool-cases (ev.container == c)) [
        | inl h ↦ inr ((==_iff ev.container c).0 h)
        | inr h ↦ inl (rw h at (sym (queued_after ev sh c) ∙ q))
      ]

  queue_before : (x : X) (sh : Shared (World X)) (c : ℕ) → Queued c (evaluate x sh).1 → Queued c sh
  queue_before x sh c q = ap (λ r. r.is_queued c) (sym (k.queue_kept x sh)) ∙ q

  active_watch_only :
      (before after : BitVector) (e : ℕ) (ev : Event) (o : Option X) (sh : Shared (World X)) (c : ℕ)
      → Queued c (active_watch evaluate before after e ev o sh)
      → Queued c sh ⊎ (ev.container ≡ c)
  unfolding active_watch
  active_watch_only before after e ev none sh c q =
      if_Queued c (same_bit (compare_c before after) lo) (wake ev change_types sh) sh
        (wake_only ev change_types sh c) inl q
  active_watch_only before after e ev (some bit) sh c q =
      let sh1 = (evaluate bit sh).1 in
      let pb = first_bit (watch_at e sh1).previous_bit in
      let cb = first_bit (evaluate bit sh).0 in
      let ts = edge_types (edge_detect pb cb) in
      elim (if_Queued c (same_bit pb cb) sh1 (wake ev ts sh1) inl (wake_only ev ts sh1 c) q) [
        | inl b ↦ inl (queue_before bit sh c b)
        | inr b ↦ inr b
      ]

  idle_watch_only :
      (e : ℕ) (o : Option X) (sh : Shared (World X)) (c : ℕ)
      → Queued c (idle_watch evaluate e o sh)
      → Queued c sh
  unfolding idle_watch
  idle_watch_only e none sh c q = q
  idle_watch_only e (some bit) sh c q = queue_before bit sh c q

  check_watch_only :
      (before after : BitVector) (e : ℕ) (sh : Shared (World X)) (c : ℕ)
      → Queued c (check_watch evaluate before after e sh)
      → Queued c sh ⊎ (((watch_at e sh).event.container ≡ c) × Active c sh)
  unfolding check_watch
  check_watch_only before after e sh c =
      go (is_active (sh.containers (watch_at e sh).event.container)) refl
    where
      go :
          (b : Bool)
          → is_active (sh.containers (watch_at e sh).event.container) ≡ b
          → Queued c (
              if b
              then active_watch evaluate before after e
                  (watch_at e sh).event
                  (watch_at e sh).monitor_bit
                  sh
              else idle_watch evaluate e (watch_at e sh).monitor_bit sh)
          → Queued c sh ⊎ (((watch_at e sh).event.container ≡ c) × Active c sh)
      go false a q = inl (idle_watch_only e (watch_at e sh).monitor_bit sh c q)
      go true a q =
          elim (active_watch_only before after e (watch_at e sh).event (watch_at e sh).monitor_bit
            sh c q) [ inl b ↦ inl b | inr b ↦ inr (b, subst (λ x. Active x sh) b a) ]

  -- A container that is queued when the monitors of a net have been checked was queued before, or
  -- it is that of an event which monitors the net, and its statement waited. Monitored bits are
  -- evaluated on the way; that is to leave the queue, the containers and the events alone.
  pub check_monitor_only :
      (before after : BitVector) (es : List ℕ) (sh : Shared (World X)) (c : ℕ)
      → Queued c (check_monitor evaluate before after es sh)
      → Queued c sh ⊎ ((e : ℕ) × Memᴰ e es × ((watch_at e sh).event.container ≡ c) × Active c sh)
  unfolding check_monitor
  check_monitor_only before after [] sh c q = inl q
  check_monitor_only before after (d ∷ es) sh c q =
      let sh1 = check_watch evaluate before after d sh in
      let first = check_watch-Wakes evaluate k before after d sh in
      elim (check_monitor_only before after es sh1 c q) [
        | inl b ↦ elim (check_watch_only before after d sh c b) [
          | inl r ↦ inl r
          | inr (at_d, a) ↦ inr (d, Memᴰ.head refl, at_d, a)
        ]
        | inr (e, m, at_e, a) ↦ inr (
          e,
          Memᴰ.tail m,
          ap (λ ev. ev.container) (sym (first.watches e).0) ∙ at_e,
          first.active c a,
        )
      ]
