-- ===== src/Net/Wakes.antt =====
-- What the steps of `check_monitor` in src/common/st_util.cc do to events and containers.
use verilog_behavioral_simul.Base.{
  ==_iff, Bool, Bool-cases, List, Option, [], ap, arith, false, if◌then◌else◌, inl, inr, none, refl,
  some, subst, sym, true, ℕ, ◌==◌, ◌∙◌, ◌∷◌, ◌≡◌, ◌⊎◌,
}
use verilog_behavioral_simul.BitVector.{BitVector}
use verilog_behavioral_simul.BitVector.Compare.{compare_c}
use verilog_behavioral_simul.EventQueue.{Event, TrigType, add_event, chng}
use verilog_behavioral_simul.EventQueue.Regions.{add_event-list_of}
use verilog_behavioral_simul.Logic.{edge_detect, lo, same_bit}
use verilog_behavioral_simul.Net.{World}
use verilog_behavioral_simul.Net.Monitor.{
  active_watch, change_types, check_monitor, check_watch, deactivate, edge_types, first_bit,
  has_any, idle_watch, is_active, set_previous, wake, watch_at,
}
use verilog_behavioral_simul.Statement.{Container, Shared, update}

if_true : (b c : Bool) → c ≡ true → (if b then true else c) ≡ true
if_true true c e = refl
if_true false c e = e

-- A container after it was deactivated is not more active.
less_active :
    (b : Bool) (c : Container)
    → is_active (if b then record c { active = false } else c) ≡ true
    → is_active c ≡ true
less_active b c = ground arith

update-at :
    (f : ℕ → Container) (p q : ℕ)
    → update f p (record (f p) { active = false }) q
      ≡ (if p == q then record (f q) { active = false } else f q)
unfolding update
update-at f p q = elim (Bool-cases (p == q)) [
  | inl h ↦ rw ((==_iff p q).0 h, (==_iff q q).1 refl) refl
  | inr h ↦ rw h refl
]

module _ {X : Type 0} where
  abbrev pub Queued : ℕ → Shared (World X) → Type 0
  Queued c sh = sh.eventqueue.is_queued c ≡ true

  abbrev pub Active : ℕ → Shared (World X) → Type 0
  Active c sh = is_active (sh.containers c) ≡ true

  -- The step from one state to another leaves what is queued queued, does not activate anything,
  -- and deactivates only what it has queued; and the watches monitor what they did.
  pub record Wakes (sh sh' : Shared (World X)) : Type 0 where
    pub queued : (c : ℕ) → Queued c sh → Queued c sh'
    pub active : (c : ℕ) → Active c sh' → Active c sh
    pub armed : (c : ℕ) → Active c sh → Active c sh' ⊎ Queued c sh'
    pub watches :
        (e : ℕ)
        → ((watch_at e sh').event ≡ (watch_at e sh).event)
          × ((watch_at e sh').monitor_bit ≡ (watch_at e sh).monitor_bit)

  pub Wakes-refl : (sh : Shared (World X)) → Wakes sh sh
  Wakes-refl sh = record {
    queued = λ c q. q;
    active = λ c a. a;
    armed = λ c a. inl a;
    watches = λ e. (refl, refl);
  }

  pub Wakes-trans : {a b c : Shared (World X)} → Wakes a b → Wakes b c → Wakes a c
  Wakes-trans f g = record {
    queued = λ c q. g.queued c (f.queued c q);
    active = λ c a. f.active c (g.active c a);
    armed = λ c a. elim (f.armed c a) [ inl b ↦ g.armed c b | inr q ↦ inr (g.queued c q) ];
    watches = λ e. ((g.watches e).0 ∙ (f.watches e).0, (g.watches e).1 ∙ (f.watches e).1);
  }

  pub if_Wakes :
      (b : Bool) (sh x y : Shared (World X))
      → Wakes sh x
      → Wakes sh y
      → Wakes sh (if b then x else y)
  if_Wakes true sh x y f g = f
  if_Wakes false sh x y f g = g

  abbrev pub queue_and_deactivate : Event → Shared (World X) → Shared (World X)
  queue_and_deactivate ev sh =
      deactivate ev.container (record sh { eventqueue = add_event ev sh.eventqueue })

  pub queued_after :
      (ev : Event) (sh : Shared (World X)) (c : ℕ)
      → (queue_and_deactivate ev sh).eventqueue.is_queued c
        ≡ (if ev.container == c then true else sh.eventqueue.is_queued c)
  queued_after ev sh c = (add_event-list_of ev sh.eventqueue chng c).1

  queue_and_deactivate-Wakes :
      (ev : Event) (sh : Shared (World X)) → Wakes sh (queue_and_deactivate ev sh)
  queue_and_deactivate-Wakes ev sh = record {
    queued = λ c q. queued_after ev sh c ∙ if_true (ev.container == c) _ q;
    active = λ c a.
        less_active (ev.container == c) (sh.containers c)
          (subst (λ x. is_active x ≡ true) (update-at sh.containers ev.container c) a);
    armed = λ c a. elim (Bool-cases (ev.container == c)) [
      | inl h ↦ inr (queued_after ev sh c ∙ rw h refl)
      | inr h ↦ inl (rw (update-at sh.containers ev.container c, h) a)
    ];
    watches = λ e. (refl, refl);
  }

  pub wake-Wakes :
      (ev : Event) (ts : List TrigType) (sh : Shared (World X)) → Wakes sh (wake ev ts sh)
  unfolding wake
  wake-Wakes ev ts sh =
      if_Wakes (sh.eventqueue.is_queued ev.container) sh _ _ (Wakes-refl sh)
        (if_Wakes (has_any ev.type ts) sh _ _ (queue_and_deactivate-Wakes ev sh) (Wakes-refl sh))

  -- An event of one of the types is queued, by this or before.
  pub wake-Queued :
      (ev : Event) (ts : List TrigType) (sh : Shared (World X))
      → has_any ev.type ts ≡ true
      → Queued ev.container (wake ev ts sh)
  unfolding wake
  wake-Queued ev ts sh h = elim (Bool-cases (sh.eventqueue.is_queued ev.container)) [
    | inl q ↦ rw q q
    | inr q ↦
        rw (q, h)
          (queued_after ev sh ev.container ∙ rw ((==_iff ev.container ev.container).1 refl) refl)
  ]

-- The evaluation of a monitored bit leaves the events alone.
pub record KeepsEvents {X : Type 0} (evaluate : X → Shared (World X) → BitVector × Shared (World X))
    : Type 0 where
  pub queue_kept : (x : X) (sh : Shared (World X)) → (evaluate x sh).1.eventqueue ≡ sh.eventqueue
  pub containers_kept :
      (x : X) (sh : Shared (World X)) → (evaluate x sh).1.containers ≡ sh.containers
  pub watches_kept :
      (x : X) (sh : Shared (World X)) → (evaluate x sh).1.nets.watches ≡ sh.nets.watches

module _ {X : Type 0} where
  same_events-Wakes :
      (sh sh' : Shared (World X))
      → sh'.eventqueue ≡ sh.eventqueue
      → sh'.containers ≡ sh.containers
      → sh'.nets.watches ≡ sh.nets.watches
      → Wakes sh sh'
  same_events-Wakes sh sh' q c w = record {
    queued = λ d e. ap (λ x. x.is_queued d) q ∙ e;
    active = λ d e. ap (λ x. is_active (x d)) (sym c) ∙ e;
    armed = λ d e. inl (ap (λ x. is_active (x d)) c ∙ e);
    watches = λ e. (ap (λ x. (x e).event) w, ap (λ x. (x e).monitor_bit) w);
  }

  set_previous-Wakes :
      (e : ℕ) (v : BitVector) (sh : Shared (World X)) → Wakes sh (set_previous e v sh)
  unfolding update
  set_previous-Wakes e v sh = record {
    queued = λ d q. q;
    active = λ d a. a;
    armed = λ d a. inl a;
    watches = λ d. elim (Bool-cases (e == d)) [
      | inl h ↦ rw h (
        ap (λ x. (sh.nets.watches x).event) ((==_iff e d).0 h),
        ap (λ x. (sh.nets.watches x).monitor_bit) ((==_iff e d).0 h),
      )
      | inr h ↦ rw h (refl, refl)
    ];
  }

module _ {X : Type 0} (evaluate : X → Shared (World X) → BitVector × Shared (World X))
    (k : KeepsEvents evaluate) where
  pub evaluate-Wakes : (x : X) (sh : Shared (World X)) → Wakes sh (evaluate x sh).1
  evaluate-Wakes x sh =
      same_events-Wakes sh (evaluate x sh).1 (k.queue_kept x sh) (k.containers_kept x sh)
        (k.watches_kept x sh)

  idle_watch-Wakes :
      (e : ℕ) (o : Option X) (sh : Shared (World X)) → Wakes sh (idle_watch evaluate e o sh)
  unfolding idle_watch
  idle_watch-Wakes e none sh = Wakes-refl sh
  idle_watch-Wakes e (some bit) sh =
      Wakes-trans (evaluate-Wakes bit sh)
        (set_previous-Wakes e (evaluate bit sh).0 (evaluate bit sh).1)

  active_watch-Wakes :
      (before after : BitVector) (e : ℕ) (ev : Event) (o : Option X) (sh : Shared (World X))
      → Wakes sh (active_watch evaluate before after e ev o sh)
  unfolding active_watch
  active_watch-Wakes before after e ev none sh =
      if_Wakes (same_bit (compare_c before after) lo) sh _ _ (wake-Wakes ev change_types sh)
        (Wakes-refl sh)
  active_watch-Wakes before after e ev (some bit) sh =
      let sh1 = (evaluate bit sh).1 in
      let pb = first_bit (watch_at e sh1).previous_bit in
      let cb = first_bit (evaluate bit sh).0 in
      Wakes-trans (evaluate-Wakes bit sh) (
        Wakes-trans
          (if_Wakes (same_bit pb cb) sh1 sh1 (wake ev (edge_types (edge_detect pb cb)) sh1)
            (Wakes-refl sh1) (wake-Wakes ev (edge_types (edge_detect pb cb)) sh1))
          (set_previous-Wakes e (evaluate bit sh).0 _))

  pub check_watch-Wakes :
      (before after : BitVector) (e : ℕ) (sh : Shared (World X))
      → Wakes sh (check_watch evaluate before after e sh)
  unfolding check_watch
  check_watch-Wakes before after e sh =
      let w = watch_at e sh in
      if_Wakes (is_active (sh.containers w.event.container)) sh _ _
        (active_watch-Wakes before after e w.event w.monitor_bit sh)
        (idle_watch-Wakes e w.monitor_bit sh)

  pub check_monitor-Wakes :
      (before after : BitVector) (es : List ℕ) (sh : Shared (World X))
      → Wakes sh (check_monitor evaluate before after es sh)
  unfolding check_monitor
  check_monitor-Wakes before after [] sh = Wakes-refl sh
  check_monitor-Wakes before after (e ∷ es) sh =
      Wakes-trans (check_watch-Wakes before after e sh)
        (check_monitor-Wakes before after es (check_watch evaluate before after e sh))
