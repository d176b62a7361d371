-- ===== src/EventQueue/Order.antt =====
-- The order in which `trigger` of src/common/event.h serves what is queued.
use verilog_behavioral_simul.Base.{
  ◌<◌, ap₂, ◌≤◌, subst, ℕ, zero, suc, ◌+◌, ◌≡◌, refl, sym, ap, ◌∙◌, arith, Option, none, some, List,
  [], ◌∷◌, ◌++◌, map,
}
use verilog_behavioral_simul.EventQueue.Drain.{
  pending, potential, serve, drain-none, drain-some, trigger-total,
}
use mathlib.Core.List.{append-nil, append_assoc, map-append}
use verilog_behavioral_simul.EventQueue.{
  Event, Queue, Region, in_active, in_inactive, in_nonblocking, in_monitor, next_region,
  region_list, move_out, move_strobe, handle_events, drain, trigger,
}

-- A handler that only writes down what it is given.
abbrev pub record_only : ℕ → Queue × List ℕ → Queue × List ℕ
record_only c st = (st.0, st.1 ++ c ∷ [])

abbrev pub containers : List Event → List ℕ
containers evs = map (λ ev. ev.container) evs

-- What the loop has to serve, in the order of the regions.
abbrev pub in_order : Queue → List Event
in_order q = q.active_list ++ (q.inactive_list ++ (q.nonblocking_list ++ q.monitor_list))

-- The lists of a queue, without the flags and counters.
abbrev Lists : Queue → Queue → Type 0
Lists q q' =
    (q'.active_list ≡ q.active_list)
    × (q'.inactive_list ≡ q.inactive_list)
    × (q'.nonblocking_list ≡ q.nonblocking_list)
    × (q'.monitor_list ≡ q.monitor_list)
    × (q'.strobe_list ≡ q.strobe_list)

handle_events-record_only :
    (evs : List Event) (q : Queue) (s : List ℕ)
    → Lists q (handle_events record_only evs (q, s)).0
      × ((handle_events record_only evs (q, s)).1 ≡ s ++ containers evs)
unfolding handle_events
handle_events-record_only [] q s = ((refl, refl, refl, refl, refl), sym (append-nil s))
handle_events-record_only (ev ∷ evs) q s =
    let (l, e) =
      handle_events-record_only evs (record q { triggered_events = q.triggered_events + 1 })
        (s ++ ev.container ∷ []) in
    (l, e ∙ append_assoc s (ev.container ∷ []) (containers evs))

-- The first list that is not empty is the head of what is to be served.
next_region-in_order :
    (q : Queue) (r : Region)
    → next_region q ≡ some r
    → in_order q ≡ region_list r q ++ in_order (move_out r q)
unfolding next_region move_out
next_region-in_order q r e = ground (arith, append-nil q.monitor_list)

next_region-none : (q : Queue) → next_region q ≡ none → in_order q ≡ []
unfolding next_region
next_region-none q e = ground arith

move_out-strobe_list : (r : Region) (q : Queue) → (move_out r q).strobe_list ≡ q.strobe_list
unfolding move_out
move_out-strobe_list in_active q = refl
move_out-strobe_list in_inactive q = refl
move_out-strobe_list in_nonblocking q = refl
move_out-strobe_list in_monitor q = refl

record_only_pays :
    (c : ℕ) (st : Queue × List ℕ)
    → potential record_only (λ s. 0) (record_only c st) ≤ potential record_only (λ s. 0) st
record_only_pays c st = omega arith

-- What the loop has written down when it ends, and that it leaves the strobe events.
Served : Queue × List ℕ → Queue × List ℕ → Type 0
Served st before =
    (before.1 ≡ st.1 ++ containers (in_order st.0)) × (before.0.strobe_list ≡ st.0.strobe_list)

Served-none :
    (st before : Queue × List ℕ) → next_region st.0 ≡ none → st ≡ before → Served st before
unfolding Served
Served-none st before e h =
    subst (λ b. Served st b) h (rw (next_region-none st.0 e) (sym (append-nil st.1), refl))

in_order-Lists : (q q' : Queue) → Lists q q' → in_order q' ≡ in_order q
in_order-Lists q q' (a, i, n, m, b) = rw (a, i, n, m) refl

Served-some :
    (st before : Queue × List ℕ) (r : Region)
    → next_region st.0 ≡ some r
    → Served (serve record_only (λ s. 0) record_only_pays r st) before
    → Served st before
unfolding Served serve
Served-some st before r e (w, k) =
    let evs = region_list r st.0 in
    let q = move_out r st.0 in
    let (ls, l) = handle_events-record_only evs q st.1 in
    (
      w
          ∙ ap₂ (λ x y. x ++ containers y) l
              (in_order-Lists q (handle_events record_only evs (q, st.1)).0 ls)
          ∙ append_assoc st.1 (containers evs) (containers (in_order q))
          ∙ ap (λ z. st.1 ++ z) (sym (map-append (λ (ev : Event). ev.container) evs (in_order q)))
          ∙ ap (λ z. st.1 ++ containers z) (sym (next_region-in_order st.0 r e)),
      k ∙ ls.4 ∙ move_out-strobe_list r st.0,
    )

inside :
    (st before : Queue × List ℕ)
    → ◌≡◌ {A = Option (Queue × List ℕ)} (some st) (some before)
    → st ≡ before
inside st before h = cc

drain-Served :
    (fuel : ℕ) (st before : Queue × List ℕ)
    → drain record_only fuel st ≡ some before
    → Served st before
unfolding drain
drain-Served zero st before d = cc
drain-Served (suc fuel) st before d =
    turn (λ r. drain-Served fuel (serve record_only (λ s. 0) record_only_pays r st) before)
      (next_region st.0) refl
  where
    turn :
        ((r : Region)
          → drain record_only fuel (serve record_only (λ s. 0) record_only_pays r st) ≡ some before
          → Served (serve record_only (λ s. 0) record_only_pays r st) before)
        → (o : Option Region) → next_region st.0 ≡ o
        → Served st before
    turn ih none e =
        Served-none st before e
          (inside st before (sym (drain-none record_only (λ s. 0) record_only_pays fuel st e) ∙ d))
    turn ih (some r) e =
        Served-some st before r e
          (ih r (sym (drain-some record_only (λ s. 0) record_only_pays fuel st r e) ∙ d))

-- With a handler that queues nothing, `trigger` serves all that is queued, each event once: the
-- active events, then the inactive, the nonblocking, the monitor and last the strobe events, and
-- the events of one region in the order in which they were queued. More fuel than there are
-- events is enough.
pub trigger-in_order :
    (q : Queue) (fuel : ℕ)
    → pending q < fuel
    → (q' : Queue) × (trigger record_only fuel (q, [])
        ≡ some (q', containers (in_order q) ++ containers q.strobe_list))
unfolding Served
trigger-in_order q fuel h =
    let (before, d, n, t) =
      trigger-total record_only (λ s. 0) record_only_pays fuel (q, []) (omega arith) in
    let (w, k) = drain-Served fuel (q, []) before d in
    let (ls, l) = handle_events-record_only before.0.strobe_list (move_strobe before.0) before.1 in
    let out = handle_events record_only before.0.strobe_list (move_strobe before.0, before.1) in
    (
      out.0,
      t
          ∙ ap (λ (x : List ℕ). some (out.0, x))
              (l ∙ ap₂ (λ x y. x ++ containers y) {x = before.1} w k),
    )
