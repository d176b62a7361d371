-- ===== src/EventQueue/Drain.antt =====
-- The loop of `trigger` in src/common/event.h, and the events that it has before it.
use verilog_behavioral_simul.Base.{
  ◌∙◌, ℕ, zero, suc, ◌+◌, ◌≤◌, ◌<◌, ◌≡◌, refl, arith, Option, none, some, List, [], ◌∷◌, length,
}
use verilog_behavioral_simul.EventQueue.{
  Event, Queue, Region, in_active, in_inactive, in_nonblocking, in_monitor, next_region,
  region_list, move_out, move_strobe, handle_events, drain, trigger,
}

-- The events that the loop has to serve.
abbrev pub pending : Queue → ℕ
pending q =
    length q.active_list
    + length q.inactive_list
    + length q.nonblocking_list
    + length q.monitor_list

-- Moving a list out takes exactly its events off.
move_out-pending :
    (r : Region) (q : Queue) → pending (move_out r q) + length (region_list r q) ≡ pending q
unfolding move_out
move_out-pending in_active q = omega arith
move_out-pending in_inactive q = omega arith
move_out-pending in_nonblocking q = omega arith
move_out-pending in_monitor q = omega arith

next_region-pos : (q : Queue) (r : Region) → next_region q ≡ some r → 0 < length (region_list r q)
unfolding next_region
next_region-pos q r e = ground arith

module _ {S : Type 0} (handler : ℕ → Queue × S → Queue × S) (budget : S → ℕ) where
  abbrev pub potential : Queue × S → ℕ
  potential st = pending st.0 + budget st.1

  -- The loop ends, and the strobe events are handled from where it ended.
  abbrev pub Triggered : ℕ → Queue × S → Type 0
  Triggered fuel st =
      (before : Queue × S) × (drain handler fuel st ≡ some before)
      × (next_region before.0 ≡ none)
      × (trigger handler fuel st
          ≡ some (handle_events handler before.0.strobe_list (move_strobe before.0, before.1)))

  module _ (pays : (c : ℕ) (st : Queue × S) → potential (handler c st) ≤ potential st) where
    handle_events-potential :
        (evs : List Event) (st : Queue × S)
        → potential (handle_events handler evs st) ≤ potential st
    unfolding handle_events
    handle_events-potential [] st = omega arith
    handle_events-potential (ev ∷ evs) st = omega (
      arith,
      pays ev.container st,
      handle_events-potential evs (
        record (handler ev.container st).0 {
          triggered_events = (handler ev.container st).0.triggered_events + 1;
        },
        (handler ev.container st).1,
      ),
    )

    unfoldable pub serve : Region → Queue × S → Queue × S
    serve r st = handle_events handler (region_list r st.0) (move_out r st.0, st.1)

    serve-potential :
        (r : Region) (st : Queue × S)
        → next_region st.0 ≡ some r
        → potential (serve r st) < potential st
    unfolding serve
    serve-potential r st e = omega (
      arith,
      handle_events-potential (region_list r st.0) (move_out r st.0, st.1),
      move_out-pending r st.0,
      next_region-pos st.0 r e,
    )

    Drained : ℕ → Queue × S → Type 0
    Drained fuel st =
        (st' : Queue × S) × (drain handler fuel st ≡ some st') × (next_region st'.0 ≡ none)

    pub drain-none :
        (fuel : ℕ) (st : Queue × S)
        → next_region st.0 ≡ none
        → drain handler (suc fuel) st ≡ some st
    unfolding drain
    drain-none fuel st e = rw (drain, e) refl

    pub drain-some :
        (fuel : ℕ) (st : Queue × S) (r : Region)
        → next_region st.0 ≡ some r
        → drain handler (suc fuel) st ≡ drain handler fuel (serve r st)
    unfolding drain serve
    drain-some fuel st r e = rw (drain, e) refl

    drain-go :
        (fuel : ℕ) (st : Queue × S)
        → ((st' : Queue × S) → potential st' < fuel → Drained fuel st')
        → potential st < suc fuel
        → (o : Option Region) → next_region st.0 ≡ o
        → Drained (suc fuel) st
    unfolding Drained
    drain-go fuel st ih h none e = (st, drain-none fuel st e, e)
    drain-go fuel st ih h (some r) e =
        let (st', d, n) = ih (serve r st) (omega (arith, serve-potential r st e)) in
        (st', drain-some fuel st r e ∙ d, n)

    drain-total : (fuel : ℕ) (st : Queue × S) → potential st < fuel → Drained fuel st
    drain-total zero st h = absurd (omega arith)
    drain-total (suc fuel) st h = drain-go fuel st (drain-total fuel) h (next_region st.0) refl

  -- When a handler never adds more events than a budget that it pays from, more fuel than the
  -- events queued and the budget together is enough for `trigger`: its loop ends with no event
  -- left in any of the four regions, and only then are the strobe events handled, those that
  -- the loop queued among them.
  pub trigger-total :
      ((c : ℕ) (st : Queue × S) → potential (handler c st) ≤ potential st)
      → (fuel : ℕ) (st : Queue × S) → potential st < fuel
      → Triggered fuel st
  unfolding trigger Drained
  trigger-total pays fuel st h =
      let (before, d, n) = drain-total pays fuel st h in (before, d, n, rw (trigger, d) refl)
