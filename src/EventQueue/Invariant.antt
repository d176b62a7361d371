-- ===== src/EventQueue/Invariant.antt =====
-- What the trigger of src/common/event.h keeps of the client's state.
use verilog_behavioral_simul.Base.{List, Option, [], none, some, suc, zero, ℕ, ◌∷◌}
use verilog_behavioral_simul.EventQueue.{
  Event, Queue, Region, drain, handle_events, move_out, move_strobe, next_region, region_list,
  trigger,
}

abbrev pub HoldsAfter : {S : Type 0} → (S → Type 0) → Option (Queue × S) → Type 0
HoldsAfter P none = Unit
HoldsAfter P (some st) = P st.1

module _ {S : Type 0} (handler : ℕ → Queue × S → Queue × S) (P : S → Type 0)
    (keeps : (c : ℕ) (q : Queue) (s : S) → P s → P (handler c (q, s)).1) where
  handle_events-keeps :
      (evs : List Event) (q : Queue) (s : S) → P s → P (handle_events handler evs (q, s)).1
  unfolding handle_events
  handle_events-keeps [] q s h = h
  handle_events-keeps (ev ∷ evs) q s h =
      handle_events-keeps evs _ (handler ev.container (q, s)).1 (keeps ev.container q s h)

  drain-keeps : (fuel : ℕ) (q : Queue) (s : S) → P s → HoldsAfter P (drain handler fuel (q, s))
  unfolding drain
  drain-keeps zero q s h = tt
  drain-keeps (suc fuel) q s h = go (drain-keeps fuel) (next_region q)
    where
      go :
          ((q : Queue) (s : S) → P s → HoldsAfter P (drain handler fuel (q, s)))
          → (o : Option Region)
          → HoldsAfter P (elim o as (λ _. Option (Queue × S)) [
            | none ↦ some (q, s)
            | some r ↦
                drain handler fuel (handle_events handler (region_list r q) (move_out r q, s))
          ])
      go rest none = h
      go rest (some r) =
          let st = handle_events handler (region_list r q) (move_out r q, s) in
          rest st.0 st.1 (handle_events-keeps (region_list r q) (move_out r q) s h)

  -- Whatever the handler keeps of the client's state, the trigger of the queue keeps.
  pub trigger-keeps :
      (fuel : ℕ) (q : Queue) (s : S) → P s → HoldsAfter P (trigger handler fuel (q, s))
  unfolding trigger
  trigger-keeps fuel q s h = go (drain handler fuel (q, s)) (drain-keeps fuel q s h)
    where
      go :
          (o : Option (Queue × S))
          → HoldsAfter P o
          → HoldsAfter P (elim o as (λ _. Option (Queue × S)) [
            | none ↦ none
            | some (q, s) ↦ some (handle_events handler q.strobe_list (move_strobe q, s))
          ])
      go none h = tt
      go (some (q, s)) h = handle_events-keeps q.strobe_list (move_strobe q) s h
