-- ===== src/Net/Woken.antt =====
-- The events that `check_monitor` of src/common/st_util.cc queues when a net has changed.
use verilog_behavioral_simul.Base.{List, [], inl, inr, none, subst, true, ℕ, ◌∙◌, ◌∷◌, ◌≡◌}
use verilog_behavioral_simul.BitVector.{BitVector}
use verilog_behavioral_simul.BitVector.Compare.{compare_c}
use verilog_behavioral_simul.Logic.{lo, same_bit}
use verilog_behavioral_simul.Net.{World}
use verilog_behavioral_simul.Net.Monitor.{
  active_watch, change_types, check_monitor, check_watch, has_any, watch_at,
}
use verilog_behavioral_simul.Net.Wakes.{
  Active, KeepsEvents, Queued, Wakes, check_monitor-Wakes, check_watch-Wakes, wake-Queued,
}
use verilog_behavioral_simul.Statement.{Shared}
use mathlib.Core.List.{Memᴰ}
use mathlib.Core.List.Memᴰ

module _ {X : Type 0} (evaluate : X → Shared (World X) → BitVector × Shared (World X))
    (k : KeepsEvents evaluate) where
  -- The turn of an event that waits for the change of a whole net.
  check_watch-Queued :
      (before after : BitVector) (e : ℕ) (sh : Shared (World X))
      → compare_c before after ≡ lo
      → (watch_at e sh).monitor_bit ≡ none
      → has_any (watch_at e sh).event.type change_types ≡ true
      → Active (watch_at e sh).event.container sh
      → Queued (watch_at e sh).event.container (check_watch evaluate before after e sh)
  unfolding check_watch active_watch same_bit
  check_watch-Queued before after e sh changed whole ty a =
      rw (a, whole, changed) (wake-Queued (watch_at e sh).event change_types sh ty)

  -- When the value of a net changes, which is that its bits before and after do not compare as
  -- equal, every event that monitors the whole net for changes, for `$monitor` or for `$strobe`,
  -- and whose statement waits, is queued when the monitors have been checked, also if events with
  -- the same container come before it in the list. Monitored bits are evaluated on the way; that
  -- is to leave the queue, the containers and the events alone.
  pub check_monitor-Queued :
      (before after : BitVector) (es : List ℕ) (e : ℕ) (sh : Shared (World X))
      → Memᴰ e es
      → compare_c before after ≡ lo
      → (watch_at e sh).monitor_bit ≡ none
      → has_any (watch_at e sh).event.type change_types ≡ true
      → Active (watch_at e sh).event.container sh
      → Queued (watch_at e sh).event.container (check_monitor evaluate before after es sh)
  unfolding check_monitor
  check_monitor-Queued before after [] e sh m changed whole ty a = absurd (Memᴰ.not-nil m)
  check_monitor-Queued before after (d ∷ es) e sh m changed whole ty a = elim (Memᴰ.cases_cons m) [
    | inl q ↦
        subst
          (λ x.
            Queued (watch_at e sh).event.container
              (check_monitor evaluate before after es (check_watch evaluate before after x sh)))
          q
          ((check_monitor-Wakes evaluate k before after es
              (check_watch evaluate before after e sh)).queued
            _ (check_watch-Queued before after e sh changed whole ty a))
    | inr rest ↦ elim (first.armed _ a) [
      | inl b ↦
          subst (λ ev. Queued ev.container (check_monitor evaluate before after es sh1))
            (first.watches e).0
            (check_monitor-Queued before after es e sh1 rest changed ((first.watches e).1 ∙ whole)
              (rw (first.watches e).0 ty) (rw (first.watches e).0 b))
      | inr q ↦ (check_monitor-Wakes evaluate k before after es sh1).queued _ q
    ]
  ]
    where
      sh1 : Shared (World X)
      sh1 = check_watch evaluate before after d sh

      first : Wakes sh sh1
      first = check_watch-Wakes evaluate k before after d sh
