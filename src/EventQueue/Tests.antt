-- ===== src/EventQueue/Tests.antt =====
-- Runs of an event queue.
use verilog_behavioral_simul.EventQueue.Order.{trigger-in_order, record_only, containers, in_order}
use verilog_behavioral_simul.EventQueue.{
  strobe, trigger, Event, Queue, new_queue, add_event, nonblk, monitor, inactive,
}
use verilog_behavioral_simul.Base.{
  some, length-append, ℕ, zero, suc, ◌+◌, ◌==◌, ◌≤◌, ◌≡◌, arith, true, [], ◌∷◌, ◌++◌, if◌then◌else◌,
}
use verilog_behavioral_simul.EventQueue.Drain.{trigger-total, Triggered, pending, potential}
use verilog_behavioral_simul.EventQueue.Regions.{list_of, add_event-list_of, rank}

abbrev change : Event
change = record { type = nonblk; container = 4 }

abbrev queue : Queue
queue = add_event (record { type = monitor; container = 3 }) (new_queue 0)

add_event-list_of_example :
    (list_of nonblk (add_event change queue) ≡ (
      if rank nonblk == rank nonblk
      then list_of nonblk queue ++ change ∷ []
      else list_of nonblk queue))
    × ((add_event change queue).is_queued 4 ≡ (if 4 == 4 then true else queue.is_queued 4))
add_event-list_of_example = add_event-list_of change queue nonblk 4

-- A handler that queues an inactive event while it has any of its budget left, which it pays.
abbrev spend : ℕ → Queue → Queue × ℕ
spend zero q = (q, zero)
spend (suc n) q = (add_event (record { type = inactive; container = 5 }) q, n)

abbrev handler : ℕ → Queue × ℕ → Queue × ℕ
handler c st = spend st.1 st.0

added :
    (n : ℕ) (q : Queue)
    → pending (add_event (record { type = inactive; container = 5 }) q) + n ≤ pending q + suc n
unfolding add_event
added n q = rw length-append (omega arith)

spend_pays :
    (c : ℕ) (st : Queue × ℕ)
    → potential handler (λ s. s) (handler c st) ≤ potential handler (λ s. s) st
spend_pays c (q, zero) = omega arith
spend_pays c (q, suc n) = added n q

trigger-total_example : Triggered handler (λ s. s) 9 (queue, 3)
unfolding add_event new_queue
trigger-total_example = trigger-total handler (λ s. s) spend_pays 9 (queue, 3) (omega arith)

-- A queue with events in three regions, queued in another order.
abbrev busy : Queue
busy =
    add_event (record { type = inactive; container = 6 })
      (add_event (record { type = strobe; container = 8 }) (add_event change queue))

trigger-in_order_example :
    (q' : Queue) × (trigger record_only 9 (busy, [])
      ≡ some (q', containers (in_order busy) ++ containers busy.strobe_list))
unfolding add_event new_queue
trigger-in_order_example = trigger-in_order busy 9 (omega arith)
