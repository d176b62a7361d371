-- ===== src/TimeWheel/Total.antt =====
-- The loop of `trigger` in src/common/time_whl.h, and the units that it has before it.
use verilog_behavioral_simul.Base.{
  ℕ, zero, suc, ◌+◌, ◌≤◌, ◌<◌, ◌≡◌, refl, ap, ◌∙◌, arith, some, List, [], ◌∷◌, length,
  if◌then◌else◌,
}
use verilog_behavioral_simul.TimeWheel.{
  Node, Wheel, pop_node, trigger_node, trigger_first, trigger_once, trigger, advance,
}

module _ {E S : Type 0} (handler : ℕ → Wheel E × S → Wheel E × S) (budget : S → ℕ) where
  abbrev pub potential : Wheel E × S → ℕ
  potential st = length st.0.nodes + budget st.1

  length-pop_node : (ns : List (Node E)) → 0 < length ns → length (pop_node ns) + 1 ≡ length ns
  length-pop_node [] h = absurd (omega arith)
  length-pop_node (n ∷ ns) h = omega arith

  trigger-empty :
      (fuel : ℕ) (w : Wheel E) (s : S) → w.nodes ≡ [] → trigger handler (suc fuel) w s ≡ some (w, s)
  unfolding trigger trigger_once trigger_first
  trigger-empty fuel w s e =
      ap
        (λ x.
          let (more, w', s') = trigger_first handler x w s in
          if more then trigger handler fuel w' s' else some (w, s))
        e

  trigger-unit :
      (fuel : ℕ) (w : Wheel E) (s : S) (n : Node E) (ns : List (Node E))
      → w.nodes ≡ n ∷ ns
      → trigger handler (suc fuel) w s
        ≡ trigger handler fuel (trigger_node handler n w s).0 (trigger_node handler n w s).1
  unfolding trigger trigger_once trigger_first
  trigger-unit fuel w s n ns e =
      ap
        (λ x.
          let (more, w', s') = trigger_first handler x w s in
          if more then trigger handler fuel w' s' else some (w, s))
        e

  module _
      (keeps : (t : ℕ) (st : Wheel E × S)
        → 0 < length st.0.nodes
        → 0 < length (handler t st).0.nodes)
      (pays : (t : ℕ) (st : Wheel E × S) → potential (handler t st) ≤ potential st) where
    trigger_node-potential :
        (n : Node E) (w : Wheel E) (s : S)
        → 0 < length w.nodes
        → potential (trigger_node handler n w s) < potential (w, s)
    unfolding trigger_node
    trigger_node-potential n w s h =
        let st : Wheel E × S = (record w { latest_time = advance w.latest_time n.time }, s) in
        omega
          (arith, pays n.time st, length-pop_node (handler n.time st).0.nodes (keeps n.time st h))

    -- When a handler empties no wheel, and adds no more units than a budget that it pays from,
    -- more fuel than the units and the budget together is enough for `trigger`: it ends, and
    -- leaves no unit.
    pub trigger-done :
        (fuel : ℕ) (w : Wheel E) (s : S)
        → potential (w, s) < fuel
        → (w' : Wheel E) × (s' : S) × (trigger handler fuel w s ≡ some (w', s')) × (w'.nodes ≡ [])
    trigger-done zero w s h = absurd (omega arith)
    trigger-done (suc fuel) w s h =
        go (λ n. trigger-done fuel (trigger_node handler n w s).0 (trigger_node handler n w s).1)
          w.nodes refl
      where
        go :
            ((n : Node E)
              → potential (trigger_node handler n w s) < fuel
              → (w' : Wheel E) × (s' : S) × (trigger handler fuel
                    (trigger_node handler n w s).0
                    (trigger_node handler n w s).1
                  ≡ some (w', s'))
                × (w'.nodes ≡ []))
            → (ns : List (Node E)) → w.nodes ≡ ns
            → (w' : Wheel E) × (s' : S) × (trigger handler (suc fuel) w s ≡ some (w', s'))
              × (w'.nodes ≡ [])
        go ih [] e = (w, s, trigger-empty fuel w s e, e)
        go ih (n ∷ ns) e =
            let (w', s', t, z) =
              ih n (omega (arith, trigger_node-potential n w s (rw e (omega arith)))) in
            (w', s', trigger-unit fuel w s n ns e ∙ t, z)
