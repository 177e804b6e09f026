-- ===== src/Simulation/Completion.antt =====
-- A queue of events that runs dry has dispatched every payment of the activities with a count
-- (simln-lib/src/lib.rs: produce_payment_events, setup_payment_events).
use sim_ln.Prelude.{
  ℕ, ◌≤◌, ◌<◌, ◌≡◌, refl, Option, none, some, true, not, List, [], ◌∷◌, Result, ok, err, HashMap,
  lookup, contains_key, inl, inr, Method, pure, ◌==◌, u64_mod, arith, ◌>>=◌, Bool-cases, if-cases,
}
use sim_ln.Simulation.Types.{NodeInfo, SimulationError, payment_generation_error}
use sim_ln.Simulation.Events.{
  PaymentEvent, ExecutorPaymentTracker, Dispatch, Producer, Round, Flow, running, stopped, drained,
  pop_from, pop, count_met, wait_and_send, execute, handle_popped, produce_step,
  produce_payment_events,
}
use sim_ln.Simulation.Counts.{
  is_queued, dispatched_by, Counted, IsDue, FlowPromise, Generated, Pending, sent_after,
  generate_payment-Generated, regenerated, skip_zero, counted_more, tracker_unique, pop_from-queued,
}

send_after :
    (event : PaymentEvent) (d : Dispatch) (s c sent : ℕ) (p : Producer)
    (r : Result (Unit {0}) SimulationError × Producer)
    → d.source ≡ event.source
    → sent ≡ dispatched_by s p.dispatched
    → sent ≤ c
    → Generated event.source p r
    → Counted s c (sent_after s event.source sent) p
    → Pending event.source s c (sent_after s event.source sent) p
    → FlowPromise s c (elim r.0 [
      | err e ↦ (err e, r.1)
      | ok _ ↦ (ok running, record r.1 { dispatched = d ∷ r.1.dispatched })
    ])
unfolding Generated
send_after event d s c sent p (ok u, p') from n le (event', e, same) counted pending =
    let due = regenerated event.source s c _ p p' event' e same counted pending in
    let count : dispatched_by s (d ∷ p'.dispatched) ≡ sent_after s event.source sent =
      rw (from, same, n) refl in
    rw count (record { counted = due.counted; queued = due.queued })
send_after event d s c sent p (err f, p') from n le same counted pending = rw same (rw n at le)

-- The event is off the heap, and its source is found.
execute-FlowPromise :
    (nodes : HashMap NodeInfo) (event : PaymentEvent) (t : ExecutorPaymentTracker) (round : Round)
    (s c : ℕ) (p : Producer)
    → c < u64_mod
    → lookup event.source p.payments_tracker ≡ some t
    → Counted s c (dispatched_by s p.dispatched) p
    → Pending event.source s c (dispatched_by s p.dispatched) p
    → FlowPromise s c (execute nodes event t round p)
unfolding execute wait_and_send Pending
execute-FlowPromise nodes event t round s c p small found counted pending =
    if-cases (FlowPromise s c) (count_met t) _ _ met λ unmet.
      if-cases (FlowPromise s c) (not (contains_key event.source nodes)) _ _ (λ _. counted.4)
        λ _.
          if-cases (FlowPromise s c) (event.amount == 0) _ _
            (λ _.
              skip_zero event.source s c p _
                (generate_payment-Generated event.source round.now round.draws p) counted pending)
            λ _.
              if-cases (FlowPromise s c) round.stopped_asleep _ _ (λ _. counted.4)
                λ _.
                  send_after event _ s c _ _ _ refl refl counted.4
                    (generate_payment-Generated event.source round.now round.draws _)
                    (counted_more event.source s c _ p t small found unmet counted)
                    (λ h. rw h (pending h))
  where
    is_met : (s == event.source) ≡ true → count_met t ≡ true → dispatched_by s p.dispatched ≡ c
    is_met e h =
        let u = tracker_unique event.source s p.payments_tracker t counted.0 e found counted.1 in
        let count : t.executor.payment_generator.payment_count ≡ some c = rw u at counted.2 in
        let sent : t.payments_completed ≡ dispatched_by s p.dispatched = rw u at counted.3 in
        let last : (c == t.payments_completed) ≡ true = rw count at h in ground arith

    met : count_met t ≡ true → IsDue s c (dispatched_by s p.dispatched) p
    met h = record {
      counted = counted;
      queued = elim (Bool-cases (s == event.source)) [
        | inl e ↦ inr (is_met e h)
        | inr e ↦ pending e
      ];
    }

handle_popped-FlowPromise :
    (nodes : HashMap NodeInfo) (round : Round) (s c : ℕ) (p : Producer) (event : PaymentEvent)
    (rest : List PaymentEvent)
    → c < u64_mod
    → is_queued s p.heap ≡ is_queued s (event ∷ rest)
    → IsDue s c (dispatched_by s p.dispatched) p
    → FlowPromise s c (handle_popped nodes round (some (event, rest)) p)
unfolding handle_popped Pending
handle_popped-FlowPromise nodes round s c p event rest small members due =
    go (lookup event.source p.payments_tracker) refl
  where
    go :
        (o : Option ExecutorPaymentTracker)
        → lookup event.source p.payments_tracker ≡ o
        → FlowPromise s c (elim o [
          | none ↦ (err payment_generation_error, record p { heap = rest })
          | some tracker ↦ execute nodes event tracker round (record p { heap = rest })
        ])
    go none e = due.counted.4
    go (some t) e =
        execute-FlowPromise nodes event t round s c (record p { heap = rest }) small e due.counted
          (λ other. elim due.queued [ inl q ↦ inl (ground arith) | inr done ↦ inr done ])

produce_step-FlowPromise :
    (nodes : HashMap NodeInfo) (round : Round) (s c : ℕ) (p : Producer)
    → c < u64_mod
    → IsDue s c (dispatched_by s p.dispatched) p
    → FlowPromise s c (produce_step nodes round p)
unfolding produce_step handle_popped
produce_step-FlowPromise nodes round s c p small due =
    if-cases (FlowPromise s c) round.stopped _ _ (λ _. due.counted.4) λ _. go p.heap refl
  where
    go :
        (heap : List PaymentEvent)
        → p.heap ≡ heap
        → FlowPromise s c (handle_popped nodes round (pop heap) p)
    go [] e = elim due.queued [ inl q ↦ absurd (ground (arith, e)) | inr done ↦ done ]
    go (event ∷ rest) e =
        handle_popped-FlowPromise nodes round s c p (pop_from event rest).0 (pop_from event rest).1
          small (rw e (pop_from-queued s event rest)) due

after_round :
    (s c : ℕ) (p : Producer) (r : Result Flow SimulationError × Producer)
    (rest : Method Producer SimulationError Flow)
    → FlowPromise s c r
    → ((q : Producer) → IsDue s c (dispatched_by s q.dispatched) q → FlowPromise s c (rest q))
    → FlowPromise s c (
        ((λ (q : Producer). r) >>= (λ flow. elim flow [
          | running ↦ rest
          | stopped ↦ pure stopped
          | drained ↦ pure drained
        ]))
          p)
after_round s c p (ok running, q) rest h continues = continues q h
after_round s c p (ok stopped, q) rest h continues = h
after_round s c p (ok drained, q) rest h continues = h
after_round s c p (err e, q) rest h continues = h

pub produce_payment_events-FlowPromise :
    (nodes : HashMap NodeInfo) (rounds : List Round) (s c : ℕ) (p : Producer)
    → c < u64_mod
    → IsDue s c (dispatched_by s p.dispatched) p
    → FlowPromise s c (produce_payment_events nodes rounds p)
unfolding produce_payment_events
produce_payment_events-FlowPromise nodes [] s c p small due = due
produce_payment_events-FlowPromise nodes (round ∷ rounds) s c p small due =
    after_round s c p (produce_step nodes round p) (produce_payment_events nodes rounds)
      (produce_step-FlowPromise nodes round s c p small due)
      (λ q. produce_payment_events-FlowPromise nodes rounds s c q small)
