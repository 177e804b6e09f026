-- ===== src/Simulation/Counts.antt =====
-- How many payments an activity with a count dispatches.
use sim_ln.Prelude.{
  ℕ, suc, ◌≤◌, ◌<◌, ◌≡◌, refl, Option, none, some, Bool, true, false, List, [], ◌∷◌, Result, ok,
  err, HashMap, lookup, insert, lookup-insert, ◌⊎◌, inl, inr, pure, ◌==◌, ◌||◌, u64_mod, add_u64,
  arith, if◌then◌else◌, ◌>>=◌, Bool-cases,
}
use sim_ln.Simulation.Types.{SimulationError, payment_generation_error}
use sim_ln.Simulation.Events.{
  PaymentEvent, ExecutorPaymentTracker, Dispatch, Producer, Draws, Flow, running, stopped, drained,
  event_lt, pop_from, next_event, generate_payment, push_event, count_met, completed_one,
}

abbrev pub is_queued : ℕ → List PaymentEvent → Bool
is_queued s [] = false
is_queued s (e ∷ es) = (s == e.source) || is_queued s es

abbrev pub dispatched_by : ℕ → List Dispatch → ℕ
dispatched_by s [] = 0
dispatched_by s (d ∷ ds) = if s == d.source then suc (dispatched_by s ds) else dispatched_by s ds

-- A source whose activity has a count, and has sent a number of payments.
abbrev pub Counted : ℕ → ℕ → ℕ → Producer → Type 0
Counted s c sent p =
    (t : ExecutorPaymentTracker) × (lookup s p.payments_tracker ≡ some t)
    × (t.executor.payment_generator.payment_count ≡ some c)
    × (t.payments_completed ≡ sent)
    × (sent ≤ c)

-- Between two rounds: the next payment is queued, or all payments are sent.
pub record IsDue (s c sent : ℕ) (p : Producer) : Type 0 where
  pub counted : Counted s c sent p
  pub queued : (is_queued s p.heap ≡ true) ⊎ (sent ≡ c)

-- What a flow of the loop promises.
abbrev pub FlowPromise : ℕ → ℕ → Result Flow SimulationError × Producer → Type 0
FlowPromise s c (ok running, p) = IsDue s c (dispatched_by s p.dispatched) p
FlowPromise s c (ok drained, p) = dispatched_by s p.dispatched ≡ c
FlowPromise s c (ok stopped, p) = dispatched_by s p.dispatched ≤ c
FlowPromise s c (err e, p) = dispatched_by s p.dispatched ≤ c

pub pop_from-queued :
    (s : ℕ) (e : PaymentEvent) (es : List PaymentEvent)
    → is_queued s (e ∷ es) ≡ is_queued s ((pop_from e es).0 ∷ (pop_from e es).1)
unfolding pop_from
pop_from-queued s e [] = refl
pop_from-queued s e (f ∷ fs) = elim (Bool-cases (event_lt f e)) [
  | inl h ↦ rw h (ground (arith, pop_from-queued s f fs))
  | inr h ↦ rw h (ground (arith, pop_from-queued s e fs))
]

next_event-source :
    (t : ExecutorPaymentTracker) (s now : ℕ) (draws : Draws) (event : PaymentEvent)
    → next_event t s now draws ≡ ok event
    → event.source ≡ s
unfolding next_event
next_event-source t s now draws event h = ground arith

-- A generated payment is queued, and nothing else changes.
-- A generated payment is queued, and nothing else changes.
unfoldable pub Generated : ℕ → Producer → Result (Unit {0}) SimulationError × Producer → Type 0
Generated s p (ok u, p') =
    (event : PaymentEvent) × (event.source ≡ s) × (p' ≡ record p { heap = event ∷ p.heap })
Generated s p (err e, p') = p' ≡ p

push_event-Generated :
    (s : ℕ) (p : Producer) (r : Result PaymentEvent SimulationError)
    → ((event : PaymentEvent) → r ≡ ok event → event.source ≡ s)
    → Generated s p (push_event r p)
unfolding push_event Generated
push_event-Generated s p (ok event) h = (event, h event refl, refl)
push_event-Generated s p (err e) h = refl

pub generate_payment-Generated :
    (s now : ℕ) (draws : Draws) (p : Producer) → Generated s p (generate_payment s now draws p)
unfolding generate_payment Generated
generate_payment-Generated s now draws p = go (lookup s p.payments_tracker)
  where
    go :
        (o : Option ExecutorPaymentTracker)
        → Generated s p (elim o [
          | none ↦ (err payment_generation_error, p)
          | some tracker ↦ push_event (next_event tracker s now draws) p
        ])
    go none = refl
    go (some t) =
        push_event-Generated s p (next_event t s now draws) (next_event-source t s now draws)

-- What a source still needs once an event is off the heap: only the source of the event needs
-- a new one.
unfoldable pub Pending : ℕ → ℕ → ℕ → ℕ → Producer → Type 0
Pending k s c sent p = (s == k) ≡ false → (is_queued s p.heap ≡ true) ⊎ (sent ≡ c)

pub regenerated :
    (k s c sent : ℕ) (p p' : Producer) (event : PaymentEvent)
    → event.source ≡ k
    → p' ≡ record p { heap = event ∷ p.heap }
    → Counted s c sent p
    → Pending k s c sent p
    → IsDue s c sent p'
unfolding Pending
regenerated k s c sent p p' event e same counted pending = rw same (record {
  counted = counted;
  queued = elim (Bool-cases (s == k)) [
    | inl h ↦ inl (ground arith)
    | inr h ↦ ground (arith, pending h)
  ];
})

pub skip_zero :
    (k s c : ℕ) (p : Producer) (r : Result (Unit {0}) SimulationError × Producer)
    → Generated k p r
    → Counted s c (dispatched_by s p.dispatched) p
    → Pending k s c (dispatched_by s p.dispatched) p
    → FlowPromise s c (((λ (q : Producer). r) >>= (λ _. pure running)) p)
unfolding Generated
skip_zero k s c p (ok u, p') (event, e, same) counted pending =
    rw same (regenerated k s c _ p _ event e refl counted pending)
skip_zero k s c p (err f, p') same counted pending = rw same counted.4

-- The number of payments of `s` once `k` has sent one more.
abbrev pub sent_after : ℕ → ℕ → ℕ → ℕ
sent_after s k sent = if s == k then suc sent else sent

pub tracker_unique :
    (k s : ℕ) (m : HashMap ExecutorPaymentTracker) (t t' : ExecutorPaymentTracker)
    → (s == k) ≡ true
    → lookup k m ≡ some t
    → lookup s m ≡ some t'
    → t' ≡ t
tracker_unique k s m t t' h found found' = ground (arith, some_inj)
  where
    some_inj : some t' ≡ some t → t' ≡ t
    some_inj e = ground arith

-- The source whose count is not met has a payment left, and its counter does not wrap.
unmet_less :
    (t : ExecutorPaymentTracker) (c sent : ℕ)
    → c < u64_mod
    → count_met t ≡ false
    → t.executor.payment_generator.payment_count ≡ some c
    → t.payments_completed ≡ sent
    → sent ≤ c
    → (add_u64 t.payments_completed 1 ≡ suc sent) × (suc sent ≤ c)
unmet_less t c sent small unmet count same le =
    let left : (c == t.payments_completed) ≡ false = rw count at unmet in
    (ground arith, ground arith)

pub counted_more :
    (k s c sent : ℕ) (p : Producer) (t : ExecutorPaymentTracker)
    → c < u64_mod
    → lookup k p.payments_tracker ≡ some t
    → count_met t ≡ false
    → Counted s c sent p
    → Counted s c
        (sent_after s k sent)
        (record p { payments_tracker = insert k (completed_one t) p.payments_tracker })
counted_more k s c sent p t small found unmet (t', found', count, same, le) =
    elim (Bool-cases (s == k)) [
      | inl h ↦
          let u = tracker_unique k s p.payments_tracker t t' h found found' in
          let count' : t.executor.payment_generator.payment_count ≡ some c = rw u at count in
          let same' : t.payments_completed ≡ sent = rw u at same in
          let more = unmet_less t c sent small unmet count' same' le in
          rw h (
            completed_one t,
            rw (lookup-insert s k (completed_one t) p.payments_tracker, h) refl,
            count',
            more.0,
            more.1,
          )
      | inr h ↦ rw h (
        t',
        rw (lookup-insert s k (completed_one t) p.payments_tracker, h) found',
        count,
        same,
        le,
      )
    ]
