-- ===== src/Network/Passing.antt =====
-- What an HTLC that all interceptors let through carries (simln-lib/src/sim_node.rs:
-- handle_intercepted_htlc).
use sim_ln.Prelude.{
  ℕ, ◌≡◌, refl, none, some, List, [], ◌∷◌, map, Result, ok, err, lookup, ◌⊎◌, inl, inr, arith,
}
use sim_ln.Channel.Types.{ForwardingError, CriticalError}
use sim_ln.Network.Types.{CustomRecords, InterceptRequest, InterceptAnswer, Interceptor}
use sim_ln.Network.Intercept.{
  Event, joined, join_error, shutdown, Schedule, merge_records, get_resp, handle_intercepted_htlc,
}
use sim_ln.Network.Merging.{Holds, Merged, OkMerged, merge_records-OkMerged}

-- A record was attached by an interceptor that finished before the shutdown.
abbrev pub Attached : ℕ → List ℕ → List Event → Type 0
Attached k v [] = ⊥
Attached k v (shutdown ∷ events) = ⊥
Attached k v (joined (ok (ok records)) ∷ events) = Holds k v records ⊎ Attached k v events
Attached k v (joined _ ∷ events) = Attached k v events
Attached k v (join_error e ∷ events) = Attached k v events

-- No interceptor that finished before the shutdown failed, or died.
abbrev pub NoneFailed : List Event → Type 0
NoneFailed [] = Unit
NoneFailed (shutdown ∷ events) = Unit
NoneFailed (joined (ok (ok records)) ∷ events) = NoneFailed events
NoneFailed (joined (ok (err e)) ∷ events) = ⊥
NoneFailed (joined (err e) ∷ events) = ⊥
NoneFailed (join_error e ∷ events) = ⊥

-- What the loop promises for the records attached before it.
abbrev RespPromise : List Event → CustomRecords → InterceptAnswer → Type 0
RespPromise events attached (ok (ok r)) =
    NoneFailed events × Merged (λ k v. (lookup k attached ≡ some v) ⊎ Attached k v events) r
RespPromise events attached (ok (err e)) = Unit
RespPromise events attached (err e) = Unit

-- Once an interceptor has failed, the HTLC is not let through.
get_resp_failed :
    (events : List Event) (attached r : CustomRecords) (f : ForwardingError)
    → get_resp events attached (some f) ≡ ok (ok r)
    → ⊥
unfolding get_resp
get_resp_failed [] attached r f h = ground arith
get_resp_failed (shutdown ∷ events) attached r f h = ground arith
get_resp_failed (join_error e ∷ events) attached r f h = ground arith
get_resp_failed (joined (err e) ∷ events) attached r f h = ground arith
get_resp_failed (joined (ok (err e)) ∷ events) attached r f h =
    get_resp_failed events attached r e h
get_resp_failed (joined (ok (ok records)) ∷ events) attached r f h =
    go (merge_records records attached) (λ a. get_resp_failed events a r f) h
  where
    go :
        (m : Result CustomRecords CriticalError)
        → ((a : CustomRecords) → get_resp events a (some f) ≡ ok (ok r) → ⊥)
        → ◌≡◌ {A = InterceptAnswer}
            (elim m [ err e ↦ err e | ok attached' ↦ get_resp events attached' (some f) ])
            (ok (ok r))
        → ⊥
    go (err e) next h = ground arith
    go (ok a) next h = next a h

unattached :
    (attached : CustomRecords) (events : List Event)
    → ((k : ℕ) (v : List ℕ) → Attached k v events → ⊥)
    → Merged (λ k v. (lookup k attached ≡ some v) ⊎ Attached k v events) attached
unattached attached events none_left =
    ((λ k v h. inl h), λ k v h. elim h [ inl e ↦ e | inr a ↦ absurd (none_left k v a) ])

get_resp-RespPromise :
    (events : List Event) (attached : CustomRecords)
    → RespPromise events attached (get_resp events attached none)
unfolding get_resp
get_resp-RespPromise [] attached = (tt, unattached attached [] (λ k v h. h))
get_resp-RespPromise (shutdown ∷ events) attached =
    (tt, unattached attached (shutdown ∷ events) (λ k v h. h))
get_resp-RespPromise (join_error e ∷ events) attached = tt
get_resp-RespPromise (joined (err e) ∷ events) attached = tt
get_resp-RespPromise (joined (ok (err e)) ∷ events) attached =
    go (get_resp events attached (some e)) (λ r. get_resp_failed events attached r e)
  where
    go :
        (a : InterceptAnswer)
        → ((r : CustomRecords) → a ≡ ok (ok r) → ⊥)
        → RespPromise (joined (ok (err e)) ∷ events) attached a
    go (ok (ok r)) no_way = absurd (no_way r refl)
    go (ok (err f)) no_way = tt
    go (err f) no_way = tt
get_resp-RespPromise (joined (ok (ok records)) ∷ events) attached =
    go (merge_records records attached) (merge_records-OkMerged records attached)
      (λ a. get_resp-RespPromise events a)
  where
    joins :
        (a : CustomRecords) (answer : InterceptAnswer)
        → Merged (λ k v. (lookup k attached ≡ some v) ⊎ Holds k v records) a
        → RespPromise events a answer
        → RespPromise (joined (ok (ok records)) ∷ events) attached answer
    joins a (ok (ok r)) merged (none_failed, rest) = (
      none_failed,
      (
        (λ k v h. elim (rest.0 k v h) [
          | inl old ↦ (elim (merged.0 k v old) [ inl e ↦ inl e | inr e ↦ inr (inl e) ])
          | inr new ↦ inr (inr new)
        ]),
        λ k v h. rest.1 k v (elim h [
          | inl e ↦ inl (merged.1 k v (inl e))
          | inr (inl e) ↦ inl (merged.1 k v (inr e))
          | inr (inr e) ↦ inr e
        ]),
      ),
    )
    joins a (ok (err f)) merged rest = tt
    joins a (err f) merged rest = tt

    go :
        (m : Result CustomRecords CriticalError)
        → OkMerged records attached m
        → ((a : CustomRecords) → RespPromise events a (get_resp events a none))
        → RespPromise
            (joined (ok (ok records)) ∷ events)
            attached
            (elim m [ err e ↦ err e | ok attached' ↦ get_resp events attached' none ])
    go (err e) merged next = tt
    go (ok a) merged next = joins a (get_resp events a none) merged (next a)

-- What the answer for an HTLC promises if it is let through.
abbrev pub PassPromise : List Event → InterceptAnswer → Type 0
PassPromise events (ok (ok r)) = NoneFailed events × Merged (λ k v. Attached k v events) r
PassPromise events (ok (err e)) = Unit
PassPromise events (err e) = Unit

-- If at least one interceptor is registered and the HTLC is let through, in whatever order the
-- interceptors finish, then none that finished before a shutdown failed or died, and the records
-- that the HTLC carries on are exactly those that they attached: every record comes from one of
-- them, and every record that one of them attached is there, with its value.
pub handle_intercepted_htlc-PassPromise :
    (schedule : Schedule) (i : Interceptor) (is : List Interceptor) (request : InterceptRequest)
    → PassPromise
        (schedule request (map (λ (x : Interceptor). x.intercept_htlc request) (i ∷ is)))
        (handle_intercepted_htlc schedule (i ∷ is) request)
unfolding handle_intercepted_htlc
handle_intercepted_htlc-PassPromise schedule i is request =
    go (schedule request (map (λ (x : Interceptor). x.intercept_htlc request) (i ∷ is)))
  where
    from_none :
        (events : List Event) (answer : InterceptAnswer)
        → RespPromise events [] answer
        → PassPromise events answer
    from_none events (ok (ok r)) (none_failed, merged) = (
      none_failed,
      (
        (λ k v h. elim (merged.0 k v h) [ inl e ↦ absurd (ground (arith, e)) | inr a ↦ a ]),
        λ k v h. merged.1 k v (inr h),
      ),
    )
    from_none events (ok (err e)) h = tt
    from_none events (err e) h = tt

    go : (events : List Event) → PassPromise events (get_resp events [] none)
    go events = from_none events (get_resp events [] none) (get_resp-RespPromise events [])
