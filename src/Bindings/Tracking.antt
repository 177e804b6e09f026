-- ===== src/Bindings/Tracking.antt =====
-- The loops of `track_payment` in simln-lib/src/cln.rs, eclair.rs and ldk_server.rs against one
-- description of what they wait for.
use sim_ln.Prelude.{
  ℕ, ◌≡◌, refl, List, [], ◌∷◌, map, Option, none, some, ok, err, arith, length, u64_mod, ltb,
  if◌then◌else◌,
}
use sim_ln.Simulation.Types.{track_payment_error}
use sim_ln.Network.Types.{PaymentOutcome, success, unexpected_error}
use sim_ln.Bindings.Types.{Round, shutdown, answered, Verdict}
use sim_ln.Bindings.Cln.{
  Pay, PayStatus, pending, complete, failed, pays_verdict, track_payment as track_cln, option_or,
}
use sim_ln.Bindings.Eclair.{
  PaymentPart, PaymentStatus as PartStatus, parts_verdict, track_payment as track_eclair,
}
use sim_ln.Bindings.LdkServer.{PaymentStatus, details_verdict, track_payment as track_ldk}

-- What is seen in a round: nothing of the payment yet, its end with a number of HTLCs, or that it
-- cannot be tracked, because of the shutdown, a failed call or an answer that cannot be read.
pub data Seen : Type 0 where
  waiting untracked : Seen
  concluded : ℕ → PaymentOutcome → Seen

-- The first round that is not waiting decides.
abbrev pub first_seen : List Seen → Verdict
first_seen [] = none
first_seen (waiting ∷ rounds) = first_seen rounds
first_seen (untracked ∷ rounds) = some (err track_payment_error)
first_seen (concluded count outcome ∷ rounds) =
    some (ok (record { htlc_count = count; payment_outcome = outcome }))

abbrev pub seen_in : {A : Type 0} → (A → Seen) → Round A → Seen
seen_in see shutdown = untracked
seen_in see (answered a) = see a

abbrev counted : Pay → PaymentOutcome → Seen
counted pay outcome =
    if ltb (option_or 1 pay.number_of_parts) u64_mod
    then concluded (option_or 1 pay.number_of_parts) outcome
    else untracked

abbrev see_pay : Pay → Option PayStatus → Seen
see_pay pay none = untracked
see_pay pay (some pending) = waiting
see_pay pay (some complete) = counted pay success
see_pay pay (some failed) = counted pay unexpected_error

-- On cln the first payment that is listed counts, with its number of parts.
abbrev pub see_pays : Option (List Pay) → Seen
see_pays none = untracked
see_pays (some []) = waiting
see_pays (some (pay ∷ pays)) = see_pay pay pay.status

abbrev see_part : ℕ → PartStatus → Seen
see_part count PartStatus.pending = waiting
see_part count PartStatus.sent = concluded count success
see_part count PartStatus.failed = concluded count unexpected_error

-- On eclair the first part that is listed counts, with the number of all.
abbrev pub see_parts : Option (List PaymentPart) → Seen
see_parts none = untracked
see_parts (some []) = waiting
see_parts (some (part ∷ parts)) = see_part (length (part ∷ parts)) part.status

-- On ldk-server every payment counts as one HTLC.
abbrev pub see_details : Option (Option (Option PaymentStatus)) → Seen
see_details none = untracked
see_details (some none) = waiting
see_details (some (some none)) = untracked
see_details (some (some (some PaymentStatus.pending))) = waiting
see_details (some (some (some PaymentStatus.succeeded))) = concluded 1 success
see_details (some (some (some PaymentStatus.failed))) = concluded 1 unexpected_error

abbrev verdict_of : Seen → Verdict
verdict_of waiting = none
verdict_of untracked = some (err track_payment_error)
verdict_of (concluded count outcome) =
    some (ok (record { htlc_count = count; payment_outcome = outcome }))

see_pays_lem : (answer : Option (List Pay)) → pays_verdict answer ≡ verdict_of (see_pays answer)
unfolding pays_verdict
see_pays_lem none = refl
see_pays_lem (some []) = refl
see_pays_lem (some (pay ∷ pays)) = ground arith

see_parts_lem :
    (answer : Option (List PaymentPart)) → parts_verdict answer ≡ verdict_of (see_parts answer)
unfolding parts_verdict
see_parts_lem none = refl
see_parts_lem (some []) = refl
see_parts_lem (some (part ∷ parts)) = ground arith

see_details_lem :
    (answer : Option (Option (Option PaymentStatus)))
    → details_verdict answer ≡ verdict_of (see_details answer)
unfolding details_verdict
see_details_lem answer = ground arith

-- A loop over verdicts is a search for the first round that decides.
step_first_seen :
    (v : Verdict) (seen : Seen) (rest : Verdict) (rounds : List Seen)
    → v ≡ verdict_of seen
    → rest ≡ first_seen rounds
    → elim v [ none ↦ rest | some r ↦ some r ] ≡ first_seen (seen ∷ rounds)
step_first_seen v waiting rest rounds e ih = rw e ih
step_first_seen v untracked rest rounds e ih = rw e refl
step_first_seen v (concluded count outcome) rest rounds e ih = rw e refl

track_cln-first_seen :
    (rounds : List (Round (Option (List Pay))))
    → track_cln rounds ≡ first_seen (map (seen_in see_pays) rounds)
unfolding track_cln
track_cln-first_seen [] = refl
track_cln-first_seen (shutdown ∷ rounds) = refl
track_cln-first_seen (answered a ∷ rounds) =
    step_first_seen (pays_verdict a) (see_pays a) (track_cln rounds) (map (seen_in see_pays) rounds)
      (see_pays_lem a) (track_cln-first_seen rounds)

track_eclair-first_seen :
    (rounds : List (Round (Option (List PaymentPart))))
    → track_eclair rounds ≡ first_seen (map (seen_in see_parts) rounds)
unfolding track_eclair
track_eclair-first_seen [] = refl
track_eclair-first_seen (shutdown ∷ rounds) = refl
track_eclair-first_seen (answered a ∷ rounds) =
    step_first_seen (parts_verdict a) (see_parts a) (track_eclair rounds)
      (map (seen_in see_parts) rounds) (see_parts_lem a) (track_eclair-first_seen rounds)

track_ldk-first_seen :
    (rounds : List (Round (Option (Option (Option PaymentStatus)))))
    → track_ldk rounds ≡ first_seen (map (seen_in see_details) rounds)
unfolding track_ldk
track_ldk-first_seen [] = refl
track_ldk-first_seen (shutdown ∷ rounds) = refl
track_ldk-first_seen (answered a ∷ rounds) =
    step_first_seen (details_verdict a) (see_details a) (track_ldk rounds)
      (map (seen_in see_details) rounds) (see_details_lem a) (track_ldk-first_seen rounds)

-- On cln, eclair and ldk-server alike, tracking a payment ends in the first round that decides it,
-- whatever the rounds before and behind it are. A shutdown, a failed call and a status that cannot
-- be read end it with an error. A payment that is complete ends it with success and one that
-- failed with an unexpected error, each with its number of HTLCs. It goes on where the payment is
-- not known or pending.
pub track_payment-first_seen :
    (pays : List (Round (Option (List Pay)))) (parts : List (Round (Option (List PaymentPart))))
    (details : List (Round (Option (Option (Option PaymentStatus)))))
    → (track_cln pays ≡ first_seen (map (seen_in see_pays) pays))
      × (track_eclair parts ≡ first_seen (map (seen_in see_parts) parts))
      × (track_ldk details ≡ first_seen (map (seen_in see_details) details))
track_payment-first_seen pays parts details =
    (track_cln-first_seen pays, track_eclair-first_seen parts, track_ldk-first_seen details)
