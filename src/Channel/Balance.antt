-- ===== src/Channel/Balance.antt =====
-- The money of one side of a channel as plain numbers, and what each method of `ChannelState`
-- does to it.
use sim_ln.Prelude.{
  ℕ, ◌+◌, ◌%◌, ◌≤◌, ◌<◌, ◌≡◌, ◌∙◌, refl, ap, inl, inr, false, none, some, [], ◌∷◌, map, Result, ok,
  err, arith, u64_mod, sum_u64-sum, length, lookup, contains_key, insert, erase, values, HashMap,
  IsMap, sum_of, sum_of-insert, sum_of-erase, sum-map-values, insert-IsMap, erase-IsMap,
  lookup-insert, Bool-cases, Result-cases,
}
use sim_ln.Channel.Types.{ForwardingError, CriticalError, Htlc, ChannelPolicy, ChannelState}
use sim_ln.Channel.State.{in_flight_total, check_outgoing_addition, push_htlc, add_outgoing_htlc}

abbrev pub amount_of : Htlc × ℕ → ℕ
amount_of e = (e.0).amount_msat

-- The amount in flight as a plain number.
abbrev pub in_flight_sum : ChannelState → ℕ
in_flight_sum s = sum_of amount_of s.in_flight

-- All that the side's owner has in the channel.
abbrev pub funds : ChannelState → ℕ
funds s = s.local_balance_msat + in_flight_sum s

-- No HTLC of amount zero is in flight.
abbrev pub NonZero : HashMap (Htlc × ℕ) → Type 0
NonZero [] = Unit
NonZero ((k, v) ∷ m) = (0 < amount_of v) × NonZero m

pub length-le-sum : (m : HashMap (Htlc × ℕ)) → NonZero m → length m ≤ sum_of amount_of m
length-le-sum [] h = omega arith
length-le-sum ((k, v) ∷ m) h = omega (arith, length-le-sum m h.1)

insert-NonZero :
    (k : ℕ) (v : Htlc × ℕ) (m : HashMap (Htlc × ℕ))
    → 0 < amount_of v
    → NonZero m
    → NonZero (insert k v m)
insert-NonZero k v [] p h = (p, tt)
insert-NonZero k v ((j, w) ∷ m) p h = ground (arith, insert-NonZero k v m p h.1)

erase-NonZero : (k : ℕ) (m : HashMap (Htlc × ℕ)) → NonZero m → NonZero (erase k m)
erase-NonZero k [] h = tt
erase-NonZero k ((j, w) ∷ m) h = ground (arith, erase-NonZero k m h.1)

pub record IsValidState (s : ChannelState) : Type 0 where
  pub is_map : IsMap s.in_flight
  pub nonzero : NonZero s.in_flight

-- The wrapped sum of the source is the plain sum modulo 2 ^ 64.
pub in_flight_total-sum : (s : ChannelState) → in_flight_total s ≡ in_flight_sum s % u64_mod
unfolding in_flight_total
in_flight_total-sum s =
    sum_u64-sum (map amount_of (values s.in_flight))
    ∙ ap (λ n. n % u64_mod) (sum-map-values amount_of s.in_flight)

-- An added HTLC moves its amount from the local balance into flight.
pub record Pushed (hash : ℕ) (htlc : Htlc) (s t : ChannelState) : Type 0 where
  pub was_new : lookup hash s.in_flight ≡ none
  pub in_flight_now : lookup hash t.in_flight ≡ some (htlc, s.index)
  pub balance_falls : t.local_balance_msat + htlc.amount_msat ≡ s.local_balance_msat
  pub sum_grows : in_flight_sum t ≡ in_flight_sum s + htlc.amount_msat
  pub policy_kept : t.policy ≡ s.policy

pub push_htlc-Pushed :
    (hash : ℕ) (htlc : Htlc) (s : ChannelState)
    → contains_key hash s.in_flight ≡ false
    → htlc.amount_msat ≤ s.local_balance_msat
    → s.local_balance_msat < u64_mod
    → Pushed hash htlc s (push_htlc hash htlc s)
unfolding push_htlc
push_htlc-Pushed hash htlc s new cover small = record {
  was_new = absent;
  in_flight_now = ground (arith, lookup-insert hash hash (htlc, s.index) s.in_flight);
  balance_falls = omega arith;
  sum_grows = sum_of-insert amount_of hash (htlc, s.index) s.in_flight absent;
  policy_kept = refl;
}
  where
    absent : lookup hash s.in_flight ≡ none
    absent = ground arith

pub push_htlc-IsValidState :
    (hash : ℕ) (htlc : Htlc) (s : ChannelState)
    → 0 < htlc.amount_msat
    → IsValidState s
    → IsValidState (push_htlc hash htlc s)
unfolding push_htlc
push_htlc-IsValidState hash htlc s p v = record {
  is_map = insert-IsMap hash (htlc, s.index) s.in_flight v.is_map;
  nonzero = insert-NonZero hash (htlc, s.index) s.in_flight p v.nonzero;
}

-- The amount passed the check for the balance.
pub check-amount-le :
    (s : ChannelState) (htlc : Htlc) (cp : ChannelPolicy)
    → check_outgoing_addition s htlc cp ≡ ok tt
    → htlc.amount_msat ≤ s.local_balance_msat
unfolding check_outgoing_addition
check-amount-le s htlc cp h = ground arith

-- A side refuses an HTLC and stays as it is, or takes it.
abbrev pub AddOutcome :
    ℕ
    → Htlc
    → ChannelState
    → Result (Result ℕ ForwardingError) CriticalError × ChannelState
    → Type 0
AddOutcome hash htlc s (ok (ok i), t) =
    (i ≡ s.index) × Pushed hash htlc s t × (t ≡ push_htlc hash htlc s)
AddOutcome hash htlc s (ok (err e), t) = t ≡ s
AddOutcome hash htlc s (err e, t) = t ≡ s

pub add_outgoing_htlc-AddOutcome :
    (hash : ℕ) (htlc : Htlc) (cp : ChannelPolicy) (s : ChannelState)
    → s.local_balance_msat < u64_mod
    → AddOutcome hash htlc s (add_outgoing_htlc hash htlc cp s)
unfolding add_outgoing_htlc
add_outgoing_htlc-AddOutcome hash htlc cp s small =
    elim (Result-cases (check_outgoing_addition s htlc cp)) [
      | inr (e, refused) ↦ rw (refused, add_outgoing_htlc) refl
      | inl (u, passed) ↦ elim (Bool-cases (contains_key hash s.in_flight)) [
        | inl taken ↦ rw (passed, add_outgoing_htlc, taken) refl
        | inr free ↦
            rw (passed, add_outgoing_htlc, free)
              (
                refl,
                push_htlc-Pushed hash htlc s free (check-amount-le s htlc cp passed) small,
                refl,
              )
      ]
    ]

-- A removed HTLC takes its amount out of flight, and the settlement pays it to one side.
pub in_flight_sum-erase :
    (hash : ℕ) (s : ChannelState) (h : Htlc × ℕ)
    → lookup hash s.in_flight ≡ some h
    → sum_of amount_of (erase hash s.in_flight) + amount_of h ≡ in_flight_sum s
in_flight_sum-erase hash s h e = sum_of-erase amount_of hash h s.in_flight e

pub erase-IsValidState :
    (hash : ℕ) (s : ChannelState)
    → IsValidState s
    → IsValidState (record s { in_flight = erase hash s.in_flight })
erase-IsValidState hash s v = record {
  is_map = erase-IsMap hash s.in_flight v.is_map;
  nonzero = erase-NonZero hash s.in_flight v.nonzero;
}
