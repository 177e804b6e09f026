-- ===== src/Network/Validity.antt =====
-- Every critical section of a payment keeps all channels of the network valid and within their
-- limits.
use sim_ln.Prelude.{
  ℕ, ◌≡◌, refl, Bool, Option, some, [], ◌∷◌, Result, ok, err, Method, arith, inl, inr, ◌==◌,
  >>=-keeps, All, subst, lookup, insert, Option-cases, Bool-cases,
}
use sim_ln.Channel.Types.{ForwardingError, CriticalError, Htlc, SimulatedChannel}
use sim_ln.Channel.{add_htlc, remove_htlc}
use sim_ln.Channel.Conservation.{IsValid, add_htlc-IsValid}
use sim_ln.Channel.Resolution.{remove_htlc-IsValid}
use sim_ln.Channel.Policy.{IsWithin, add_htlc-IsWithin, remove_htlc-IsWithin}
use sim_ln.Network.Types.{RouteHop, Channels}
use sim_ln.Network.Htlcs.{on_channel, add_hop, after_add}

-- A channel that is valid and within its limits.
pub record IsSound (c : SimulatedChannel) : Type 0 where
  pub valid : IsValid c
  pub within : IsWithin c

abbrev pub AllSound : Channels → Type 0
AllSound = All (λ e. IsSound e.1)

pub lookup-IsSound :
    (k : ℕ) (m : Channels) (c : SimulatedChannel) → AllSound m → lookup k m ≡ some c → IsSound c
lookup-IsSound k [] c s e = ground arith
lookup-IsSound k ((j, d) ∷ m) c s e = elim (Bool-cases (k == j)) [
  | inl hit ↦ let same : d ≡ c = ground arith in subst IsSound same s.0
  | inr miss ↦ lookup-IsSound k m c s.1 (rw miss at e)
]

pub insert-AllSound :
    (k : ℕ) (c : SimulatedChannel) (m : Channels) → IsSound c → AllSound m → AllSound (insert k c m)
insert-AllSound k c [] h s = (h, tt)
insert-AllSound k c ((j, d) ∷ m) h s = elim (Bool-cases (k == j)) [
  | inl hit ↦ rw hit (h, s.1)
  | inr miss ↦ rw miss (s.0, insert-AllSound k c m h s.1)
]

-- A method that keeps a channel sound keeps the map of channels sound.
pub on_channel-AllSound :
    {A : Type 0} (scid : ℕ) (method : Method SimulatedChannel CriticalError A) (m : Channels)
    → ((c : SimulatedChannel) → IsSound c → IsSound (method c).1)
    → AllSound m
    → AllSound (on_channel scid method m).1
unfolding on_channel
on_channel-AllSound scid method m keeps s = elim (Option-cases (lookup scid m)) [
  | inl e ↦ rw (e, on_channel) s
  | inr (c, e) ↦
      rw (e, on_channel)
        (insert-AllSound scid (method c).1 m (keeps c (lookup-IsSound scid m c s e)) s)
]

pub add_htlc-IsSound :
    (node hash : ℕ) (htlc : Htlc) (c : SimulatedChannel)
    → IsSound c
    → IsSound (add_htlc node hash htlc c).1
add_htlc-IsSound node hash htlc c s = record {
  valid = add_htlc-IsValid node hash htlc c s.valid;
  within = add_htlc-IsWithin node hash htlc c s.valid s.within;
}

pub remove_htlc-IsSound :
    (node hash : ℕ) (success : Bool) (c : SimulatedChannel)
    → IsSound c
    → IsSound (remove_htlc node hash success c).1
remove_htlc-IsSound node hash success c s = record {
  valid = remove_htlc-IsValid node hash success c s.valid;
  within = remove_htlc-IsWithin node hash success c s.valid s.within;
}

after_add-same :
    (hop : RouteHop) (next : Option ℕ) (amount : ℕ) (r : Result ℕ ForwardingError) (m : Channels)
    → (after_add hop next amount r m).1 ≡ m
unfolding after_add
after_add-same hop next amount (err e) m = refl
after_add-same hop next amount (ok i) m = ground arith

-- The critical section of `add_htlcs`.
pub add_hop-AllSound :
    (hash : ℕ) (hop : RouteHop) (next : Option ℕ) (node : ℕ) (htlc : Htlc) (m : Channels)
    → AllSound m
    → AllSound (add_hop hash hop next node htlc m).1
unfolding add_hop
add_hop-AllSound hash hop next node htlc m s =
    >>=-keeps AllSound (on_channel hop.short_channel_id (add_htlc node hash htlc))
      (after_add hop next htlc.amount_msat) m
      (on_channel-AllSound hop.short_channel_id (add_htlc node hash htlc) m
        (add_htlc-IsSound node hash htlc) s)
      (λ a t _ h. rw (after_add-same hop next htlc.amount_msat a t) h)
