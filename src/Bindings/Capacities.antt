-- ===== src/Bindings/Capacities.antt =====
-- The capacities that nodes report (`channel_capacities` in simln-lib/src/lnd.rs, cln.rs, eclair.rs
-- and ldk_server.rs) against plain sums.
use sim_ln.Prelude.{
  ℕ, ◌+◌, ◌*◌, ◌%◌, ◌≡◌, ◌∙◌, refl, ap, true, false, List, [], ◌∷◌, ◌++◌, map, Option, some, ok,
  arith, sum, sum_u64, sum_u64-sum, mul_u64, add_u64, u64_mod,
}
use sim_ln.Bindings.Lnd.{channel_capacities as lnd_capacities}
use sim_ln.Bindings.Cln.{msat_of, channel_capacities as cln_capacities}
use sim_ln.Bindings.Eclair.{channel_capacities as eclair_capacities}
use sim_ln.Bindings.LdkServer.{channel_capacities as ldk_capacities}

abbrev both_ways : ℕ × ℕ → ℕ
both_ways (outbound, inbound) = outbound + inbound

sum-satoshis : (xs : List ℕ) → sum (map (mul_u64 1000) xs) % u64_mod ≡ (1000 * sum xs) % u64_mod
sum-satoshis [] = refl
sum-satoshis (x ∷ xs) = omega (arith, sum-satoshis xs)

sum-locals :
    (xs : List ℕ)
    → sum (map (λ to_local. mul_u64 to_local 1000) xs) % u64_mod ≡ (1000 * sum xs) % u64_mod
sum-locals [] = refl
sum-locals (x ∷ xs) = omega (arith, sum-locals xs)

sum-channels :
    (xss : List (List ℕ))
    → sum (map (λ active. sum_u64 (map (λ to_local. mul_u64 to_local 1000) active)) xss) % u64_mod
      ≡ (1000 * sum (map sum xss)) % u64_mod
sum-channels [] = refl
sum-channels (xs ∷ xss) = omega (
  arith,
  sum-channels xss,
  sum-locals xs,
  sum_u64-sum (map (λ to_local. mul_u64 to_local 1000) xs),
)

sum-both_ways :
    (xs : List (ℕ × ℕ))
    → sum (map (λ (c : ℕ × ℕ). add_u64 c.0 c.1) xs) % u64_mod ≡ sum (map both_ways xs) % u64_mod
sum-both_ways [] = refl
sum-both_ways ((a, b) ∷ xs) = omega (arith, sum-both_ways xs)

sum-append : (xs ys : List ℕ) → sum (xs ++ ys) ≡ sum xs + sum ys
sum-append [] ys = omega arith
sum-append (x ∷ xs) ys = omega (arith, sum-append xs ys)

-- Up to the wrap-around at 2 ^ 64, lnd reports the sum of its capacities in millisatoshi, cln the
-- sum over the channels from it and to it, ldk-server the sum of both directions, and eclair
-- a thousand times the sum of the local balances only.
pub channel_capacities-sum :
    (capacities : List ℕ) (sent received : List (Option ℕ)) (locals : List (List ℕ))
    (both : List (ℕ × ℕ))
    → (lnd_capacities (some capacities) ≡ ok ((1000 * sum capacities) % u64_mod))
      × (cln_capacities (λ is_source. some (elim is_source [ true ↦ sent | false ↦ received ]))
          ≡ ok ((sum (map msat_of sent) + sum (map msat_of received)) % u64_mod))
      × (ldk_capacities (some both) ≡ ok (sum (map both_ways both) % u64_mod))
      × (eclair_capacities (some locals) ≡ ok ((1000 * sum (map sum locals)) % u64_mod))
unfolding lnd_capacities cln_capacities ldk_capacities eclair_capacities
channel_capacities-sum capacities sent received locals both = (
  ap ok (sum_u64-sum (map (mul_u64 1000) capacities) ∙ sum-satoshis capacities),
  ap ok (
      sum_u64-sum (map msat_of sent ++ map msat_of received)
      ∙ ap (λ n. n % u64_mod) (sum-append (map msat_of sent) (map msat_of received))),
  ap ok (sum_u64-sum (map (λ (c : ℕ × ℕ). add_u64 c.0 c.1) both) ∙ sum-both_ways both),
  ap ok (sum_u64-sum _ ∙ sum-channels locals),
)
