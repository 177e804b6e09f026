-- ===== src/Prelude/Maps.antt =====
-- `HashMap` as an association list with one entry for each key. Keys are numbers: the source only
-- compares public keys, payment hashes and channel ids.
use Prim.Native.Nat.{ℕ, ◌+◌, ◌≤◌}
use mathlib.Core.Path.{◌≡◌, refl}
use mathlib.Core.Logic.{◌≢◌}
use mathlib.Core.Bool.{Bool, true, false}
use mathlib.Core.List.{List, [], ◌∷◌, map}
use mathlib.Core.Option.{Option, none, some}
use native.Mathlib.Omega.{arith}
use native.Mathlib.Decide.{ℕ_discrete}
use sim_ln.Prelude.Tests.{◌==◌, if◌then◌else◌}
use sim_ln.Prelude.Lists.{length, sum, All}

abbrev pub HashMap {ℓ} : Type ℓ → Type ℓ
HashMap V = List (ℕ × V)

module _ {ℓ} {V : Type ℓ} where
  abbrev pub lookup : ℕ → HashMap V → Option V
  lookup k [] = none
  lookup k ((j, v) ∷ m) = if k == j then some v else lookup k m

  abbrev pub contains_key : ℕ → HashMap V → Bool
  contains_key k m = elim (lookup k m) [ none ↦ false | some _ ↦ true ]

  abbrev pub insert : ℕ → V → HashMap V → HashMap V
  insert k v [] = (k, v) ∷ []
  insert k v ((j, w) ∷ m) = if k == j then (k, v) ∷ m else (j, w) ∷ insert k v m

  abbrev pub erase : ℕ → HashMap V → HashMap V
  erase k [] = []
  erase k ((j, w) ∷ m) = if k == j then m else (j, w) ∷ erase k m

  abbrev pub values : HashMap V → List V
  values m = map (λ e. e.1) m

  -- No key is listed twice.
  abbrev pub IsMap : HashMap V → Type 0
  IsMap [] = Unit
  IsMap ((k, v) ∷ m) = (contains_key k m ≡ false) × IsMap m

  pub lookup-insert :
      (j k : ℕ) (v : V) (m : HashMap V)
      → lookup j (insert k v m) ≡ (if j == k then some v else lookup j m)
  lookup-insert j k v [] = refl
  lookup-insert j k v ((i, w) ∷ m) = ground (arith, lookup-insert j k v m)

  pub lookup-erase_ne : (j k : ℕ) (m : HashMap V) → j ≢ k → lookup j (erase k m) ≡ lookup j m
  lookup-erase_ne j k [] h = refl
  lookup-erase_ne j k ((i, w) ∷ m) h = ground (arith, lookup-erase_ne j k m h)

  pub lookup-erase_self : (k : ℕ) (m : HashMap V) → IsMap m → lookup k (erase k m) ≡ none
  lookup-erase_self k [] h = refl
  lookup-erase_self k ((i, w) ∷ m) h = ground (arith, lookup-erase_self k m h.1)

  -- Taking out a key that was just added gives the map back.
  pub erase-insert :
      (k : ℕ) (v : V) (m : HashMap V) → lookup k m ≡ none → erase k (insert k v m) ≡ m
  erase-insert k v [] h = ground arith
  erase-insert k v ((i, w) ∷ m) h = ground (arith, erase-insert k v m)

  pub erase_missing : (k : ℕ) (m : HashMap V) → lookup k m ≡ none → erase k m ≡ m
  erase_missing k [] h = refl
  erase_missing k ((i, w) ∷ m) h = ground (arith, erase_missing k m)

  -- A write to a key that is there goes in place, so it can be written back.
  pub insert-insert : (k : ℕ) (v w : V) (m : HashMap V) → insert k w (insert k v m) ≡ insert k w m
  insert-insert k v w [] = ground arith
  insert-insert k v w ((i, u) ∷ m) = ground (arith, insert-insert k v w m)

  pub insert_same : (k : ℕ) (v : V) (m : HashMap V) → lookup k m ≡ some v → insert k v m ≡ m
  insert_same k v [] h = ground arith
  insert_same k v ((i, u) ∷ m) h = ground (arith, insert_same k v m)

  pub insert-IsMap : (k : ℕ) (v : V) (m : HashMap V) → IsMap m → IsMap (insert k v m)
  insert-IsMap k v [] h = (refl, tt)
  insert-IsMap k v ((i, w) ∷ m) h = ground (arith, insert-IsMap k v m h.1, lookup-insert i k v m)

  pub erase-IsMap : (k : ℕ) (m : HashMap V) → IsMap m → IsMap (erase k m)
  erase-IsMap k [] h = tt
  erase-IsMap k ((i, w) ∷ m) h = ground (arith, erase-IsMap k m h.1, lookup-erase_ne i k m)

  pub length-insert :
      (k : ℕ) (v : V) (m : HashMap V) → lookup k m ≡ none → length (insert k v m) ≡ length m + 1
  length-insert k v [] h = ground arith
  length-insert k v ((i, w) ∷ m) h = ground (arith, length-insert k v m)

  -- The sum of a measure over the values.
  abbrev pub sum_of : (V → ℕ) → HashMap V → ℕ
  sum_of f [] = 0
  sum_of f ((k, v) ∷ m) = f v + sum_of f m

  pub sum-map-values : (f : V → ℕ) (m : HashMap V) → sum (map f (values m)) ≡ sum_of f m
  sum-map-values f [] = refl
  sum-map-values f ((k, v) ∷ m) = omega (arith, sum-map-values f m)

  pub sum_of-insert :
      (f : V → ℕ) (k : ℕ) (v : V) (m : HashMap V)
      → lookup k m ≡ none
      → sum_of f (insert k v m) ≡ sum_of f m + f v
  sum_of-insert f k v [] h = ground arith
  sum_of-insert f k v ((i, w) ∷ m) h = ground (arith, sum_of-insert f k v m)

  pub sum_of-erase :
      (f : V → ℕ) (k : ℕ) (v : V) (m : HashMap V)
      → lookup k m ≡ some v
      → sum_of f (erase k m) + f v ≡ sum_of f m
  sum_of-erase f k v [] h = ground arith
  sum_of-erase f k v ((i, w) ∷ m) h = ground (arith, sum_of-erase f k v m)

  pub length-erase_le : (k : ℕ) (m : HashMap V) → length (erase k m) ≤ length m
  length-erase_le k [] = omega arith
  length-erase_le k ((i, w) ∷ m) = ground (arith, length-erase_le k m)

  pub sum_of-erase_le : (f : V → ℕ) (k : ℕ) (m : HashMap V) → sum_of f (erase k m) ≤ sum_of f m
  sum_of-erase_le f k [] = omega arith
  sum_of-erase_le f k ((i, w) ∷ m) = ground (arith, sum_of-erase_le f k m)

-- An insertion keeps a property of the entries, and so does an erasure.
pub insert-keeps :
    {V : Type 0} (P : ℕ → V → Type 0) (k : ℕ) (v : V) (m : HashMap V)
    → P k v
    → ((j : ℕ) (w : V) → lookup j m ≡ some w → P j w)
    → (j : ℕ) (w : V) → lookup j (insert k v m) ≡ some w
    → P j w
insert-keeps P k v m new old j w h = go (j == k) refl (rw (lookup-insert j k v m) at h)
  where
    go : (b : Bool) → (j == k) ≡ b → (if b then some v else lookup j m) ≡ some w → P j w
    go true e h = ground (arith, new)
    go false e h = old j w h

pub erase-keeps :
    {V : Type 0} (P : ℕ → V → Type 0) (k : ℕ) (m : HashMap V)
    → IsMap m
    → ((j : ℕ) (w : V) → lookup j m ≡ some w → P j w)
    → (j : ℕ) (w : V) → lookup j (erase k m) ≡ some w
    → P j w
erase-keeps P k m h old j w e = elim (ℕ_discrete j k) [
  | yes same ↦
      let gone : lookup j (erase k m) ≡ none = rw same (lookup-erase_self k m h) in
      absurd (ground (arith, gone, e))
  | no apart ↦ old j w (rw (lookup-erase_ne j k m apart) at e)
]

-- What holds of everything that is found holds of all values.
pub values-All :
    {V : Type 0} (P : V → Type 0) (m : HashMap V)
    → IsMap m
    → ((k : ℕ) (v : V) → lookup k m ≡ some v → P v)
    → All P (values m)
values-All P [] h all = tt
values-All P ((k, v) ∷ m) h all =
    (all k v (ground arith), values-All P m h.1 (λ j w e. all j w (ground arith)))
