-- ===== src/Bindings/Flags.antt =====
-- Feature flags as a vector of bytes, the lowest first: the writes of the functions that parse
-- node features in simln-lib/src/lnd.rs, eclair.rs and ldk_server.rs, and how bits are read back.
use Prim.Native.Nat.{bit_or}
use sim_ln.Prelude.{
  ℕ, zero, suc, ◌+◌, ◌*◌, ◌/◌, ◌%◌, ◌^◌, ◌≤◌, ◌<◌, ◌≡◌, refl, ap, Bool, true, false, ◌&&◌, ◌||◌,
  Option, none, some, List, [], ◌∷◌, arith, ◌==◌, leb, if◌then◌else◌, get_elem?, length, subst,
  ℕ_discrete,
}

-- `Vec::resize` with zeros.
abbrev pub resize : ℕ → List ℕ → List ℕ
resize zero flags = []
resize (suc n) [] = 0 ∷ resize n []
resize (suc n) (b ∷ flags) = b ∷ resize n flags

-- The vector with room for a byte.
abbrev pub grown : ℕ → List ℕ → List ℕ
grown byte_offset flags =
    if leb (length flags) byte_offset then resize (byte_offset + 1) flags else flags

-- `flags[i] |= mask`, which panics past the end.
abbrev pub or_at : List ℕ → ℕ → ℕ → Option (List ℕ)
or_at [] i mask = none
or_at (b ∷ flags) zero mask = some (bit_or b mask ∷ flags)
or_at (b ∷ flags) (suc i) mask = elim (or_at flags i mask) [ none ↦ none | some r ↦ some (b ∷ r) ]

abbrev pub bit : ℕ → ℕ → Bool
bit k byte = byte / 2 ^ k % 2 == 1

abbrev pub bit_of : Option ℕ → ℕ → Bool
bit_of none k = false
bit_of (some byte) k = bit k byte

-- Whether a feature is set, counted from the lowest bit of the first byte.
abbrev pub has_bit : ℕ → List ℕ → Bool
has_bit n flags = bit_of (get_elem? flags (n / 8)) (n % 8)

abbrev pub AreBytes : List ℕ → Type 0
AreBytes flags = (j b : ℕ) → get_elem? flags j ≡ some b → b < 256

-- Whether a test passes on every number under a bound, which is settled by running it.
abbrev passes_under : (ℕ → Bool) → ℕ → Bool
passes_under test zero = true
passes_under test (suc bound) = passes_under test bound && test bound

passes_under-at :
    (test : ℕ → Bool) (bound i : ℕ) → i < bound → passes_under test bound ≡ true → test i ≡ true
passes_under-at test zero i under h = absurd (omega arith)
passes_under-at test (suc bound) i under h = ground (arith, passes_under-at test bound i)

abbrev same_bool : Bool → Bool → Bool
same_bool true b = b
same_bool false true = false
same_bool false false = true

same_bool_sound : (a b : Bool) → same_bool a b ≡ true → a ≡ b
same_bool_sound true b h = ground arith
same_bool_sound false true h = ground arith
same_bool_sound false false h = refl

-- The bit `j` of a byte with the bit `k` set, and all bits of a byte with a bit set.
abbrev is_set : ℕ → ℕ → ℕ → Bool
is_set b k j = same_bool (bit j (bit_or b (2 ^ k))) (j == k || bit j b)

abbrev sets : ℕ → ℕ → Bool
sets b k = leb (bit_or b (2 ^ k)) 255 && passes_under (is_set b k) 8

or_table : passes_under (λ b. passes_under (sets b) 8) 256 ≡ true
or_table = refl

both : (x y : Bool) → (x && y) ≡ true → (x ≡ true) × (y ≡ true)
both true true h = (refl, refl)
both true false h = absurd (ground arith)
both false y h = absurd (ground arith)

leb_le : (a b : ℕ) → leb a b ≡ true → a ≤ b
leb_le a b h = ground arith

-- Or-ing a bit into a byte sets that bit and no other.
bit-bit_or :
    (b k j : ℕ)
    → b < 256
    → k < 8
    → j < 8
    → (bit_or b (2 ^ k) < 256) × (bit j (bit_or b (2 ^ k)) ≡ (j == k || bit j b))
bit-bit_or b k j lb lk lj =
    let at_b : passes_under (sets b) 8 ≡ true =
      passes_under-at (λ b. passes_under (sets b) 8) 256 b lb or_table in
    let at_k =
      both (leb (bit_or b (2 ^ k)) 255) (passes_under (is_set b k) 8)
        (passes_under-at (sets b) 8 k lk at_b) in
    (
      omega (arith, leb_le (bit_or b (2 ^ k)) 255 at_k.0),
      same_bool_sound _ _ (passes_under-at (is_set b k) 8 j lj at_k.1),
    )

-- A write within the vector, by what it leaves at each place.
record Written (flags : List ℕ) (i mask : ℕ) : Type 0 where
  byte : ℕ
  result : List ℕ
  was : get_elem? flags i ≡ some byte
  wrote : or_at flags i mask ≡ some result
  same_length : length result ≡ length flags
  at :
      (j : ℕ) → get_elem? result j ≡ (if j == i then some (bit_or byte mask) else get_elem? flags j)

or_at-Written : (flags : List ℕ) (i mask : ℕ) → i < length flags → Written flags i mask
or_at-Written [] i mask lt = absurd (omega arith)
or_at-Written (b ∷ flags) zero mask lt = record {
  byte = b;
  result = bit_or b mask ∷ flags;
  was = refl;
  wrote = refl;
  same_length = refl;
  at = at;
}
  where
    at :
        (j : ℕ)
        → get_elem? (bit_or b mask ∷ flags) j
          ≡ (if j == 0 then some (bit_or b mask) else get_elem? (b ∷ flags) j)
    at zero = refl
    at (suc j) = ground arith
or_at-Written (b ∷ flags) (suc i) mask lt =
    let w = or_at-Written flags i mask (omega arith) in
    record {
      byte = w.byte;
      result = b ∷ w.result;
      was = w.was;
      wrote = rw w.wrote refl;
      same_length = ap suc w.same_length;
      at = at w;
    }
  where
    at :
        (w : Written flags i mask) (j : ℕ)
        → get_elem? (b ∷ w.result) j
          ≡ (if j == suc i then some (bit_or w.byte mask) else get_elem? (b ∷ flags) j)
    at w zero = ground arith
    at w (suc j) = ground (arith, w.at j)

-- What a write leaves: every byte a byte, and one more bit set.
pub record Sets (i k : ℕ) (flags r : List ℕ) : Type 0 where
  pub bytes : AreBytes r
  pub same_length : length r ≡ length flags
  pub bits : (n : ℕ) → has_bit n r ≡ (n == 8 * i + k || has_bit n flags)

same_place : (n i k : ℕ) → n / 8 ≡ i → k < 8 → (n == 8 * i + k) ≡ (n % 8 == k)
same_place n i k e lk = ground arith

pub or_at-Sets :
    (flags : List ℕ) (i k : ℕ)
    → AreBytes flags
    → i < length flags
    → k < 8
    → (r : List ℕ) × (or_at flags i (2 ^ k) ≡ some r) × Sets i k flags r
or_at-Sets flags i k bytes lt lk = (
  w.result,
  w.wrote,
  record {
    bytes = λ j b e. elim (ℕ_discrete j i) [
      | yes same ↦
          let new : bit_or w.byte (2 ^ k) ≡ b = ground (arith, w.at j) in
          subst (λ b. b < 256) new (bit-bit_or w.byte k 0 small lk (omega arith)).0
      | no apart ↦ bytes j b (ground (arith, w.at j))
    ];
    same_length = w.same_length;
    bits = bits;
  },
)
  where
    w : Written flags i (2 ^ k)
    w = or_at-Written flags i (2 ^ k) lt

    small : w.byte < 256
    small = bytes i w.byte w.was

    bits : (n : ℕ) → has_bit n w.result ≡ (n == 8 * i + k || has_bit n flags)
    bits n = elim (ℕ_discrete (n / 8) i) [
      | yes same ↦
          let here : (n / 8 == i) ≡ true = ground arith in
          let place : (n == 8 * i + k) ≡ (n % 8 == k) = same_place n i k same lk in
          rw (w.at (n / 8), here, place, ap (λ x. get_elem? flags x) same, w.was)
            (bit-bit_or w.byte k (n % 8) small lk (omega arith)).1
      | no apart ↦
          let here : (n / 8 == i) ≡ false = ground arith in
          let place : (n == 8 * i + k) ≡ false = ground arith in rw (w.at (n / 8), here, place) refl
    ]
