-- ===== src/Bindings/Features.antt =====
-- Which bits the functions that parse node features set (simln-lib/src/lnd.rs: parse_node_features,
-- ldk_server.rs: parse_node_features, eclair.rs: parse_json_to_node_features).
use sim_ln.Prelude.{
  ℕ, zero, suc, ◌+◌, ◌-◌, ◌*◌, ◌/◌, ◌%◌, ◌^◌, ◌≤◌, ◌<◌, ◌≡◌, ◌∙◌, refl, ap, subst, Bool, true,
  false, ◌||◌, ◌==◌, leb, List, [], ◌∷◌, Option, none, some, arith, String, get_elem?, length,
  Bool-cases, inl, inr, All,
}
use native.Mathlib.Nat.{zero-div}
use sim_ln.Bindings.Texts.{same_text}
use sim_ln.Bindings.Flags.{resize, grown, or_at, bit, bit_of, has_bit, AreBytes, or_at-Sets}
use sim_ln.Bindings.Lnd.{set_features, parse_node_features as parse_lnd}
use sim_ln.Bindings.LdkServer.{set_bits, parse_node_features as parse_ldk}
use sim_ln.Bindings.Eclair.{
  feature_mapping, find_feature, activated_bit, set_bit, set_activated, parse_json_to_node_features,
}

abbrev pub listed : ℕ → List ℕ → Bool
listed n [] = false
listed n (f ∷ features) = n == f || listed n features

bit-zero : (k : ℕ) → bit k 0 ≡ false
bit-zero k = rw (zero-div (2 ^ k)) refl

length-resize : (n : ℕ) (flags : List ℕ) → length (resize n flags) ≡ n
length-resize zero flags = refl
length-resize (suc n) [] = ap suc (length-resize n [])
length-resize (suc n) (b ∷ flags) = ap suc (length-resize n flags)

resize-AreBytes : (n : ℕ) (flags : List ℕ) → AreBytes flags → AreBytes (resize n flags)
resize-AreBytes zero flags bytes j b e = absurd (ground arith)
resize-AreBytes (suc n) [] bytes zero b e = ground arith
resize-AreBytes (suc n) [] bytes (suc j) b e = resize-AreBytes n [] bytes j b e
resize-AreBytes (suc n) (c ∷ flags) bytes zero b e = bytes zero b e
resize-AreBytes (suc n) (c ∷ flags) bytes (suc j) b e =
    resize-AreBytes n flags (λ i. bytes (suc i)) j b e

-- A longer vector has the same bits.
bit_of-resize :
    (n : ℕ) (flags : List ℕ) (j k : ℕ)
    → length flags ≤ n
    → bit_of (get_elem? (resize n flags) j) k ≡ bit_of (get_elem? flags j) k
bit_of-resize zero [] j k le = refl
bit_of-resize zero (b ∷ flags) j k le = absurd (omega arith)
bit_of-resize (suc n) [] zero k le = bit-zero k
bit_of-resize (suc n) [] (suc j) k le = bit_of-resize n [] j k (omega arith)
bit_of-resize (suc n) (b ∷ flags) zero k le = refl
bit_of-resize (suc n) (b ∷ flags) (suc j) k le = bit_of-resize n flags j k (omega arith)

record Grows (i : ℕ) (flags r : List ℕ) : Type 0 where
  bytes : AreBytes r
  room : i < length r
  bits : (n : ℕ) → has_bit n r ≡ has_bit n flags

grown-Grows : (i : ℕ) (flags : List ℕ) → AreBytes flags → Grows i flags (grown i flags)
grown-Grows i flags bytes = elim (Bool-cases (leb (length flags) i)) [
  | inl short ↦ rw short (record {
    bytes = resize-AreBytes (i + 1) flags bytes;
    room = omega (arith, length-resize (i + 1) flags);
    bits = λ n. bit_of-resize (i + 1) flags (n / 8) (n % 8) (ground arith);
  })
  | inr long ↦ rw long (record { bytes = bytes; room = ground arith; bits = λ n. refl })
]

-- The flags are bytes, and the bits are those listed beside those that were set before.
abbrev pub FlagsPromise : List ℕ → List ℕ → Option (List ℕ) → Type 0
FlagsPromise features flags none = ⊥
FlagsPromise features flags (some r) =
    AreBytes r × ((n : ℕ) → has_bit n r ≡ (listed n features || has_bit n flags))

-- A write to a byte that may have to be made.
abbrev WritePromise : ℕ → List ℕ → Option (List ℕ) → Type 0
WritePromise f flags w =
    (r : List ℕ) × (w ≡ some r) × AreBytes r × ((n : ℕ) → has_bit n r ≡ (n == f || has_bit n flags))

grown-WritePromise :
    (f k : ℕ) (flags : List ℕ)
    → AreBytes flags
    → k < 8
    → 8 * (f / 8) + k ≡ f
    → WritePromise f flags (or_at (grown (f / 8) flags) (f / 8) (2 ^ k))
grown-WritePromise f k flags bytes lt at =
    let g = grown-Grows (f / 8) flags bytes in
    let (r, e, sets) = or_at-Sets (grown (f / 8) flags) (f / 8) k g.bytes g.room lt in
    (
      r,
      e,
      sets.bytes,
      λ n.
          sets.bits n
          ∙ ap (λ b. n == 8 * (f / 8) + k || b) (g.bits n)
          ∙ ap (λ m. n == m || has_bit n flags) at,
    )

-- What the rest of a loop promises of the flags that a write leaves.
written-FlagsPromise :
    (f : ℕ) (features flags r : List ℕ) (o : Option (List ℕ))
    → ((n : ℕ) → has_bit n r ≡ (n == f || has_bit n flags))
    → FlagsPromise features r o
    → FlagsPromise (f ∷ features) flags o
written-FlagsPromise f features flags r none e h = h
written-FlagsPromise f features flags r (some s) e h = (h.0, λ n. ground (arith, e n, h.1 n))

chained-FlagsPromise :
    (f : ℕ) (features flags : List ℕ) (w : Option (List ℕ)) (go_on : List ℕ → Option (List ℕ))
    → WritePromise f flags w
    → ((r : List ℕ) → AreBytes r → FlagsPromise features r (go_on r))
    → FlagsPromise (f ∷ features) flags (elim w [ none ↦ none | some r ↦ go_on r ])
chained-FlagsPromise f features flags none go_on (r, e, bytes, bits) rest = absurd (ground arith)
chained-FlagsPromise f features flags (some r') go_on (r, e, bytes, bits) rest =
    let same : r ≡ r' = ground arith in
    written-FlagsPromise f features flags r' (go_on r')
      (subst (λ r. (n : ℕ) → has_bit n r ≡ (n == f || has_bit n flags)) same bits)
      (rest r' (subst AreBytes same bytes))

set_features-FlagsPromise :
    (features flags : List ℕ)
    → AreBytes flags
    → FlagsPromise features flags (set_features features flags)
unfolding set_features
set_features-FlagsPromise [] flags bytes = (bytes, λ n. refl)
set_features-FlagsPromise (f ∷ features) flags bytes =
    chained-FlagsPromise f features flags _ (set_features features)
      (grown-WritePromise f (f - 8 * (f / 8)) flags bytes (omega arith) (omega arith))
      (set_features-FlagsPromise features)

set_bits-FlagsPromise :
    (bits flags : List ℕ) → AreBytes flags → FlagsPromise bits flags (set_bits bits flags)
unfolding set_bits
set_bits-FlagsPromise [] flags bytes = (bytes, λ n. refl)
set_bits-FlagsPromise (f ∷ bits) flags bytes =
    chained-FlagsPromise f bits flags _ (set_bits bits)
      (grown-WritePromise f (f % 8) flags bytes (omega arith) (omega arith))
      (set_bits-FlagsPromise bits)

-- The even bit of a feature if its level is the text "mandatory", or else the odd one behind it.
abbrev pub stands_at : Option String → ℕ → ℕ
stands_at none even = even + 1
stands_at (some level) even = elim (same_text level "mandatory") [ true ↦ even | false ↦ even + 1 ]

activated_bit-stands_at :
    (level : Option String) (even : ℕ) → activated_bit level even ≡ stands_at level even
activated_bit-stands_at none even = refl
activated_bit-stands_at (some level) even = ground arith

-- The bits that the features under "activated" stand for: those of unknown names are none.
abbrev pub activated_bits : List (String × Option String) → List ℕ
activated_bits [] = []
activated_bits ((feature, level) ∷ activated) = elim (find_feature feature feature_mapping) [
  | none ↦ activated_bits activated
  | some position ↦ stands_at level position ∷ activated_bits activated
]

feature_mapping_small : All (λ (e : String × ℕ). e.1 + 1 < 64) feature_mapping
feature_mapping_small = ground arith

find_feature_small :
    (feature : String) (mapping : List (String × ℕ)) (position : ℕ)
    → All (λ (e : String × ℕ). e.1 + 1 < 64) mapping
    → find_feature feature mapping ≡ some position
    → position + 1 < 64
find_feature_small feature [] position small e = absurd (ground arith)
find_feature_small feature ((name, p) ∷ mapping) position small e =
    ground (arith, find_feature_small feature mapping position small.1)

-- The eight bytes are enough for every feature of the table.
set_activated-FlagsPromise :
    (activated : List (String × Option String)) (flags : List ℕ)
    → AreBytes flags
    → length flags ≡ 8
    → FlagsPromise (activated_bits activated) flags (set_activated activated flags)
unfolding set_activated
set_activated-FlagsPromise [] flags bytes n = (bytes, λ n. refl)
set_activated-FlagsPromise ((feature, level) ∷ activated) flags bytes n =
    go (find_feature feature feature_mapping) refl (set_activated-FlagsPromise activated)
  where
    go :
        (o : Option ℕ)
        → find_feature feature feature_mapping ≡ o
        → ((r : List ℕ)
            → AreBytes r
            → length r ≡ 8
            → FlagsPromise (activated_bits activated) r (set_activated activated r))
        → FlagsPromise
            (elim o [
              | none ↦ activated_bits activated
              | some position ↦ stands_at level position ∷ activated_bits activated
            ])
            flags
            (elim (set_bit o level flags) [ none ↦ none | some r ↦ set_activated activated r ])
    go none e rest = rest flags bytes n
    go (some position) e rest =
        let small = find_feature_small feature feature_mapping position feature_mapping_small e in
        let b = activated_bit level position in
        let within : b < 64 = ground arith in
        let same : b ≡ stands_at level position = activated_bit-stands_at level position in
        let (r, w, sets) = or_at-Sets flags (b / 8) (b % 8) bytes (omega arith) (omega arith) in
        rw w (
          subst (λ c. FlagsPromise (c ∷ activated_bits activated) flags (set_activated activated r))
            same
            (written-FlagsPromise b (activated_bits activated) flags r (set_activated activated r)
              (λ n. sets.bits n ∙ ap (λ m. n == m || has_bit n flags) (omega arith))
              (rest r sets.bytes (sets.same_length ∙ n))))

zeros-AreBytes : (n : ℕ) → AreBytes (resize n [])
zeros-AreBytes n = resize-AreBytes n [] (λ j b e. absurd (ground arith))

has_bit-zeros : (k n : ℕ) → has_bit n (resize k []) ≡ false
has_bit-zeros k n = bit_of-resize k [] (n / 8) (n % 8) (omega arith)

-- The parsing ends without a panic, and the bits of the flags are those listed.
abbrev pub IsExactly : List ℕ → Option (List ℕ) → Type 0
IsExactly features none = ⊥
IsExactly features (some flags) = (n : ℕ) → has_bit n flags ≡ listed n features

exactly :
    (features flags : List ℕ) (o : Option (List ℕ))
    → ((n : ℕ) → has_bit n flags ≡ false)
    → FlagsPromise features flags o
    → IsExactly features o
exactly features flags none clear h = h
exactly features flags (some r) clear h = λ n. ground (arith, h.1 n, clear n)

abbrev pub bits_under : Option (List (String × Option String)) → List ℕ
bits_under none = []
bits_under (some activated) = activated_bits activated

eclair-IsExactly :
    (features : Option (List (String × Option String)))
    → IsExactly (bits_under features) (parse_json_to_node_features features)
unfolding parse_json_to_node_features
eclair-IsExactly none = has_bit-zeros 8
eclair-IsExactly (some activated) =
    exactly (activated_bits activated) (resize 8 []) _ (has_bit-zeros 8)
      (set_activated-FlagsPromise activated (resize 8 []) (zeros-AreBytes 8) refl)

pub parse_node_features-IsExactly :
    (features : List ℕ) (activated : Option (List (String × Option String)))
    → IsExactly features (parse_lnd features)
      × IsExactly features (parse_ldk features)
      × IsExactly (bits_under activated) (parse_json_to_node_features activated)
unfolding parse_lnd parse_ldk
parse_node_features-IsExactly features activated = (
  exactly features (resize 256 []) _ (has_bit-zeros 256)
      (set_features-FlagsPromise features (resize 256 []) (zeros-AreBytes 256)),
  exactly features [] _ (λ n. refl)
      (set_bits-FlagsPromise features [] (λ j b e. absurd (ground arith))),
  eclair-IsExactly activated,
)
