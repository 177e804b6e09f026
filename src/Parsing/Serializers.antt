-- ===== src/Parsing/Serializers.antt =====
-- How fields of the simulation file are read and written (simln-lib/src/serializers.rs), the
-- address that ldk_server.rs makes of one of them, and `ShortChannelID` of lib.rs.
use sim_ln.Prelude.{
  ℕ, ◌+◌, ◌*◌, ◌/◌, ◌%◌, ◌^◌, ◌≤◌, ◌<◌, ◌≡◌, refl, Bool, true, false, ◌||◌, ◌==◌, leb,
  if◌then◌else◌, List, [], ◌∷◌, ◌++◌, Option, none, some, Result, ok, err, arith, Bool-cases, subst,
  ok_injective, ltb, ltb→lt, ◌-◌, inl, inr, u64_mod,
}
use native.Mathlib.Nat.{mod-lt}
use sim_ln.Simulation.Types.{ValueOrRange, value, range, SimulationError}
use sim_ln.Simulation.Defined.{value_of}
use sim_ln.Parsing.Options.{NodeId, public_key, alias}

-- `serde_node_id`, for the text of a public key and its parser. Texts are numbers here.
unfoldable pub serialize_node_id : (ℕ → ℕ) → NodeId → ℕ
serialize_node_id to_string (public_key p) = to_string p
serialize_node_id to_string (alias s) = s

unfoldable pub deserialize_node_id : (ℕ → Option ℕ) → ℕ → NodeId
deserialize_node_id from_str s = elim (from_str s) [ none ↦ alias s | some pk ↦ public_key pk ]

-- `serde_value_or_range`. The error carries no more than that there is one.
unfoldable pub deserialize_range : ValueOrRange → Result ValueOrRange (Unit {0})
deserialize_range (value x) = ok (value x)
deserialize_range (range x y) = if leb y x then err tt else ok (range x y)

-- "https://" and "http://".
abbrev pub https : List ℕ
https = 104 ∷ 116 ∷ 116 ∷ 112 ∷ 115 ∷ 58 ∷ 47 ∷ 47 ∷ []

abbrev pub http : List ℕ
http = 104 ∷ 116 ∷ 116 ∷ 112 ∷ 58 ∷ 47 ∷ 47 ∷ []

-- `str::strip_prefix`.
abbrev pub strip_prefix : List ℕ → List ℕ → Option (List ℕ)
strip_prefix [] s = some s
strip_prefix (p ∷ prefix) [] = none
strip_prefix (p ∷ prefix) (c ∷ s) = if p == c then strip_prefix prefix s else none

abbrev pub starts_with : List ℕ → List ℕ → Bool
starts_with prefix s = elim (strip_prefix prefix s) [ none ↦ false | some _ ↦ true ]

-- `serde_address`: an address without a scheme is taken for one over HTTPS.
unfoldable pub deserialize_address : List ℕ → List ℕ
deserialize_address s = if starts_with https s || starts_with http s then s else https ++ s

abbrev keep_or_drop : ℕ → ℕ → List ℕ → List ℕ
keep_or_drop c d [] = if c == d then [] else d ∷ []
keep_or_drop c d (e ∷ s) = d ∷ e ∷ s

-- `str::trim_end_matches` with a character.
abbrev pub trim_end_matches : ℕ → List ℕ → List ℕ
trim_end_matches c [] = []
trim_end_matches c (d ∷ s) = keep_or_drop c d (trim_end_matches c s)

abbrev or_else : {A : Type 0} → Option A → Option A → Option A
or_else none o = o
or_else (some a) o = some a

abbrev unwrap_or : {A : Type 0} → A → Option A → A
unwrap_or d none = d
unwrap_or d (some a) = a

-- The base URL of `LdkServerNode::new`: no scheme, and no slash at the end.
unfoldable pub base_url : List ℕ → List ℕ
base_url address =
    trim_end_matches 47
      (unwrap_or address (or_else (strip_prefix https address) (strip_prefix http address)))

-- The parts that the display of a `ShortChannelID` shows: block, transaction and output.
unfoldable pub display_scid : ℕ → ℕ × ℕ × ℕ
display_scid scid = (scid / 2 ^ 40 % 2 ^ 32, scid / 2 ^ 16 % 2 ^ 24, scid % 2 ^ 16)

-- An id that was read is written and read back unchanged, whatever text it was read from.
pub deserialize_node_id-serialize_node_id :
    (to_string : ℕ → ℕ) (from_str : ℕ → Option ℕ)
    → ((pk : ℕ) → from_str (to_string pk) ≡ some pk)
    → (s : ℕ)
    → let id = deserialize_node_id from_str s in
      deserialize_node_id from_str (serialize_node_id to_string id) ≡ id
unfolding deserialize_node_id serialize_node_id
deserialize_node_id-serialize_node_id to_string from_str law s = go (from_str s) refl
  where
    go :
        (o : Option ℕ)
        → from_str s ≡ o
        → let id : NodeId = elim o [ none ↦ alias s | some pk ↦ public_key pk ] in
          deserialize_node_id from_str (serialize_node_id to_string id) ≡ id
    go none e = ground arith
    go (some pk) e = ground (arith, law pk)

-- What is drawn from a value or a range.
abbrev pub IsDrawn : ValueOrRange → Result ℕ SimulationError → Type 0
IsDrawn (value x) (ok n) = n ≡ x
IsDrawn (range x y) (ok n) = (x ≤ n) × (n < y)
IsDrawn _ (err e) = ⊥

-- Drawing from a range that was read never panics, and gives a number from its lower to below its
-- upper end; a single value gives itself.
pub value_of-deserialize_range :
    (v r : ValueOrRange) (draw : ℕ) → deserialize_range v ≡ ok r → IsDrawn v (value_of r draw)
unfolding deserialize_range value_of
value_of-deserialize_range (value x) r draw h =
    subst (λ r. IsDrawn (value x) (value_of r draw)) (ok_injective h) refl
value_of-deserialize_range (range x y) r draw h = elim (Bool-cases (leb y x)) [
  | inl empty ↦ absurd (ground arith)
  | inr proper ↦
      let same : range x y ≡ r = ground arith in
      let lt : ltb x y ≡ true = ground arith in
      subst (λ r. IsDrawn (range x y) (value_of r draw)) same
        (rw (value_of, lt, IsDrawn)
          (omega arith, omega (arith, mod-lt draw {m = y - x} (omega (arith, ltb→lt x y lt)))))
]

-- A short channel id below 2 ^ 64 is put together again from its parts.
pub display_scid_parts :
    (scid : ℕ)
    → scid < u64_mod
    → let (block, tx, output) = display_scid scid in
      (block * 2 ^ 40 + tx * 2 ^ 16 + output ≡ scid)
      × (block < 2 ^ 24)
      × (tx < 2 ^ 24)
      × (output < 2 ^ 16)
unfolding display_scid
display_scid_parts scid small = (omega arith, omega arith, omega arith, omega arith)

strip-append : (prefix s : List ℕ) → strip_prefix prefix (prefix ++ s) ≡ some s
strip-append [] s = refl
strip-append (p ∷ prefix) s = ground (arith, strip-append prefix s)

-- An address that was read is read again unchanged, and the base URL is the same with the scheme
-- and without it.
pub base_url-deserialize_address :
    (s : List ℕ)
    → (deserialize_address (deserialize_address s) ≡ deserialize_address s)
      × (base_url (deserialize_address s) ≡ base_url s)
unfolding deserialize_address base_url
base_url-deserialize_address s = ground (arith, strip-append https s)
