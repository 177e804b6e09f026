-- ===== src/Network/Merging.antt =====
-- How the records of interceptors are merged (simln-lib/src/sim_node.rs:
-- handle_intercepted_htlc).
use sim_ln.Prelude.{
  ℕ, ◌≡◌, refl, ap₂, Bool, true, false, Option, none, some, List, [], ◌∷◌, Result, ok, err, ◌==◌,
  if◌then◌else◌, lookup, insert, lookup-insert, ◌⊎◌, inl, inr, arith, Bool-cases,
}
use sim_ln.Channel.Types.{CriticalError, duplicate_custom_record}
use sim_ln.Network.Types.{CustomRecords}
use sim_ln.Network.Intercept.{bytes_eq, merge_records}

-- A record stands in a map.
abbrev pub Holds : ℕ → List ℕ → CustomRecords → Type 0
Holds k v [] = ⊥
Holds k v ((j, w) ∷ records) = ((k ≡ j) × (v ≡ w)) ⊎ Holds k v records

-- The records are those that were attached, and all of them.
abbrev pub Merged : (ℕ → List ℕ → Type 0) → CustomRecords → Type 0
Merged Source r =
    ((k : ℕ) (v : List ℕ) → lookup k r ≡ some v → Source k v)
    × ((k : ℕ) (v : List ℕ) → Source k v → lookup k r ≡ some v)

bytes_eq_sound : (xs ys : List ℕ) → bytes_eq xs ys ≡ true → xs ≡ ys
bytes_eq_sound [] [] h = refl
bytes_eq_sound [] (y ∷ ys) h = absurd (ground arith)
bytes_eq_sound (x ∷ xs) [] h = absurd (ground arith)
bytes_eq_sound (x ∷ xs) (y ∷ ys) h =
    ap₂ (λ b bs. b ∷ bs) (ground arith) (bytes_eq_sound xs ys (ground arith))

insert_source :
    (k j : ℕ) (v w : List ℕ) (attached : CustomRecords)
    → lookup k (insert j w attached) ≡ some v
    → (lookup k attached ≡ some v) ⊎ ((k ≡ j) × (v ≡ w))
insert_source k j v w attached h = go (k == j) refl (rw (lookup-insert k j w attached) at h)
  where
    go :
        (b : Bool)
        → (k == j) ≡ b
        → (if b then some w else lookup k attached) ≡ some v
        → (lookup k attached ≡ some v) ⊎ ((k ≡ j) × (v ≡ w))
    go true e h = inr (ground arith, ground arith)
    go false e h = inl h

insert_kept :
    (k j : ℕ) (v w : List ℕ) (attached : CustomRecords)
    → lookup j attached ≡ none
    → lookup k attached ≡ some v
    → lookup k (insert j w attached) ≡ some v
insert_kept k j v w attached fresh h = rw (lookup-insert k j w attached) (ground arith)

insert_found :
    (k j : ℕ) (v w : List ℕ) (attached : CustomRecords)
    → k ≡ j
    → v ≡ w
    → lookup k (insert j w attached) ≡ some v
insert_found k j v w attached e e' = rw (lookup-insert k j w attached) (ground arith)

abbrev pub OkMerged : CustomRecords → CustomRecords → Result CustomRecords CriticalError → Type 0
OkMerged records attached (ok r) =
    Merged (λ k v. (lookup k attached ≡ some v) ⊎ Holds k v records) r
OkMerged records attached (err e) = Unit

pub merge_records-OkMerged :
    (records attached : CustomRecords) → OkMerged records attached (merge_records records attached)
unfolding merge_records
merge_records-OkMerged [] attached =
    ((λ k v h. inl h), λ k v h. elim h [ inl e ↦ e | inr e ↦ absurd e ])
merge_records-OkMerged ((j, w) ∷ records) attached =
    go (lookup j attached) refl (merge_records records (insert j w attached))
      (merge_records-OkMerged records (insert j w attached)) (merge_records records attached)
      (merge_records-OkMerged records attached)
  where
    added :
        (r : Result CustomRecords CriticalError)
        → lookup j attached ≡ none
        → OkMerged records (insert j w attached) r
        → OkMerged ((j, w) ∷ records) attached r
    added (err e) fresh h = tt
    added (ok r) fresh h = (
      (λ k v found. elim (h.0 k v found) [
        | inl e ↦ (elim (insert_source k j v w attached e) [
          | inl old ↦ inl old
          | inr new ↦ inr (inl new)
        ])
        | inr e ↦ inr (inr e)
      ]),
      λ k v source. h.1 k v (elim source [
        | inl e ↦ inl (insert_kept k j v w attached fresh e)
        | inr (inl same) ↦ inl (insert_found k j v w attached same.0 same.1)
        | inr (inr e) ↦ inr e
      ]),
    )

    same_value :
        (x : List ℕ) (r : Result CustomRecords CriticalError)
        → lookup j attached ≡ some x
        → x ≡ w
        → OkMerged records attached r
        → OkMerged ((j, w) ∷ records) attached r
    same_value x (err e) found e' h = tt
    same_value x (ok r) found e' h = (
      (λ k v found. elim (h.0 k v found) [ inl e ↦ inl e | inr e ↦ inr (inr e) ]),
      λ k v source. h.1 k v (elim source [
        | inl e ↦ inl e
        | inr (inl same) ↦ inl (ground (arith, same.0, same.1))
        | inr (inr e) ↦ inr e
      ]),
    )

    go :
        (o : Option (List ℕ))
        → lookup j attached ≡ o
        → (r : Result CustomRecords CriticalError) → OkMerged records (insert j w attached) r
        → (r' : Result CustomRecords CriticalError) → OkMerged records attached r'
        → OkMerged ((j, w) ∷ records) attached (elim o [
          | none ↦ r
          | some existing ↦ if bytes_eq existing w then r' else err (duplicate_custom_record j)
        ])
    go none fresh r h r' h' = added r fresh h
    go (some x) found r h r' h' = elim (Bool-cases (bytes_eq x w)) [
      | inl e ↦ rw e (same_value x r' found (bytes_eq_sound x w e) h')
      | inr e ↦ rw e tt
    ]
