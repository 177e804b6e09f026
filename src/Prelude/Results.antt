-- ===== src/Prelude/Results.antt =====
-- `Result` of the source, and methods on `&mut self` as functions of the state: what a failed call
-- has already written stays written.
use mathlib.Core.Option.{Option, none, some}
use mathlib.Core.Path.{◌≡◌, refl, ap}
use native.Mathlib.Omega.{arith}
use mathlib.Core.Logic.{◌⊎◌, inl, inr}

pub data Result {ℓ κ} (A : Type ℓ) (E : Type κ) : Type (ℓ ⊔ κ) where
  ok : A → Result A E
  err : E → Result A E

abbrev value_or {ℓ κ} : {A : Type ℓ} {E : Type κ} → A → Result A E → A
value_or d (ok a) = a
value_or d (err e) = d

pub ok_injective {ℓ κ} :
    {A : Type ℓ} {E : Type κ} {a b : A} → ◌≡◌ {A = Result A E} (ok a) (ok b) → a ≡ b
ok_injective {a = a} e = ap (value_or a) e

-- `Result::and_then`, and the `?` operator where no state is kept.
abbrev pub and_then {ℓ κ υ} :
    {A : Type ℓ} {B : Type κ} {E : Type υ} → Result A E → (A → Result B E) → Result B E
and_then (ok a) f = f a
and_then (err e) f = err e

-- `Option::ok_or`.
abbrev pub ok_or {ℓ κ} : {A : Type ℓ} {E : Type κ} → Option A → E → Result A E
ok_or none e = err e
ok_or (some a) e = ok a

pub Result-cases {ℓ κ} :
    {A : Type ℓ} {E : Type κ} (r : Result A E) → ((a : A) × (r ≡ ok a)) ⊎ ((e : E) × (r ≡ err e))
Result-cases (ok a) = inl (a, refl)
Result-cases (err e) = inr (e, refl)

-- A method that reads and writes `S` and may return early with an `E`.
abbrev pub Method : Type 0 → Type 0 → Type 0 → Type 0
Method S E A = S → Result A E × S

module _ {S E A : Type 0} where
  abbrev pub pure : A → Method S E A
  pure a s = (ok a, s)

  abbrev pub fail : E → Method S E A
  fail e s = (err e, s)

  -- The `?` operator on a result that was computed from the state.
  abbrev pub try : (S → Result A E) → Method S E A
  try f s = (f s, s)

infixl 5 ◌>>=◌ ◌>>◌
abbrev pub ◌>>=◌ : {S E A B : Type 0} → Method S E A → (A → Method S E B) → Method S E B
◌>>=◌ m f s = let (r, s') = m s in elim r [ ok a ↦ f a s' | err e ↦ (err e, s') ]

abbrev pub ◌>>◌ : {S E A B : Type 0} → Method S E A → Method S E B → Method S E B
m >> k = m >>= λ _. k

abbrev pub modify : {S E : Type 0} → (S → S) → Method S E (Unit {0})
modify f s = (ok tt, f s)

-- A block keeps an invariant of the state if its first step and the rest do.
module _ {ℓ} {S E A B : Type 0} (P : S → Type ℓ) where
  after_step :
      (f : A → Method S E B) (p : Result A E × S)
      → P p.1
      → ((a : A) (t : S) → p ≡ (ok a, t) → P t → P (f a t).1)
      → P (((λ (s : S). p) >>= f) p.1).1
  after_step f (ok a, t) h keeps = keeps a t refl h
  after_step f (err e, t) h keeps = h

  pub >>=-keeps :
      (m : Method S E A) (f : A → Method S E B) (s : S)
      → P (m s).1
      → ((a : A) (t : S) → m s ≡ (ok a, t) → P t → P (f a t).1)
      → P ((m >>= f) s).1
  >>=-keeps m f s h keeps = after_step f (m s) h keeps

-- What is known once a chain of `?` has come through.
pub and_then-ok {ℓ κ υ} :
    {A : Type ℓ} {B : Type κ} {E : Type υ} (r : Result A E) (f : A → Result B E) (b : B)
    → and_then r f ≡ ok b
    → (a : A) × (r ≡ ok a) × (f a ≡ ok b)
and_then-ok (ok a) f b e = (a, refl, e)
and_then-ok (err e') f b e = absurd (ground arith)

pub ok_or-ok {ℓ κ} :
    {A : Type ℓ} {E : Type κ} (o : Option A) (e : E) (a : A) → ok_or o e ≡ ok a → o ≡ some a
ok_or-ok none e a h = absurd (ground arith)
ok_or-ok (some b) e a h = ap some (ok_injective h)
