-- ===== src/Prelude/Words.antt =====
-- Arithmetic on `u64` and `u32` as a release build performs it: overflow wraps around. The
-- `checked_` operations report it instead.
use Prim.Native.Nat.{ℕ, ◌+◌, ◌-◌, ◌*◌, ◌%◌, ◌^◌, ◌<◌}
use mathlib.Core.Path.{◌≡◌, ◌∙◌}
use mathlib.Core.List.{List, [], ◌∷◌, foldl}
use mathlib.Core.Option.{Option, none, some}
use native.Mathlib.Omega.{arith}
use sim_ln.Prelude.Tests.{ltb, if◌then◌else◌}
use sim_ln.Prelude.Lists.{sum}

abbrev pub u64_mod : ℕ
u64_mod = 2 ^ 64

abbrev pub u32_mod : ℕ
u32_mod = 2 ^ 32

abbrev pub add_u64 : ℕ → ℕ → ℕ
add_u64 a b = (a + b) % u64_mod

abbrev pub sub_u64 : ℕ → ℕ → ℕ
sub_u64 a b = (a + u64_mod - b) % u64_mod

abbrev pub mul_u64 : ℕ → ℕ → ℕ
mul_u64 a b = (a * b) % u64_mod

abbrev pub add_u32 : ℕ → ℕ → ℕ
add_u32 a b = (a + b) % u32_mod

abbrev pub sub_u32 : ℕ → ℕ → ℕ
sub_u32 a b = (a + u32_mod - b) % u32_mod

abbrev pub checked_add : ℕ → ℕ → Option ℕ
checked_add a b = if ltb (a + b) u64_mod then some (a + b) else none

abbrev pub checked_mul : ℕ → ℕ → Option ℕ
checked_mul a b = if ltb (a * b) u64_mod then some (a * b) else none

-- `Iterator::sum`.
unfoldable pub sum_u64 : List ℕ → ℕ
sum_u64 xs = foldl add_u64 0 xs

unfoldable pub sum_u32 : List ℕ → ℕ
sum_u32 xs = foldl add_u32 0 xs

foldl-add_u64 :
    (acc : ℕ) (xs : List ℕ) → acc < u64_mod → foldl add_u64 acc xs ≡ (acc + sum xs) % u64_mod
foldl-add_u64 acc [] h = omega arith
foldl-add_u64 acc (x ∷ xs) h = foldl-add_u64 (add_u64 acc x) xs (omega arith) ∙ omega arith

pub sum_u64-sum : (xs : List ℕ) → sum_u64 xs ≡ sum xs % u64_mod
unfolding sum_u64
sum_u64-sum xs = foldl-add_u64 0 xs (omega arith) ∙ omega arith
