-- ===== src/Prelude/Counting.antt =====
-- Counting the elements that pass a test, and adding a measure up over a list.
use Prim.Native.Nat.{ℕ, zero, suc, ◌+◌, ◌≤◌, ◌<◌}
use mathlib.Core.Path.{◌≡◌, refl}
use mathlib.Core.Bool.{Bool, true}
use mathlib.Core.List.{List, [], ◌∷◌, ◌++◌}
use native.Mathlib.Omega.{arith}
use spsock.Prelude.Tests.{if◌then◌else◌}
use spsock.Prelude.Lists.{length, get_or, set}

module _ {ℓ} {A : Type ℓ} where
  abbrev pub count_if : (A → Bool) → List A → ℕ
  count_if c [] = 0
  count_if c (x ∷ xs) = (if c x then 1 else 0) + count_if c xs

  abbrev pub total : (A → ℕ) → List A → ℕ
  total f [] = 0
  total f (x ∷ xs) = f x + total f xs

  pub count_if-append :
      (c : A → Bool) (xs ys : List A) → count_if c (xs ++ ys) ≡ count_if c xs + count_if c ys
  count_if-append c [] ys = omega arith
  count_if-append c (x ∷ xs) ys = omega (arith, count_if-append c xs ys)

  -- What an entry that is written over was worth is exchanged for what the new one is.
  pub total-set :
      (f : A → ℕ) (xs : List A) (i : ℕ) (v d : A)
      → i < length xs
      → total f (set xs i v) + f (get_or xs i d) ≡ total f xs + f v
  total-set f [] i v d h = absurd (omega arith)
  total-set f (x ∷ xs) zero v d h = omega arith
  total-set f (x ∷ xs) (suc i) v d h = omega (arith, total-set f xs i v d (omega arith))

  pub count_all : (xs : List A) → count_if (λ x. true) xs ≡ length xs
  count_all [] = refl
  count_all (x ∷ xs) = omega (arith, count_all xs)

  pub count_if-le : (c : A → Bool) (xs : List A) → count_if c xs ≤ length xs
  count_if-le c [] = omega arith
  count_if-le c (x ∷ xs) = ground (arith, count_if-le c xs)

  pub total_zero :
      (f : A → ℕ) (xs : List A) (d : A)
      → ((i : ℕ) → i < length xs → f (get_or xs i d) ≡ 0)
      → total f xs ≡ 0
  total_zero f [] d h = refl
  total_zero f (x ∷ xs) d h =
      omega (arith, h 0 (omega arith), total_zero f xs d (λ i lt. h (suc i) (omega arith)))
