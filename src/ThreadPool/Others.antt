-- ===== src/ThreadPool/Others.antt =====
-- The other queues of a worker, `other` in `worker`: all but its own, in order.
use spsock.Prelude.{
  ℕ, zero, suc, ◌<◌, ◌≡◌, ◌≢◌, refl, sym, ap, ◌∙◌, List, [], ◌∷◌, arith, length, get_or, set,
}
use spsock.ThreadPool.Workers.{other}

other-suc : (k i : ℕ) → other (suc k) (suc i) ≡ suc (other k i)
other-suc k i = ground arith

other_zero : (i : ℕ) → other 0 i ≡ suc i
other_zero i = ground arith

other_first : (k : ℕ) → other (suc k) 0 ≡ 0
other_first k = ground arith

pub other_ne : (k i : ℕ) → other k i ≢ k
other_ne k i e = absurd (ground (arith, e))

module _ {ℓ} {A : Type ℓ} where
  -- A list without the entry at `k`.
  abbrev pub without_at : ℕ → List A → List A
  without_at k [] = []
  without_at zero (x ∷ xs) = xs
  without_at (suc k) (x ∷ xs) = x ∷ without_at k xs

  pub length-without_at :
      (k : ℕ) (xs : List A) → k < length xs → suc (length (without_at k xs)) ≡ length xs
  length-without_at k [] lt = absurd (omega arith)
  length-without_at zero (x ∷ xs) lt = refl
  length-without_at (suc k) (x ∷ xs) lt = ap suc (length-without_at k xs (omega arith))

  pub get_or-without_at :
      (k : ℕ) (xs : List A) (i : ℕ) (d : A) → get_or (without_at k xs) i d ≡ get_or xs (other k i) d
  get_or-without_at k [] i d = refl
  get_or-without_at zero (x ∷ xs) i d = sym (ap (λ j. get_or (x ∷ xs) j d) (other_zero i))
  get_or-without_at (suc k) (x ∷ xs) zero d = sym (ap (λ j. get_or (x ∷ xs) j d) (other_first k))
  get_or-without_at (suc k) (x ∷ xs) (suc i) d =
      get_or-without_at k xs i d ∙ sym (ap (λ j. get_or (x ∷ xs) j d) (other-suc k i))

  pub without_at-set :
      (k : ℕ) (xs : List A) (i : ℕ) (v : A)
      → without_at k (set xs (other k i) v) ≡ set (without_at k xs) i v
  without_at-set k [] i v = refl
  without_at-set zero (x ∷ xs) i v = ap (λ j. without_at zero (set (x ∷ xs) j v)) (other_zero i)
  without_at-set (suc k) (x ∷ xs) zero v =
      ap (λ j. without_at (suc k) (set (x ∷ xs) j v)) (other_first k)
  without_at-set (suc k) (x ∷ xs) (suc i) v =
      ap (λ j. without_at (suc k) (set (x ∷ xs) j v)) (other-suc k i)
      ∙ ap (◌∷◌ x) (without_at-set k xs i v)
