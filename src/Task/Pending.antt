-- ===== src/Task/Pending.antt =====
-- The tasks that wait in a batch, a ring over its array.
use spsock.Prelude.{
  ℕ, zero, suc, ◌+◌, ◌%◌, ◌≤◌, ◌<◌, ◌≡◌, refl, sym, ap, ◌∙◌, List, ◌∷◌, map, arith, length, get_or,
  take, slice, tabulate, tabulate_ext, take-tabulate, slice-eq-tabulate,
}
use native.Mathlib.Nat.{mod-eq_of_lt}
use spsock.Task.{SockTask, Batch, no_task}

-- A batch as `append` and `commit` keep it.
pub record IsValid (cap : ℕ) (b : Batch) : Type 0 where
  pub sized : length b.tasks ≡ cap
  pub small : cap < 2147483648
  pub back_in : b.back < cap
  pub fits : b.size ≤ cap
  pub ends : b.front ≡ (b.back + b.size) % cap

abbrev pub task_at : ℕ → Batch → ℕ → SockTask
task_at cap b i = get_or b.tasks ((b.back + i) % cap) no_task

-- The tasks of a batch, oldest first.
abbrev pub pending : ℕ → Batch → List SockTask
pending cap b = tabulate b.size (task_at cap b)

abbrev pub ctx_of : SockTask → ℕ
ctx_of t = t.ctx

pub map-tabulate {ℓ κ} :
    {A : Type ℓ} {B : Type κ} (h : A → B) (n : ℕ) (f : ℕ → A)
    → map h (tabulate n f) ≡ tabulate n (λ i. h (f i))
map-tabulate h zero f = refl
map-tabulate h (suc n) f = ap (◌∷◌ (h (f zero))) (map-tabulate h n (λ i. f (suc i)))

-- A part of the array that does not pass its end is a part of the batch.
pub slice-pending :
    (cap : ℕ) (b : Batch) (n : ℕ)
    → IsValid cap b
    → n ≤ b.size
    → b.back + n ≤ cap
    → slice b.tasks b.back n ≡ take n (pending cap b)
slice-pending cap b n v le in_array =
    slice-eq-tabulate b.tasks b.back n no_task (omega (arith, v.sized))
    ∙ tabulate_ext n (λ i. get_or b.tasks (b.back + i) no_task) (task_at cap b)
        (λ i k. ap (λ j. get_or b.tasks j no_task) (sym (mod-eq_of_lt (omega arith))))
    ∙ sym (take-tabulate n b.size (task_at cap b) le)
