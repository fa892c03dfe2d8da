-- ===== src/ThreadPool/Tally.antt =====
-- A pool in good order, and how many tasks of a kind stand in its queues.
use spsock.Prelude.{
  ℕ, ◌+◌, ◌<◌, ◌≡◌, sym, ◌∙◌, Option, Bool, arith, length, set, length-set, get_or-set_self,
  get_or-set_ne, count_if, total, total-set,
}
use mathlib.Core.Path.{subst}
use native.Mathlib.Decide.{ℕ_discrete}
use spsock.BlockQueue
use spsock.BlockQueue.{Queue}
use spsock.BlockQueue.Ring
use spsock.BlockQueue.Ring.{held}
use spsock.ThreadPool.{ThreadPool, queue_at}

module _ {ℓ} {A : Type ℓ} where
  pub record IsValid (p : ThreadPool A) : Type ℓ where
    pub sized : length p.queues ≡ p.thread_num
    pub some_queue : 0 < p.thread_num
    pub small : p.thread_num < 2147483648
    pub each : (i : ℕ) → i < length p.queues → Ring.IsValid (queue_at p i)

  -- The elements of a queue that pass the test `c`, and those of all queues.
  abbrev pub queued : (Option A → Bool) → Queue A → ℕ
  queued c q = count_if c (held q)

  abbrev pub tally : (Option A → Bool) → ThreadPool A → ℕ
  tally c p = total (queued c) p.queues

  -- A queue put in the place of another.
  abbrev pub replaced : ThreadPool A → ℕ → Queue A → ThreadPool A
  replaced p i q = record p { queues = set p.queues i q }

  pub replaced-IsValid :
      (p : ThreadPool A) (i : ℕ) (q : Queue A)
      → IsValid p
      → i < length p.queues
      → Ring.IsValid q
      → IsValid (replaced p i q)
  replaced-IsValid p i q v lt good = record {
    sized = length-set p.queues i q ∙ v.sized;
    some_queue = v.some_queue;
    small = v.small;
    each = λ j k. elim (ℕ_discrete i j) [
      | yes e ↦
          subst (λ j. Ring.IsValid (queue_at (replaced p i q) j)) e
            (subst Ring.IsValid (sym (get_or-set_self p.queues i q BlockQueue.new lt)) good)
      | no ne ↦
          subst Ring.IsValid (sym (get_or-set_ne p.queues i j q BlockQueue.new ne))
            (v.each j (omega (arith, length-set p.queues i q)))
    ];
  }

  pub tally-replaced :
      (c : Option A → Bool) (p : ThreadPool A) (i : ℕ) (q : Queue A)
      → i < length p.queues
      → tally c (replaced p i q) + queued c (queue_at p i) ≡ tally c p + queued c q
  tally-replaced c p i q lt = total-set (queued c) p.queues i q BlockQueue.new lt
