-- ===== src/ThreadPool.antt =====
-- base/ThreadPool.hpp: how tasks are spread over the queues of the workers, and stolen from them.
--
-- Each function here is what one thread does between its waits. The sizes that `append` reads
-- without the lock are those of the queues that it then pushes to: no other thread steps in between.
pub mod Tally
pub mod Submit
pub mod Workers
pub mod Removal
pub mod Conserve
pub mod Start
pub mod Ending
pub mod Shutdown
pub mod Finish
pub mod Drain
pub mod Executed
pub mod Lost
pub mod Joined
pub mod Others
pub mod Stealing
pub mod Search
use spsock.Prelude.{
  ℕ, zero, suc, ◌+◌, ◌*◌, ◌/◌, ◌%◌, List, [], ◌∷◌, Option, none, some, Bool, true, false, not, ◌||◌,
  u32, min, ltb, leb, ◌==◌, if◌then◌else◌, length, get_or, set,
}
use spsock.BlockQueue
use spsock.BlockQueue.{Queue}

pub record ThreadPool {ℓ} (A : Type ℓ) : Type ℓ where
  pub shutdown_policy : Bool
  pub thread_num : ℕ
  pub queue_length : ℕ
  pub queues : List (Queue A)
  pub workers : ℕ
  pub index : ℕ

module _ {ℓ} {A : Type ℓ} where
  unfoldable pub new : ThreadPool A
  new = record {
    shutdown_policy = true;
    thread_num = 0;
    queue_length = 0;
    queues = [];
    workers = 0;
    index = 0;
  }

  -- The loop that initialises the queues; `memory` says of each whether its allocation succeeds.
  unfoldable pub init_queues : List Bool → ℕ → Bool × List (Queue A)
  unfolding BlockQueue.init BlockQueue.new
  init_queues [] queue_length = (true, [])
  init_queues (m ∷ ms) queue_length =
      let (ok, q) = BlockQueue.init m queue_length BlockQueue.new in
      let (rest, qs) = init_queues ms queue_length in if ok then (rest, q ∷ qs) else (false, [])

  -- `init`; `memory` has an entry for each queue, `cores` is `hardware_concurrency()`.
  unfoldable pub init : List Bool → ℕ → ℕ → ℕ → ℕ → ThreadPool A → Bool × ThreadPool A
  init memory cores queue_length thread_num batch_size p =
      let (ok, qs) = init_queues memory queue_length in
      if batch_size == 0 || (thread_num == 0 || ltb queue_length batch_size)
      then (false, p)
      else (if not ok || cores == 0 then (false, record p { queues = [] }) else (
        true,
        record p {
          queues = qs;
          thread_num = thread_num;
          queue_length = queue_length;
          workers = thread_num;
        },
      ))

  unfoldable pub next_index : ThreadPool A → ℕ × ThreadPool A
  next_index p = (p.index % p.thread_num, record p { index = u32 (p.index + 1) })

  abbrev pub queue_at : ThreadPool A → ℕ → Queue A
  queue_at p i = get_or p.queues i BlockQueue.new

  -- The queue that a submission goes to: the next one, or, if that has no room, the one half way
  -- round from it.
  abbrev pub other_half : ThreadPool A → ℕ → ℕ
  other_half p i = u32 (i + p.thread_num / 2) % p.thread_num

  unfoldable pub push_at : ℕ → A → ThreadPool A → Bool × ThreadPool A
  push_at i a p =
      let ((ok, wake), q) = BlockQueue.push a (queue_at p i) in
      (ok, record p { queues = set p.queues i q })

  unfoldable pub append : A → ThreadPool A → Bool × ThreadPool A
  append a p =
      let (i, p') = next_index p in
      if ltb (queue_at p' i).size p'.queue_length
      then push_at i a p'
      else push_at (other_half p' i) a p'

  -- `emplace`, with the task that its arguments make.
  unfoldable pub emplace : A → ThreadPool A → Bool × ThreadPool A
  emplace a p =
      let (i, p') = next_index p in
      if ltb (queue_at p' i).size p'.queue_length
      then push_at i a p'
      else push_at (other_half p' i) a p'

  unfoldable pub push_bulk_at : ℕ → List A → ThreadPool A → ℕ × ThreadPool A
  push_bulk_at i xs p =
      let ((n, wake), q) = BlockQueue.push_bulk xs (queue_at p i) in
      (n, record p { queues = set p.queues i q })

  -- Callers keep `xs` within the length of a queue, as the assertion of the code asks: an abort is not
  -- modelled.
  unfoldable pub append_bulk : List A → ThreadPool A → ℕ × ThreadPool A
  append_bulk xs p =
      let (i, p') = next_index p in
      if leb (u32 ((queue_at p' i).size + length xs / 2)) p'.queue_length
      then push_bulk_at i xs p'
      else push_bulk_at (other_half p' i) xs p'

  -- `exit`, once the workers have been told to stop and joined: the queues go.
  unfoldable pub exit : Bool → ThreadPool A → ThreadPool A
  exit policy p = elim p.queues [
    | [] ↦ p
    | q ∷ qs ↦ record p {
      shutdown_policy = policy;
      workers = 0;
      thread_num = 0;
      queue_length = 0;
      queues = [];
    }
  ]

  -- `Stealer::steal` of `process_single`: `rounds` are left, `i` is the round; the result is the
  -- element, the queue that it came from, and the queues.
  unfoldable pub steal_from :
      ℕ → ℕ → ℕ → ℕ → List (Queue A) → Option (Option A × ℕ) × List (Queue A)
  steal_from zero i start threshold others = (none, others)
  steal_from (suc rounds) i start threshold others =
      let now = u32 (start + i) % length others in
      let victim = get_or others now BlockQueue.new in
      let ((ok, a), q) = BlockQueue.pop victim in
      let rest = steal_from rounds (i + 1) start threshold others in
      if leb threshold victim.size
      then (if ok then (some (a, now), set others now q) else rest)
      else rest

  unfoldable pub steal : ℕ → ℕ → List (Queue A) → Option (Option A × ℕ) × List (Queue A)
  steal start max_length others =
      steal_from (length others) 0 start (min (length others) max_length) others

  -- `Stealer::steal` of `process_bulk`.
  unfoldable pub steal_bulk_from :
      ℕ → ℕ → ℕ → ℕ → ℕ → List (Queue A) → Option (List (Option A) × ℕ) × List (Queue A)
  steal_bulk_from zero i start batch threshold others = (none, others)
  steal_bulk_from (suc rounds) i start batch threshold others =
      let now = u32 (start + i) % length others in
      let victim = get_or others now BlockQueue.new in
      let (xs, q) = BlockQueue.pop_bulk batch victim in
      let rest = steal_bulk_from rounds (i + 1) start batch threshold others in
      if leb threshold victim.size
      then (if length xs == 0 then rest else (some (xs, now), set others now q))
      else rest

  unfoldable pub steal_bulk :
      ℕ → ℕ → ℕ → List (Queue A) → Option (List (Option A) × ℕ) × List (Queue A)
  steal_bulk start batch max_length others =
      steal_bulk_from (length others) 0 start batch (min (u32 (batch * length others)) max_length)
        others
