-- ===== src/ThreadPool/Workers.antt =====
-- base/ThreadPool.hpp: the loops of the workers, `process_single` and `process_bulk`, as steps.
--
-- A step is what a worker does between two points at which another thread may step in: one operation
-- of a queue under its mutex, one look at the size of another queue, or one `execute()`. What it has
-- taken and not executed yet is in its hand. `timeout` says of a step of a waiting worker that its
-- time is over; a waiting worker that is neither called nor out of time stays as it is.
use spsock.Prelude.{
  ℕ, suc, ◌+◌, ◌-◌, ◌*◌, ◌%◌, List, [], ◌∷◌, ◌++◌, Option, none, some, Bool, true, false, ◌&&◌,
  ◌||◌, u32, min, ltb, leb, ◌==◌, if◌then◌else◌, length, get_or, set, take,
}
use spsock.BlockQueue
use spsock.BlockQueue.{Queue}
use spsock.ThreadPool
use spsock.ThreadPool.{ThreadPool, queue_at}

-- Which of the two loops runs, with the batch size of the second.
pub data Mode : Type 0 where
  single : Mode
  bulk : ℕ → Mode

-- The choice that `worker` makes.
abbrev pub mode_of : ℕ → Mode
mode_of batch_size = if batch_size == 1 then single else bulk batch_size

-- Where a worker stands: in the loop of a pool with one queue, at its own queue, in the round `i` of
-- `steal` before the look at the size or before the removal, in the timed wait, at the test of
-- `isStopped` behind it, in the last loop, or past it.
pub data Phase : Type 0 where
  alone own waiting stopping draining finished : Phase
  looking taking : ℕ → Phase

pub record Worker {ℓ} (A : Type ℓ) : Type ℓ where
  pub phase : Phase
  pub start : ℕ
  pub hand : List (Option A)

-- The queue `other[i]` of worker `k`: they are in order, and its own is left out.
abbrev pub other : ℕ → ℕ → ℕ
other k i = if ltb i k then i else suc i

abbrev pub threshold : Mode → ℕ → ℕ → ℕ
threshold single total max_length = min total max_length
threshold (bulk n) total max_length = min (u32 (n * total)) max_length

-- The pool with its workers, the tasks that it has accepted and those that have been executed.
pub record World {ℓ} (A : Type ℓ) : Type ℓ where
  pub pool : ThreadPool A
  pub mode : Mode
  pub crew : List (Worker A)
  pub accepted : List A
  pub executed : List (Option A)

-- What may happen next: a step of a worker, a submission, and the steps of `exit` before its joins: the
-- policy is set, and each queue is stopped.
pub data Event {ℓ} (A : Type ℓ) : Type ℓ where
  work : ℕ → Bool → Event A
  submit : A → Event A
  submit_bulk : List A → Event A
  policy : Bool → Event A
  stop : ℕ → Event A

module _ {ℓ} {A : Type ℓ} where
  -- A worker at the start of its loop.
  abbrev pub fresh : ThreadPool A → Worker A
  fresh p = record { phase = if p.thread_num == 1 then alone else own; start = 0; hand = [] }

  -- An element that was there, or none, as the tasks taken.
  abbrev pub as_list : (Bool × Option A) × Queue A → List (Option A) × Queue A
  as_list ((ok, a), q) = (if ok then a ∷ [] else [], q)

  -- The removals: at once, in the timed wait, and in the wait without end.
  unfoldable pub grab : Mode → Queue A → List (Option A) × Queue A
  grab single q = as_list (BlockQueue.pop q)
  grab (bulk n) q = BlockQueue.pop_bulk n q

  unfoldable pub grab_for : Mode → Bool → Queue A → List (Option A) × Queue A
  grab_for single success q = as_list (BlockQueue.wait_pop_for success q)
  grab_for (bulk n) success q = BlockQueue.wait_pop_bulk_for success n q

  unfoldable pub grab_wait : Mode → Queue A → Option (List (Option A) × Queue A)
  grab_wait single q = elim (BlockQueue.wait_pop q) [ none ↦ none | some r ↦ some (as_list r) ]
  grab_wait (bulk n) q = BlockQueue.wait_pop_bulk n q

  -- What a removal from the queue at `at` does to the worker: with tasks taken it goes on to `got`,
  -- having them in its hand and `start` as the index to steal from, without to `lacking`.
  unfoldable pub turn :
      Phase
      → Phase
      → ℕ
      → ℕ
      → List (Option A) × Queue A
      → Worker A
      → ThreadPool A
      → Worker A × ThreadPool A
  turn got lacking start at (xs, q) w p = (
    record {
      phase = if length xs == 0 then lacking else got;
      start = if length xs == 0 then w.start else start;
      hand = xs;
    },
    record p { queues = set p.queues at q },
  )

  -- The index that round `i` of `steal` looks at.
  abbrev pub now_at : ThreadPool A → Worker A → ℕ → ℕ
  now_at p w i = u32 (w.start + i) % (p.thread_num - 1)

  -- A step of worker `k` with nothing in its hand.
  unfoldable pub move : Mode → ℕ → Bool → Phase → Worker A → ThreadPool A → Worker A × ThreadPool A
  unfolding turn grab grab_for grab_wait
  move mode k timeout alone w p = elim (grab_wait mode (queue_at p k)) [
    | none ↦ (w, p)
    | some r ↦ turn alone draining w.start k r w p
  ]
  move mode k timeout own w p = turn own (looking 0) w.start k (grab mode (queue_at p k)) w p
  move mode k timeout (looking i) w p =
      let total = p.thread_num - 1 in
      let victim = queue_at p (other k (now_at p w i)) in
      let enough = leb (threshold mode total (queue_at p k).max_size) victim.size in
      (
        record w {
          phase = if ltb i total then (if enough then taking i else looking (suc i)) else waiting;
        },
        p,
      )
  move mode k timeout (taking i) w p =
      let at = other k (now_at p w i) in
      turn own (looking (suc i)) (now_at p w i) at (grab mode (queue_at p at)) w p
  move mode k timeout waiting w p =
      let q = queue_at p k in
      if BlockQueue.ready q || timeout
      then turn own stopping w.start k (grab_for mode (BlockQueue.ready q) q) w p
      else (w, p)
  move mode k timeout stopping w p =
      let leave : Phase = elim mode [ single ↦ finished | bulk n ↦ draining ] in
      (record w { phase = if (queue_at p k).is_stopped then leave else own }, p)
  move mode k timeout draining w p =
      if p.shutdown_policy
      then turn draining finished w.start k (grab mode (queue_at p k)) w p
      else (record w { phase = finished }, p)
  move mode k timeout finished w p = (w, p)

  -- A step: the task in hand that comes first is executed, or, with an empty hand, the loop goes on.
  unfoldable pub act :
      Mode
      → ℕ
      → Bool
      → List (Option A)
      → Worker A
      → ThreadPool A
      → List (Option A) × Worker A × ThreadPool A
  unfolding move
  act mode k timeout (a ∷ hand) w p = (a ∷ [], record w { hand = hand }, p)
  act mode k timeout [] w p = let (w', p') = move mode k timeout w.phase w p in ([], w', p')

  unfoldable pub happen : World A → Event A → World A
  unfolding act
  happen s (work k timeout) =
      let w = get_or s.crew k (fresh s.pool) in
      let (done, w', p') = act s.mode k timeout w.hand w s.pool in
      if ltb k (length s.crew)
      then record s { pool = p'; crew = set s.crew k w'; executed = s.executed ++ done }
      else s
  happen s (submit a) =
      let (ok, p') = ThreadPool.append a s.pool in
      record s { pool = p'; accepted = s.accepted ++ (if ok then a ∷ [] else []) }
  happen s (submit_bulk xs) =
      let (n, p') = ThreadPool.append_bulk xs s.pool in
      record s { pool = p'; accepted = s.accepted ++ take n xs }
  happen s (policy graceful) = record s { pool = record s.pool { shutdown_policy = graceful } }
  happen s (stop i) =
      let (wake, q) = BlockQueue.stop_wait (queue_at s.pool i) in
      record s { pool = record s.pool { queues = set s.pool.queues i q } }

  -- The joins of `exit` and what follows them; `none` while a worker has not come to its end.
  abbrev pub has_ended : Worker A → Bool
  has_ended w = elim w.phase [ finished ↦ length w.hand == 0 | _ ↦ false ]

  abbrev pub all_ended : List (Worker A) → Bool
  all_ended [] = true
  all_ended (w ∷ ws) = has_ended w && all_ended ws

  unfoldable pub join : World A → Option (World A)
  unfolding ThreadPool.exit
  join s =
      if all_ended s.crew
      then some (record s { pool = ThreadPool.exit s.pool.shutdown_policy s.pool; crew = [] })
      else none

  unfoldable pub run : World A → List (Event A) → World A
  unfolding happen
  run s [] = s
  run s (e ∷ es) = run (happen s e) es
