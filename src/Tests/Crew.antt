-- ===== src/Tests/Crew.antt =====
-- base/ThreadPool.hpp: a pool of two queues with three slots each, of which the second holds two tasks.
use spsock.Prelude.{ℕ, ◌<◌, ◌≤◌, ◌≡◌, refl, List, [], ◌∷◌, none, some, true, false, arith}
use spsock.BlockQueue
use spsock.BlockQueue.{Queue}
use spsock.BlockQueue.Ring
use spsock.ThreadPool
use spsock.ThreadPool.{ThreadPool, append_bulk, init, init_queues, queue_at}
use spsock.ThreadPool.Tally
use spsock.ThreadPool.Submit.{TookMany, append_bulk-TookMany}
use spsock.ThreadPool.Workers.{Event, work, submit, submit_bulk, policy, stop, run, single, looking}
use spsock.ThreadPool.Stealing.{steal_of}
use spsock.ThreadPool.Search.{seeking, Stole, moves, steps-steal}
use spsock.ThreadPool.Conserve.{IsSound, run-IsSound}
use spsock.ThreadPool.Start.{started, started-IsSound}
use spsock.Tests.Queues.{queue, queue-IsValid}

abbrev free : Queue ℕ
free = record {
  nodes = some (none ∷ none ∷ none ∷ []);
  is_stopped = false;
  size = 0;
  max_size = 3;
  head = 0;
  tail = 0;
}

free-IsValid : Ring.IsValid free
free-IsValid = record {
  sized = refl;
  small = omega arith;
  head_in = omega arith;
  fits = omega arith;
  ends = refl;
}

abbrev two_queues : ThreadPool ℕ
two_queues = record {
  shutdown_policy = true;
  thread_num = 2;
  queue_length = 3;
  queues = free ∷ queue ∷ [];
  workers = 2;
  index = 0;
}

two_queues-each : (i : ℕ) → i < 2 → Ring.IsValid (queue_at two_queues i)
two_queues-each ℕ.zero lt = free-IsValid
two_queues-each (ℕ.suc ℕ.zero) lt = queue-IsValid
two_queues-each (ℕ.suc (ℕ.suc i)) lt = absurd (omega arith)

two_queues-IsValid : Tally.IsValid two_queues
two_queues-IsValid = record {
  sized = refl;
  some_queue = omega arith;
  small = omega arith;
  each = two_queues-each;
}

append_bulk-TookMany_example :
    TookMany (5 ∷ 6 ∷ []) two_queues (append_bulk (5 ∷ 6 ∷ []) two_queues)
append_bulk-TookMany_example = append_bulk-TookMany (5 ∷ 6 ∷ []) two_queues two_queues-IsValid

-- A pool as a call of `init` for two workers leaves it.
abbrev pub made : ThreadPool ℕ
made = (init (true ∷ true ∷ []) 8 3 2 1 two_queues).1

pub made-IsSound : IsSound (started 1 made)
unfolding init_queues init
made-IsSound =
    started-IsSound (true ∷ true ∷ []) 8 3 2 1 two_queues refl (omega arith) (omega arith) refl

-- The same pool with workers that take two tasks at once.
pub started_in_batches : IsSound (started 2 made)
unfolding init_queues init
started_in_batches =
    started-IsSound (true ∷ true ∷ []) 8 3 2 2 two_queues refl (omega arith) (omega arith) refl

-- Three tasks come, the second worker steals one, and the pool is told to stop.
abbrev schedule : List (Event ℕ)
schedule =
    submit_bulk (5 ∷ 6 ∷ [])
    ∷ submit 7
    ∷ work 1 false
    ∷ work 1 false
    ∷ work 0 false
    ∷ policy true
    ∷ stop 0
    ∷ work 0 false
    ∷ stop 1
    ∷ []

run-IsSound_example : IsSound (run (started 1 made) schedule)
run-IsSound_example = run-IsSound (started 1 made) schedule made-IsSound

-- The first worker, whose queue is empty, looks for a task in the second queue.
steps-steal_example :
    (n : ℕ) × (n ≤ 3)
    × Stole 0 0 two_queues
        (steal_of single 0 3 (queue ∷ []))
        (moves single 0 n (seeking (looking 0) 0) two_queues)
steps-steal_example = steps-steal single 0 0 two_queues two_queues-IsValid (omega arith)

stolen : (steal_of single 0 3 (queue ∷ [])).0 ≡ some (some 8 ∷ [], 0)
unfolding ThreadPool.steal ThreadPool.steal_from BlockQueue.pop BlockQueue.pop_one
    BlockQueue.take_out
stolen = refl
