-- ===== src/Tests/Tasks.antt =====
-- SPTask.hpp: a batch of two tasks that passes the end of its array of three.
use spsock.Prelude.{ℕ, ◌+◌, ◌-◌, ◌<◌, ◌≡◌, refl, [], ◌∷◌, none, some, true, false, arith}
use spsock.BlockQueue
use spsock.BlockQueue.{Queue}
use spsock.BlockQueue.Ring
use spsock.ThreadPool
use spsock.ThreadPool.{queue_at}
use spsock.ThreadPool.Tally
use spsock.ThreadPool.Tally.{tally}
use spsock.Task.{
  Batch, Pool, SockTask, read_proc, write_proc, no_task, commit, submit, append_single,
}
use spsock.Task.Pending
use spsock.Task.Rounds.{given_up}
use spsock.Task.Accounts.{Outcome, commit-Outcome, commit_loses}
use spsock.Task.Tokens.{Owned, append_single-Owned}

abbrev pub first_task : SockTask
first_task = record { proc = read_proc; ctx = 5 }

abbrev pub second_task : SockTask
second_task = record { proc = write_proc; ctx = 6 }

abbrev batch : Batch
batch = record {
  flag = true;
  back = 2;
  front = 1;
  size = 2;
  tasks = second_task ∷ no_task ∷ first_task ∷ [];
}

abbrev pool : Pool
pool = record {
  shutdown_policy = true;
  thread_num = 1;
  queue_length = 8;
  queues =
      record {
        nodes = some (none ∷ none ∷ none ∷ none ∷ none ∷ none ∷ none ∷ none ∷ []);
        is_stopped = false;
        size = 0;
        max_size = 8;
        head = 0;
        tail = 0;
      }
      ∷ [];
  workers = 1;
  index = 0;
}

batch-IsValid : Pending.IsValid 3 batch
batch-IsValid = record {
  sized = refl;
  small = omega arith;
  back_in = omega arith;
  fits = omega arith;
  ends = refl;
}

-- A pool of one worker whose queue is `q`.
abbrev one_queue : ℕ → Queue SockTask → Pool
one_queue n q = record {
  shutdown_policy = true;
  thread_num = 1;
  queue_length = n;
  queues = q ∷ [];
  workers = 1;
  index = 0;
}

one_queue-each :
    (n : ℕ) (q : Queue SockTask)
    → Ring.IsValid q
    → (i : ℕ) → i < 1
    → Ring.IsValid (queue_at (one_queue n q) i)
one_queue-each n q v ℕ.zero lt = v
one_queue-each n q v (ℕ.suc i) lt = absurd (omega arith)

one_queue-IsValid : (n : ℕ) (q : Queue SockTask) → Ring.IsValid q → Tally.IsValid (one_queue n q)
one_queue-IsValid n q v = record {
  sized = refl;
  some_queue = omega arith;
  small = omega arith;
  each = one_queue-each n q v;
}

-- A queue with one slot, which is taken.
abbrev full_queue : Queue SockTask
full_queue = record {
  nodes = some (some first_task ∷ []);
  is_stopped = false;
  size = 1;
  max_size = 1;
  head = 0;
  tail = 0;
}

full_queue-IsValid : Ring.IsValid full_queue
full_queue-IsValid = record {
  sized = refl;
  small = omega arith;
  head_in = omega arith;
  fits = omega arith;
  ends = refl;
}

abbrev pub full : Pool
full = one_queue 1 full_queue

pub full-IsValid : Tally.IsValid full
full-IsValid = one_queue-IsValid 1 full_queue full_queue-IsValid

append_single-Owned_example : Owned 2 first_task full (append_single first_task false full)
append_single-Owned_example = append_single-Owned first_task false full full-IsValid

commit-Outcome_example : Outcome 1 (first_task ∷ second_task ∷ []) full (commit 2 3 batch full)
commit-Outcome_example = commit-Outcome 3 batch batch-IsValid 0 full full-IsValid

-- The pool behind the attempt.
abbrev full_after : Pool
full_after = record full { index = 1 }

none_taken : (submit (first_task ∷ []) full).0 ≡ 0
unfolding submit ThreadPool.append ThreadPool.next_index ThreadPool.push_at BlockQueue.push
none_taken = refl

given_back : commit 2 3 batch full ≡ some (given_up batch, full_after, 5 ∷ [])
unfolding commit submit ThreadPool.append ThreadPool.next_index ThreadPool.push_at BlockQueue.push
given_back = refl

-- The task past the end of the array is gone: one task is queued, and one connection listened to.
commit_loses_example : tally (λ t. true) full_after + 1 + (2 - 1) ≡ tally (λ t. true) full + 2
commit_loses_example =
    commit_loses 3 batch batch-IsValid 0 full full_after (given_up batch) (5 ∷ []) full-IsValid
      (omega arith) (omega (arith, none_taken)) given_back
