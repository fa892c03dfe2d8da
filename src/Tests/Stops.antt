-- ===== src/Tests/Stops.antt =====
-- base/ThreadPool.hpp: pools of two workers that are told to stop.
use spsock.Prelude.{
  ℕ, zero, suc, ◌<◌, ◌≡◌, ◌≢◌, refl, inl, inr, List, [], ◌∷◌, map, Option, some, Bool, true, false,
  arith, length, count_if, replicate,
}
use spsock.BlockQueue
use spsock.BlockQueue.{Queue}
use spsock.ThreadPool
use spsock.ThreadPool.{ThreadPool, queue_at, init, init_queues}
use spsock.ThreadPool.Workers.{
  World, Event, work, submit, submit_bulk, join, policy, stop, single, bulk, finished, run,
}
use spsock.ThreadPool.Conserve.{run-IsSound}
use spsock.ThreadPool.Start.{started}
use spsock.ThreadPool.Ending.{AllStopped}
use spsock.ThreadPool.Shutdown.{IsStopped, worker_at}
use spsock.ThreadPool.Finish.{Round, Has, AllFull, run_rounds, AllIdle, Ran, rounds_end}
use spsock.ThreadPool.Executed.{run_rounds-executes}
use spsock.ThreadPool.Joined.{exit_ends}
use spsock.ThreadPool.Lost.{AllLeaving, single_stop_loses}
use spsock.Tests.Crew.{made, made-IsSound, started_in_batches}

-- Both workers have a turn, the second first.
abbrev turns : Round
turns = (1, false) ∷ (0, true) ∷ []

turns_full : (k : ℕ) → k < 2 → Has k turns
turns_full zero lt = inr (inl refl)
turns_full (suc zero) lt = inl refl
turns_full (suc (suc k)) lt = absurd (omega arith)

same_turns : (n : ℕ) → AllFull 2 (replicate n turns)
same_turns zero = tt
same_turns (suc n) = (turns_full, same_turns n)

-- Each worker looks for tasks in vain and waits out its time; then a task comes, and the stop.
abbrev before_stop : List (Event ℕ)
before_stop =
    work 0 false
    ∷ work 0 false
    ∷ work 0 false
    ∷ work 0 true
    ∷ work 1 false
    ∷ work 1 false
    ∷ work 1 false
    ∷ work 1 true
    ∷ submit 7
    ∷ policy true
    ∷ stop 0
    ∷ stop 1
    ∷ []

abbrev caught : World ℕ
caught = run (started 1 made) before_stop

caught_accepted : caught.accepted ≡ 7 ∷ []
unfolding run init init_queues ThreadPool.append ThreadPool.next_index BlockQueue.pop
    BlockQueue.ready BlockQueue.wait_pop_for ThreadPool.push_at BlockQueue.push
caught_accepted = refl

caught_mode : caught.mode ≡ single
unfolding run init init_queues
caught_mode = refl

caught-IsStopped : IsStopped caught
unfolding run init init_queues ThreadPool.append ThreadPool.next_index BlockQueue.pop
    BlockQueue.ready BlockQueue.wait_pop_for ThreadPool.push_at BlockQueue.push BlockQueue.stop_wait
caught-IsStopped = record {
  sound = run-IsSound (started 1 made) before_stop made-IsSound;
  stopped = each;
}
  where
    each : AllStopped caught.pool
    each zero lt = refl
    each (suc zero) lt = refl
    each (suc (suc i)) lt = absurd (omega arith)

caught-AllLeaving : AllLeaving caught
unfolding run init init_queues ThreadPool.append ThreadPool.next_index BlockQueue.pop
    BlockQueue.ready BlockQueue.wait_pop_for ThreadPool.push_at BlockQueue.push BlockQueue.stop_wait
caught-AllLeaving zero lt = (inl refl, refl)
caught-AllLeaving (suc zero) lt = (inl refl, refl)
caught-AllLeaving (suc (suc i)) lt = absurd (omega arith)

single_stop_loses_example :
    AllIdle (run_rounds caught (replicate 15 turns))
    × ((run_rounds caught (replicate 15 turns)).executed ≡ [])
    × ((run_rounds caught (replicate 15 turns)).pool ≡ caught.pool)
unfolding run init init_queues ThreadPool.append ThreadPool.next_index BlockQueue.pop
    BlockQueue.ready BlockQueue.wait_pop_for ThreadPool.push_at BlockQueue.push BlockQueue.stop_wait
    BlockQueue.put
single_stop_loses_example =
    single_stop_loses (replicate 15 turns) caught caught_mode caught-IsStopped caught-AllLeaving
      (same_turns 15) (omega arith)

-- The same pool in batches: the second worker is about to steal when the stop comes.
abbrev busy : List (Event ℕ)
busy =
    submit_bulk (5 ∷ 6 ∷ [])
    ∷ submit 7
    ∷ work 1 false
    ∷ work 0 false
    ∷ policy true
    ∷ stop 0
    ∷ stop 1
    ∷ []

abbrev batches : World ℕ
batches = run (started 2 made) busy

batches_accepted : batches.accepted ≡ 5 ∷ 6 ∷ 7 ∷ []
unfolding run init init_queues ThreadPool.append ThreadPool.append_bulk ThreadPool.next_index
    BlockQueue.pop_bulk BlockQueue.push ThreadPool.push_bulk_at BlockQueue.push_bulk
    ThreadPool.push_at
batches_accepted = refl

batches_mode : batches.mode ≡ bulk 2
unfolding run init init_queues
batches_mode = refl

batches_graceful : batches.pool.shutdown_policy ≡ true
unfolding run init init_queues
batches_graceful = refl

batches-IsStopped : IsStopped batches
unfolding run init init_queues ThreadPool.append BlockQueue.stop_wait ThreadPool.next_index
    ThreadPool.append_bulk ThreadPool.push_bulk_at ThreadPool.push_at
batches-IsStopped = record {
  sound = run-IsSound (started 2 made) busy started_in_batches;
  stopped = each;
}
  where
    each : AllStopped batches.pool
    each zero lt = refl
    each (suc zero) lt = refl
    each (suc (suc i)) lt = absurd (omega arith)

batches_going : (k : ℕ) → k < length batches.crew → (worker_at batches k).phase ≢ finished
unfolding run init init_queues
batches_going zero lt e = absurd (ground (arith, e))
batches_going (suc zero) lt e = absurd (ground (arith, e))
batches_going (suc (suc k)) lt e = absurd (omega arith)

run_rounds-executes_example :
    AllIdle (run_rounds batches (replicate 50 turns))
    × ((c : Option ℕ → Bool)
        → count_if c (run_rounds batches (replicate 50 turns)).executed
          ≡ count_if c (map some batches.accepted))
unfolding run init init_queues ThreadPool.append ThreadPool.next_index ThreadPool.append_bulk
    ThreadPool.push_bulk_at ThreadPool.push_at BlockQueue.stop_wait BlockQueue.pop_bulk
    BlockQueue.push_bulk BlockQueue.put_all BlockQueue.put BlockQueue.pop_some
    BlockQueue.take_all_out BlockQueue.take_out BlockQueue.push
run_rounds-executes_example =
    run_rounds-executes 2 (replicate 50 turns) batches (omega arith) batches_mode batches_graceful
      batches-IsStopped batches_going (same_turns 50) (omega arith)

exit_ends_example :
    (s' : World ℕ) × (join (run_rounds batches (replicate 50 turns)) ≡ some s')
    × (s'.crew ≡ [])
    × (s'.pool.queues ≡ [])
    × (s'.pool.thread_num ≡ 0)
    × (s'.executed ≡ (run_rounds batches (replicate 50 turns)).executed)
    × (s'.accepted ≡ batches.accepted)
unfolding run init init_queues ThreadPool.append ThreadPool.next_index ThreadPool.append_bulk
    ThreadPool.push_bulk_at ThreadPool.push_at BlockQueue.stop_wait BlockQueue.pop_bulk
    BlockQueue.push_bulk BlockQueue.put_all BlockQueue.put BlockQueue.pop_some
    BlockQueue.take_all_out BlockQueue.take_out BlockQueue.push
exit_ends_example =
    exit_ends (replicate 50 turns) batches batches-IsStopped (same_turns 50) (omega arith)

rounds_end_example :
    Ran caught (run_rounds caught (replicate 15 turns))
    × AllIdle (run_rounds caught (replicate 15 turns))
unfolding run init init_queues ThreadPool.append ThreadPool.next_index BlockQueue.pop
    BlockQueue.ready BlockQueue.wait_pop_for ThreadPool.push_at BlockQueue.push BlockQueue.stop_wait
    BlockQueue.put
rounds_end_example =
    rounds_end (replicate 15 turns) caught caught-IsStopped (same_turns 15) (omega arith)
