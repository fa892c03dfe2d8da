-- ===== src/ThreadPool/Joined.antt =====
-- `exit` from its stops to its end: the joins, and what follows them.
use spsock.Prelude.{ℕ, suc, ◌<◌, ◌≡◌, refl, List, [], ◌∷◌, some, Bool, true, arith, length, get_or}
use spsock.BlockQueue.{Queue}
use spsock.ThreadPool
use spsock.ThreadPool.{ThreadPool}
use spsock.ThreadPool.Workers.{Worker, World, has_ended, all_ended, join}
use spsock.ThreadPool.Shutdown.{IsIdle, work_left, IsStopped, nobody}
use spsock.ThreadPool.Finish.{Round, AllFull, run_rounds, rounds_end}

module _ {ℓ} {A : Type ℓ} where
  idle_has_ended : (w : Worker A) → IsIdle w → has_ended w ≡ true
  idle_has_ended w (over, empty) = rw (over, empty) refl

  idle_all_ended :
      (crew : List (Worker A))
      → ((k : ℕ) → k < length crew → IsIdle (get_or crew k nobody))
      → all_ended crew ≡ true
  idle_all_ended [] idle = refl
  idle_all_ended (w ∷ crew) idle =
      rw
        (
          idle_has_ended w (idle 0 (omega arith)),
          idle_all_ended crew (λ k lt. idle (suc k) (omega arith)),
        )
        refl

  -- Some queue, or none, behind `exit`.
  exit_clears :
      (policy : Bool) (p : ThreadPool A)
      → 0 < length p.queues
      → ((ThreadPool.exit policy p).queues ≡ []) × ((ThreadPool.exit policy p).thread_num ≡ 0)
  unfolding ThreadPool.exit
  exit_clears policy p some_queue =
      let (q, qs, e) = first_of p.queues some_queue in rw (e, ThreadPool.exit) (refl, refl)
    where
      first_of :
          (qs : List (Queue A))
          → 0 < length qs
          → (q : Queue A) × (rest : List (Queue A)) × (qs ≡ q ∷ rest)
      first_of [] pos = absurd (omega arith)
      first_of (q ∷ rest) pos = (q, rest, refl)

  -- Once all queues have been stopped and nothing more is submitted, `exit` comes to its end: after as
  -- many full rounds as there is work left, and one more, the joins are over, no worker, queue or thread
  -- is left, and the tasks that have been executed and accepted are those of before the joins.
  pub exit_ends :
      (rs : List Round) (s : World A)
      → IsStopped s
      → AllFull (length s.crew) rs
      → work_left s < length rs
      → (s' : World A) × (join (run_rounds s rs) ≡ some s')
        × (s'.crew ≡ [])
        × (s'.pool.queues ≡ [])
        × (s'.pool.thread_num ≡ 0)
        × (s'.executed ≡ (run_rounds s rs).executed)
        × (s'.accepted ≡ s.accepted)
  unfolding join
  exit_ends rs s v full enough =
      let t = run_rounds s rs in
      let (ran, idle) = rounds_end rs s v full enough in
      let valid = ran.ok.sound.pool_ok in
      let (queues, threads) =
        exit_clears t.pool.shutdown_policy t.pool (omega (arith, valid.sized, valid.some_queue)) in
      rw (idle_all_ended t.crew idle, join)
        (
          record t { pool = ThreadPool.exit t.pool.shutdown_policy t.pool; crew = [] },
          refl,
          refl,
          queues,
          threads,
          refl,
          ran.accepted_same,
        )
