-- ===== src/ThreadPool/Ending.antt =====
-- What a step brings a worker of a pool whose queues have all been stopped: tasks, or one stage nearer
-- to the end of its loop.
use spsock.Prelude.{
  ℕ, zero, suc, ◌+◌, ◌-◌, ◌*◌, ◌≤◌, ◌<◌, ◌≡◌, ◌≢◌, refl, ap, ◌∙◌, ◌⊎◌, inl, inr, List, [], Option,
  none, Bool, true, false, ◌||◌, arith, min, ltb, leb, length, get_or, set, get_or-set_self,
  get_or-set_ne, length-set, Bool-cases, ◌==◌, if◌then◌else◌,
}
use mathlib.Core.Path.{subst}
use native.Mathlib.Decide.{ℕ_discrete}
use spsock.BlockQueue
use spsock.BlockQueue.{Queue}
use spsock.ThreadPool.{ThreadPool, queue_at}
use spsock.ThreadPool.Removal.{grab_wait_cases}
use spsock.ThreadPool.Workers.{
  Mode, single, bulk, Phase, alone, own, looking, taking, waiting, stopping, draining, finished,
  Worker, other, now_at, grab, grab_for, grab_wait, turn, move, threshold,
}

-- How many stages lie before a worker that finds no task any more, with `t` other queues.
abbrev pub stages : ℕ → Phase → ℕ
stages t alone = 4
stages t own = 2 * t + 5
stages t (looking i) = 2 * (t - i) + 4
stages t (taking i) = if ltb i t then 2 * (t - i) + 3 else 5
stages t waiting = 3
stages t stopping = 2
stages t draining = 1
stages t finished = 0

module _ {ℓ} {A : Type ℓ} where
  abbrev pub AllStopped : ThreadPool A → Type 0
  AllStopped p = (i : ℕ) → i < length p.queues → (queue_at p i).is_stopped ≡ true

  is_stopped-take_all_out :
      (n : ℕ) (q : Queue A) → (BlockQueue.take_all_out n q).1.is_stopped ≡ q.is_stopped
  unfolding BlockQueue.take_all_out BlockQueue.take_out
  is_stopped-take_all_out zero q = refl
  is_stopped-take_all_out (suc n) q = is_stopped-take_all_out n (BlockQueue.take_out q).1

  -- No removal starts or stops a queue.
  pub is_stopped-grab : (mode : Mode) (q : Queue A) → (grab mode q).1.is_stopped ≡ q.is_stopped
  unfolding grab BlockQueue.pop BlockQueue.pop_one BlockQueue.take_out BlockQueue.pop_bulk
      BlockQueue.pop_some
  is_stopped-grab single q = ground arith
  is_stopped-grab (bulk n) q = ground (arith, is_stopped-take_all_out (min n q.size) q)

  is_stopped-grab_for :
      (mode : Mode) (success : Bool) (q : Queue A)
      → (grab_for mode success q).1.is_stopped ≡ q.is_stopped
  unfolding grab_for BlockQueue.wait_pop_for BlockQueue.pop_one BlockQueue.take_out
      BlockQueue.wait_pop_bulk_for BlockQueue.pop_some
  is_stopped-grab_for single success q = ground arith
  is_stopped-grab_for (bulk n) success q = ground (arith, is_stopped-take_all_out (min n q.size) q)

  -- A step of a worker with an empty hand and the pool: either tasks are taken, or the worker is nearer
  -- to its end. No queue is started again.
  abbrev pub Advances : Phase → ℕ → Worker A × ThreadPool A → Type 0
  Advances ph t (w', p') =
      AllStopped p'
      × (((0 < length w'.hand) × (stages t w'.phase ≤ 2 * t + 5))
          ⊎ ((length w'.hand ≡ 0) × (stages t w'.phase < stages t ph)))

  set-AllStopped :
      (p : ThreadPool A) (at : ℕ) (q : Queue A)
      → AllStopped p
      → q.is_stopped ≡ (queue_at p at).is_stopped
      → AllStopped (record p { queues = set p.queues at q })
  set-AllStopped p at q v same i lt = elim (ℕ_discrete at i) [
    | yes e ↦
        let inside : i < length p.queues = omega (arith, length-set p.queues at q) in
        subst (λ j. (get_or (set p.queues at q) j BlockQueue.new).is_stopped ≡ true) e
          (ap (λ (r : Queue A). r.is_stopped)
              (get_or-set_self p.queues at q BlockQueue.new (omega arith))
            ∙ same
            ∙ v at (omega arith))
    | no ne ↦
        ap (λ (r : Queue A). r.is_stopped) (get_or-set_ne p.queues at i q BlockQueue.new ne)
        ∙ v i (omega (arith, length-set p.queues at q))
  ]

  turn-Advances :
      (ph got lacking : Phase) (t start at : ℕ) (r : List (Option A) × Queue A) (w : Worker A)
      (p : ThreadPool A)
      → AllStopped p
      → r.1.is_stopped ≡ (queue_at p at).is_stopped
      → stages t got ≤ 2 * t + 5
      → stages t lacking < stages t ph
      → Advances ph t (turn got lacking start at r w p)
  unfolding turn
  turn-Advances ph got lacking t start at (xs, q) w p v same some_found none_found = (
    set-AllStopped p at q v same,
    elim (Bool-cases (length xs == 0)) [
      | inl e ↦ rw e (inr (ground arith, none_found))
      | inr e ↦ rw e (inl (ground arith, some_found))
    ],
  )

  -- The wait without end is over in a queue that was stopped.
  grab_wait_over : (mode : Mode) (q : Queue A) → q.is_stopped ≡ true → grab_wait mode q ≢ none
  unfolding grab_wait BlockQueue.wait_pop BlockQueue.wait_pop_bulk BlockQueue.ready
  grab_wait_over single q stopped e = absurd (ground arith)
  grab_wait_over (bulk n) q stopped e = absurd (ground arith)

  pub move-Advances :
      (mode : Mode) (k : ℕ) (timeout : Bool) (ph : Phase) (w : Worker A) (p : ThreadPool A)
      → AllStopped p
      → w.hand ≡ []
      → k < length p.queues
      → ph ≢ finished
      → Advances ph (p.thread_num - 1) (move mode k timeout ph w p)
  unfolding move
  move-Advances mode k timeout alone w p v e lt going = elim (grab_wait_cases mode (queue_at p k)) [
    | inl waits ↦ absurd (grab_wait_over mode (queue_at p k) (v k lt) waits)
    | inr over ↦
        rw (over, move)
          (turn-Advances alone alone draining _ w.start k (grab mode (queue_at p k)) w p v
            (is_stopped-grab mode (queue_at p k)) (omega arith) (omega arith))
  ]
  move-Advances mode k timeout own w p v e lt going =
      turn-Advances own own (looking 0) _ w.start k (grab mode (queue_at p k)) w p v
        (is_stopped-grab mode (queue_at p k)) (omega arith) (omega arith)
  move-Advances mode k timeout (looking i) w p v e lt going =
      let t : ℕ = p.thread_num - 1 in
      elim (Bool-cases (ltb i t)) [
        | inr past ↦ rw past (v, inr (ap length e, ground arith))
        | inl more ↦
            let victim = queue_at p (other k (now_at p w i)) in
            elim (Bool-cases (leb (threshold mode t (queue_at p k).max_size) victim.size)) [
              | inl some_there ↦ rw (more, some_there) (v, inr (ap length e, ground arith))
              | inr too_few ↦ rw (more, too_few) (v, inr (ap length e, ground arith))
            ]
      ]
  move-Advances mode k timeout (taking i) w p v e lt going =
      let at = other k (now_at p w i) in
      turn-Advances (taking i) own (looking (suc i)) _ (now_at p w i) at (grab mode (queue_at p at))
        w p v (is_stopped-grab mode (queue_at p at)) (omega arith) (ground arith)
  move-Advances mode k timeout waiting w p v e lt going =
      let q = queue_at p k in
      let over : (BlockQueue.ready q || timeout) ≡ true =
        unfold BlockQueue.ready in ground (arith, v k lt) in
      rw over (
        turn-Advances waiting own stopping _ w.start k (grab_for mode (BlockQueue.ready q) q) w p v
          (is_stopped-grab_for mode (BlockQueue.ready q) q) (omega arith) (omega arith))
  move-Advances mode k timeout stopping w p v e lt going =
      rw (v k lt) (v, inr (ap length e, leaving mode))
    where
      leaving :
          (m : Mode)
          → stages (p.thread_num - 1) (elim m [ single ↦ finished | bulk n ↦ draining ]) < 2
      leaving single = omega arith
      leaving (bulk n) = omega arith
  move-Advances mode k timeout draining w p v e lt going =
      elim p.shutdown_policy
        as (λ graceful. Advances draining (p.thread_num - 1) (
          if graceful
          then turn draining finished w.start k (grab mode (queue_at p k)) w p
          else (record w { phase = finished }, p))) [
            | true ↦
                turn-Advances draining draining finished _ w.start k (grab mode (queue_at p k)) w p
                  v (is_stopped-grab mode (queue_at p k)) (omega arith) (omega arith)
            | false ↦ (v, inr (ap length e, omega arith))
          ]
  move-Advances mode k timeout finished w p v e lt going = absurd (going refl)
