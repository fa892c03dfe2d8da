-- ===== src/ThreadPool/Executed.antt =====
-- A stop that waits: every task that was accepted is executed.
use spsock.Prelude.{
  ℕ, ◌<◌, ◌≡◌, ◌≢◌, refl, sym, ap, ◌∙◌, inl, inr, List, [], ◌∷◌, ◌++◌, map, Option, some, Bool,
  true, arith, ltb, length, get_or, set, get_or-set_self, get_or-set_ne, length-set, count_if,
  count_if-le, count_all, total, total_zero,
}
use mathlib.Core.Path.{subst}
use native.Mathlib.Decide.{dec_lt, ℕ_discrete}
use spsock.BlockQueue
use spsock.BlockQueue.{Queue}
use spsock.BlockQueue.Ring.{held}
use spsock.ThreadPool.{ThreadPool, queue_at}
use spsock.ThreadPool.Tally.{IsValid, queued, tally}
use spsock.ThreadPool.Workers.{bulk, finished, Worker, World, work, happen, run, fresh, move, act}
use spsock.ThreadPool.Shutdown.{work_left, IsStopped, worker_at, nobody, is_finished, get_or_any}
use spsock.ThreadPool.Finish.{
  Round, AllFull, works, run_rounds, AllIdle, nobody_works, work-Ran, run-Ran, rounds_end,
}
use spsock.ThreadPool.Drain.{filled, Drains, move-Drains}

module _ {ℓ} {A : Type ℓ} where
  -- A worker that has come past its loop has nothing in its hand nor in its queue.
  abbrev Cleared : ℕ → Worker A → ThreadPool A → Type ℓ
  Cleared k w p = w.phase ≡ finished → (w.hand ≡ []) × (filled p k ≡ 0)

  abbrev Emptied : World A → Type ℓ
  Emptied s = (k : ℕ) → k < length s.crew → Cleared k (worker_at s k) s.pool

  act-Drains :
      (n k : ℕ) (timeout : Bool) (hand : List (Option A)) (w : Worker A) (p : ThreadPool A)
      → 0 < n
      → p.shutdown_policy ≡ true
      → IsValid p
      → w.hand ≡ hand
      → k < length p.queues
      → Cleared k w p
      → let (done, w', p') = act (bulk n) k timeout hand w p in Drains k p (w', p')
  unfolding act
  act-Drains n k timeout (a ∷ hand) w p pos graceful v e lt clear =
      ((λ i. omega arith), λ fin. absurd (cc (e, (clear fin).0)))
  act-Drains n k timeout [] w p pos graceful v e lt clear = elim (is_finished w.phase) [
    | inr going ↦ move-Drains n k timeout w.phase w p pos graceful v refl lt going
    | inl f ↦
        let over : move (bulk n) k timeout w.phase w p ≡ (w, p) =
          unfold move in ap (λ ph. move (bulk n) k timeout ph w p) f in
        subst (Drains k p) (sym over) ((λ i. omega arith), clear)
  ]

  work-Emptied :
      (n : ℕ) (s : World A) (k : ℕ) (timeout : Bool)
      → 0 < n
      → s.mode ≡ bulk n
      → s.pool.shutdown_policy ≡ true
      → IsStopped s
      → k < length s.crew
      → Emptied s
      → Emptied (happen s (work k timeout))
  unfolding happen
  work-Emptied n s k timeout pos mode graceful v lt clear =
      let w : Worker A = get_or s.crew k (fresh s.pool) in
      let e : w ≡ worker_at s k = get_or_any s.crew k (fresh s.pool) nobody lt in
      let r = act s.mode k timeout w.hand w s.pool in
      let here : ltb k (length s.crew) ≡ true = ground arith in
      let drains : Drains k s.pool
          ((act (bulk n) k timeout w.hand w s.pool).1, (act (bulk n) k timeout w.hand w s.pool).2) =
        act-Drains n k timeout w.hand w s.pool pos graceful v.sound.pool_ok refl
          (omega (arith, v.sound.manned)) (subst (λ x. Cleared k x s.pool) (sym e) (clear k lt)) in
      let next : World A = record s {
        pool = r.2;
        crew = set s.crew k r.1;
        executed = s.executed ++ r.0;
      } in
      let eq : happen s (work k timeout) ≡ next = rw here refl in
      let (fewer, last) : Drains k s.pool (r.1, r.2) =
        subst
          (λ m.
            Drains k s.pool
              ((act m k timeout w.hand w s.pool).1, (act m k timeout w.hand w s.pool).2))
          (sym mode) drains in
      let at : worker_at next k ≡ r.1 = get_or-set_self s.crew k r.1 nobody lt in
      let at_k : Cleared k (worker_at next k) r.2 = subst (λ x. Cleared k x r.2) (sym at) last in
      subst Emptied (sym eq) (λ j inside. elim (ℕ_discrete k j) [
        | yes same ↦ subst (λ i. Cleared i (worker_at next i) r.2) same at_k
        | no ne ↦ λ fin.
            let o : worker_at next j ≡ worker_at s j = get_or-set_ne s.crew k j r.1 nobody ne in
            let (hand, empty) =
              clear j (omega (arith, length-set s.crew k r.1))
                (sym (ap (λ (x : Worker A). x.phase) o) ∙ fin) in
            (ap (λ (x : Worker A). x.hand) o ∙ hand, omega (arith, fewer j))
      ])

  run-Emptied :
      (n : ℕ) (r : Round) (s : World A)
      → 0 < n
      → s.mode ≡ bulk n
      → s.pool.shutdown_policy ≡ true
      → IsStopped s
      → Emptied s
      → Emptied (run s (works r))
  unfolding run
  run-Emptied n [] s pos mode graceful v clear = clear
  run-Emptied n ((k, timeout) ∷ r) s pos mode graceful v clear =
      let s1 = happen s (work k timeout) in
      let a = work-Ran s k timeout v in
      let next : Emptied s1 = elim (dec_lt k (length s.crew)) [
        | yes lt ↦ work-Emptied n s k timeout pos mode graceful v lt clear
        | no past ↦ subst Emptied (sym (nobody_works s k timeout (omega arith))) clear
      ] in
      run-Emptied n r s1 pos (a.mode_same ∙ mode) (a.same.1 ∙ graceful) a.ok next

  run_rounds-Emptied :
      (n : ℕ) (rs : List Round) (s : World A)
      → 0 < n
      → s.mode ≡ bulk n
      → s.pool.shutdown_policy ≡ true
      → IsStopped s
      → Emptied s
      → Emptied (run_rounds s rs)
  unfolding run_rounds
  run_rounds-Emptied n [] s pos mode graceful v clear = clear
  run_rounds-Emptied n (r ∷ rs) s pos mode graceful v clear =
      let a = run-Ran s r v in
      run_rounds-Emptied n rs (run s (works r)) pos (a.mode_same ∙ mode) (a.same.1 ∙ graceful) a.ok
        (run-Emptied n r s pos mode graceful v clear)

  -- Once all queues have been stopped, with the policy to wait, in batches, nothing more is submitted
  -- and no worker has left its loop before: after as many full rounds as there is work left, and one
  -- more, every worker has left with an empty hand, and the tasks that were executed are those that
  -- were ever accepted, each as often.
  pub run_rounds-executes :
      (n : ℕ) (rs : List Round) (s : World A)
      → 0 < n
      → s.mode ≡ bulk n
      → s.pool.shutdown_policy ≡ true
      → IsStopped s
      → ((k : ℕ) → k < length s.crew → (worker_at s k).phase ≢ finished)
      → AllFull (length s.crew) rs
      → work_left s < length rs
      → let s' = run_rounds s rs in
        AllIdle s'
        × ((c : Option A → Bool) → count_if c s'.executed ≡ count_if c (map some s.accepted))
  run_rounds-executes n rs s pos mode graceful v going full enough =
      let s' = run_rounds s rs in
      let (ran, idle) = rounds_end rs s v full enough in
      let clear : Emptied s' =
        run_rounds-Emptied n rs s pos mode graceful v (λ k lt fin. absurd (going k lt fin)) in
      let hands : (c : Option A → Bool) → total (λ (w : Worker A). count_if c w.hand) s'.crew ≡ 0 =
        λ c.
          total_zero (λ (w : Worker A). count_if c w.hand) s'.crew nobody
            (λ k lt. ap (count_if c) (idle k lt).1) in
      let queues : (c : Option A → Bool) → tally c s'.pool ≡ 0 = λ c.
        total_zero (queued c) s'.pool.queues BlockQueue.new (λ k lt.
          let inside : k < length s'.crew = omega (arith, ran.ok.sound.manned) in
          let (hand, empty) = clear k inside (idle k inside).0 in
          omega (
            arith,
            empty,
            count_if-le c (held (queue_at s'.pool k)),
            count_all (held (queue_at s'.pool k)),
          )) in
      (
        idle,
        λ c.
            let same = ap (λ xs. count_if c (map some xs)) ran.accepted_same in
            omega (arith, ran.ok.sound.balance c, hands c, queues c, same),
      )
