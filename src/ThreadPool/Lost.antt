-- ===== src/ThreadPool/Lost.antt =====
-- A stop that finds the workers of a pool that takes single tasks between their timed wait and the look
-- at `isStopped` behind it: `process_single` returns there, past its last loop.
use spsock.Prelude.{
  ℕ, ◌<◌, ◌≡◌, refl, sym, ap, ◌∙◌, ◌⊎◌, inl, inr, List, [], ◌∷◌, ◌++◌, append-nil, Option, Bool,
  true, arith, ltb, length, get_or, set, get_or-set_self, get_or-set_ne, length-set,
}
use mathlib.Core.Path.{subst}
use native.Mathlib.Decide.{dec_lt, ℕ_discrete}
use spsock.ThreadPool.{ThreadPool, queue_at}
use spsock.ThreadPool.Workers.{
  single, stopping, finished, Worker, World, work, happen, run, fresh, move, act,
}
use spsock.ThreadPool.Shutdown.{work_left, IsStopped, worker_at, nobody, get_or_any}
use spsock.ThreadPool.Ending.{AllStopped}
use spsock.ThreadPool.Finish.{
  Round, AllFull, works, run_rounds, AllIdle, nobody_works, work-Ran, run-Ran, rounds_end,
}

module _ {ℓ} {A : Type ℓ} where
  -- A worker that has found nothing in its timed wait, or has left.
  abbrev pub IsLeaving : Worker A → Type ℓ
  IsLeaving w = ((w.phase ≡ stopping) ⊎ (w.phase ≡ finished)) × (w.hand ≡ [])

  abbrev pub AllLeaving : World A → Type ℓ
  AllLeaving s = (k : ℕ) → k < length s.crew → IsLeaving (worker_at s k)

  -- What such workers leave as it is.
  abbrev Leaves : World A → World A → Type ℓ
  Leaves s s' = AllLeaving s' × (s'.mode ≡ s.mode) × (s'.pool ≡ s.pool) × (s'.executed ≡ s.executed)

  act-leaves :
      (k : ℕ) (timeout : Bool) (hand : List (Option A)) (w : Worker A) (p : ThreadPool A)
      → (queue_at p k).is_stopped ≡ true
      → w.hand ≡ hand
      → IsLeaving w
      → let (done, w', p') = act single k timeout hand w p in (done ≡ []) × IsLeaving w' × (p' ≡ p)
  unfolding act
  act-leaves k timeout (a ∷ hand) w p stopped e (ph, none_there) = absurd (cc (e, none_there))
  act-leaves k timeout [] w p stopped e (inl f, none_there) =
      let over : move single k timeout w.phase w p ≡ (record w { phase = finished }, p) =
        ap (λ ph. move single k timeout ph w p) f ∙ (unfold move in rw stopped refl) in
      (
        refl,
        subst (λ (r : Worker A × ThreadPool A). IsLeaving r.0) (sym over) (inr refl, none_there),
        ap (λ (r : Worker A × ThreadPool A). r.1) over,
      )
  act-leaves k timeout [] w p stopped e (inr f, none_there) =
      let over : move single k timeout w.phase w p ≡ (w, p) =
        unfold move in ap (λ ph. move single k timeout ph w p) f in
      (
        refl,
        subst (λ (r : Worker A × ThreadPool A). IsLeaving r.0) (sym over) (inr f, none_there),
        ap (λ (r : Worker A × ThreadPool A). r.1) over,
      )

  work-Leaves :
      (s : World A) (k : ℕ) (timeout : Bool)
      → s.mode ≡ single
      → AllStopped s.pool
      → length s.crew ≡ length s.pool.queues
      → k < length s.crew
      → AllLeaving s
      → Leaves s (happen s (work k timeout))
  unfolding happen
  work-Leaves s k timeout mode stopped manned lt leaving =
      let w : Worker A = get_or s.crew k (fresh s.pool) in
      let e : w ≡ worker_at s k = get_or_any s.crew k (fresh s.pool) nobody lt in
      let r = act s.mode k timeout w.hand w s.pool in
      let here : ltb k (length s.crew) ≡ true = ground arith in
      let next : World A = record s {
        pool = r.2;
        crew = set s.crew k r.1;
        executed = s.executed ++ r.0;
      } in
      let eq : happen s (work k timeout) ≡ next = rw here refl in
      let (done, left, same) : (r.0 ≡ []) × IsLeaving r.1 × (r.2 ≡ s.pool) =
        subst
          (λ m.
            let (done, w', p') = act m k timeout w.hand w s.pool in
            (done ≡ []) × IsLeaving w' × (p' ≡ s.pool))
          (sym mode)
          (act-leaves k timeout w.hand w s.pool (stopped k (omega (arith, manned))) refl
            (subst IsLeaving (sym e) (leaving k lt))) in
      let at : worker_at next k ≡ r.1 = get_or-set_self s.crew k r.1 nobody lt in
      subst (Leaves s) (sym eq) (
        (λ j inside. elim (ℕ_discrete k j) [
          | yes e' ↦ subst (λ i. IsLeaving (worker_at next i)) e' (subst IsLeaving (sym at) left)
          | no ne ↦
              subst IsLeaving (sym (get_or-set_ne s.crew k j r.1 nobody ne))
                (leaving j (omega (arith, length-set s.crew k r.1)))
        ]),
        refl,
        same,
        ap (◌++◌ s.executed) done ∙ append-nil s.executed,
      )

  Leaves-trans : (s s1 s2 : World A) → Leaves s s1 → Leaves s1 s2 → Leaves s s2
  Leaves-trans s s1 s2 (a, m, p, x) (a', m', p', x') = (a', m' ∙ m, p' ∙ p, x' ∙ x)

  run-Leaves :
      (r : Round) (s : World A)
      → s.mode ≡ single
      → IsStopped s
      → AllLeaving s
      → Leaves s (run s (works r))
  unfolding run
  run-Leaves [] s mode v leaving = (leaving, refl, refl, refl)
  run-Leaves ((k, timeout) ∷ r) s mode v leaving =
      let s1 = happen s (work k timeout) in
      let a : Leaves s s1 = elim (dec_lt k (length s.crew)) [
        | yes lt ↦ work-Leaves s k timeout mode v.stopped v.sound.manned lt leaving
        | no past ↦
            subst (Leaves s) (sym (nobody_works s k timeout (omega arith)))
              (leaving, refl, refl, refl)
      ] in
      Leaves-trans s s1 (run s1 (works r)) a
        (run-Leaves r s1 (a.1 ∙ mode) (work-Ran s k timeout v).ok a.0)

  run_rounds-Leaves :
      (rs : List Round) (s : World A)
      → s.mode ≡ single
      → IsStopped s
      → AllLeaving s
      → Leaves s (run_rounds s rs)
  unfolding run_rounds
  run_rounds-Leaves [] s mode v leaving = (leaving, refl, refl, refl)
  run_rounds-Leaves (r ∷ rs) s mode v leaving =
      let a = run-Leaves r s mode v leaving in
      Leaves-trans s (run s (works r)) (run_rounds (run s (works r)) rs) a
        (run_rounds-Leaves rs (run s (works r)) (a.1 ∙ mode) (run-Ran s r v).ok a.0)

  -- In a pool that takes single tasks, if a stop finds every worker behind a timed wait that gave it
  -- nothing, or gone, then whatever stands in the queues by now is never executed, also with the policy
  -- to wait: after enough full rounds all workers have left, what has been executed is what had been,
  -- and the queues are as they were.
  pub single_stop_loses :
      (rs : List Round) (s : World A)
      → s.mode ≡ single
      → IsStopped s
      → AllLeaving s
      → AllFull (length s.crew) rs
      → work_left s < length rs
      → let s' = run_rounds s rs in AllIdle s' × (s'.executed ≡ s.executed) × (s'.pool ≡ s.pool)
  single_stop_loses rs s mode v leaving full enough =
      let (ran, idle) = rounds_end rs s v full enough in
      let (a, m, p, x) = run_rounds-Leaves rs s mode v leaving in (idle, x, p)
