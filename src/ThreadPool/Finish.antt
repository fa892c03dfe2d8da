-- ===== src/ThreadPool/Finish.antt =====
-- A pool whose queues have all been stopped comes to its end, however its workers take turns.
use spsock.Prelude.{
  ℕ, zero, suc, ◌≤◌, ◌<◌, ◌≡◌, refl, sym, ap, ap₂, total, ◌+◌, ◌-◌, ◌∙◌, ◌⊎◌, inl, inr, List, [],
  ◌∷◌, Option, Bool, false, arith, ltb, length, get_or,
}
use mathlib.Core.Path.{subst}
use native.Mathlib.Decide.{dec_lt, ℕ_discrete}
use spsock.ThreadPool.{ThreadPool}
use spsock.ThreadPool.Workers.{Worker, World, Event, work, happen, run, finished}
use spsock.ThreadPool.Shutdown.{
  IsIdle, Same, weight, cost, work_left, IsStopped, worker_at, nobody, Steps, work-Steps,
  is_finished,
}

-- One turn of some workers, in any order, with what becomes of their timed waits.
abbrev pub Round : Type 0
Round = List (ℕ × Bool)

abbrev pub Has : ℕ → Round → Type 0
Has k [] = ⊥
Has k ((j, timeout) ∷ r) = (j ≡ k) ⊎ Has k r

-- Every one of `n` workers has its turn in every round.
abbrev pub AllFull : ℕ → List Round → Type 0
AllFull n [] = Unit
AllFull n (r ∷ rs) = ((k : ℕ) → k < n → Has k r) × AllFull n rs

module _ {ℓ} {A : Type ℓ} where
  abbrev pub works : Round → List (Event A)
  works [] = []
  works ((k, timeout) ∷ r) = work k timeout ∷ works r

  unfoldable pub run_rounds : World A → List Round → World A
  run_rounds s [] = s
  run_rounds s (r ∷ rs) = run_rounds (run s (works r)) rs

  abbrev pub AllIdle : World A → Type ℓ
  AllIdle s = (k : ℕ) → k < length s.crew → IsIdle (worker_at s k)

  -- What a run without submissions leaves as it was.
  pub record Ran (s s' : World A) : Type ℓ where
    pub ok : IsStopped s'
    pub same : Same s.pool s'.pool
    pub crew_size : length s'.crew ≡ length s.crew
    pub mode_same : s'.mode ≡ s.mode
    pub accepted_same : s'.accepted ≡ s.accepted
    pub less : work_left s' ≤ work_left s
    pub idle : AllIdle s → AllIdle s'

  Ran-refl : (s : World A) → IsStopped s → Ran s s
  Ran-refl s v = record {
    ok = v;
    same = (refl, refl);
    crew_size = refl;
    mode_same = refl;
    accepted_same = refl;
    less = omega arith;
    idle = λ h. h;
  }

  Ran-trans : (s s1 s2 : World A) → Ran s s1 → Ran s1 s2 → Ran s s2
  Ran-trans s s1 s2 a b = record {
    ok = b.ok;
    same = (b.same.0 ∙ a.same.0, b.same.1 ∙ a.same.1);
    crew_size = b.crew_size ∙ a.crew_size;
    mode_same = b.mode_same ∙ a.mode_same;
    accepted_same = b.accepted_same ∙ a.accepted_same;
    less = omega (arith, a.less, b.less);
    idle = λ h. b.idle (a.idle h);
  }

  same_crew : (s s' : World A) (k : ℕ) → s'.crew ≡ s.crew → worker_at s' k ≡ worker_at s k
  same_crew s s' k e = ap (λ c. get_or c k nobody) e

  Steps-Ran : (s s' : World A) (k : ℕ) → k < length s.crew → Steps s s' k → Ran s s'
  Steps-Ran s s' k lt st = record {
    ok = st.ok;
    same = st.same;
    crew_size = st.crew_size;
    mode_same = st.mode_same;
    accepted_same = st.accepted_same;
    less = elim st.spends [
      | inr (busy, less) ↦ omega arith
      | inl (idle, crew, pool) ↦
          let e : work_left s' ≡ work_left s =
            ap₂
              (λ c (p : ThreadPool A).
                cost (p.thread_num - 1) p + total (weight (p.thread_num - 1)) c)
              crew pool in
          omega (arith, e)
    ];
    idle = elim st.spends [
      | inr (busy, less) ↦ λ h. absurd (busy (h k lt))
      | inl (idle, crew, pool) ↦ λ h j inside.
          subst IsIdle (sym (same_crew s s' j crew)) (h j (omega (arith, st.crew_size)))
    ];
  }

  -- There is no such worker.
  pub nobody_works :
      (s : World A) (k : ℕ) (timeout : Bool) → length s.crew ≤ k → happen s (work k timeout) ≡ s
  unfolding happen
  nobody_works s k timeout past =
      let away : ltb k (length s.crew) ≡ false = ground arith in rw away refl

  pub work-Ran :
      (s : World A) (k : ℕ) (timeout : Bool) → IsStopped s → Ran s (happen s (work k timeout))
  work-Ran s k timeout v = elim (dec_lt k (length s.crew)) [
    | yes lt ↦ Steps-Ran s (happen s (work k timeout)) k lt (work-Steps s k timeout v lt)
    | no past ↦ subst (Ran s) (sym (nobody_works s k timeout (omega arith))) (Ran-refl s v)
  ]

  pub run-Ran : (s : World A) (r : Round) → IsStopped s → Ran s (run s (works r))
  unfolding run
  run-Ran s [] v = Ran-refl s v
  run-Ran s ((k, timeout) ∷ r) v =
      let a = work-Ran s k timeout v in
      Ran-trans s (happen s (work k timeout)) (run (happen s (work k timeout)) (works r)) a
        (run-Ran (happen s (work k timeout)) r a.ok)

  -- A worker that is not idle and has its turn makes the work that is left less.
  busy_round :
      (s : World A) (k : ℕ) (r : Round)
      → IsStopped s
      → k < length s.crew
      → ¬ IsIdle (worker_at s k)
      → Has k r
      → work_left (run s (works r)) < work_left s
  unfolding run
  busy_round s k [] v lt busy h = absurd h
  busy_round s k ((j, timeout) ∷ r) v lt busy h = elim (dec_lt j (length s.crew)) [
    | no past ↦ elim h [
      | inl e ↦ absurd (past (omega arith))
      | inr later ↦
          subst (λ x. work_left (run x (works r)) < work_left s)
            (sym (nobody_works s j timeout (omega arith))) (busy_round s k r v lt busy later)
    ]
    | yes inside ↦
        let s1 = happen s (work j timeout) in
        let st = work-Steps s j timeout v inside in
        let a = Steps-Ran s s1 j inside st in
        elim (ℕ_discrete j k) [
          | yes e ↦ elim st.spends [
            | inl (idle, crew, pool) ↦ absurd (busy (subst (λ i. IsIdle (worker_at s i)) e idle))
            | inr (b, less) ↦ omega (arith, (run-Ran s1 r a.ok).less)
          ]
          | no ne ↦ elim h [
            | inl e ↦ absurd (ne e)
            | inr later ↦
                let rest =
                  busy_round s1 k r a.ok (omega (arith, a.crew_size))
                    (λ i. busy (subst IsIdle (st.others k ne) i)) later in
                omega (arith, rest, a.less)
          ]
        ]
  ]

  busy_or_over : (w : Worker A) → IsIdle w ⊎ (¬ IsIdle w)
  busy_or_over w = elim (is_finished w.phase) [
    | inr going ↦ inr (λ i. going i.0)
    | inl over ↦ by_hand w.hand refl over
  ]
    where
      by_hand :
          (hand : List (Option A)) → w.hand ≡ hand → w.phase ≡ finished → IsIdle w ⊎ (¬ IsIdle w)
      by_hand [] e over = inl (over, e)
      by_hand (a ∷ hand) e over = inr (λ i. absurd (cc (e, i.1)))

  someone_busy :
      (s : World A) (n : ℕ)
      → ((k : ℕ) → k < n → IsIdle (worker_at s k))
        ⊎ ((k : ℕ) × (k < n) × (¬ IsIdle (worker_at s k)))
  someone_busy s zero = inl (λ k lt. absurd (omega arith))
  someone_busy s (suc n) = elim (someone_busy s n) [
    | inr (k, lt, busy) ↦ inr (k, omega arith, busy)
    | inl idle ↦ elim (busy_or_over (worker_at s n)) [
      | inr busy ↦ inr (n, omega arith, busy)
      | inl here ↦ inl (λ k lt. elim (ℕ_discrete k n) [
        | yes e ↦ subst (λ j. IsIdle (worker_at s j)) (sym e) here
        | no ne ↦ idle k (omega arith)
      ])
    ]
  ]

  run_rounds-Ran : (rs : List Round) (s : World A) → IsStopped s → Ran s (run_rounds s rs)
  unfolding run_rounds
  run_rounds-Ran [] s v = Ran-refl s v
  run_rounds-Ran (r ∷ rs) s v =
      let a = run-Ran s r v in
      Ran-trans s (run s (works r)) (run_rounds (run s (works r)) rs) a
        (run_rounds-Ran rs (run s (works r)) a.ok)

  -- Once all queues have been stopped and nothing more is submitted, as many rounds in which every
  -- worker has its turn as there is work left, and one more, bring every worker past its loop with an
  -- empty hand: in whatever order the workers have their turns, and whatever times run out.
  pub rounds_end :
      (rs : List Round) (s : World A)
      → IsStopped s
      → AllFull (length s.crew) rs
      → work_left s < length rs
      → Ran s (run_rounds s rs) × AllIdle (run_rounds s rs)
  unfolding run_rounds
  rounds_end [] s v full few = absurd (omega arith)
  rounds_end (r ∷ rs) s v (full, rest) few = elim (someone_busy s (length s.crew)) [
    | inl idle ↦ let all = run_rounds-Ran (r ∷ rs) s v in (all, all.idle idle)
    | inr (k, lt, busy) ↦
        let s1 = run s (works r) in
        let a = run-Ran s r v in
        let less = busy_round s k r v lt busy (full k lt) in
        let (b, idle) =
          rounds_end rs s1 a.ok (subst (λ n. AllFull n rs) (sym a.crew_size) rest) (omega arith) in
        (Ran-trans s s1 (run_rounds s1 rs) a b, idle)
  ]
