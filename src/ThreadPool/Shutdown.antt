-- ===== src/ThreadPool/Shutdown.antt =====
-- What is left to do in a pool whose queues have all been stopped: every step takes some of it away.
use spsock.Prelude.{
  ℕ, zero, suc, ◌+◌, ◌-◌, ◌*◌, ◌≤◌, ◌<◌, ◌≡◌, ◌≢◌, refl, sym, ap, ◌∙◌, ◌⊎◌, inl, inr, List, [], ◌∷◌,
  ◌++◌, Option, Bool, true, arith, ltb, length, get_or, set, length-set, get_or-set_ne, set-get_or,
  count_if, count_all, total, total-set,
}
use mathlib.Core.Path.{subst}
use spsock.ThreadPool.{ThreadPool}
use spsock.ThreadPool.Tally.{IsValid, tally}
use spsock.ThreadPool.Workers.{
  Mode, Phase, alone, own, looking, taking, waiting, stopping, draining, finished, Worker, World,
  work, happen, fresh, turn, move, act,
}
use spsock.ThreadPool.Conserve.{IsSound, move-Keeps, work-IsSound}
use spsock.ThreadPool.Ending.{stages, AllStopped, move-Advances}

-- Each of `n` tasks that leave the queues saves a whole turn.
spend : (k a b n : ℕ) → a + n ≡ b → k * a + k * n ≡ k * b
spend k a b n e = grind arith

spend_some : (t n : ℕ) → 0 < n → 2 * t + 6 + n ≤ (2 * t + 8) * n
spend_some t zero pos = elim pos [ ]
spend_some t (suc zero) pos = omega arith
spend_some t (suc (suc n)) pos = grind (arith, spend_some t (suc n))

pub is_finished : (ph : Phase) → (ph ≡ finished) ⊎ (ph ≢ finished)
is_finished finished = inl refl
is_finished alone = inr (λ e. absurd (ground (arith, ap (stages 0) e)))
is_finished own = inr (λ e. absurd (ground (arith, ap (stages 0) e)))
is_finished (looking i) = inr (λ e. absurd (ground (arith, ap (stages 0) e)))
is_finished (taking i) = inr (λ e. absurd (ground (arith, ap (stages 0) e)))
is_finished waiting = inr (λ e. absurd (ground (arith, ap (stages 0) e)))
is_finished stopping = inr (λ e. absurd (ground (arith, ap (stages 0) e)))
is_finished draining = inr (λ e. absurd (ground (arith, ap (stages 0) e)))

module _ {ℓ} {A : Type ℓ} where
  abbrev pub IsIdle : Worker A → Type ℓ
  IsIdle w = (w.phase ≡ finished) × (w.hand ≡ [])

  -- What a worker has left to do, counting no task that it may still take.
  abbrev pub weight : ℕ → Worker A → ℕ
  weight t w = stages t w.phase + length w.hand

  -- The same of the pool: a queued task may cost a whole turn of the loop.
  abbrev pub cost : ℕ → ThreadPool A → ℕ
  cost t p = (2 * t + 8) * tally (λ a. true) p

  -- Two pools with the same number of threads and the same policy.
  abbrev pub Same : ThreadPool A → ThreadPool A → Type 0
  Same p p' = (p'.thread_num ≡ p.thread_num) × (p'.shutdown_policy ≡ p.shutdown_policy)

  move-Same :
      (mode : Mode) (k : ℕ) (timeout : Bool) (ph : Phase) (w : Worker A) (p : ThreadPool A)
      → Same p (move mode k timeout ph w p).1
  unfolding move turn
  move-Same mode k timeout alone w p = (ground arith, ground arith)
  move-Same mode k timeout own w p = (refl, refl)
  move-Same mode k timeout (looking i) w p = (refl, refl)
  move-Same mode k timeout (taking i) w p = (refl, refl)
  move-Same mode k timeout waiting w p = (ground arith, ground arith)
  move-Same mode k timeout stopping w p = (refl, refl)
  move-Same mode k timeout draining w p = (ground arith, ground arith)
  move-Same mode k timeout finished w p = (refl, refl)

  -- A step of worker `k`: it is idle and nothing changes, or there is less to do than before.
  abbrev pub Spends : ℕ → Worker A → ThreadPool A → Worker A × ThreadPool A → Type ℓ
  Spends t w p (w', p') =
      AllStopped p'
      × Same p p'
      × ((IsIdle w × (w' ≡ w) × (p' ≡ p))
          ⊎ ((¬ IsIdle w) × (cost t p' + weight t w' < cost t p + weight t w)))

  move-Spends :
      (mode : Mode) (k : ℕ) (timeout : Bool) (w : Worker A) (p : ThreadPool A)
      → IsValid p
      → AllStopped p
      → w.hand ≡ []
      → k < length p.queues
      → w.phase ≢ finished
      → Spends (p.thread_num - 1) w p (move mode k timeout w.phase w p)
  move-Spends mode k timeout w p v stopped e lt going =
      let t : ℕ = p.thread_num - 1 in
      let r = move mode k timeout w.phase w p in
      let (good, len, keeps) = move-Keeps mode k timeout w.phase w p v e lt in
      let (still, nearer) = move-Advances mode k timeout w.phase w p stopped e lt going in
      let n : ℕ = length r.0.hand in
      let all : Option A → Bool = λ a. true in
      let moved : tally all r.1 + n ≡ tally all p =
        omega (arith, keeps all, count_all r.0.hand, ap (count_if all) e) in
      let s = spend (2 * t + 8) (tally all r.1) (tally all p) n moved in
      (
        still,
        move-Same mode k timeout w.phase w p,
        inr (
          (λ i. going i.0),
          elim nearer [
            | inl (some_taken, few) ↦ omega (arith, s, spend_some t n some_taken)
            | inr (none_taken, before) ↦
                omega (arith, s, ap (λ j. (2 * t + 8) * j) none_taken, ap length e)
          ],
        ),
      )

  pub act-Spends :
      (mode : Mode) (k : ℕ) (timeout : Bool) (hand : List (Option A)) (w : Worker A)
      (p : ThreadPool A)
      → IsValid p
      → AllStopped p
      → w.hand ≡ hand
      → k < length p.queues
      → let (done, w', p') = act mode k timeout hand w p in Spends (p.thread_num - 1) w p (w', p')
  unfolding act
  act-Spends mode k timeout (a ∷ hand) w p v stopped e lt =
      (stopped, (refl, refl), inr ((λ i. absurd (cc (e, i.1))), omega (arith, ap length e)))
  act-Spends mode k timeout [] w p v stopped e lt = elim (is_finished w.phase) [
    | inr going ↦ move-Spends mode k timeout w p v stopped e lt going
    | inl f ↦
        let over : move mode k timeout w.phase w p ≡ (w, p) =
          unfold move in ap (λ ph. move mode k timeout ph w p) f in
        subst (Spends (p.thread_num - 1) w p) (sym over)
          (stopped, (refl, refl), inl ((f, e), refl, refl))
  ]

  -- What is left to do in a world.
  abbrev pub work_left : World A → ℕ
  work_left s = let t = s.pool.thread_num - 1 in cost t s.pool + total (weight t) s.crew

  -- A sound world whose queues have all been stopped.
  pub record IsStopped (s : World A) : Type ℓ where
    pub sound : IsSound s
    pub stopped : AllStopped s.pool

  -- Worker `k`, or an idle one if there is none.
  abbrev pub nobody : Worker A
  nobody = record { phase = finished; start = 0; hand = [] }

  abbrev pub worker_at : World A → ℕ → Worker A
  worker_at s k = get_or s.crew k nobody

  pub get_or_any :
      (xs : List (Worker A)) (i : ℕ) (d d' : Worker A)
      → i < length xs
      → get_or xs i d ≡ get_or xs i d'
  get_or_any [] i d d' h = absurd (omega arith)
  get_or_any (x ∷ xs) zero d d' h = refl
  get_or_any (x ∷ xs) (suc i) d d' h = get_or_any xs i d d' (omega arith)

  -- What a step of worker `k` does to the world.
  pub record Steps (s s' : World A) (k : ℕ) : Type ℓ where
    pub ok : IsStopped s'
    pub same : Same s.pool s'.pool
    pub crew_size : length s'.crew ≡ length s.crew
    pub mode_same : s'.mode ≡ s.mode
    pub accepted_same : s'.accepted ≡ s.accepted
    pub others : (j : ℕ) → k ≢ j → worker_at s' j ≡ worker_at s j
    pub spends :
        (IsIdle (worker_at s k) × (s'.crew ≡ s.crew) × (s'.pool ≡ s.pool))
        ⊎ ((¬ IsIdle (worker_at s k)) × (work_left s' < work_left s))

  pub work-Steps :
      (s : World A) (k : ℕ) (timeout : Bool)
      → IsStopped s
      → k < length s.crew
      → Steps s (happen s (work k timeout)) k
  unfolding happen
  work-Steps s k timeout v lt =
      let w : Worker A = get_or s.crew k (fresh s.pool) in
      let e : w ≡ worker_at s k = get_or_any s.crew k (fresh s.pool) nobody lt in
      let r = act s.mode k timeout w.hand w s.pool in
      let here : ltb k (length s.crew) ≡ true = ground arith in
      let (stopped, same, spends) =
        act-Spends s.mode k timeout w.hand w s.pool v.sound.pool_ok v.stopped refl
          (omega (arith, v.sound.manned)) in
      let next : World A = record s {
        pool = r.2;
        crew = set s.crew k r.1;
        executed = s.executed ++ r.0;
      } in
      let eq : happen s (work k timeout) ≡ next = rw here refl in
      let t : ℕ = s.pool.thread_num - 1 in
      let left : work_left next ≡ cost t r.2 + total (weight t) next.crew =
        ap (λ n. cost (n - 1) r.2 + total (weight (n - 1)) next.crew) same.0 in
      let exchanged = total-set (weight t) s.crew k r.1 (fresh s.pool) lt in
      subst (λ x. Steps s x k) (sym eq)
        (record {
          ok = record {
            sound = subst IsSound eq (work-IsSound s k timeout v.sound lt);
            stopped = stopped;
          };
          same = same;
          crew_size = length-set s.crew k r.1;
          mode_same = refl;
          accepted_same = refl;
          others = λ j ne. get_or-set_ne s.crew k j r.1 nobody ne;
          spends = elim spends [
            | inr (busy, less) ↦
                inr ((λ i. busy (subst IsIdle (sym e) i)), omega (arith, left, exchanged))
            | inl (idle, w_same, p_same) ↦ inl (
              subst IsIdle e idle,
              ap (set s.crew k) w_same ∙ set-get_or s.crew k (fresh s.pool),
              p_same,
            )
          ];
        })
