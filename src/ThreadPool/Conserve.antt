-- ===== src/ThreadPool/Conserve.antt =====
-- Every accepted task is executed once: what any interleaving of the workers, of submissions and of
-- `exit` leaves true.
use spsock.Prelude.{
  ℕ, suc, ◌+◌, ◌≤◌, ◌<◌, ◌≡◌, refl, sym, ap, ◌∙◌, inl, inr, List, [], ◌∷◌, ◌++◌, map, Option, none,
  some, Bool, true, false, ◌||◌, arith, ltb, length, get_or, take, length-set, set_past, count_if,
  count_if-append, total, total-set, Bool-cases, if◌then◌else◌,
}
use mathlib.Core.List.{map-append}
use native.Mathlib.Decide.{dec_lt}
use spsock.BlockQueue
use spsock.BlockQueue.{Queue, stop_wait}
use spsock.BlockQueue.Ring
use spsock.ThreadPool.{ThreadPool, queue_at, append, append_bulk}
use spsock.ThreadPool.Tally.{IsValid, tally, replaced-IsValid, tally-replaced}
use spsock.ThreadPool.Submit.{worth, append-Took, append_bulk-TookMany}
use spsock.ThreadPool.Workers.{
  Mode, Phase, alone, own, looking, taking, waiting, stopping, draining, finished, Worker, fresh,
  other, now_at, grab, grab_wait, turn, move, act, World, Event, work, submit, submit_bulk, policy,
  stop, happen, run,
}
use spsock.ThreadPool.Removal.{
  TakesIfAny, Keeps, turn-Keeps, grab_at-Keeps, grab_wait-Takes, grab_for-Takes,
}

module _ {ℓ} {A : Type ℓ} where
  pub move-Keeps :
      (mode : Mode) (k : ℕ) (timeout : Bool) (ph : Phase) (w : Worker A) (p : ThreadPool A)
      → IsValid p
      → w.hand ≡ []
      → k < length p.queues
      → Keeps w p (move mode k timeout ph w p)
  unfolding move
  move-Keeps mode k timeout alone w p v e lt =
      given (grab_wait mode (queue_at p k)) (grab_wait-Takes mode (queue_at p k) (v.each k lt))
    where
      given :
          (r : Option (List (Option A) × Queue A))
          → TakesIfAny (queue_at p k) r
          → Keeps w p (elim r [ none ↦ (w, p) | some r' ↦ turn alone draining w.start k r' w p ])
      given none h = (v, refl, λ c. refl)
      given (some r) h = turn-Keeps alone draining w.start k r w p v e lt h
  move-Keeps mode k timeout own w p v e lt = grab_at-Keeps mode own (looking 0) w.start k w p v e
  move-Keeps mode k timeout (looking i) w p v e lt = (v, refl, λ c. refl)
  move-Keeps mode k timeout (taking i) w p v e lt =
      grab_at-Keeps mode own (looking (suc i)) (now_at p w i) (other k (now_at p w i)) w p v e
  move-Keeps mode k timeout waiting w p v e lt =
      elim (Bool-cases (BlockQueue.ready (queue_at p k) || timeout)) [
        | inl over ↦ rw over (
            turn-Keeps own stopping w.start k _ w p v e lt
              (grab_for-Takes mode (BlockQueue.ready (queue_at p k)) (queue_at p k) (v.each k lt)))
        | inr going ↦ rw going (v, refl, λ c. refl)
      ]
  move-Keeps mode k timeout stopping w p v e lt = (v, refl, λ c. refl)
  move-Keeps mode k timeout draining w p v e lt = either p.shutdown_policy
    where
      either :
          (graceful : Bool)
          → Keeps w p (
              if graceful
              then turn draining finished w.start k (grab mode (queue_at p k)) w p
              else (record w { phase = finished }, p))
      either true = grab_at-Keeps mode draining finished w.start k w p v e
      either false = (v, refl, λ c. refl)
  move-Keeps mode k timeout finished w p v e lt = (v, refl, λ c. refl)

  -- A step of a worker, with what it has executed.
  abbrev pub Does : Worker A → ThreadPool A → List (Option A) × Worker A × ThreadPool A → Type ℓ
  Does w p (done, w', p') =
      IsValid p'
      × (length p'.queues ≡ length p.queues)
      × ((c : Option A → Bool)
          → tally c p' + count_if c w'.hand + count_if c done ≡ tally c p + count_if c w.hand)

  pub act-Does :
      (mode : Mode) (k : ℕ) (timeout : Bool) (hand : List (Option A)) (w : Worker A)
      (p : ThreadPool A)
      → IsValid p
      → w.hand ≡ hand
      → k < length p.queues
      → Does w p (act mode k timeout hand w p)
  unfolding act
  act-Does mode k timeout (a ∷ hand) w p v e lt = (v, refl, λ c. omega (arith, ap (count_if c) e))
  act-Does mode k timeout [] w p v e lt =
      let (good, len, keeps) = move-Keeps mode k timeout w.phase w p v e lt in
      (good, len, λ c. omega (arith, keeps c))

  -- In a sound world every worker has a queue, and of the accepted tasks each stands in a queue, is
  -- in the hand of a worker or has been executed, once.
  pub record IsSound (s : World A) : Type ℓ where
    pub pool_ok : IsValid s.pool
    pub manned : length s.crew ≡ length s.pool.queues
    pub balance :
        (c : Option A → Bool)
        → tally c s.pool
            + total (λ (w : Worker A). count_if c w.hand) s.crew
            + count_if c s.executed
          ≡ count_if c (map some s.accepted)

  pub work-IsSound :
      (s : World A) (k : ℕ) (timeout : Bool)
      → IsSound s
      → k < length s.crew
      → IsSound (happen s (work k timeout))
  unfolding happen
  work-IsSound s k timeout v lt =
      let w : Worker A = get_or s.crew k (fresh s.pool) in
      let (good, len, does) =
        act-Does s.mode k timeout w.hand w s.pool v.pool_ok refl (omega (arith, v.manned)) in
      let w' : Worker A = (act s.mode k timeout w.hand w s.pool).1 in
      let done : List (Option A) = (act s.mode k timeout w.hand w s.pool).0 in
      let here : ltb k (length s.crew) ≡ true = ground arith in
      rw here (record {
        pool_ok = good;
        manned = length-set s.crew k w' ∙ v.manned ∙ sym len;
        balance = λ c. omega (
          arith,
          v.balance c,
          does c,
          count_if-append c s.executed done,
          total-set (λ (x : Worker A). count_if c x.hand) s.crew k w' (fresh s.pool) lt,
        );
      })

  -- There is no such worker.
  nobody-IsSound :
      (s : World A) (k : ℕ) (timeout : Bool)
      → IsSound s
      → length s.crew ≤ k
      → IsSound (happen s (work k timeout))
  unfolding happen
  nobody-IsSound s k timeout v past =
      let away : ltb k (length s.crew) ≡ false = ground arith in rw away v

  submitted :
      (s : World A) (p : ThreadPool A) (new : List A)
      → IsSound s
      → IsValid p
      → length p.queues ≡ length s.pool.queues
      → ((c : Option A → Bool) → tally c p ≡ tally c s.pool + count_if c (map some new))
      → IsSound (record s { pool = p; accepted = s.accepted ++ new })
  submitted s p new v good len adds = record {
    pool_ok = good;
    manned = v.manned ∙ sym len;
    balance = λ c. omega (
      arith,
      v.balance c,
      adds c,
      ap (count_if c) (map-append some s.accepted new),
      count_if-append c (map some s.accepted) (map some new),
    );
  }

  submit-IsSound : (s : World A) (a : A) → IsSound s → IsSound (happen s (submit a))
  unfolding happen
  submit-IsSound s a v =
      let (good, len, adds) = append-Took a s.pool v.pool_ok in
      let ok : Bool = (append a s.pool).0 in
      submitted s (append a s.pool).1 (if ok then a ∷ [] else []) v good len
        (λ c. adds c ∙ ap (◌+◌ (tally c s.pool)) (one_or_none c ok))
    where
      one_or_none :
          (c : Option A → Bool) (ok : Bool)
          → worth c a ok ≡ count_if c (map some (if ok then a ∷ [] else []))
      one_or_none c true = refl
      one_or_none c false = refl

  submit_bulk-IsSound :
      (s : World A) (xs : List A) → IsSound s → IsSound (happen s (submit_bulk xs))
  unfolding happen
  submit_bulk-IsSound s xs v =
      let (good, len, few, adds) = append_bulk-TookMany xs s.pool v.pool_ok in
      submitted s (append_bulk xs s.pool).1 (take (append_bulk xs s.pool).0 xs) v good len adds

  policy-IsSound : (s : World A) (b : Bool) → IsSound s → IsSound (happen s (policy b))
  unfolding happen
  policy-IsSound s b v = record {
    pool_ok = record {
      sized = v.pool_ok.sized;
      some_queue = v.pool_ok.some_queue;
      small = v.pool_ok.small;
      each = v.pool_ok.each;
    };
    manned = v.manned;
    balance = v.balance;
  }

  stop-IsSound : (s : World A) (i : ℕ) → IsSound s → IsSound (happen s (stop i))
  unfolding happen stop_wait
  stop-IsSound s i v = elim (dec_lt i (length s.pool.queues)) [
    | no past ↦
        rw
          (set_past s.pool.queues i (record (queue_at s.pool i) { is_stopped = true })
            (omega arith))
          v
    | yes lt ↦
        let old : Queue A = queue_at s.pool i in
        let q : Queue A = record old { is_stopped = true } in
        let u = v.pool_ok.each i lt in
        let good : Ring.IsValid q = record {
          sized = u.sized;
          small = u.small;
          head_in = u.head_in;
          fits = u.fits;
          ends = u.ends;
        } in
        record {
          pool_ok = replaced-IsValid s.pool i q v.pool_ok lt good;
          manned = v.manned ∙ sym (length-set s.pool.queues i q);
          balance = λ c. omega (arith, v.balance c, tally-replaced c s.pool i q lt);
        }
  ]

  -- Whatever happens next in a sound world, it is sound afterwards.
  pub happen-IsSound : (s : World A) (e : Event A) → IsSound s → IsSound (happen s e)
  happen-IsSound s (work k timeout) v = elim (dec_lt k (length s.crew)) [
    | yes lt ↦ work-IsSound s k timeout v lt
    | no past ↦ nobody-IsSound s k timeout v (omega arith)
  ]
  happen-IsSound s (submit a) v = submit-IsSound s a v
  happen-IsSound s (submit_bulk xs) v = submit_bulk-IsSound s xs v
  happen-IsSound s (policy b) v = policy-IsSound s b v
  happen-IsSound s (stop i) v = stop-IsSound s i v

  -- From a sound world, after any sequence of steps of the workers, submissions and the steps of
  -- `exit` before its joins, in any order: every worker still has a queue, the queues are in good order,
  -- and of the tasks that were accepted each is queued, in the hand of one worker or executed, as often
  -- as it was accepted.
  pub run-IsSound : (s : World A) (es : List (Event A)) → IsSound s → IsSound (run s es)
  unfolding run
  run-IsSound s [] v = v
  run-IsSound s (e ∷ es) v = run-IsSound (happen s e) es (happen-IsSound s e v)
