-- ===== src/ThreadPool/Drain.antt =====
-- Workers that take tasks in batches leave their loops with their queues empty, unless `exit` was told
-- not to wait: so every accepted task is executed.
use spsock.Prelude.{
  ℕ, suc, ◌≤◌, ◌<◌, ◌≡◌, ◌≢◌, refl, sym, ap, ◌∙◌, inl, inr, List, [], ◌∷◌, Option, Bool, true, ◌||◌,
  arith, length, get_or, set, set_past, get_or_past, get_or-set_self, get_or-set_ne,
  length-tabulate, count_all, Bool-cases, ◌==◌, if◌then◌else◌,
}
use mathlib.Core.Path.{subst}
use native.Mathlib.Decide.{dec_lt, ℕ_discrete}
use spsock.BlockQueue
use spsock.BlockQueue.{Queue}
use spsock.BlockQueue.Ring
use spsock.BlockQueue.Ring.{held}
use spsock.BlockQueue.Fifo.{pop_bulk_lem}
use spsock.ThreadPool.{ThreadPool, queue_at}
use spsock.ThreadPool.Tally.{IsValid, queued}
use spsock.ThreadPool.Removal.{grab_nothing, grab-Takes, grab_for-Takes, grab_wait_cases}
use spsock.ThreadPool.Workers.{
  Mode, bulk, Phase, alone, own, looking, taking, waiting, stopping, draining, finished, Worker,
  other, now_at, grab, grab_for, turn, move,
}

module _ {ℓ} {A : Type ℓ} where
  abbrev pub all : Option A → Bool
  all a = true

  -- How many tasks stand in the queue at `i`.
  abbrev pub filled : ThreadPool A → ℕ → ℕ
  filled p i = queued all (queue_at p i)

  -- A batch that comes back empty was taken from an empty queue.
  empty_batch :
      (n : ℕ) (q : Queue A)
      → 0 < n
      → Ring.IsValid q
      → length (grab (bulk n) q).0 ≡ 0
      → queued all (grab (bulk n) q).1 ≡ 0
  unfolding grab
  empty_batch n q pos v e =
      let (len, good, h) = pop_bulk_lem n q v in
      let takes = (grab-Takes (bulk n) q v).1 all in
      omega (arith, takes, count_all (held q), length-tabulate q.size (Ring.slot_at q))

  -- A step of worker `k`: no queue has more tasks than before, and if the worker has come past its loop
  -- its hand and its queue are empty.
  abbrev pub Drains : ℕ → ThreadPool A → Worker A × ThreadPool A → Type ℓ
  Drains k p (w', p') =
      ((i : ℕ) → filled p' i ≤ filled p i)
      × (w'.phase ≡ finished → (w'.hand ≡ []) × (filled p' k ≡ 0))

  set-filled :
      (p : ThreadPool A) (at : ℕ) (q : Queue A)
      → queued all q ≤ filled p at
      → (i : ℕ) → filled (record p { queues = set p.queues at q }) i ≤ filled p i
  set-filled p at q le i = elim (dec_lt at (length p.queues)) [
    | no past ↦
        let e = set_past p.queues at q (omega arith) in
        let same = ap (λ qs. queued all (get_or qs i BlockQueue.new)) e in omega (arith, same)
    | yes inside ↦ elim (ℕ_discrete at i) [
      | yes e ↦
          let same = ap (queued all) (get_or-set_self p.queues at q BlockQueue.new inside) in
          subst (λ j. filled (record p { queues = set p.queues at q }) j ≤ filled p j) e
            (omega (arith, same))
      | no ne ↦
          let same = ap (queued all) (get_or-set_ne p.queues at i q BlockQueue.new ne) in
          omega (arith, same)
    ]
  ]

  no_tasks : (xs : List (Option A)) → length xs ≡ 0 → xs ≡ []
  no_tasks [] e = refl
  no_tasks (x ∷ xs) e = absurd (omega arith)

  turn-Drains :
      (k : ℕ) (got lacking : Phase) (start at : ℕ) (r : List (Option A) × Queue A) (w : Worker A)
      (p : ThreadPool A)
      → k < length p.queues
      → queued all r.1 ≤ filled p at
      → got ≢ finished
      → (lacking ≡ finished → length r.0 ≡ 0 → (at ≡ k) × (queued all r.1 ≡ 0))
      → Drains k p (turn got lacking start at r w p)
  unfolding turn
  turn-Drains k got lacking start at (xs, q) w p lt le going last = (
    set-filled p at q le,
    λ fin. elim (Bool-cases (length xs == 0)) [
      | inr some_taken ↦
          absurd (going (sym (ap (λ b. if b then lacking else got) some_taken) ∙ fin))
      | inl none_taken ↦
          let z : length xs ≡ 0 = ground arith in
          let (here, empty) =
            last (sym (ap (λ b. if b then lacking else got) none_taken) ∙ fin) z in
          let same = ap (queued all) (get_or-set_self p.queues at q BlockQueue.new (omega arith)) in
          (
            no_tasks xs z,
            subst (λ j. filled (record p { queues = set p.queues at q }) j ≡ 0) here
                (omega (arith, same)),
          )
    ],
  )

  -- A removal leaves no more than there was, also where there is no queue.
  grab-le :
      (mode : Mode) (p : ThreadPool A) (at : ℕ)
      → IsValid p
      → queued all (grab mode (queue_at p at)).1 ≤ filled p at
  grab-le mode p at v = elim (dec_lt at (length p.queues)) [
    | yes inside ↦
        let takes = (grab-Takes mode (queue_at p at) (v.each at inside)).1 all in
        omega (arith, takes)
    | no past ↦
        let e : queue_at p at ≡ BlockQueue.new =
          get_or_past p.queues at BlockQueue.new (omega arith) in
        let g = ap (λ q. queued all (grab mode q).1) e in
        let h = ap (λ (r : List (Option A) × Queue A). queued all r.1) (grab_nothing mode) in
        let f = ap (queued all) e in omega (arith, g, h, f)
  ]

  stays : (k : ℕ) (w : Worker A) (p : ThreadPool A) → w.phase ≢ finished → Drains k p (w, p)
  stays k w p going = ((λ i. omega arith), λ fin. absurd (going fin))

  pub move-Drains :
      (n k : ℕ) (timeout : Bool) (ph : Phase) (w : Worker A) (p : ThreadPool A)
      → 0 < n
      → p.shutdown_policy ≡ true
      → IsValid p
      → w.phase ≡ ph
      → k < length p.queues
      → ph ≢ finished
      → Drains k p (move (bulk n) k timeout ph w p)
  unfolding move
  move-Drains n k timeout alone w p pos graceful v e lt going =
      elim (grab_wait_cases (bulk n) (queue_at p k)) [
        | inl waits ↦ rw (waits, move) (stays k w p (λ f. absurd (ground (arith, e, f))))
        | inr over ↦
            rw (over, move)
              (turn-Drains k alone draining w.start k (grab (bulk n) (queue_at p k)) w p lt
                (grab-le (bulk n) p k v) (λ f. absurd (ground arith)) (λ f. absurd (ground arith)))
      ]
  move-Drains n k timeout own w p pos graceful v e lt going =
      turn-Drains k own (looking 0) w.start k (grab (bulk n) (queue_at p k)) w p lt
        (grab-le (bulk n) p k v) (λ f. absurd (ground arith)) (λ f. absurd (ground arith))
  move-Drains n k timeout (looking i) w p pos graceful v e lt going =
      ((λ j. omega arith), λ fin. absurd (ground arith))
  move-Drains n k timeout (taking i) w p pos graceful v e lt going =
      let at = other k (now_at p w i) in
      turn-Drains k own (looking (suc i)) (now_at p w i) at (grab (bulk n) (queue_at p at)) w p lt
        (grab-le (bulk n) p at v) (λ f. absurd (ground arith)) (λ f. absurd (ground arith))
  move-Drains n k timeout waiting w p pos graceful v e lt going =
      let q = queue_at p k in
      let takes = (grab_for-Takes (bulk n) (BlockQueue.ready q) q (v.each k lt)).1 all in
      elim (Bool-cases (BlockQueue.ready q || timeout)) [
        | inl over ↦ rw over (
            turn-Drains k own stopping w.start k (grab_for (bulk n) (BlockQueue.ready q) q) w p lt
              (omega (arith, takes)) (λ f. absurd (ground arith)) (λ f. absurd (ground arith)))
        | inr waits ↦ rw waits (stays k w p (λ f. absurd (ground (arith, e, f))))
      ]
  move-Drains n k timeout stopping w p pos graceful v e lt going =
      ((λ j. omega arith), λ fin. absurd (ground arith))
  move-Drains n k timeout draining w p pos graceful v e lt going = rw graceful (
      turn-Drains k draining finished w.start k (grab (bulk n) (queue_at p k)) w p lt
        (grab-le (bulk n) p k v) (λ f. absurd (ground arith))
        (λ f none_there. (refl, empty_batch n (queue_at p k) pos (v.each k lt) none_there)))
  move-Drains n k timeout finished w p pos graceful v e lt going = absurd (going refl)
