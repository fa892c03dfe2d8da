-- ===== src/ThreadPool/Submit.antt =====
-- Submitting tasks: none is lost and none is made up.
use spsock.Prelude.{
  ℕ, ◌+◌, ◌/◌, ◌%◌, ◌≤◌, ◌<◌, ◌≡◌, refl, sym, ap, ◌∙◌, inl, inr, List, [], ◌∷◌, Option, some, Bool,
  arith, u32, ltb, leb, Bool-cases, length, length-set, map, take, count_if, count_if-append,
  mod_bound, if◌then◌else◌,
}
use spsock.BlockQueue
use spsock.BlockQueue.{Queue, nobody, one}
use spsock.BlockQueue.Ring
use spsock.BlockQueue.Ring.{held}
use spsock.BlockQueue.Fifo.{push_lem, push_bulk_lem}
use spsock.ThreadPool.{
  ThreadPool, queue_at, other_half, next_index, push_at, append, emplace, push_bulk_at, append_bulk,
}
use spsock.ThreadPool.Tally.{IsValid, queued, tally, replaced-IsValid, tally-replaced}

module _ {ℓ} {A : Type ℓ} where
  -- The worth of a task that was taken, or of none.
  abbrev pub worth : (Option A → Bool) → A → Bool → ℕ
  worth c a ok = if ok then count_if c (some a ∷ []) else 0

  push-Adds :
      (a : A) (q : Queue A)
      → Ring.IsValid q
      → Ring.IsValid (BlockQueue.push a q).1
        × ((c : Option A → Bool)
            → queued c (BlockQueue.push a q).1 ≡ queued c q + worth c a (BlockQueue.push a q).0.0)
  push-Adds a q v = elim (push_lem a q v) [
    | inl (full, e) ↦ rw e (v, λ c. omega arith)
    | inr (room, e, good, h) ↦ (
      good,
      λ c.
          ap (count_if c) h
          ∙ count_if-append c (held q) (some a ∷ [])
          ∙ ap (λ k. queued c q + worth c a k) (sym (ap (λ r. r.0) e)),
    )
  ]

  -- What a submission of one task promises.
  abbrev pub Took : A → ThreadPool A → Bool × ThreadPool A → Type ℓ
  Took a p (ok, p') =
      IsValid p'
      × (length p'.queues ≡ length p.queues)
      × ((c : Option A → Bool) → tally c p' ≡ tally c p + worth c a ok)

  push_at-Took :
      (i : ℕ) (a : A) (p : ThreadPool A)
      → IsValid p
      → i < length p.queues
      → Took a p (push_at i a p)
  unfolding push_at
  push_at-Took i a p v lt =
      let q : Queue A = (BlockQueue.push a (queue_at p i)).1 in
      let (good, adds) = push-Adds a (queue_at p i) (v.each i lt) in
      (
        replaced-IsValid p i q v lt good,
        length-set p.queues i q,
        λ c. omega (arith, tally-replaced c p i q lt, adds c),
      )

  -- Both indices that a submission may use are those of queues.
  indices_in :
      (p : ThreadPool A)
      → IsValid p
      → ((next_index p).0 < length p.queues) × (other_half p (next_index p).0 < length p.queues)
  unfolding next_index
  indices_in p v = (
    omega (arith, v.sized, mod_bound p.index p.thread_num v.some_queue),
    omega (
      arith,
      v.sized,
      mod_bound (u32 (p.index % p.thread_num + p.thread_num / 2)) p.thread_num v.some_queue,
    ),
  )

  -- Taking the next index changes nothing else.
  moved_on : (p : ThreadPool A) → IsValid p → IsValid (next_index p).1
  unfolding next_index
  moved_on p v = record {
    sized = v.sized;
    some_queue = v.some_queue;
    small = v.small;
    each = v.each;
  }

  -- Whatever queue a task is sent to, and whether that has room or not: the pool stays in good order,
  -- and the tasks of each kind that stand in it grow by the one that was submitted exactly when the
  -- answer is `true`.
  pub append-Took : (a : A) (p : ThreadPool A) → IsValid p → Took a p (append a p)
  unfolding append next_index
  append-Took a p v =
      let (i, j) = indices_in p v in
      let p' : ThreadPool A = (next_index p).1 in
      elim (Bool-cases (ltb (queue_at p' (next_index p).0).size p'.queue_length)) [
        | inl here ↦ rw here (push_at-Took (next_index p).0 a p' (moved_on p v) i)
        | inr there ↦ rw there (push_at-Took (other_half p (next_index p).0) a p' (moved_on p v) j)
      ]

  pub emplace-eq-append : (a : A) (p : ThreadPool A) → emplace a p ≡ append a p
  unfolding emplace append
  emplace-eq-append a p = refl

  -- The same of a submission of several, of which the first `n` are taken.
  abbrev pub TookMany : List A → ThreadPool A → ℕ × ThreadPool A → Type ℓ
  TookMany xs p (n, p') =
      IsValid p'
      × (length p'.queues ≡ length p.queues)
      × (n ≤ length xs)
      × ((c : Option A → Bool) → tally c p' ≡ tally c p + count_if c (map some (take n xs)))

  push_bulk_at-TookMany :
      (i : ℕ) (xs : List A) (p : ThreadPool A)
      → IsValid p
      → i < length p.queues
      → TookMany xs p (push_bulk_at i xs p)
  unfolding push_bulk_at
  push_bulk_at-TookMany i xs p v lt =
      let old : Queue A = queue_at p i in
      let q : Queue A = (BlockQueue.push_bulk xs old).1 in
      let (n, good, h) = push_bulk_lem xs old (v.each i lt) in
      (
        replaced-IsValid p i q v lt good,
        length-set p.queues i q,
        omega (arith, n),
        λ c.
            let adds : queued c q
                ≡ queued c old + count_if c (map some (take (BlockQueue.push_bulk xs old).0.0 xs)) =
              ap (count_if c) h
              ∙ count_if-append c (held old) _
              ∙ ap (λ k. queued c old + count_if c (map some (take k xs))) (sym n) in
            omega (arith, tally-replaced c p i q lt, adds),
      )

  -- A bulk submission leaves the pool in good order, and the tasks of each kind that stand in it grow
  -- by as many of the array's first tasks as the number that is returned.
  pub append_bulk-TookMany :
      (xs : List A) (p : ThreadPool A) → IsValid p → TookMany xs p (append_bulk xs p)
  unfolding append_bulk next_index
  append_bulk-TookMany xs p v =
      let (i, j) = indices_in p v in
      let p' : ThreadPool A = (next_index p).1 in
      elim (Bool-cases
        (leb (u32 ((queue_at p' (next_index p).0).size + length xs / 2)) p'.queue_length)) [
          | inl here ↦ rw here (push_bulk_at-TookMany (next_index p).0 xs p' (moved_on p v) i)
          | inr there ↦
              rw there
                (push_bulk_at-TookMany (other_half p (next_index p).0) xs p' (moved_on p v) j)
        ]
