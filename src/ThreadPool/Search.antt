-- ===== src/ThreadPool/Search.antt =====
-- The search of a worker whom no other thread disturbs, and `Stealer::steal`.
use spsock.Prelude.{
  ℕ, zero, suc, ◌+◌, ◌*◌, ◌-◌, ◌%◌, ◌<◌, ◌≤◌, ◌≡◌, refl, sym, ap, ap₂, ◌∙◌, inl, inr, List, [], ◌∷◌,
  Option, none, some, true, false, arith, u32, ltb, leb, ◌==◌, if◌then◌else◌, length, get_or, set,
  get_or-set_ne, set-get_or, Bool-cases,
}
use mathlib.Core.Path.{subst}
use native.Mathlib.Nat.{mod-lt}
use spsock.BlockQueue
use spsock.BlockQueue.{Queue}
use spsock.BlockQueue.Ring
use spsock.ThreadPool.{ThreadPool, queue_at}
use spsock.ThreadPool.Others.{other_ne, length-without_at, get_or-without_at, without_at-set}
use spsock.ThreadPool.Tally.{IsValid}
use spsock.ThreadPool.Workers.{
  Mode, Phase, own, looking, taking, waiting, Worker, other, threshold, grab, turn, move,
}
use spsock.ThreadPool.Stealing.{others_of, steal_of, sweep, sweep-steal_of, grab_same}

module _ {ℓ} {A : Type ℓ} where
  -- `n` steps of worker `k`, none of which executes a task, with no other thread in between.
  unfoldable pub moves : Mode → ℕ → ℕ → Worker A → ThreadPool A → Worker A × ThreadPool A
  unfolding move
  moves mode k zero w p = (w, p)
  moves mode k (suc n) w p = let (w', p') = move mode k false w.phase w p in moves mode k n w' p'

  -- A worker with nothing in its hand, and what `steal` gives, as the worker and the pool behind the
  -- steps.
  abbrev pub seeking : Phase → ℕ → Worker A
  seeking ph start = record { phase = ph; start = start; hand = [] }

  abbrev pub Stole :
      ℕ
      → ℕ
      → ThreadPool A
      → Option (List (Option A) × ℕ) × List (Queue A)
      → Worker A × ThreadPool A
      → Type ℓ
  Stole k start p (none, qs) (w', p') =
      (w' ≡ seeking waiting start) × (p' ≡ p) × (others_of k p' ≡ qs)
  Stole k start p (some (xs, now), qs) (w', p') =
      (w' ≡ record { phase = own; start = now; hand = xs })
      × (others_of k p' ≡ qs)
      × (queue_at p' k ≡ queue_at p k)
      × (p' ≡ record p { queues = p'.queues })

  -- A round of `sweep` that looks at `victim`.
  abbrev round_of :
      Mode
      → ℕ
      → ℕ
      → Queue A
      → List (Queue A)
      → Option (List (Option A) × ℕ) × List (Queue A)
      → Option (List (Option A) × ℕ) × List (Queue A)
  round_of mode least now victim others rest =
      let (xs, q) = grab mode victim in
      if leb least victim.size
      then (if length xs == 0 then rest else (some (xs, now), set others now q))
      else rest

  no_tasks : (xs : List (Option A)) → length xs ≡ 0 → xs ≡ []
  no_tasks [] e = refl
  no_tasks (x ∷ xs) e = absurd (omega arith)

  -- A removal that takes nothing lets the worker go on to the next round, in the same pool.
  turn_nothing :
      (mode : Mode) (i start now at : ℕ) (p : ThreadPool A)
      → Ring.IsValid (queue_at p at)
      → length (grab mode (queue_at p at)).0 ≡ 0
      → turn own (looking (suc i)) now at (grab mode (queue_at p at)) (seeking (taking i) start) p
        ≡ (seeking (looking (suc i)) start, p)
  unfolding turn
  turn_nothing mode i start now at p v e =
      let r = grab mode (queue_at p at) in
      let none_there : (length r.0 == 0) ≡ true = ground (arith, e) in
      let same : set p.queues at r.1 ≡ p.queues =
        ap (set p.queues at) (grab_same mode (queue_at p at) v e)
        ∙ set-get_or p.queues at BlockQueue.new in
      rw (none_there, no_tasks r.0 e, same) refl

  turn_something :
      (mode : Mode) (k i start now : ℕ) (p : ThreadPool A)
      → (length (grab mode (queue_at p (other k now))).0 == 0) ≡ false
      → let (xs, q) = grab mode (queue_at p (other k now)) in
        Stole k start p
          (some (xs, now), set (others_of k p) now q)
          (turn own (looking (suc i)) now (other k now) (xs, q) (seeking (taking i) start) p)
  unfolding turn
  turn_something mode k i start now p e =
      let q : Queue A = (grab mode (queue_at p (other k now))).1 in
      (
        rw e refl,
        without_at-set k p.queues now q,
        get_or-set_ne p.queues (other k now) k q BlockQueue.new (other_ne k now),
        refl,
      )

  -- The look at the size and the removal behind it.
  look_and_take :
      (mode : Mode) (k i start n : ℕ) (p : ThreadPool A)
      → ltb i (p.thread_num - 1) ≡ true
      → let now = u32 (start + i) % (p.thread_num - 1) in
        let q = queue_at p (other k now) in
        leb (threshold mode (p.thread_num - 1) (queue_at p k).max_size) q.size ≡ true
        → moves mode k (suc (suc n)) (seeking (looking i) start) p ≡ (
            let (w', p') =
              turn own
                (looking (suc i))
                now
                (other k now)
                (grab mode q)
                (seeking (taking i) start)
                p in
            moves mode k n w' p')
  unfolding moves move
  look_and_take mode k i start n p more many = rw (more, many) refl

  sweep_lem :
      (mode : Mode) (k rounds i start : ℕ) (p : ThreadPool A)
      → IsValid p
      → k < length p.queues
      → i + rounds ≡ p.thread_num - 1
      → let least = threshold mode (p.thread_num - 1) (queue_at p k).max_size in
        (n : ℕ) × (n ≤ 2 * rounds + 1)
        × Stole k start p
            (sweep mode rounds i start least (others_of k p))
            (moves mode k n (seeking (looking i) start) p)
  unfolding sweep moves move
  sweep_lem mode k zero i start p v lt e =
      let past : ltb i (p.thread_num - 1) ≡ false = ground arith in
      (1, omega arith, rw past (refl, refl, refl))
  sweep_lem mode k (suc rounds) i start p v lt e =
      let total : ℕ = p.thread_num - 1 in
      let others = others_of k p in
      let least = threshold mode total (queue_at p k).max_size in
      let size : length others ≡ total = omega (arith, length-without_at k p.queues lt, v.sized) in
      let now : ℕ = u32 (start + i) % total in
      let at : ℕ = other k now in
      let victim : Queue A = queue_at p at in
      let more : ltb i total ≡ true = ground arith in
      let in_total : now < total = mod-lt (u32 (start + i)) (omega arith) in
      let inside : at < length p.queues = ground (arith, in_total, v.sized) in
      let rest = sweep mode rounds (suc i) start least others in
      let (n, few_steps, later) = sweep_lem mode k rounds (suc i) start p v lt (omega arith) in
      let goal : Option (List (Option A) × ℕ) × List (Queue A) → Type ℓ = λ r.
        (m : ℕ) × (m ≤ 2 * suc rounds + 1)
        × Stole k start p r (moves mode k m (seeking (looking i) start) p) in
      let next : i + 1 ≡ suc i = omega arith in
      let same_index : u32 (start + i) % length others ≡ now = ap (λ l. u32 (start + i) % l) size in
      let here : sweep mode (suc rounds) i start least others
          ≡ round_of mode least now victim others rest =
        ap
          (λ j.
            round_of mode least (u32 (start + i) % length others)
              (get_or others (u32 (start + i) % length others) BlockQueue.new) others
              (sweep mode rounds j start least others))
          next
        ∙ ap₂ (λ x q. round_of mode least x q others rest) same_index
            (ap (λ x. get_or others x BlockQueue.new) same_index
              ∙ get_or-without_at k p.queues now BlockQueue.new) in
      subst goal (sym here) (elim (Bool-cases (leb least victim.size)) [
        | inr few ↦ rw few (suc n, omega (arith, few_steps), rw (more, few) later)
        | inl many ↦ elim (Bool-cases (length (grab mode victim).0 == 0)) [
          | inr something ↦
              rw (many, something)
                (2, omega arith, rw (more, many) (turn_something mode k i start now p something))
          | inl nothing ↦
              let none_there : length (grab mode victim).0 ≡ 0 = ground arith in
              let steps : moves mode k (suc (suc n)) (seeking (looking i) start) p
                  ≡ moves mode k n (seeking (looking (suc i)) start) p =
                look_and_take mode k i start n p more many
                ∙ ap (λ (r : Worker A × ThreadPool A). moves mode k n r.0 r.1)
                    (turn_nothing mode i start now at p (v.each at inside) none_there) in
              rw (many, nothing)
                (
                  suc (suc n),
                  omega (arith, few_steps),
                  subst (Stole k start p rest) (sym steps) later,
                )
        ]
      ])

  -- A worker that no other thread disturbs in its search, in a pool in good order, comes, in at most
  -- two steps for each of the other queues and one more, to what `steal` gives for them: with a task,
  -- or a batch, it is back at its own queue, with the index of the queue it took from to start from the
  -- next time, that queue is changed as `steal` changes it, and its own is not; without, it waits, and
  -- the pool is as it was.
  pub steps-steal :
      (mode : Mode) (k start : ℕ) (p : ThreadPool A)
      → IsValid p
      → k < length p.queues
      → (n : ℕ) × (n ≤ 2 * (p.thread_num - 1) + 1)
        × Stole k start p
            (steal_of mode start (queue_at p k).max_size (others_of k p))
            (moves mode k n (seeking (looking 0) start) p)
  steps-steal mode k start p v lt =
      let total : ℕ = p.thread_num - 1 in
      let size : length (others_of k p) ≡ total =
        omega (arith, length-without_at k p.queues lt, v.sized) in
      let same =
        ap (λ t. sweep mode t 0 start (threshold mode t (queue_at p k).max_size) (others_of k p))
          (sym size)
        ∙ sweep-steal_of mode start (queue_at p k).max_size (others_of k p) in
      subst
        (λ r.
          (n : ℕ) × (n ≤ 2 * total + 1)
          × Stole k start p r (moves mode k n (seeking (looking 0) start) p))
        same (sweep_lem mode k total 0 start p v lt (omega arith))
