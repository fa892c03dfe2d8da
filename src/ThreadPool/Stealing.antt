-- ===== src/ThreadPool/Stealing.antt =====
-- `Stealer::steal`, that of single tasks and that of batches as one loop.
use spsock.Prelude.{
  ℕ, zero, suc, ◌+◌, ◌*◌, ◌||◌, ◌%◌, ◌≡◌, refl, List, [], ◌∷◌, Option, none, some, Bool, true,
  false, arith, u32, min, leb, ◌==◌, if◌then◌else◌, length, get_or, set,
}
use spsock.BlockQueue
use spsock.BlockQueue.{Queue}
use spsock.BlockQueue.Ring
use spsock.BlockQueue.Fifo.{pop_bulk_lem}
use spsock.ThreadPool.{ThreadPool, steal_from, steal, steal_bulk_from, steal_bulk}
use spsock.ThreadPool.Others.{without_at}
use spsock.ThreadPool.Workers.{Mode, single, bulk, threshold, grab}

module _ {ℓ} {A : Type ℓ} where
  -- The queues that worker `k` may steal from.
  abbrev pub others_of : ℕ → ThreadPool A → List (Queue A)
  others_of k p = without_at k p.queues

  -- What the two functions named `steal` give, with the tasks as a list.
  abbrev listed :
      Option (Option A × ℕ) × List (Queue A) → Option (List (Option A) × ℕ) × List (Queue A)
  listed (none, qs) = (none, qs)
  listed (some (a, now), qs) = (some (a ∷ [], now), qs)

  abbrev pub steal_of :
      Mode → ℕ → ℕ → List (Queue A) → Option (List (Option A) × ℕ) × List (Queue A)
  steal_of single start max_length others = listed (steal start max_length others)
  steal_of (bulk n) start max_length others = steal_bulk start n max_length others

  -- The loop of both.
  unfoldable pub sweep :
      Mode → ℕ → ℕ → ℕ → ℕ → List (Queue A) → Option (List (Option A) × ℕ) × List (Queue A)
  sweep mode zero i start least others = (none, others)
  sweep mode (suc rounds) i start least others =
      let now = u32 (start + i) % length others in
      let victim = get_or others now BlockQueue.new in
      let (xs, q) = grab mode victim in
      let rest = sweep mode rounds (i + 1) start least others in
      if leb least victim.size
      then (if length xs == 0 then rest else (some (xs, now), set others now q))
      else rest

  sweep-steal_bulk_from :
      (n rounds i start least : ℕ) (others : List (Queue A))
      → sweep (bulk n) rounds i start least others ≡ steal_bulk_from rounds i start n least others
  unfolding sweep steal_bulk_from grab
  sweep-steal_bulk_from n zero i start least others = refl
  sweep-steal_bulk_from n (suc rounds) i start least others =
      rw (sweep-steal_bulk_from n rounds (i + 1) start least others) refl

  same_round :
      (enough ok : Bool) (a : Option A) (now : ℕ) (qs : List (Queue A))
      (rest : Option (Option A × ℕ) × List (Queue A))
      → (if enough
          then (if length (if ok then a ∷ [] else []) == 0
              then listed rest
              else (some (if ok then a ∷ [] else [], now), qs))
          else listed rest)
        ≡ listed (if enough then (if ok then (some (a, now), qs) else rest) else rest)
  same_round true true a now qs rest = refl
  same_round true false a now qs rest = refl
  same_round false ok a now qs rest = refl

  sweep-steal_from :
      (rounds i start least : ℕ) (others : List (Queue A))
      → sweep single rounds i start least others ≡ listed (steal_from rounds i start least others)
  unfolding sweep steal_from grab
  sweep-steal_from zero i start least others = refl
  sweep-steal_from (suc rounds) i start least others =
      let now : ℕ = u32 (start + i) % length others in
      let victim : Queue A = get_or others now BlockQueue.new in
      let ((ok, a), q) = BlockQueue.pop victim in
      rw (sweep-steal_from rounds (i + 1) start least others, sweep)
        (same_round (leb least victim.size) ok a now (set others now q)
          (steal_from rounds (i + 1) start least others))

  pub sweep-steal_of :
      (mode : Mode) (start max_length : ℕ) (others : List (Queue A))
      → sweep mode (length others) 0 start (threshold mode (length others) max_length) others
        ≡ steal_of mode start max_length others
  unfolding steal steal_bulk
  sweep-steal_of single start max_length others =
      sweep-steal_from (length others) 0 start (min (length others) max_length) others
  sweep-steal_of (bulk n) start max_length others =
      sweep-steal_bulk_from n (length others) 0 start (min (u32 (n * length others)) max_length)
        others

  -- A removal that takes nothing leaves the queue as it was.
  pub grab_same :
      (mode : Mode) (q : Queue A)
      → Ring.IsValid q
      → length (grab mode q).0 ≡ 0
      → (grab mode q).1 ≡ q
  unfolding grab BlockQueue.pop BlockQueue.pop_bulk
  grab_same single q v e = ground (arith, e)
  grab_same (bulk n) q v e =
      let (len, good, order) = pop_bulk_lem n q v in
      let nothing : (n == 0 || q.size == 0) ≡ true = ground (arith, len, e) in rw nothing refl
