-- ===== src/ThreadPool/Removal.antt =====
-- What a worker takes out of a queue, it has in its hand.
use spsock.Prelude.{
  ℕ, ◌+◌, ◌<◌, ◌≡◌, refl, sym, ap, ◌∙◌, ◌⊎◌, inl, inr, List, [], Option, none, some, Bool, true,
  false, arith, length, length-set, set_past, get_or_past, count_if, count_if-append, Bool-cases,
  ◌==◌,
}
use native.Mathlib.Decide.{dec_lt}
use spsock.BlockQueue
use spsock.BlockQueue.{Queue}
use spsock.BlockQueue.Ring
use spsock.BlockQueue.Ring.{held}
use spsock.BlockQueue.Fifo.{pop_lem, pop_bulk_lem}
use spsock.ThreadPool.{ThreadPool, queue_at}
use spsock.ThreadPool.Tally.{IsValid, queued, tally, replaced-IsValid, tally-replaced}
use spsock.ThreadPool.Workers.{
  Mode, single, bulk, Phase, Worker, as_list, grab, grab_for, grab_wait, turn,
}

module _ {ℓ} {A : Type ℓ} where
  -- A removal: a valid queue, with every element either there still or handed over.
  abbrev pub Takes : Queue A → List (Option A) × Queue A → Type ℓ
  Takes q (xs, q') =
      Ring.IsValid q' × ((c : Option A → Bool) → count_if c xs + queued c q' ≡ queued c q)

  abbrev pub TakesIfAny : Queue A → Option (List (Option A) × Queue A) → Type ℓ
  TakesIfAny q none = Unit
  TakesIfAny q (some r) = Takes q r

  Takes-nothing : (q : Queue A) → Ring.IsValid q → Takes q ([], q)
  Takes-nothing q v = (v, λ c. omega arith)

  pop-Takes : (q : Queue A) → Ring.IsValid q → Takes q (as_list (BlockQueue.pop q))
  pop-Takes q v = elim (pop_lem q v) [
    | inl (empty, e) ↦ rw e (Takes-nothing q v)
    | inr (ok, good, h) ↦ rw ok (good, λ c. omega (arith, ap (count_if c) h))
  ]

  pop_bulk-Takes : (n : ℕ) (q : Queue A) → Ring.IsValid q → Takes q (BlockQueue.pop_bulk n q)
  pop_bulk-Takes n q v =
      let (len, good, h) = pop_bulk_lem n q v in
      (good, λ c. sym (ap (count_if c) h ∙ count_if-append c (BlockQueue.pop_bulk n q).0 _))

  pub grab-Takes : (mode : Mode) (q : Queue A) → Ring.IsValid q → Takes q (grab mode q)
  unfolding grab
  grab-Takes single q v = pop-Takes q v
  grab-Takes (bulk n) q v = pop_bulk-Takes n q v

  pub grab_for-Takes :
      (mode : Mode) (success : Bool) (q : Queue A)
      → Ring.IsValid q
      → Takes q (grab_for mode success q)
  unfolding grab_for BlockQueue.wait_pop_for BlockQueue.wait_pop_bulk_for BlockQueue.pop
      BlockQueue.pop_bulk
  grab_for-Takes single true q v = pop-Takes q v
  grab_for-Takes single false q v = Takes-nothing q v
  grab_for-Takes (bulk n) true q v = pop_bulk-Takes n q v
  grab_for-Takes (bulk n) false q v = elim (Bool-cases (n == 0)) [
    | inl e ↦ rw e (Takes-nothing q v)
    | inr e ↦ rw e (Takes-nothing q v)
  ]

  -- A wait without end is not over, or takes what is taken at once.
  pub grab_wait_cases :
      (mode : Mode) (q : Queue A)
      → (grab_wait mode q ≡ none) ⊎ (grab_wait mode q ≡ some (grab mode q))
  unfolding grab_wait grab BlockQueue.wait_pop BlockQueue.wait_pop_bulk BlockQueue.pop
      BlockQueue.pop_bulk
  grab_wait_cases single q = ground arith
  grab_wait_cases (bulk n) q = ground arith

  pub grab_wait-Takes :
      (mode : Mode) (q : Queue A) → Ring.IsValid q → TakesIfAny q (grab_wait mode q)
  grab_wait-Takes mode q v = elim (grab_wait_cases mode q) [
    | inl e ↦ rw e tt
    | inr e ↦ rw e (grab-Takes mode q v)
  ]

  -- A step of a worker and the pool: the pool stays in good order, and every task in it or in the
  -- worker's hand stays in it or in the hand.
  abbrev pub Keeps : Worker A → ThreadPool A → Worker A × ThreadPool A → Type ℓ
  Keeps w p (w', p') =
      IsValid p'
      × (length p'.queues ≡ length p.queues)
      × ((c : Option A → Bool) → tally c p' + count_if c w'.hand ≡ tally c p + count_if c w.hand)

  pub turn-Keeps :
      (got lacking : Phase) (start at : ℕ) (r : List (Option A) × Queue A) (w : Worker A)
      (p : ThreadPool A)
      → IsValid p
      → w.hand ≡ []
      → at < length p.queues
      → Takes (queue_at p at) r
      → Keeps w p (turn got lacking start at r w p)
  unfolding turn
  turn-Keeps got lacking start at (xs, q) w p v e lt (good, h) = (
    replaced-IsValid p at q v lt good,
    length-set p.queues at q,
    λ c. omega (arith, ap (count_if c) e, h c, tally-replaced c p at q lt),
  )

  -- Past the last queue there is nothing to take.
  pub grab_nothing : (mode : Mode) → grab {A = A} mode BlockQueue.new ≡ ([], BlockQueue.new)
  unfolding grab BlockQueue.pop BlockQueue.pop_bulk BlockQueue.new
  grab_nothing single = refl
  grab_nothing (bulk n) = ground arith

  pub grab_at-Keeps :
      (mode : Mode) (got lacking : Phase) (start at : ℕ) (w : Worker A) (p : ThreadPool A)
      → IsValid p
      → w.hand ≡ []
      → Keeps w p (turn got lacking start at (grab mode (queue_at p at)) w p)
  unfolding turn
  grab_at-Keeps mode got lacking start at w p v e = elim (dec_lt at (length p.queues)) [
    | yes lt ↦
        turn-Keeps got lacking start at (grab mode (queue_at p at)) w p v e lt
          (grab-Takes mode (queue_at p at) (v.each at lt))
    | no past ↦
        let g : grab mode (queue_at p at) ≡ ([], BlockQueue.new) =
          ap (grab mode) (get_or_past p.queues at BlockQueue.new (omega arith))
          ∙ grab_nothing mode in
        rw (g, set_past p.queues at BlockQueue.new (omega arith))
          (v, refl, λ c. omega (arith, ap (count_if c) e))
  ]
