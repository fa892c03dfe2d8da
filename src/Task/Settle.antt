-- ===== src/Task/Settle.antt =====
-- A batch that does not pass the end of its array: every task of it is settled by `commit`.
use spsock.Prelude.{
  ℕ, suc, ◌+◌, ◌-◌, ◌%◌, ◌≤◌, ◌<◌, ◌≡◌, sym, ap, ◌∙◌, inl, inr, List, [], map, Option, none, some,
  Bool, true, arith, ◌==◌, length, get_or, take, drop, slice, length-tabulate, tabulate_ext,
  drop-tabulate, take_all, drop_all, count_if, Bool-cases, mod_shift,
}
use native.Mathlib.Decide.{dec_lt}
use native.Mathlib.Nat.{mod_self}
use spsock.ThreadPool.Tally
use spsock.ThreadPool.Tally.{tally}
use spsock.ThreadPool.Submit.{TookMany}
use spsock.Task.{SockTask, Batch, Pool, no_task, submit, commit}
use spsock.Task.Pending.{IsValid, task_at, pending, ctx_of, slice-pending}
use spsock.Task.Rounds.{submit-TookMany, next, round, commit-round, commit-empty, listened_lem}

-- What a commit should promise: the first `n` tasks are in the pool's queues, and the connections of
-- all others are listened to again.
abbrev pub Settled : List SockTask → Pool → Option (Batch × Pool × List ℕ) → Type 0
Settled ts p none = ⊥
Settled ts p (some (b', p', again)) =
    Tally.IsValid p'
    × ((n : ℕ) × (n ≤ length ts)
        × ((c : Option SockTask → Bool)
            → tally c p' ≡ tally c p + count_if c (map some (take n ts)))
        × (again ≡ map ctx_of (drop n ts)))

module _ (cap : ℕ) (b : Batch) (v : IsValid cap b) where
  pub pending-size : length (pending cap b) ≡ b.size
  pending-size = length-tabulate b.size (task_at cap b)

  pub settle_in_line :
      (fuel : ℕ) (p : Pool)
      → Tally.IsValid p
      → b.back + b.size ≤ cap
      → Settled (pending cap b) p (commit (suc fuel) cap b p)
  settle_in_line fuel p good in_array = elim (dec_lt 0 b.size) [
    | no empty ↦
        rw (commit-empty fuel cap b p (omega arith))
          (good, (0, omega arith, (λ c. omega arith), nothing_left 0 (omega (arith, pending-size))))
    | yes pos ↦
        let ts : List SockTask = pending cap b in
        let s : slice b.tasks b.back b.size ≡ ts =
          slice-pending cap b b.size v (omega arith) in_array
          ∙ take_all b.size ts (omega (arith, pending-size)) in
        rw (commit-round fuel cap b p b.size v pos (omega arith), s)
          (handed (submit ts p) (submit-TookMany ts p good))
  ]
    where
      nothing_left : (n : ℕ) → b.size ≤ n → [] ≡ map ctx_of (drop n (pending cap b))
      nothing_left n le =
          sym (ap (map ctx_of) (drop_all n (pending cap b) (omega (arith, pending-size))))

      handed :
          (r : ℕ × Pool)
          → TookMany (pending cap b) p r
          → Settled (pending cap b) p (round fuel cap b b.size r)
      handed (taken, p') (good', len, few, adds) = elim (Bool-cases (taken == b.size)) [
        | inl all ↦
            let done : (b.size - b.size == 0) ≡ true = ground arith in
            rw (all, done) (good', (taken, few, adds, nothing_left taken (ground arith)))
        | inr short ↦ rw short (
          good',
          (
            taken,
            few,
            adds,
            listened_lem cap b b.size taken v (omega (arith, pending-size)) (omega arith)
                ∙ ap (λ k. map ctx_of (drop taken k))
                    (take_all b.size (pending cap b) (omega (arith, pending-size))),
          ),
        )
      ]

  -- The batch behind a round that reached the end of the array.
  abbrev pub wrapped : Batch
  wrapped = next cap b (cap - b.back)

  module _ (past : cap - b.back < b.size) where
    pub back-wrapped : wrapped.back ≡ 0
    back-wrapped = ap (λ k. k % cap) (omega (arith, v.back_in)) ∙ mod_self cap

    pub wrapped-IsValid : IsValid cap wrapped
    wrapped-IsValid = record {
      sized = v.sized;
      small = v.small;
      back_in = omega (arith, back-wrapped, v.back_in);
      fits = omega (arith, v.fits);
      ends =
          v.ends
          ∙ ap (λ k. k % cap) (omega (arith, v.back_in))
          ∙ sym (mod_shift b.back (cap - b.back) (b.size - (cap - b.back)) cap);
    }

    pub pending-wrapped : pending cap wrapped ≡ drop (cap - b.back) (pending cap b)
    pending-wrapped =
        tabulate_ext (b.size - (cap - b.back)) (task_at cap wrapped)
          (λ i. task_at cap b (cap - b.back + i))
          (λ i lt. ap (λ j. get_or b.tasks j no_task) (mod_shift b.back (cap - b.back) i cap))
        ∙ sym (drop-tabulate (cap - b.back) b.size (task_at cap b) (omega arith))
