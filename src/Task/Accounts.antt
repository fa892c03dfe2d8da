-- ===== src/Task/Accounts.antt =====
-- Where the tasks of a batch are after `commit`: taken by the pool, or, so the intention of the code,
-- their connections listened to again.
use spsock.Prelude.{
  ℕ, suc, ◌+◌, ◌-◌, ◌%◌, ◌≤◌, ◌<◌, ◌≡◌, refl, sym, ap, ◌∙◌, inl, inr, List, [], ◌∷◌, map, Option,
  none, some, Bool, true, false, arith, u32, ltb, ◌==◌, length, get_or, take, drop, slice,
  length-tabulate, take-tabulate, take_all, take_split, drop_split, length-take, length-drop,
  count_if, count_all, count_if-append, if◌then◌else◌, Bool-cases,
}
use mathlib.Core.Path.{subst}
use mathlib.Core.List.{map-append}
use native.Mathlib.Decide.{dec_lt}
use spsock.ThreadPool.Tally
use spsock.ThreadPool.Tally.{tally}
use spsock.ThreadPool.Submit.{TookMany}
use spsock.Task.{SockTask, Batch, Pool, no_task, submit, commit}
use spsock.Task.Pending.{IsValid, task_at, pending, ctx_of, slice-pending}
use spsock.Task.Rounds.{submit-TookMany, given_up, listened, round, commit-round, listened_lem}
use spsock.Task.Settle.{
  Settled, pending-size, settle_in_line, wrapped, back-wrapped, wrapped-IsValid, pending-wrapped,
}

-- What a commit does: the first `n` tasks are in the pool's queues. Of the others the connections are
-- listened to again; but where fewer were taken than the `e` up to the end of the array, only of
-- those up to there.
abbrev pub Outcome : ℕ → List SockTask → Pool → Option (Batch × Pool × List ℕ) → Type 0
Outcome e ts p none = ⊥
Outcome e ts p (some (b', p', again)) =
    Tally.IsValid p'
    × ((n : ℕ) × (n ≤ length ts)
        × ((c : Option SockTask → Bool)
            → tally c p' ≡ tally c p + count_if c (map some (take n ts)))
        × (again ≡ map ctx_of (drop n (take (if ltb n e then e else length ts) ts))))

whole :
    (e n : ℕ) (ts : List SockTask)
    → (n < e → length ts ≤ e)
    → take (if ltb n e then e else length ts) ts ≡ ts
whole e n ts h = elim (Bool-cases (ltb n e)) [
  | inl lt ↦ rw lt (take_all e ts (h (ground arith)))
  | inr ge ↦ rw ge (take_all (length ts) ts (omega arith))
]

Settled-Outcome :
    (e : ℕ) (ts : List SockTask) (p : Pool) (r : Option (Batch × Pool × List ℕ))
    → length ts ≤ e
    → Settled ts p r
    → Outcome e ts p r
Settled-Outcome e ts p none le h = h
Settled-Outcome e ts p (some (b', p', again)) le (good, (n, few, adds, eq)) =
    (good, (n, few, adds, eq ∙ ap (λ k. map ctx_of (drop n k)) (sym (whole e n ts (λ lt. le)))))

-- The first `d` tasks are in the pool, and the others are settled.
join-Outcome :
    (d : ℕ) (ts : List SockTask) (p p' : Pool) (r : Option (Batch × Pool × List ℕ))
    → d ≤ length ts
    → ((c : Option SockTask → Bool) → tally c p' ≡ tally c p + count_if c (map some (take d ts)))
    → Settled (drop d ts) p' r
    → Outcome d ts p r
join-Outcome d ts p p' none le adds h = h
join-Outcome d ts p p' (some (b', p'', again)) le adds (good, (n, few, more, eq)) = (
  good,
  (
    d + n,
    omega (arith, length-drop d ts),
    (λ c. more c ∙ ap (λ k. k + count_if c (map some (take n (drop d ts)))) (adds c) ∙ together c),
    eq
        ∙ ap (map ctx_of) (drop_split d n ts)
        ∙ ap (λ k. map ctx_of (drop (d + n) k))
            (sym (whole d (d + n) ts (λ lt. absurd (omega arith)))),
  ),
)
  where
    together :
        (c : Option SockTask → Bool)
        → tally c p + count_if c (map some (take d ts)) + count_if c (map some (take n (drop d ts)))
          ≡ tally c p + count_if c (map some (take (d + n) ts))
    together c = omega (
      arith,
      ap (λ k. count_if c (map some k)) (take_split d n ts),
      ap (count_if c) (map-append some (take d ts) (take n (drop d ts))),
      count_if-append c (map some (take d ts)) (map some (take n (drop d ts))),
    )

length-map {ℓ} : {A : Type ℓ} (xs : List A) → length (map some xs) ≡ length xs
length-map [] = refl
length-map (x ∷ xs) = ap suc (length-map xs)

module _ (cap : ℕ) (b : Batch) (v : IsValid cap b) where
  -- The part of the batch up to the end of the array.
  first_part : List SockTask
  first_part = slice b.tasks b.back (cap - b.back)

  module _ (past : cap - b.back < b.size) where
    first_part-eq : first_part ≡ take (cap - b.back) (pending cap b)
    unfolding first_part
    first_part-eq = slice-pending cap b (cap - b.back) v (omega arith) (omega (arith, v.back_in))

    take-first_part : (n : ℕ) → n ≤ cap - b.back → take n first_part ≡ take n (pending cap b)
    take-first_part n le =
        ap (take n)
          (first_part-eq ∙ take-tabulate (cap - b.back) b.size (task_at cap b) (omega arith))
        ∙ take-tabulate n (cap - b.back) (task_at cap b) le
        ∙ sym (take-tabulate n b.size (task_at cap b) (omega arith))

    length-first_part : length first_part ≡ cap - b.back
    length-first_part =
        ap length first_part-eq
        ∙ length-take (cap - b.back) (pending cap b)
        ∙ (omega (arith, pending-size cap b v))

    round_past :
        (fuel : ℕ) (p : Pool)
        → commit (suc (suc fuel)) cap b p
          ≡ round (suc fuel) cap b (cap - b.back) (submit first_part p)
    unfolding first_part
    round_past fuel p =
        commit-round (suc fuel) cap b p (cap - b.back) v (omega arith) (omega (arith, v.back_in))

    settle_past :
        (fuel : ℕ) (p : Pool)
        → Tally.IsValid p
        → Outcome (cap - b.back) (pending cap b) p (commit (suc (suc fuel)) cap b p)
    settle_past fuel p good =
        rw (round_past fuel p) (handed (submit first_part p) (submit-TookMany first_part p good))
      where
        handed :
            (r : ℕ × Pool)
            → TookMany first_part p r
            → Outcome (cap - b.back) (pending cap b) p (round (suc fuel) cap b (cap - b.back) r)
        handed (taken, p') (good', len, few, adds) =
            let le : taken ≤ cap - b.back = omega (arith, length-first_part) in
            let adds' : (c : Option SockTask → Bool)
                → tally c p' ≡ tally c p + count_if c (map some (take taken (pending cap b))) =
              λ c.
                adds c ∙ ap (λ k. tally c p + count_if c (map some k)) (take-first_part taken le) in
            elim (Bool-cases (taken == cap - b.back)) [
              | inl all ↦
                  let more : (b.size - (cap - b.back) == 0) ≡ false = ground arith in
                  let eq : taken ≡ cap - b.back = ground arith in
                  rw (all, more)
                    (join-Outcome (cap - b.back) (pending cap b) p p'
                      (commit (suc fuel) cap (wrapped cap b v) p')
                      (omega (arith, pending-size cap b v))
                      (λ c.
                        adds' c
                        ∙ ap (λ k. tally c p + count_if c (map some (take k (pending cap b)))) eq)
                      (subst (λ ts. Settled ts p' (commit (suc fuel) cap (wrapped cap b v) p'))
                        (pending-wrapped cap b v past)
                        (settle_in_line cap (wrapped cap b v) (wrapped-IsValid cap b v past) fuel p'
                          good' (omega (arith, back-wrapped cap b v past, v.fits)))))
              | inr short ↦
                  let upto : (if ltb taken (cap - b.back)
                        then cap - b.back
                        else length (pending cap b))
                      ≡ cap - b.back =
                    ground arith in
                  rw short (
                    good',
                    (
                      taken,
                      omega (arith, pending-size cap b v),
                      adds',
                      listened_lem cap b (cap - b.back) taken v le (omega arith)
                          ∙ ap (λ k. map ctx_of (drop taken (take k (pending cap b)))) (sym upto),
                    ),
                  )
            ]

  -- From a valid batch and a pool in good order `commit` ends, and leaves the pool in good order with
  -- the first `n` tasks of the batch, for some `n`, added to its queues. If the batch does not pass the
  -- end of the array, or `n` reaches it, the connections of all other tasks are listened to again, in
  -- order; if not, those of the tasks from the `n`th to the end of the array, and of no other.
  pub commit-Outcome :
      (fuel : ℕ) (p : Pool)
      → Tally.IsValid p
      → Outcome (cap - b.back) (pending cap b) p (commit (suc (suc fuel)) cap b p)
  commit-Outcome fuel p good = elim (dec_lt (cap - b.back) b.size) [
    | no in_line ↦
        Settled-Outcome (cap - b.back) (pending cap b) p (commit (suc (suc fuel)) cap b p)
          (omega (arith, pending-size cap b v))
          (settle_in_line cap b v (suc fuel) p good (omega (arith, v.back_in)))
    | yes past ↦ settle_past past fuel p good
  ]

  -- A batch that passes the end of its array loses tasks when the pool takes less than the part up to
  -- there: as many as lie past the end, at least one, are neither queued nor are their connections
  -- listened to again.
  pub commit_loses :
      (fuel : ℕ) (p p' : Pool) (b' : Batch) (again : List ℕ)
      → Tally.IsValid p
      → cap - b.back < b.size
      → (submit (slice b.tasks b.back (cap - b.back)) p).0 < cap - b.back
      → commit (suc (suc fuel)) cap b p ≡ some (b', p', again)
      → tally (λ t. true) p' + length again + (b.size - (cap - b.back))
        ≡ tally (λ t. true) p + b.size
  unfolding first_part
  commit_loses fuel p p' b' again good past short e =
      let r : ℕ × Pool = submit first_part p in
      let (good', len, few, adds) = submit-TookMany first_part p good in
      let differs : (r.0 == cap - b.back) ≡ false = ground arith in
      let gone : commit (suc (suc fuel)) cap b p
          ≡ some (given_up b, r.1, listened cap b (cap - b.back) r.0) =
        round_past past fuel p ∙ rw differs in
      let both : some (b', p', again) ≡ some (given_up b, r.1, listened cap b (cap - b.back) r.0) =
        sym e ∙ gone in
      let pool : p' ≡ r.1 = cc in
      let list : again ≡ listened cap b (cap - b.back) r.0 = cc in
      omega (
        arith,
        ap (tally (λ t. true)) pool,
        ap length list,
        adds (λ t. true),
        count_all (map some (take r.0 first_part)),
        length-map (take r.0 first_part),
        length-take r.0 first_part,
        length-tabulate (cap - b.back - r.0)
            (λ i. (get_or b.tasks (u32 (b.back + r.0 + i) % cap) no_task).ctx),
      )
