-- ===== src/Task/Keeping.antt =====
-- The batch between two submissions: a ring over its array with room for one task more.
use spsock.Prelude.{
  ℕ, zero, suc, ◌+◌, ◌-◌, ◌%◌, ◌≤◌, ◌<◌, ◌≡◌, sym, ap, ◌∙◌, ◌⊎◌, inl, inr, List, [], ◌∷◌, ◌++◌,
  Option, none, some, true, arith, u32, ◌==◌, if◌then◌else◌, slice, min, set, length-set,
  Bool-cases, mod_shift, mod_bound,
}
use native.Mathlib.Decide.{dec_lt}
use native.Mathlib.Nat.{mod-eq_of_lt}
use spsock.ThreadPool.Tally
use spsock.Task.{SockTask, Batch, Pool, UtilTask, submit, commit, append_batch, append, reset}
use spsock.Task.Pending.{IsValid, pending}
use spsock.Task.Rounds.{next, given_up, round, commit-round, commit-empty}
use spsock.Task.Accounts.{Outcome, commit-Outcome}
use spsock.Task.Tokens.{append_single-Owned}

next-IsValid :
    (cap : ℕ) (b : Batch) (num : ℕ) → IsValid cap b → num ≤ b.size → IsValid cap (next cap b num)
next-IsValid cap b num v few = record {
  sized = v.sized;
  small = v.small;
  back_in = mod_bound (b.back + num) cap (omega (arith, v.back_in));
  fits = omega (arith, v.fits);
  ends = v.ends ∙ ap (λ k. k % cap) (omega arith) ∙ sym (mod_shift b.back num (b.size - num) cap);
}

given_up-IsValid : (cap : ℕ) (b : Batch) → IsValid cap b → IsValid cap (given_up b)
given_up-IsValid cap b v =
    let lt : b.front < cap =
      omega (arith, v.ends, mod_bound (b.back + b.size) cap (omega (arith, v.back_in))) in
    record {
      sized = v.sized;
      small = v.small;
      back_in = lt;
      fits = omega arith;
      ends = sym (ap (λ k. k % cap) (omega arith) ∙ mod-eq_of_lt lt);
    }

-- What `commit` leaves of a batch, if it returns.
abbrev Cleared : ℕ → Option (Batch × Pool × List ℕ) → Type 0
Cleared cap none = Unit
Cleared cap (some (b', p', again)) = IsValid cap b' × (b'.size ≡ 0)

commit-Cleared :
    (fuel cap : ℕ) (b : Batch) (p : Pool) → IsValid cap b → Cleared cap (commit fuel cap b p)
commit-Cleared zero cap b p v = unfold commit in tt
commit-Cleared (suc fuel) cap b p v = elim (dec_lt 0 b.size) [
  | no empty ↦ rw (commit-empty fuel cap b p (omega arith)) (v, omega arith)
  | yes pos ↦
      let num = min b.size (cap - b.back) in
      let few : num ≤ b.size = omega arith in
      rw (commit-round fuel cap b p num v pos (omega arith)) (
        handed num few (λ b' p' v'. commit-Cleared fuel cap b' p' v')
          (submit (slice b.tasks b.back num) p))
]
  where
    handed :
        (num : ℕ)
        → num ≤ b.size
        → ((b' : Batch) (p' : Pool) → IsValid cap b' → Cleared cap (commit fuel cap b' p'))
        → (r : ℕ × Pool) → Cleared cap (round fuel cap b num r)
    handed num few rest (taken, p') = elim (Bool-cases (taken == num)) [
      | inr short ↦ rw short (given_up-IsValid cap b v, omega arith)
      | inl all ↦ elim (Bool-cases (b.size - num == 0)) [
        | inl done ↦ rw (all, done) (next-IsValid cap b num v few, ground arith)
        | inr more ↦ rw (all, more) (rest (next cap b num) p' (next-IsValid cap b num v few))
      ]
    ]

-- The batch and the pool as an I/O thread has them between two submissions.
abbrev pub Prepared : ℕ → UtilTask → Pool → Type 0
Prepared cap u p = Tally.IsValid p × ((cap ≡ 1) ⊎ (IsValid cap u.tm × (u.tm.size < cap)))

-- `commit` with the fuel that the code needs, from a valid batch.
abbrev Committed : ℕ → Option (Batch × Pool × List ℕ) → Type 0
Committed cap none = ⊥
Committed cap (some (b', p', again)) = Tally.IsValid p' × IsValid cap b' × (b'.size ≡ 0)

commit-Committed :
    (cap : ℕ) (b : Batch) (p : Pool)
    → IsValid cap b
    → Tally.IsValid p
    → Committed cap (commit 3 cap b p)
commit-Committed cap b p v good =
    both (commit 3 cap b p) (commit-Outcome cap b v 1 p good) (commit-Cleared 3 cap b p v)
  where
    both :
        (r : Option (Batch × Pool × List ℕ))
        → Outcome (cap - b.back) (pending cap b) p r
        → Cleared cap r
        → Committed cap r
    both none h k = h
    both (some (b', p', again)) (good', h) (v', e) = (good', v', e)

added-IsValid :
    (cap : ℕ) (t : SockTask) (b : Batch)
    → IsValid cap b
    → b.size < cap
    → IsValid cap (record b {
      tasks = set b.tasks b.front t;
      front = u32 (b.front + 1) % cap;
      size = u32 (b.size + 1);
    })
added-IsValid cap t b v room =
    let lt : b.front < cap =
      omega (arith, v.ends, mod_bound (b.back + b.size) cap (omega (arith, v.back_in))) in
    record {
      sized = length-set b.tasks b.front t ∙ v.sized;
      small = v.small;
      back_in = v.back_in;
      fits = omega (arith, v.small);
      ends =
          ap (λ k. k % cap) (omega (arith, v.small))
          ∙ ap (λ k. (k + 1) % cap) v.ends
          ∙ mod_shift b.back b.size 1 cap
          ∙ ap (λ k. (b.back + k) % cap) (omega (arith, v.small));
    }

-- What an I/O thread finds after a submission or a `reset`.
abbrev pub IsReady : ℕ → Option (UtilTask × Pool × List ℕ) → Type 0
IsReady cap none = ⊥
IsReady cap (some (u', p', again)) = Prepared cap u' p'

module _ (cap : ℕ) where
  abbrev Roomy : Option (Batch × Pool × List ℕ) → Type 0
  Roomy none = ⊥
  Roomy (some (b', p', again)) = Tally.IsValid p' × IsValid cap b' × (b'.size < cap)

  Committed-Roomy :
      (first : List ℕ) (r : Option (Batch × Pool × List ℕ))
      → 0 < cap
      → Committed cap r
      → Roomy (elim r [ none ↦ none | some (b'', p', more) ↦ some (b'', p', first ++ more) ])
  Committed-Roomy first none pos h = h
  Committed-Roomy first (some (b', p', more)) pos (good, v, e) = (good, v, omega arith)

  append_batch-Roomy :
      (t : SockTask) (b : Batch) (p : Pool)
      → IsValid cap b
      → b.size < cap
      → Tally.IsValid p
      → Roomy (append_batch cap t b p)
  unfolding append_batch
  append_batch-Roomy t b p v room good =
      let v' = added-IsValid cap t b v room in
      let first : List ℕ = if b.flag then [] else t.ctx ∷ [] in
      elim (Bool-cases (u32 (b.size + 1) == cap)) [
        | inl full ↦
            rw full (Committed-Roomy first _ (omega arith) (commit-Committed cap _ p v' good))
        | inr more ↦ rw more (
          good,
          v',
          (let small = v.small in
              let u : u32 (b.size + 1) ≡ b.size + 1 = omega (arith, small) in ground (arith, u)),
        )
      ]

  -- A submission by an I/O thread ends, and leaves its batch with room for the next and the pool in
  -- good order; so does `reset`.
  pub append-IsReady :
      (t : SockTask) (u : UtilTask) (p : Pool) → Prepared cap u p → IsReady cap (append cap t u p)
  unfolding append
  append-IsReady t u p (good, inl one) =
      let e : (cap == 1) ≡ true = ground arith in
      let (good', h) = append_single-Owned t u.ts_flag p good in rw e (good', inl one)
  append-IsReady t u p (good, inr (v, room)) = elim (Bool-cases (cap == 1)) [
    | inl one ↦
        let (good', h) = append_single-Owned t u.ts_flag p good in
        rw one (good', inl (ground arith))
    | inr several ↦
        rw several (given (append_batch cap t u.tm p) (append_batch-Roomy t u.tm p v room good))
  ]
    where
      given :
          (r : Option (Batch × Pool × List ℕ))
          → Roomy r
          → IsReady cap
              (elim r [ none ↦ none | some (b, p'', more) ↦ some (record u { tm = b }, p'', more) ])
      given none h = h
      given (some (b, p', more)) (good', v', room') = (good', inr (v', room'))

  pub reset-IsReady : (u : UtilTask) (p : Pool) → Prepared cap u p → IsReady cap (reset cap u p)
  unfolding reset
  reset-IsReady u p (good, inl one) =
      let e : (cap == 1) ≡ true = ground arith in rw e (good, inl one)
  reset-IsReady u p (good, inr (v, room)) = elim (Bool-cases (cap == 1)) [
    | inl one ↦ rw one (good, inl (ground arith))
    | inr several ↦ rw several (given (commit 3 cap u.tm p) (commit-Committed cap u.tm p v good))
  ]
    where
      given :
          (r : Option (Batch × Pool × List ℕ))
          → Committed cap r
          → IsReady cap (elim r [
            | none ↦ none
            | some (b, p', done) ↦ some (record u { tm = record b { flag = true } }, p', done)
          ])
      given none h = h
      given (some (b, p', done)) (good', v', e) = (
        good',
        inr (
          record {
            sized = v'.sized;
            small = v'.small;
            back_in = v'.back_in;
            fits = v'.fits;
            ends = v'.ends;
          },
          omega (arith, v'.back_in),
        ),
      )
