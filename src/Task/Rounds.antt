-- ===== src/Task/Rounds.antt =====
-- One round of `commit`: what is handed to the pool, and what is done with the rest.
use spsock.Prelude.{
  ℕ, suc, ◌+◌, ◌-◌, ◌%◌, ◌≤◌, ◌<◌, ◌≡◌, refl, sym, ap, ◌∙◌, inl, inr, List, [], ◌∷◌, map, Option,
  some, Bool, true, false, arith, u32, ltb, ◌==◌, min, length, get_or, take, drop, slice, tabulate,
  tabulate_ext, take-tabulate, drop-tabulate, count_if, if◌then◌else◌, Bool-cases,
}
use spsock.ThreadPool
use spsock.ThreadPool.Tally
use spsock.ThreadPool.Tally.{tally}
use spsock.ThreadPool.Submit.{worth, append-Took, append_bulk-TookMany, TookMany}
use spsock.Task.{SockTask, Batch, Pool, no_task, submit, commit}
use spsock.Task.Pending.{IsValid, task_at, pending, ctx_of, map-tabulate}

-- What one round hands to the pool.
one_task : (t : SockTask) (ts : List SockTask) → length ts ≡ 1 → ts ≡ get_or ts 0 t ∷ []
one_task t [] e = absurd (omega arith)
one_task t (x ∷ []) e = refl
one_task t (x ∷ y ∷ ts) e = absurd (omega arith)

append-TookMany :
    (ts : List SockTask) (p : Pool)
    → Tally.IsValid p
    → length ts ≡ 1
    → let (ok, p') = ThreadPool.append (get_or ts 0 no_task) p in
      TookMany ts p (if ok then 1 else 0, p')
append-TookMany ts p v e =
    let t : SockTask = get_or ts 0 no_task in
    let (good, len, adds) = append-Took t p v in
    let ok : Bool = (ThreadPool.append t p).0 in
    (good, len, few ok, λ c. adds c ∙ ap (◌+◌ (tally c p)) (same c ok))
  where
    few : (ok : Bool) → (if ok then 1 else 0) ≤ length ts
    few ok = ground arith

    same :
        (c : Option SockTask → Bool) (ok : Bool)
        → worth c (get_or ts 0 no_task) ok ≡ count_if c (map some (take (if ok then 1 else 0) ts))
    same c true = ap (λ k. count_if c (map some (take 1 k))) (sym (one_task no_task ts e))
    same c false = refl

pub submit-TookMany :
    (ts : List SockTask) (p : Pool) → Tally.IsValid p → TookMany ts p (submit ts p)
unfolding submit
submit-TookMany ts p v = elim (Bool-cases (length ts == 1)) [
  | inl e ↦ rw e (append-TookMany ts p v (ground arith))
  | inr e ↦ rw e (append_bulk-TookMany ts p v)
]

-- A round of `commit` in numbers that do not wrap: `num` tasks are handed over.
abbrev pub next : ℕ → Batch → ℕ → Batch
next cap b num = record b { size = b.size - num; back = (b.back + num) % cap }

abbrev pub given_up : Batch → Batch
given_up b = record b { back = b.front; size = 0; flag = false }

abbrev pub listened : ℕ → Batch → ℕ → ℕ → List ℕ
listened cap b num taken =
    tabulate (num - taken) (λ i. (get_or b.tasks (u32 (b.back + taken + i) % cap) no_task).ctx)

abbrev pub round : ℕ → ℕ → Batch → ℕ → ℕ × Pool → Option (Batch × Pool × List ℕ)
round fuel cap b num (taken, p) =
    let again = commit fuel cap (next cap b num) p in
    if taken == num
    then (if b.size - num == 0 then some (next cap b num, p, []) else again)
    else some (given_up b, p, listened cap b num taken)

pub commit-round :
    (fuel cap : ℕ) (b : Batch) (p : Pool) (num : ℕ)
    → IsValid cap b
    → 0 < b.size
    → num ≡ min b.size (cap - b.back)
    → commit (suc fuel) cap b p ≡ round fuel cap b num (submit (slice b.tasks b.back num) p)
unfolding commit
commit-round fuel cap b p num v pos e =
    let d : u32 (cap + 4294967296 - b.back) ≡ cap - b.back = omega (arith, v.small, v.back_in) in
    let z : (if ltb b.size (cap - b.back) then b.size else cap - b.back) ≡ num = ground arith in
    let w : u32 (b.size + 4294967296 - num) ≡ b.size - num = omega (arith, v.fits, v.small) in
    let u : u32 (b.back + num) ≡ b.back + num = omega (arith, v.back_in, v.small) in
    rw (d, z, w, u) (ground arith)

pub commit-empty :
    (fuel cap : ℕ) (b : Batch) (p : Pool) → b.size ≡ 0 → commit (suc fuel) cap b p ≡ some (b, p, [])
unfolding commit
commit-empty fuel cap b p e = ground arith

-- The connections that are listened to again are those of the tasks between the first that was not
-- taken and the end of what was handed over.
pub listened_lem :
    (cap : ℕ) (b : Batch) (num taken : ℕ)
    → IsValid cap b
    → taken ≤ num
    → num ≤ b.size
    → listened cap b num taken ≡ map ctx_of (drop taken (take num (pending cap b)))
listened_lem cap b num taken v le le' =
    let f : ℕ → SockTask = task_at cap b in
    tabulate_ext (num - taken) (λ i. (get_or b.tasks (u32 (b.back + taken + i) % cap) no_task).ctx)
      (λ i. (f (taken + i)).ctx)
      (λ i lt.
        let u : u32 (b.back + taken + i) ≡ b.back + (taken + i) =
          omega (arith, v.small, v.back_in, v.fits) in
        ap (λ k. (get_or b.tasks (k % cap) no_task).ctx) u)
    ∙ sym (map-tabulate ctx_of (num - taken) (λ i. f (taken + i)))
    ∙ ap (map ctx_of)
        (sym (ap (drop taken) (take-tabulate num b.size f le') ∙ drop-tabulate taken num f le))
