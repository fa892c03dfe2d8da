-- ===== src/Task/Batches.antt =====
-- `commit` of a batch of tasks: how many rounds it takes.
use spsock.Prelude.{
  ℕ, suc, ◌+◌, ◌-◌, ◌%◌, ◌≤◌, ◌<◌, ◌≡◌, ◌≢◌, ap, ◌∙◌, none, arith, u32, slice, if◌then◌else◌, ltb,
}
use native.Mathlib.Decide.{dec_lt}
use native.Mathlib.Nat.{mod_self}
use spsock.Task.{Batch, Pool, commit, submit}

-- A batch whose tasks do not pass the end of the array is committed in one round.
commit_ends_in_line :
    (fuel cap : ℕ) (b : Batch) (p : Pool)
    → cap < 4294967296
    → b.back ≤ cap
    → b.size ≤ cap - b.back
    → commit (suc fuel) cap b p ≢ none
unfolding commit
commit_ends_in_line fuel cap b p small in_array fits e =
    let d : u32 (cap + 4294967296 - b.back) ≡ cap - b.back = omega arith in
    let z : (if ltb b.size (cap - b.back) then b.size else cap - b.back) ≡ b.size = ground arith in
    absurd (ground (arith, d, z))

-- Two rounds are enough for a batch that holds at most as many tasks as its array and starts within
-- it: `commit` calls itself at most once.
pub commit_ends :
    (fuel cap : ℕ) (b : Batch) (p : Pool)
    → cap < 4294967296
    → b.back < cap
    → b.size ≤ cap
    → commit (suc (suc fuel)) cap b p ≢ none
unfolding commit
commit_ends fuel cap b p small in_array fits e = elim (dec_lt (cap - b.back) b.size) [
  | no in_line ↦ commit_ends_in_line (suc fuel) cap b p small (omega arith) (omega arith) e
  | yes past ↦
      let d : u32 (cap + 4294967296 - b.back) ≡ cap - b.back = omega arith in
      let z : (if ltb b.size (cap - b.back) then b.size else cap - b.back) ≡ cap - b.back =
        ground arith in
      let u : u32 (b.back + (cap - b.back)) % cap ≡ 0 =
        ap (λ k. k % cap) (omega arith) ∙ mod_self cap in
      let w : u32 (b.size + 4294967296 - (cap - b.back)) ≡ b.size - (cap - b.back) = omega arith in
      let num : ℕ = cap - b.back in
      let b' : Batch = record b {
        size = u32 (b.size + 4294967296 - num);
        back = u32 (b.back + num) % cap;
      } in
      let again =
        commit_ends_in_line fuel cap b' (submit (slice b.tasks b.back num) p).1 small
          (omega (arith, u)) (omega (arith, u, w)) in
      absurd (ground (arith, d, z, again))
]
