-- ===== src/BlockQueue/Bounded.antt =====
-- The queue as a bounded first-in-first-out list, over any sequence of calls.
use spsock.Prelude.{
  ℕ, zero, suc, ◌-◌, ◌≡◌, refl, sym, ap, ap₂, ◌∙◌, inl, inr, List, [], ◌∷◌, ◌++◌, map, Option, none,
  some, Bool, true, false, arith, u32, ◌+◌, min, length, take, drop, ltb, if◌then◌else◌,
  length-tabulate,
}
use spsock.BlockQueue.{
  Queue, put, put_all, push, pop, pop_one, take_out, take_all_out, pop_some, push_bulk, pop_bulk,
}
use spsock.BlockQueue.Ring.{IsValid, span, held}
use spsock.BlockQueue.Fifo.{push_lem, pop_lem, push_bulk_lem, pop_bulk_lem}

pub data Call {ℓ} (A : Type ℓ) : Type ℓ where
  pushes : A → Call A
  pushes_bulk : List A → Call A
  pops : Call A
  pops_bulk : ℕ → Call A

-- What a call answers its caller.
pub data Answer {ℓ} (A : Type ℓ) : Type ℓ where
  pushed : Bool → Answer A
  pushed_bulk : ℕ → Answer A
  popped : Bool → Option A → Answer A
  popped_bulk : List (Option A) → Answer A

module _ {ℓ} {A : Type ℓ} where
  unfoldable pub call : Call A → Queue A → Answer A × Queue A
  call (pushes a) q = let (r, q') = push a q in (pushed r.0, q')
  call (pushes_bulk xs) q = let (r, q') = push_bulk xs q in (pushed_bulk r.0, q')
  call pops q = let (r, q') = pop q in (popped r.0 r.1, q')
  call (pops_bulk n) q = let (xs, q') = pop_bulk n q in (popped_bulk xs, q')

  unfoldable pub calls : List (Call A) → Queue A → List (Answer A) × Queue A
  calls [] q = ([], q)
  calls (c ∷ cs) q = let (a, q') = call c q in let (rest, q'') = calls cs q' in (a ∷ rest, q'')

  -- The same of a list that has room for `cap` elements.
  unfoldable pub list_call : ℕ → Call A → List (Option A) → Answer A × List (Option A)
  list_call cap (pushes a) l =
      if ltb (length l) cap then (pushed true, l ++ (some a ∷ [])) else (pushed false, l)
  list_call cap (pushes_bulk xs) l =
      let n = min (length xs) (cap - length l) in (pushed_bulk n, l ++ map some (take n xs))
  list_call cap pops [] = (popped false none, [])
  list_call cap pops (x ∷ l) = (popped true x, l)
  list_call cap (pops_bulk n) l = (popped_bulk (take n l), drop n l)

  unfoldable pub list_calls :
      ℕ → List (Call A) → List (Option A) → List (Answer A) × List (Option A)
  list_calls cap [] l = ([], l)
  list_calls cap (c ∷ cs) l =
      let (a, l') = list_call cap c l in let (rest, l'') = list_calls cap cs l' in (a ∷ rest, l'')

  length-held : (q : Queue A) → length (held q) ≡ q.size
  length-held q = length-tabulate q.size _

  -- The capacity does not change.
  max_size-put_all : (n : ℕ) (xs : List A) (q : Queue A) → (put_all n xs q).max_size ≡ q.max_size
  unfolding put_all put
  max_size-put_all zero xs q = refl
  max_size-put_all (suc n) [] q = refl
  max_size-put_all (suc n) (x ∷ xs) q = max_size-put_all n xs (put x q)

  max_size-take_all_out : (n : ℕ) (q : Queue A) → (take_all_out n q).1.max_size ≡ q.max_size
  unfolding take_all_out take_out
  max_size-take_all_out zero q = refl
  max_size-take_all_out (suc n) q = max_size-take_all_out n (take_out q).1

  max_size-call : (c : Call A) (q : Queue A) → (call c q).1.max_size ≡ q.max_size
  unfolding call push push_bulk pop pop_bulk pop_one pop_some put take_out
  max_size-call (pushes a) q = ground arith
  max_size-call (pushes_bulk xs) q =
      ground
        (arith, max_size-put_all (min (length xs) (u32 (q.max_size + 4294967296 - q.size))) xs q)
  max_size-call pops q = ground arith
  max_size-call (pops_bulk n) q = ground (arith, max_size-take_all_out (min n q.size) q)

  -- What was taken from the front, by its length.
  front :
      (n : ℕ) (xs ys : List (Option A))
      → length xs ≡ min n (length (xs ++ ys))
      → (xs ≡ take n (xs ++ ys)) × (ys ≡ drop n (xs ++ ys))
  front zero [] ys e = (refl, refl)
  front zero (x ∷ xs) ys e = absurd (omega arith)
  front (suc n) [] [] e = (refl, refl)
  front (suc n) [] (y ∷ ys) e = absurd (omega arith)
  front (suc n) (x ∷ xs) ys e = let (a, b) = front n xs ys (omega arith) in (ap (◌∷◌ x) a, b)

  -- One call on a valid queue answers as on the list of its elements, and leaves the queue valid and
  -- with the elements that the list then has.
  call_lem :
      (c : Call A) (q : Queue A)
      → IsValid q
      → IsValid (call c q).1 × (((call c q).0, held (call c q).1) ≡ list_call q.max_size c (held q))
  unfolding call list_call
  call_lem (pushes a) q v = elim (push_lem a q v) [
    | inl (full, e) ↦
        let z : ltb (length (held q)) q.max_size ≡ false = ground (arith, length-held q) in
        rw (e, z) (v, refl)
    | inr (room, ans, good, h) ↦
        let z : ltb (length (held q)) q.max_size ≡ true = ground (arith, length-held q) in
        rw z (good, ap₂ (λ r l. (pushed r.0, l)) ans h)
  ]
  call_lem (pushes_bulk xs) q v =
      let (n, good, h) = push_bulk_lem xs q v in
      rw (length-held q) (good, ap₂ (λ k l. (pushed_bulk k, l)) n h)
  call_lem pops q v = elim (pop_lem q v) [
    | inl (empty, e) ↦
        let nothing : held q ≡ [] = ap (span q) empty in
        rw e (
          v,
          ap (λ l. (popped false none, l)) nothing ∙ sym (ap (list_call q.max_size pops) nothing),
        )
    | inr (ok, good, h) ↦ (
      good,
      ap (λ b. (popped b (pop q).0.1, held (pop q).1)) ok ∙ sym (ap (list_call q.max_size pops) h),
    )
  ]
  call_lem (pops_bulk n) q v =
      let (len, good, h) = pop_bulk_lem n q v in
      let (a, b) =
        front n (pop_bulk n q).0 (held (pop_bulk n q).1)
          (len ∙ ap (min n) (sym (length-held q)) ∙ ap (λ l. min n (length l)) h) in
      (good, ap₂ (λ x l. (popped_bulk x, l)) (a ∙ sym (ap (take n) h)) (b ∙ sym (ap (drop n) h)))

  -- Over any sequence of pushes and pops, single and in bulk, a valid queue gives the answers that a
  -- list with room for `max_size` elements gives, and holds in the end what that list holds.
  pub calls-list_calls :
      (cs : List (Call A)) (q : Queue A)
      → IsValid q
      → IsValid (calls cs q).1
        × (((calls cs q).0, held (calls cs q).1) ≡ list_calls q.max_size cs (held q))
  unfolding calls list_calls
  calls-list_calls [] q v = (v, refl)
  calls-list_calls (c ∷ cs) q v =
      let (good, e) = call_lem c q v in
      let q' : Queue A = (call c q).1 in
      let (good', h) = calls-list_calls cs q' good in
      let cap = max_size-call c q in
      (
        good',
        ap (λ r. ((call c q).0 ∷ r.0, r.1)) h
            ∙ ap (λ k. let (rest, l) = list_calls k cs (held q') in ((call c q).0 ∷ rest, l)) cap
            ∙ ap (λ r. let (rest, l) = list_calls q.max_size cs r.1 in (r.0 ∷ rest, l)) e,
      )
