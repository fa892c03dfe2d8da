-- ===== src/BlockQueue/Fifo.antt =====
-- The queue is a bounded FIFO: what each operation does to the sequence of its elements.
use spsock.Prelude.{
  ℕ, zero, suc, ◌+◌, ◌-◌, ◌≤◌, ◌<◌, ◌≡◌, refl, sym, ap, ◌∙◌, ◌⊎◌, inl, inr, List, [], ◌∷◌, ◌++◌,
  none, some, true, false, Bool-cases, arith, u32, ◌==◌, length, take, map, min, if◌then◌else◌,
  append-nil, append_assoc,
}
use mathlib.Core.Path.{subst}
use native.Mathlib.Decide.{dec_lt}
use spsock.BlockQueue.{
  Queue, put, put_all, take_out, take_all_out, push, pop_one, pop, one, nobody, everybody,
  push_bulk, pop_some, pop_bulk,
}
use spsock.BlockQueue.Ring.{Spans, IsValid, span, held, put-Spans, take_out-Spans}

-- What `put_all` and `take_all_out` leave alone.
module _ {ℓ} {A : Type ℓ} where
  max_size-put_all : (n : ℕ) (xs : List A) (q : Queue A) → (put_all n xs q).max_size ≡ q.max_size
  unfolding put_all put
  max_size-put_all zero xs q = refl
  max_size-put_all (suc n) [] q = refl
  max_size-put_all (suc n) (x ∷ xs) q = max_size-put_all n xs (put x q)

  size-put_all : (n : ℕ) (xs : List A) (q : Queue A) → (put_all n xs q).size ≡ q.size
  unfolding put_all put
  size-put_all zero xs q = refl
  size-put_all (suc n) [] q = refl
  size-put_all (suc n) (x ∷ xs) q = size-put_all n xs (put x q)

  size-take_all_out : (n : ℕ) (q : Queue A) → (take_all_out n q).1.size ≡ q.size
  unfolding take_all_out take_out
  size-take_all_out zero q = refl
  size-take_all_out (suc n) q = size-take_all_out n (take_out q).1

  length-take_all_out : (n : ℕ) (q : Queue A) → length (take_all_out n q).0 ≡ n
  unfolding take_all_out
  length-take_all_out zero q = refl
  length-take_all_out (suc n) q = ap suc (length-take_all_out n (take_out q).1)

  max_size-put : (a : A) (q : Queue A) → (put a q).max_size ≡ q.max_size
  unfolding put
  max_size-put a q = refl

  put_all-Spans :
      (n m : ℕ) (xs : List A) (q : Queue A)
      → Spans q m
      → n ≤ length xs
      → m + n ≤ q.max_size
      → Spans (put_all n xs q) (m + n)
        × (span (put_all n xs q) (m + n) ≡ span q m ++ map some (take n xs))
  unfolding put_all
  put_all-Spans zero m xs q v e le =
      let z : m ≡ m + zero = omega arith in
      (subst (Spans q) z v, ap (span q) (sym z) ∙ sym (append-nil (span q m)))
  put_all-Spans (suc n) m [] q v e le = absurd (omega arith)
  put_all-Spans (suc n) m (x ∷ xs) q v e le =
      let p = put-Spans x q m v (omega arith) in
      let r =
        put_all-Spans n (m + 1) xs (put x q) p.0 (omega arith) (omega (arith, max_size-put x q)) in
      let z : m + 1 + n ≡ m + suc n = omega arith in
      (
        subst (Spans (put_all n xs (put x q))) z r.0,
        ap (span (put_all n xs (put x q))) (sym z)
            ∙ r.1
            ∙ ap (λ k. k ++ map some (take n xs)) p.1
            ∙ append_assoc (span q m) (some x ∷ []) (map some (take n xs)),
      )

  take_all_out-Spans :
      (n m : ℕ) (q : Queue A)
      → Spans q (n + m)
      → Spans (take_all_out n q).1 m
        × (span q (n + m) ≡ (take_all_out n q).0 ++ span (take_all_out n q).1 m)
  unfolding take_all_out
  take_all_out-Spans zero m q v =
      let z : zero + m ≡ m = omega arith in (subst (Spans q) z v, ap (span q) z)
  take_all_out-Spans (suc n) m q v =
      let z : suc n + m ≡ suc (n + m) = omega arith in
      let p = take_out-Spans q (n + m) (subst (Spans q) z v) in
      let r = take_all_out-Spans n m (take_out q).1 p.0 in
      (r.0, ap (span q) z ∙ p.1 ∙ ap (◌∷◌ (take_out q).0) r.1)

  -- The number of elements that a queue counts does not matter to its ring.
  resized : (q : Queue A) (k n : ℕ) → Spans q n → Spans (record q { size = k }) n
  resized q k n v = record {
    sized = v.sized;
    small = v.small;
    head_in = v.head_in;
    fits = v.fits;
    ends = v.ends;
  }

  -- A push into a valid queue is refused, with no change and nobody woken, exactly when the queue
  -- is full; otherwise it appends the element, wakes one waiting thread, and the queue stays
  -- valid.
  pub push_lem :
      (a : A) (q : Queue A)
      → IsValid q
      → ((q.size ≡ q.max_size) × (push a q ≡ ((false, nobody), q)))
        ⊎ ((q.size < q.max_size)
            × ((push a q).0 ≡ (true, one))
            × IsValid (push a q).1
            × (held (push a q).1 ≡ held q ++ (some a ∷ [])))
  unfolding push
  push_lem a q v = elim (Bool-cases (q.size == q.max_size)) [
    | inl full ↦ inl (ground arith, rw full)
    | inr room ↦
        let lt : q.size < q.max_size = ground (arith, v.fits) in
        let e : u32 (q.size + 1) ≡ q.size + 1 = omega (arith, v.small) in
        let q' : Queue A = record q { size = u32 (q.size + 1) } in
        let p = put-Spans a q' q.size (resized q (u32 (q.size + 1)) q.size v) lt in
        let s : (put a q').size ≡ q.size + 1 = unfold put in e in
        rw room (inr (lt, refl, subst (Spans (put a q')) (sym s) p.0, ap (span (put a q')) s ∙ p.1))
  ]

  -- `pop` of a valid queue fails without a change exactly when the queue is empty; otherwise it
  -- hands over the oldest element and leaves the others, in order, in a valid queue.
  pub pop_lem :
      (q : Queue A)
      → IsValid q
      → ((q.size ≡ 0) × (pop q ≡ ((false, none), q)))
        ⊎ (((pop q).0.0 ≡ true) × IsValid (pop q).1 × (held q ≡ (pop q).0.1 ∷ held (pop q).1))
  unfolding pop pop_one
  pop_lem q v = elim (Bool-cases (q.size == 0)) [
    | inl empty ↦ inl (ground arith, rw empty)
    | inr more ↦
        let n : ℕ = q.size - 1 in
        let z : q.size ≡ suc n = ground arith in
        let e : u32 (q.size + 4294967295) ≡ n = omega (arith, v.small, v.fits) in
        let q' : Queue A = record q { size = u32 (q.size + 4294967295) } in
        let p = take_out-Spans q' n (resized q q'.size (suc n) (subst (Spans q) z v)) in
        let s : (take_out q').1.size ≡ n = unfold take_out in e in
        rw more (
          inr (
            refl,
            subst (Spans (take_out q').1) (sym s) p.0,
            ap (span q) z ∙ p.1 ∙ ap (λ k. (take_out q').0 ∷ span (take_out q').1 k) (sym s),
          ))
  ]

  -- `pushBulk` and `popBulk` in numbers that do not wrap.
  module _ (xs : List A) (q : Queue A) (v : IsValid q) where
    room : u32 (q.max_size + 4294967296 - q.size) ≡ q.max_size - q.size
    room = omega (arith, v.small, v.fits)

    push_bulk_nothing :
        min (length xs) (q.max_size - q.size) ≡ 0 → push_bulk xs q ≡ ((0, nobody), q)
    unfolding push_bulk
    push_bulk_nothing e = let r = room in ground arith

    push_bulk_some :
        0 < min (length xs) (q.max_size - q.size)
        → let n = min (length xs) (q.max_size - q.size) in
          push_bulk xs q ≡ (
            (n, if n == 1 then one else everybody),
            record (put_all n xs q) { size = u32 ((put_all n xs q).size + n) },
          )
    unfolding push_bulk
    push_bulk_some pos = rw room (ground arith)

  -- `pushBulk` of a valid queue stores as many elements as fit, the first in order, behind those
  -- that are there, returns their number, and leaves the queue valid.
  pub push_bulk_lem :
      (xs : List A) (q : Queue A)
      → IsValid q
      → let n = min (length xs) (q.max_size - q.size) in
        ((push_bulk xs q).0.0 ≡ n)
        × IsValid (push_bulk xs q).1
        × (held (push_bulk xs q).1 ≡ held q ++ map some (take n xs))
  unfolding push_bulk
  push_bulk_lem xs q v = elim (dec_lt 0 (min (length xs) (q.max_size - q.size))) [
    | no nothing ↦
        let e : min (length xs) (q.max_size - q.size) ≡ 0 = omega arith in
        rw (push_bulk_nothing xs q v e, e) (refl, v, sym (append-nil (held q)))
    | yes pos ↦
        let n : ℕ = min (length xs) (q.max_size - q.size) in
        let p = put_all-Spans n q.size xs q v (omega arith) (omega (arith, v.fits)) in
        let q' : Queue A = put_all n xs q in
        let s : u32 (q'.size + n) ≡ q.size + n =
          omega (arith, size-put_all n xs q, v.small, v.fits) in
        let r : Queue A = record q' { size = u32 (q'.size + n) } in
        rw (push_bulk_some xs q v pos) (
          refl,
          subst (Spans r) (sym s) (resized q' (u32 (q'.size + n)) (q.size + n) p.0),
          ap (span r) s ∙ p.1,
        )
  ]

  -- `popBulk` of a valid queue hands over as many elements as there are, at most `count`, the
  -- oldest in order, and leaves the others, in order, in a valid queue.
  pub pop_bulk_lem :
      (count : ℕ) (q : Queue A)
      → IsValid q
      → (length (pop_bulk count q).0 ≡ min count q.size)
        × IsValid (pop_bulk count q).1
        × (held q ≡ (pop_bulk count q).0 ++ held (pop_bulk count q).1)
  unfolding pop_bulk pop_some
  pop_bulk_lem count q v = elim (dec_lt 0 (min count q.size)) [
    | no nothing ↦
        let e : min count q.size ≡ 0 = omega arith in
        let same : pop_bulk count q ≡ ([], q) = unfold pop_bulk in ground arith in
        rw (same, e) (refl, v, refl)
    | yes pos ↦
        let n : ℕ = min count q.size in
        let m : ℕ = q.size - n in
        let z : q.size ≡ n + m = omega arith in
        let same : pop_bulk count q ≡ pop_some n q = unfold pop_bulk in ground arith in
        let p = take_all_out-Spans n m q (subst (Spans q) z v) in
        let q' : Queue A = (take_all_out n q).1 in
        let s : u32 (q'.size + 4294967296 - n) ≡ m =
          omega (arith, size-take_all_out n q, v.small, v.fits) in
        let r : Queue A = record q' { size = u32 (q'.size + 4294967296 - n) } in
        rw same (
          length-take_all_out n q,
          subst (Spans r) (sym s) (resized q' (u32 (q'.size + 4294967296 - n)) m p.0),
          ap (span q) z ∙ p.1 ∙ ap (λ k. (take_all_out n q).0 ++ span r k) (sym s),
        )
  ]
