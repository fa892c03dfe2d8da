-- ===== src/BlockQueue/Ring.antt =====
-- The ring of nodes: constructing an element at the tail, and removing one from the head.
use spsock.Prelude.{
  ℕ, suc, ◌+◌, ◌%◌, ◌≤◌, ◌<◌, ◌≡◌, ◌≢◌, sym, ap, ap₂, ◌∙◌, inl, inr, List, [], ◌∷◌, ◌++◌, Option,
  none, some, arith, length, get_or, set, tabulate, length-set, get_or-set_self, get_or-set_ne,
  tabulate_ext, tabulate-add, mod_cases, mod_bound, mod_shift,
}
use native.Mathlib.Nat.{mod-eq_of_lt}
use spsock.BlockQueue.{Queue, slots, next, put, take_out}

module _ {ℓ} {A : Type ℓ} where
  abbrev pub slot_at : Queue A → ℕ → Option A
  slot_at q i = get_or (slots q) ((q.head + i) % q.max_size) none

  -- The slots of `n` elements, from the head on.
  abbrev pub span : Queue A → ℕ → List (Option A)
  span q n = tabulate n (slot_at q)

  -- What stands in the queue, oldest first.
  abbrev pub held : Queue A → List (Option A)
  held q = span q q.size

  -- A ring in which `n` elements lie between head and tail.
  pub record Spans (q : Queue A) (n : ℕ) : Type ℓ where
    pub sized : length (slots q) ≡ q.max_size
    pub small : q.max_size < 4294967296
    pub head_in : q.head < q.max_size
    pub fits : n ≤ q.max_size
    pub ends : q.tail ≡ (q.head + n) % q.max_size

  abbrev pub IsValid : Queue A → Type ℓ
  IsValid q = Spans q q.size

  next-eq : (q : Queue A) (i : ℕ) → i < q.max_size → next q i ≡ (i + 1) % q.max_size
  next-eq q i h = elim (mod_cases i 1 q.max_size h (omega arith)) [
    | inl (below, e) ↦ ground (arith, e)
    | inr (above, e) ↦ ground (arith, e)
  ]

  apart :
      (q : Queue A) (n i : ℕ)
      → Spans q n
      → n < q.max_size
      → i < n
      → q.tail ≢ (q.head + i) % q.max_size
  apart q n i v lt k e = elim (mod_cases q.head i q.max_size v.head_in (omega arith)) [
    | inl (p, f) ↦ elim (mod_cases q.head n q.max_size v.head_in v.fits) [
      | inl (r, g) ↦ omega (arith, v.ends, v.head_in)
      | inr (r, g) ↦ omega (arith, v.ends, v.head_in)
    ]
    | inr (p, f) ↦ elim (mod_cases q.head n q.max_size v.head_in v.fits) [
      | inl (r, g) ↦ omega (arith, v.ends, v.head_in)
      | inr (r, g) ↦ omega (arith, v.ends, v.head_in)
    ]
  ]

  pub put-Spans :
      (a : A) (q : Queue A) (n : ℕ)
      → Spans q n
      → n < q.max_size
      → Spans (put a q) (n + 1) × (span (put a q) (n + 1) ≡ span q n ++ (some a ∷ []))
  unfolding put
  put-Spans a q n v lt =
      let t : q.tail < q.max_size =
        omega (arith, v.ends, mod_bound (q.head + n) q.max_size (omega arith)) in
      (
        record {
          sized = length-set (slots q) q.tail (some a) ∙ v.sized;
          small = v.small;
          head_in = v.head_in;
          fits = omega arith;
          ends =
              next-eq q q.tail t
              ∙ ap (λ k. (k + 1) % q.max_size) v.ends
              ∙ mod_shift q.head n 1 q.max_size;
        },
        tabulate-add n 1 (slot_at (put a q))
            ∙ ap₂ ◌++◌
                (tabulate_ext n (slot_at (put a q)) (slot_at q) (λ i k.
                  get_or-set_ne (slots q) q.tail ((q.head + i) % q.max_size) (some a) none
                    (apart q n i v lt k)))
                (ap (λ x. x ∷ [])
                  (ap (λ k. get_or (set (slots q) q.tail (some a)) k none)
                      (ap (λ k. (q.head + k) % q.max_size) (omega arith) ∙ sym v.ends)
                    ∙ get_or-set_self (slots q) q.tail (some a) none (omega (arith, v.sized)))),
      )

  pub take_out-Spans :
      (q : Queue A) (n : ℕ)
      → Spans q (suc n)
      → Spans (take_out q).1 n × (span q (suc n) ≡ (take_out q).0 ∷ span (take_out q).1 n)
  unfolding take_out
  take_out-Spans q n v =
      let hd = next-eq q q.head v.head_in in
      (
        record {
          sized = length-set (slots q) q.head none ∙ v.sized;
          small = v.small;
          head_in = omega (arith, hd, mod_bound (q.head + 1) q.max_size (omega (arith, v.head_in)));
          fits = omega (arith, v.fits);
          ends =
              v.ends
              ∙ ap (λ k. (q.head + k) % q.max_size) (omega arith)
              ∙ sym (mod_shift q.head 1 n q.max_size)
              ∙ ap (λ k. (k + n) % q.max_size) (sym hd);
        },
        ap₂ ◌∷◌
            (ap (λ k. get_or (slots q) k none)
              (ap (λ k. k % q.max_size) (omega arith) ∙ mod-eq_of_lt v.head_in))
            (tabulate_ext n (λ i. slot_at q (suc i)) (slot_at (take_out q).1)
              (λ i k.
                let place : (q.head + suc i) % q.max_size ≡ (next q q.head + i) % q.max_size =
                  ap (λ j. (q.head + j) % q.max_size) (omega arith)
                  ∙ sym (mod_shift q.head 1 i q.max_size)
                  ∙ ap (λ j. (j + i) % q.max_size) (sym hd) in
                ap (λ j. get_or (slots q) j none) place
                ∙ sym (
                    get_or-set_ne (slots q) q.head ((next q q.head + i) % q.max_size) none none
                      (λ e. first_apart i k (e ∙ sym place))))),
      )
    where
      first_apart : (i : ℕ) → i < n → q.head ≢ (q.head + suc i) % q.max_size
      first_apart i k e =
          elim (mod_cases q.head (suc i) q.max_size v.head_in (omega (arith, v.fits))) [
            | inl (p, f) ↦ omega (arith, v.fits)
            | inr (p, f) ↦ omega (arith, v.fits)
          ]
