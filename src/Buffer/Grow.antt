-- ===== src/Buffer/Grow.antt =====
-- A buffer that has grown by bytes behind its write position: which stores serve for it.
use spsock.Prelude.{
  ℕ, suc, ◌+◌, ◌%◌, ◌≤◌, ◌<◌, ◌≡◌, sym, ap, ap₂, ◌∙◌, ◌⊎◌, inl, inr, List, ◌++◌, arith, get_or,
  take, blit, length, get_or-blit_before, get_or-blit_after, get_or-blit_inside, take-tabulate,
  tabulate-get_or, tabulate-add, tabulate_ext, mod_shift, mod_cases,
}
use native.Mathlib.Nat.{mod-eq_of_lt}
use spsock.Buffer.{Buffer}
use spsock.Buffer.Valid.{IsValid, byte_at, contents}

-- `b` with a new store and `n` more bytes, in numbers that do not wrap.
abbrev pub grown : Buffer → List ℕ → ℕ → Buffer
grown b store n = record b { store = store; front = (b.front + n) % b.bsize; size = b.size + n }

pub grown-IsValid :
    {b : Buffer} (store : List ℕ) (n : ℕ)
    → IsValid b
    → length store ≡ b.bsize
    → b.size + n ≤ b.bsize
    → IsValid (grown b store n)
grown-IsValid {b} store n v sized le = record {
  sized = sized;
  nonempty = v.nonempty;
  small = v.small;
  back_in = v.back_in;
  fits = le;
  ends = ap (λ k. (k + n) % b.bsize) v.ends ∙ mod_shift b.back b.size n b.bsize;
}

-- A store serves if it keeps the bytes held and has the new ones behind the write position.
pub contents-grown :
    {b : Buffer} (store bytes : List ℕ) (n : ℕ)
    → IsValid b
    → n ≤ length bytes
    → ((i : ℕ) → i < b.size → get_or store ((b.back + i) % b.bsize) 0 ≡ byte_at b i)
    → ((j : ℕ) → j < n → get_or store ((b.front + j) % b.bsize) 0 ≡ get_or bytes j 0)
    → contents (grown b store n) ≡ contents b ++ take n bytes
contents-grown {b} store bytes n v enough kept new =
    tabulate-add b.size n (λ i. get_or store ((b.back + i) % b.bsize) 0)
    ∙ ap₂ ◌++◌ (tabulate_ext b.size (λ i. get_or store ((b.back + i) % b.bsize) 0) (byte_at b) kept)
        (tabulate_ext n (λ j. get_or store ((b.back + (b.size + j)) % b.bsize) 0)
            (λ j. get_or bytes j 0) (λ j k. ap (λ m. get_or store m 0) (place j) ∙ new j k)
          ∙ sym (take-tabulate n (length bytes) (λ j. get_or bytes j 0) enough)
          ∙ ap (take n) (tabulate-get_or bytes 0))
  where
    place : (j : ℕ) → (b.back + (b.size + j)) % b.bsize ≡ (b.front + j) % b.bsize
    place j = sym (mod_shift b.back b.size j b.bsize) ∙ ap (λ k. (k + j) % b.bsize) (sym v.ends)

-- The place of a byte held is not among the `n` places behind the write position: it lies before
-- them in the store, or behind them, or, once they pass the end, between their two parts.
pub apart :
    {b : Buffer} (n i : ℕ)
    → IsValid b
    → b.size + n ≤ b.bsize
    → i < b.size
    → let k = (b.back + i) % b.bsize in
      ((k < b.front) × (b.front + n < b.bsize + suc k)) ⊎ (b.front + n ≤ k)
apart {b} n i v le lt = elim (mod_cases b.back i b.bsize v.back_in (omega (arith, v.fits))) [
  | inl (p, e) ↦ elim (mod_cases b.back b.size b.bsize v.back_in v.fits) [
    | inl (q, f) ↦ omega (arith, v.ends, v.fits, v.back_in)
    | inr (q, f) ↦ omega (arith, v.ends, v.fits, v.back_in)
  ]
  | inr (p, e) ↦ elim (mod_cases b.back b.size b.bsize v.back_in v.fits) [
    | inl (q, f) ↦ omega (arith, v.ends, v.fits, v.back_in)
    | inr (q, f) ↦ omega (arith, v.ends, v.fits, v.back_in)
  ]
]

-- Bytes copied behind the write position, before the end of the store.
pub straight_kept :
    {b : Buffer} (bytes : List ℕ) (i : ℕ)
    → IsValid b
    → b.size + length bytes ≤ b.bsize
    → b.front + length bytes ≤ b.bsize
    → i < b.size
    → get_or (blit b.store b.front bytes) ((b.back + i) % b.bsize) 0 ≡ byte_at b i
straight_kept {b} bytes i v le in_line lt = elim (apart {b = b} (length bytes) i v le lt) [
  | inl (p, q) ↦ get_or-blit_before b.store b.front bytes ((b.back + i) % b.bsize) 0 p
  | inr p ↦ get_or-blit_after b.store b.front bytes ((b.back + i) % b.bsize) 0 p
]

pub straight_new :
    {b : Buffer} (bytes : List ℕ) (j : ℕ)
    → IsValid b
    → b.front + length bytes ≤ b.bsize
    → j < length bytes
    → get_or (blit b.store b.front bytes) ((b.front + j) % b.bsize) 0 ≡ get_or bytes j 0
straight_new {b} bytes j v in_line lt =
    ap (λ k. get_or (blit b.store b.front bytes) k 0) (mod-eq_of_lt (omega arith))
    ∙ get_or-blit_inside b.store b.front bytes j 0 lt (omega (arith, v.sized))
