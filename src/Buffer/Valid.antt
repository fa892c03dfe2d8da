-- ===== src/Buffer/Valid.antt =====
-- The invariant of the circular buffer, and the bytes that it holds.
use spsock.Prelude.{
  ℕ, ◌+◌, ◌-◌, ◌%◌, ◌≤◌, ◌<◌, ◌≡◌, ◌↔◌, sym, ap, ap₂, ◌∙◌, inl, inr, List, ◌++◌, min, arith, length,
  get_or, tabulate, slice, slice-eq-tabulate, tabulate-add, length-tabulate, tabulate_ext,
  mod_cases, mod_bound,
}
use native.Mathlib.Nat.{mod-eq_of_lt}
use spsock.Buffer.{Buffer, bytes_read, bytes_write, distance_write, distance_read}

-- A buffer in use: the store has the configured size, an `int`, and the two positions and the
-- number of bytes agree.
pub record IsValid (b : Buffer) : Type 0 where
  pub sized : length b.store ≡ b.bsize
  pub nonempty : 0 < b.bsize
  pub small : b.bsize < 2147483648
  pub back_in : b.back < b.bsize
  pub fits : b.size ≤ b.bsize
  pub ends : b.front ≡ (b.back + b.size) % b.bsize

-- The byte that is `i` places behind the oldest.
abbrev pub byte_at : Buffer → ℕ → ℕ
byte_at b i = get_or b.store ((b.back + i) % b.bsize) 0

-- The bytes in the buffer, oldest first.
abbrev pub contents : Buffer → List ℕ
contents b = tabulate b.size (byte_at b)

pub length-contents : (b : Buffer) → length (contents b) ≡ b.size
length-contents b = length-tabulate b.size (byte_at b)

pub front_in : {b : Buffer} → IsValid b → b.front < b.bsize
front_in {b} v = omega (arith, v.ends, mod_bound (b.back + b.size) b.bsize v.nonempty)

-- The free space and what is held make up the capacity.
pub bytes_read-bytes_write : {b : Buffer} → IsValid b → bytes_read b + bytes_write b ≡ b.bsize
unfolding bytes_read bytes_write
bytes_read-bytes_write v = omega arith

pub bytes_write_lem : {b : Buffer} → IsValid b → bytes_write b ≡ b.bsize - b.size
unfolding bytes_write
bytes_write_lem v = omega arith

-- The linear spaces, without the wrapping sums.
pub distance_write_lem :
    {b : Buffer} → IsValid b → distance_write b ≡ min (b.bsize - b.size) (b.bsize - b.front)
unfolding distance_write bytes_write
distance_write_lem {b} v = let f = front_in v in ground arith

pub distance_read_lem : {b : Buffer} → IsValid b → distance_read b ≡ min b.size (b.bsize - b.back)
unfolding distance_read bytes_read
distance_read_lem v = ground arith

-- In a valid buffer the linear space for writing ends within the store and within the free space,
-- that for reading within the store and within the bytes held; the first is 0 exactly when the
-- buffer is full, the second exactly when it is empty.
pub distance_bounds :
    {b : Buffer}
    → IsValid b
    → (b.front + distance_write b ≤ b.bsize)
      × (b.size + distance_write b ≤ b.bsize)
      × (b.back + distance_read b ≤ b.bsize)
      × (distance_read b ≤ b.size)
      × ((distance_write b ≡ 0) ↔ (b.size ≡ b.bsize))
      × ((distance_read b ≡ 0) ↔ (b.size ≡ 0))
distance_bounds {b} v =
    let f = front_in v in
    let w = distance_write_lem v in
    let r = distance_read_lem v in
    (
      omega arith,
      omega arith,
      omega arith,
      omega arith,
      ((λ e. omega arith), λ e. omega arith),
      ((λ e. omega arith), λ e. omega arith),
    )

module _ (xs : List ℕ) (c h n : ℕ) (sized : length xs ≡ c) (lt : h < c) (le : n ≤ c) where
  -- `n` bytes round the ring from `h` on, where they end before the end of the store.
  pub ring_straight : h + n ≤ c → tabulate n (λ i. get_or xs ((h + i) % c) 0) ≡ slice xs h n
  ring_straight in_line =
      tabulate_ext n (λ i. get_or xs ((h + i) % c) 0) (λ i. get_or xs (h + i) 0)
        (λ i k. ap (λ j. get_or xs j 0) (mod-eq_of_lt (omega arith)))
      ∙ sym (slice-eq-tabulate xs h n 0 (omega arith))

  -- The same, where they pass it: two pieces.
  pub ring_wrapped :
      c < h + n
      → tabulate n (λ i. get_or xs ((h + i) % c) 0) ≡ slice xs h (c - h) ++ slice xs 0 (n - (c - h))
  ring_wrapped past =
      let whole : n ≡ (c - h) + (n - (c - h)) = omega arith in
      ap (λ k. tabulate k (λ i. get_or xs ((h + i) % c) 0)) whole
      ∙ tabulate-add (c - h) (n - (c - h)) (λ i. get_or xs ((h + i) % c) 0)
      ∙ ap₂ ◌++◌
          (tabulate_ext (c - h) (λ i. get_or xs ((h + i) % c) 0) (λ i. get_or xs (h + i) 0)
              (λ i k. ap (λ j. get_or xs j 0) (mod-eq_of_lt (omega arith)))
            ∙ sym (slice-eq-tabulate xs h (c - h) 0 (omega arith)))
          (tabulate_ext (n - (c - h)) (λ i. get_or xs ((h + ((c - h) + i)) % c) 0)
              (λ i. get_or xs (0 + i) 0) (λ i k. ap (λ j. get_or xs j 0) (second i k))
            ∙ sym (slice-eq-tabulate xs 0 (n - (c - h)) 0 (omega arith)))
    where
      second : (i : ℕ) → i < n - (c - h) → (h + ((c - h) + i)) % c ≡ 0 + i
      second i k = elim (mod_cases h ((c - h) + i) c lt (omega arith)) [
        | inl (below, e) ↦ absurd (omega arith)
        | inr (above, e) ↦ omega arith
      ]
