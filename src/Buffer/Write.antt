-- ===== src/Buffer/Write.antt =====
-- `write`, and `writePtr` with `commitWrite`: both append.
use spsock.Prelude.{
  ℕ, ◌+◌, ◌-◌, ◌%◌, ◌≤◌, ◌<◌, ◌≡◌, refl, sym, ap, ◌∙◌, inl, inr, List, ◌++◌, min, arith, get_or,
  take, drop, slice, blit, length, append-nil, take_all, length-take, length-drop, length-blit,
  get_or-take, get_or-drop, get_or-blit_before, get_or-blit_after, get_or-blit_inside, mod_bound,
  mod_cases,
}
use native.Mathlib.Decide.{dec_lt}
use spsock.Buffer.{
  Buffer, add, sub, distance_write, at_write_ptr, commit_write, copied_in, write, bytes_to_write,
  first_chunk,
}
use spsock.Buffer.Valid.{IsValid, byte_at, contents, front_in, distance_bounds}
use spsock.Buffer.Grow.{grown, grown-IsValid, contents-grown, apart, straight_kept, straight_new}

-- The two pieces of a copy that passes the end.
module _ (b : Buffer) (bytes : List ℕ) (n : ℕ) (v : IsValid b) where
  head_piece : List ℕ
  head_piece = take (b.bsize - b.front) bytes

  tail_piece : List ℕ
  tail_piece = slice bytes (b.bsize - b.front) (n - (b.bsize - b.front))

  twice : List ℕ
  unfolding head_piece tail_piece
  twice = blit (blit b.store b.front head_piece) 0 tail_piece

  module _ (enough : n ≤ length bytes) (past : b.bsize < b.front + n) where
    length-head_piece : length head_piece ≡ b.bsize - b.front
    unfolding head_piece
    length-head_piece = omega (arith, length-take (b.bsize - b.front) bytes, front_in v)

    length-tail_piece : length tail_piece ≡ n - (b.bsize - b.front)
    unfolding tail_piece
    length-tail_piece = omega (
      arith,
      length-take (n - (b.bsize - b.front)) (drop (b.bsize - b.front) bytes),
      length-drop (b.bsize - b.front) bytes,
    )

    wrapped_kept :
        (i : ℕ)
        → b.size + n ≤ b.bsize
        → i < b.size
        → get_or twice ((b.back + i) % b.bsize) 0 ≡ byte_at b i
    unfolding twice
    wrapped_kept i le lt = elim (apart {b = b} n i v le lt) [
      | inl (p, q) ↦
          get_or-blit_after (blit b.store b.front head_piece) 0 tail_piece ((b.back + i) % b.bsize)
            0 (omega (arith, length-tail_piece, front_in v))
          ∙ get_or-blit_before b.store b.front head_piece ((b.back + i) % b.bsize) 0 p
      | inr p ↦ absurd (omega (arith, mod_bound (b.back + i) b.bsize v.nonempty))
    ]

    wrapped_new :
        (j : ℕ) → n ≤ b.bsize → j < n → get_or twice ((b.front + j) % b.bsize) 0 ≡ get_or bytes j 0
    unfolding twice
    wrapped_new j le lt = elim (mod_cases b.front j b.bsize (front_in v) (omega arith)) [
      | inl (below, e) ↦
          ap (λ k. get_or (blit (blit b.store b.front head_piece) 0 tail_piece) k 0) e
          ∙ get_or-blit_after (blit b.store b.front head_piece) 0 tail_piece (b.front + j) 0
              (omega (arith, length-tail_piece))
          ∙ get_or-blit_inside b.store b.front head_piece j 0 (omega (arith, length-head_piece))
              (omega (arith, v.sized))
          ∙ unfold head_piece in get_or-take (b.bsize - b.front) bytes j 0 (omega arith)
      | inr (above, e) ↦
          ap (λ k. get_or (blit (blit b.store b.front head_piece) 0 tail_piece) k 0)
            (e ∙ (omega arith))
          ∙ get_or-blit_inside (blit b.store b.front head_piece) 0 tail_piece
              (b.front + j - b.bsize) 0 (omega (arith, length-tail_piece, front_in v))
              (omega (arith, length-blit b.store b.front head_piece, v.sized, front_in v))
          ∙ unfold tail_piece in second above
    ]
      where
        second :
            b.bsize ≤ b.front + j
            → get_or
                (slice bytes (b.bsize - b.front) (n - (b.bsize - b.front)))
                (b.front + j - b.bsize)
                0
              ≡ get_or bytes j 0
        second above =
            get_or-take (n - (b.bsize - b.front)) (drop (b.bsize - b.front) bytes)
              (b.front + j - b.bsize) 0 (omega (arith, front_in v))
            ∙ get_or-drop (b.bsize - b.front) bytes (b.front + j - b.bsize) 0
            ∙ ap (λ k. get_or bytes k 0) (omega (arith, front_in v))

-- What `write` leaves in the store serves for the grown buffer.
copied_in_lem :
    (b : Buffer) (n : ℕ) (bytes : List ℕ)
    → IsValid b
    → n ≤ length bytes
    → b.size + n ≤ b.bsize
    → IsValid (grown b (copied_in b n bytes) n)
      × (contents (grown b (copied_in b n bytes) n) ≡ contents b ++ take n bytes)
unfolding copied_in
copied_in_lem b n bytes v enough le = elim (dec_lt b.bsize (b.front + n)) [
  | yes past ↦
      let e : copied_in b n bytes ≡ twice b bytes n v = wrapped past in
      rw e (
        grown-IsValid (twice b bytes n v) n v (unfold twice in two) le,
        contents-grown (twice b bytes n v) bytes n v enough
            (λ i lt. wrapped_kept b bytes n v enough past i le lt)
            (λ j lt. wrapped_new b bytes n v enough past j (omega arith) lt),
      )
  | no in_line ↦
      let e : copied_in b n bytes ≡ blit b.store b.front (take n bytes) = straight (omega arith) in
      let len : length (take n bytes) ≡ n = omega (arith, length-take n bytes) in
      rw e (
        grown-IsValid _ n v (length-blit b.store b.front (take n bytes) ∙ v.sized) le,
        contents-grown (blit b.store b.front (take n bytes)) bytes n v enough
            (λ i lt. straight_kept (take n bytes) i v (omega arith) (omega arith) lt)
            (λ j lt.
              straight_new (take n bytes) j v (omega arith) (omega arith)
              ∙ get_or-take n bytes j 0 lt),
      )
]
  where
    two :
        length (blit (blit b.store b.front (head_piece b bytes n v)) 0 (tail_piece b bytes n v))
        ≡ b.bsize
    two =
        length-blit (blit b.store b.front (head_piece b bytes n v)) 0 (tail_piece b bytes n v)
        ∙ length-blit b.store b.front (head_piece b bytes n v)
        ∙ v.sized

    wrapped : b.bsize < b.front + n → copied_in b n bytes ≡ twice b bytes n v
    wrapped past =
        let f = front_in v in
        let g : first_chunk b b.front n ≡ b.bsize - b.front = ground (arith, v.small) in
        let h : sub n (b.bsize - b.front) ≡ n - (b.bsize - b.front) = omega (arith, v.small) in
        unfold twice head_piece tail_piece in ground (arith, g, h)

    straight : b.front + n ≤ b.bsize → copied_in b n bytes ≡ blit b.store b.front (take n bytes)
    straight in_line =
        let f = front_in v in
        let g : first_chunk b b.front n ≡ n = ground (arith, v.small) in ground (arith, g)

module _ (b : Buffer) (bytes : List ℕ) (v : IsValid b) where
  accepted : bytes_to_write b (length bytes) ≡ min (length bytes) (b.bsize - b.size)
  unfolding bytes_to_write
  accepted = let h : sub b.bsize b.size ≡ b.bsize - b.size = omega arith in ground (arith, h)

  write_nothing : min (length bytes) (b.bsize - b.size) ≡ 0 → write b bytes ≡ (0, b)
  unfolding write
  write_nothing e = let h : sub b.bsize b.size ≡ b.bsize - b.size = omega arith in ground (arith, h)

  write_some :
      0 < min (length bytes) (b.bsize - b.size)
      → let n = min (length bytes) (b.bsize - b.size) in
        write b bytes ≡ (n, grown b (copied_in b n bytes) n)
  unfolding write
  write_some pos =
      let n : ℕ = min (length bytes) (b.bsize - b.size) in
      let h : sub b.bsize b.size ≡ b.bsize - b.size = omega arith in
      let f : add b.front n ≡ b.front + n = omega (arith, front_in v, v.small) in
      let g : add b.size n ≡ b.size + n = omega (arith, v.small, v.fits) in
      rw (accepted, write) (ground (arith, f, g, h))

-- From a valid buffer `write` of `bytes` returns the smaller of their number and the free space,
-- appends that many of them, the first in order, and leaves a valid buffer.
pub write_lem :
    (b : Buffer) (bytes : List ℕ)
    → IsValid b
    → let (n, b') = write b bytes in
      (n ≡ min (length bytes) (b.bsize - b.size))
      × (contents b' ≡ contents b ++ take (min (length bytes) (b.bsize - b.size)) bytes)
      × IsValid b'
write_lem b bytes v = elim (dec_lt 0 (min (length bytes) (b.bsize - b.size))) [
  | no nothing ↦
      let e : min (length bytes) (b.bsize - b.size) ≡ 0 = omega arith in
      rw (write_nothing b bytes v e, e) (refl, sym (append-nil (contents b)), v)
  | yes pos ↦
      let n : ℕ = min (length bytes) (b.bsize - b.size) in
      let done = copied_in_lem b n bytes v (omega arith) (omega (arith, v.fits)) in
      rw (write_some b bytes v pos) (refl, done.1, done.0)
]

-- A read of the socket: bytes put at the write pointer and committed, at most as many as lie in
-- line. The buffer stays valid and they are appended.
pub commit_write_lem :
    (b : Buffer) (bytes : List ℕ)
    → IsValid b
    → 0 < length bytes
    → length bytes ≤ distance_write b
    → let b' = commit_write (length bytes) (at_write_ptr b bytes) in
      IsValid b' × (contents b' ≡ contents b ++ bytes)
commit_write_lem b bytes v pos le =
    let n : ℕ = length bytes in
    let d = distance_bounds v in
    rw same (
      grown-IsValid (blit b.store b.front bytes) n v (length-blit b.store b.front bytes ∙ v.sized)
          (omega arith),
      contents-grown (blit b.store b.front bytes) bytes n v (omega arith)
            (λ i lt. straight_kept bytes i v (omega arith) (omega arith) lt)
            (λ j lt. straight_new bytes j v (omega arith) lt)
          ∙ ap (◌++◌ (contents b)) (take_all n bytes (omega arith)),
    )
  where
    same :
        commit_write (length bytes) (at_write_ptr b bytes)
        ≡ grown b (blit b.store b.front bytes) (length bytes)
    same =
        let d = distance_bounds v in
        let f : add b.front (length bytes) ≡ b.front + length bytes = omega (arith, d.0, v.small) in
        let g : add b.size (length bytes) ≡ b.size + length bytes = omega (arith, d.1, v.small) in
        unfold commit_write at_write_ptr in ground (arith, f, g)

pub bsize-commit_write :
    (n : ℕ) (b : Buffer) (bytes : List ℕ) → (commit_write n (at_write_ptr b bytes)).bsize ≡ b.bsize
unfolding commit_write at_write_ptr
bsize-commit_write n b bytes = ground arith
