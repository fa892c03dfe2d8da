-- ===== src/Buffer/Read.antt =====
-- `read` and `peek` take the oldest bytes.
use spsock.Prelude.{
  ℕ, ◌+◌, ◌-◌, ◌≤◌, ◌<◌, ◌≡◌, refl, sym, ap, ap₂, ◌∙◌, List, [], ◌++◌, Bool, true, false,
  Bool-cases, inl, inr, ◌||◌, ◌==◌, ltb, if◌then◌else◌, take-append-drop, min, arith, take, drop,
  slice, append-nil, drop_all, take-tabulate,
}
use native.Mathlib.Decide.{dec_lt}
use native.Mathlib.Nat.{mod-eq_of_lt}
use spsock.Buffer.{Buffer, add, sub, copied_out, read, peek, bytes_to_read, first_chunk}
use spsock.Buffer.Valid.{IsValid, byte_at, contents, length-contents, ring_straight, ring_wrapped}
use spsock.Buffer.Advance.{dropped, dropped-IsValid, contents-dropped}

-- The two copies put the oldest bytes together again.
copied_out_lem :
    (b : Buffer) (n : ℕ) → IsValid b → n ≤ b.size → copied_out b n ≡ take n (contents b)
unfolding copied_out
copied_out_lem b n v le = elim (dec_lt b.bsize (b.back + n)) [
  | yes past ↦ ground (
    arith,
    ring_wrapped b.store b.bsize b.back n v.sized v.back_in (omega arith) past,
    take-tabulate n b.size (byte_at b) le,
  )
  | no in_line ↦ ground (
    arith,
    ring_straight b.store b.bsize b.back n v.sized v.back_in (omega arith) (omega arith),
    take-tabulate n b.size (byte_at b) le,
    append-nil (slice b.store b.back n),
  )
]

-- A buffer that has just been emptied, with its positions put back to 0.
abbrev rewound : Buffer → Buffer
rewound b = record b { size = 0; front = 0; back = 0 }

rewound-IsValid : {b : Buffer} → IsValid b → IsValid (rewound b)
rewound-IsValid {b} v = record {
  sized = v.sized;
  nonempty = v.nonempty;
  small = v.small;
  back_in = v.nonempty;
  fits = omega arith;
  ends = sym (mod-eq_of_lt {n = 0 + 0} {m = b.bsize} (omega (arith, v.nonempty)));
}

-- `read`, in numbers that do not wrap: nothing to copy, everything taken, or some bytes left.
read_nothing : (b : Buffer) (len : ℕ) → min len b.size ≡ 0 → read b len ≡ ((0, []), b)
unfolding read
read_nothing b len e = ground arith

module _ (b : Buffer) (len : ℕ) (v : IsValid b) (some_left : 0 < min len b.size) where
  taken : bytes_to_read b len ≡ min len b.size
  taken = ground arith

  read_all : min len b.size ≡ b.size → read b len ≡ ((b.size, copied_out b b.size), rewound b)
  unfolding read
  read_all e =
      let f : bytes_to_read b len ≡ b.size = taken ∙ e in
      let g : sub b.size b.size ≡ 0 = omega arith in rw (f, read) (ground (arith, g))

  read_part :
      min len b.size < b.size
      → read b len ≡ ((min len b.size, copied_out b (min len b.size)), dropped b (min len b.size))
  unfolding read
  read_part lt =
      let g : sub b.size (min len b.size) ≡ b.size - min len b.size =
        omega (arith, v.fits, v.small) in
      let h : add b.back (min len b.size) ≡ b.back + min len b.size =
        omega (arith, v.fits, v.small, v.back_in) in
      rw (taken, read) (ground (arith, g, h))

-- From a valid buffer `read` returns the smaller of `len` and the bytes held, hands over that many
-- bytes, the oldest in order, keeps the rest in order, and leaves a valid buffer.
pub read_lem :
    (b : Buffer) (len : ℕ)
    → IsValid b
    → let ((n, bytes), b') = read b len in
      (n ≡ min len b.size)
      × (bytes ≡ take (min len b.size) (contents b))
      × (contents b' ≡ drop (min len b.size) (contents b))
      × IsValid b'
read_lem b len v = elim (dec_lt 0 (min len b.size)) [
  | no zero ↦
      let e : min len b.size ≡ 0 = omega arith in rw (read_nothing b len e, e) (refl, refl, refl, v)
  | yes pos ↦ elim (dec_lt (min len b.size) b.size) [
    | yes part ↦ rw (read_part b len v pos part) (
      refl,
      copied_out_lem b (min len b.size) v (omega arith),
      contents-dropped b (min len b.size) (omega arith),
      dropped-IsValid (min len b.size) v (omega arith),
    )
    | no rest ↦
        let e : min len b.size ≡ b.size = omega arith in
        rw (read_all b len v pos e) (
          sym e,
          copied_out_lem b b.size v (omega arith) ∙ ap (λ k. take k (contents b)) (sym e),
          sym (drop_all (min len b.size) (contents b) (omega (arith, length-contents b))),
          rewound-IsValid v,
        )
  ]
]

-- Two copies one after the other.
put_together :
    (more : Bool) (once rest : List ℕ)
    → (if more then once ++ rest else once) ≡ once ++ (if more then rest else [])
put_together true once rest = refl
put_together false once rest = sym (append-nil once)

-- `peek` returns the count and the bytes that `read` would, for any buffer.
peek-eq-read : (b : Buffer) (len : ℕ) → peek b len ≡ (read b len).0
unfolding peek read copied_out
peek-eq-read b len = elim (Bool-cases (len == 0 || b.size == 0)) [
  | inl e ↦ rw e refl
  | inr e ↦
      let n = bytes_to_read b len in
      let first = first_chunk b b.back n in
      rw e (
        ap (λ (xs : List ℕ). (n, xs))
          (put_together (ltb first n) (slice b.store b.back first) (slice b.store 0 (sub n first))))
]

-- From a valid buffer `peek` returns the smaller of `len` and the bytes held, and that many bytes, the
-- oldest in order: what a `read` of as many bytes then takes out.
pub peek_lem :
    (b : Buffer) (len : ℕ)
    → IsValid b
    → let (n, bytes) = peek b len in
      (n ≡ min len b.size)
      × (bytes ≡ take (min len b.size) (contents b))
      × (contents b ≡ bytes ++ contents (read b n).1)
peek_lem b len v =
    let k = min len b.size in
    let e = peek-eq-read b len in
    let (count, oldest, rest, good) = read_lem b len v in
    let n : (peek b len).0 ≡ k = ap (λ (r : ℕ × List ℕ). r.0) e ∙ count in
    let bytes : (peek b len).1 ≡ take k (contents b) = ap (λ (r : ℕ × List ℕ). r.1) e ∙ oldest in
    let left = (read_lem b k v).2 in
    (
      n,
      bytes,
      sym (take-append-drop k (contents b))
          ∙ ap₂ (λ xs ys. xs ++ ys) (sym bytes)
              (ap (λ j. drop j (contents b)) (omega arith)
                ∙ sym left
                ∙ ap (λ j. contents (read b j).1) (sym n)),
    )
