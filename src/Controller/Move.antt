-- ===== src/Controller/Move.antt =====
-- `moveToWriteBuffer`: bytes that have been read are put behind those that wait to be sent.
use spsock.Prelude.{
  ℕ, zero, suc, ◌+◌, ◌-◌, ◌≤◌, ◌<◌, ◌≡◌, refl, sym, ap, ap₂, ◌∙◌, List, ◌++◌, arith, u32, min,
  length, take, drop, length-take, length-drop, length-append, take_split, drop_split, append-nil,
  append_assoc,
}
use native.Mathlib.Decide.{dec_lt}
use mathlib.Core.Path.{subst}
use spsock.Buffer
use spsock.Buffer.{Buffer, distance_read, distance_write}
use spsock.Buffer.Valid.{IsValid, bytes_write_lem, contents, length-contents, distance_bounds}
use spsock.Buffer.Advance.{commit_read_lem, at_read_ptr_lem}
use spsock.Buffer.Write.{commit_write_lem, bsize-commit_write}
use spsock.Controller.{Controller, move_loop, move_to_write_buffer}

-- What moving `n` bytes from `r` to `w` promises.
abbrev pub Shifted : ℕ → Buffer → Buffer → Buffer → Buffer → Type 0
Shifted n r w r' w' =
    IsValid r'
    × IsValid w'
    × (contents r' ≡ drop n (contents r))
    × (contents w' ≡ contents w ++ take n (contents r))

-- One round of the loop.
abbrev moved_read : ℕ → Buffer → Buffer
moved_read k r = Buffer.commit_read k r

abbrev moved_write : ℕ → Buffer → Buffer → Buffer
moved_write k r w = Buffer.commit_write k (Buffer.at_write_ptr w (Buffer.at_read_ptr r k))

round :
    (r w : Buffer) (k : ℕ)
    → IsValid r
    → IsValid w
    → 0 < k
    → k ≤ distance_read r
    → k ≤ distance_write w
    → Shifted k r w (moved_read k r) (moved_write k r w)
      × ((moved_read k r).size + k ≡ r.size)
      × ((moved_write k r w).size ≡ w.size + k)
      × ((moved_write k r w).bsize ≡ w.bsize)
round r w k v u pos le le' =
    let d = distance_bounds v in
    let bytes : List ℕ = Buffer.at_read_ptr r k in
    let a : bytes ≡ take k (contents r) = at_read_ptr_lem k v le in
    let len : length bytes ≡ k =
      omega (arith, ap length a, length-take k (contents r), length-contents r) in
    let c = commit_read_lem k v (omega arith) in
    let e = commit_write_lem w bytes u (omega arith) (omega arith) in
    let put : Buffer → Type 0 = λ b. IsValid b × (contents b ≡ contents w ++ take k (contents r)) in
    let there : put (moved_write k r w) =
      subst (λ j. put (Buffer.commit_write j (Buffer.at_write_ptr w bytes))) len
        (e.0, e.1 ∙ ap (◌++◌ (contents w)) a) in
    (
      (c.0, there.0, c.1, there.1),
      omega (
        arith,
        ap length c.1,
        length-drop k (contents r),
        length-contents r,
        length-contents (moved_read k r),
      ),
      omega (
        arith,
        ap length there.1,
        length-append (contents w) (take k (contents r)),
        length-take k (contents r),
        length-contents r,
        length-contents w,
        length-contents (moved_write k r w),
      ),
      bsize-commit_write k w bytes,
    )

-- The loop, with `n` bytes still to be moved.
abbrev Loops : ℕ → ℕ → Buffer → Buffer → ℕ × Buffer × Buffer → Type 0
Loops max n r w (m, r', w') = (m ≡ max) × Shifted n r w r' w'

then_more :
    (max k n : ℕ) (r w r1 w1 : Buffer) (res : ℕ × Buffer × Buffer)
    → k ≤ n
    → Shifted k r w r1 w1
    → Loops max (n - k) r1 w1 res
    → Loops max n r w res
then_more max k n r w r1 w1 (m, r2, w2) le (_, _, c, d) (z, (v, u, c', d')) =
    let e : k + (n - k) ≡ n = omega arith in
    (
      z,
      (
        v,
        u,
        c'
            ∙ ap (drop (n - k)) c
            ∙ drop_split k (n - k) (contents r)
            ∙ ap (λ j. drop j (contents r)) e,
        d'
            ∙ ap₂ (λ x y. x ++ take (n - k) y) d c
            ∙ append_assoc (contents w) (take k (contents r)) _
            ∙ ap (◌++◌ (contents w))
                (take_split k (n - k) (contents r) ∙ ap (λ j. take j (contents r)) e),
      ),
    )

chunk_bounds :
    (r w : Buffer)
    → IsValid r
    → IsValid w
    → 0 < min r.size (w.bsize - w.size)
    → (0 < min (distance_read r) (distance_write w))
      × (min (distance_read r) (distance_write w) ≤ min r.size (w.bsize - w.size))
chunk_bounds r w v u pos =
    let d = distance_bounds v in let e = distance_bounds u in (ground (arith, d, e), omega arith)

move_loop-Loops :
    (fuel moved max n : ℕ) (r w : Buffer)
    → IsValid r
    → IsValid w
    → moved + n ≡ max
    → max < 4294967296
    → n ≡ min r.size (w.bsize - w.size)
    → n < fuel
    → Loops max n r w (move_loop fuel moved max r w)
unfolding move_loop
move_loop-Loops zero moved max n r w v u total small e enough = absurd (omega arith)
move_loop-Loops (suc fuel) moved max n r w v u total small e enough = elim (dec_lt moved max) [
  | no done ↦
      let z : n ≡ 0 = omega arith in
      let stop : move_loop (suc fuel) moved max r w ≡ (moved, r, w) = ground arith in
      rw stop (
        omega arith,
        (
          v,
          u,
          ap (λ j. drop j (contents r)) (sym z),
          sym (append-nil (contents w)) ∙ ap (λ j. contents w ++ take j (contents r)) (sym z),
        ),
      )
  | yes more ↦
      let k : ℕ = min (distance_read r) (distance_write w) in
      let (pos, le) = chunk_bounds r w v u (omega arith) in
      let (one, sr, sw, bw) = round r w k v u pos (omega arith) (omega arith) in
      let s : u32 (moved + k) ≡ moved + k = omega arith in
      let go : move_loop (suc fuel) moved max r w
          ≡ move_loop fuel (u32 (moved + k)) max (moved_read k r) (moved_write k r w) =
        ground arith in
      let ih =
        move_loop-Loops fuel (moved + k) max (n - k) (moved_read k r) (moved_write k r w) one.0
          one.1 (omega arith) small (omega arith) (omega arith) in
      rw (go, s) (then_more max k n r w (moved_read k r) (moved_write k r w) _ (omega arith) one ih)
]

-- With valid buffers `moveToWriteBuffer` moves as many bytes as are held to be read and fit, the
-- oldest first: it returns their number, they follow what waited to be sent, the rest stays to be
-- read in order, and both buffers stay valid.
pub move_to_write_buffer_lem :
    (c : Controller)
    → IsValid c.read_buf
    → IsValid c.write_buf
    → let n = min c.read_buf.size (c.write_buf.bsize - c.write_buf.size) in
      let (moved, c') = move_to_write_buffer c in
      (moved ≡ n) × Shifted n c.read_buf c.write_buf c'.read_buf c'.write_buf
unfolding move_to_write_buffer Buffer.bytes_read
move_to_write_buffer_lem c v u =
    let n : ℕ = min c.read_buf.size (c.write_buf.bsize - c.write_buf.size) in
    rw (bytes_write_lem u) (
      move_loop-Loops (suc n) 0 n n c.read_buf c.write_buf v u (omega arith)
        (omega (arith, v.fits, v.small)) refl (omega arith))
