-- ===== src/Buffer/Advance.antt =====
-- Consuming bytes in place: `readPtr` and `commitRead`.
use spsock.Prelude.{
  ℕ, ◌+◌, ◌-◌, ◌%◌, ◌≤◌, ◌≡◌, sym, ap, ◌∙◌, arith, get_or, take, drop, take-tabulate, drop-tabulate,
  tabulate_ext, mod_shift, mod_bound,
}
use spsock.Buffer.{Buffer, add, sub, distance_read, commit_read, at_read_ptr}
use spsock.Buffer.Valid.{IsValid, byte_at, contents, distance_bounds, ring_straight}

-- `b` with `n` of its oldest bytes gone, in numbers that do not wrap.
abbrev pub dropped : Buffer → ℕ → Buffer
dropped b n = record b { back = (b.back + n) % b.bsize; size = b.size - n }

pub dropped-IsValid : {b : Buffer} (n : ℕ) → IsValid b → n ≤ b.size → IsValid (dropped b n)
dropped-IsValid {b} n v le = record {
  sized = v.sized;
  nonempty = v.nonempty;
  small = v.small;
  back_in = mod_bound (b.back + n) b.bsize v.nonempty;
  fits = omega (arith, v.fits);
  ends =
      v.ends
      ∙ ap (λ k. (b.back + k) % b.bsize) (omega arith)
      ∙ sym (mod_shift b.back n (b.size - n) b.bsize);
}

pub contents-dropped :
    (b : Buffer) (n : ℕ) → n ≤ b.size → contents (dropped b n) ≡ drop n (contents b)
contents-dropped b n le =
    tabulate_ext (b.size - n) (byte_at (dropped b n)) (λ i. byte_at b (n + i))
      (λ i k. ap (λ j. get_or b.store j 0) (mod_shift b.back n i b.bsize))
    ∙ sym (drop-tabulate n b.size (byte_at b) le)

pub commit_read-dropped :
    {b : Buffer} (n : ℕ) → IsValid b → n ≤ b.size → commit_read n b ≡ dropped b n
unfolding commit_read
commit_read-dropped {b} n v le =
    let e : add b.back n ≡ b.back + n = omega (arith, v.fits, v.small, v.back_in) in
    let f : sub b.size n ≡ b.size - n = omega (arith, v.fits, v.small) in
    λ i. record b { back = e i % b.bsize; size = f i }

-- Committing a read of at most the bytes held keeps the buffer valid and drops just those bytes.
pub commit_read_lem :
    {b : Buffer} (n : ℕ)
    → IsValid b
    → n ≤ b.size
    → IsValid (commit_read n b) × (contents (commit_read n b) ≡ drop n (contents b))
commit_read_lem {b} n v le =
    rw (commit_read-dropped n v le) (dropped-IsValid n v le, contents-dropped b n le)

-- What lies at the read pointer, up to the linear distance, is the front of the contents.
pub at_read_ptr_lem :
    {b : Buffer} (n : ℕ) → IsValid b → n ≤ distance_read b → at_read_ptr b n ≡ take n (contents b)
unfolding at_read_ptr
at_read_ptr_lem {b} n v le =
    let d = distance_bounds v in
    sym (ring_straight b.store b.bsize b.back n v.sized v.back_in (omega arith) (omega arith))
    ∙ sym (take-tabulate n b.size (byte_at b) (omega arith))
