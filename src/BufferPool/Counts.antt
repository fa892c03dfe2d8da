-- ===== src/BufferPool/Counts.antt =====
-- The invariant of the buffer pool: each reference count is the number of nodes of the block that
-- are in a free list or in use.
use spsock.Prelude.{
  ℕ, zero, suc, ◌+◌, ◌%◌, ◌≤◌, ◌<◌, ◌≡◌, ◌≢◌, refl, ap, ◌∙◌, List, [], ◌∷◌, ◌++◌, Option, none,
  some, arith, tabulate, length, length-append, length-tabulate, ◌==◌, if◌then◌else◌,
}
use spsock.Config.{TcpConfig}
use spsock.BufferPool.{Node, Pool, Malloc, read_nodes, write_nodes, link, empty}

abbrev pub count_in : ℕ → List Node → ℕ
count_in b [] = 0
count_in b (n ∷ ns) = (if n.block == b then 1 else 0) + count_in b ns

abbrev pub count_of : Option ℕ → ℕ
count_of none = 0
count_of (some n) = n

-- `out` lists the nodes that `GetBuffer` has handed out and `FreeBuffer` has not taken back.
pub record Inv (p : Pool) (out : List Node) : Type 0 where
  pub rb_counted : p.rb_size ≡ length p.r_buffers % 4294967296
  pub wb_counted : p.wb_size ≡ length p.w_buffers % 4294967296
  pub refs :
      (b : ℕ)
      → count_of (p.blocks b) ≡ count_in b p.r_buffers + count_in b p.w_buffers + count_in b out
  pub live : (b : ℕ) → p.blocks b ≢ some 0
  pub small : (b : ℕ) → count_of (p.blocks b) ≤ 2048

-- `malloc` returns no address that is in use.
abbrev pub IsFresh : Malloc → Pool → Type 0
IsFresh malloc p = (size b : ℕ) → malloc size ≡ some b → p.blocks b ≡ none

pub empty-Inv : Inv empty []
unfolding empty
empty-Inv = record {
  rb_counted = refl;
  wb_counted = refl;
  refs = λ b. refl;
  live = λ b e. cc;
  small = λ b. omega arith;
}

count_in-append :
    (b : ℕ) (xs ys : List Node) → count_in b (xs ++ ys) ≡ count_in b xs + count_in b ys
count_in-append b [] ys = omega arith
count_in-append b (x ∷ xs) ys = omega (arith, count_in-append b xs ys)

count_in-tabulate :
    (b blk n : ℕ) (place : ℕ → ℕ)
    → count_in b (tabulate n (λ i. record { block = blk; offset = place i }))
      ≡ (if blk == b then n else 0)
count_in-tabulate b blk zero place = ground arith
count_in-tabulate b blk (suc n) place =
    ground (arith, count_in-tabulate b blk n (λ i. place (suc i)))

-- What linking a new block does to the number of nodes of each block.
pub count_in-read_nodes :
    (c : TcpConfig) (b blk num : ℕ) (ns : List Node)
    → count_in b (read_nodes c blk num ++ ns) ≡ (if blk == b then num else 0) + count_in b ns
count_in-read_nodes c b blk num ns =
    count_in-append b (read_nodes c blk num) ns
    ∙ ap (λ k. k + count_in b ns) (count_in-tabulate b blk num _)

pub count_in-write_nodes :
    (c : TcpConfig) (b blk num : ℕ) (ns : List Node)
    → count_in b (write_nodes c blk num ++ ns) ≡ (if blk == b then num else 0) + count_in b ns
count_in-write_nodes c b blk num ns =
    count_in-append b (write_nodes c blk num) ns
    ∙ ap (λ k. k + count_in b ns) (count_in-tabulate b blk num _)

length-read_nodes : (c : TcpConfig) (blk num : ℕ) → length (read_nodes c blk num) ≡ num
length-read_nodes c blk num = length-tabulate num _

length-write_nodes : (c : TcpConfig) (blk num : ℕ) → length (write_nodes c blk num) ≡ num
length-write_nodes c blk num = length-tabulate num _

pub link-Inv :
    {p : Pool} {out : List Node} (c : TcpConfig) (num buf : ℕ)
    → Inv p out
    → p.blocks buf ≡ none
    → 0 < num
    → num ≤ 1024
    → Inv (link c num buf p) out
unfolding link
link-Inv {p} {out} c num buf v free pos le = record {
  rb_counted = omega (
    arith,
    v.rb_counted,
    length-append (read_nodes c buf num) p.r_buffers,
    length-read_nodes c buf num,
  );
  wb_counted = omega (
    arith,
    v.wb_counted,
    length-append (write_nodes c buf num) p.w_buffers,
    length-write_nodes c buf num,
  );
  refs = λ b. ground (
    arith,
    v.refs b,
    count_in-read_nodes c b buf num p.r_buffers,
    count_in-write_nodes c b buf num p.w_buffers,
  );
  live = λ b. ground (arith, v.live b);
  small = λ b. ground (arith, v.small b);
}
