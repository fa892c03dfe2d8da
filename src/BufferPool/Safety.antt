-- ===== src/BufferPool/Safety.antt =====
-- `GetBuffer` and `FreeBuffer` keep the invariant, and never touch a block that is gone.
use spsock.Prelude.{
  ◌+◌, ◌≤◌, ◌≡◌, ◌≢◌, refl, ap, inl, inr, List, [], ◌∷◌, Option, none, some, Bool-cases,
  Option-cases, arith, leb,
}
use spsock.Config.{TcpConfig, BufferType, read_buffer, write_buffer}
use spsock.BufferPool.{
  Node, Pool, Malloc, Fits, alloc, pop_read, pop_write, take_read, take_write,
  get_read_buffer_inner, get_write_buffer_inner, get_buffer, unref, free_read_buffer_inner,
  free_write_buffer_inner, free_buffer,
}
use spsock.BufferPool.Counts.{Inv, IsFresh, count_in, count_of}
use spsock.BufferPool.Taken.{Taken, free_list, bsize_of, get_buffer-Taken}
use spsock.BufferPool.Alloc.{
  Filled, Gives, alloc-Filled, pop_read-Gives, pop_write-Gives, pop_read-Inv, pop_write-Inv,
}

get_read-Gives :
    (c : TcpConfig) (malloc : Malloc) (p : Pool) (out ns : List Node)
    → p.r_buffers ≡ ns
    → Inv p out
    → IsFresh malloc p
    → c.buffer_pool_peer_alloc_num ≤ 1024
    → Gives p out (take_read c malloc p ns)
unfolding take_read pop_read
get_read-Gives c malloc p out (n ∷ rest) e v fresh le = pop_read-Inv p out n rest e v
get_read-Gives c malloc p out [] e v fresh le =
    after (alloc c malloc p) (alloc-Filled c malloc p out v fresh le)
  where
    after :
        (r : Option Pool)
        → Filled out r
        → Gives p out (elim r [ none ↦ (none, p) | some p' ↦ pop_read p' p'.r_buffers ])
    after none f = refl
    after (some q) f = pop_read-Gives p q out q.r_buffers refl f.1 f.0

get_write-Gives :
    (c : TcpConfig) (malloc : Malloc) (p : Pool) (out ns : List Node)
    → p.w_buffers ≡ ns
    → Inv p out
    → IsFresh malloc p
    → c.buffer_pool_peer_alloc_num ≤ 1024
    → Gives p out (take_write c malloc p ns)
unfolding take_write pop_write
get_write-Gives c malloc p out (n ∷ rest) e v fresh le = pop_write-Inv p out n rest e v
get_write-Gives c malloc p out [] e v fresh le =
    after (alloc c malloc p) (alloc-Filled c malloc p out v fresh le)
  where
    after :
        (r : Option Pool)
        → Filled out r
        → Gives p out (elim r [ none ↦ (none, p) | some p' ↦ pop_write p' p'.w_buffers ])
    after none f = refl
    after (some q) f = pop_write-Gives p q out q.w_buffers refl f.2 f.0

-- From a pool that satisfies the invariant, with a `malloc` that returns no address in use, at most 1024
-- pairs of buffers to a block, and a size of such a block that is an `int`: `GetBuffer` either returns a
-- node, and the invariant holds with that node in use, or it returns null and leaves the pool as it was.
-- A node that it returns was the first of the free list, or lies with all its bytes in a block that
-- `malloc` gave, behind the count at the start of that block.
pub get_buffer-Gives :
    (c : TcpConfig) (malloc : Malloc) (kind : BufferType) (p : Pool) (out : List Node)
    → Inv p out
    → IsFresh malloc p
    → c.buffer_pool_peer_alloc_num ≤ 1024
    → Fits c c.buffer_pool_peer_alloc_num
    → Gives p out (get_buffer c malloc kind p)
      × Taken c malloc (bsize_of kind c) (free_list kind p) (get_buffer c malloc kind p).0
unfolding get_buffer get_read_buffer_inner get_write_buffer_inner
get_buffer-Gives c malloc read_buffer p out v fresh le fits = (
  get_read-Gives c malloc p out p.r_buffers refl v fresh le,
  get_buffer-Taken c malloc read_buffer p fits,
)
get_buffer-Gives c malloc write_buffer p out v fresh le fits = (
  get_write-Gives c malloc p out p.w_buffers refl v fresh le,
  get_buffer-Taken c malloc write_buffer p fits,
)

-- What giving a node back promises: no fault, and the invariant without that node.
abbrev pub Returned : List Node → Option Pool → Type 0
Returned out none = ⊥
Returned out (some q) = Inv q out

-- Dropping a node that is counted nowhere but in `out`.
pub unref-Inv :
    (p : Pool) (n : Node) (out : List Node) → Inv p (n ∷ out) → Returned out (unref p n.block)
unfolding unref
unref-Inv p n out v = elim (Option-cases (p.blocks n.block)) [
  | inl e ↦ absurd (ground (arith, v.refs n.block))
  | inr (k, e) ↦
      let here : count_of (some k)
          ≡ count_in n.block p.r_buffers
            + count_in n.block p.w_buffers
            + count_in n.block (n ∷ out) =
        omega (arith, v.refs n.block, ap count_of e) in
      let low : count_of (some k) ≤ 2048 = omega (arith, v.small n.block, ap count_of e) in
      rw (e, unref)
        (record {
          rb_counted = v.rb_counted;
          wb_counted = v.wb_counted;
          refs = λ b. ground (arith, v.refs b, here, low);
          live = λ b. ground (arith, v.live b, here, low);
          small = λ b. ground (arith, v.small b, here, low);
        })
]

free_read-Returned :
    (c : TcpConfig) (p : Pool) (n : Node) (out : List Node)
    → Inv p (n ∷ out)
    → Returned out (free_read_buffer_inner c p n)
unfolding free_read_buffer_inner
free_read-Returned c p n out v = elim (Bool-cases (leb c.buffer_pool_min_block_num p.rb_size)) [
  | inl full ↦ rw full (unref-Inv p n out v)
  | inr room ↦ rw room (record {
    rb_counted = omega (arith, v.rb_counted);
    wb_counted = v.wb_counted;
    refs = λ b. omega (arith, v.refs b);
    live = v.live;
    small = v.small;
  })
]

free_write-Returned :
    (c : TcpConfig) (p : Pool) (n : Node) (out : List Node)
    → Inv p (n ∷ out)
    → Returned out (free_write_buffer_inner c p n)
unfolding free_write_buffer_inner
free_write-Returned c p n out v = elim (Bool-cases (leb c.buffer_pool_min_block_num p.wb_size)) [
  | inl full ↦ rw full (unref-Inv p n out v)
  | inr room ↦ rw room (record {
    rb_counted = v.rb_counted;
    wb_counted = omega (arith, v.wb_counted);
    refs = λ b. omega (arith, v.refs b);
    live = v.live;
    small = v.small;
  })
]

-- Under the invariant, freeing a node that is in use, as either kind of buffer, reads no count of
-- a freed block, and leaves the invariant with the node no longer in use.
pub free_buffer-Returned :
    (c : TcpConfig) (kind : BufferType) (p : Pool) (n : Node) (out : List Node)
    → Inv p (n ∷ out)
    → Returned out (free_buffer c kind p n)
unfolding free_buffer
free_buffer-Returned c read_buffer p n out v = free_read-Returned c p n out v
free_buffer-Returned c write_buffer p n out v = free_write-Returned c p n out v

-- Under the invariant, the block of a buffer in use is allocated.
pub in_use_allocated :
    (p : Pool) (n : Node) (out : List Node) → Inv p (n ∷ out) → p.blocks n.block ≢ none
in_use_allocated p n out v e = absurd (ground (arith, v.refs n.block))
