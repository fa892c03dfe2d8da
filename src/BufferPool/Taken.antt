-- ===== src/BufferPool/Taken.antt =====
-- Where the node that `GetBuffer` returns comes from: the free list, or a block that `Alloc` has linked.
use spsock.Prelude.{
  ℕ, zero, suc, ◌+◌, ◌*◌, ◌≤◌, ◌≡◌, ◌∙◌, ◌⊎◌, refl, ap, inl, inr, List, [], ◌∷◌, Option, none, some,
  arith,
}
use spsock.Config.{TcpConfig, BufferType, read_buffer, write_buffer}
use spsock.BufferPool.{
  Node, Pool, Malloc, Fits, peer_read_bsize, peer_write_bsize, along, alloc, link, pop_read,
  pop_write, take_read, take_write, get_read_buffer_inner, get_write_buffer_inner, get_buffer,
}
use spsock.BufferPool.Layout.{along_small, pairs_lem}
use spsock.BufferPool.Alloc.{Linked, alloc-Linked, more_room}

abbrev pub free_list : BufferType → Pool → List Node
free_list read_buffer p = p.r_buffers
free_list write_buffer p = p.w_buffers

abbrev pub bsize_of : BufferType → TcpConfig → ℕ
bsize_of read_buffer c = peer_read_bsize c
bsize_of write_buffer c = peer_write_bsize c

-- The node lies, with its header and bytes, in a block that `malloc` gave, behind the block's count.
abbrev pub InBlock : TcpConfig → Malloc → ℕ → Node → Type 0
InBlock c malloc bsize n =
    (k : ℕ) × (malloc (4 + (peer_read_bsize c + peer_write_bsize c) * k) ≡ some n.block)
    × (4 ≤ n.offset)
    × (n.offset + bsize ≤ 4 + (peer_read_bsize c + peer_write_bsize c) * k)

-- A node that was the first of the free list, or one of a new block.
abbrev pub Taken : TcpConfig → Malloc → ℕ → List Node → Option Node → Type 0
Taken c malloc bsize olds none = Unit {0}
Taken c malloc bsize olds (some n) =
    ((rest : List Node) × (olds ≡ n ∷ rest)) ⊎ InBlock c malloc bsize n

at_least_one : (x k : ℕ) → x ≤ x * suc k
at_least_one x k = grind arith

first_read-InBlock :
    (c : TcpConfig) (malloc : Malloc) (p q : Pool) (num : ℕ)
    → Linked c malloc num p (some q)
    → Taken c malloc (peer_read_bsize c) [] (pop_read q q.r_buffers).0
unfolding link pop_read
first_read-InBlock c malloc p q num (zero, buf, pos, le, e, m) = absurd (omega arith)
first_read-InBlock c malloc p q num (suc j, buf, pos, le, e, m) =
    let one = at_least_one (peer_read_bsize c + peer_write_bsize c) j in
    let first = along_small 4 (0 * peer_read_bsize c) (omega arith) (omega arith) in
    rw (e, link, pop_read) (inr (suc j, m, omega (arith, first), omega (arith, first, one)))

first_write-InBlock :
    (c : TcpConfig) (malloc : Malloc) (p q : Pool) (num : ℕ)
    → Fits c num
    → Linked c malloc num p (some q)
    → Taken c malloc (peer_write_bsize c) [] (pop_write q q.w_buffers).0
unfolding link pop_write
first_write-InBlock c malloc p q num fits (zero, buf, pos, le, e, m) = absurd (omega arith)
first_write-InBlock c malloc p q num fits (suc j, buf, pos, le, e, m) =
    let room = more_room (peer_read_bsize c + peer_write_bsize c) (suc j) num le in
    let pairs = pairs_lem c (suc j) in
    let one = at_least_one (peer_write_bsize c) j in
    let start =
      along_small 4 (peer_read_bsize c * suc j) (omega arith) (omega (arith, pairs, room, fits)) in
    let place : along (along 4 (peer_read_bsize c * suc j)) (0 * peer_write_bsize c)
        ≡ 4 + peer_read_bsize c * suc j + 0 * peer_write_bsize c =
      ap (λ x. along x (0 * peer_write_bsize c)) start
      ∙ along_small (4 + peer_read_bsize c * suc j) (0 * peer_write_bsize c)
          (omega (arith, pairs, room, fits)) (omega arith) in
    rw (e, link, pop_write) (inr (suc j, m, omega (arith, place), omega (arith, place, pairs, one)))

take_read-Taken :
    (c : TcpConfig) (malloc : Malloc) (p : Pool) (ns : List Node)
    → Fits c c.buffer_pool_peer_alloc_num
    → Taken c malloc (peer_read_bsize c) ns (take_read c malloc p ns).0
unfolding take_read pop_read
take_read-Taken c malloc p (n ∷ rest) fits = inl (rest, refl)
take_read-Taken c malloc p [] fits = after (alloc c malloc p) (alloc-Linked c malloc p fits)
  where
    after :
        (r : Option Pool)
        → Linked c malloc c.buffer_pool_peer_alloc_num p r
        → Taken c malloc
            (peer_read_bsize c)
            []
            (elim r as (λ _. Option Node × Pool) [
              | none ↦ (none, p)
              | some p' ↦ pop_read p' p'.r_buffers
            ]).0
    after none l = tt
    after (some q) l = first_read-InBlock c malloc p q _ l

take_write-Taken :
    (c : TcpConfig) (malloc : Malloc) (p : Pool) (ns : List Node)
    → Fits c c.buffer_pool_peer_alloc_num
    → Taken c malloc (peer_write_bsize c) ns (take_write c malloc p ns).0
unfolding take_write pop_write
take_write-Taken c malloc p (n ∷ rest) fits = inl (rest, refl)
take_write-Taken c malloc p [] fits = after (alloc c malloc p) (alloc-Linked c malloc p fits)
  where
    after :
        (r : Option Pool)
        → Linked c malloc c.buffer_pool_peer_alloc_num p r
        → Taken c malloc
            (peer_write_bsize c)
            []
            (elim r as (λ _. Option Node × Pool) [
              | none ↦ (none, p)
              | some p' ↦ pop_write p' p'.w_buffers
            ]).0
    after none l = tt
    after (some q) l = first_write-InBlock c malloc p q _ fits l

pub get_buffer-Taken :
    (c : TcpConfig) (malloc : Malloc) (kind : BufferType) (p : Pool)
    → Fits c c.buffer_pool_peer_alloc_num
    → Taken c malloc (bsize_of kind c) (free_list kind p) (get_buffer c malloc kind p).0
unfolding get_buffer get_read_buffer_inner get_write_buffer_inner
get_buffer-Taken c malloc read_buffer p fits = take_read-Taken c malloc p p.r_buffers fits
get_buffer-Taken c malloc write_buffer p fits = take_write-Taken c malloc p p.w_buffers fits
