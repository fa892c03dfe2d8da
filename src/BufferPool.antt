-- ===== src/BufferPool.antt =====
-- SPBufferPool.hpp: the pool from which connections take their read and write buffers.
--
-- A block is what one `malloc` returned, named by its address; `blocks` gives the reference count in
-- the first word of each live block, and `none` for an address that is not allocated. A node is a
-- place in a block: its header of two pointers and the bytes behind it. The free lists, linked
-- through the second pointer of each node, are lists of nodes, head first. A function returns `none`
-- where the code would read the count of a block that is no longer there.
--
-- `malloc` is a parameter: what it returns for each size. Sizes and distances in a block are sums and
-- products of type `int`, and wrap as those of compiled code do; where one does, the code's behaviour
-- is undefined. `Fits` says that none does.
pub mod Layout
pub mod Counts
pub mod Alloc
pub mod Taken
pub mod Safety
pub mod Release
use spsock.Prelude.{
  ℕ, zero, suc, ◌<◌, ◌%◌, ◌+◌, ◌-◌, ◌*◌, ◌/◌, List, [], ◌∷◌, ◌++◌, Option, none, some, Bool, true,
  false, tabulate, u32, ltb, leb, ◌==◌, if◌then◌else◌,
}
use spsock.Config.{BufferType, read_buffer, write_buffer, TcpConfig}

pub record Node : Type 0 where
  pub block : ℕ
  pub offset : ℕ

pub record Pool : Type 0 where
  pub r_buffers : List Node
  pub w_buffers : List Node
  pub rb_size : ℕ
  pub wb_size : ℕ
  pub blocks : ℕ → Option ℕ

abbrev pub Malloc : Type 0
Malloc = ℕ → Option ℕ

abbrev pub update : (ℕ → Option ℕ) → ℕ → Option ℕ → ℕ → Option ℕ
update f p v q = if p == q then v else f q

-- `2 * sizeof(void *)`
abbrev pub header : ℕ
header = 16

abbrev pub peer_read_bsize : TcpConfig → ℕ
peer_read_bsize c = c.read_bsize + header

abbrev pub peer_write_bsize : TcpConfig → ℕ
peer_write_bsize c = c.write_bsize + header

-- An `int` as a `size_t`, or as a distance between pointers: the sign is extended.
abbrev pub from_int : ℕ → ℕ
from_int x = if ltb (u32 x) 2147483648 then u32 x else u32 x + 18446744069414584320

abbrev pub total_size : TcpConfig → ℕ → ℕ
total_size c num = from_int (4 + (peer_read_bsize c + peer_write_bsize c) * num)

-- The size of a block of `num` pairs of buffers is an `int`.
abbrev pub Fits : TcpConfig → ℕ → Type 0
Fits c num = 4 + (peer_read_bsize c + peer_write_bsize c) * num < 2147483648

-- The sum of a pointer and a distance, from the start of the block.
abbrev pub along : ℕ → ℕ → ℕ
along start distance = (start + from_int distance) % 18446744073709551616

-- The nodes that the two loops of `tryAlloc` link: `num` of them, `stride` bytes apart.
abbrev pub nodes : ℕ → ℕ → ℕ → ℕ → List Node
nodes block start stride num =
    tabulate num (λ i. record { block = block; offset = along start (i * stride) })

abbrev pub read_nodes : TcpConfig → ℕ → ℕ → List Node
read_nodes c block num = nodes block 4 (peer_read_bsize c) num

abbrev pub write_nodes : TcpConfig → ℕ → ℕ → List Node
write_nodes c block num = nodes block (along 4 (peer_read_bsize c * num)) (peer_write_bsize c) num

-- A new block with `num` buffers of each kind, linked in front of the free lists.
unfoldable pub link : TcpConfig → ℕ → ℕ → Pool → Pool
link c num buf p = record p {
  blocks = update p.blocks buf (some (num * 2));
  r_buffers = read_nodes c buf num ++ p.r_buffers;
  rb_size = u32 (p.rb_size + num);
  w_buffers = write_nodes c buf num ++ p.w_buffers;
  wb_size = u32 (p.wb_size + num);
}

unfoldable pub try_alloc : TcpConfig → Malloc → ℕ → Pool → Option Pool
try_alloc c malloc num p = elim (malloc (total_size c num)) [
  | none ↦ none
  | some buf ↦ some (link c num buf p)
]

-- `while (num > 0) { if (tryAlloc(num)) return true; num /= 2; }`, on fuel.
unfoldable pub alloc_from : ℕ → TcpConfig → Malloc → ℕ → Pool → Option Pool
alloc_from zero c malloc num p = none
alloc_from (suc fuel) c malloc num p =
    let rest = alloc_from fuel c malloc (num / 2) p in
    if ltb 0 num then elim (try_alloc c malloc num p) [ some p' ↦ some p' | none ↦ rest ] else none

unfoldable pub alloc : TcpConfig → Malloc → Pool → Option Pool
alloc c malloc p =
    alloc_from (suc c.buffer_pool_peer_alloc_num) c malloc c.buffer_pool_peer_alloc_num p

-- The head of a free list, once there is one. The list is empty after a successful `Alloc` only if
-- that linked no node; the code would then read through a null pointer.
unfoldable pub pop_read : Pool → List Node → Option Node × Pool
pop_read p [] = (none, p)
pop_read p (n ∷ rest) =
    (some n, record p { r_buffers = rest; rb_size = u32 (p.rb_size + 4294967295) })

unfoldable pub pop_write : Pool → List Node → Option Node × Pool
pop_write p [] = (none, p)
pop_write p (n ∷ rest) =
    (some n, record p { w_buffers = rest; wb_size = u32 (p.wb_size + 4294967295) })

unfoldable pub take_read : TcpConfig → Malloc → Pool → List Node → Option Node × Pool
take_read c malloc p [] = elim (alloc c malloc p) [
  | none ↦ (none, p)
  | some p' ↦ pop_read p' p'.r_buffers
]
take_read c malloc p (n ∷ rest) = pop_read p (n ∷ rest)

unfoldable pub get_read_buffer_inner : TcpConfig → Malloc → Pool → Option Node × Pool
unfolding take_read
get_read_buffer_inner c malloc p = take_read c malloc p p.r_buffers

unfoldable pub take_write : TcpConfig → Malloc → Pool → List Node → Option Node × Pool
take_write c malloc p [] = elim (alloc c malloc p) [
  | none ↦ (none, p)
  | some p' ↦ pop_write p' p'.w_buffers
]
take_write c malloc p (n ∷ rest) = pop_write p (n ∷ rest)

unfoldable pub get_write_buffer_inner : TcpConfig → Malloc → Pool → Option Node × Pool
unfolding take_write
get_write_buffer_inner c malloc p = take_write c malloc p p.w_buffers

-- `GetBuffer`; the pointer that it returns lies `header` bytes behind the node.
unfoldable pub get_buffer : TcpConfig → Malloc → BufferType → Pool → Option Node × Pool
get_buffer c malloc read_buffer p = get_read_buffer_inner c malloc p
get_buffer c malloc write_buffer p = get_write_buffer_inner c malloc p

-- `--refCount; if (refCount == 0) free(block);`
pub unref : Pool → ℕ → Option Pool
unref p b = elim (p.blocks b) [
  | none ↦ none
  | some count ↦
      let left = u32 (count + 4294967295) in
      some (record p { blocks = update p.blocks b (if left == 0 then none else some left) })
]

pub free_read_buffer_inner : TcpConfig → Pool → Node → Option Pool
free_read_buffer_inner c p n =
    if leb c.buffer_pool_min_block_num p.rb_size
    then unref p n.block
    else some (record p { r_buffers = n ∷ p.r_buffers; rb_size = u32 (p.rb_size + 1) })

pub free_write_buffer_inner : TcpConfig → Pool → Node → Option Pool
free_write_buffer_inner c p n =
    if leb c.buffer_pool_min_block_num p.wb_size
    then unref p n.block
    else some (record p { w_buffers = n ∷ p.w_buffers; wb_size = u32 (p.wb_size + 1) })

pub free_buffer : TcpConfig → BufferType → Pool → Node → Option Pool
free_buffer c read_buffer p n = free_read_buffer_inner c p n
free_buffer c write_buffer p n = free_write_buffer_inner c p n

-- The two loops of `releaseAllBlocks`.
pub release_reads : Pool → List Node → Option Pool
release_reads p [] = some (record p { r_buffers = [] })
release_reads p (n ∷ rest) = elim (unref (record p { r_buffers = rest }) n.block) [
  | none ↦ none
  | some p' ↦ release_reads p' rest
]

pub release_writes : Pool → List Node → Option Pool
release_writes p [] = some (record p { w_buffers = [] })
release_writes p (n ∷ rest) = elim (unref (record p { w_buffers = rest }) n.block) [
  | none ↦ none
  | some p' ↦ release_writes p' rest
]

pub release_all_blocks : Pool → Option Pool
release_all_blocks p = elim (release_reads p p.r_buffers) [
  | none ↦ none
  | some p' ↦ release_writes p' p'.w_buffers
]

pub reset : Pool → Option Pool
reset p = elim (release_all_blocks p) [
  | none ↦ none
  | some p' ↦ some (record p' { rb_size = 0; wb_size = 0; r_buffers = []; w_buffers = [] })
]

-- The constructor of the pool.
unfoldable pub empty : Pool
empty = record { r_buffers = []; w_buffers = []; rb_size = 0; wb_size = 0; blocks = λ b. none }
