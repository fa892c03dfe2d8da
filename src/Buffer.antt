-- ===== src/Buffer.antt =====
-- SPBuffer.cpp, SPBuffer.h: the circular byte buffer of a connection.
--
-- `store` holds the bytes that the pointer `buffer` leads to and `node` the place of the pool that
-- they were taken from, `none` while `buffer` is null. A byte is a number, since bytes are only
-- moved. Sums are `unsigned int` sums and wrap. A `memcpy` out of the store is a `slice`, one into it
-- a `blit`; one that would leave the store is cut off at its end.
pub mod Valid
pub mod Advance
pub mod Read
pub mod Grow
pub mod Write
pub mod Stream
use spsock.Prelude.{
  ℕ, ◌+◌, ◌-◌, ◌%◌, List, [], ◌++◌, Option, none, some, Bool, true, false, ◌||◌, u32, ltb, ◌==◌,
  if◌then◌else◌, length, take, drop, slice, blit,
}
use spsock.Config.{BufferType, read_buffer, write_buffer, TcpConfig}
use spsock.BufferPool.{Node, Pool, Malloc, get_buffer, free_buffer}

pub record Buffer : Type 0 where
  pub back : ℕ
  pub front : ℕ
  pub size : ℕ
  pub bsize : ℕ
  pub store : List ℕ
  pub node : Option Node
  pub kind : BufferType

-- `unsigned int` addition and subtraction.
abbrev pub add : ℕ → ℕ → ℕ
add a b = u32 (a + b)

abbrev pub sub : ℕ → ℕ → ℕ
sub a b = u32 (a + 4294967296 - b)

-- The constructor.
unfoldable pub new : BufferType → Buffer
new kind = record { back = 0; front = 0; size = 0; bsize = 0; store = []; node = none; kind = kind }

abbrev pub config_size : TcpConfig → BufferType → ℕ
config_size c read_buffer = c.read_bsize
config_size c write_buffer = c.write_bsize

-- `Init`; `memory` is what lies behind a node of the pool.
unfoldable pub init : TcpConfig → Malloc → (Node → List ℕ) → Buffer → Pool → Bool × Buffer × Pool
init c malloc memory b p =
    let b' = record b { bsize = config_size c b.kind } in
    let (r, p') = get_buffer c malloc b.kind p in
    elim r [
      | none ↦ (false, record b' { node = none; store = [] }, p')
      | some n ↦ (true, record b' { node = some n; store = memory n }, p')
    ]

unfoldable pub bytes_read : Buffer → ℕ
bytes_read b = b.size

unfoldable pub bytes_write : Buffer → ℕ
bytes_write b = sub b.bsize b.size

unfoldable pub distance_write : Buffer → ℕ
unfolding bytes_write
distance_write b =
    let write_available = bytes_write b in
    let linear_space = sub b.bsize b.front in
    if ltb write_available linear_space then write_available else linear_space

unfoldable pub distance_read : Buffer → ℕ
unfolding bytes_read
distance_read b =
    let read_available = bytes_read b in
    let linear_space = sub b.bsize b.back in
    if ltb read_available linear_space then read_available else linear_space

unfoldable pub commit_read : ℕ → Buffer → Buffer
commit_read len b = record b { back = add b.back len % b.bsize; size = sub b.size len }

unfoldable pub commit_write : ℕ → Buffer → Buffer
commit_write len b =
    let b' = record b { front = add b.front len % b.bsize; size = add b.size len } in
    if b'.size == 0 then record b' { front = 0; back = 0 } else b'

-- The bytes from `readPtr()` on, and a copy of bytes to `writePtr()`.
unfoldable pub at_read_ptr : Buffer → ℕ → List ℕ
at_read_ptr b len = slice b.store b.back len

unfoldable pub at_write_ptr : Buffer → List ℕ → Buffer
at_write_ptr b bytes = record b { store = blit b.store b.front bytes }

-- The number of bytes that `read` copies, and how many of some bytes lie before the end.
abbrev pub bytes_to_read : Buffer → ℕ → ℕ
bytes_to_read b len = if ltb b.size len then b.size else len

abbrev pub first_chunk : Buffer → ℕ → ℕ → ℕ
first_chunk b from len = if ltb b.bsize (add from len) then sub b.bsize from else len

-- What the two copies of `read` put into `buf`.
unfoldable pub copied_out : Buffer → ℕ → List ℕ
copied_out b n =
    let first = first_chunk b b.back n in
    slice b.store b.back first ++ (if ltb first n then slice b.store 0 (sub n first) else [])

-- `peek`: the count, and the bytes put into `buf`.
unfoldable pub peek : Buffer → ℕ → ℕ × List ℕ
peek b len =
    if len == 0 || b.size == 0
    then (0, [])
    else (let to_peek = if ltb b.size len then b.size else len in
        let first = if ltb b.bsize (add b.back to_peek) then sub b.bsize b.back else to_peek in
        let once = slice b.store b.back first in
        let rest = slice b.store 0 (sub to_peek first) in
        (to_peek, if ltb first to_peek then once ++ rest else once))

unfoldable pub read : Buffer → ℕ → (ℕ × List ℕ) × Buffer
read b len =
    if len == 0 || b.size == 0
    then ((0, []), b)
    else (let n = bytes_to_read b len in
        let b' = record b { size = sub b.size n } in
        (
          (n, copied_out b n),
          if b'.size == 0
              then record b' { front = 0; back = 0 }
              else record b' { back = add b.back n % b.bsize },
        ))

-- What the two copies of `write` leave in the store.
unfoldable pub copied_in : Buffer → ℕ → List ℕ → List ℕ
copied_in b n bytes =
    let first = first_chunk b b.front n in
    let once = blit b.store b.front (take first bytes) in
    if ltb first n then blit once 0 (slice bytes first (sub n first)) else once

abbrev pub bytes_to_write : Buffer → ℕ → ℕ
unfolding bytes_write
bytes_to_write b len = if ltb (bytes_write b) len then bytes_write b else len

-- `write`; the source holds `len` bytes.
unfoldable pub write : Buffer → List ℕ → ℕ × Buffer
unfolding bytes_write
write b bytes =
    let len = length bytes in
    if len == 0 || bytes_write b == 0
    then (0, b)
    else (let n = bytes_to_write b len in
        (
          n,
          record b {
            store = copied_in b n bytes;
            front = add b.front n % b.bsize;
            size = add b.size n;
          },
        ))

-- The destructor.
unfoldable pub destroy : TcpConfig → Buffer → Pool → Option Pool
destroy c b p = elim b.node [ none ↦ some p | some n ↦ free_buffer c b.kind p n ]
