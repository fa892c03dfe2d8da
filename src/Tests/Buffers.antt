-- ===== src/Tests/Buffers.antt =====
-- SPBuffer.cpp: a buffer of four bytes that holds two, round the end of its store.
use spsock.Prelude.{◌+◌, ◌≤◌, ◌≡◌, ◌↔◌, refl, List, [], ◌∷◌, ◌++◌, none, arith}
use spsock.Config.{read_buffer}
use spsock.Buffer.{
  Buffer, distance_write, distance_read, peek, read, write, bytes_read, bytes_write, copied_out,
  copied_in,
}
use spsock.Buffer.Stream.{Call, writes, reads, calls, calls_lem}
use spsock.Buffer.Valid.{IsValid, contents, distance_bounds}
use spsock.Buffer.Read.{read_lem, peek_lem}
use spsock.Buffer.Write.{write_lem}

abbrev pub ring : Buffer
ring = record {
  back = 3;
  front = 1;
  size = 2;
  bsize = 4;
  store = 6 ∷ 0 ∷ 0 ∷ 5 ∷ [];
  node = none;
  kind = read_buffer;
}

pub ring-IsValid : IsValid ring
ring-IsValid = record {
  sized = refl;
  nonempty = omega arith;
  small = omega arith;
  back_in = omega arith;
  fits = omega arith;
  ends = refl;
}

contents-ring : contents ring ≡ 5 ∷ 6 ∷ []
contents-ring = refl

read_lem_example :
    ((read ring 9).0.0 ≡ 2)
    × ((read ring 9).0.1 ≡ 5 ∷ 6 ∷ [])
    × (contents (read ring 9).1 ≡ [])
    × IsValid (read ring 9).1
unfolding read copied_out
read_lem_example = read_lem ring 9 ring-IsValid

peek_lem_example :
    ((peek ring 1).0 ≡ 1)
    × ((peek ring 1).1 ≡ 5 ∷ [])
    × (contents ring ≡ 5 ∷ contents (read ring 1).1)
unfolding peek
peek_lem_example = peek_lem ring 1 ring-IsValid

write_lem_example :
    ((write ring (7 ∷ 8 ∷ 9 ∷ [])).0 ≡ 2)
    × (contents (write ring (7 ∷ 8 ∷ 9 ∷ [])).1 ≡ 5 ∷ 6 ∷ 7 ∷ 8 ∷ [])
    × IsValid (write ring (7 ∷ 8 ∷ 9 ∷ [])).1
unfolding write copied_in bytes_write
write_lem_example = write_lem ring (7 ∷ 8 ∷ 9 ∷ []) ring-IsValid

distance_bounds_example :
    (1 + 2 ≤ 4)
    × (2 + 2 ≤ 4)
    × (3 + 1 ≤ 4)
    × (1 ≤ 2)
    × ((distance_write ring ≡ 0) ↔ (ring.size ≡ 4))
    × ((distance_read ring ≡ 0) ↔ (ring.size ≡ 0))
unfolding distance_write distance_read bytes_read bytes_write
distance_bounds_example = distance_bounds ring-IsValid

abbrev mixed : List Call
mixed = writes (7 ∷ 8 ∷ 9 ∷ []) ∷ reads 3 ∷ writes (1 ∷ []) ∷ reads 9 ∷ []

calls_lem_example :
    IsValid (calls mixed ring).1
    × (5 ∷ 6 ∷ (calls mixed ring).0.0 ≡ (calls mixed ring).0.1 ++ contents (calls mixed ring).1)
calls_lem_example = calls_lem mixed ring ring-IsValid
