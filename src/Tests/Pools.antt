-- ===== src/Tests/Pools.antt =====
-- SPBufferPool.hpp: blocks of two pairs of buffers.
use spsock.Prelude.{◌+◌, ◌≤◌, ◌≡◌, ◌≢◌, refl, [], ◌∷◌, none, some, true, arith, leb, if◌then◌else◌}
use spsock.Config
use spsock.Config.{TcpConfig, no_events, read_buffer}
use spsock.BufferPool.{
  Node, Pool, Malloc, peer_read_bsize, peer_write_bsize, total_size, empty, alloc, get_buffer,
  free_buffer, reset, link, get_read_buffer_inner, take_read, alloc_from, try_alloc, pop_read,
}
use spsock.BufferPool.Counts.{Inv, IsFresh, empty-Inv}
use spsock.BufferPool.Alloc.{Linked, Gives, alloc_reaches_one}
use spsock.BufferPool.Taken.{Taken}
use spsock.BufferPool.Safety.{get_buffer-Gives, Returned, free_buffer-Returned}
use spsock.BufferPool.Release.{ResetLeaves, reset_lem}
use spsock.BufferPool.Layout.{nodes_apart}

abbrev pub config : TcpConfig
config = record {
  read_bsize = 1024;
  write_bsize = 2048;
  buffer_pool_peer_alloc_num = 2;
  buffer_pool_min_block_num = 2;
  epoll_max_event_bsize = 64;
  epoll_default_event = no_events;
  threadpool_queue_length = 8;
  threadpool_batch_size_submit = 2;
  threadpool_batch_size_process = 2;
}

-- An allocator that has only room for one pair of buffers.
abbrev pub scarce : Malloc
scarce size = if leb size 3108 then some 7 else none

scarce-IsFresh : IsFresh scarce empty
unfolding empty
scarce-IsFresh size b e = refl

-- The node that the first `GetBuffer` hands out, and the pool behind it.
abbrev first_node : Node
first_node = record { block = 7; offset = 4 }

abbrev first_pool : Pool
first_pool = (get_buffer config scarce read_buffer empty).1

get_buffer-Gives_example :
    Gives empty [] (get_buffer config scarce read_buffer empty)
    × Taken config scarce
        (peer_read_bsize config)
        empty.r_buffers
        (get_buffer config scarce read_buffer empty).0
get_buffer-Gives_example =
    get_buffer-Gives config scarce read_buffer empty [] empty-Inv scarce-IsFresh (omega arith)
      (omega arith)

first_pool-Inv : Inv first_pool (first_node ∷ [])
unfolding get_buffer get_read_buffer_inner take_read alloc alloc_from try_alloc link pop_read empty
first_pool-Inv =
    (get_buffer-Gives config scarce read_buffer empty [] empty-Inv scarce-IsFresh (omega arith)
      (omega arith)).0

free_buffer-Returned_example : Returned [] (free_buffer config read_buffer first_pool first_node)
free_buffer-Returned_example =
    free_buffer-Returned config read_buffer first_pool first_node [] first_pool-Inv

reset_lem_example : ResetLeaves (first_node ∷ []) (reset first_pool)
reset_lem_example = reset_lem first_pool (first_node ∷ []) first_pool-Inv

alloc_reaches_one_example :
    (alloc config scarce empty ≢ none) × Linked config scarce 2 empty (alloc config scarce empty)
alloc_reaches_one_example =
    alloc_reaches_one config scarce empty (omega arith) (omega arith) (λ e. ground arith)

nodes_apart_example :
    (4 ≤ 4)
    × (4 + peer_read_bsize config ≤ 1044)
    × (1044 + peer_read_bsize config ≤ 2084)
    × (2084 + peer_write_bsize config ≤ 4148)
    × (4148 + peer_write_bsize config ≤ total_size config 2)
nodes_apart_example =
    nodes_apart config 7 2 (omega arith) 0 1 first_node (record { block = 7; offset = 1044 })
      (record { block = 7; offset = 2084 }) (record { block = 7; offset = 4148 }) (omega arith) refl
      refl refl refl

-- Sizes that `Config` accepts, with which a block of 1024 pairs of buffers takes a small part of what
-- is linked in it.
abbrev oversized : TcpConfig
oversized = record config {
  read_bsize = 2097152;
  write_bsize = 2097152;
  buffer_pool_peer_alloc_num = 1024;
  buffer_pool_min_block_num = 1024;
}

oversized_wraps : (Config.accepts oversized true ≡ true) × (total_size oversized 1024 ≡ 32772)
unfolding Config.accepts
oversized_wraps = (refl, refl)
