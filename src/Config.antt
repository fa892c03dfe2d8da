-- ===== src/Config.antt =====
-- SPTypes.h: the small types that the parts share and the TCP configuration, and the checks that
-- `SPSockTcp::Config` makes of it. A field of type `int` is given by its non-negative value. The
-- ratio of worker threads is a `float` and stands apart, in `Tcp/Threads`.
use spsock.Prelude.{ℕ, ◌%◌, Bool, false, ◌&&◌, ltb, leb, ◌==◌}

pub data BufferType : Type 0 where
  read_buffer write_buffer : BufferType

-- `EPOLLIN` and `EPOLLOUT` of an event mask.
pub record Events : Type 0 where
  pub epollin : Bool
  pub epollout : Bool

abbrev pub no_events : Events
no_events = record { epollin = false; epollout = false }

pub record WaterMark : Type 0 where
  pub read_mark : ℕ
  pub write_mark : ℕ

pub record TcpConfig : Type 0 where
  pub read_bsize : ℕ
  pub write_bsize : ℕ
  pub buffer_pool_peer_alloc_num : ℕ
  pub buffer_pool_min_block_num : ℕ
  pub epoll_max_event_bsize : ℕ
  pub epoll_default_event : Events
  pub threadpool_queue_length : ℕ
  pub threadpool_batch_size_submit : ℕ
  pub threadpool_batch_size_process : ℕ

-- The assertions of `Config`; `ratio_ok` is `0.0 < WORKER_THREAD_RATIO < 1.0`. The mask has no other
-- bit than the two of `Events`.
unfoldable pub accepts : TcpConfig → Bool → Bool
accepts c ratio_ok =
    leb 1024 c.read_bsize
    && c.read_bsize % 1024 == 0
    && (leb 1024 c.write_bsize && c.write_bsize % 1024 == 0)
    && (leb 1 c.buffer_pool_peer_alloc_num && leb c.buffer_pool_peer_alloc_num 1024)
    && leb c.buffer_pool_peer_alloc_num c.buffer_pool_min_block_num
    && (ltb 0 c.epoll_max_event_bsize && leb c.epoll_max_event_bsize 65535)
    && (ltb 0 c.threadpool_queue_length && leb c.threadpool_queue_length 1048576)
    && (ltb 0 c.threadpool_batch_size_submit
        && leb c.threadpool_batch_size_submit c.threadpool_queue_length)
    && (ltb 0 c.threadpool_batch_size_process && leb c.threadpool_batch_size_process 1024)
    && ratio_ok
