-- ===== src/Tests/Accepts.antt =====
-- SPSock.cpp: a server with two I/O threads, of which the first has both connections.
use spsock.Prelude.{
  ℕ, ◌<◌, ◌≡◌, ◌≢◌, refl, List, [], ◌∷◌, none, some, Bool, true, false, arith, length, get_or,
  count_if, pos,
}
use spsock.BufferPool
use spsock.BufferPool.{Node, Malloc, Pool, get_buffer}
use spsock.Buffer
use spsock.Controller
use spsock.Controller.{Controller}
use spsock.Tcp.{Server, IoThreadInfo}
use spsock.Tcp.Connections
use spsock.Tcp.Connections.{
  find, pick_thread, least_loaded, ltb_ℤ, handle_close_list, handle_connect, ConnectCalls,
}
use spsock.Tcp.Balance.{no_thread, pick_thread_lem}
use spsock.Tcp.Load.{
  belongs, count_at, IsCounted, Listed, stale_miscounts, handle_close_list-IsCounted,
  handle_connect-IsCounted,
}
use spsock.Tests.Pools.{config, scarce}
use spsock.Tests.Servers.{server}
use spsock.Tests.Streams.{connection}

abbrev threads : List IoThreadInfo
threads =
    record { count = pos 2; epollfd = 10; exitfd = 11 }
    ∷ record { count = pos 0; epollfd = 12; exitfd = 13 }
    ∷ []

abbrev pub busy : Server
busy = record server { loop_info = threads }

pick_thread_lem_example :
    (1 < length threads)
    × ((j : ℕ)
        → j < length threads
        → ltb_ℤ (get_or threads j no_thread).count (get_or threads 1 no_thread).count ≡ false)
unfolding pick_thread least_loaded
pick_thread_lem_example = pick_thread_lem threads (λ e. absurd (ground arith))

busy-counts : (i : ℕ) → i < 2 → count_at threads i ≡ pos (count_if (belongs i) server.connections)
busy-counts ℕ.zero lt = refl
busy-counts (ℕ.suc ℕ.zero) lt = refl
busy-counts (ℕ.suc (ℕ.suc i)) lt = absurd (omega arith)

pub busy-IsCounted : IsCounted busy
busy-IsCounted = record { counts = busy-counts }

pub found : find 5 server.connections ≢ none
unfolding find
found e = absurd (ground arith)

-- The connection 5 belongs to the first thread, which the freed memory still says.
pub listed : Listed busy.stale (5 ∷ []) server.connections
unfolding find
listed = ((connection, refl, refl), tt)

handle_close_list-IsCounted_example : IsCounted (handle_close_list busy)
handle_close_list-IsCounted_example = handle_close_list-IsCounted busy busy-IsCounted listed

-- The same, where freed memory says that every connection was the second thread's.
abbrev misled : Server
misled = record busy { stale = λ fd. 1 }

stale_miscounts_example : ¬ IsCounted (handle_close_list misled)
unfolding find
stale_miscounts_example =
    stale_miscounts misled 5 connection (record { counts = busy-counts }) refl refl (omega arith)
      (λ e. absurd (omega (arith, e)))

abbrev pub blank : Node → List ℕ
blank n = []

-- A connection is accepted and set up; it is not registered with `epoll` when `registered` is false.
abbrev pub calls : Bool → ConnectCalls
calls registered = record {
  accepted = some 6;
  get_flags = true;
  set_flags = true;
  ctx = 0;
  registered = registered;
}

pub has_room :
    (fd ctx info : ℕ)
    → (Controller.init config scarce blank fd ctx info Controller.new BufferPool.empty).0 ≡ true
unfolding Controller.init Controller.new Buffer.init Buffer.new get_buffer BufferPool.empty
    BufferPool.get_read_buffer_inner BufferPool.get_write_buffer_inner BufferPool.alloc
    BufferPool.alloc_from BufferPool.try_alloc BufferPool.pop_read BufferPool.pop_write
    BufferPool.link BufferPool.take_write BufferPool.take_read
has_room fd ctx info = refl

handle_connect-IsCounted_example :
    IsCounted (handle_connect (calls true) config scarce blank busy BufferPool.empty).1
handle_connect-IsCounted_example =
    handle_connect-IsCounted config scarce blank (calls true) busy BufferPool.empty busy-IsCounted
      (λ fd ctx. has_room fd ctx (pick_thread threads))

-- No memory at all.
abbrev refusing : Malloc
refusing size = none
