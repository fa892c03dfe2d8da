-- ===== src/Tcp/Threads.antt =====
-- SPSock.cpp: how many threads there are, and the event loops' descriptors.
use spsock.Prelude.{
  ℕ, ◌-◌, List, [], ◌∷◌, ◌++◌, Option, none, some, Bool, true, false, leb, ◌==◌, if◌then◌else◌,
  length, pos,
}
use spsock.Tcp.{Server, IoThreadInfo}

-- `CalculateOptimalThreadCounts`: the I/O threads and the worker threads. `scaled` stands for
-- `(int)(hardware_threads * weight + 0.5)`, which is computed in floating point.
unfoldable pub calculate_optimal_thread_counts : ℕ → ℕ → Option (ℕ × ℕ)
calculate_optimal_thread_counts hardware scaled =
    if hardware == 0
    then none
    else (if leb hardware 2
        then some (1, 1)
        else (if scaled == 0
            then some (hardware - 1, 1)
            else (if hardware - scaled == 0
                then some (1, scaled - 1)
                else some (hardware - scaled, scaled))))

-- What the calls for one event loop answer: `epoll_create1`, `eventfd`, `epoll_ctl`.
pub record LoopCalls : Type 0 where
  pub epoll : Option ℕ
  pub event : Option ℕ
  pub watched : Bool

-- The first loop of `CreateIOEventLoop`: the loops made, and the descriptors closed on the way.
unfoldable pub make_loops : List LoopCalls → List IoThreadInfo × List ℕ
make_loops [] = ([], [])
make_loops (o ∷ os) =
    let (made, closed) = make_loops os in
    elim o.epoll [
      | none ↦ ([], [])
      | some epollfd ↦ elim o.event [
        | none ↦ ([], epollfd ∷ [])
        | some exitfd ↦
            if o.watched
            then (record { count = pos 0; epollfd = epollfd; exitfd = exitfd } ∷ made, closed)
            else ([], exitfd ∷ epollfd ∷ [])
      ]
    ]

-- The loops that close the descriptors of all event loops, given what has been closed before.
abbrev pub close_loops : List IoThreadInfo → List ℕ → List ℕ
close_loops [] closed = closed
close_loops (t ∷ ts) closed = close_loops ts (t.exitfd ∷ t.epollfd ∷ closed)

-- `CreateIOEventLoop` for as many loops as there are answers. The loops that are made stand behind those
-- that `loopInfo` has already, from a call that has failed.
unfoldable pub create_io_event_loop : List LoopCalls → Server → Bool × Server
create_io_event_loop os s =
    let (made, closed) = make_loops os in
    let s' = record s { loop_info = s.loop_info ++ made; closed = closed ++ s.closed } in
    if length s'.loop_info == length os
    then (true, s')
    else (false, record s' { closed = close_loops s'.loop_info s'.closed })

-- `ExitIOEventLoop`, once the threads have ended.
unfoldable pub exit_io_event_loop : Server → Server
exit_io_event_loop s = record s { closed = close_loops s.loop_info s.closed }
