-- ===== src/Tests/Loops.antt =====
-- SPSock.cpp: passes of the two loops, on the server with two connections.
use spsock.Prelude.{some, ℕ, ◌≡◌, ◌≢◌, refl, List, [], ◌∷◌, none, Bool, true, false, arith, inr}
use spsock.BufferPool
use spsock.BufferPool.{get_buffer}
use spsock.Task.{UtilTask, no_task}
use spsock.Task.Pending
use spsock.Tcp.{Server}
use spsock.Tcp.Connections.{find}
use spsock.Tcp.Events.{Ready}
use spsock.Tcp.Load.{IsCounted}
use spsock.Tcp.Loops.{
  incoming, Tick, MainLoop, main_pass, main_passes, Report, connection_event, IoLoop, io_pass,
}
use spsock.Tcp.Threads.{create_io_event_loop, make_loops, calculate_optimal_thread_counts}
use spsock.Tcp.Running.{RunCalls, RanOnce, event_loop, event_loop-RanOnce}
use spsock.Tcp.Passes.{IsServing, Passed, io_pass-Passed}
use spsock.Tcp.Watching.{main_pass-IsCounted, main_passes-stops}
use spsock.Tests.Buffers.{ring-IsValid}
use spsock.Tests.Pools.{config, scarce}
use spsock.Tests.Streams.{Line, line, start, outgoing-IsValid}
use spsock.Tests.Servers.{server, ready}
use spsock.Tests.Tasks.{full, full-IsValid}
use spsock.Tests.Accepts.{busy, busy-IsCounted, blank, calls, found, listed, has_room}

-- A batch of up to three tasks, empty.
abbrev util : UtilTask
util = record {
  ts_flag = true;
  tm = record {
    flag = true;
    back = 1;
    front = 1;
    size = 0;
    tasks = no_task ∷ no_task ∷ no_task ∷ [];
  };
}

batch-IsValid : Pending.IsValid 3 util.tm
batch-IsValid = record {
  sized = refl;
  small = omega arith;
  back_in = omega arith;
  fits = omega arith;
  ends = refl;
}

abbrev io_loop : IoLoop Line
io_loop = record { server = busy; util = util; workers = full; enabled = []; sockets = λ fd. start }

io_loop-IsServing : IsServing line 3 io_loop
io_loop-IsServing = record {
  buffers = ((ring-IsValid, outgoing-IsValid), ((ring-IsValid, outgoing-IsValid), tt));
  ready = (full-IsValid, inr (batch-IsValid, omega arith));
}

-- The peer of the first connection has gone.
abbrev gone : Ready
gone = record { hup_or_err = true; readable = true; rdhup = true; writable = false }

found_first : find 4 server.connections ≢ none
unfolding find
found_first e = absurd (ground arith)

abbrev reports : List Report
reports = connection_event 5 ready true ∷ connection_event 4 gone true ∷ []

io_pass-Passed_example : Passed line 3 reports io_loop (io_pass line 3 reports io_loop)
io_pass-Passed_example =
    io_pass-Passed line 3 reports io_loop io_loop-IsServing (found, (found_first, tt))

abbrev main_loop : MainLoop
main_loop = record {
  server = record busy { close_list = [] };
  buffers = BufferPool.empty;
  last_close = 100;
}

-- A connection comes 60 milliseconds after the close list was worked off; one is to be closed.
abbrev pub tick : Bool → Tick
tick signalled = record {
  signalled = signalled;
  closing = 5 ∷ [];
  before = 120;
  polled = λ timeout. incoming (calls true);
  after = 160;
}

main_pass-IsCounted_example :
    IsCounted (main_pass config scarce blank 9 (tick false) main_loop).1.server
main_pass-IsCounted_example =
    main_pass-IsCounted config scarce blank 9 (tick false) main_loop
      (record { counts = busy-IsCounted.counts }) listed has_room

main_passes-stops_example :
    ((main_passes config scarce blank 9 (tick false ∷ tick true ∷ []) main_loop).0 ≢ none)
    × ((fds : List ℕ) × ((main_passes config scarce blank 9
            (tick false ∷ tick true ∷ [])
            main_loop).1.server.closed
          ≡ 9 ∷ fds))
main_passes-stops_example =
    main_passes-stops config scarce blank 9 (tick false ∷ []) [] (tick true) main_loop refl

-- A machine with two cores; the signal comes in the second pass.
abbrev run_calls : RunCalls
run_calls = record {
  hardware = 2;
  scaled = 1;
  pool_ok = true;
  loops = λ i. record { epoll = some 20; event = some 21; watched = true };
  idle = some 9;
  started = 100;
  ticks = tick false ∷ tick true ∷ [];
  workers_end = true;
  threads_end = true;
}

abbrev listening : Server
listening = record server { listening = true; connections = []; close_list = [] }

event_loop-RanOnce_example :
    RanOnce config scarce blank 9
      (event_loop config scarce blank run_calls BufferPool.empty listening)
unfolding calculate_optimal_thread_counts create_io_event_loop make_loops
event_loop-RanOnce_example =
    event_loop-RanOnce config scarce blank run_calls BufferPool.empty listening 1 1 9
      (tick false ∷ []) [] (tick true) refl refl refl refl refl refl refl refl refl
