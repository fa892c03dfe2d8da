-- ===== src/Tests/Instances.antt =====
-- SPSock.cpp: a server that has run and been told to stop, released, and made again.
use spsock.Prelude.{◌≡◌, refl, [], ◌∷◌, Option, none, some, true, false, arith}
use spsock.BufferPool
use spsock.BufferPool.{link}
use spsock.BufferPool.Counts.{Inv, empty-Inv, link-Inv}
use spsock.Tcp.{Server, ListenCalls, listen, set_callback, Procs}
use spsock.Tcp.Loops.{MainLoop, meanwhile, leave, main_event_loop}
use spsock.Tcp.Instance.{
  Program, construct, get_instance, release, Released, release-Released, restart_stops,
}
use spsock.Tests.Pools.{config, scarce}
use spsock.Tests.Servers.{server}
use spsock.Tests.Accepts.{blank}
use spsock.Tests.Loops.{tick}

abbrev stopped : Server
stopped = record server {
  listening = true;
  listenfd = some 3;
  ran = true;
  exit_flag = false;
  connections = [];
  close_list = [];
}

-- Two pairs of buffers stand in the pool.
abbrev program : Program
program = record {
  instance_of = some stopped;
  exit_flag = true;
  tcp_config = some config;
  mark = stopped.mark;
  closed = [];
  notified = [];
  stale = stopped.stale;
  buffers = link config 2 7 BufferPool.empty;
}

program-Inv : Inv program.buffers []
unfolding BufferPool.empty
program-Inv = link-Inv config 2 7 empty-Inv refl (omega arith) (omega arith)

-- What is left, or the program itself.
abbrev or_else : Program → Option Program → Program
or_else p none = p
or_else p (some q) = q

abbrev left : Program
left = or_else program (release program)

left_is :
    (r : Option Program)
    → Released stopped r
    → (r ≡ some (or_else program r)) × ((or_else program r).instance_of ≡ none)
left_is none h = absurd h
left_is (some q) h = (refl, h.0)

abbrev answers : ListenCalls
answers = record {
  address_ok = true;
  socket = some 3;
  reuse_addr = true;
  reuse_port = true;
  bound = true;
  listened = true;
}

program-left : (release program ≡ some left) × (left.instance_of ≡ none)
program-left = left_is (release program) (release-Released program stopped refl program-Inv)

made_again : (get_instance true left).0 ≡ some (construct left)
unfolding get_instance
made_again = rw (program-left.1, get_instance) refl

abbrev callbacks : Procs
callbacks = record { rdp = true; wtp = false; cnp = false; csp = false }

abbrev ready_again : MainLoop
ready_again = record {
  server = (set_callback callbacks (listen answers (construct left)).1).1;
  buffers = left.buffers;
  last_close = 100;
}

restart_stops_example :
    main_event_loop config scarce blank (some 9) (tick false ∷ tick false ∷ []) ready_again ≡ (
      some true,
      leave 9 (record ready_again { server = meanwhile false (5 ∷ []) ready_again.server }),
    )
restart_stops_example =
    restart_stops config scarce blank program left stopped (construct left) true answers callbacks 9
      (tick false) (tick false ∷ []) ready_again refl refl program-left.0 made_again refl
