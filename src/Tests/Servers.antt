-- ===== src/Tests/Servers.antt =====
-- SPSock.cpp: the theorems about the two servers, on small states.
use spsock.Prelude.{count_if, Bool, ℕ, ◌+◌, ◌≡◌, refl, List, [], ◌∷◌, none, some, true, false, pos}
use spsock.Config.{WaterMark}
use spsock.Tcp
use spsock.Tcp.{ListenCalls, listen}
use spsock.Tcp.Connections.{handle_close_list}
use spsock.Tcp.Closing.{handle_close_list_lem, erase_all}
use spsock.Tcp.Events.{Ready}
use spsock.Udp
use spsock.Udp.{BindCalls, all_true, bind, bind_loop, event_loop}
use spsock.Udp.Binding.{bind_failure_unreported}
use spsock.Tests.Streams.{connection}

abbrev mark : WaterMark
mark = record { read_mark = 2; write_mark = 0 }

abbrev pub server : Tcp.Server
server = record {
  listening = false;
  callbacks = true;
  signal_set = false;
  ran = false;
  exit_flag = true;
  listenfd = none;
  lin = record { l_onoff = false; l_linger = pos 0 };
  alive = record {
    keep_alive = false;
    alive_seconds = pos 0;
    detect_times = pos 0;
    detect_interval = pos 0;
  };
  procs = record { rdp = true; wtp = false; cnp = false; csp = true };
  mark = mark;
  close_list = 5 ∷ [];
  loop_info = [];
  connections = (4, connection) ∷ (5, connection) ∷ [];
  closed = [];
  notified = [];
  stale = λ fd. 0;
}

handle_close_list_lem_example :
    ((handle_close_list server).close_list ≡ [])
    × ((handle_close_list server).closed ≡ 5 ∷ [])
    × ((handle_close_list server).connections ≡ erase_all (5 ∷ []) server.connections)
    × ((handle_close_list server).notified ≡ 5 ∷ [])
handle_close_list_lem_example = handle_close_list_lem server

abbrev udp_server : Udp.Server
udp_server = record {
  bound = false;
  callback = false;
  signal_set = false;
  ran = false;
  exit_flag = true;
  ctx = 0;
  fds = [];
  closed = [];
}

-- The second of two sockets cannot be bound.
abbrev two_sockets : List BindCalls
two_sockets =
    record { socket = some 3; options = []; bind_ok = true }
    ∷ record { socket = some 4; options = []; bind_ok = false }
    ∷ []

bind_failure_unreported_example :
    let s' = (bind true two_sockets udp_server).1 in
    ((bind true two_sockets udp_server).0 ≡ true)
    × (s'.bound ≡ true)
    × (s'.fds ≡ [])
    × ((c : ℕ → Bool) → count_if c s'.closed ≡ count_if c [] + count_if c (3 ∷ 4 ∷ []))
    × (event_loop (record s' { callback = true; ran = false }) ≡ none)
unfolding all_true
bind_failure_unreported_example = bind_failure_unreported two_sockets udp_server refl refl refl

-- The peer has sent bytes and closed.
abbrev pub ready : Ready
ready = record { hup_or_err = false; readable = true; rdhup = true; writable = false }
