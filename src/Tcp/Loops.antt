-- ===== src/Tcp/Loops.antt =====
-- SPSock.cpp: one pass of `MainEventLoop`, and one of `IOEventLoop`.
--
-- What else happens between two passes, in the other threads and in the signal handler, is given with
-- the pass: whether the signal comes, and what the I/O threads have put on the close list. Times are in
-- milliseconds.
use spsock.Prelude.{
  ℕ, ◌-◌, List, [], ◌∷◌, ◌++◌, Option, none, some, Bool, true, false, leb, ◌==◌, if◌then◌else◌,
}
use spsock.Config.{TcpConfig}
use spsock.BufferPool.{Node, Malloc}
use spsock.BufferPool
use spsock.Controller.{Controller}
use spsock.Socket.{Socket}
use spsock.Task
use spsock.Task.{SockTask, UtilTask}
use spsock.Tcp.{Server, handle_exit, log_close}
use spsock.Tcp.Connections.{find, active_close, ConnectCalls, handle_close_list, handle_connect}
use spsock.Tcp.Events.{Ready, Verdict, dispatch}

-- What `poll` answers, with what the calls of `HandleConnect` are answered.
pub data Polled : Type 0 where
  interrupted poll_failed timed_out : Polled
  incoming : ConnectCalls → Polled

pub record Tick : Type 0 where
  pub signalled : Bool
  pub closing : List ℕ
  pub before : ℕ
  pub polled : ℕ → Polled
  pub after : ℕ

-- The variables of the loop, with the server and its buffer pool.
pub record MainLoop : Type 0 where
  pub server : Server
  pub buffers : BufferPool.Pool
  pub last_close : ℕ

-- What happens in the meantime.
unfoldable pub meanwhile : Bool → List ℕ → Server → Server
meanwhile signalled fds s =
    let s' = if signalled then handle_exit s else s in
    record s' { close_list = s'.close_list ++ fds }

-- How long `poll` may wait.
unfoldable pub poll_timeout : ℕ → ℕ → ℕ
poll_timeout last now = 50 - (now - last)

-- The close list is worked off when 50 milliseconds have passed.
unfoldable pub close_in_time : ℕ → MainLoop → MainLoop
close_in_time now m =
    if leb 50 (now - m.last_close)
    then record m { server = handle_close_list m.server; last_close = now }
    else m

-- The idle descriptor is closed on every way out of the loop.
abbrev pub leave : ℕ → MainLoop → MainLoop
leave idlefd m = record m { server = log_close idlefd m.server }

module _ (cfg : TcpConfig) (malloc : Malloc) (memory : Node → List ℕ) where
  -- What follows the call of `poll`.
  unfoldable pub on_poll : ℕ → ℕ → Polled → MainLoop → Option Bool × MainLoop
  on_poll idlefd now interrupted m = (none, m)
  on_poll idlefd now poll_failed m = (some false, leave idlefd m)
  on_poll idlefd now timed_out m = (none, close_in_time now m)
  on_poll idlefd now (incoming os) m =
      let m' = close_in_time now m in
      let (ok, s, p) = handle_connect os cfg malloc memory m'.server m'.buffers in
      let n = record m' { server = s; buffers = p } in
      if ok then (none, n) else (some false, leave idlefd n)

  -- A pass of the loop: what it returns, if it returns.
  unfoldable pub main_pass : ℕ → Tick → MainLoop → Option Bool × MainLoop
  main_pass idlefd t m0 =
      let m = record m0 { server = meanwhile t.signalled t.closing m0.server } in
      if m.server.exit_flag
      then on_poll idlefd t.after (t.polled (poll_timeout m.last_close t.before)) m
      else (some true, leave idlefd m)

  -- The passes of the loop, for as many ticks as there are; `none` while it goes on.
  unfoldable pub main_passes : ℕ → List Tick → MainLoop → Option Bool × MainLoop
  main_passes idlefd [] m = (none, m)
  main_passes idlefd (t ∷ ts) m =
      let (r, m') = main_pass idlefd t m in
      elim r [ some b ↦ (some b, m') | none ↦ main_passes idlefd ts m' ]

  -- `MainEventLoop`, with what `open` of the idle descriptor answers.
  unfoldable pub main_event_loop : Option ℕ → List Tick → MainLoop → Option Bool × MainLoop
  main_event_loop none ts m = (some false, m)
  main_event_loop (some idlefd) ts m = main_passes idlefd ts m

-- What `epoll_wait` reports: the exit descriptor, or a connection by its descriptor with the flags of
-- the event and what `funcEvent` will answer for it.
pub data Report : Type 0 where
  exit_event : Report
  connection_event : ℕ → Ready → Bool → Report

unfoldable pub put_back : ℕ → Controller → List (ℕ × Controller) → List (ℕ × Controller)
put_back fd c [] = []
put_back fd c ((j, d) ∷ m) = if j == fd then (j, c) ∷ m else (j, d) ∷ put_back fd c m

-- The flags and the connection that its `UtilTask` calls `renableProc` for are those of one I/O thread.
pub record IoLoop (State : Type 0) : Type 0 where
  pub server : Server
  pub util : UtilTask
  pub workers : Task.Pool
  pub enabled : List ℕ
  pub sockets : ℕ → State

module _ (sock : Socket) (cap : ℕ) where
  open sock use {State}

  -- What the handler's verdict leads to, for the connection that the map has under `fd`.
  unfoldable pub settle : ℕ → Verdict × Controller × State → IoLoop State → Option (IoLoop State)
  settle fd (v, c, s) l =
      let kept = record l.server { connections = put_back fd c l.server.connections } in
      let l' = record l {
        server = if v.keep then kept else active_close c.fd kept;
        sockets = λ k. if k == fd then s else l.sockets k;
      } in
      elim v.task [
        | none ↦ some l'
        | some proc ↦ elim (Task.append cap (record { proc = proc; ctx = c.fd }) l.util l.workers) [
          | none ↦ none
          | some (u, p, again) ↦
              some (record l' { util = u; workers = p; enabled = l.enabled ++ again })
        ]
      ]

  -- An event of a connection: `none` for one that the map does not have, where the code would read
  -- behind its end.
  unfoldable pub serve : ℕ → Ready → Bool → IoLoop State → Option (IoLoop State)
  unfolding settle
  serve fd r done l = elim (find fd l.server.connections) [
    | none ↦ none
    | some c ↦ elim (dispatch sock r l.server.procs l.server.mark done c (l.sockets fd)) [
      | none ↦ none
      | some answer ↦ settle fd answer l
    ]
  ]

  -- The loop over the events that one call of `epoll_wait` reports, and `reset` behind it; `false`
  -- when the thread returns.
  unfoldable pub io_pass : List Report → IoLoop State → Option (Bool × IoLoop State)
  io_pass [] l = elim (Task.reset cap l.util l.workers) [
    | none ↦ none
    | some (u, p, again) ↦
        some (true, record l { util = u; workers = p; enabled = l.enabled ++ again })
  ]
  io_pass (exit_event ∷ rs) l = some (false, l)
  io_pass (connection_event fd r done ∷ rs) l = elim (serve fd r done l) [
    | none ↦ none
    | some l' ↦ io_pass rs l'
  ]
