-- ===== src/Tcp.antt =====
-- SPSock.cpp, `SPSockTcp`: the state of the server and the functions that set it up.
--
-- `status` is given by its bits, 0x1 `listening`, 0x2 `callbacks`, 0x4 `signal_set`, 0x8 `ran`. What
-- the operating system answers is an argument of each function. `closed` records the descriptors
-- passed to `close`, newest first, `notified` the connections passed to the close callback. `stale` says
-- which thread a read of `controller->info` finds once the connection's controller has been freed: the
-- allocator's choice, about which nothing is known.
pub mod Connections
pub mod Events
pub mod Threads
pub mod Setup
pub mod Balance
pub mod Accepting
pub mod Load
pub mod Closing
pub mod Handling
pub mod Loops
pub mod Serving
pub mod Passes
pub mod Watching
pub mod Deferred
pub mod Options
pub mod Retrying
pub mod Running
pub mod Instance
use spsock.Prelude.{
  ℕ, List, [], ◌∷◌, Option, none, some, Bool, true, false, ◌&&◌, ◌||◌, not, if◌then◌else◌, ℤ, pos,
  negsuc,
}
use spsock.Config.{WaterMark}
use spsock.Controller.{Controller}

-- Which callbacks are set.
pub record Procs : Type 0 where
  pub rdp : Bool
  pub wtp : Bool
  pub cnp : Bool
  pub csp : Bool

pub record IoThreadInfo : Type 0 where
  pub count : ℤ
  pub epollfd : ℕ
  pub exitfd : ℕ

pub record Linger : Type 0 where
  pub l_onoff : Bool
  pub l_linger : ℤ

pub record Alive : Type 0 where
  pub keep_alive : Bool
  pub alive_seconds : ℤ
  pub detect_times : ℤ
  pub detect_interval : ℤ

pub record Server : Type 0 where
  pub listening : Bool
  pub callbacks : Bool
  pub signal_set : Bool
  pub ran : Bool
  pub exit_flag : Bool
  pub listenfd : Option ℕ
  pub lin : Linger
  pub alive : Alive
  pub procs : Procs
  pub mark : WaterMark
  pub close_list : List ℕ
  pub loop_info : List IoThreadInfo
  pub connections : List (ℕ × Controller)
  pub closed : List ℕ
  pub stale : ℕ → ℕ
  pub notified : List ℕ

-- What `Listen` is answered: by the address parser, `socket`, the two `setsockopt`, `bind`, `listen`.
pub record ListenCalls : Type 0 where
  pub address_ok : Bool
  pub socket : Option ℕ
  pub reuse_addr : Bool
  pub reuse_port : Bool
  pub bound : Bool
  pub listened : Bool

abbrev pub log_close : ℕ → Server → Server
log_close fd s = record s { closed = fd ∷ s.closed }

unfoldable pub listen : ListenCalls → Server → Bool × Server
listen os s =
    if s.listening
    then (false, s)
    else (if not os.address_ok then (false, s) else elim os.socket [
      | none ↦ (false, record s { listenfd = none })
      | some fd ↦
          (let undone = record (log_close fd s) { listenfd = none } in
            if not (os.reuse_addr && os.reuse_port)
            then (false, undone)
            else (if not os.bound
                then (false, undone)
                else (if not os.listened
                    then (false, undone)
                    else (true, record s { listenfd = some fd; listening = true }))))
    ])

abbrev pub is_positive : ℤ → Bool
is_positive (pos ℕ.zero) = false
is_positive (pos (ℕ.suc n)) = true
is_positive (negsuc n) = false

unfoldable pub enable_linger : Bool → ℤ → Server → Bool × Server
enable_linger enable wait_seconds s =
    if not enable
    then (true, record s { lin = record { l_onoff = false; l_linger = s.lin.l_linger } })
    else (if not (is_positive wait_seconds)
        then (false, s)
        else (true, record s { lin = record { l_onoff = true; l_linger = wait_seconds } }))

unfoldable pub enable_keep_alive : Bool → ℤ → ℤ → ℤ → Server → Bool × Server
enable_keep_alive enable alive_seconds detect_times detect_interval s =
    if not enable
    then (
      true,
      record s {
        alive = record {
          keep_alive = false;
          alive_seconds = s.alive.alive_seconds;
          detect_times = s.alive.detect_times;
          detect_interval = s.alive.detect_interval;
        };
      },
    )
    else (if not (is_positive alive_seconds)
          || (not (is_positive detect_times) || not (is_positive detect_interval))
        then (false, s)
        else (
          true,
          record s {
            alive = record {
              keep_alive = true;
              alive_seconds = alive_seconds;
              detect_times = detect_times;
              detect_interval = detect_interval;
            };
          },
        ))

unfoldable pub set_callback : Procs → Server → Bool × Server
set_callback p s =
    if not p.cnp && (not p.csp && (not p.rdp && not p.wtp))
    then (false, s)
    else (true, record s { procs = p; callbacks = true })

unfoldable pub set_water_mark : ℕ → ℕ → Server → Server
set_water_mark r w s = record s { mark = record { read_mark = r; write_mark = w } }

-- `installed` is whether `sigaction` succeeds.
unfoldable pub set_signal_exit : Bool → Server → Bool × Server
set_signal_exit installed s =
    if s.signal_set
    then (false, s)
    else (if installed then (true, record s { signal_set = true }) else (false, s))

unfoldable pub set_exit_flag : Server → Server
set_exit_flag s = record s { exit_flag = false }

-- The handler that `SetSignalExit` installs.
unfoldable pub handle_exit : Server → Server
handle_exit s = if s.exit_flag then record s { exit_flag = false } else s
