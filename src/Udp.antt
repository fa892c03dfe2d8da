-- ===== src/Udp.antt =====
-- SPSock.cpp, `SPSockUdp`: the datagram server.
--
-- `status` is given by its bits, 0x1 `bound`, 0x2 `callback`, 0x4 `signal_set`; the bit 0x8 that
-- `EventLoop` tests is `ran`. What the operating system answers is an argument of each function.
-- `closed` records the descriptors passed to `close`, newest first.
pub mod Binding
pub mod Instance
use spsock.Prelude.{
  ℕ, zero, suc, ◌+◌, ◌%◌, List, [], ◌∷◌, ◌++◌, Option, none, some, Bool, true, false, not, ◌&&◌,
  ◌||◌, leb, ◌==◌, if◌then◌else◌, length,
}
use spsock.Socket.{Errno, eintr, eagain, ewouldblock}

pub record Server : Type 0 where
  pub bound : Bool
  pub callback : Bool
  pub signal_set : Bool
  pub ran : Bool
  pub exit_flag : Bool
  pub ctx : ℕ
  pub fds : List ℕ
  pub closed : List ℕ

-- The assertions of `Config`.
unfoldable pub accepts : ℕ → ℕ → Bool
accepts recv_bsize max_payload_size =
    leb 204800 recv_bsize
    && recv_bsize % 1024 == 0
    && (leb 1452 max_payload_size && leb max_payload_size 65507)

-- What the calls for one socket of `Bind` answer: `socket`, the four `setsockopt`, `bind`.
pub record BindCalls : Type 0 where
  pub socket : Option ℕ
  pub options : List Bool
  pub bind_ok : Bool

unfoldable pub all_true : List Bool → Bool
all_true [] = true
all_true (b ∷ bs) = b && all_true bs

-- The loop of `Bind`: it stops at the first socket that cannot be set up, which it closes.
unfoldable pub bind_loop : List BindCalls → Server → Server
bind_loop [] s = s
bind_loop (o ∷ os) s = elim o.socket [
  | none ↦ s
  | some fd ↦
      (let rest = bind_loop os (record s { fds = s.fds ++ (fd ∷ []) }) in
        if all_true o.options
        then (if o.bind_ok then rest else record s { closed = fd ∷ s.closed })
        else record s { closed = fd ∷ s.closed })
]

-- `close` of each of `fds`.
unfoldable pub close_fds : List ℕ → List ℕ → List ℕ
close_fds [] closed = closed
close_fds (fd ∷ fds) closed = close_fds fds (fd ∷ closed)

-- `Bind`, on as many processors as there are answers.
unfoldable pub bind : Bool → List BindCalls → Server → Bool × Server
bind address_ok os s =
    let hardware = length os in
    let s' = bind_loop os s in
    if s.bound
    then (false, s)
    else (if not address_ok
        then (false, s)
        else (if hardware == 0 then (false, s) else (
          true,
          (if length s'.fds == hardware
              then record s' { bound = true }
              else record s' { fds = []; closed = close_fds s'.fds s'.closed; bound = true }),
        )))

-- The answers of `recvfrom`.
pub data Datagram : Type 0 where
  arrived : List ℕ → Datagram
  failed : Errno → Datagram

abbrev pub try_again : Errno → Bool
try_again eintr = true
try_again eagain = true
try_again ewouldblock = true
try_again _ = false

-- `MainEventLoop` on one socket, over the answers up to the end of the loop: the datagrams that were
-- passed to the callback, in order. The exit flag is looked at before each call; the list ends where
-- it is found down.
unfoldable pub main_event_loop : List Datagram → List (List ℕ)
main_event_loop [] = []
main_event_loop (arrived bytes ∷ ds) = bytes ∷ main_event_loop ds
main_event_loop (failed e ∷ ds) = let rest = main_event_loop ds in if try_again e then rest else []

-- What `EventLoop` does: it is refused, or it runs one loop for each socket. `none` where the code
-- takes the first of no sockets.
unfoldable pub event_loop : Server → Option (Bool × Server)
event_loop s =
    if s.ran
    then some (false, s)
    else (if not s.bound
        then some (false, s)
        else (if not s.callback then some (false, s) else elim s.fds [
          | [] ↦ none
          | fd ∷ fds ↦ some (true, record s { closed = close_fds (fd ∷ fds) s.closed; fds = [] })
        ]))

-- `SendTo`: `parsed` is whether the address is one, `count` what `sendto` returns.
unfoldable pub send_to : Bool → Bool → Bool → Option ℕ → ℕ → ℕ → Server → Bool
send_to has_data has_ip parsed count size port s =
    if not s.bound
    then false
    else (if not has_data || (not has_ip || (size == 0 || port == 0))
        then false
        else (if not parsed then false else elim count [ none ↦ false | some n ↦ n == size ]))

unfoldable pub set_signal_exit : Bool → Server → Bool × Server
set_signal_exit installed s =
    if installed then (true, record s { signal_set = true }) else (false, s)

unfoldable pub set_callback : Bool → ℕ → Server → Bool × Server
set_callback has_proc ctx s =
    if has_proc then (true, record s { ctx = ctx; callback = true }) else (false, s)

unfoldable pub set_exit_flag : Server → Server
set_exit_flag s = record s { exit_flag = false }

unfoldable pub handle_exit : Server → Server
handle_exit s = if s.exit_flag then record s { exit_flag = false } else s

-- The destructor.
unfoldable pub destroy : Server → Server
destroy s = record s { closed = close_fds s.fds s.closed; fds = [] }
