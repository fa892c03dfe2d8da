-- ===== src/Controller.antt =====
-- SPController.cpp, SPController.h: the controller of one connection.
--
-- The text form of the peer's address is left out, and so is the context pointer's target. A result
-- of type `ssize_t` is an integer. A loop takes fuel and returns `none` without it; `Controller/`
-- shows that the fuel given here is enough.
pub mod Retry
pub mod Receive
pub mod Transmit
pub mod WriteBack
pub mod Move
use spsock.Prelude.{
  ℕ, zero, suc, ◌+◌, ◌-◌, List, [], Option, none, some, Bool, true, false, min, u32, ltb, ◌==◌,
  if◌then◌else◌, length, ℤ, pos, negsuc,
}
use spsock.Config.{Events, no_events, TcpConfig, read_buffer, write_buffer}
use spsock.BufferPool.{Node, Pool, Malloc}
use spsock.Buffer
use spsock.Buffer.{Buffer}
use spsock.Socket.{
  Errno, eintr, eagain, ewouldblock, epipe, econnreset, Received, received, recv_failed, Sent, sent,
  send_failed, Socket,
}

pub record Controller : Type 0 where
  pub fd : ℕ
  pub events : Events
  pub peer_closed : Bool
  pub ctx : ℕ
  pub info : ℕ
  pub read_buf : Buffer
  pub write_buf : Buffer

-- `SOCKController{}`: the value that stands in the map before `init`.
unfoldable pub new : Controller
unfolding Buffer.new
new = record {
  fd = 0;
  events = no_events;
  peer_closed = false;
  ctx = 0;
  info = 0;
  read_buf = Buffer.new read_buffer;
  write_buf = Buffer.new write_buffer;
}

unfoldable pub init :
    TcpConfig → Malloc → (Node → List ℕ) → ℕ → ℕ → ℕ → Controller → Pool → Bool × Controller × Pool
init cfg malloc memory fd ctx info c p =
    let (ok, rb, p1) = Buffer.init cfg malloc memory c.read_buf p in
    let c1 = record c { read_buf = rb } in
    if ok
    then (let (ok2, wb, p2) = Buffer.init cfg malloc memory c.write_buf p1 in
        let c2 = record c1 { write_buf = wb } in
        if ok2
        then (
          true,
          record c2 {
            fd = fd;
            info = info;
            ctx = ctx;
            events = cfg.epoll_default_event;
            peer_closed = false;
          },
          p2,
        )
        else (false, c2, p2))
    else (false, c1, p1)

-- The branches on `errno` of `readInner` and `writeInner`, behind that on `EINTR`.
abbrev pub errno_result : Errno → ℤ
errno_result eagain = pos 0
errno_result ewouldblock = pos 0
errno_result _ = negsuc 0

-- Those of `write`: the result, and whether the peer is marked as closed.
abbrev pub write_errno : Errno → ℤ × Bool
write_errno eagain = (pos 0, false)
write_errno ewouldblock = (pos 0, false)
write_errno epipe = (negsuc 1, true)
write_errno econnreset = (negsuc 1, true)
write_errno _ = (negsuc 0, false)

abbrev pub is_eintr : Errno → Bool
is_eintr eintr = true
is_eintr _ = false

abbrev pub recv_result : Received → ℤ × List ℕ
recv_result (received bs) = (pos (length bs), bs)
recv_result (recv_failed e) = (errno_result e, [])

abbrev pub send_result : Sent → ℤ
send_result (sent n) = pos n
send_result (send_failed e) = errno_result e

abbrev pub recv_again : Received → Bool
recv_again (received bs) = false
recv_again (recv_failed e) = is_eintr e

abbrev pub send_again : Sent → Bool
send_again (sent n) = false
send_again (send_failed e) = is_eintr e

module _ (sock : Socket) where
  open sock use {State, recv, send, interrupts}

  -- `retry:`; the last call allowed is made without a look at its error.
  pub recv_retry : ℕ → ℕ → State → Received × State
  recv_retry zero len s = recv len s
  recv_retry (suc fuel) len s =
      let (r, s') = recv len s in
      let again = recv_retry fuel len s' in if recv_again r then again else (r, s')

  pub send_retry : ℕ → List ℕ → State → Sent × State
  send_retry zero bytes s = send bytes s
  send_retry (suc fuel) bytes s =
      let (r, s') = send bytes s in
      let again = send_retry fuel bytes s' in if send_again r then again else (r, s')

  -- The result, the bytes put into `buf`, and the socket afterwards.
  pub read_inner : ℕ → State → (ℤ × List ℕ) × State
  read_inner len s = let (r, s') = recv_retry (interrupts s) len s in (recv_result r, s')

  pub write_inner : List ℕ → State → ℤ × State
  write_inner bytes s = let (r, s') = send_retry (interrupts s) bytes s in (send_result r, s')

  -- `readSocket`, of the read buffer.
  pub read_loop : ℕ → Buffer → State → Option (Bool × Buffer × State)
  read_loop zero b s = none
  read_loop (suc fuel) b s =
      let len = Buffer.distance_write b in
      let ((ret, bytes), s') = read_inner len s in
      if len == 0 then some (true, b, s) else elim ret [
        | negsuc n ↦ some (false, b, s')
        | pos n ↦
            if n == 0
            then some (true, b, s')
            else (let b' = Buffer.commit_write n (Buffer.at_write_ptr b bytes) in
                let rest = read_loop fuel b' s' in if ltb n len then some (true, b', s') else rest)
      ]

  pub read_socket : Controller → State → Option (Bool × Controller × State)
  read_socket c s = elim (read_loop (suc (Buffer.bytes_write c.read_buf)) c.read_buf s) [
    | none ↦ none
    | some (ok, b, s') ↦ some (ok, record c { read_buf = b }, s')
  ]

  -- `write`: straight to the socket, past the write buffer.
  pub write : Controller → List ℕ → State → ℤ × Controller × State
  write c bytes s =
      let (r, s') = send_retry (interrupts s) bytes s in
      elim r [
        | sent n ↦ (pos n, c, s')
        | send_failed e ↦
            let (ret, gone) = write_errno e in
            (ret, if gone then record c { peer_closed = true } else c, s')
      ]

  -- `commitWrite`, of the write buffer.
  pub commit_loop : ℕ → Buffer → State → Option (ℤ × Buffer × State)
  commit_loop zero b s = none
  commit_loop (suc fuel) b s =
      let len = Buffer.distance_read b in
      let (ret, s') = write_inner (Buffer.at_read_ptr b len) s in
      if len == 0 then some (pos 0, b, s) else elim ret [
        | negsuc n ↦ some (negsuc n, b, s')
        | pos n ↦
            if n == 0
            then some (pos (Buffer.bytes_read b), b, s')
            else (let b' = Buffer.commit_read n b in
                let rest = commit_loop fuel b' s' in
                if ltb n len then some (pos (Buffer.bytes_read b'), b', s') else rest)
      ]

  pub commit_write : Controller → State → Option (ℤ × Controller × State)
  commit_write c s = elim (commit_loop (suc (Buffer.bytes_read c.write_buf)) c.write_buf s) [
    | none ↦ none
    | some (ret, b, s') ↦ some (ret, record c { write_buf = b }, s')
  ]

  -- The second loop of `writeBack`, of the read buffer; `total` is `writeResult`.
  pub back_loop : ℕ → ℕ → Buffer → State → Option (ℤ × Buffer × State)
  back_loop zero total b s = none
  back_loop (suc fuel) total b s =
      let chunk = Buffer.distance_read b in
      let (ret, s') = write_inner (Buffer.at_read_ptr b chunk) s in
      if chunk == 0 then some (pos total, b, s) else elim ret [
        | negsuc n ↦ some (negsuc n, b, s')
        | pos n ↦
            (let rest = back_loop fuel (total + n) (Buffer.commit_read n b) s' in
              if n == 0 then some (pos total, b, s') else rest)
      ]

  pub write_back : Controller → State → Option (ℤ × Controller × State)
  write_back c s = elim (commit_write c s) [
    | none ↦ none
    | some (ret, c', s') ↦ elim ret [
      | negsuc n ↦ some (negsuc n, c', s')
      | pos n ↦
          if n == 0
          then elim (back_loop (suc (Buffer.bytes_read c'.read_buf)) 0 c'.read_buf s') [
            | none ↦ none
            | some (ret', b, s'') ↦ some (ret', record c' { read_buf = b }, s'')
          ]
          else some (pos n, c', s')
    ]
  ]

-- The loop of `moveToWriteBuffer`, of the read buffer and the write buffer.
pub move_loop : ℕ → ℕ → ℕ → Buffer → Buffer → ℕ × Buffer × Buffer
move_loop zero moved max_move r w = (moved, r, w)
move_loop (suc fuel) moved max_move r w =
    let chunk = min (Buffer.distance_read r) (Buffer.distance_write w) in
    let rest =
      move_loop fuel (u32 (moved + chunk)) max_move (Buffer.commit_read chunk r)
        (Buffer.commit_write chunk (Buffer.at_write_ptr w (Buffer.at_read_ptr r chunk))) in
    if ltb moved max_move then (if chunk == 0 then (moved, r, w) else rest) else (moved, r, w)

pub move_to_write_buffer : Controller → ℕ × Controller
move_to_write_buffer c =
    let max_move = min (Buffer.bytes_read c.read_buf) (Buffer.bytes_write c.write_buf) in
    let (moved, r, w) = move_loop (suc max_move) 0 max_move c.read_buf c.write_buf in
    (moved, record c { read_buf = r; write_buf = w })

pub read : Controller → ℕ → (ℕ × List ℕ) × Controller
read c len = let (r, b) = Buffer.read c.read_buf len in (r, record c { read_buf = b })

pub peek : Controller → ℕ → ℕ × List ℕ
peek c len = Buffer.peek c.read_buf len

pub write_temp : Controller → List ℕ → ℕ × Controller
write_temp c bytes = let (n, b) = Buffer.write c.write_buf bytes in (n, record c { write_buf = b })

unfoldable pub get_read_buffer_size : Controller → ℕ
get_read_buffer_size c = Buffer.bytes_read c.read_buf

unfoldable pub get_write_buffer_size : Controller → ℕ
get_write_buffer_size c = Buffer.bytes_read c.write_buf

-- `done` is what `funcEvent` answers: whether the events could be registered.
unfoldable pub enable_events : Bool → Controller → Bool → Bool → Bool × Controller
enable_events done c read write = (
  done,
  record c { events = if done then record { epollin = read; epollout = write } else no_events },
)

unfoldable pub renable_events : Bool → Controller → Bool × Controller
renable_events done c = (done, if done then c else record c { events = no_events })
