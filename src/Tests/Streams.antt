-- ===== src/Tests/Streams.antt =====
-- SPController.cpp on a socket that hands over what it is given, accepts two bytes at a time, and
-- is interrupted by signals a number of times.
use spsock.Prelude.{
  ℕ, zero, suc, ◌≤◌, ◌<◌, ◌≡◌, refl, List, [], ◌∷◌, ◌++◌, none, false, arith, length, take, drop,
  length-take, min, ap,
}
use spsock.Config.{no_events, write_buffer}
use spsock.Buffer.{Buffer}
use spsock.Buffer.Valid.{IsValid}
use spsock.Socket.{Errno, eintr, Received, received, recv_failed, Sent, sent, send_failed, Socket}
use spsock.Controller.{Controller, write_back, move_to_write_buffer, read_socket, commit_write}
use spsock.Tests.Buffers.{ring, ring-IsValid}
use spsock.Controller.Move.{Shifted, move_to_write_buffer_lem}
use spsock.Controller.Receive.{Refilled, read_socket-Refilled}
use spsock.Controller.WriteBack.{WroteBack, write_back-WroteBack}
use spsock.Controller.Transmit.{Committed, commit_write-Committed}

pub record Line : Type 0 where
  incoming : List ℕ
  got : List ℕ
  out : List ℕ
  signals : ℕ

abbrev pub line_recv : ℕ → ℕ → Line → Received × Line
line_recv zero n s = (
  received (take n s.incoming),
  record s { incoming = drop n s.incoming; got = s.got ++ take n s.incoming },
)
line_recv (suc k) n s = (recv_failed eintr, record s { signals = k })

abbrev pub line_send : ℕ → List ℕ → Line → Sent × Line
line_send zero bs s =
    (sent (min 2 (length bs)), record s { out = s.out ++ take (min 2 (length bs)) bs })
line_send (suc k) bs s = (send_failed eintr, record s { signals = k })

pub line_recv_le :
    (k n : ℕ) (s : Line) (bs : List ℕ) → (line_recv k n s).0 ≡ received bs → length bs ≤ n
line_recv_le zero n s bs e = ground (arith, length-take n s.incoming)
line_recv_le (suc k) n s bs e = absurd (ground arith)

pub line_recv_takes :
    (k n : ℕ) (s : Line) (bs : List ℕ)
    → (line_recv k n s).0 ≡ received bs
    → (line_recv k n s).1.got ≡ s.got ++ bs
line_recv_takes zero n s bs e = ground arith
line_recv_takes (suc k) n s bs e = absurd (ground arith)

pub line_recv_fails :
    (k n : ℕ) (s : Line) (r : Errno)
    → (line_recv k n s).0 ≡ recv_failed r
    → (line_recv k n s).1.got ≡ s.got
line_recv_fails zero n s r e = absurd (ground arith)
line_recv_fails (suc k) n s r e = refl

pub line_recv_interrupted :
    (k n : ℕ) (s : Line)
    → k ≡ s.signals
    → (line_recv k n s).0 ≡ recv_failed eintr
    → (line_recv k n s).1.signals < s.signals
line_recv_interrupted zero n s z e = absurd (ground arith)
line_recv_interrupted (suc k) n s z e = omega arith

pub line_send_le :
    (k : ℕ) (bs : List ℕ) (s : Line) (n : ℕ) → (line_send k bs s).0 ≡ sent n → n ≤ length bs
line_send_le zero bs s n e = ground arith
line_send_le (suc k) bs s n e = absurd (ground arith)

pub line_send_puts :
    (k : ℕ) (bs : List ℕ) (s : Line) (n : ℕ)
    → (line_send k bs s).0 ≡ sent n
    → (line_send k bs s).1.out ≡ s.out ++ take n bs
line_send_puts zero bs s n e =
    let z : min 2 (length bs) ≡ n = ground arith in ap (λ j. s.out ++ take j bs) z
line_send_puts (suc k) bs s n e = absurd (ground arith)

pub line_send_fails :
    (k : ℕ) (bs : List ℕ) (s : Line) (r : Errno)
    → (line_send k bs s).0 ≡ send_failed r
    → (line_send k bs s).1.out ≡ s.out
line_send_fails zero bs s r e = absurd (ground arith)
line_send_fails (suc k) bs s r e = refl

pub line_send_interrupted :
    (k : ℕ) (bs : List ℕ) (s : Line)
    → k ≡ s.signals
    → (line_send k bs s).0 ≡ send_failed eintr
    → (line_send k bs s).1.signals < s.signals
line_send_interrupted zero bs s z e = absurd (ground arith)
line_send_interrupted (suc k) bs s z e = omega arith

abbrev pub line : Socket
line = record {
  State = Line;
  recv = λ n s. line_recv s.signals n s;
  send = λ bs s. line_send s.signals bs s;
  arrived = λ s. s.got;
  wire = λ s. s.out;
  interrupts = λ s. s.signals;
  recv_le = λ n s bs e. line_recv_le s.signals n s bs e;
  send_le = λ bs s n e. line_send_le s.signals bs s n e;
  recv_takes = λ n s bs e. line_recv_takes s.signals n s bs e;
  recv_fails = λ n s r e. line_recv_fails s.signals n s r e;
  send_puts = λ bs s n e. line_send_puts s.signals bs s n e;
  send_fails = λ bs s r e. line_send_fails s.signals bs s r e;
  recv_interrupted = λ n s e. line_recv_interrupted s.signals n s refl e;
  send_interrupted = λ bs s e. line_send_interrupted s.signals bs s refl e;
}

abbrev pub start : Line
start = record { incoming = 1 ∷ 2 ∷ 3 ∷ 4 ∷ []; got = []; out = []; signals = 1 }

-- Three bytes round the end of a store of four, to be sent, and a read buffer with two.
abbrev pub outgoing : Buffer
outgoing = record {
  back = 2;
  front = 1;
  size = 3;
  bsize = 4;
  store = 9 ∷ 0 ∷ 7 ∷ 8 ∷ [];
  node = none;
  kind = write_buffer;
}

pub outgoing-IsValid : IsValid outgoing
outgoing-IsValid = record {
  sized = refl;
  nonempty = omega arith;
  small = omega arith;
  back_in = omega arith;
  fits = omega arith;
  ends = refl;
}

abbrev pub connection : Controller
connection = record {
  fd = 5;
  events = no_events;
  peer_closed = false;
  ctx = 0;
  info = 0;
  read_buf = ring;
  write_buf = outgoing;
}

read_socket-Refilled_example : Refilled line connection start (read_socket line connection start)
read_socket-Refilled_example = read_socket-Refilled line connection start ring-IsValid

commit_write-Committed_example :
    Committed line connection start (commit_write line connection start)
commit_write-Committed_example = commit_write-Committed line connection start outgoing-IsValid

move_to_write_buffer_lem_example :
    ((move_to_write_buffer connection).0 ≡ 1)
    × Shifted 1 ring outgoing
        (move_to_write_buffer connection).1.read_buf
        (move_to_write_buffer connection).1.write_buf
move_to_write_buffer_lem_example = move_to_write_buffer_lem connection ring-IsValid outgoing-IsValid

write_back-WroteBack_example : WroteBack line connection start (write_back line connection start)
write_back-WroteBack_example =
    write_back-WroteBack line connection start outgoing-IsValid ring-IsValid
