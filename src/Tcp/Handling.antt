-- ===== src/Tcp/Handling.antt =====
-- What the handlers of read and write events do.
use mathlib.Core.Path.{subst}
use spsock.Controller
use spsock.Tcp.{Procs}
use spsock.Buffer.Valid.{IsValid}
use spsock.Controller.Receive.{Refilled, read_socket-Refilled}
use spsock.Controller.Transmit.{Committed, commit_write-Committed}
use spsock.Prelude.{
  Option-cases, true, false, Bool, ◌≢◌, inl, inr, ◌≡◌, ◌≤◌, ◌↔◌, ◌&&◌, none, some, Bool, true,
  false, arith, ◌==◌, ◌⊎◌,
}
use spsock.Config.{WaterMark}
use spsock.Buffer.{bytes_read}
use spsock.Controller
use spsock.Controller.{Controller}
use spsock.Socket.{Socket}
use spsock.Task.{read_proc}
use spsock.Tcp.Events.{after_read, handle_read, handle_write, dispatch, Ready}

-- Behind a successful `readSocket` the read callback is queued exactly when the peer has not both
-- closed and been read to the end, and the read buffer holds as many bytes as the read mark asks;
-- a connection whose callback is queued is kept.
pub after_read_lem :
    (sock : Socket) (mark : WaterMark) (done : Bool) (c : Controller)
    → let v = (after_read sock mark done c).0 in
      ((v.task ≡ some read_proc)
        ↔ (((c.peer_closed && c.read_buf.size == 0) ≡ false) × (mark.read_mark ≤ c.read_buf.size)))
      × ((v.task ≡ none) ⊎ (v.keep ≡ true))
unfolding after_read bytes_read Controller.get_read_buffer_size
after_read_lem sock mark done c = (((λ e. ground arith), λ e. ground arith), ground arith)

given_read :
    (sock : Socket) (mark : WaterMark) (done : Bool) (c : Controller) (s : sock.State)
    → IsValid c.read_buf
    → (procs : Procs) → handle_read sock procs mark done c s ≢ none
unfolding handle_read
given_read sock mark done c s v procs =
    let h = read_socket-Refilled sock c s v in
    elim (Option-cases (Controller.read_socket sock c s)) [
      | inl e ↦ absurd (subst (Refilled sock c s) e h)
      | inr (r, e) ↦ λ z. absurd (ground (arith, e))
    ]

given_write :
    (sock : Socket) (mark : WaterMark) (done : Bool) (c : Controller) (s : sock.State)
    → IsValid c.write_buf
    → (procs : Procs) → handle_write sock procs mark done c s ≢ none
unfolding handle_write
given_write sock mark done c s v procs =
    let h = commit_write-Committed sock c s v in
    elim (Option-cases (Controller.commit_write sock c s)) [
      | inl e ↦ absurd (subst (Committed sock c s) e h)
      | inr (r, e) ↦ λ z. absurd (ground (arith, e))
    ]

-- Whatever an event of a connection with valid buffers says, and whatever the socket answers, its
-- handling comes to an end.
pub dispatch_ends :
    (sock : Socket) (r : Ready) (procs : Procs) (mark : WaterMark) (done : Bool) (c : Controller)
    (s : sock.State)
    → IsValid c.read_buf
    → IsValid c.write_buf
    → dispatch sock r procs mark done c s ≢ none
unfolding dispatch
dispatch_ends sock r procs mark done c s v w z =
    let a = given_read sock mark done c s v procs in
    let b = given_read sock mark done (record c { peer_closed = true }) s v procs in
    let d = given_write sock mark done c s w procs in absurd (ground (arith, a, b, d))
