-- ===== src/Socket.antt =====
-- The socket calls that a connection makes, as an interface: `recv` and `send` belong to the
-- operating system. What is asked of them is what their manual pages say of a stream socket, and
-- that signals interrupt a call only finitely often.
use spsock.Prelude.{ℕ, ◌≤◌, ◌<◌, ◌≡◌, List, ◌++◌, length, take}

pub data Errno : Type 0 where
  eintr eagain ewouldblock epipe econnreset : Errno
  other : ℕ → Errno

pub data Received : Type 0 where
  received : List ℕ → Received
  recv_failed : Errno → Received

pub data Sent : Type 0 where
  sent : ℕ → Sent
  send_failed : Errno → Sent

pub record Socket : Type 1 where
  pub State : Type 0
  pub recv : ℕ → State → Received × State
  pub send : List ℕ → State → Sent × State
  -- The bytes that `recv` has handed over so far, and those that `send` has accepted.
  pub arrived : State → List ℕ
  pub wire : State → List ℕ
  -- A bound for the number of calls that signals will still interrupt.
  pub interrupts : State → ℕ
  pub recv_le : (n : ℕ) (s : State) (bs : List ℕ) → (recv n s).0 ≡ received bs → length bs ≤ n
  pub send_le : (bs : List ℕ) (s : State) (n : ℕ) → (send bs s).0 ≡ sent n → n ≤ length bs
  pub recv_takes :
      (n : ℕ) (s : State) (bs : List ℕ)
      → (recv n s).0 ≡ received bs
      → arrived (recv n s).1 ≡ arrived s ++ bs
  pub recv_fails :
      (n : ℕ) (s : State) (e : Errno)
      → (recv n s).0 ≡ recv_failed e
      → arrived (recv n s).1 ≡ arrived s
  pub send_puts :
      (bs : List ℕ) (s : State) (n : ℕ)
      → (send bs s).0 ≡ sent n
      → wire (send bs s).1 ≡ wire s ++ take n bs
  pub send_fails :
      (bs : List ℕ) (s : State) (e : Errno)
      → (send bs s).0 ≡ send_failed e
      → wire (send bs s).1 ≡ wire s
  pub recv_interrupted :
      (n : ℕ) (s : State)
      → (recv n s).0 ≡ recv_failed eintr
      → interrupts (recv n s).1 < interrupts s
  pub send_interrupted :
      (bs : List ℕ) (s : State)
      → (send bs s).0 ≡ send_failed eintr
      → interrupts (send bs s).1 < interrupts s
