-- ===== src/Tcp/Load.antt =====
-- The counts of the I/O threads: each is the number of connections that the thread has.
use spsock.Prelude.{
  ℕ, zero, suc, ◌+◌, ◌<◌, ◌≡◌, ◌≢◌, refl, sym, ap, ◌∙◌, inl, inr, List, [], ◌∷◌, some, Bool, true,
  false, arith, length, get_or, count_if, ltb, ◌==◌, if◌then◌else◌, Bool-cases, Option-cases, ℤ,
  pos,
}
use spsock.Config.{TcpConfig}
use spsock.BufferPool.{Node, Pool, Malloc}
use spsock.Controller
use spsock.Controller.{Controller}
use spsock.Tcp.{Server, IoThreadInfo}
use spsock.Tcp.Connections.{
  find, erase, increment, decrement, change_count, close_connection, close_listed, close_all,
  handle_close_list, handle_connect, ConnectCalls, pick_thread,
}
use spsock.Tcp.Balance.{no_thread}

abbrev pub Entry : Type 0
Entry = ℕ × Controller

-- Whether a connection belongs to thread `i`.
abbrev pub belongs : ℕ → Entry → Bool
belongs i e = e.1.info == i

abbrev pub count_at : List IoThreadInfo → ℕ → ℤ
count_at ts i = (get_or ts i no_thread).count

pub record IsCounted (s : Server) : Type 0 where
  pub counts :
      (i : ℕ)
      → i < length s.loop_info
      → count_at s.loop_info i ≡ pos (count_if (belongs i) s.connections)

length-change_count :
    (f : ℤ → ℤ) (i : ℕ) (ts : List IoThreadInfo) → length (change_count f i ts) ≡ length ts
length-change_count f i [] = refl
length-change_count f zero (t ∷ ts) = refl
length-change_count f (suc i) (t ∷ ts) = ap suc (length-change_count f i ts)

count_at-change_count :
    (f : ℤ → ℤ) (i j : ℕ) (ts : List IoThreadInfo)
    → j < length ts
    → count_at (change_count f i ts) j ≡ (if i == j then f (count_at ts j) else count_at ts j)
count_at-change_count f i j [] lt = absurd (omega arith)
count_at-change_count f zero zero (t ∷ ts) lt = refl
count_at-change_count f zero (suc j) (t ∷ ts) lt = ground arith
count_at-change_count f (suc i) zero (t ∷ ts) lt = ground arith
count_at-change_count f (suc i) (suc j) (t ∷ ts) lt =
    ground (arith, count_at-change_count f i j ts (omega arith))

-- Dropping an entry that is there takes it out of the number for its thread.
count_if-erase :
    (i fd : ℕ) (m : List Entry) (c : Controller)
    → find fd m ≡ some c
    → count_if (belongs i) (erase fd m) + (if c.info == i then 1 else 0) ≡ count_if (belongs i) m
unfolding find erase
count_if-erase i fd [] c e = absurd (cc)
count_if-erase i fd ((j, d) ∷ m) c e = elim (Bool-cases (j == fd)) [
  | inl here ↦ ground (arith, here)
  | inr further ↦ ground (arith, further, count_if-erase i fd m c)
]

-- A connection that is closed by the close list, with what is read from freed memory being its thread.
close_listed-IsCounted :
    (fd : ℕ) (s : Server) (c : Controller)
    → IsCounted s
    → find fd s.connections ≡ some c
    → s.stale fd ≡ c.info
    → IsCounted (close_listed fd s)
unfolding close_listed close_connection
close_listed-IsCounted fd s c v e kept = rw kept (record {
  counts = λ i lt.
      let l : i < length s.loop_info =
        omega (arith, length-change_count decrement c.info s.loop_info) in
      let d = count_at-change_count decrement c.info i s.loop_info l in
      let n = count_if-erase i fd s.connections c e in ground (arith, d, n, v.counts i l);
})

-- The entries of a close list are connections, each stands there once, and the freed memory of each
-- still holds its thread.
abbrev pub Listed : (ℕ → ℕ) → List ℕ → List Entry → Type 0
Listed stale [] m = Unit
Listed stale (fd ∷ fds) m =
    ((c : Controller) × (find fd m ≡ some c) × (stale fd ≡ c.info)) × Listed stale fds (erase fd m)

close_all-IsCounted :
    (fds : List ℕ) (s : Server)
    → IsCounted s
    → Listed s.stale fds s.connections
    → IsCounted (close_all fds s)
unfolding close_all
close_all-IsCounted [] s v h = v
close_all-IsCounted (fd ∷ fds) s v ((c, there, kept), h) =
    close_all-IsCounted fds (close_listed fd s) (close_listed-IsCounted fd s c v there kept)
      (unfold close_listed close_connection in h)

-- Working off a close list whose entries are connections, each there once, keeps the count of every I/O
-- thread at the number of its connections, provided that the memory of a controller that has just been
-- freed still holds the connection's thread, since that is where the code reads it.
pub handle_close_list-IsCounted :
    (s : Server)
    → IsCounted s
    → Listed s.stale s.close_list s.connections
    → IsCounted (handle_close_list s)
unfolding handle_close_list
handle_close_list-IsCounted s v h = elim (Bool-cases (ltb 10 (length s.close_list))) [
  | inl many ↦ rw many (
      close_all-IsCounted s.close_list (record s { close_list = [] }) (record { counts = v.counts })
        h)
  | inr few ↦
      let w = close_all-IsCounted s.close_list s v h in rw few (record { counts = w.counts })
]

unmoved :
    (j i : ℕ) (ts : List IoThreadInfo)
    → j ≢ i
    → count_at (change_count decrement j ts) i
      ≡ (if j == i then decrement (count_at ts i) else count_at ts i)
    → count_at ts i ≡ count_at (change_count decrement j ts) i
unmoved j i ts ne e =
    let off : (j == i) ≡ false = ground arith in
    sym (e ∙ ap (λ b. if b then decrement (count_at ts i) else count_at ts i) off)

-- With one connection on the close list, of a thread that there is, the counts stay right only if the
-- freed memory still holds that thread.
pub stale_miscounts :
    (s : Server) (fd : ℕ) (c : Controller)
    → IsCounted s
    → s.close_list ≡ fd ∷ []
    → find fd s.connections ≡ some c
    → c.info < length s.loop_info
    → s.stale fd ≢ c.info
    → ¬ IsCounted (handle_close_list s)
unfolding handle_close_list close_all close_listed close_connection
stale_miscounts s fd c v one e inside other w =
    let list : ltb 10 (length s.close_list) ≡ false = ground (arith, one) in
    let loops : (handle_close_list s).loop_info ≡ change_count decrement (s.stale fd) s.loop_info =
      rw (list, handle_close_list, one) refl in
    let conns : (handle_close_list s).connections ≡ erase fd s.connections =
      rw (list, handle_close_list, one) refl in
    let size = length-change_count decrement (s.stale fd) s.loop_info in
    let now = w.counts c.info (omega (arith, size, ap length loops)) in
    let same = count_at-change_count decrement (s.stale fd) c.info s.loop_info inside in
    let fewer = count_if-erase c.info fd s.connections c e in
    let number : pos (count_if (belongs c.info) s.connections)
        ≡ pos (count_if (belongs c.info) (erase fd s.connections)) =
      sym (v.counts c.info inside)
      ∙ unmoved (s.stale fd) c.info s.loop_info other same
      ∙ ap (λ ts. count_at ts c.info) (sym loops)
      ∙ now
      ∙ ap (λ m. pos (count_if (belongs c.info) m)) conns in
    absurd (ground (arith, fewer, number))

add-IsCounted :
    (s : Server) (fd info : ℕ) (c : Controller)
    → c.info ≡ info
    → IsCounted s
    → IsCounted (record s {
      connections = (fd, c) ∷ s.connections;
      loop_info = change_count increment info s.loop_info;
    })
add-IsCounted s fd info c e v = record {
  counts = λ i lt.
      let l : i < length s.loop_info =
        omega (arith, length-change_count increment info s.loop_info) in
      ground (arith, count_at-change_count increment info i s.loop_info l, v.counts i l);
}

undo-IsCounted :
    (s : Server) (fd : ℕ) (c : Controller)
    → c.fd ≡ fd
    → IsCounted s
    → IsCounted (close_connection c.fd (record s { connections = (fd, c) ∷ s.connections }))
unfolding close_connection erase
undo-IsCounted s fd c e v = record { counts = λ i lt. ground (arith, v.counts i lt) }

init-keeps :
    (cfg : TcpConfig) (malloc : Malloc) (memory : Node → List ℕ) (fd ctx info : ℕ) (c : Controller)
    (p : Pool)
    → let (ok, c', p') = Controller.init cfg malloc memory fd ctx info c p in
      ok ≡ true → (c'.fd ≡ fd) × (c'.info ≡ info)
unfolding Controller.init
init-keeps cfg malloc memory fd ctx info c p e = (ground arith, ground arith)

-- The servers that `HandleConnect` can leave, given that the pool has buffers.
data Connected (s : Server) : Server → Type 0 where
  refused : (fds : List ℕ) → Connected s (record s { closed = fds })
  kept :
      (fd info : ℕ) (c : Controller)
      → c.info ≡ info
      → Connected s (record s {
        connections = (fd, c) ∷ s.connections;
        loop_info = change_count increment info s.loop_info;
      })
  undone :
      (fd : ℕ) (c : Controller)
      → c.fd ≡ fd
      → Connected s (close_connection c.fd (record s { connections = (fd, c) ∷ s.connections }))

Connected-IsCounted : (s t : Server) → IsCounted s → Connected s t → IsCounted t
Connected-IsCounted s _ v (refused fds) = record { counts = v.counts }
Connected-IsCounted s _ v (kept fd info c e) = add-IsCounted s fd info c e v
Connected-IsCounted s _ v (undone fd c e) = undo-IsCounted s fd c e v

module _ (cfg : TcpConfig) (malloc : Malloc) (memory : Node → List ℕ) where
  handle_connect-Connected :
      (os : ConnectCalls) (s : Server) (p : Pool)
      → ((fd ctx : ℕ)
          → (Controller.init cfg malloc memory fd ctx (pick_thread s.loop_info) Controller.new p).0
            ≡ true)
      → Connected s (handle_connect os cfg malloc memory s p).1
  unfolding handle_connect
  handle_connect-Connected os s p room = elim (Option-cases os.accepted) [
    | inl e ↦ rw e (refused s.closed)
    | inr (fd, e) ↦ rw e (elim (Bool-cases os.get_flags) [
      | inr g ↦ rw g (refused (fd ∷ s.closed))
      | inl g ↦ rw g (elim (Bool-cases os.set_flags) [
        | inr f ↦ rw f (refused (fd ∷ s.closed))
        | inl f ↦ rw f (elim (Option-cases (find fd s.connections)) [
          | inr (c, known) ↦ rw known (refused (fd ∷ s.closed))
          | inl new ↦
              let ctx : ℕ = if s.procs.cnp then os.ctx else 0 in
              let info = pick_thread s.loop_info in
              let made = room fd ctx in
              let c = (Controller.init cfg malloc memory fd ctx info Controller.new p).1 in
              let keeps = init-keeps cfg malloc memory fd ctx info Controller.new p made in
              rw (new, made)
                (elim (Bool-cases os.registered) [
                  | inl r ↦ rw r (kept fd info c keeps.1)
                  | inr r ↦ rw r (undone fd c keeps.0)
                ])
        ])
      ])
    ])
  ]

  -- Accepting a connection, or failing to, keeps the count of every I/O thread at the number of its
  -- connections, provided that the pool has buffers for the connection.
  pub handle_connect-IsCounted :
      (os : ConnectCalls) (s : Server) (p : Pool)
      → IsCounted s
      → ((fd ctx : ℕ)
          → (Controller.init cfg malloc memory fd ctx (pick_thread s.loop_info) Controller.new p).0
            ≡ true)
      → IsCounted (handle_connect os cfg malloc memory s p).1
  handle_connect-IsCounted os s p v room =
      Connected-IsCounted s (handle_connect os cfg malloc memory s p).1 v
        (handle_connect-Connected os s p room)
