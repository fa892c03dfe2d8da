-- ===== src/Udp/Binding.antt =====
-- `Bind` and `EventLoop` of the datagram server.
use spsock.Prelude.{
  ℕ, ◌+◌, ◌<◌, ◌≡◌, ◌==◌, refl, ap, List, [], ◌∷◌, ◌++◌, none, some, Bool, true, false, ◌&&◌, arith,
  length, length-append, count_if, count_if-append, if◌then◌else◌, Option-cases, inl, inr,
}
use spsock.Udp.{Server, BindCalls, all_true, bind_loop, close_fds, bind, event_loop}

-- Whether the socket can be set up, once there is one.
abbrev pub set_up : BindCalls → Bool
set_up o = all_true o.options && o.bind_ok

-- Whether every processor gets its socket.
abbrev pub all_set_up : List BindCalls → Bool
all_set_up [] = true
all_set_up (o ∷ os) = elim o.socket [ none ↦ false | some fd ↦ set_up o && all_set_up os ]

-- The sockets that are opened, up to the first that cannot be set up.
abbrev pub opened : List BindCalls → List ℕ
opened [] = []
opened (o ∷ os) = elim o.socket [ none ↦ [] | some fd ↦ fd ∷ (if set_up o then opened os else []) ]

-- With a processor that gets no socket there are fewer than processors.
bind_loop_short :
    (os : List BindCalls) (s : Server)
    → all_set_up os ≡ false
    → length (bind_loop os s).fds < length s.fds + length os
unfolding bind_loop
bind_loop_short [] s e = absurd (ground arith)
bind_loop_short (o ∷ os) s e = elim (Option-cases o.socket) [
  | inl n ↦ rw n (omega arith)
  | inr (fd, n) ↦
      let next = record s { fds = s.fds ++ (fd ∷ []) } in
      let longer = length-append s.fds (fd ∷ []) in
      ground (arith, n, longer, bind_loop_short os next)
]

-- Every socket that is opened is among the server's or has been closed.
bind_loop_keeps :
    (c : ℕ → Bool) (os : List BindCalls) (s : Server)
    → count_if c (bind_loop os s).fds + count_if c (bind_loop os s).closed
      ≡ count_if c s.fds + count_if c s.closed + count_if c (opened os)
unfolding bind_loop
bind_loop_keeps c [] s = omega arith
bind_loop_keeps c (o ∷ os) s = elim (Option-cases o.socket) [
  | inl n ↦ rw n (omega arith)
  | inr (fd, n) ↦
      let next = record s { fds = s.fds ++ (fd ∷ []) } in
      let more = count_if-append c s.fds (fd ∷ []) in
      ground (arith, n, more, bind_loop_keeps c os next)
]

count_if-close_fds :
    (c : ℕ → Bool) (fds closed : List ℕ)
    → count_if c (close_fds fds closed) ≡ count_if c fds + count_if c closed
unfolding close_fds
count_if-close_fds c [] closed = omega arith
count_if-close_fds c (fd ∷ fds) closed = omega (arith, count_if-close_fds c fds (fd ∷ closed))

-- On a server that is not bound and has no socket, with a valid address: when for one of the processors
-- a socket cannot be opened or set up, every socket that was opened before is closed again, each once,
-- but `Bind` returns true and marks the server as bound, with no socket; with a callback set, `EventLoop`
-- then takes the first of no sockets.
pub bind_failure_unreported :
    (os : List BindCalls) (s : Server)
    → s.bound ≡ false
    → s.fds ≡ []
    → all_set_up os ≡ false
    → let (ok, s') = bind true os s in
      (ok ≡ true)
      × (s'.bound ≡ true)
      × (s'.fds ≡ [])
      × ((c : ℕ → Bool) → count_if c s'.closed ≡ count_if c s.closed + count_if c (opened os))
      × (event_loop (record s' { callback = true; ran = false }) ≡ none)
unfolding bind event_loop
bind_failure_unreported os s b none_yet failed =
    let z : length s.fds ≡ 0 = ap length none_yet in
    let short = bind_loop_short os s failed in
    let cores : (length os == 0) ≡ false = ground (arith, z, short) in
    let fewer : (length (bind_loop os s).fds == length os) ≡ false = ground (arith, z, short) in
    let t = bind_loop os s in
    let bound : bind true os s
        ≡ (true, record t { fds = []; closed = close_fds t.fds t.closed; bound = true }) =
      unfold bind in ground (arith, b, z, short) in
    rw (bound, event_loop)
      (
        refl,
        refl,
        refl,
        λ c.
            let keeps = bind_loop_keeps c os s in
            let closes = count_if-close_fds c (bind_loop os s).fds (bind_loop os s).closed in
            omega (arith, keeps, closes, ap (count_if c) none_yet),
        refl,
      )
