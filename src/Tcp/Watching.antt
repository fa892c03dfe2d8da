-- ===== src/Tcp/Watching.antt =====
-- The loop of the accepting thread: the counts of the I/O threads, and when it ends.
use spsock.Prelude.{
  ℕ, ◌-◌, ◌≡◌, ◌≢◌, refl, sym, inl, inr, List, [], ◌∷◌, ◌++◌, Option, none, some, Bool, true, false,
  arith, leb, if◌then◌else◌, Bool-cases,
}
use spsock.Config.{TcpConfig}
use spsock.BufferPool
use spsock.BufferPool.{Node, Malloc}
use spsock.Controller
use spsock.Tcp.{Server, handle_exit}
use spsock.Tcp.Connections.{handle_connect, pick_thread}
use spsock.Tcp.Load.{IsCounted, Listed, handle_close_list-IsCounted, handle_connect-IsCounted}
use spsock.Tcp.Loops.{
  Polled, interrupted, poll_failed, timed_out, incoming, Tick, MainLoop, meanwhile, poll_timeout,
  close_in_time, leave, on_poll, main_pass, main_passes,
}

-- What the counts depend on.
same-IsCounted :
    (s t : Server)
    → s.loop_info ≡ t.loop_info
    → s.connections ≡ t.connections
    → IsCounted s
    → IsCounted t
same-IsCounted s t e f v = record { counts = λ i lt. ground (arith, v.counts i) }

-- In the meantime neither changes.
meanwhile-still :
    (signalled : Bool) (fds : List ℕ) (s : Server)
    → let s' = meanwhile signalled fds s in
      (s'.loop_info ≡ s.loop_info)
      × (s'.connections ≡ s.connections)
      × (s'.close_list ≡ s.close_list ++ fds)
      × (s'.stale ≡ s.stale)
unfolding meanwhile handle_exit
meanwhile-still signalled fds s = (ground arith, ground arith, ground arith, ground arith)

module _ (cfg : TcpConfig) (malloc : Malloc) (memory : Node → List ℕ) where
  -- The buffer pool has what a new connection needs.
  abbrev pub HasRoom : BufferPool.Pool → Type 0
  HasRoom p =
      (fd ctx info : ℕ) → (Controller.init cfg malloc memory fd ctx info Controller.new p).0 ≡ true

  close_in_time-IsCounted :
      (now : ℕ) (m : MainLoop)
      → IsCounted m.server
      → Listed m.server.stale m.server.close_list m.server.connections
      → IsCounted (close_in_time now m).server × ((close_in_time now m).buffers ≡ m.buffers)
  unfolding close_in_time
  close_in_time-IsCounted now m v h = elim (Bool-cases (leb 50 (now - m.last_close))) [
    | inl late ↦ rw late (handle_close_list-IsCounted m.server v h, refl)
    | inr early ↦ rw early (v, refl)
  ]

  on_poll-IsCounted :
      (idlefd now : ℕ) (a : Polled) (m : MainLoop)
      → IsCounted m.server
      → Listed m.server.stale m.server.close_list m.server.connections
      → HasRoom m.buffers
      → IsCounted (on_poll cfg malloc memory idlefd now a m).1.server
  unfolding on_poll
  on_poll-IsCounted idlefd now interrupted m v h room = v
  on_poll-IsCounted idlefd now poll_failed m v h room = record { counts = v.counts }
  on_poll-IsCounted idlefd now timed_out m v h room = (close_in_time-IsCounted now m v h).0
  on_poll-IsCounted idlefd now (incoming os) m v h room =
      let m' = close_in_time now m in
      let (v', same) = close_in_time-IsCounted now m v h in
      let w : IsCounted (handle_connect os cfg malloc memory m'.server m'.buffers).1 =
        handle_connect-IsCounted cfg malloc memory os m'.server m'.buffers v'
          (λ fd ctx. rw same (room fd ctx (pick_thread m'.server.loop_info))) in
      elim (Bool-cases (handle_connect os cfg malloc memory m'.server m'.buffers).0) [
        | inl ok ↦ rw ok w
        | inr failed ↦ rw failed (record { counts = w.counts })
      ]

  -- A pass of the accepting thread keeps the count of every I/O thread at the number of its
  -- connections, whatever `poll` and the calls for a new connection answer: provided that what is on
  -- the close list, with what the I/O threads have added, are connections, each once, that the memory of
  -- a controller just freed still holds its connection's thread, and that the buffer pool has what a new
  -- connection needs.
  pub main_pass-IsCounted :
      (idlefd : ℕ) (t : Tick) (m : MainLoop)
      → IsCounted m.server
      → Listed m.server.stale (m.server.close_list ++ t.closing) m.server.connections
      → HasRoom m.buffers
      → IsCounted (main_pass cfg malloc memory idlefd t m).1.server
  unfolding main_pass
  main_pass-IsCounted idlefd t m0 v0 h room =
      let s = meanwhile t.signalled t.closing m0.server in
      let (loops, conns, list, freed) = meanwhile-still t.signalled t.closing m0.server in
      let m = record m0 { server = s } in
      let v : IsCounted s = same-IsCounted m0.server s (sym loops) (sym conns) v0 in
      let listed : Listed s.stale s.close_list s.connections = rw (list, conns, freed) h in
      let polled = t.polled (poll_timeout m.last_close t.before) in
      let went = on_poll-IsCounted idlefd t.after polled m v listed room in
      elim s.exit_flag
        as (λ flag.
          IsCounted
            (if flag
              then on_poll cfg malloc memory idlefd t.after polled m
              else (some true, leave idlefd m)).1.server) [
                | true ↦ went
                | false ↦ record { counts = v.counts }
              ]

  -- Where the loop has returned, the idle descriptor is what has been closed last.
  abbrev Ended : ℕ → Option Bool × MainLoop → Type 0
  Ended idlefd (none, m) = Unit
  Ended idlefd (some b, m) = (fds : List ℕ) × (m.server.closed ≡ idlefd ∷ fds)

  on_poll-Ended :
      (idlefd now : ℕ) (a : Polled) (m : MainLoop)
      → Ended idlefd (on_poll cfg malloc memory idlefd now a m)
  unfolding on_poll
  on_poll-Ended idlefd now interrupted m = tt
  on_poll-Ended idlefd now poll_failed m = (m.server.closed, refl)
  on_poll-Ended idlefd now timed_out m = tt
  on_poll-Ended idlefd now (incoming os) m =
      let m' = close_in_time now m in
      elim (Bool-cases (handle_connect os cfg malloc memory m'.server m'.buffers).0) [
        | inl ok ↦ rw ok tt
        | inr failed ↦
            rw failed ((handle_connect os cfg malloc memory m'.server m'.buffers).1.closed, refl)
      ]

  main_pass-Ended :
      (idlefd : ℕ) (t : Tick) (m : MainLoop) → Ended idlefd (main_pass cfg malloc memory idlefd t m)
  unfolding main_pass
  main_pass-Ended idlefd t m =
      let s = meanwhile t.signalled t.closing m.server in
      let n = record m { server = s } in
      let polled = t.polled (poll_timeout m.last_close t.before) in
      elim s.exit_flag
        as (λ flag. Ended idlefd (
          if flag
          then on_poll cfg malloc memory idlefd t.after polled n
          else (some true, leave idlefd n))) [
            | true ↦ on_poll-Ended idlefd t.after polled n
            | false ↦ (s.closed, refl)
          ]

  signalled-stops :
      (idlefd : ℕ) (t : Tick) (m : MainLoop)
      → t.signalled ≡ true
      → (main_pass cfg malloc memory idlefd t m).0 ≡ some true
  unfolding main_pass meanwhile handle_exit
  signalled-stops idlefd t m sig = ground arith

  abbrev Returned : ℕ → Option Bool × MainLoop → Type 0
  Returned idlefd (r, m) = (r ≢ none) × ((fds : List ℕ) × (m.server.closed ≡ idlefd ∷ fds))

  pass-Returned :
      (idlefd : ℕ) (rest : MainLoop → Option Bool × MainLoop) (r : Option Bool × MainLoop)
      → Ended idlefd r
      → (r.0 ≡ none → Returned idlefd (rest r.1))
      → Returned idlefd (elim r.0 [ some b ↦ (some b, r.1) | none ↦ rest r.1 ])
  pass-Returned idlefd rest (some b, m) ended h = ((λ e. absurd (cc)), ended)
  pass-Returned idlefd rest (none, m) ended h = h refl

  -- A signal ends the loop in the pass that finds it, at the latest, and the idle descriptor is what
  -- has then been closed last.
  pub main_passes-stops :
      (idlefd : ℕ) (ts us : List Tick) (t : Tick) (m : MainLoop)
      → t.signalled ≡ true
      → let (r, m') = main_passes cfg malloc memory idlefd (ts ++ t ∷ us) m in
        (r ≢ none) × ((fds : List ℕ) × (m'.server.closed ≡ idlefd ∷ fds))
  unfolding main_passes
  main_passes-stops idlefd [] us t m sig =
      let stops = signalled-stops idlefd t m sig in
      pass-Returned idlefd (main_passes cfg malloc memory idlefd us)
        (main_pass cfg malloc memory idlefd t m) (main_pass-Ended idlefd t m)
        (λ e. absurd (cc (stops, e)))
  main_passes-stops idlefd (t' ∷ ts) us t m sig =
      let next = (main_pass cfg malloc memory idlefd t' m).1 in
      pass-Returned idlefd (main_passes cfg malloc memory idlefd (ts ++ t ∷ us))
        (main_pass cfg malloc memory idlefd t' m) (main_pass-Ended idlefd t' m)
        (λ e. main_passes-stops idlefd ts us t next sig)
