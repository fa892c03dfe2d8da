-- ===== src/Tcp/Running.antt =====
-- SPSock.cpp: `EventLoop`, the run of the server.
use spsock.Prelude.{
  ℕ, ◌≡◌, ◌≢◌, refl, ap, List, ◌∷◌, ◌++◌, Option, none, some, Bool, true, false, not, ◌||◌,
  if◌then◌else◌, tabulate,
}
use spsock.Config.{TcpConfig}
use spsock.BufferPool
use spsock.BufferPool.{Node, Malloc}
use spsock.Tcp.{Server}
use spsock.Tcp.Threads.{
  LoopCalls, close_loops, calculate_optimal_thread_counts, create_io_event_loop, exit_io_event_loop,
}
use spsock.Tcp.Loops.{Tick, MainLoop, main_passes, main_event_loop}
use spsock.Tcp.Watching.{main_passes-stops}

-- What a run is answered: the number of cores, the number of workers that follows from it, the worker
-- pool's `init`, the calls for the `i`th event loop, `open` of the idle descriptor, the time at which
-- the main loop starts, what happens during its passes, and whether the joins come to an end: those of
-- the workers, in the pool's `exit`, and those of the I/O threads, in `ExitIOEventLoop`.
pub record RunCalls : Type 0 where
  pub hardware : ℕ
  pub scaled : ℕ
  pub pool_ok : Bool
  pub loops : ℕ → LoopCalls
  pub idle : Option ℕ
  pub started : ℕ
  pub ticks : List Tick
  pub workers_end : Bool
  pub threads_end : Bool

-- A server that `EventLoop` refuses to run.
abbrev pub refuses : Server → Bool
refuses s = s.ran || (not s.listening || not s.callbacks)

module _ (cfg : TcpConfig) (malloc : Malloc) (memory : Node → List ℕ) where
  -- What follows `MainEventLoop`, whatever it returned: the pool's `exit`, whose own steps are those of
  -- `ThreadPool`, then `ExitIOEventLoop`; `none` while the loop goes on or a thread does not end.
  abbrev pub wind_up : RunCalls → Option Bool × MainLoop → Option (Bool × Server)
  wind_up os (none, m) = none
  wind_up os (some b, m) =
      if os.workers_end
      then (if os.threads_end
          then some (true, record (exit_io_event_loop m.server) { ran = true })
          else none)
      else none

  unfoldable pub event_loop : RunCalls → BufferPool.Pool → Server → Option (Bool × Server)
  event_loop os buffers s =
      if refuses s
      then some (false, s)
      else elim (calculate_optimal_thread_counts os.hardware os.scaled) [
        | none ↦ some (false, s)
        | some (io, workers) ↦
            (let (created, s') = create_io_event_loop (tabulate io os.loops) s in
              let m : MainLoop = record {
                server = s';
                buffers = buffers;
                last_close = os.started;
              } in
              if os.pool_ok
              then (if created
                  then wind_up os (main_event_loop cfg malloc memory os.idle os.ticks m)
                  else some (false, s'))
              else some (false, s))
      ]

  -- What a run that came to its end leaves.
  abbrev pub RanOnce : ℕ → Option (Bool × Server) → Type 0
  RanOnce idlefd none = ⊥
  RanOnce idlefd (some (ok, s)) =
      (ok ≡ true)
      × ((fds : List ℕ) × (s.closed ≡ close_loops s.loop_info (idlefd ∷ fds)))
      × ((os : RunCalls) (buffers : BufferPool.Pool) → event_loop os buffers s ≡ some (false, s))

  wind_up-RanOnce :
      (os : RunCalls) (idlefd : ℕ) (x : Option Bool × MainLoop)
      → os.workers_end ≡ true
      → os.threads_end ≡ true
      → (x.0 ≢ none) × ((fds : List ℕ) × (x.1.server.closed ≡ idlefd ∷ fds))
      → RanOnce idlefd (wind_up os x)
  unfolding event_loop exit_io_event_loop
  wind_up-RanOnce os idlefd (none, m) joined joined' (ended, h) = ended refl
  wind_up-RanOnce os idlefd (some b, m) joined joined' (ended, (fds, e)) =
      rw (joined, joined') (refl, (fds, ap (close_loops m.server.loop_info) e), λ os buffers. refl)

  -- A server that listens, has its callbacks and has not run yet, on a machine whose cores are known and
  -- where the worker pool, the event loops and the idle descriptor can be had: once a signal comes, and if
  -- then the workers and the I/O threads come to their ends when they are told to, `EventLoop` returns
  -- `true`, also where an error of `poll` or `accept` has ended the loop before, and it has closed the
  -- idle descriptor and after it those of all event loops. From then on it returns `false` at once and
  -- changes nothing.
  pub event_loop-RanOnce :
      (os : RunCalls) (buffers : BufferPool.Pool) (s : Server) (io workers idlefd : ℕ)
      (before after : List Tick) (t : Tick)
      → refuses s ≡ false
      → calculate_optimal_thread_counts os.hardware os.scaled ≡ some (io, workers)
      → os.pool_ok ≡ true
      → (create_io_event_loop (tabulate io os.loops) s).0 ≡ true
      → os.idle ≡ some idlefd
      → os.ticks ≡ before ++ t ∷ after
      → t.signalled ≡ true
      → os.workers_end ≡ true
      → os.threads_end ≡ true
      → RanOnce idlefd (event_loop os buffers s)
  unfolding event_loop main_event_loop
  event_loop-RanOnce os buffers s io workers idlefd before after t ready counts pool made idle ticks
        sig joined joined' =
      let s' = (create_io_event_loop (tabulate io os.loops) s).1 in
      let m : MainLoop = record { server = s'; buffers = buffers; last_close = os.started } in
      let x = main_passes cfg malloc memory idlefd (before ++ t ∷ after) m in
      let e : event_loop os buffers s ≡ wind_up os x =
        rw (ready, counts, pool, made, idle, ticks) refl in
      rw e (
        wind_up-RanOnce os idlefd x joined joined'
          (main_passes-stops cfg malloc memory idlefd before after t m sig))
