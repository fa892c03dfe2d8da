-- ===== src/Tcp/Setup.antt =====
-- Setting the server up: `Listen`, and the numbers of threads.
use spsock.Prelude.{ℕ, ◌+◌, ◌≡◌, ◌≢◌, ◌≤◌, ◌<◌, ◌∷◌, none, some, true, false, arith, ◌⊎◌}
use spsock.Tcp.{Server, ListenCalls, listen}
use spsock.Tcp.Threads.{calculate_optimal_thread_counts}

-- On a server that does not listen yet, `Listen` sets the status bit exactly when it returns
-- true; then the server keeps the socket and has closed nothing. When it returns false, either it
-- has asked for no socket and changed nothing, or it got none and keeps none, or it has closed
-- the one that it got, once, and keeps none.
pub listen_lem :
    (os : ListenCalls) (s : Server)
    → s.listening ≡ false
    → let (ok, s') = listen os s in
      (s'.listening ≡ ok)
      × (((ok ≡ true) × (s'.closed ≡ s.closed) × (s'.listenfd ≡ os.socket) × (os.socket ≢ none))
          ⊎ ((ok ≡ false) × (s' ≡ s))
          ⊎ ((ok ≡ false) × (s'.listenfd ≡ none) × (os.socket ≡ none) × (s'.closed ≡ s.closed))
          ⊎ ((ok ≡ false)
              × (s'.listenfd ≡ none)
              × ((fd : ℕ) × (os.socket ≡ some fd) × (s'.closed ≡ fd ∷ s.closed))))
unfolding listen
listen_lem os s e = ground arith

-- With more than two processors, and a scaled number of workers that is at most theirs, every
-- processor is given one thread, and there is at least one I/O thread and one worker thread.
pub thread_counts :
    (hardware scaled io workers : ℕ)
    → 2 < hardware
    → scaled ≤ hardware
    → calculate_optimal_thread_counts hardware scaled ≡ some (io, workers)
    → (io + workers ≡ hardware) × (0 < io) × (0 < workers)
unfolding calculate_optimal_thread_counts
thread_counts hardware scaled io workers h le e = ground arith
