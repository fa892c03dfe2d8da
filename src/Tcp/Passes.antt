-- ===== src/Tcp/Passes.antt =====
-- A pass of the loop of an I/O thread ends, and leaves what the next one needs.
use spsock.Prelude.{
  ℕ, ◌≡◌, ◌≢◌, refl, sym, ap, ◌∙◌, inl, inr, List, [], ◌∷◌, ◌++◌, Option, none, some, Bool, true,
  false, arith, ◌==◌, not, if◌then◌else◌, Option-cases,
}
use mathlib.Core.Path.{subst}
use spsock.Controller.{Controller}
use spsock.Socket.{Socket}
use spsock.Task
use spsock.Task.{SockTask, UtilTask, Proc}
use spsock.Task.Keeping
use spsock.Task.Keeping.{append-IsReady, reset-IsReady, IsReady}
use spsock.Tcp.{Server}
use spsock.Tcp.Connections.{find, active_close}
use spsock.Tcp.Events.{Ready, Verdict, dispatch}
use spsock.Tcp.Loops.{
  Report, exit_event, connection_event, put_back, IoLoop, settle, serve, io_pass,
}
use spsock.Tcp.Serving.{
  IsSound, AllSound, descriptors, find-IsSound, put_back-AllSound, descriptors-put_back,
  find-put_back, Served, dispatch-Served,
}

-- Every report is about a connection of the server.
abbrev pub AllKnown : List Report → List (ℕ × Controller) → Type 0
AllKnown [] m = Unit
AllKnown (exit_event ∷ rs) m = AllKnown rs m
AllKnown (connection_event fd r done ∷ rs) m = (find fd m ≢ none) × AllKnown rs m

AllKnown-put_back :
    (fd : ℕ) (c : Controller) (rs : List Report) (m : List (ℕ × Controller))
    → AllKnown rs m
    → AllKnown rs (put_back fd c m)
AllKnown-put_back fd c [] m h = tt
AllKnown-put_back fd c (exit_event ∷ rs) m h = AllKnown-put_back fd c rs m h
AllKnown-put_back fd c (connection_event k r done ∷ rs) m (known, h) =
    (find-put_back k fd c m known, AllKnown-put_back fd c rs m h)

abbrev pub has_exit : List Report → Bool
has_exit [] = false
has_exit (exit_event ∷ rs) = true
has_exit (connection_event fd r done ∷ rs) = has_exit rs

module _ (sock : Socket) (cap : ℕ) where
  open sock use {State}

  -- An I/O thread at the start of a pass.
  pub record IsServing (l : IoLoop State) : Type 0 where
    pub buffers : AllSound l.server.connections
    pub ready : Keeping.Prepared cap l.util l.workers

  -- What an event may change of the server: connections' controllers and the close list.
  abbrev Same : IoLoop State → IoLoop State → Type 0
  Same l l' =
      (descriptors l'.server.connections ≡ descriptors l.server.connections)
      × (l'.server.closed ≡ l.server.closed)

  -- An event that is about a connection: the same reports are still about connections afterwards.
  abbrev Went : List Report → IoLoop State → Option (IoLoop State) → Type 0
  Went rs l none = ⊥
  Went rs l (some l') = IsServing l' × Same l l' × AllKnown rs l'.server.connections

  -- Whatever else has changed, with the connection's controller put back and a batch and a pool in
  -- good order.
  put_back-Went :
      (rs : List Report) (fd : ℕ) (c : Controller) (l l' : IoLoop State)
      → IsServing l
      → IsSound c
      → AllKnown rs l.server.connections
      → l'.server.connections ≡ put_back fd c l.server.connections
      → l'.server.closed ≡ l.server.closed
      → Keeping.Prepared cap l'.util l'.workers
      → Went rs l (some l')
  put_back-Went rs fd c l l' serving good known e closed ready =
      let m = l.server.connections in
      (
        record {
          buffers = subst AllSound (sym e) (put_back-AllSound fd c m good serving.buffers);
          ready = ready;
        },
        (ap descriptors e ∙ descriptors-put_back fd c m, closed),
        subst (AllKnown rs) (sym e) (AllKnown-put_back fd c rs m known),
      )

  settle-Went :
      (rs : List Report) (fd : ℕ) (v : Verdict) (c : Controller) (s : State) (l : IoLoop State)
      → IsServing l
      → IsSound c
      → AllKnown rs l.server.connections
      → Went rs l (settle sock cap fd (v, c, s) l)
  unfolding settle active_close
  settle-Went rs fd v c s l serving good known =
      let kept = record l.server { connections = put_back fd c l.server.connections } in
      let srv : Server = if v.keep then kept else active_close c.fd kept in
      let l' = record l { server = srv; sockets = λ k. if k == fd then s else l.sockets k } in
      finish l' (ground arith) (ground arith) serving.ready v.task
    where
      finish :
          (l' : IoLoop State)
          → l'.server.connections ≡ put_back fd c l.server.connections
          → l'.server.closed ≡ l.server.closed
          → Keeping.Prepared cap l'.util l'.workers
          → (task : Option Proc)
          → Went rs l (elim task [
            | none ↦ some l'
            | some proc ↦
                elim (Task.append cap (record { proc = proc; ctx = c.fd }) l.util l.workers) [
                  | none ↦ none
                  | some (u, p, again) ↦
                      some (record l' { util = u; workers = p; enabled = l.enabled ++ again })
                ]
          ])
      finish l' e closed ready none = put_back-Went rs fd c l l' serving good known e closed ready
      finish l' e closed ready (some proc) =
          let t : SockTask = record { proc = proc; ctx = c.fd } in
          submitted (Task.append cap t l.util l.workers)
            (append-IsReady cap t l.util l.workers serving.ready)
        where
          submitted :
              (r : Option (UtilTask × Task.Pool × List ℕ))
              → IsReady cap r
              → Went rs l (elim r [
                | none ↦ none
                | some (u, p, again) ↦
                    some (record l' { util = u; workers = p; enabled = l.enabled ++ again })
              ])
          submitted none h = h
          submitted (some (u, p, again)) h =
              put_back-Went rs fd c l
                (record l' { util = u; workers = p; enabled = l.enabled ++ again }) serving good
                known e closed h

  -- What a pass promises.
  abbrev pub Passed : List Report → IoLoop State → Option (Bool × IoLoop State) → Type 0
  Passed rs l none = ⊥
  Passed rs l (some (on, l')) =
      IsServing l'
      × (on ≡ not (has_exit rs))
      × (descriptors l'.server.connections ≡ descriptors l.server.connections)
      × (l'.server.closed ≡ l.server.closed)

  serve-Went :
      (rs : List Report) (fd : ℕ) (r : Ready) (done : Bool) (l : IoLoop State)
      → IsServing l
      → find fd l.server.connections ≢ none
      → AllKnown rs l.server.connections
      → Went rs l (serve sock cap fd r done l)
  unfolding serve
  serve-Went rs fd r done l serving there known =
      elim (Option-cases (find fd l.server.connections)) [
        | inl e ↦ absurd (there e)
        | inr (c, e) ↦
            rw (e, serve)
              (given (dispatch sock r l.server.procs l.server.mark done c (l.sockets fd)) (
                dispatch-Served sock r l.server.procs l.server.mark done c (l.sockets fd)
                  (find-IsSound fd l.server.connections c serving.buffers e)))
      ]
    where
      given :
          (a : Option (Verdict × Controller × State))
          → Served sock a
          → Went rs l (elim a [ none ↦ none | some answer ↦ settle sock cap fd answer l ])
      given none h = h
      given (some (v, c, s)) h = settle-Went rs fd v c s l serving h known

  -- If the buffers of all connections are valid, the batch and the pool in good order, and every event
  -- is one of a connection of the server, then a pass of the loop of an I/O thread ends, whatever the
  -- sockets answer and whatever the pool has room for. All of this holds afterwards again, the thread
  -- returns exactly when its exit descriptor was reported, and it has neither closed a descriptor nor
  -- added or dropped a connection.
  pub io_pass-Passed :
      (rs : List Report) (l : IoLoop State)
      → IsServing l
      → AllKnown rs l.server.connections
      → Passed rs l (io_pass sock cap rs l)
  unfolding io_pass
  io_pass-Passed [] l serving known =
      given (Task.reset cap l.util l.workers) (reset-IsReady cap l.util l.workers serving.ready)
    where
      given :
          (r : Option (UtilTask × Task.Pool × List ℕ))
          → IsReady cap r
          → Passed [] l (elim r [
            | none ↦ none
            | some (u, p, again) ↦
                some (true, record l { util = u; workers = p; enabled = l.enabled ++ again })
          ])
      given none h = h
      given (some (u, p, again)) h =
          (record { buffers = serving.buffers; ready = h }, refl, refl, refl)
  io_pass-Passed (exit_event ∷ rs) l serving known = (serving, refl, refl, refl)
  io_pass-Passed (connection_event fd r done ∷ rs) l serving (there, known) =
      given (serve sock cap fd r done l) (serve-Went rs fd r done l serving there known)
        (λ l' s k. io_pass-Passed rs l' s k)
    where
      chain :
          (l' : IoLoop State) (r : Option (Bool × IoLoop State))
          → Same l l'
          → Passed rs l' r
          → Passed rs l r
      chain l' none same h = h
      chain l' (some (on, l'')) (names, closed) (serving', on_eq, names', closed') =
          (serving', on_eq, names' ∙ names, closed' ∙ closed)

      given :
          (a : Option (IoLoop State))
          → Went rs l a
          → ((l' : IoLoop State)
              → IsServing l'
              → AllKnown rs l'.server.connections
              → Passed rs l' (io_pass sock cap rs l'))
          → Passed rs l (elim a [ none ↦ none | some l' ↦ io_pass sock cap rs l' ])
      given none h rest = h
      given (some l') (serving', same, known') rest =
          chain l' (io_pass sock cap rs l') same (rest l' serving' known')
