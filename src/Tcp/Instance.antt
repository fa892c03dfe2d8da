-- ===== src/Tcp/Instance.antt =====
-- SPSock.cpp: the one instance of `SPSockTcp`, from `GetInstance` to `Release`.
--
-- The exit flag, the configuration and the water marks are static: they outlive an instance, as do the
-- buffer pool and, here, what has been recorded. While there is an instance they stand in its record.
use spsock.Prelude.{
  ℕ, ◌≡◌, refl, sym, ap, ◌∙◌, List, [], ◌∷◌, Option, none, some, Bool, true, false, arith, pos,
  if◌then◌else◌,
}
use spsock.Config
use spsock.Config.{TcpConfig, WaterMark}
use spsock.BufferPool
use spsock.BufferPool.{Node, Malloc}
use spsock.BufferPool.Counts.{Inv}
use spsock.BufferPool.Release.{reset_lem, ResetLeaves}
use spsock.Tcp.{Server, Procs, ListenCalls, log_close, listen, set_callback, handle_exit}
use spsock.Tcp.Loops.{Tick, MainLoop, meanwhile, leave, main_pass, main_passes, main_event_loop}

pub record Program : Type 0 where
  pub instance_of : Option Server
  pub exit_flag : Bool
  pub tcp_config : Option TcpConfig
  pub mark : WaterMark
  pub closed : List ℕ
  pub notified : List ℕ
  pub stale : ℕ → ℕ
  pub buffers : BufferPool.Pool

-- The constructor.
abbrev pub construct : Program → Server
construct p = record {
  listening = false;
  callbacks = false;
  signal_set = false;
  ran = false;
  exit_flag = p.exit_flag;
  listenfd = none;
  lin = record { l_onoff = false; l_linger = pos 0 };
  alive = record {
    keep_alive = false;
    alive_seconds = pos 0;
    detect_times = pos 0;
    detect_interval = pos 0;
  };
  procs = record { rdp = false; wtp = false; cnp = false; csp = false };
  mark = p.mark;
  close_list = [];
  loop_info = [];
  connections = [];
  closed = p.closed;
  notified = p.notified;
  stale = p.stale;
}

-- The destructor.
abbrev pub close_listener : Option ℕ → Server → Server
close_listener none s = s
close_listener (some fd) s = log_close fd s

unfoldable pub destruct : Server → Server
destruct s = close_listener s.listenfd s

-- `new` in `GetInstance`; `got_memory` is whether it succeeds.
abbrev pub first_instance : Bool → Program → Option Server × Program
first_instance true p = (some (construct p), record p { instance_of = some (construct p) })
first_instance false p = (none, p)

-- `GetInstance`.
unfoldable pub get_instance : Bool → Program → Option Server × Program
get_instance got_memory p = elim p.instance_of [
  | some s ↦ (some s, p)
  | none ↦ first_instance got_memory p
]

-- `Config`, whose other effects are the function pointers and the log level; `none` where an assertion
-- fails.
abbrev unmarked : Option Server → Option Server
unmarked none = none
unmarked (some s) = some (record s { mark = record { read_mark = 0; write_mark = 0 } })

unfoldable pub configure : TcpConfig → Bool → Program → Option Program
configure cfg ratio_ok p =
    if Config.accepts cfg ratio_ok
    then some (record p {
      instance_of = unmarked p.instance_of;
      tcp_config = some cfg;
      mark = record { read_mark = 0; write_mark = 0 };
    })
    else none

-- What is left without an instance, given the buffer pool behind its `reset`.
abbrev without : Program → Server → Option BufferPool.Pool → Option Program
without p s none = none
without p s (some buffers) = some (record {
  tcp_config = p.tcp_config;
  instance_of = none;
  exit_flag = s.exit_flag;
  mark = s.mark;
  closed = s.closed;
  notified = s.notified;
  stale = s.stale;
  buffers = buffers;
})

-- `Release`; `none` where the reset of the buffer pool would read the count of a freed block.
unfoldable pub release : Program → Option Program
unfolding destruct
release p = elim p.instance_of [
  | none ↦ some p
  | some s ↦ without p (destruct s) (BufferPool.reset p.buffers)
]

destruct_flag : (s : Server) → (destruct s).exit_flag ≡ s.exit_flag
unfolding destruct
destruct_flag s = flag s.listenfd
  where
    flag : (fd : Option ℕ) → (close_listener fd s).exit_flag ≡ s.exit_flag
    flag none = refl
    flag (some n) = refl

-- Behind `Release`: the descriptor that listened has been closed, once, and no block is left.
abbrev with_listener : Option ℕ → List ℕ → List ℕ
with_listener none fds = fds
with_listener (some fd) fds = fd ∷ fds

abbrev pub Released : Server → Option Program → Type 0
Released s none = ⊥
Released s (some p) =
    (p.instance_of ≡ none)
    × (p.closed ≡ with_listener s.listenfd s.closed)
    × (p.exit_flag ≡ s.exit_flag)
    × ((b : ℕ) → p.buffers.blocks b ≡ none)
    × (release p ≡ some p)

pub release-Released :
    (p : Program) (s : Server) → p.instance_of ≡ some s → Inv p.buffers [] → Released s (release p)
unfolding release destruct
release-Released p s e v = rw e (after (BufferPool.reset p.buffers) (reset_lem p.buffers [] v))
  where
    closing : (fd : Option ℕ) → (close_listener fd s).closed ≡ with_listener fd s.closed
    closing none = refl
    closing (some n) = refl

    after : (r : Option BufferPool.Pool) → ResetLeaves [] r → Released s (without p (destruct s) r)
    after none h = h
    after (some buffers) (empty, inv) =
        (refl, closing s.listenfd, destruct_flag s, (λ b. empty b refl), refl)

-- What `listen` and `set_callback` leave of the exit flag.
listen_flag : (os : ListenCalls) (s : Server) → (listen os s).1.exit_flag ≡ s.exit_flag
unfolding listen
listen_flag os s = ground arith

set_callback_flag : (procs : Procs) (s : Server) → (set_callback procs s).1.exit_flag ≡ s.exit_flag
unfolding set_callback
set_callback_flag procs s = ground arith

release_flag :
    (p p' : Program) (s : Server)
    → p.instance_of ≡ some s
    → release p ≡ some p'
    → (p'.instance_of ≡ none) × (p'.exit_flag ≡ s.exit_flag)
unfolding release
release_flag p p' s e done = after (BufferPool.reset p.buffers) (
    ap
      (λ o. elim o [
        | none ↦ some p
        | some s0 ↦ without p (destruct s0) (BufferPool.reset p.buffers)
      ])
      (sym e)
    ∙ done)
  where
    after :
        (r : Option BufferPool.Pool)
        → without p (destruct s) r ≡ some p'
        → (p'.instance_of ≡ none) × (p'.exit_flag ≡ s.exit_flag)
    after none h = absurd (cc h)
    after (some buffers) h =
        let flag_of : Option Program → Bool = λ o. elim o [ none ↦ true | some q ↦ q.exit_flag ] in
        let server_of : Option Program → Option Server =
          λ o. elim o [ none ↦ none | some q ↦ q.instance_of ] in
        (sym (ap server_of h), sym (ap flag_of h) ∙ destruct_flag s)

get_instance_flag :
    (got_memory : Bool) (p : Program) (s : Server)
    → p.instance_of ≡ none
    → (get_instance got_memory p).0 ≡ some s
    → s.exit_flag ≡ p.exit_flag
unfolding get_instance
get_instance_flag got_memory p s e made = fresh got_memory (
    ap
      (λ (o : Option Server).
        (elim o as (λ x. Option Server × Program) [
          | some s0 ↦ (some s0, p)
          | none ↦ first_instance got_memory p
        ]).0)
      (sym e)
    ∙ made)
  where
    fresh : (b : Bool) → (first_instance b p).0 ≡ some s → s.exit_flag ≡ p.exit_flag
    fresh true h =
        sym (ap (λ (o : Option Server). elim o [ none ↦ p.exit_flag | some x ↦ x.exit_flag ]) h)
    fresh false h = absurd (cc h)

module _ (cfg : TcpConfig) (malloc : Malloc) (memory : Node → List ℕ) where
  first_pass :
      (idlefd : ℕ) (t : Tick) (m : MainLoop)
      → m.server.exit_flag ≡ false
      → main_pass cfg malloc memory idlefd t m
        ≡ (some true, leave idlefd (record m { server = meanwhile t.signalled t.closing m.server }))
  unfolding main_pass meanwhile handle_exit
  first_pass idlefd t m down =
      let off : (meanwhile t.signalled t.closing m.server).exit_flag ≡ false = ground arith in
      rw (off, main_pass) refl

  -- An instance that was told to stop leaves the exit flag down for those that follow: the next one,
  -- listening and with its callbacks, returns from its main loop in the first pass, without a poll.
  pub restart_stops :
      (p p' : Program) (s s' : Server) (got_memory : Bool) (os : ListenCalls) (procs : Procs)
      (idlefd : ℕ) (t : Tick) (ts : List Tick) (m : MainLoop)
      → p.instance_of ≡ some s
      → s.exit_flag ≡ false
      → release p ≡ some p'
      → (get_instance got_memory p').0 ≡ some s'
      → m.server ≡ (set_callback procs (listen os s').1).1
      → main_event_loop cfg malloc memory (some idlefd) (t ∷ ts) m
        ≡ (some true, leave idlefd (record m { server = meanwhile t.signalled t.closing m.server }))
  unfolding main_event_loop main_passes
  restart_stops p p' s s' got_memory os procs idlefd t ts m e down released made ready =
      let (gone, kept) = release_flag p p' s e released in
      let still : m.server.exit_flag ≡ false =
        ap (λ (x : Server). x.exit_flag) ready
        ∙ set_callback_flag procs (listen os s').1
        ∙ listen_flag os s'
        ∙ get_instance_flag got_memory p' s' gone made
        ∙ kept
        ∙ down in
      let first = first_pass idlefd t m still in
      rw (first, main_event_loop, main_passes)
        (ap (λ (x : Option Bool × MainLoop). (some true, x.1)) first)
