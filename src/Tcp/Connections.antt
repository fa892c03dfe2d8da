-- ===== src/Tcp/Connections.antt =====
-- SPSock.cpp: accepting connections and closing them.
use spsock.Prelude.{
  ℕ, zero, suc, ◌+◌, List, [], ◌∷◌, ◌++◌, Option, none, some, Bool, true, false, ltb, ◌==◌,
  if◌then◌else◌, ℤ, pos, negsuc, length,
}
use spsock.Config.{TcpConfig}
use spsock.BufferPool.{Node, Pool, Malloc}
use spsock.Controller
use spsock.Controller.{Controller}
use spsock.Tcp.{Server, IoThreadInfo, log_close}

module _ {ℓ} {V : Type ℓ} where
  unfoldable pub find : ℕ → List (ℕ × V) → Option V
  find k [] = none
  find k ((j, v) ∷ m) = if j == k then some v else find k m

  unfoldable pub erase : ℕ → List (ℕ × V) → List (ℕ × V)
  erase k [] = []
  erase k ((j, v) ∷ m) = if j == k then m else (j, v) ∷ erase k m

-- The tests and steps on `int` counts.
abbrev pub ltb_ℤ : ℤ → ℤ → Bool
ltb_ℤ (pos a) (pos b) = ltb a b
ltb_ℤ (pos a) (negsuc b) = false
ltb_ℤ (negsuc a) (pos b) = true
ltb_ℤ (negsuc a) (negsuc b) = ltb b a

abbrev pub increment : ℤ → ℤ
increment (pos a) = pos (suc a)
increment (negsuc zero) = pos 0
increment (negsuc (suc a)) = negsuc a

abbrev pub decrement : ℤ → ℤ
decrement (pos zero) = negsuc 0
decrement (pos (suc a)) = pos a
decrement (negsuc a) = negsuc (suc a)

abbrev pub change_count : (ℤ → ℤ) → ℕ → List IoThreadInfo → List IoThreadInfo
change_count f i [] = []
change_count f zero (t ∷ ts) = record t { count = f t.count } ∷ ts
change_count f (suc i) (t ∷ ts) = t ∷ change_count f i ts

-- The loop of `HandleConnect` that picks the I/O thread: `best` is the index of `info`, `least` its
-- count, `i` the index of the thread that is looked at next.
unfoldable pub least_loaded : ℕ → ℤ → ℕ → List IoThreadInfo → ℕ
least_loaded best least i [] = best
least_loaded best least i (t ∷ ts) =
    let other = least_loaded i t.count (i + 1) ts in
    let same = least_loaded best least (i + 1) ts in if ltb_ℤ t.count least then other else same

unfoldable pub pick_thread : List IoThreadInfo → ℕ
pick_thread [] = 0
pick_thread (t ∷ ts) = least_loaded 0 t.count 1 ts

-- `CloseConnection` of the connection whose controller holds the descriptor `fd`.
unfoldable pub close_connection : ℕ → Server → Server
close_connection fd s = record s {
  notified = if s.procs.csp then fd ∷ s.notified else s.notified;
  closed = fd ∷ s.closed;
  connections = erase fd s.connections;
}

-- What `HandleConnect` is answered: by `accept`, the two `fcntl` and
-- `epoll_ctl`; `ctx` is what the connect callback returns.
pub record ConnectCalls : Type 0 where
  pub accepted : Option ℕ
  pub get_flags : Bool
  pub set_flags : Bool
  pub ctx : ℕ
  pub registered : Bool

-- `HandleConnect`. The attempt to drain a connection on `EMFILE` changes only descriptors that the
-- server does not keep, and is left out.
unfoldable pub handle_connect :
    ConnectCalls → TcpConfig → Malloc → (Node → List ℕ) → Server → Pool → Bool × Server × Pool
handle_connect os cfg malloc memory s p = elim os.accepted [
  | none ↦ (false, s, p)
  | some fd ↦
      if not_ok os
      then (true, log_close fd s, p)
      else elim (find fd s.connections) [ some c ↦ (true, log_close fd s, p) | none ↦ added fd ]
]
  where
    not_ok : ConnectCalls → Bool
    not_ok o = if o.get_flags then (if o.set_flags then false else true) else true

    added : ℕ → Bool × Server × Pool
    added fd =
        let info = pick_thread s.loop_info in
        let ctx : ℕ = if s.procs.cnp then os.ctx else 0 in
        let (ok, c, p') = Controller.init cfg malloc memory fd ctx info Controller.new p in
        let s' = record s { connections = (fd, c) ∷ s.connections } in
        if ok
        then (if os.registered
            then (true, record s' { loop_info = change_count increment info s'.loop_info }, p')
            else (true, close_connection c.fd s', p'))
        else (true, close_connection c.fd s', p')

-- `ActiveClose`.
unfoldable pub active_close : ℕ → Server → Server
active_close fd s = record s { close_list = s.close_list ++ (fd ∷ []) }

-- The body of the loops of `HandleCloseList`. The code reads `controller->info` after `CloseConnection`
-- has freed the controller.
unfoldable pub close_listed : ℕ → Server → Server
close_listed fd s =
    let s' = close_connection fd s in
    record s' { loop_info = change_count decrement (s'.stale fd) s'.loop_info }

unfoldable pub close_all : List ℕ → Server → Server
close_all [] s = s
close_all (fd ∷ fds) s = close_all fds (close_listed fd s)

-- `HandleCloseList`: with more than 10 entries the list is moved out first.
unfoldable pub handle_close_list : Server → Server
handle_close_list s =
    if ltb 10 (length s.close_list)
    then close_all s.close_list (record s { close_list = [] })
    else (let s' = close_all s.close_list s in record s' { close_list = [] })

-- `Cleanup`.
unfoldable pub close_each : List (ℕ × Controller) → Server → Server
close_each [] s = s
close_each ((fd, c) ∷ rest) s = close_each rest (record s {
  notified = if s.procs.csp then fd ∷ s.notified else s.notified;
  closed = fd ∷ s.closed;
})

unfoldable pub cleanup : Server → Server
cleanup s = let s' = close_each s.connections s in record s' { connections = [] }
