-- ===== src/Tcp/Deferred.antt =====
-- SPSock.cpp, SPController.cpp and SPDeferred.cpp: the calls that a controller makes through function
-- pointers, which `Config` sets: `EnableEvent`, `ActiveClose` and `REnableFunc`.
--
-- `armed` holds for each descriptor that an `epoll` watches which events it waits for; an event disarms
-- it, and errors and hang-ups are always waited for. `accepted` is whether `epoll_ctl` succeeds.
use spsock.Prelude.{
  ℕ, ◌≡◌, ◌≢◌, refl, [], ◌∷◌, ◌++◌, Option, none, some, Bool, true, false, ◌==◌, arith,
  if◌then◌else◌,
}
use spsock.Config.{Events, no_events}
use spsock.Controller
use spsock.Controller.{Controller}
use spsock.Tcp.{Server}
use spsock.Tcp.Connections.{active_close}

abbrev pub Armed : Type 0
Armed = ℕ → Option Events

abbrev pub arm : ℕ → Option Events → Armed → Armed
arm fd events armed other = if fd == other then events else armed other

-- `EnableEvent`.
unfoldable pub enable_event : Bool → Controller → Bool → Bool → Armed → Bool × Armed
enable_event accepted c read write armed =
    if accepted
    then (true, arm c.fd (some (record { epollin = read; epollout = write })) armed)
    else (false, armed)

-- `renableEvents`, with the call through `funcEvent`.
unfoldable pub renable_armed : Bool → Controller → Armed → Bool × Controller × Armed
unfolding enable_event
renable_armed accepted c armed =
    let (ok, armed') = enable_event accepted c c.events.epollin c.events.epollout armed in
    let (ret, c') = Controller.renable_events ok c in (ret, c', armed')

-- `close`, through `funcClose`: the descriptor is taken from the `epoll`, and put on the close list.
unfoldable pub close : Controller → Armed → Server → Armed × Server
close c armed s = (arm c.fd none armed, active_close c.fd s)

-- `REnableFunc`.
unfoldable pub renable_func : Bool → Controller → Armed → Server → Controller × Armed × Server
unfolding renable_armed close
renable_func accepted c armed s =
    let (ok, c', armed') = renable_armed accepted c armed in
    let (shut, s') = close c' armed' s in if ok then (c', armed', s) else (c', shut, s')

-- `REnableFunc` leaves a connection in one of two ways: waiting for the events that it asked for last,
-- with nothing changed in the server, or waited for no more and last on the close list; what is waited
-- for on other descriptors stays.
pub renable_func_lem :
    (accepted : Bool) (c : Controller) (armed : Armed) (s : Server)
    → let (c', armed', s') = renable_func accepted c armed s in
      ((other : ℕ) → c.fd ≢ other → armed' other ≡ armed other)
      × (if accepted
          then (c' ≡ c) × (armed' c.fd ≡ some c.events) × (s' ≡ s)
          else (armed' c.fd ≡ none)
            × (c'.events ≡ no_events)
            × (s'.close_list ≡ s.close_list ++ (c.fd ∷ [])))
unfolding renable_func renable_armed enable_event Controller.renable_events close active_close
renable_func_lem true c armed s = ((λ other ne. ground arith), (refl, ground arith, refl))
renable_func_lem false c armed s = ((λ other ne. ground arith), (ground arith, refl, refl))
