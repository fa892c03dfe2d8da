-- ===== src/Tcp/Serving.antt =====
-- The connections' buffers stay valid, whatever an I/O thread does with an event.
use spsock.Prelude.{
  ℕ, ◌≡◌, ◌≢◌, refl, sym, ap, inl, inr, List, [], ◌∷◌, Option, none, some, Bool, true, false, arith,
  ◌==◌, ◌&&◌, if◌then◌else◌, ℤ, Bool-cases,
}
use mathlib.Core.Path.{subst}
use spsock.Config.{WaterMark}
use spsock.Buffer.Valid
use spsock.Controller
use spsock.Controller.{Controller}
use spsock.Controller.Receive.{Refilled, read_socket-Refilled}
use spsock.Controller.Transmit.{Committed, commit_write-Committed}
use spsock.Socket.{Socket}
use spsock.Tcp.{Procs}
use spsock.Tcp.Connections.{find}
use spsock.Tcp.Events.{Ready, Verdict, after_read, after_write, handle_read, handle_write, dispatch}
use spsock.Tcp.Loops.{put_back}

-- A connection with valid buffers.
abbrev pub IsSound : Controller → Type 0
IsSound c = Valid.IsValid c.read_buf × Valid.IsValid c.write_buf

abbrev pub AllSound : List (ℕ × Controller) → Type 0
AllSound [] = Unit
AllSound ((fd, c) ∷ m) = IsSound c × AllSound m

abbrev pub descriptors : List (ℕ × Controller) → List ℕ
descriptors [] = []
descriptors ((fd, c) ∷ m) = fd ∷ descriptors m

pub find-IsSound :
    (fd : ℕ) (m : List (ℕ × Controller)) (c : Controller)
    → AllSound m
    → find fd m ≡ some c
    → IsSound c
unfolding find
find-IsSound fd [] c h e = absurd (cc)
find-IsSound fd ((j, d) ∷ m) c (good, h) e = elim (Bool-cases (j == fd)) [
  | inl here ↦ let z : d ≡ c = ground (arith, here) in subst IsSound z good
  | inr further ↦ find-IsSound fd m c h (ground (arith, further))
]

pub put_back-AllSound :
    (fd : ℕ) (c : Controller) (m : List (ℕ × Controller))
    → IsSound c
    → AllSound m
    → AllSound (put_back fd c m)
unfolding put_back
put_back-AllSound fd c [] good h = tt
put_back-AllSound fd c ((j, d) ∷ m) good (old, h) = elim (Bool-cases (j == fd)) [
  | inl here ↦ rw here (good, h)
  | inr further ↦ rw further (old, put_back-AllSound fd c m good h)
]

pub descriptors-put_back :
    (fd : ℕ) (c : Controller) (m : List (ℕ × Controller))
    → descriptors (put_back fd c m) ≡ descriptors m
unfolding put_back
descriptors-put_back fd c [] = refl
descriptors-put_back fd c ((j, d) ∷ m) = elim (Bool-cases (j == fd)) [
  | inl here ↦ rw here refl
  | inr further ↦ rw further (ap (◌∷◌ j) (descriptors-put_back fd c m))
]

pub find-put_back :
    (k fd : ℕ) (c : Controller) (m : List (ℕ × Controller))
    → find k m ≢ none
    → find k (put_back fd c m) ≢ none
unfolding find put_back
find-put_back k fd c [] h e = h e
find-put_back k fd c ((j, d) ∷ m) h e = absurd (ground (arith, find-put_back k fd c m))

module _ (sock : Socket) where
  open sock use {State}

  abbrev pub Served : Option (Verdict × Controller × State) → Type 0
  Served none = ⊥
  Served (some (v, c, s)) = IsSound c

  after_read-IsSound :
      (mark : WaterMark) (done : Bool) (c : Controller)
      → IsSound c
      → IsSound (after_read sock mark done c).1
  unfolding after_read Controller.renable_events
  after_read-IsSound mark done c (v, w) =
      let r : (after_read sock mark done c).1.read_buf ≡ c.read_buf = ground arith in
      let s : (after_read sock mark done c).1.write_buf ≡ c.write_buf = ground arith in
      (subst Valid.IsValid (sym r) v, subst Valid.IsValid (sym s) w)

  after_write-IsSound :
      (mark : WaterMark) (done : Bool) (ret : ℤ) (c : Controller)
      → IsSound c
      → IsSound (after_write sock mark done ret c).1
  unfolding after_write Controller.renable_events
  after_write-IsSound mark done ret c (v, w) =
      let r : (after_write sock mark done ret c).1.read_buf ≡ c.read_buf = ground arith in
      let s : (after_write sock mark done ret c).1.write_buf ≡ c.write_buf = ground arith in
      (subst Valid.IsValid (sym r) v, subst Valid.IsValid (sym s) w)

  handle_read-Served :
      (procs : Procs) (mark : WaterMark) (done : Bool) (c : Controller) (s : State)
      → IsSound c
      → Served (handle_read sock procs mark done c s)
  unfolding handle_read Controller.enable_events
  handle_read-Served procs mark done c s (v, w) = elim (Bool-cases procs.rdp) [
    | inl reads ↦
        rw reads (given (Controller.read_socket sock c s) (read_socket-Refilled sock c s v))
    | inr writes ↦ rw writes (elim (Bool-cases procs.wtp) [
      | inr none_set ↦ rw none_set (v, w)
      | inl set ↦ rw set (elim (Bool-cases done) [ inl y ↦ rw y (v, w) | inr n ↦ rw n (v, w) ])
    ])
  ]
    where
      given :
          (r : Option (Bool × Controller × State))
          → Refilled sock c s r
          → Served (elim r [
            | none ↦ none
            | some (ok, c', s') ↦ some (
                if ok
                then (let (v, c'') = after_read sock mark done c' in (v, c'', s'))
                else (record { keep = false; task = none }, c', s'))
          ])
      given none h = h
      given (some (true, c', s')) (v', same, h) =
          after_read-IsSound mark done c' (v', subst Valid.IsValid (sym same) w)
      given (some (false, c', s')) (v', same, h) = (v', subst Valid.IsValid (sym same) w)

  handle_write-Served :
      (procs : Procs) (mark : WaterMark) (done : Bool) (c : Controller) (s : State)
      → IsSound c
      → Served (handle_write sock procs mark done c s)
  unfolding handle_write Controller.enable_events
  handle_write-Served procs mark done c s (v, w) = elim (Bool-cases procs.wtp) [
    | inl writes ↦
        rw writes (elim (Bool-cases (c.peer_closed && Controller.get_read_buffer_size c == 0)) [
          | inl gone ↦ rw gone (v, w)
          | inr here ↦ rw here (elim (Bool-cases (mark.write_mark == 4294967295)) [
            | inl at_once ↦ rw at_once (v, w)
            | inr sends ↦
                rw sends
                  (given (Controller.commit_write sock c s) (commit_write-Committed sock c s w))
          ])
        ])
    | inr reads ↦ rw reads (elim (Bool-cases procs.rdp) [
      | inr none_set ↦ rw none_set (v, w)
      | inl set ↦ rw set (elim (Bool-cases done) [ inl y ↦ rw y (v, w) | inr n ↦ rw n (v, w) ])
    ])
  ]
    where
      given :
          (r : Option (ℤ × Controller × State))
          → Committed sock c s r
          → Served (elim r [
            | none ↦ none
            | some (ret, c', s') ↦
                some (let (v, c'') = after_write sock mark done ret c' in (v, c'', s'))
          ])
      given none h = h
      given (some (ret, c', s')) (w', e, answer, same) =
          after_write-IsSound mark done ret c' (subst Valid.IsValid (sym same) v, w')

  pub dispatch-Served :
      (r : Ready) (procs : Procs) (mark : WaterMark) (done : Bool) (c : Controller) (s : State)
      → IsSound c
      → Served (dispatch sock r procs mark done c s)
  unfolding dispatch
  dispatch-Served r procs mark done c s good =
      let closed : Controller = record c { peer_closed = true } in
      let plain = handle_read-Served procs mark done c s good in
      let half = handle_read-Served procs mark done closed s good in
      let sends = handle_write-Served procs mark done c s good in
      elim (Bool-cases r.hup_or_err) [
        | inl hup ↦ rw hup good
        | inr on ↦ rw on (elim (Bool-cases r.readable) [
          | inl reads ↦
              rw reads (elim (Bool-cases r.rdhup) [ inl h ↦ rw h half | inr n ↦ rw n plain ])
          | inr not_read ↦ rw not_read (elim (Bool-cases r.rdhup) [
            | inl h ↦ rw h half
            | inr n ↦ rw n (elim (Bool-cases r.writable) [ inl w ↦ rw w sends | inr z ↦ rw z good ])
          ])
        ])
      ]
