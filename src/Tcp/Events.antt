-- ===== src/Tcp/Events.antt =====
-- SPSock.cpp: what an I/O thread does with the events of a connection.
use spsock.Prelude.{
  ℕ, Option, none, some, Bool, true, false, ◌&&◌, leb, ◌==◌, if◌then◌else◌, ℤ, negsuc,
}
use spsock.Config.{WaterMark}
use spsock.Controller
use spsock.Controller.{Controller}
use spsock.Socket.{Socket}
use spsock.Task.{Proc, read_proc, write_proc}
use spsock.Tcp.{Procs}

-- What a handler returns: `false` to have the connection closed, and the task that it appended.
pub record Verdict : Type 0 where
  pub keep : Bool
  pub task : Option Proc

abbrev pub drop_it : Verdict
drop_it = record { keep = false; task = none }

abbrev pub keep_it : Verdict
keep_it = record { keep = true; task = none }

abbrev pub run_it : Proc → Verdict
run_it p = record { keep = true; task = some p }

abbrev pub is_minus_one : ℤ → Bool
is_minus_one (negsuc ℕ.zero) = true
is_minus_one _ = false

-- The flags of one event of `epoll_wait`.
pub record Ready : Type 0 where
  pub hup_or_err : Bool
  pub readable : Bool
  pub rdhup : Bool
  pub writable : Bool

module _ (sock : Socket) where
  open sock use {State}

  -- The part of `HandleRead` behind `readSocket`; `done` is what `funcEvent` answers.
  unfoldable pub after_read : WaterMark → Bool → Controller → Verdict × Controller
  unfolding Controller.get_read_buffer_size
  after_read mark done c =
      let size = Controller.get_read_buffer_size c in
      let (ok, c') = Controller.renable_events done c in
      if c.peer_closed && size == 0
      then (drop_it, c)
      else (if mark.read_mark == 0
          then (run_it read_proc, c)
          else (if leb mark.read_mark size
              then (run_it read_proc, c)
              else (if ok then (keep_it, c') else (drop_it, c'))))

  unfoldable pub handle_read :
      Procs → WaterMark → Bool → Controller → State → Option (Verdict × Controller × State)
  handle_read procs mark done c s =
      if procs.rdp
      then elim (Controller.read_socket sock c s) [
        | none ↦ none
        | some (ok, c', s') ↦ some (
            if ok
            then (let (v, c'') = after_read mark done c' in (v, c'', s'))
            else (drop_it, c', s'))
      ]
      else (let (ok, c') = Controller.enable_events done c false true in
          some (
            if procs.wtp
            then (if ok then (drop_it, c', s) else (keep_it, c', s))
            else (drop_it, c, s)))

  -- The part of `HandleWrite` behind `commitWrite`.
  unfoldable pub after_write : WaterMark → Bool → ℤ → Controller → Verdict × Controller
  unfolding Controller.get_write_buffer_size
  after_write mark done ret c =
      let (ok, c') = Controller.renable_events done c in
      if is_minus_one ret
      then (drop_it, c)
      else (if leb (Controller.get_write_buffer_size c) mark.write_mark
          then (run_it write_proc, c)
          else (if ok then (keep_it, c') else (drop_it, c')))

  unfoldable pub handle_write :
      Procs → WaterMark → Bool → Controller → State → Option (Verdict × Controller × State)
  unfolding Controller.get_read_buffer_size
  handle_write procs mark done c s =
      if procs.wtp
      then (if c.peer_closed && Controller.get_read_buffer_size c == 0
          then some (drop_it, c, s)
          else (if mark.write_mark == 4294967295
              then some (run_it write_proc, c, s)
              else elim (Controller.commit_write sock c s) [
                | none ↦ none
                | some (ret, c', s') ↦
                    some (let (v, c'') = after_write mark done ret c' in (v, c'', s'))
              ]))
      else (let (ok, c') = Controller.enable_events done c true false in
          some (
            if procs.rdp
            then (if ok then (drop_it, c', s) else (keep_it, c', s))
            else (drop_it, c, s)))

  -- The branches of `IOEventLoop` for an event of a connection.
  unfoldable pub dispatch :
      Ready → Procs → WaterMark → Bool → Controller → State → Option (Verdict × Controller × State)
  dispatch r procs mark done c s =
      if r.hup_or_err
      then some (drop_it, c, s)
      else (if r.readable
          then handle_read procs mark done (if r.rdhup then record c { peer_closed = true } else c)
              s
          else (if r.rdhup
              then handle_read procs mark done (record c { peer_closed = true }) s
              else (if r.writable then handle_write procs mark done c s else some (keep_it, c, s))))
