-- ===== src/Tcp/Closing.antt =====
-- What working off the close list does.
use spsock.Prelude.{
  ℕ, ◌≡◌, refl, ◌∙◌, List, [], ◌∷◌, arith, length, ltb, if◌then◌else◌, Bool-cases, inl, inr,
}
use spsock.Tcp.{Server}
use spsock.Tcp.Connections.{erase, close_connection, close_listed, close_all, handle_close_list}

-- A list of entries put in front of a record one by one.
abbrev pub onto : List ℕ → List ℕ → List ℕ
onto [] log = log
onto (fd ∷ fds) log = onto fds (fd ∷ log)

abbrev pub erase_all {ℓ} : {V : Type ℓ} → List ℕ → List (ℕ × V) → List (ℕ × V)
erase_all [] m = m
erase_all (fd ∷ fds) m = erase_all fds (erase fd m)

closed-close_all : (fds : List ℕ) (s : Server) → (close_all fds s).closed ≡ onto fds s.closed
unfolding close_all close_listed close_connection
closed-close_all [] s = refl
closed-close_all (fd ∷ fds) s = closed-close_all fds (close_listed fd s)

connections-close_all :
    (fds : List ℕ) (s : Server) → (close_all fds s).connections ≡ erase_all fds s.connections
unfolding close_all close_listed close_connection
connections-close_all [] s = refl
connections-close_all (fd ∷ fds) s = connections-close_all fds (close_listed fd s)

notified-close_all :
    (fds : List ℕ) (s : Server)
    → (close_all fds s).notified ≡ (if s.procs.csp then onto fds s.notified else s.notified)
unfolding close_all close_listed close_connection
notified-close_all [] s = ground arith
notified-close_all (fd ∷ fds) s = notified-close_all fds (close_listed fd s) ∙ ground arith

list-close_all : (fds : List ℕ) (s : Server) → (close_all fds s).close_list ≡ s.close_list
unfolding close_all close_listed close_connection
list-close_all [] s = refl
list-close_all (fd ∷ fds) s = list-close_all fds (close_listed fd s)

-- Whatever its length, ltb, the close list is worked off whole: it is empty afterwards, each of its
-- connections has had its descriptor closed, been dropped from the map and, if there is a close
-- callback, been passed to it, once for each entry and in the order of the list.
pub handle_close_list_lem :
    (s : Server)
    → let s' = handle_close_list s in
      (s'.close_list ≡ [])
      × (s'.closed ≡ onto s.close_list s.closed)
      × (s'.connections ≡ erase_all s.close_list s.connections)
      × (s'.notified ≡ (if s.procs.csp then onto s.close_list s.notified else s.notified))
unfolding handle_close_list
handle_close_list_lem s = elim (Bool-cases (ltb 10 (length s.close_list))) [
  | inl e ↦
      let s0 = record s { close_list = [] } in
      rw e (
        list-close_all s.close_list s0,
        closed-close_all s.close_list s0,
        connections-close_all s.close_list s0,
        notified-close_all s.close_list s0,
      )
  | inr e ↦ rw e (
    refl,
    closed-close_all s.close_list s,
    connections-close_all s.close_list s,
    notified-close_all s.close_list s,
  )
]
