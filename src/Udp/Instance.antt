-- ===== src/Udp/Instance.antt =====
-- SPSock.cpp: the one instance of `SPSockUdp`. Its exit flag is static and outlives it; while there is an
-- instance it stands in its record.
use spsock.Prelude.{ℕ, ◌≡◌, refl, List, [], Option, none, some, Bool, true, false}
use spsock.Udp.{Server, close_fds, destroy}

pub record Program : Type 0 where
  pub instance_of : Option Server
  pub exit_flag : Bool
  pub closed : List ℕ

abbrev pub construct : Program → Server
construct p = record {
  bound = false;
  callback = false;
  signal_set = false;
  ran = false;
  exit_flag = p.exit_flag;
  ctx = 0;
  fds = [];
  closed = p.closed;
}

-- `new` in `GetInstance`; `got_memory` is whether it succeeds.
abbrev pub first_instance : Bool → Program → Option Server × Program
first_instance true p = (some (construct p), record p { instance_of = some (construct p) })
first_instance false p = (none, p)

unfoldable pub get_instance : Bool → Program → Option Server × Program
get_instance got_memory p = elim p.instance_of [
  | some s ↦ (some s, p)
  | none ↦ first_instance got_memory p
]

unfoldable pub release : Program → Program
unfolding destroy
release p = elim p.instance_of [
  | none ↦ p
  | some s ↦
      let s' = destroy s in
      record { instance_of = none; exit_flag = s'.exit_flag; closed = s'.closed }
]

-- A program without an instance, behind one that had the flag and the record of `s`.
abbrev pub released : Server → Program
released s = record {
  instance_of = none;
  exit_flag = s.exit_flag;
  closed = close_fds s.fds s.closed;
}

release_lem : (p : Program) (s : Server) → p.instance_of ≡ some s → release p ≡ released s
unfolding release destroy
release_lem p s e = rw (e, release) refl

-- `Release` closes every socket that was bound, and the instance made after it has no socket, no
-- callback and the exit flag of the one before.
pub renewed_lem :
    (p : Program) (s : Server)
    → p.instance_of ≡ some s
    → get_instance true (release p) ≡ (
      some (construct (released s)),
      record (released s) { instance_of = some (construct (released s)) },
    )
unfolding get_instance
renewed_lem p s e = rw (release_lem p s e) refl
