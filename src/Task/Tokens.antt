-- ===== src/Task/Tokens.antt =====
-- Who may work on a connection next: a task in the pool's queues, or the I/O thread once the
-- connection is listened to again. Between two events of a connection there should be one of them.
use spsock.Prelude.{
  ℕ, ◌+◌, ◌*◌, ◌≡◌, List, [], ◌∷◌, ◌++◌, Option, none, some, Bool, true, false, arith, count_if,
  if◌then◌else◌,
}
use spsock.ThreadPool
use spsock.ThreadPool.Tally
use spsock.ThreadPool.Tally.{tally}
use spsock.ThreadPool.Submit.{append-Took, emplace-eq-append, Took}
use spsock.Task.{SockTask, Pool, append_single}

-- A test of connections, as one of what stands in a queue.
abbrev pub of_ctx : (ℕ → Bool) → Option SockTask → Bool
of_ctx c none = false
of_ctx c (some t) = c t.ctx

-- The tasks in the queues whose connection passes the test, and the times that such a connection is
-- listened to again.
abbrev pub owners : (ℕ → Bool) → Pool → List ℕ → ℕ
owners c p again = tally (of_ctx c) p + count_if c again

-- What a single submission should do, with `gain` owners more for the task's connection.
abbrev pub Owned : ℕ → SockTask → Pool → Bool × Pool × List ℕ → Type 0
Owned gain t p (flag', p', again) =
    Tally.IsValid p'
    × ((c : ℕ → Bool) → owners c p' again ≡ owners c p [] + gain * (if c t.ctx then 1 else 0))

given_answer :
    (t : SockTask) (flag : Bool) (p : Pool) (r : Bool × Pool)
    → Took t p r
    → Owned (if flag then 1 else 2) t p (
        let (ok, p') = r in
        let first = if flag then [] else t.ctx ∷ [] in
        if ok then (flag, p', first) else (false, p', first ++ (t.ctx ∷ [])))
given_answer t true p (true, p') (v, len, adds) = (v, λ c. omega (arith, adds (of_ctx c)))
given_answer t true p (false, p') (v, len, adds) = (v, λ c. omega (arith, adds (of_ctx c)))
given_answer t false p (true, p') (v, len, adds) = (v, λ c. omega (arith, adds (of_ctx c)))
given_answer t false p (false, p') (v, len, adds) = (v, λ c. omega (arith, adds (of_ctx c)))

-- A task that is submitted on its own, to a pool in good order: the pool stays so, and if the flag is
-- up, its connection gains one owner and no other connection any, whether the pool has room or not; if
-- the flag is down, it gains two.
pub append_single-Owned :
    (t : SockTask) (flag : Bool) (p : Pool)
    → Tally.IsValid p
    → Owned (if flag then 1 else 2) t p (append_single t flag p)
unfolding append_single
append_single-Owned t flag p v =
    given_answer t flag p (ThreadPool.emplace t p) (rw (emplace-eq-append t p) (append-Took t p v))
