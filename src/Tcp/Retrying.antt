-- ===== src/Tcp/Retrying.antt =====
-- SPSock.cpp: `CreateIOEventLoop` called again, behind a call that failed and left its loops in
-- `loopInfo`.
use spsock.Prelude.{◌≡◌, ◌≢◌, refl, List, [], ◌∷◌, ◌++◌, false, arith, length, length-append, ◌==◌}
use spsock.Tcp.{Server}
use spsock.Tcp.Threads.{LoopCalls, make_loops, close_loops, create_io_event_loop}

some_made {ℓ} : {A : Type ℓ} (xs : List A) → xs ≢ [] → length xs ≢ 0
some_made [] ne e = ne refl
some_made (x ∷ xs) ne e = absurd (omega (arith, e))

-- The loops that a failed call has made, their descriptors closed, stand in the way of every call that
-- can make all of its loops: it fails as well, and closes the descriptors of the old loops once more.
pub create_again_fails :
    (os : List LoopCalls) (s : Server)
    → s.loop_info ≢ []
    → length (make_loops os).0 ≡ length os
    → let (ok, s') = create_io_event_loop os s in
      (ok ≡ false)
      × (s'.closed ≡ close_loops (s.loop_info ++ (make_loops os).0) ((make_loops os).1 ++ s.closed))
unfolding create_io_event_loop
create_again_fails os s left all =
    let few = some_made s.loop_info left in
    let too_many : (length (s.loop_info ++ (make_loops os).0) == length os) ≡ false =
      ground (arith, all, few, length-append s.loop_info (make_loops os).0) in
    rw too_many (refl, refl)
