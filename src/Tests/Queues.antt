-- ===== src/Tests/Queues.antt =====
-- base/TPBlockQueue.hpp: a queue of three slots that holds two elements, round the end of the ring.
use spsock.Prelude.{ℕ, ◌≡◌, refl, [], ◌∷◌, none, some, List, false, arith}
use spsock.BlockQueue.{Queue}
use spsock.BlockQueue.Ring.{IsValid, held}
use spsock.BlockQueue.Bounded.{
  Call, pushes, pushes_bulk, pops, pops_bulk, calls, list_calls, calls-list_calls,
}

abbrev pub queue : Queue ℕ
queue = record {
  nodes = some (some 9 ∷ none ∷ some 8 ∷ []);
  is_stopped = false;
  size = 2;
  max_size = 3;
  head = 2;
  tail = 1;
}

pub queue-IsValid : IsValid queue
queue-IsValid = record {
  sized = refl;
  small = omega arith;
  head_in = omega arith;
  fits = omega arith;
  ends = refl;
}

held-queue : held queue ≡ some 8 ∷ some 9 ∷ []
held-queue = refl

-- The second push does not fit.
abbrev mixed : List (Call ℕ)
mixed = pushes 5 ∷ pushes 6 ∷ pops ∷ pushes_bulk (7 ∷ 8 ∷ []) ∷ pops_bulk 9 ∷ pops ∷ []

calls-list_calls_example :
    IsValid (calls mixed queue).1
    × (((calls mixed queue).0, held (calls mixed queue).1)
        ≡ list_calls 3 mixed (some 8 ∷ some 9 ∷ []))
calls-list_calls_example = calls-list_calls mixed queue queue-IsValid
