-- ===== src/TaskStack/Ops.antt =====
-- The operations on tasks as data, and when they may be done.
use spsock.Prelude.{
  ℕ, ◌<◌, ◌≡◌, List, [], ◌∷◌, Option, none, some, Bool, true, false, not, ◌&&◌, ltb, length,
}
use spsock.TaskStack.{
  TaskImpl, Memory, get_base, construct, execute, copy_construct, move_construct, destroy,
  copy_assign, move_assign,
}

-- What may be done to tasks.
pub data Op (W : Type 0) : Type 1 where
  constructs : ℕ → TaskImpl W → Op W
  executes destroys : ℕ → Op W
  copies moves copy_assigns move_assigns : ℕ → ℕ → Op W

module _ {W : Type 0} where
  abbrev pub step : Op W → Memory W → Option (Memory W)
  step (constructs i t) m = construct i t m
  step (executes i) m = execute i m
  step (destroys i) m = destroy i m
  step (copies i j) m = copy_construct i j m
  step (moves i j) m = move_construct i j m
  step (copy_assigns i j) m = copy_assign i j m
  step (move_assigns i j) m = move_assign i j m

  abbrev pub steps : Memory W → List (Op W) → Option (Memory W)
  steps m [] = some m
  steps m (o ∷ os) = elim (step o m) [ none ↦ none | some m' ↦ steps m' os ]

  -- There is a task at `i`; there is memory without one.
  abbrev pub Lives : Memory W → ℕ → Type 1
  Lives m i = (t : TaskImpl W) × (get_base m i ≡ some t)

  abbrev pub IsFree : Memory W → ℕ → Type 1
  IsFree m i = (i < length m.places) × (get_base m i ≡ none)

  -- The tests for the two.
  abbrev pub lives : Memory W → ℕ → Bool
  lives m i = elim (get_base m i) [ none ↦ false | some t ↦ true ]

  abbrev pub is_free : Memory W → ℕ → Bool
  is_free m i = ltb i (length m.places) && not (lives m i)

  -- Constructors are given free memory, everything else tasks.
  abbrev pub allowed : Op W → Memory W → Bool
  allowed (constructs i t) m = is_free m i
  allowed (executes i) m = lives m i
  allowed (destroys i) m = lives m i
  allowed (copies i j) m = is_free m i && lives m j
  allowed (moves i j) m = is_free m i && lives m j
  allowed (copy_assigns i j) m = lives m i && lives m j
  allowed (move_assigns i j) m = lives m i && lives m j

  -- The same along a sequence, as far as it has results.
  abbrev pub all_allowed : Memory W → List (Op W) → Bool
  all_allowed m [] = true
  all_allowed m (o ∷ os) =
      allowed o m && elim (step o m) [ none ↦ true | some m' ↦ all_allowed m' os ]
