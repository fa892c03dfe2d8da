-- ===== src/TaskStack.antt =====
-- base/TPTask.h: tasks of any type in a memory of places, and, from base/TPBlockQueue.hpp, the helpers
-- that construct, extract and destroy the elements of a queue, here for such tasks.
--
-- A place is a `TaskStack` or the data of a node; `none` is memory without an object. What the code
-- knows of a callable and its arguments is what C++ asks of their types: they can be called, copied and
-- moved. An operation through `getBase()` of a place without an object has no result. `built` and
-- `gone` count the constructors and destructors that have run.
pub mod Ops
pub mod Lifetime
pub mod Passage
use spsock.Prelude.{ℕ, suc, ◌≡◌, List, Option, none, some, Bool, ◌==◌, if◌then◌else◌, get_or, set}

-- A callable with its arguments, in a world `W` that a call changes: a call gets the arguments as
-- lvalues and may change them; a copy or a move gives an object that equals the source.
pub record Callable (W : Type 0) : Type 1 where
  pub Stored : Type 0
  pub call : Stored → W → Stored × W
  pub copied : Stored → Stored
  pub moved : Stored → Stored × Stored
  pub same_copy : (s : Stored) → copied s ≡ s
  pub same_move : (s : Stored) → (moved s).0 ≡ s

-- `TaskImpl<F, Args...>` behind a `TaskBase*`.
pub record TaskImpl (W : Type 0) : Type 1 where
  pub kind : Callable W
  pub storage : kind.Stored

pub record Memory (W : Type 0) : Type 1 where
  pub places : List (Option (TaskImpl W))
  pub world : W
  pub built : ℕ
  pub gone : ℕ

-- `BULK_CMETHOD` and `POP_METHOD`.
pub data BulkMethod : Type 0 where
  copy move : BulkMethod

pub data PopMethod : Type 0 where
  assign place : PopMethod

module _ {W : Type 0} where
  -- `TaskImpl::execute`, with what the call makes of the stored values and of the world.
  abbrev pub run_impl : TaskImpl W → W → TaskImpl W × W
  run_impl t w =
      let (s, w') = t.kind.call t.storage w in (record { kind = t.kind; storage = s }, w')

  abbrev pub get_base : Memory W → ℕ → Option (TaskImpl W)
  get_base m i = get_or m.places i none

  -- Placement `new` at `i`, what a destructor at `i` leaves, and an object that is changed in place.
  abbrev pub new_at : ℕ → TaskImpl W → Memory W → Memory W
  new_at i t m = record m { places = set m.places i (some t); built = suc m.built }

  abbrev pub end_at : ℕ → Memory W → Memory W
  end_at i m = record m { places = set m.places i none; gone = suc m.gone }

  abbrev pub changed_at : ℕ → TaskImpl W → Memory W → Memory W
  changed_at i t m = record m { places = set m.places i (some t) }

  -- `cloneTo` and `moveTo`, of the object `t` at `j` to the memory at `i`.
  abbrev pub clone_to : TaskImpl W → ℕ → Memory W → Memory W
  clone_to t i m = new_at i (record { kind = t.kind; storage = t.kind.copied t.storage }) m

  abbrev pub move_to : ℕ → TaskImpl W → ℕ → Memory W → Memory W
  move_to j t i m =
      let (s, left) = t.kind.moved t.storage in
      new_at i (record { kind = t.kind; storage = s })
        (changed_at j (record { kind = t.kind; storage = left }) m)

  -- The constructor from a callable and arguments, which `t` holds as they are stored.
  unfoldable pub construct : ℕ → TaskImpl W → Memory W → Option (Memory W)
  construct i t m = some (new_at i t m)

  unfoldable pub execute : ℕ → Memory W → Option (Memory W)
  execute i m = elim (get_base m i) [
    | none ↦ none
    | some t ↦ let (t', w) = run_impl t m.world in some (record (changed_at i t' m) { world = w })
  ]

  unfoldable pub copy_construct : ℕ → ℕ → Memory W → Option (Memory W)
  copy_construct i j m = elim (get_base m j) [ none ↦ none | some t ↦ some (clone_to t i m) ]

  unfoldable pub move_construct : ℕ → ℕ → Memory W → Option (Memory W)
  move_construct i j m = elim (get_base m j) [ none ↦ none | some t ↦ some (move_to j t i m) ]

  -- The destructor.
  unfoldable pub destroy : ℕ → Memory W → Option (Memory W)
  destroy i m = elim (get_base m i) [ none ↦ none | some t ↦ some (end_at i m) ]

  -- `operator=`, to the object at `i` from that at `j`.
  unfoldable pub copy_assign : ℕ → ℕ → Memory W → Option (Memory W)
  unfolding destroy copy_construct
  copy_assign i j m =
      if i == j
      then some m
      else elim (destroy i m) [ none ↦ none | some m' ↦ copy_construct i j m' ]

  unfoldable pub move_assign : ℕ → ℕ → Memory W → Option (Memory W)
  unfolding destroy move_construct
  move_assign i j m =
      if i == j
      then some m
      else elim (destroy i m) [ none ↦ none | some m' ↦ move_construct i j m' ]

  -- `bulk_construct`, `pop_extract` and `conditional_destroy`: a task has a destructor of its own.
  unfoldable pub bulk_construct : BulkMethod → ℕ → ℕ → Memory W → Option (Memory W)
  unfolding copy_construct move_construct
  bulk_construct copy ptr source m = copy_construct ptr source m
  bulk_construct move ptr source m = move_construct ptr source m

  unfoldable pub pop_extract : PopMethod → ℕ → ℕ → Memory W → Option (Memory W)
  unfolding move_assign move_construct
  pop_extract assign dest src m = move_assign dest src m
  pop_extract place dest src m = move_construct dest src m

  unfoldable pub conditional_destroy : ℕ → Memory W → Option (Memory W)
  unfolding destroy
  conditional_destroy i m = destroy i m
