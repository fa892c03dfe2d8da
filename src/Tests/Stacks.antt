-- ===== src/Tests/Stacks.antt =====
-- base/TPTask.h: a callable that appends its argument to a list and then adds one to the argument.
use spsock.Prelude.{ℕ, ◌≡◌, ◌≢◌, refl, List, [], ◌∷◌, ◌++◌, none, some, arith, suc}
use spsock.TaskStack
use spsock.TaskStack.{Callable, TaskImpl, Memory, move, get_base, run_impl}
use spsock.TaskStack.Ops.{Op, executes, destroys, copies, moves, copy_assigns, move_assigns, steps}
use spsock.TaskStack.Lifetime.{IsBalanced, steps-IsBalanced}
use spsock.TaskStack.Passage.{passage, passage_lem}

-- A move leaves 0 behind, as that of a string leaves an empty one.
abbrev appender : Callable (List ℕ)
appender = record {
  Stored = ℕ;
  call = λ n xs. (suc n, xs ++ (n ∷ []));
  copied = λ n. n;
  moved = λ n. (n, 0);
  same_copy = λ n. refl;
  same_move = λ n. refl;
}

abbrev task : ℕ → TaskImpl (List ℕ)
task n = record { kind = appender; storage = n }

-- Three places, of which the first has a task.
abbrev memory : Memory (List ℕ)
memory = record { places = some (task 4) ∷ none ∷ none ∷ []; world = []; built = 1; gone = 0 }

abbrev life : List (Op (List ℕ))
life =
    copies 1 0
    ∷ executes 1
    ∷ executes 1
    ∷ moves 2 0
    ∷ copy_assigns 1 1
    ∷ copy_assigns 1 2
    ∷ executes 1
    ∷ move_assigns 0 1
    ∷ destroys 1
    ∷ destroys 2
    ∷ destroys 0
    ∷ []

steps-IsBalanced_example : (m' : Memory (List ℕ)) × (steps memory life ≡ some m') × IsBalanced m'
unfolding TaskStack.copy_construct TaskStack.execute TaskStack.move_construct TaskStack.copy_assign
    TaskStack.move_assign
steps-IsBalanced_example = steps-IsBalanced life memory refl refl

life_world :
    steps memory life
    ≡ some
        (record { places = none ∷ none ∷ none ∷ []; world = 4 ∷ 5 ∷ 4 ∷ []; built = 5; gone = 5 })
unfolding TaskStack.copy_construct TaskStack.execute TaskStack.move_construct TaskStack.copy_assign
    TaskStack.move_assign
life_world = refl

passage_lem_example :
    (m' : Memory (List ℕ)) × (passage move 0 1 2 memory ≡ some m')
    × (m'.world ≡ 4 ∷ [])
    × (get_base m' 0 ≡ some (task 0))
    × ((k : ℕ) → 0 ≢ k → get_base m' k ≡ get_base memory k)
    × (m'.built ≡ 3)
    × (m'.gone ≡ 2)
passage_lem_example =
    passage_lem move 0 1 2 memory (task 4) refl (omega arith, refl) (omega arith, refl)
      (λ e. absurd (omega (arith, e)))
