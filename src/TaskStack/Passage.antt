-- ===== src/TaskStack/Passage.antt =====
-- What assignment makes of tasks, and the way of a task through a queue.
use spsock.Prelude.{
  ℕ, ◌+◌, ◌<◌, ◌≡◌, ◌≢◌, refl, sym, ap, ◌∙◌, inl, inr, Option, none, some, arith, length,
  length-set, get_or-set_self, get_or-set_ne, Bool-cases, ◌==◌,
}
use mathlib.Core.Path.{subst}
use native.Mathlib.Decide.{ℕ_discrete}
use spsock.TaskStack.{
  TaskImpl, Memory, BulkMethod, copy, move, place, get_base, new_at, end_at, changed_at, run_impl,
  execute, copy_construct, move_construct, destroy, copy_assign, bulk_construct, pop_extract,
  conditional_destroy,
}
use spsock.TaskStack.Ops.{Lives, IsFree}
use spsock.TaskStack.Lifetime.{Lives-inside, ended, ended-IsFree}

module _ {W : Type 0} where
  -- What a move leaves of a task.
  abbrev pub left_of : TaskImpl W → TaskImpl W
  left_of t = record { kind = t.kind; storage = (t.kind.moved t.storage).1 }

  abbrev of_kind : (t : TaskImpl W) → t.kind.Stored → TaskImpl W
  of_kind t s = record { kind = t.kind; storage = s }

  copy_construct_lem :
      (m : Memory W) (i j : ℕ) (t : TaskImpl W)
      → get_base m j ≡ some t
      → copy_construct i j m ≡ some (new_at i t m)
  unfolding copy_construct
  copy_construct_lem m i j t e =
      rw (e, copy_construct)
        (ap (λ s. some (new_at i (of_kind t s) m)) (t.kind.same_copy t.storage))

  move_construct_lem :
      (m : Memory W) (i j : ℕ) (t : TaskImpl W)
      → get_base m j ≡ some t
      → move_construct i j m ≡ some (new_at i t (changed_at j (left_of t) m))
  unfolding move_construct
  move_construct_lem m i j t e =
      rw (e, move_construct)
        (ap (λ s. some (new_at i (of_kind t s) (changed_at j (left_of t) m)))
          (t.kind.same_move t.storage))

  -- Copy assignment gives the object at `i` the value of that at `j`, and changes no other object; nor
  -- does it change anything when the two are the same.
  pub copy_assign_lem :
      (i j : ℕ) (m : Memory W)
      → Lives m i
      → Lives m j
      → (m' : Memory W) × (copy_assign i j m ≡ some m')
        × (get_base m' i ≡ get_base m j)
        × ((k : ℕ) → i ≢ k → get_base m' k ≡ get_base m k)
  unfolding copy_assign
  copy_assign_lem i j m l (t, e) = elim (Bool-cases (i == j)) [
    | inl same ↦ rw same (m, refl, ap (get_base m) (ground arith), λ k ne. refl)
    | inr apart ↦
        let ne : i ≢ j = λ same. absurd (ground arith) in
        let m1 = end_at i m in
        let inside : i < length m1.places = (ended-IsFree m i l).0 in
        rw (apart, ended m i l)
          (
            new_at i t m1,
            copy_construct_lem m1 i j t (get_or-set_ne m.places i j none none ne ∙ e),
            get_or-set_self m1.places i (some t) none inside ∙ sym e,
            λ k other.
                get_or-set_ne m1.places i k (some t) none other
                ∙ get_or-set_ne m.places i k none none other,
          )
  ]

  -- What a worker does with a task that stands in the node at `j`, with the memory `i` for it.
  unfoldable pub consume : ℕ → ℕ → Memory W → Option (Memory W)
  unfolding pop_extract conditional_destroy execute destroy
  consume i j m = elim (pop_extract place i j m) [
    | none ↦ none
    | some m1 ↦ elim (conditional_destroy j m1) [
      | none ↦ none
      | some m2 ↦ elim (execute i m2) [ none ↦ none | some m3 ↦ destroy i m3 ]
    ]
  ]

  -- From the array of `pushBulk`, with the task at `source`, through the node at `j`.
  unfoldable pub passage : BulkMethod → ℕ → ℕ → ℕ → Memory W → Option (Memory W)
  unfolding bulk_construct consume
  passage method source j i m = elim (bulk_construct method j source m) [
    | none ↦ none
    | some m1 ↦ consume i j m1
  ]

  -- A task has been called once in the world of `m`, and `m` has the same tasks as before.
  abbrev Called : Memory W → TaskImpl W → Memory W → Type 1
  Called m t m' =
      (m'.world ≡ (run_impl t m.world).1)
      × ((k : ℕ) → get_base m' k ≡ get_base m k)
      × (m'.built ≡ m.built + 2)
      × (m'.gone ≡ m.gone + 2)

  consume_lem :
      (m : Memory W) (i j : ℕ) (t : TaskImpl W)
      → IsFree m i
      → IsFree m j
      → i ≢ j
      → (m' : Memory W) × (consume i j (new_at j t m) ≡ some m') × Called m t m'
  unfolding consume
  consume_lem m i j t (in_i, free_i) (in_j, free_j) ne =
      let en : j ≢ i = λ e. ne (sym e) in
      let m1 = new_at j t m in
      let long1 : length m1.places ≡ length m.places = length-set m.places j (some t) in
      let c1 = changed_at j (left_of t) m1 in
      let long2 : length c1.places ≡ length m1.places = length-set m1.places j (some (left_of t)) in
      let m2 = new_at i t c1 in
      let long3 : length m2.places ≡ length c1.places = length-set c1.places i (some t) in
      let m3 = end_at j m2 in
      let long4 : length m3.places ≡ length m2.places = length-set m2.places j none in
      let (t', w) = run_impl t m.world in
      let m4 : Memory W = record (changed_at i t' m3) { world = w } in
      let long5 : length m4.places ≡ length m3.places = length-set m3.places i (some t') in
      let here : get_base m1 j ≡ some t = get_or-set_self m.places j (some t) none in_j in
      let there : get_base m2 j ≡ some (left_of t) =
        get_or-set_ne c1.places i j (some t) none ne
        ∙ get_or-set_self m1.places j (some (left_of t)) none (omega arith) in
      let taken : get_base m3 i ≡ some t =
        get_or-set_ne m2.places j i none none en
        ∙ get_or-set_self c1.places i (some t) none (omega arith) in
      let run_there : get_base m4 i ≡ some t' =
        get_or-set_self m3.places i (some t') none (omega arith) in
      let popped : pop_extract place i j m1 ≡ some m2 =
        unfold pop_extract in move_construct_lem m1 i j t here in
      let cleared : conditional_destroy j m2 ≡ some m3 =
        unfold conditional_destroy in ended m2 j (left_of t, there) in
      let called : execute i m3 ≡ some m4 = unfold execute in rw (taken, execute) refl in
      rw (popped, consume, cleared, called, ended m4 i (t', run_there))
        (
          end_at i m4,
          refl,
          (
            refl,
            λ k. elim (ℕ_discrete i k) [
              | yes e ↦
                  subst (λ x. get_base (end_at i m4) x ≡ get_base m x) e
                    (get_or-set_self m4.places i none none (omega arith) ∙ sym free_i)
              | no other ↦
                  get_or-set_ne m4.places i k none none other
                  ∙ get_or-set_ne m3.places i k (some t') none other
                  ∙ elim (ℕ_discrete j k) [
                    | yes e ↦
                        subst (λ x. get_base m3 x ≡ get_base m x) e
                          (get_or-set_self m2.places j none none (omega arith) ∙ sym free_j)
                    | no other' ↦
                        get_or-set_ne m2.places j k none none other'
                        ∙ get_or-set_ne c1.places i k (some t) none other
                        ∙ get_or-set_ne m1.places j k (some (left_of t)) none other'
                        ∙ get_or-set_ne m.places j k (some t) none other'
                  ]
            ],
            omega arith,
            omega arith,
          ),
        )

  -- The task at `source` behind a copy and behind a move.
  abbrev pub source_after : BulkMethod → TaskImpl W → TaskImpl W
  source_after copy t = t
  source_after move t = left_of t

  -- A task that `pushBulk` copies or moves from an array to a node, and that a worker moves from there
  -- to memory of its own, is called once, as a call of the task in the array would have gone; behind it
  -- the node and that memory are free again, every other place holds what it held, but that a move has
  -- changed the one in the array, and two more objects have been constructed and destroyed.
  pub passage_lem :
      (method : BulkMethod) (source j i : ℕ) (m : Memory W) (t : TaskImpl W)
      → get_base m source ≡ some t
      → IsFree m j
      → IsFree m i
      → i ≢ j
      → (m' : Memory W) × (passage method source j i m ≡ some m')
        × (m'.world ≡ (run_impl t m.world).1)
        × (get_base m' source ≡ some (source_after method t))
        × ((k : ℕ) → source ≢ k → get_base m' k ≡ get_base m k)
        × (m'.built ≡ m.built + 2)
        × (m'.gone ≡ m.gone + 2)
  unfolding passage bulk_construct
  passage_lem copy source j i m t e free_j free_i ne =
      let (m', eq, (run_once, same, built, gone)) = consume_lem m i j t free_i free_j ne in
      rw (copy_construct_lem m j source t e, passage)
        (m', eq, run_once, same source ∙ e, (λ k other. same k), built, gone)
  passage_lem move source j i m t e free_j free_i ne =
      let m0 = changed_at source (left_of t) m in
      let inside : source < length m.places = Lives-inside m source (t, e) in
      let long : length m0.places ≡ length m.places =
        length-set m.places source (some (left_of t)) in
      let still : (k : ℕ) → IsFree m k → IsFree m0 k = λ k (lt, free). (
        omega (arith, long),
        get_or-set_ne m.places source k (some (left_of t)) none
              (λ at. absurd (ground (arith, e, free, ap (get_base m) at)))
            ∙ free,
      ) in
      let (m', eq, (run_once, same, built, gone)) =
        consume_lem m0 i j t (still i free_i) (still j free_j) ne in
      rw (move_construct_lem m j source t e, passage)
        (
          m',
          eq,
          run_once,
          same source ∙ get_or-set_self m.places source (some (left_of t)) none inside,
          (λ k other. same k ∙ get_or-set_ne m.places source k (some (left_of t)) none other),
          built,
          gone,
        )
