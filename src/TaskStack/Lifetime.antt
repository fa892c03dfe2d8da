-- ===== src/TaskStack/Lifetime.antt =====
-- The lifetimes of tasks: each that is constructed is destroyed once, or still there.
use spsock.Prelude.{
  ℕ, ◌+◌, ◌<◌, ◌≡◌, ◌≢◌, refl, sym, ap, ◌∙◌, inl, inr, List, [], ◌∷◌, Option, none, some, Bool,
  true, false, ◌&&◌, arith, length, length-set, get_or-set_self, get_or-set_ne, get_or_past, total,
  total-set, Bool-cases, ◌==◌,
}
use native.Mathlib.Decide.{dec_lt}
use spsock.TaskStack.{
  TaskImpl, Memory, get_base, new_at, end_at, changed_at, run_impl, clone_to, move_to, construct,
  execute, copy_construct, move_construct, destroy, copy_assign, move_assign,
}
use spsock.TaskStack.Ops.{
  Op, constructs, executes, destroys, copies, moves, copy_assigns, move_assigns, step, steps, Lives,
  IsFree, lives, is_free, allowed, all_allowed,
}

both : (a b : Bool) → (a && b) ≡ true → (a ≡ true) × (b ≡ true)
both a b e = (ground arith, ground arith)

module _ {W : Type 0} where
  lives-Lives : (m : Memory W) (i : ℕ) → lives m i ≡ true → Lives m i
  lives-Lives m i e = found (get_base m i) refl e
    where
      found :
          (r : Option (TaskImpl W))
          → get_base m i ≡ r
          → elim r [ none ↦ false | some t ↦ true ] ≡ true
          → Lives m i
      found none e e' = absurd (ground arith)
      found (some t) e e' = (t, e)

  is_free-IsFree : (m : Memory W) (i : ℕ) → is_free m i ≡ true → IsFree m i
  is_free-IsFree m i e = (ground arith, nothing (get_base m i) refl (ground arith))
    where
      nothing :
          (r : Option (TaskImpl W))
          → get_base m i ≡ r
          → elim r [ none ↦ false | some t ↦ true ] ≡ false
          → get_base m i ≡ none
      nothing none e e' = e
      nothing (some t) e e' = absurd (ground arith)

  abbrev alive : Option (TaskImpl W) → ℕ
  alive none = 0
  alive (some t) = 1

  abbrev pub living : Memory W → ℕ
  living m = total alive m.places

  abbrev pub IsBalanced : Memory W → Type 0
  IsBalanced m = m.built ≡ m.gone + living m

  -- An operation that has a result, and keeps the balance.
  abbrev Keeps : Memory W → Option (Memory W) → Type 1
  Keeps m r = (m' : Memory W) × (r ≡ some m') × IsBalanced m' × (length m'.places ≡ length m.places)

  pub Lives-inside : (m : Memory W) (i : ℕ) → Lives m i → i < length m.places
  Lives-inside m i (t, e) = elim (dec_lt i (length m.places)) [
    | yes lt ↦ lt
    | no past ↦
        let nothing = get_or_past m.places i none (omega arith) in
        absurd (ground (arith, e, nothing))
  ]

  new_at-balance :
      (m : Memory W) (i : ℕ) (t : TaskImpl W)
      → IsFree m i
      → IsBalanced m
      → IsBalanced (new_at i t m)
  new_at-balance m i t (lt, e) b =
      let s = total-set alive m.places i (some t) none lt in omega (arith, s, ap alive e)

  end_at-balance : (m : Memory W) (i : ℕ) → Lives m i → IsBalanced m → IsBalanced (end_at i m)
  end_at-balance m i (t, e) b =
      let s = total-set alive m.places i none none (Lives-inside m i (t, e)) in
      omega (arith, s, ap alive e)

  changed_at-balance :
      (m : Memory W) (i : ℕ) (t : TaskImpl W)
      → Lives m i
      → IsBalanced m
      → IsBalanced (changed_at i t m)
  changed_at-balance m i t' (t, e) b =
      let s = total-set alive m.places i (some t') none (Lives-inside m i (t, e)) in
      omega (arith, s, ap alive e)

  -- What is free stands apart from what lives.
  apart : (m : Memory W) (i j : ℕ) → IsFree m i → Lives m j → i ≢ j
  apart m i j (lt, e) (t, e') same = absurd (ground (arith, e, e', ap (get_base m) same))

  copies-Keeps :
      (m : Memory W) (i j : ℕ)
      → IsFree m i
      → Lives m j
      → IsBalanced m
      → Keeps m (copy_construct i j m)
  unfolding copy_construct
  copies-Keeps m i j free (t, e) b =
      rw (e, copy_construct)
        (clone_to t i m, refl, new_at-balance m i _ free b, length-set m.places i _)

  moves-Keeps :
      (m : Memory W) (i j : ℕ)
      → IsFree m i
      → Lives m j
      → IsBalanced m
      → Keeps m (move_construct i j m)
  unfolding move_construct
  moves-Keeps m i j free (t, e) b =
      let left : TaskImpl W = record { kind = t.kind; storage = (t.kind.moved t.storage).1 } in
      let m1 = changed_at j left m in
      let free1 : IsFree m1 i = (
        omega (arith, length-set m.places j (some left), free.0),
        get_or-set_ne m.places j i (some left) none (λ e'. apart m i j free (t, e) (sym e'))
            ∙ free.1,
      ) in
      rw (e, move_construct)
        (
          move_to j t i m,
          refl,
          new_at-balance m1 i _ free1 (changed_at-balance m j left (t, e) b),
          length-set m1.places i _ ∙ length-set m.places j _,
        )

  -- Behind the destructor at `i`.
  pub ended : (m : Memory W) (i : ℕ) → Lives m i → destroy i m ≡ some (end_at i m)
  unfolding destroy
  ended m i (t, e) = rw (e, destroy) refl

  pub ended-IsFree : (m : Memory W) (i : ℕ) → Lives m i → IsFree (end_at i m) i
  ended-IsFree m i l =
      let lt = Lives-inside m i l in
      (omega (arith, length-set m.places i none), get_or-set_self m.places i none none lt)

  pub ended_other : (m : Memory W) (i j : ℕ) → i ≢ j → Lives m j → Lives (end_at i m) j
  ended_other m i j ne (t, e) = (t, get_or-set_ne m.places i j none none ne ∙ e)

  longer : (m : Memory W) (i : ℕ) (r : Option (Memory W)) → Keeps (end_at i m) r → Keeps m r
  longer m i r (m', e, b, len) = (m', e, b, len ∙ length-set m.places i none)

  copy_assigns-Keeps :
      (m : Memory W) (i j : ℕ) → Lives m i → Lives m j → IsBalanced m → Keeps m (copy_assign i j m)
  unfolding copy_assign
  copy_assigns-Keeps m i j l l' b = elim (Bool-cases (i == j)) [
    | inl e ↦ rw e (m, refl, b, refl)
    | inr e ↦
        let ne : i ≢ j = λ same. absurd (ground arith) in
        rw (e, ended m i l)
          (longer m i (copy_construct i j (end_at i m)) (
            copies-Keeps (end_at i m) i j (ended-IsFree m i l) (ended_other m i j ne l')
              (end_at-balance m i l b)))
  ]

  move_assigns-Keeps :
      (m : Memory W) (i j : ℕ) → Lives m i → Lives m j → IsBalanced m → Keeps m (move_assign i j m)
  unfolding move_assign
  move_assigns-Keeps m i j l l' b = elim (Bool-cases (i == j)) [
    | inl e ↦ rw e (m, refl, b, refl)
    | inr e ↦
        let ne : i ≢ j = λ same. absurd (ground arith) in
        rw (e, ended m i l)
          (longer m i (move_construct i j (end_at i m)) (
            moves-Keeps (end_at i m) i j (ended-IsFree m i l) (ended_other m i j ne l')
              (end_at-balance m i l b)))
  ]

  executes-Keeps : (m : Memory W) (i : ℕ) → Lives m i → IsBalanced m → Keeps m (execute i m)
  unfolding execute
  executes-Keeps m i (t, e) b =
      let t' = (run_impl t m.world).0 in
      rw (e, execute)
        (
          record (changed_at i t' m) { world = (run_impl t m.world).1 },
          refl,
          changed_at-balance m i t' (t, e) b,
          length-set m.places i (some t'),
        )

  step-Keeps : (o : Op W) (m : Memory W) → allowed o m ≡ true → IsBalanced m → Keeps m (step o m)
  unfolding construct
  step-Keeps (constructs i t) m e b = (
    new_at i t m,
    refl,
    new_at-balance m i t (is_free-IsFree m i e) b,
    length-set m.places i (some t),
  )
  step-Keeps (executes i) m e b = executes-Keeps m i (lives-Lives m i e) b
  step-Keeps (destroys i) m e b =
      let l = lives-Lives m i e in
      (end_at i m, ended m i l, end_at-balance m i l b, length-set m.places i none)
  step-Keeps (copies i j) m e b =
      let (f, l) = both (is_free m i) (lives m j) e in
      copies-Keeps m i j (is_free-IsFree m i f) (lives-Lives m j l) b
  step-Keeps (moves i j) m e b =
      let (f, l) = both (is_free m i) (lives m j) e in
      moves-Keeps m i j (is_free-IsFree m i f) (lives-Lives m j l) b
  step-Keeps (copy_assigns i j) m e b =
      let (l, l') = both (lives m i) (lives m j) e in
      copy_assigns-Keeps m i j (lives-Lives m i l) (lives-Lives m j l') b
  step-Keeps (move_assigns i j) m e b =
      let (l, l') = both (lives m i) (lives m j) e in
      move_assigns-Keeps m i j (lives-Lives m i l) (lives-Lives m j l') b

  -- Along every sequence of operations on tasks in which a constructor is given memory without a task
  -- and every other operation tasks that are there, each operation has a result, and as many tasks have
  -- been constructed as have been destroyed or are still there: assignments to itself included, none
  -- leaks and none is destroyed twice.
  pub steps-IsBalanced :
      (os : List (Op W)) (m : Memory W)
      → all_allowed m os ≡ true
      → IsBalanced m
      → (m' : Memory W) × (steps m os ≡ some m') × IsBalanced m'
  steps-IsBalanced [] m all b = (m, refl, b)
  steps-IsBalanced (o ∷ os) m all b =
      let (may, rest) = both (allowed o m) _ all in
      let (m', e, b', len) = step-Keeps o m may b in
      let next : all_allowed m' os ≡ true =
        ap (λ r. elim r [ none ↦ true | some m'' ↦ all_allowed m'' os ]) (sym e) ∙ rest in
      rw (e, steps) (steps-IsBalanced os m' next b')
