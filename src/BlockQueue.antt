-- ===== src/BlockQueue.antt =====
-- base/TPBlockQueue.hpp: the bounded queue of each worker thread.
--
-- The nodes form a ring that `init` links and nothing relinks, so a pointer to a node is its index,
-- and `->next` is the next index round the ring. A slot without a constructed element is `none`.
-- Every operation holds the mutex from its first read to its last write, so each is one step; what a
-- blocking call finds when its wait is over is the queue that it is given, and `success` what
-- `wait_for` returned. `wake` says what the operation tells the condition variable. That an element
-- is copied or moved makes no difference here: `METHOD` and `M` are left out.
pub mod Ring
pub mod Fifo
pub mod Bounded
use spsock.Prelude.{
  ℕ, zero, suc, ◌+◌, ◌-◌, ◌≤◌, List, [], ◌∷◌, Option, none, some, Bool, true, false, not, ◌&&◌,
  ◌||◌, u32, min, ltb, ◌==◌, if◌then◌else◌, length, get_or, set, replicate,
}

pub record Queue {ℓ} (A : Type ℓ) : Type ℓ where
  pub nodes : Option (List (Option A))
  pub is_stopped : Bool
  pub size : ℕ
  pub max_size : ℕ
  pub head : ℕ
  pub tail : ℕ

pub data Wake : Type 0 where
  nobody one everybody : Wake

module _ {ℓ} {A : Type ℓ} where
  -- The constructor; the fields that it leaves unset are 0.
  unfoldable pub new : Queue A
  new = record { nodes = none; is_stopped = false; size = 0; max_size = 0; head = 0; tail = 0 }

  -- `init`; `got_memory` is whether the allocation succeeds.
  unfoldable pub init : Bool → ℕ → Queue A → Bool × Queue A
  init got_memory capacity q = elim q.nodes [
    | some ns ↦ (false, q)
    | none ↦ if capacity == 0 || not got_memory then (false, q) else (
      true,
      record q {
        nodes = some (replicate capacity none);
        size = 0;
        max_size = capacity;
        head = 0;
        tail = 0;
      },
    )
  ]

  -- `p->next`.
  abbrev pub next : Queue A → ℕ → ℕ
  next q i = if suc i == q.max_size then 0 else suc i

  -- The slots; none before `init`.
  abbrev pub slots : Queue A → List (Option A)
  slots q = elim q.nodes [ none ↦ [] | some ns ↦ ns ]

  -- Construction of an element at the tail, and its removal from the head.
  unfoldable pub put : A → Queue A → Queue A
  put a q = record q { nodes = some (set (slots q) q.tail (some a)); tail = next q q.tail }

  unfoldable pub take_out : Queue A → Option A × Queue A
  take_out q = (
    get_or (slots q) q.head none,
    record q { nodes = some (set (slots q) q.head none); head = next q q.head },
  )

  -- `push`, and `emplace` with the element that its arguments make.
  unfoldable pub push : A → Queue A → (Bool × Wake) × Queue A
  push a q =
      if q.size == q.max_size
      then ((false, nobody), q)
      else ((true, one), put a (record q { size = u32 (q.size + 1) }))

  unfoldable pub emplace : A → Queue A → (Bool × Wake) × Queue A
  emplace a q =
      if q.size == q.max_size
      then ((false, nobody), q)
      else ((true, one), put a (record q { size = u32 (q.size + 1) }))

  -- The loop of `pushBulk`: the first `n` elements of the array.
  unfoldable pub put_all : ℕ → List A → Queue A → Queue A
  put_all zero xs q = q
  put_all (suc n) [] q = q
  put_all (suc n) (a ∷ xs) q = put_all n xs (put a q)

  -- `pushBulk` of an array that holds `count` elements.
  unfoldable pub push_bulk : List A → Queue A → (ℕ × Wake) × Queue A
  push_bulk xs q =
      let count = length xs in
      let available = u32 (q.max_size + 4294967296 - q.size) in
      let to_push = min count available in
      if count == 0 || available == 0 then ((0, nobody), q) else (
        (to_push, if to_push == 1 then one else everybody),
        (let q' = put_all to_push xs q in record q' { size = u32 (q'.size + to_push) }),
      )

  -- The part of `pop` and `wait_pop` behind their tests.
  unfoldable pub pop_one : Queue A → Option A × Queue A
  pop_one q = take_out (record q { size = u32 (q.size + 4294967295) })

  -- `pop`: whether an element was there, the element, and the queue.
  unfoldable pub pop : Queue A → (Bool × Option A) × Queue A
  pop q = if q.size == 0 then ((false, none), q) else (let (a, q') = pop_one q in ((true, a), q'))

  -- The condition that ends a wait.
  unfoldable pub ready : Queue A → Bool
  ready q = not (q.size == 0) || q.is_stopped

  -- `wait_pop(element)`; `none` while the wait goes on.
  unfoldable pub wait_pop : Queue A → Option ((Bool × Option A) × Queue A)
  wait_pop q =
      if ready q
      then some
          (if q.size == 0 then ((false, none), q) else (let (a, q') = pop_one q in ((true, a), q')))
      else none

  -- `wait_pop(element, timeout)`.
  unfoldable pub wait_pop_for : Bool → Queue A → (Bool × Option A) × Queue A
  wait_pop_for success q =
      if not success || q.size == 0
      then ((false, none), q)
      else (let (a, q') = pop_one q in ((true, a), q'))

  -- The loop of the bulk removals.
  unfoldable pub take_all_out : ℕ → Queue A → List (Option A) × Queue A
  take_all_out zero q = ([], q)
  take_all_out (suc n) q =
      let (a, q') = take_out q in let (xs, q'') = take_all_out n q' in (a ∷ xs, q'')

  unfoldable pub pop_some : ℕ → Queue A → List (Option A) × Queue A
  pop_some n q =
      let (xs, q') = take_all_out n q in (xs, record q' { size = u32 (q'.size + 4294967296 - n) })

  -- `popBulk`: what was put into the array, as many elements as the count that is returned.
  unfoldable pub pop_bulk : ℕ → Queue A → List (Option A) × Queue A
  pop_bulk count q = if count == 0 || q.size == 0 then ([], q) else pop_some (min count q.size) q

  unfoldable pub wait_pop_bulk : ℕ → Queue A → Option (List (Option A) × Queue A)
  wait_pop_bulk count q =
      if count == 0
      then some ([], q)
      else (if ready q
          then some (if q.size == 0 then ([], q) else pop_some (min count q.size) q)
          else none)

  unfoldable pub wait_pop_bulk_for : Bool → ℕ → Queue A → List (Option A) × Queue A
  wait_pop_bulk_for success count q =
      if count == 0 || (not success || q.size == 0) then ([], q) else pop_some (min count q.size) q

  unfoldable pub stop_wait : Queue A → Wake × Queue A
  stop_wait q = (everybody, record q { is_stopped = true })

  -- `release`: the elements that are destroyed, from the head on.
  unfoldable pub release : Queue A → List (Option A) × Queue A
  release q = elim q.nodes [
    | none ↦ ([], q)
    | some ns ↦ ((take_all_out q.size q).0, record q { nodes = none; is_stopped = false })
  ]
