-- ===== src/Task.antt =====
-- SPTask.hpp: handing the tasks of an I/O thread to the worker pool, one by one or in batches.
--
-- A task is its callback and the connection, named by its descriptor. `renableProc` is recorded: a
-- function returns the connections for which it was called, in order.
pub mod Batches
pub mod Tokens
pub mod Pending
pub mod Rounds
pub mod Settle
pub mod Accounts
pub mod Keeping
use spsock.Prelude.{
  ℕ, zero, suc, ◌+◌, ◌-◌, ◌%◌, List, [], ◌∷◌, ◌++◌, Option, none, some, Bool, true, false, u32, ltb,
  ◌==◌, if◌then◌else◌, length, get_or, set, slice, tabulate,
}
use spsock.ThreadPool
use spsock.ThreadPool.{ThreadPool}

pub data Proc : Type 0 where
  read_proc write_proc : Proc

pub record SockTask : Type 0 where
  pub proc : Proc
  pub ctx : ℕ

abbrev pub Pool : Type 0
Pool = ThreadPool SockTask

-- `UtilTaskTcp_Single::append`: the flag, the pool and the connections re-enabled.
unfoldable pub append_single : SockTask → Bool → Pool → Bool × Pool × List ℕ
append_single t flag p =
    let (ok, p') = ThreadPool.emplace t p in
    let first = if flag then [] else t.ctx ∷ [] in
    if ok then (flag, p', first) else (false, p', first ++ (t.ctx ∷ []))

-- `UtilTaskTcp_Multipe`.
pub record Batch : Type 0 where
  pub flag : Bool
  pub back : ℕ
  pub front : ℕ
  pub size : ℕ
  pub tasks : List SockTask

abbrev pub no_task : SockTask
no_task = record { proc = read_proc; ctx = 0 }

-- What one round of `commit` hands to the pool, and how much of it was taken.
unfoldable pub submit : List SockTask → Pool → ℕ × Pool
submit ts p =
    if length ts == 1
    then (let (ok, p') = ThreadPool.append (get_or ts 0 no_task) p in (if ok then 1 else 0, p'))
    else ThreadPool.append_bulk ts p

-- `commit`, which calls itself: `none` when the fuel is out; `cap` is THREADPOOL_BATCH_SIZE_SUBMIT.
unfoldable pub commit : ℕ → ℕ → Batch → Pool → Option (Batch × Pool × List ℕ)
commit zero cap b p = none
commit (suc fuel) cap b p =
    let distance = u32 (cap + 4294967296 - b.back) in
    let num = if ltb b.size distance then b.size else distance in
    let (submitted, p') = submit (slice b.tasks b.back num) p in
    let b' = record b { size = u32 (b.size + 4294967296 - num); back = u32 (b.back + num) % cap } in
    let again = commit fuel cap b' p' in
    if b.size == 0
    then some (b, p, [])
    else (if submitted == num
        then (if b'.size == 0 then some (b', p', []) else again)
        else some (
          record b { back = b.front; size = 0; flag = false },
          p',
          tabulate (num - submitted)
              (λ i. (get_or b.tasks (u32 (b.back + submitted + i) % cap) no_task).ctx),
        ))

unfoldable pub append_batch : ℕ → SockTask → Batch → Pool → Option (Batch × Pool × List ℕ)
append_batch cap t b p =
    let first = if b.flag then [] else t.ctx ∷ [] in
    let b' = record b {
      tasks = set b.tasks b.front t;
      front = u32 (b.front + 1) % cap;
      size = u32 (b.size + 1);
    } in
    let done = commit 3 cap b' p in
    if b'.size == cap
    then elim done [ none ↦ none | some (b'', p', more) ↦ some (b'', p', first ++ more) ]
    else some (b', p, first)

-- `UtilTaskTcp`.
pub record UtilTask : Type 0 where
  pub ts_flag : Bool
  pub tm : Batch

-- `init`, with the array that `new` made.
unfoldable pub init : ℕ → List SockTask → UtilTask
init cap array = record {
  ts_flag = true;
  tm = record {
    flag = true;
    back = 0;
    front = 0;
    size = 0;
    tasks = if cap == 1 then [] else array;
  };
}

unfoldable pub append : ℕ → SockTask → UtilTask → Pool → Option (UtilTask × Pool × List ℕ)
append cap t u p =
    let (flag, p', done) = append_single t u.ts_flag p in
    let batch = append_batch cap t u.tm p in
    if cap == 1
    then some (record u { ts_flag = flag }, p', done)
    else elim batch [ none ↦ none | some (b, p'', more) ↦ some (record u { tm = b }, p'', more) ]

unfoldable pub reset : ℕ → UtilTask → Pool → Option (UtilTask × Pool × List ℕ)
reset cap u p =
    let flushed = commit 3 cap u.tm p in
    if cap == 1 then some (record u { ts_flag = true }, p, []) else elim flushed [
      | none ↦ none
      | some (b, p', done) ↦ some (record u { tm = record b { flag = true } }, p', done)
    ]
