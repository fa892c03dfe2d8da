-- ===== src/ThreadPool/Start.antt =====
-- A pool that `init` has made is in good order, and nothing stands in it.
use spsock.Prelude.{
  ℕ, zero, suc, ◌<◌, ◌≡◌, refl, sym, ap, ◌∙◌, List, [], ◌∷◌, Option, none, some, Bool, true, false,
  arith, length, get_or, replicate, count_if, total,
}
use mathlib.Core.Path.{subst}
use native.Mathlib.Nat.{zero-mod}
use spsock.BlockQueue
use spsock.BlockQueue.{Queue}
use spsock.BlockQueue.Ring
use spsock.ThreadPool.{ThreadPool, init_queues, init}
use spsock.ThreadPool.Tally.{queued}
use spsock.ThreadPool.Workers.{mode_of, Phase, Worker, fresh, World}
use spsock.ThreadPool.Conserve.{IsSound}

length-replicate {ℓ} : {A : Type ℓ} (n : ℕ) (a : A) → length (replicate n a) ≡ n
length-replicate zero a = refl
length-replicate (suc n) a = ap suc (length-replicate n a)

module _ {ℓ} {A : Type ℓ} where
  -- A queue with `n` free slots.
  abbrev made : ℕ → Queue A
  made n = record {
    nodes = some (replicate n none);
    is_stopped = false;
    size = 0;
    max_size = n;
    head = 0;
    tail = 0;
  }

  made-IsValid : (n : ℕ) → 0 < n → n < 4294967296 → Ring.IsValid (made n)
  made-IsValid n pos small = record {
    sized = length-replicate n none;
    small = small;
    head_in = pos;
    fits = omega arith;
    ends = sym (zero-mod n);
  }

  -- What the loop that initialises the queues has made.
  abbrev IsLaidOut : List Bool → List (Queue A) → Type ℓ
  IsLaidOut ms qs =
      (length qs ≡ length ms)
      × ((i : ℕ) → i < length qs → Ring.IsValid (get_or qs i BlockQueue.new))
      × ((c : Option A → Bool) → total (queued c) qs ≡ 0)

  one_more :
      (m : Bool) (ms : List Bool) (n : ℕ)
      → (init_queues {A = A} (m ∷ ms) n).0 ≡ true
      → (0 < n)
        × ((init_queues {A = A} ms n).0 ≡ true)
        × ((init_queues {A = A} (m ∷ ms) n).1 ≡ made n ∷ (init_queues ms n).1)
  unfolding init_queues
  one_more m ms n e = (ground arith, ground arith, ground arith)

  IsLaidOut-cons :
      (m : Bool) (ms : List Bool) (n : ℕ) (qs : List (Queue A))
      → 0 < n
      → n < 4294967296
      → IsLaidOut ms qs
      → IsLaidOut (m ∷ ms) (made n ∷ qs)
  IsLaidOut-cons m ms n qs pos small (len, each, none_there) =
      (ap suc len, valid, λ c. omega (arith, none_there c))
    where
      valid : (i : ℕ) → i < suc (length qs) → Ring.IsValid (get_or (made n ∷ qs) i BlockQueue.new)
      valid zero lt = made-IsValid n pos small
      valid (suc i) lt = each i (omega arith)

  init_queues-IsLaidOut :
      (ms : List Bool) (n : ℕ)
      → n < 4294967296
      → (init_queues {A = A} ms n).0 ≡ true
      → IsLaidOut ms (init_queues ms n).1
  init_queues-IsLaidOut [] n small e =
      unfold init_queues in (refl, λ i lt. absurd (omega arith), λ c. refl)
  init_queues-IsLaidOut (m ∷ ms) n small e =
      let (pos, rest, eq) = one_more m ms n e in
      rw eq (
        IsLaidOut-cons m ms n (init_queues ms n).1 pos small
          (init_queues-IsLaidOut ms n small rest))

  -- The workers of a pool, at the start of their loops.
  abbrev pub crew_of : ThreadPool A → List (Worker A)
  crew_of p = replicate p.thread_num (fresh p)

  -- The world behind a call of `init` with the batch size `batch`.
  abbrev pub started : ℕ → ThreadPool A → World A
  started batch p = record {
    pool = p;
    mode = mode_of batch;
    crew = crew_of p;
    accepted = [];
    executed = [];
  }

  no_hands :
      (c : Option A → Bool) (n : ℕ) (ph : Phase)
      → total
          (λ (w : Worker A). count_if c w.hand)
          (replicate n (record { phase = ph; start = 0; hand = [] }))
        ≡ 0
  no_hands c zero ph = refl
  no_hands c (suc n) ph = omega (arith, no_hands c n ph)

  -- What a successful `init` has made, from its parts.
  init_parts :
      (ms : List Bool) (cores len threads batch : ℕ) (p : ThreadPool A)
      → (init ms cores len threads batch p).0 ≡ true
      → (0 < threads)
        × ((init_queues {A = A} ms len).0 ≡ true)
        × ((init ms cores len threads batch p).1.queues ≡ (init_queues ms len).1)
        × ((init ms cores len threads batch p).1.thread_num ≡ threads)
  unfolding init
  init_parts ms cores len threads batch p e =
      (ground arith, ground arith, ground arith, ground arith)

  pub started-IsSound :
      (ms : List Bool) (cores len threads batch : ℕ) (p : ThreadPool A)
      → length ms ≡ threads
      → threads < 2147483648
      → len < 4294967296
      → (init ms cores len threads batch p).0 ≡ true
      → IsSound (started batch (init ms cores len threads batch p).1)
  started-IsSound ms cores len threads batch p man few small e =
      let p' : ThreadPool A = (init ms cores len threads batch p).1 in
      let (pos, ok, qs, num) = init_parts ms cores len threads batch p e in
      let (many, each, none_there) : IsLaidOut ms p'.queues =
        subst (IsLaidOut ms) (sym qs) (init_queues-IsLaidOut ms len small ok) in
      record {
        pool_ok = record {
          sized = many ∙ man ∙ sym num;
          some_queue = omega arith;
          small = omega arith;
          each = each;
        };
        manned = length-replicate p'.thread_num (fresh p') ∙ num ∙ sym man ∙ sym many;
        balance = λ c. omega (arith, none_there c, no_hands c p'.thread_num (fresh p').phase);
      }
