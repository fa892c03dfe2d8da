-- ===== src/BufferPool/Alloc.antt =====
-- `Alloc`, and taking a node from a free list.
use spsock.Prelude.{
  ℕ, zero, suc, ◌+◌, ◌*◌, sym, ◌∙◌, ◌/◌, ◌≤◌, ◌<◌, ◌≡◌, ◌≢◌, refl, ap, inl, inr, List, [], ◌∷◌,
  Option, none, some, Bool-cases, Option-cases, arith, length, ltb,
}
use native.Mathlib.Decide.{dec_lt}
use spsock.Config.{TcpConfig}
use spsock.BufferPool.{
  Node, Pool, Malloc, total_size, peer_read_bsize, peer_write_bsize, Fits, link, try_alloc,
  alloc_from, alloc, pop_read, pop_write,
}
use spsock.BufferPool.Counts.{Inv, IsFresh, count_in, link-Inv}

-- What `Alloc` promises: the invariant, and a node in each free list.
abbrev pub Filled : List Node → Option Pool → Type 0
Filled out none = Unit {0}
Filled out (some q) = Inv q out × (q.r_buffers ≢ []) × (q.w_buffers ≢ [])

link-Filled :
    (c : TcpConfig) (p : Pool) (out : List Node) (num buf : ℕ)
    → Inv p out
    → p.blocks buf ≡ none
    → 0 < num
    → num ≤ 1024
    → Filled out (some (link c num buf p))
unfolding link
link-Filled c p out zero buf v free pos le = absurd (omega arith)
link-Filled c p out (suc k) buf v free pos le =
    (link-Inv c (suc k) buf v free pos le, (λ e. cc), (λ e. cc))

try_alloc-Filled :
    (c : TcpConfig) (malloc : Malloc) (p : Pool) (out : List Node) (num : ℕ)
    → Inv p out
    → IsFresh malloc p
    → 0 < num
    → num ≤ 1024
    → Filled out (try_alloc c malloc num p)
unfolding try_alloc
try_alloc-Filled c malloc p out num v fresh pos le =
    elim (Option-cases (malloc (total_size c num))) [
      | inl e ↦ rw (e, try_alloc) tt
      | inr (buf, e) ↦ rw (e, try_alloc) (link-Filled c p out num buf v (fresh _ buf e) pos le)
    ]

alloc_from-Filled :
    (fuel : ℕ) (c : TcpConfig) (malloc : Malloc) (num : ℕ) (p : Pool) (out : List Node)
    → Inv p out
    → IsFresh malloc p
    → num ≤ 1024
    → Filled out (alloc_from fuel c malloc num p)
unfolding alloc_from
alloc_from-Filled zero c malloc num p out v fresh le = tt
alloc_from-Filled (suc fuel) c malloc num p out v fresh le = elim (Bool-cases (ltb 0 num)) [
  | inl pos ↦ rw pos (
      after (try_alloc c malloc num p)
        (try_alloc-Filled c malloc p out num v fresh (ground arith) le)
        (alloc_from-Filled fuel c malloc (num / 2) p out v fresh (omega arith)))
  | inr stop ↦ rw stop tt
]
  where
    after :
        (first : Option Pool)
        → Filled out first
        → Filled out (alloc_from fuel c malloc (num / 2) p)
        → Filled out
            (elim first [ some p' ↦ some p' | none ↦ alloc_from fuel c malloc (num / 2) p ])
    after none f rest = rest
    after (some q) f rest = f

pub alloc-Filled :
    (c : TcpConfig) (malloc : Malloc) (p : Pool) (out : List Node)
    → Inv p out
    → IsFresh malloc p
    → c.buffer_pool_peer_alloc_num ≤ 1024
    → Filled out (alloc c malloc p)
unfolding alloc
alloc-Filled c malloc p out v fresh le = alloc_from-Filled _ c malloc _ p out v fresh le

try_alloc-eq-none :
    (c : TcpConfig) (malloc : Malloc) (num : ℕ) (p : Pool)
    → try_alloc c malloc num p ≡ none
    → malloc (total_size c num) ≡ none
unfolding try_alloc
try_alloc-eq-none c malloc num p e = ground arith

alloc_from_reaches_one :
    (fuel : ℕ) (c : TcpConfig) (malloc : Malloc) (num : ℕ) (p : Pool)
    → num < fuel
    → 0 < num
    → malloc (total_size c 1) ≢ none
    → alloc_from fuel c malloc num p ≢ none
unfolding alloc_from
alloc_from_reaches_one zero c malloc num p h pos one = absurd (omega arith)
alloc_from_reaches_one (suc fuel) c malloc num p h pos one = elim (dec_lt 1 num) [
  | yes more ↦
      ground
        (arith, alloc_from_reaches_one fuel c malloc (num / 2) p (omega arith) (omega arith) one)
  | no last ↦ let e : num ≡ 1 = omega arith in rw e (ground (arith, try_alloc-eq-none c malloc 1 p))
]

-- What `Alloc` has done when it succeeded: it has linked some block that `malloc` gave for its size,
-- which has not wrapped, of no more pairs of buffers than were asked for.
abbrev pub Linked : TcpConfig → Malloc → ℕ → Pool → Option Pool → Type 0
Linked c malloc num p none = Unit {0}
Linked c malloc num p (some q) =
    (k : ℕ) × (buf : ℕ) × (0 < k)
    × (k ≤ num)
    × (q ≡ link c k buf p)
    × (malloc (4 + (peer_read_bsize c + peer_write_bsize c) * k) ≡ some buf)

pub more_room : (x k num : ℕ) → k ≤ num → x * k ≤ x * num
more_room x k num le = grind arith

alloc_from-Linked :
    (fuel : ℕ) (c : TcpConfig) (malloc : Malloc) (num most : ℕ) (p : Pool)
    → Fits c most
    → num ≤ most
    → Linked c malloc most p (alloc_from fuel c malloc num p)
unfolding alloc_from try_alloc
alloc_from-Linked zero c malloc num most p fits le = tt
alloc_from-Linked (suc fuel) c malloc num most p fits le = elim (Bool-cases (ltb 0 num)) [
  | inr stop ↦ rw stop tt
  | inl go ↦
      let room = more_room (peer_read_bsize c + peer_write_bsize c) num most le in
      let plain : total_size c num ≡ 4 + (peer_read_bsize c + peer_write_bsize c) * num =
        ground (arith, room, fits) in
      let rest = alloc_from-Linked fuel c malloc (num / 2) most p fits (omega arith) in
      elim (Option-cases (malloc (total_size c num))) [
        | inl e ↦ rw (go, e, try_alloc) rest
        | inr (buf, e) ↦
            rw (go, e, try_alloc) (num, buf, ground arith, le, refl, sym (ap malloc plain) ∙ e)
      ]
]

pub alloc-Linked :
    (c : TcpConfig) (malloc : Malloc) (p : Pool)
    → Fits c c.buffer_pool_peer_alloc_num
    → Linked c malloc c.buffer_pool_peer_alloc_num p (alloc c malloc p)
unfolding alloc
alloc-Linked c malloc p fits = alloc_from-Linked _ c malloc _ _ p fits (omega arith)

-- With sizes that are an `int`, the halving of a positive request ends in success whenever a block of
-- one pair of buffers can be had: it has then linked a block of at least one pair and no more than were
-- asked for, of the size that those take.
pub alloc_reaches_one :
    (c : TcpConfig) (malloc : Malloc) (p : Pool)
    → 0 < c.buffer_pool_peer_alloc_num
    → Fits c c.buffer_pool_peer_alloc_num
    → malloc (total_size c 1) ≢ none
    → (alloc c malloc p ≢ none) × Linked c malloc c.buffer_pool_peer_alloc_num p (alloc c malloc p)
unfolding alloc
alloc_reaches_one c malloc p pos fits one =
    (alloc_from_reaches_one _ c malloc _ p (omega arith) pos one, alloc-Linked c malloc p fits)

-- What `GetBuffer` promises: a node that is from now on in use, or no change at all.
abbrev pub Gives : Pool → List Node → Option Node × Pool → Type 0
Gives p out (none, q) = q ≡ p
Gives p out (some n, q) = Inv q (n ∷ out)

pub pop_read-Inv :
    (p : Pool) (out : List Node) (n : Node) (rest : List Node)
    → p.r_buffers ≡ n ∷ rest
    → Inv p out
    → Inv (pop_read p (n ∷ rest)).1 (n ∷ out)
unfolding pop_read
pop_read-Inv p out n rest e v = record {
  rb_counted = omega (arith, v.rb_counted, ap length e);
  wb_counted = v.wb_counted;
  refs = λ b. omega (arith, v.refs b, ap (count_in b) e);
  live = v.live;
  small = v.small;
}

pub pop_write-Inv :
    (p : Pool) (out : List Node) (n : Node) (rest : List Node)
    → p.w_buffers ≡ n ∷ rest
    → Inv p out
    → Inv (pop_write p (n ∷ rest)).1 (n ∷ out)
unfolding pop_write
pop_write-Inv p out n rest e v = record {
  rb_counted = v.rb_counted;
  wb_counted = omega (arith, v.wb_counted, ap length e);
  refs = λ b. omega (arith, v.refs b, ap (count_in b) e);
  live = v.live;
  small = v.small;
}

pub pop_read-Gives :
    (p q : Pool) (out ns : List Node)
    → q.r_buffers ≡ ns
    → ns ≢ []
    → Inv q out
    → Gives p out (pop_read q ns)
unfolding pop_read
pop_read-Gives p q out [] e ne v = absurd (ne refl)
pop_read-Gives p q out (n ∷ rest) e ne v = pop_read-Inv q out n rest e v

pub pop_write-Gives :
    (p q : Pool) (out ns : List Node)
    → q.w_buffers ≡ ns
    → ns ≢ []
    → Inv q out
    → Gives p out (pop_write q ns)
unfolding pop_write
pop_write-Gives p q out [] e ne v = absurd (ne refl)
pop_write-Gives p q out (n ∷ rest) e ne v = pop_write-Inv q out n rest e v
