-- ===== src/BufferPool/Release.antt =====
-- `releaseAllBlocks` and `reset`: what the pool frees when it is taken down.
use spsock.Prelude.{
  ℕ, ◌+◌, ◌≤◌, ◌≡◌, ◌≢◌, refl, ◌∙◌, ap, inl, inr, List, [], ◌∷◌, Option, none, some, Option-cases,
  arith,
}
use spsock.BufferPool.{Node, Pool, unref, release_reads, release_writes, release_all_blocks, reset}
use spsock.BufferPool.Counts.{Inv, count_in, count_of}

-- Between the steps of the loops the size fields lag behind the lists; this is what is left of the
-- invariant.
pub record Counted (p : Pool) (out : List Node) : Type 0 where
  pub refs :
      (b : ℕ)
      → count_of (p.blocks b) ≡ count_in b p.r_buffers + count_in b p.w_buffers + count_in b out
  pub live : (b : ℕ) → p.blocks b ≢ some 0
  pub small : (b : ℕ) → count_of (p.blocks b) ≤ 2048

-- What dropping one node does.
abbrev Dropped : Pool → List Node → Option Pool → Type 0
Dropped p out none = ⊥
Dropped p out (some q) = Counted q out × (q.r_buffers ≡ p.r_buffers) × (q.w_buffers ≡ p.w_buffers)

unref-Dropped :
    (p : Pool) (n : Node) (out : List Node) → Counted p (n ∷ out) → Dropped p out (unref p n.block)
unfolding unref
unref-Dropped p n out v = elim (Option-cases (p.blocks n.block)) [
  | inl e ↦ absurd (ground (arith, v.refs n.block))
  | inr (k, e) ↦
      let here : count_of (some k)
          ≡ count_in n.block p.r_buffers
            + count_in n.block p.w_buffers
            + count_in n.block (n ∷ out) =
        omega (arith, v.refs n.block, ap count_of e) in
      let low : count_of (some k) ≤ 2048 = omega (arith, v.small n.block, ap count_of e) in
      rw (e, unref)
        (
          record {
            refs = λ b. ground (arith, v.refs b, here, low);
            live = λ b. ground (arith, v.live b, here, low);
            small = λ b. ground (arith, v.small b, here, low);
          },
          refl,
          refl,
        )
]

-- What a loop of `releaseAllBlocks` promises of the read list, and of the write list.
abbrev ReadsReleased : Pool → List Node → Option Pool → Type 0
ReadsReleased p out none = ⊥
ReadsReleased p out (some q) = Counted q out × (q.r_buffers ≡ []) × (q.w_buffers ≡ p.w_buffers)

abbrev WritesReleased : Pool → List Node → Option Pool → Type 0
WritesReleased p out none = ⊥
WritesReleased p out (some q) = Counted q out × (q.w_buffers ≡ []) × (q.r_buffers ≡ p.r_buffers)

release_reads_lem :
    (ns : List Node) (p : Pool) (out : List Node)
    → p.r_buffers ≡ ns
    → Counted p out
    → ReadsReleased p out (release_reads p ns)
unfolding release_reads
release_reads_lem [] p out e v = (
  record { refs = λ b. omega (arith, v.refs b, ap (count_in b) e); live = v.live; small = v.small },
  refl,
  refl,
)
release_reads_lem (n ∷ rest) p out e v =
    after (unref (record p { r_buffers = rest }) n.block)
      (unref-Dropped (record p { r_buffers = rest }) n out
        (record {
          refs = λ b. omega (arith, v.refs b, ap (count_in b) e);
          live = v.live;
          small = v.small;
        }))
      (λ q. release_reads_lem rest q out)
  where
    after :
        (r : Option Pool)
        → Dropped (record p { r_buffers = rest }) out r
        → ((q : Pool)
            → q.r_buffers ≡ rest
            → Counted q out
            → ReadsReleased q out (release_reads q rest))
        → ReadsReleased p out (elim r [ none ↦ none | some p' ↦ release_reads p' rest ])
    after none d ih = d
    after (some q) d ih = onward (release_reads q rest) (ih q d.1 d.0)
      where
        onward : (r : Option Pool) → ReadsReleased q out r → ReadsReleased p out r
        onward none h = h
        onward (some t) h = (h.0, h.1, h.2 ∙ d.2)

release_writes_lem :
    (ns : List Node) (p : Pool) (out : List Node)
    → p.w_buffers ≡ ns
    → Counted p out
    → WritesReleased p out (release_writes p ns)
unfolding release_writes
release_writes_lem [] p out e v = (
  record { refs = λ b. omega (arith, v.refs b, ap (count_in b) e); live = v.live; small = v.small },
  refl,
  refl,
)
release_writes_lem (n ∷ rest) p out e v =
    after (unref (record p { w_buffers = rest }) n.block)
      (unref-Dropped (record p { w_buffers = rest }) n out
        (record {
          refs = λ b. omega (arith, v.refs b, ap (count_in b) e);
          live = v.live;
          small = v.small;
        }))
      (λ q. release_writes_lem rest q out)
  where
    after :
        (r : Option Pool)
        → Dropped (record p { w_buffers = rest }) out r
        → ((q : Pool)
            → q.w_buffers ≡ rest
            → Counted q out
            → WritesReleased q out (release_writes q rest))
        → WritesReleased p out (elim r [ none ↦ none | some p' ↦ release_writes p' rest ])
    after none d ih = d
    after (some q) d ih = onward (release_writes q rest) (ih q d.2 d.0)
      where
        onward : (r : Option Pool) → WritesReleased q out r → WritesReleased p out r
        onward none h = h
        onward (some t) h = (h.0, h.1, h.2 ∙ d.1)

abbrev AllReleased : List Node → Option Pool → Type 0
AllReleased out none = ⊥
AllReleased out (some q) = Counted q out × (q.w_buffers ≡ []) × (q.r_buffers ≡ [])

release_all-AllReleased :
    (p : Pool) (out : List Node) → Inv p out → AllReleased out (release_all_blocks p)
unfolding release_all_blocks
release_all-AllReleased p out v = reads (release_reads p p.r_buffers) (
    release_reads_lem p.r_buffers p out refl
      (record { refs = v.refs; live = v.live; small = v.small }))
  where
    writes :
        (q : Pool) (r : Option Pool) → q.r_buffers ≡ [] → WritesReleased q out r → AllReleased out r
    writes q none e h = h
    writes q (some t) e h = (h.0, h.1, h.2 ∙ e)

    reads :
        (r : Option Pool)
        → ReadsReleased p out r
        → AllReleased out (elim r [ none ↦ none | some p' ↦ release_writes p' p'.w_buffers ])
    reads none h = h
    reads (some q) h = writes q _ h.1 (release_writes_lem q.w_buffers q out refl h.0)

-- What `reset` promises: no fault, and a block stays allocated exactly while one of its buffers is
-- still in use, its count being their number.
abbrev pub ResetLeaves : List Node → Option Pool → Type 0
ResetLeaves out none = ⊥
ResetLeaves out (some q) = ((b : ℕ) → count_in b out ≡ 0 → q.blocks b ≡ none) × Inv q out

freed : (o : Option ℕ) → o ≢ some 0 → count_of o ≡ 0 → o ≡ none
freed none h e = refl
freed (some k) h e = absurd (h (ap some e))

-- Taking down a pool that satisfies the invariant reads no count of a freed block, frees every
-- block none of whose buffers is in use, and leaves a pool that satisfies the invariant for the
-- nodes in use.
pub reset_lem : (p : Pool) (out : List Node) → Inv p out → ResetLeaves out (reset p)
unfolding reset
reset_lem p out v = after (release_all_blocks p) (release_all-AllReleased p out v)
  where
    after :
        (r : Option Pool)
        → AllReleased out r
        → ResetLeaves out (elim r [
          | none ↦ none
          | some p' ↦ some (record p' { rb_size = 0; wb_size = 0; r_buffers = []; w_buffers = [] })
        ])
    after none h = h
    after (some q) (k, w, r) =
        let counts : (b : ℕ) → count_of (q.blocks b) ≡ count_in b out =
          λ b. omega (arith, k.refs b, ap (count_in b) w, ap (count_in b) r) in
        (
          (λ b e. freed (q.blocks b) (k.live b) (counts b ∙ e)),
          record {
            rb_counted = refl;
            wb_counted = refl;
            refs = λ b. omega (arith, counts b);
            live = k.live;
            small = k.small;
          },
        )
