-- ===== src/Controller/Transmit.antt =====
-- `commitWrite` and `writeBack`: the loops end, and every byte is either still in its buffer or has
-- gone out, once and in order.
use spsock.Prelude.{
  ℕ, zero, suc, ◌+◌, ◌≤◌, ◌<◌, ◌≡◌, refl, sym, ap, ◌∙◌, ◌⊎◌, inl, inr, List, [], ◌∷◌, ◌++◌, Option,
  none, some, Bool-cases, append-nil, append_assoc, arith, length, length-drop, length-take, take,
  drop, take-append-drop, ltb, ◌==◌, if◌then◌else◌, ℤ, pos, negsuc,
}
use spsock.Buffer
use spsock.Buffer.{Buffer, bytes_read}
use spsock.Buffer.Valid.{IsValid, contents, length-contents, distance_bounds}
use spsock.Buffer.Advance.{commit_read_lem, at_read_ptr_lem}
use spsock.Socket.{Socket}
use spsock.Controller.{Controller, write_inner, commit_loop, commit_write}
use spsock.Controller.Retry.{Writes, write_inner-Writes}

take-take : (n m : ℕ) (xs : List ℕ) → n ≤ m → take n (take m xs) ≡ take n xs
take-take zero m xs h = refl
take-take (suc n) zero xs h = absurd (omega arith)
take-take (suc n) (suc m) [] h = refl
take-take (suc n) (suc m) (x ∷ xs) h = ap (◌∷◌ x) (take-take n m xs (omega arith))

module _ (sock : Socket) where
  open sock use {State, wire}

  -- From one buffer and socket to another: what went out was taken from the front of the contents.
  pub record Moved (b : Buffer) (s : State) (b' : Buffer) (s' : State) : Type 0 where
    pub valid : IsValid b'
    pub shrinks : b'.size ≤ b.size
    pub conserved : wire s' ++ contents b' ≡ wire s ++ contents b

  pub Moved-trans :
      (b b1 b2 : Buffer) (s s1 s2 : State) → Moved b s b1 s1 → Moved b1 s1 b2 s2 → Moved b s b2 s2
  Moved-trans b b1 b2 s s1 s2 h k = record {
    valid = k.valid;
    shrinks = omega (arith, h.shrinks, k.shrinks);
    conserved = k.conserved ∙ h.conserved;
  }

  pub Moved-still : (b : Buffer) (s t : State) → IsValid b → wire t ≡ wire s → Moved b s b t
  Moved-still b s t v e = record {
    valid = v;
    shrinks = omega arith;
    conserved = ap (λ k. k ++ contents b) e;
  }

  -- One successful call of `writeInner` at the read pointer, with `commitRead`.
  pub Moved-step :
      (b : Buffer) (s t : State) (n : ℕ)
      → IsValid b
      → n ≤ length (Buffer.at_read_ptr b (Buffer.distance_read b))
      → wire t ≡ wire s ++ take n (Buffer.at_read_ptr b (Buffer.distance_read b))
      → Moved b s (Buffer.commit_read n b) t × ((Buffer.commit_read n b).size + n ≡ b.size)
  Moved-step b s t n v le e =
      let d = distance_bounds v in
      let a = at_read_ptr_lem (Buffer.distance_read b) v (omega arith) in
      let here : length (Buffer.at_read_ptr b (Buffer.distance_read b)) ≤ Buffer.distance_read b =
        omega (arith, ap length a, length-take (Buffer.distance_read b) (contents b)) in
      let c = commit_read_lem n v (omega arith) in
      let size : (Buffer.commit_read n b).size + n ≡ b.size = omega (
        arith,
        ap length c.1,
        length-drop n (contents b),
        length-contents b,
        length-contents (Buffer.commit_read n b),
      ) in
      (
        record {
          valid = c.0;
          shrinks = omega arith;
          conserved =
              ap (◌++◌ (wire t)) c.1
              ∙ ap (λ k. k ++ drop n (contents b)) e
              ∙ append_assoc (wire s) _ (drop n (contents b))
              ∙ ap (◌++◌ (wire s)) (
                  ap (λ k. take n k ++ drop n (contents b)) a
                  ∙ ap (λ k. k ++ drop n (contents b))
                      (take-take n (Buffer.distance_read b) (contents b) (omega arith))
                  ∙ take-append-drop n (contents b));
        },
        size,
      )

  -- What `commitWrite` does to the write buffer: the answer is the number of bytes left, or -1.
  abbrev pub Flushed : Buffer → State → Option (ℤ × Buffer × State) → Type 0
  Flushed b s none = ⊥
  Flushed b s (some (ret, b', s')) = Moved b s b' s' × ((ret ≡ pos b'.size) ⊎ (ret ≡ negsuc 0))

  Flushed-trans :
      (b b1 : Buffer) (s s1 : State) (r : Option (ℤ × Buffer × State))
      → Moved b s b1 s1
      → Flushed b1 s1 r
      → Flushed b s r
  Flushed-trans b b1 s s1 none m h = h
  Flushed-trans b b1 s s1 (some (ret, b', s')) m h = (Moved-trans b b1 b' s s1 s' m h.0, h.1)

  commit_loop-Flushed :
      (fuel : ℕ) (b : Buffer) (s : State)
      → IsValid b
      → b.size < fuel
      → Flushed b s (commit_loop sock fuel b s)
  unfolding commit_loop bytes_read
  commit_loop-Flushed zero b s v h = absurd (omega arith)
  commit_loop-Flushed (suc fuel) b s v h = elim (Bool-cases (Buffer.distance_read b == 0)) [
    | inl empty ↦
        let z = (distance_bounds v).5.0 in
        rw empty (Moved-still b s s v refl, inl (ap pos (sym (z (ground arith)))))
    | inr more ↦ rw more (
        given (write_inner sock bytes s).0 (write_inner sock bytes s).1
          (write_inner-Writes sock bytes s) (λ b' s'. commit_loop-Flushed fuel b' s'))
  ]
    where
      len : ℕ
      len = Buffer.distance_read b

      bytes : List ℕ
      bytes = Buffer.at_read_ptr b len

      Rest : Type 0
      Rest =
          (b' : Buffer) (s' : State)
          → IsValid b'
          → b'.size < fuel
          → Flushed b' s' (commit_loop sock fuel b' s')

      onward :
          (n : ℕ) (t : State)
          → n ≤ length bytes
          → 0 < n
          → wire t ≡ wire s ++ take n bytes
          → Rest
          → Flushed b s (
              let b' = Buffer.commit_read n b in
              if ltb n len then some (pos (bytes_read b'), b', t) else commit_loop sock fuel b' t)
      onward n t le new e ih =
          let (m, size) = Moved-step b s t n v le e in
          let b' = Buffer.commit_read n b in
          elim (Bool-cases (ltb n len)) [
            | inl short ↦ rw short (m, inl refl)
            | inr whole ↦ rw whole (Flushed-trans b b' s t _ m (ih b' t m.valid (omega arith)))
          ]

      given :
          (ret : ℤ) (t : State)
          → Writes sock bytes s (ret, t)
          → Rest
          → Flushed b s (elim ret [
            | negsuc n ↦ some (negsuc n, b, t)
            | pos n ↦
                if n == 0
                then some (pos (bytes_read b), b, t)
                else (let b' = Buffer.commit_read n b in
                    let rest = commit_loop sock fuel b' t in
                    if ltb n len then some (pos (bytes_read b'), b', t) else rest)
          ])
      given (negsuc k) t (inl (n, e, le, w)) ih = absurd (ground arith)
      given (negsuc k) t (inr (e, w)) ih = (Moved-still b s t v w, inr e)
      given (pos k) t (inr (e, w)) ih = absurd (ground arith)
      given (pos k) t (inl (n, e, le, w)) ih =
          let same : k ≡ n = ground arith in
          elim (Bool-cases (k == 0)) [
            | inl nothing ↦
                let none_out : n ≡ 0 = ground arith in
                rw nothing (
                  Moved-still b s t v
                      (w ∙ ap (λ j. wire s ++ take j bytes) none_out ∙ append-nil (wire s)),
                  inl refl,
                )
            | inr new ↦ rw new (
                onward k t (omega arith) (ground arith)
                  (w ∙ ap (λ j. wire s ++ take j bytes) (sym same)) ih)
          ]

  -- What `commitWrite` promises of a controller with a valid write buffer.
  abbrev pub Committed : Controller → State → Option (ℤ × Controller × State) → Type 0
  Committed c s none = ⊥
  Committed c s (some (ret, c', s')) =
      IsValid c'.write_buf
      × (wire s' ++ contents c'.write_buf ≡ wire s ++ contents c.write_buf)
      × ((ret ≡ pos c'.write_buf.size) ⊎ (ret ≡ negsuc 0))
      × (c'.read_buf ≡ c.read_buf)

  -- With a valid write buffer `commitWrite` always returns, on errors too: what has gone out
  -- followed by what is left in the buffer is what was there before, the buffer stays valid, the
  -- read buffer is not touched, and the answer is the number of bytes left, or -1.
  pub commit_write-Committed :
      (c : Controller) (s : State) → IsValid c.write_buf → Committed c s (commit_write sock c s)
  unfolding commit_write bytes_read
  commit_write-Committed c s v =
      given (commit_loop sock (suc c.write_buf.size) c.write_buf s)
        (commit_loop-Flushed (suc c.write_buf.size) c.write_buf s v (omega arith))
    where
      given :
          (r : Option (ℤ × Buffer × State))
          → Flushed c.write_buf s r
          → Committed c s (elim r [
            | none ↦ none
            | some (ret, b, s') ↦ some (ret, record c { write_buf = b }, s')
          ])
      given none h = h
      given (some (ret, b, s')) (m, e) = (m.valid, m.conserved, e, refl)
