-- ===== src/Controller/Receive.antt =====
-- `readSocket`: the loop ends, and what has arrived is in the read buffer.
use spsock.Prelude.{
  ℕ, zero, suc, ◌+◌, ◌-◌, ◌≤◌, ◌<◌, ◌≡◌, refl, sym, ap, ◌∙◌, inl, inr, List, [], ◌∷◌, ◌++◌, Option,
  none, some, Bool, true, false, Bool-cases, append-nil, append_assoc, arith, length, length-append,
  ltb, ◌==◌, if◌then◌else◌, ℤ, pos, negsuc,
}
use spsock.Buffer
use spsock.Buffer.{Buffer}
use spsock.Buffer.Valid.{IsValid, contents, length-contents, bytes_write_lem}
use spsock.Buffer.Write.{commit_write_lem, bsize-commit_write}
use spsock.Socket.{Socket}
use spsock.Controller.{Controller, read_inner, read_loop, read_socket}
use spsock.Controller.Retry.{Reads, read_inner-Reads}

empty_of : (n : ℕ) (bytes : List ℕ) → n ≡ length bytes → (n == 0) ≡ true → bytes ≡ []
empty_of n [] e h = refl
empty_of n (x ∷ xs) e h = absurd (ground arith)

module _ (sock : Socket) where
  open sock use {State, arrived}

  -- The result of a loop that reads: never without an answer, and the buffer, still valid, has
  -- gained just the bytes that have arrived meanwhile.
  abbrev pub Gained : Buffer → State → Option (Bool × Buffer × State) → Type 0
  Gained b s none = ⊥
  Gained b s (some (ok, b', s')) =
      IsValid b'
      × (b'.bsize ≡ b.bsize)
      × ((bytes : List ℕ) × (arrived s' ≡ arrived s ++ bytes) × (contents b' ≡ contents b ++ bytes))

  Gained-trans :
      (b b1 : Buffer) (s s1 : State) (bytes : List ℕ) (r : Option (Bool × Buffer × State))
      → b1.bsize ≡ b.bsize
      → arrived s1 ≡ arrived s ++ bytes
      → contents b1 ≡ contents b ++ bytes
      → Gained b1 s1 r
      → Gained b s r
  Gained-trans b b1 s s1 bytes none z a c h = h
  Gained-trans b b1 s s1 bytes (some (ok, b', s')) z a c (v, z', (more, a', c')) = (
    v,
    z' ∙ z,
    (
      bytes ++ more,
      a' ∙ ap (λ k. k ++ more) a ∙ append_assoc (arrived s) bytes more,
      c' ∙ ap (λ k. k ++ more) c ∙ append_assoc (contents b) bytes more,
    ),
  )

  Gained-refl :
      (ok : Bool) (b : Buffer) (s t : State) (bytes : List ℕ)
      → IsValid b
      → arrived t ≡ arrived s ++ bytes
      → bytes ≡ []
      → Gained b s (some (ok, b, t))
  Gained-refl ok b s t bytes v a e =
      (v, refl, ([], a ∙ ap (◌++◌ (arrived s)) e, sym (append-nil (contents b))))

  read_loop-Gained :
      (fuel : ℕ) (b : Buffer) (s : State)
      → IsValid b
      → b.bsize - b.size < fuel
      → Gained b s (read_loop sock fuel b s)
  unfolding read_loop
  read_loop-Gained zero b s v h = absurd (omega arith)
  read_loop-Gained (suc fuel) b s v h = elim (Bool-cases (Buffer.distance_write b == 0)) [
    | inl full ↦ rw full (Gained-refl true b s s [] v (sym (append-nil (arrived s))) refl)
    | inr room ↦ rw room (
        given (read_inner sock len s).0.0 (read_inner sock len s).0.1 (read_inner sock len s).1
          (read_inner-Reads sock len s) (λ b' s'. read_loop-Gained fuel b' s'))
  ]
    where
      len : ℕ
      len = Buffer.distance_write b

      onward :
          (n : ℕ) (bytes : List ℕ) (t : State)
          → n ≡ length bytes
          → n ≤ len
          → 0 < n
          → arrived t ≡ arrived s ++ bytes
          → ((b' : Buffer) (s' : State)
              → IsValid b'
              → b'.bsize - b'.size < fuel
              → Gained b' s' (read_loop sock fuel b' s'))
          → (let b' = Buffer.commit_write n (Buffer.at_write_ptr b bytes) in
              Gained b s (if ltb n len then some (true, b', t) else read_loop sock fuel b' t))
      onward n bytes t e le some_new a ih =
          let b' : Buffer = Buffer.commit_write (length bytes) (Buffer.at_write_ptr b bytes) in
          let w = commit_write_lem b bytes v (omega arith) (omega arith) in
          let z = bsize-commit_write (length bytes) b bytes in
          let held : b'.size ≡ b.size + length bytes = omega (
            arith,
            ap length w.1,
            length-append (contents b) bytes,
            length-contents b,
            length-contents b',
          ) in
          rw e (elim (Bool-cases (ltb (length bytes) len)) [
            | inl short ↦ rw short (w.0, z, (bytes, a, w.1))
            | inr whole ↦ rw whole (
                Gained-trans b b' s t bytes (read_loop sock fuel b' t) z a w.1
                  (ih b' t w.0 (omega (arith, v.fits))))
          ])

      given :
          (ret : ℤ) (bytes : List ℕ) (t : State)
          → Reads sock len s ((ret, bytes), t)
          → ((b' : Buffer) (s' : State)
              → IsValid b'
              → b'.bsize - b'.size < fuel
              → Gained b' s' (read_loop sock fuel b' s'))
          → Gained b s (elim ret [
            | negsuc n ↦ some (false, b, t)
            | pos n ↦
                if n == 0
                then some (true, b, t)
                else (let b' = Buffer.commit_write n (Buffer.at_write_ptr b bytes) in
                    let rest = read_loop sock fuel b' t in
                    if ltb n len then some (true, b', t) else rest)
          ])
      given (negsuc k) bytes t (le, a, c) ih = Gained-refl false b s t bytes v a (ground arith)
      given (pos n) bytes t (le, a, c) ih =
          let e : n ≡ length bytes = ground arith in
          elim (Bool-cases (n == 0)) [
            | inl nothing ↦
                rw nothing (Gained-refl true b s t bytes v a (empty_of n bytes e nothing))
            | inr new ↦ rw new (onward n bytes t e (omega arith) (ground arith) a ih)
          ]

  -- What `readSocket` promises of a controller with a valid read buffer.
  abbrev pub Refilled : Controller → State → Option (Bool × Controller × State) → Type 0
  Refilled c s none = ⊥
  Refilled c s (some (ok, c', s')) =
      IsValid c'.read_buf
      × (c'.write_buf ≡ c.write_buf)
      × ((bytes : List ℕ) × (arrived s' ≡ arrived s ++ bytes)
          × (contents c'.read_buf ≡ contents c.read_buf ++ bytes))

  -- With a valid read buffer `readSocket` always returns, on errors too: the buffer stays valid,
  -- the write buffer is not touched, and the bytes that arrived meanwhile, in order, are exactly
  -- those appended to the read buffer.
  pub read_socket-Refilled :
      (c : Controller) (s : State) → IsValid c.read_buf → Refilled c s (read_socket sock c s)
  unfolding read_socket
  read_socket-Refilled c s v =
      given (read_loop sock (suc (Buffer.bytes_write c.read_buf)) c.read_buf s)
        (read_loop-Gained _ c.read_buf s v (omega (arith, bytes_write_lem v)))
    where
      given :
          (r : Option (Bool × Buffer × State))
          → Gained c.read_buf s r
          → Refilled c s
              (elim r [ none ↦ none | some (ok, b, s') ↦ some (ok, record c { read_buf = b }, s') ])
      given none h = h
      given (some (ok, b, s')) (v', z, (bytes, a, e)) = (v', refl, (bytes, a, e))
