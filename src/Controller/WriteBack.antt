-- ===== src/Controller/WriteBack.antt =====
-- `writeBack`: first the write buffer, then straight from the read buffer.
use spsock.Prelude.{
  ℕ, zero, suc, ◌+◌, ◌-◌, ◌<◌, ◌≡◌, ◌≢◌, refl, sym, ap, ◌∙◌, ◌⊎◌, inl, inr, List, [], ◌++◌, Option,
  none, some, Bool-cases, append-nil, arith, take, tabulate, ◌==◌, if◌then◌else◌, ℤ, pos, negsuc,
}
use mathlib.Core.Path.{subst}
use spsock.Buffer
use spsock.Buffer.{Buffer, bytes_read}
use spsock.Buffer.Valid.{IsValid, byte_at, contents}
use spsock.Socket.{Socket}
use spsock.Controller.{Controller, write_inner, commit_write, back_loop, write_back}
use spsock.Controller.Retry.{Writes, write_inner-Writes}
use spsock.Controller.Transmit.{
  Moved, Moved-step, Moved-trans, Moved-still, Committed, commit_write-Committed,
}

module _ (sock : Socket) where
  open sock use {State, wire}

  -- What the second loop does: the answer is how many bytes have gone out in all, or -1.
  abbrev Backed : ℕ → Buffer → State → Option (ℤ × Buffer × State) → Type 0
  Backed total b s none = ⊥
  Backed total b s (some (ret, b', s')) =
      Moved sock b s b' s' × ((ret ≡ pos (total + (b.size - b'.size))) ⊎ (ret ≡ negsuc 0))

  Backed-trans :
      (total n : ℕ) (b b1 : Buffer) (s s1 : State) (r : Option (ℤ × Buffer × State))
      → Moved sock b s b1 s1
      → b1.size + n ≡ b.size
      → Backed (total + n) b1 s1 r
      → Backed total b s r
  Backed-trans total n b b1 s s1 none m z h = h
  Backed-trans total n b b1 s s1 (some (ret, b', s')) m z (k, inl e) =
      (Moved-trans sock b b1 b' s s1 s' m k, inl (e ∙ ap pos (omega (arith, k.shrinks))))
  Backed-trans total n b b1 s s1 (some (ret, b', s')) m z (k, inr e) =
      (Moved-trans sock b b1 b' s s1 s' m k, inr e)

  back_loop-Backed :
      (fuel total : ℕ) (b : Buffer) (s : State)
      → IsValid b
      → b.size < fuel
      → Backed total b s (back_loop sock fuel total b s)
  unfolding back_loop
  back_loop-Backed zero total b s v h = absurd (omega arith)
  back_loop-Backed (suc fuel) total b s v h = elim (Bool-cases (Buffer.distance_read b == 0)) [
    | inl empty ↦ rw empty (Moved-still sock b s s v refl, inl (ap pos (omega arith)))
    | inr more ↦ rw more (
        given (write_inner sock bytes s).0 (write_inner sock bytes s).1
          (write_inner-Writes sock bytes s) (λ n b' s'. back_loop-Backed fuel n b' s'))
  ]
    where
      bytes : List ℕ
      bytes = Buffer.at_read_ptr b (Buffer.distance_read b)

      Rest : Type 0
      Rest =
          (n : ℕ) (b' : Buffer) (s' : State)
          → IsValid b'
          → b'.size < fuel
          → Backed n b' s' (back_loop sock fuel n b' s')

      given :
          (ret : ℤ) (t : State)
          → Writes sock bytes s (ret, t)
          → Rest
          → Backed total b s (elim ret [
            | negsuc n ↦ some (negsuc n, b, t)
            | pos n ↦
                (let rest = back_loop sock fuel (total + n) (Buffer.commit_read n b) t in
                  if n == 0 then some (pos total, b, t) else rest)
          ])
      given (negsuc k) t (inl (n, e, le, w)) ih = absurd (ground arith)
      given (negsuc k) t (inr (e, w)) ih = (Moved-still sock b s t v w, inr e)
      given (pos k) t (inr (e, w)) ih = absurd (ground arith)
      given (pos k) t (inl (n, e, le, w)) ih =
          let same : k ≡ n = ground arith in
          let out : wire t ≡ wire s ++ take k bytes =
            w ∙ ap (λ j. wire s ++ take j bytes) (sym same) in
          elim (Bool-cases (k == 0)) [
            | inl nothing ↦
                let zero_out : k ≡ 0 = ground arith in
                rw nothing (
                  Moved-still sock b s t v
                      (out ∙ ap (λ j. wire s ++ take j bytes) zero_out ∙ append-nil (wire s)),
                  inl (ap pos (omega arith)),
                )
            | inr new ↦
                let (m, size) = Moved-step sock b s t k v (omega arith) out in
                let some_out : k ≢ 0 = λ z. absurd (ground arith) in
                rw new (
                  Backed-trans total k b (Buffer.commit_read k b) s t _ m size
                    (ih (total + k) (Buffer.commit_read k b) t m.valid (omega arith)))
          ]

  -- What `writeBack` promises.
  abbrev pub WroteBack : Controller → State → Option (ℤ × Controller × State) → Type 0
  WroteBack c s none = ⊥
  WroteBack c s (some (ret, c', s')) =
      IsValid c'.write_buf
      × IsValid c'.read_buf
      × (wire s' ++ contents c'.write_buf ++ contents c'.read_buf
          ≡ wire s ++ contents c.write_buf ++ contents c.read_buf)
      × ((c'.read_buf ≡ c.read_buf) ⊎ (c'.write_buf.size ≡ 0))
      × ((ret ≡ negsuc 0)
          ⊎ ((c'.write_buf.size ≢ 0) × (ret ≡ pos c'.write_buf.size))
          ⊎ ((c'.write_buf.size ≡ 0) × (ret ≡ pos (c.read_buf.size - c'.read_buf.size))))

  -- With valid buffers `writeBack` always returns, on errors too, with valid buffers. What has gone out,
  -- followed by what is left in the write buffer and then in the read buffer, is what was there before;
  -- the read buffer is only touched once the write buffer is empty. The answer is -1, or the number of
  -- bytes left in the write buffer if there are any, or else the number taken out of the read buffer.
  pub write_back-WroteBack :
      (c : Controller) (s : State)
      → IsValid c.write_buf
      → IsValid c.read_buf
      → WroteBack c s (write_back sock c s)
  unfolding write_back bytes_read
  write_back-WroteBack c s v u = first (commit_write sock c s) (commit_write-Committed sock c s v)
    where
      untouched :
          (c1 : Controller) (s1 : State)
          → wire s1 ++ contents c1.write_buf ≡ wire s ++ contents c.write_buf
          → c1.read_buf ≡ c.read_buf
          → wire s1 ++ contents c1.write_buf ++ contents c1.read_buf
            ≡ wire s ++ contents c.write_buf ++ contents c.read_buf
      untouched c1 s1 e same =
          ap (λ k. k ++ contents c1.read_buf) e
          ∙ ap (λ (r : Buffer). wire s ++ contents c.write_buf ++ contents r) same

      second :
          (c1 : Controller) (s1 : State)
          → IsValid c1.write_buf
          → wire s1 ++ contents c1.write_buf ≡ wire s ++ contents c.write_buf
          → c1.read_buf ≡ c.read_buf
          → c1.write_buf.size ≡ 0
          → (r : Option (ℤ × Buffer × State)) → Backed 0 c1.read_buf s1 r
          → WroteBack c s (elim r [
            | none ↦ none
            | some (ret', b, s'') ↦ some (ret', record c1 { read_buf = b }, s'')
          ])
      second c1 s1 w e same z none h = h
      second c1 s1 w e same z (some (ret, b, s2)) (m, answer) =
          let gone : contents c1.write_buf ≡ [] = ap (λ k. tabulate k (byte_at c1.write_buf)) z in
          let out : wire s1 ≡ wire s ++ contents c.write_buf =
            sym (append-nil (wire s1)) ∙ ap (◌++◌ (wire s1)) (sym gone) ∙ e in
          (
            w,
            m.valid,
            ap (λ k. (wire s2 ++ k) ++ contents b) gone
                ∙ ap (λ k. k ++ contents b) (append-nil (wire s2))
                ∙ m.conserved
                ∙ ap (λ (r : Buffer). wire s1 ++ contents r) same
                ∙ ap (λ k. k ++ contents c.read_buf) out,
            inr z,
            result (ap (λ (r : Buffer). r.size) same) answer,
          )
        where
          result :
              c1.read_buf.size ≡ c.read_buf.size
              → (ret ≡ pos (0 + (c1.read_buf.size - b.size))) ⊎ (ret ≡ negsuc 0)
              → (ret ≡ negsuc 0)
                ⊎ ((c1.write_buf.size ≢ 0) × (ret ≡ pos c1.write_buf.size))
                ⊎ ((c1.write_buf.size ≡ 0) × (ret ≡ pos (c.read_buf.size - b.size)))
          result sz (inl a) = inr (inr (z, a ∙ ap pos (omega arith)))
          result sz (inr a) = inl a

      first :
          (r : Option (ℤ × Controller × State))
          → Committed sock c s r
          → WroteBack c s (elim r [
            | none ↦ none
            | some (ret, c', s') ↦ elim ret [
              | negsuc n ↦ some (negsuc n, c', s')
              | pos n ↦
                  if n == 0
                  then elim (back_loop sock (suc c'.read_buf.size) 0 c'.read_buf s') [
                    | none ↦ none
                    | some (ret', b, s'') ↦ some (ret', record c' { read_buf = b }, s'')
                  ]
                  else some (pos n, c', s')
            ]
          ])
      first none h = h
      first (some (negsuc n, c1, s1)) (w, e, answer, same) =
          (w, subst IsValid (sym same) u, untouched c1 s1 e same, inl same, inl (ground arith))
      first (some (pos n, c1, s1)) (w, e, answer, same) = elim (Bool-cases (n == 0)) [
        | inl nothing ↦ rw nothing (
            second c1 s1 w e same (ground arith)
              (back_loop sock (suc c1.read_buf.size) 0 c1.read_buf s1)
              (back_loop-Backed (suc c1.read_buf.size) 0 c1.read_buf s1 (subst IsValid (sym same) u)
                (omega arith)))
        | inr more ↦ rw more (
          w,
          subst IsValid (sym same) u,
          untouched c1 s1 e same,
          inl same,
          inr (inl ((λ z. absurd (ground arith)), ground arith)),
        )
      ]
