-- ===== src/Controller/Retry.antt =====
-- `readInner` and `writeInner`: what a call leaves of the stream, and the end of its retries.
use spsock.Prelude.{
  ℕ, zero, suc, ◌≤◌, ◌≡◌, ◌≢◌, refl, sym, ap, ◌∙◌, ◌⊎◌, inl, inr, List, [], ◌++◌, Bool, true, false,
  Bool-cases, append-nil, arith, length, take, ℤ, pos, negsuc,
}
use spsock.Socket.{Errno, eintr, Received, received, recv_failed, Sent, sent, send_failed, Socket}
use spsock.Controller.{
  errno_result, is_eintr, recv_result, send_result, recv_again, send_again, recv_retry, send_retry,
  read_inner, write_inner,
}

is_eintr-eq : (e : Errno) → is_eintr e ≡ true → e ≡ eintr
is_eintr-eq e h = ground arith

module _ (sock : Socket) where
  open sock use {
    State, recv, send, arrived, wire, interrupts, recv_le, send_le, recv_takes, recv_fails,
    send_puts, send_fails, recv_interrupted, send_interrupted,
  }

  -- What a result of `recv` says of the bytes that have arrived.
  abbrev RecvFrom : ℕ → State → Received × State → Type 0
  RecvFrom len s (received bs, s') = (length bs ≤ len) × (arrived s' ≡ arrived s ++ bs)
  RecvFrom len s (recv_failed e, s') = arrived s' ≡ arrived s

  recv_once :
      (len : ℕ) (s : State) (r : Received) → (recv len s).0 ≡ r → RecvFrom len s (r, (recv len s).1)
  recv_once len s (received bs) e = (recv_le len s bs e, recv_takes len s bs e)
  recv_once len s (recv_failed x) e = recv_fails len s x e

  recv_after :
      (len : ℕ) (s t : State) (r : Received) (u : State)
      → arrived t ≡ arrived s
      → RecvFrom len t (r, u)
      → RecvFrom len s (r, u)
  recv_after len s t (received bs) u e h = (h.0, h.1 ∙ ap (λ k. k ++ bs) e)
  recv_after len s t (recv_failed x) u e h = h ∙ e

  recv_again-eq : (r : Received) → recv_again r ≡ true → r ≡ recv_failed eintr
  recv_again-eq (received bs) h = cc
  recv_again-eq (recv_failed x) h = ap recv_failed (is_eintr-eq x h)

  recv_retry-RecvFrom : (fuel len : ℕ) (s : State) → RecvFrom len s (recv_retry sock fuel len s)
  unfolding recv_retry
  recv_retry-RecvFrom zero len s = recv_once len s (recv len s).0 refl
  recv_retry-RecvFrom (suc fuel) len s = elim (Bool-cases (recv_again (recv len s).0)) [
    | inl again ↦ rw again (
        recv_after len s (recv len s).1 _ _
          (recv_fails len s eintr (recv_again-eq (recv len s).0 again))
          (recv_retry-RecvFrom fuel len (recv len s).1))
    | inr done ↦ rw done (recv_once len s (recv len s).0 refl)
  ]

  recv_retry_ends :
      (fuel len : ℕ) (s : State)
      → interrupts s ≤ fuel
      → recv_again (recv_retry sock fuel len s).0 ≡ false
  unfolding recv_retry
  recv_retry_ends zero len s h = elim (Bool-cases (recv_again (recv len s).0)) [
    | inl again ↦
        absurd (omega (arith, recv_interrupted len s (recv_again-eq (recv len s).0 again)))
    | inr done ↦ done
  ]
  recv_retry_ends (suc fuel) len s h = elim (Bool-cases (recv_again (recv len s).0)) [
    | inl again ↦ rw again (
        recv_retry_ends fuel len (recv len s).1
          (omega (arith, recv_interrupted len s (recv_again-eq (recv len s).0 again))))
    | inr done ↦ rw done done
  ]

  -- What a result of `send` says of the bytes that have gone out.
  abbrev SentOf : List ℕ → State → Sent × State → Type 0
  SentOf bytes s (sent n, s') = (n ≤ length bytes) × (wire s' ≡ wire s ++ take n bytes)
  SentOf bytes s (send_failed e, s') = wire s' ≡ wire s

  send_once :
      (bytes : List ℕ) (s : State) (r : Sent)
      → (send bytes s).0 ≡ r
      → SentOf bytes s (r, (send bytes s).1)
  send_once bytes s (sent n) e = (send_le bytes s n e, send_puts bytes s n e)
  send_once bytes s (send_failed x) e = send_fails bytes s x e

  send_after :
      (bytes : List ℕ) (s t : State) (r : Sent) (u : State)
      → wire t ≡ wire s
      → SentOf bytes t (r, u)
      → SentOf bytes s (r, u)
  send_after bytes s t (sent n) u e h = (h.0, h.1 ∙ ap (λ k. k ++ take n bytes) e)
  send_after bytes s t (send_failed x) u e h = h ∙ e

  send_again-eq : (r : Sent) → send_again r ≡ true → r ≡ send_failed eintr
  send_again-eq (sent n) h = cc
  send_again-eq (send_failed x) h = ap send_failed (is_eintr-eq x h)

  pub send_retry-SentOf :
      (fuel : ℕ) (bytes : List ℕ) (s : State) → SentOf bytes s (send_retry sock fuel bytes s)
  unfolding send_retry
  send_retry-SentOf zero bytes s = send_once bytes s (send bytes s).0 refl
  send_retry-SentOf (suc fuel) bytes s = elim (Bool-cases (send_again (send bytes s).0)) [
    | inl again ↦ rw again (
        send_after bytes s (send bytes s).1 _ _
          (send_fails bytes s eintr (send_again-eq (send bytes s).0 again))
          (send_retry-SentOf fuel bytes (send bytes s).1))
    | inr done ↦ rw done (send_once bytes s (send bytes s).0 refl)
  ]

  send_retry_ends :
      (fuel : ℕ) (bytes : List ℕ) (s : State)
      → interrupts s ≤ fuel
      → send_again (send_retry sock fuel bytes s).0 ≡ false
  unfolding send_retry
  send_retry_ends zero bytes s h = elim (Bool-cases (send_again (send bytes s).0)) [
    | inl again ↦
        absurd (omega (arith, send_interrupted bytes s (send_again-eq (send bytes s).0 again)))
    | inr done ↦ done
  ]
  send_retry_ends (suc fuel) bytes s h = elim (Bool-cases (send_again (send bytes s).0)) [
    | inl again ↦ rw again (
        send_retry_ends fuel bytes (send bytes s).1
          (omega (arith, send_interrupted bytes s (send_again-eq (send bytes s).0 again))))
    | inr done ↦ rw done done
  ]

  -- The retries that `readInner` and `writeInner` are given end with an answer: never with `EINTR`.
  pub retries_suffice :
      (len : ℕ) (bytes : List ℕ) (s : State)
      → ((recv_retry sock (interrupts s) len s).0 ≢ recv_failed eintr)
        × ((send_retry sock (interrupts s) bytes s).0 ≢ send_failed eintr)
  retries_suffice len bytes s = (
    (λ e. clash (ap recv_again e) (recv_retry_ends (interrupts s) len s (omega arith))),
    λ e. clash (ap send_again e) (send_retry_ends (interrupts s) bytes s (omega arith)),
  )
    where
      clash : {b : Bool} → b ≡ true → b ≡ false → ⊥
      clash p q = cc

  -- What `readInner` gives: a count of 0 or more with as many bytes, which have arrived on top of
  -- those before, or -1 with none.
  abbrev pub Reads : ℕ → State → (ℤ × List ℕ) × State → Type 0
  Reads len s ((ret, bytes), s') =
      (length bytes ≤ len)
      × (arrived s' ≡ arrived s ++ bytes)
      × ((ret ≡ pos (length bytes)) ⊎ ((ret ≡ negsuc 0) × (bytes ≡ [])))

  errno_cases : (e : Errno) → (errno_result e ≡ pos 0) ⊎ (errno_result e ≡ negsuc 0)
  errno_cases e = ground arith

  pub read_inner-Reads : (len : ℕ) (s : State) → Reads len s (read_inner sock len s)
  unfolding read_inner
  read_inner-Reads len s =
      given (recv_retry sock (interrupts s) len s).0 _ (recv_retry-RecvFrom (interrupts s) len s)
    where
      given : (r : Received) (t : State) → RecvFrom len s (r, t) → Reads len s (recv_result r, t)
      given (received bs) t h = (h.0, h.1, inl refl)
      given (recv_failed x) t h = (
        omega arith,
        h ∙ sym (append-nil (arrived s)),
        elim (errno_cases x) [ inl e ↦ inl e | inr e ↦ inr (e, refl) ],
      )

  -- What `writeInner` gives: how many of the bytes have gone out, or -1 with none.
  abbrev pub Writes : List ℕ → State → ℤ × State → Type 0
  Writes bytes s (ret, s') =
      ((n : ℕ) × (ret ≡ pos n) × (n ≤ length bytes) × (wire s' ≡ wire s ++ take n bytes))
      ⊎ ((ret ≡ negsuc 0) × (wire s' ≡ wire s))

  pub write_inner-Writes : (bytes : List ℕ) (s : State) → Writes bytes s (write_inner sock bytes s)
  unfolding write_inner
  write_inner-Writes bytes s =
      given (send_retry sock (interrupts s) bytes s).0 _ (send_retry-SentOf (interrupts s) bytes s)
    where
      given : (r : Sent) (t : State) → SentOf bytes s (r, t) → Writes bytes s (send_result r, t)
      given (sent n) t h = inl (n, refl, h.0, h.1)
      given (send_failed x) t h = elim (errno_cases x) [
        | inl e ↦ inl (0, e, omega arith, h ∙ sym (append-nil (wire s)))
        | inr e ↦ inr (e, h)
      ]
