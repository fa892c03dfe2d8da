-- ===== src/Buffer/Stream.antt =====
-- A connection's buffer over any sequence of reads and writes.
use spsock.Prelude.{
  take-append-drop, ℕ, ◌≡◌, sym, ap, ◌∙◌, List, [], ◌∷◌, ◌++◌, append_assoc, append-nil, min, take,
  drop,
}
use spsock.Buffer.{Buffer, read, write}
use spsock.Buffer.Valid.{IsValid, contents}
use spsock.Buffer.Read.{read_lem}
use spsock.Buffer.Write.{write_lem}

pub data Call : Type 0 where
  writes : List ℕ → Call
  reads : ℕ → Call

-- The bytes that the calls of `write` accepted, those that the calls of `read` handed over, and the
-- buffer afterwards.
unfoldable pub calls : List Call → Buffer → (List ℕ × List ℕ) × Buffer
calls [] b = (([], []), b)
calls (writes bytes ∷ cs) b =
    let (n, b') = write b bytes in
    let ((accepted, handed), b'') = calls cs b' in ((take n bytes ++ accepted, handed), b'')
calls (reads len ∷ cs) b =
    let ((n, bytes), b') = read b len in
    let ((accepted, handed), b'') = calls cs b' in ((accepted, bytes ++ handed), b'')

-- Over any sequence of reads and writes on a valid buffer: what was in it, followed by the bytes that
-- were accepted, is what was handed over, followed by what is in it now; and it is valid.
pub calls_lem :
    (cs : List Call) (b : Buffer)
    → IsValid b
    → let ((accepted, handed), b') = calls cs b in
      IsValid b' × (contents b ++ accepted ≡ handed ++ contents b')
unfolding calls
calls_lem [] b v = (v, append-nil (contents b))
calls_lem (writes bytes ∷ cs) b v =
    let (n, stored, v') = write_lem b bytes v in
    let (v'', e) = calls_lem cs (write b bytes).1 v' in
    (
      v'',
      sym (append_assoc (contents b) (take (write b bytes).0 bytes) _)
          ∙ ap (λ k. k ++ (calls cs (write b bytes).1).0.0)
              (ap (λ j. contents b ++ take j bytes) n ∙ sym stored)
          ∙ e,
    )
calls_lem (reads len ∷ cs) b v =
    let (n, out, rest, v') = read_lem b len v in
    let b' = (read b len).1 in
    let (v'', e) = calls_lem cs b' v' in
    let split : contents b ≡ (read b len).0.1 ++ contents b' =
      sym (take-append-drop (min len b.size) (contents b))
      ∙ ap (λ k. k ++ drop (min len b.size) (contents b)) (sym out)
      ∙ ap (◌++◌ (read b len).0.1) (sym rest) in
    (
      v'',
      ap (λ k. k ++ (calls cs b').0.0) split
          ∙ append_assoc (read b len).0.1 (contents b') (calls cs b').0.0
          ∙ ap (◌++◌ (read b len).0.1) e
          ∙ sym (append_assoc (read b len).0.1 (calls cs b').0.1 (contents (calls cs b').1)),
    )
