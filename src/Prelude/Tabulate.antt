-- ===== src/Prelude/Tabulate.antt =====
-- Lists given by their entries: the form in which ring buffers and copies of memory are compared.
use Prim.Native.Nat.{ℕ, zero, suc, ◌+◌, ◌-◌, ◌≤◌, ◌<◌}
use mathlib.Core.Path.{◌≡◌, refl, sym, ap, ap₂, ◌∙◌}
use mathlib.Core.List.{List, [], ◌∷◌, ◌++◌}
use native.Mathlib.Omega.{arith}
use spsock.Prelude.Lists.{
  length, get_or, take, drop, get_or-take, get_or-drop, length-take, length-drop,
}

module _ {ℓ} {A : Type ℓ} where
  abbrev pub tabulate : ℕ → (ℕ → A) → List A
  tabulate zero f = []
  tabulate (suc n) f = f 0 ∷ tabulate n (λ i. f (suc i))

module _ {ℓ} {A : Type ℓ} where
  pub length-tabulate : (n : ℕ) (f : ℕ → A) → length (tabulate n f) ≡ n
  length-tabulate zero f = refl
  length-tabulate (suc n) f = ap suc (length-tabulate n (λ i. f (suc i)))

  pub tabulate_ext :
      (n : ℕ) (f g : ℕ → A) → ((i : ℕ) → i < n → f i ≡ g i) → tabulate n f ≡ tabulate n g
  tabulate_ext zero f g h = refl
  tabulate_ext (suc n) f g h =
      ap₂ ◌∷◌ (h 0 (omega arith))
        (tabulate_ext n (λ i. f (suc i)) (λ i. g (suc i)) (λ i lt. h (suc i) (omega arith)))

  pub tabulate-add :
      (m n : ℕ) (f : ℕ → A) → tabulate (m + n) f ≡ tabulate m f ++ tabulate n (λ i. f (m + i))
  tabulate-add zero n f =
      let e : zero + n ≡ n = omega arith in
      ap (λ k. tabulate k f) e ∙ tabulate_ext n f (λ i. f (zero + i)) (λ i lt. ap f (omega arith))
  tabulate-add (suc m) n f =
      let e : suc m + n ≡ suc (m + n) = omega arith in
      ap (λ k. tabulate k f) e
      ∙ ap (◌∷◌ (f 0)) (
          tabulate-add m n (λ i. f (suc i))
          ∙ ap (◌++◌ (tabulate m (λ i. f (suc i)))) (
              tabulate_ext n (λ i. f (suc (m + i))) (λ i. f (suc m + i))
                (λ i lt. ap f (omega arith))))

  pub take-tabulate : (n m : ℕ) (f : ℕ → A) → n ≤ m → take n (tabulate m f) ≡ tabulate n f
  take-tabulate zero m f h = refl
  take-tabulate (suc n) zero f h = absurd (omega arith)
  take-tabulate (suc n) (suc m) f h =
      ap (◌∷◌ (f 0)) (take-tabulate n m (λ i. f (suc i)) (omega arith))

  pub drop-tabulate :
      (n m : ℕ) (f : ℕ → A) → n ≤ m → drop n (tabulate m f) ≡ tabulate (m - n) (λ i. f (n + i))
  drop-tabulate zero m f h =
      let e : m ≡ m - zero = omega arith in
      ap (λ k. tabulate k f) e
      ∙ tabulate_ext (m - zero) f (λ i. f (zero + i)) (λ i lt. ap f (omega arith))
  drop-tabulate (suc n) zero f h = absurd (omega arith)
  drop-tabulate (suc n) (suc m) f h =
      let e : m - n ≡ suc m - suc n = omega arith in
      drop-tabulate n m (λ i. f (suc i)) (omega arith)
      ∙ ap (λ k. tabulate k (λ i. f (suc (n + i)))) e
      ∙ tabulate_ext (suc m - suc n) (λ i. f (suc (n + i))) (λ i. f (suc n + i))
          (λ i lt. ap f (omega arith))

  pub tabulate-get_or : (xs : List A) (d : A) → tabulate (length xs) (λ i. get_or xs i d) ≡ xs
  tabulate-get_or [] d = refl
  tabulate-get_or (x ∷ xs) d = ap (◌∷◌ x) (tabulate-get_or xs d)

  -- The `n` entries from index `off` on: what `memcpy` reads.
  abbrev pub slice : List A → ℕ → ℕ → List A
  slice xs off n = take n (drop off xs)

  pub slice-eq-tabulate :
      (xs : List A) (off n : ℕ) (d : A)
      → off + n ≤ length xs
      → slice xs off n ≡ tabulate n (λ i. get_or xs (off + i) d)
  slice-eq-tabulate xs off n d h =
      let len : length (slice xs off n) ≡ n =
        omega (arith, length-take n (drop off xs), length-drop off xs) in
      sym (tabulate-get_or (slice xs off n) d)
      ∙ ap (λ k. tabulate k (λ i. get_or (slice xs off n) i d)) len
      ∙ tabulate_ext n (λ i. get_or (slice xs off n) i d) (λ i. get_or xs (off + i) d)
          (λ i lt. get_or-take n (drop off xs) i d lt ∙ get_or-drop off xs i d)

  -- What `memcpy` leaves: `src` written over `dst` from index `off` on.
  abbrev pub blit : List A → ℕ → List A → List A
  blit [] off src = []
  blit (x ∷ dst) (suc off) src = x ∷ blit dst off src
  blit (x ∷ dst) zero [] = x ∷ dst
  blit (x ∷ dst) zero (y ∷ src) = y ∷ blit dst zero src

  pub length-blit : (dst : List A) (off : ℕ) (src : List A) → length (blit dst off src) ≡ length dst
  length-blit [] off src = refl
  length-blit (x ∷ dst) (suc off) src = ap suc (length-blit dst off src)
  length-blit (x ∷ dst) zero [] = refl
  length-blit (x ∷ dst) zero (y ∷ src) = ap suc (length-blit dst zero src)

  -- Outside the written range nothing changes.
  pub get_or-blit_before :
      (dst : List A) (off : ℕ) (src : List A) (i : ℕ) (d : A)
      → i < off
      → get_or (blit dst off src) i d ≡ get_or dst i d
  get_or-blit_before [] off src i d h = refl
  get_or-blit_before (x ∷ dst) zero src i d h = absurd (omega arith)
  get_or-blit_before (x ∷ dst) (suc off) src zero d h = refl
  get_or-blit_before (x ∷ dst) (suc off) src (suc i) d h =
      get_or-blit_before dst off src i d (omega arith)

  pub get_or-blit_after :
      (dst : List A) (off : ℕ) (src : List A) (i : ℕ) (d : A)
      → off + length src ≤ i
      → get_or (blit dst off src) i d ≡ get_or dst i d
  get_or-blit_after [] off src i d h = refl
  get_or-blit_after (x ∷ dst) zero [] i d h = refl
  get_or-blit_after (x ∷ dst) zero (y ∷ src) zero d h = absurd (omega arith)
  get_or-blit_after (x ∷ dst) zero (y ∷ src) (suc i) d h =
      get_or-blit_after dst zero src i d (omega arith)
  get_or-blit_after (x ∷ dst) (suc off) src zero d h = refl
  get_or-blit_after (x ∷ dst) (suc off) src (suc i) d h =
      get_or-blit_after dst off src i d (omega arith)

  -- Inside it the source is read.
  pub get_or-blit_inside :
      (dst : List A) (off : ℕ) (src : List A) (i : ℕ) (d : A)
      → i < length src
      → off + i < length dst
      → get_or (blit dst off src) (off + i) d ≡ get_or src i d
  get_or-blit_inside [] off src i d h k = absurd (omega arith)
  get_or-blit_inside (x ∷ dst) (suc off) src i d h k =
      let e : suc off + i ≡ suc (off + i) = omega arith in
      ap (λ k. get_or (x ∷ blit dst off src) k d) e
      ∙ get_or-blit_inside dst off src i d h (omega arith)
  get_or-blit_inside (x ∷ dst) zero [] i d h k = absurd (omega arith)
  get_or-blit_inside (x ∷ dst) zero (y ∷ src) zero d h k = refl
  get_or-blit_inside (x ∷ dst) zero (y ∷ src) (suc i) d h k =
      let e : zero + suc i ≡ suc (zero + i) = omega arith in
      ap (λ k. get_or (y ∷ blit dst zero src) k d) e
      ∙ get_or-blit_inside dst zero src i d (omega arith) (omega arith)
