-- ===== src/Tcp/Balance.antt =====
-- How connections are spread over the I/O threads.
use spsock.Prelude.{
  ℕ, suc, ◌+◌, ◌<◌, ◌≡◌, ◌≢◌, refl, ap, ◌∙◌, inl, inr, List, [], ◌∷◌, true, false, arith, length,
  get_or, Bool-cases, ℤ, pos, negsuc,
}
use mathlib.Core.Path.{subst}
use native.Mathlib.Decide.{dec_lt}
use spsock.Tcp.{IoThreadInfo}
use spsock.Tcp.Connections.{ltb_ℤ, least_loaded, pick_thread}

not_less_trans : (a b c : ℤ) → ltb_ℤ a b ≡ false → ltb_ℤ c b ≡ true → ltb_ℤ a c ≡ false
not_less_trans (pos a) (pos b) (pos c) h k = ground arith
not_less_trans (pos a) (pos b) (negsuc c) h k = refl
not_less_trans (pos a) (negsuc b) (pos c) h k = absurd (ground arith)
not_less_trans (pos a) (negsuc b) (negsuc c) h k = refl
not_less_trans (negsuc a) (pos b) c h k = absurd (ground arith)
not_less_trans (negsuc a) (negsuc b) (pos c) h k = absurd (ground arith)
not_less_trans (negsuc a) (negsuc b) (negsuc c) h k = ground arith

ltb_ℤ_irrefl : (a : ℤ) → ltb_ℤ a a ≡ false
ltb_ℤ_irrefl (pos a) = ground arith
ltb_ℤ_irrefl (negsuc a) = ground arith

abbrev pub no_thread : IoThreadInfo
no_thread = record { count = pos 0; epollfd = 0; exitfd = 0 }

-- No thread below `n` has fewer connections than thread `r`, where thread `j` has `at j`.
abbrev Least : (ℕ → ℤ) → ℕ → ℕ → Type 0
Least at n r = (j : ℕ) → j < n → ltb_ℤ (at j) (at r) ≡ false

Least-suc : (at : ℕ → ℤ) (n r : ℕ) → Least at n r → ltb_ℤ (at n) (at r) ≡ false → Least at (n + 1) r
Least-suc at n r h k j lt = elim (dec_lt j n) [
  | yes below ↦ h j below
  | no here ↦ let e : n ≡ j = omega arith in subst (λ i. ltb_ℤ (at i) (at r) ≡ false) e k
]

least_loaded_lem :
    (at : ℕ → ℤ) (best i : ℕ) (ts : List IoThreadInfo)
    → ((k : ℕ) → k < length ts → (get_or ts k no_thread).count ≡ at (i + k))
    → best < i
    → Least at i best
    → let r = least_loaded best (at best) i ts in (r < i + length ts) × Least at (i + length ts) r
unfolding least_loaded
least_loaded_lem at best i [] look lt least =
    let e : i ≡ i + 0 = omega arith in (omega arith, subst (λ n. Least at n best) e least)
least_loaded_lem at best i (t ∷ ts) look lt least =
    let here : t.count ≡ at i = look 0 (omega arith) ∙ ap at (omega arith) in
    let e : i + 1 + length ts ≡ i + suc (length ts) = omega arith in
    let on : (k : ℕ) → k < length ts → (get_or ts k no_thread).count ≡ at (i + 1 + k) =
      λ k l. look (suc k) (omega arith) ∙ ap at (omega arith) in
    let goal : ℕ → Type 0 = λ r. (r < i + suc (length ts)) × Least at (i + suc (length ts)) r in
    let from : (b : ℕ) → b < i + 1 → Least at (i + 1) b → goal (least_loaded b (at b) (i + 1) ts) =
      λ b l h.
        subst
          (λ n.
            (least_loaded b (at b) (i + 1) ts < n) × Least at n (least_loaded b (at b) (i + 1) ts))
          e (least_loaded_lem at b (i + 1) ts on l h) in
    rw here (elim (Bool-cases (ltb_ℤ (at i) (at best))) [
      | inl less ↦ rw less (
          from i (omega arith) (
            Least-suc at i i (λ j l. not_less_trans (at j) (at best) (at i) (least j l) less)
              (ltb_ℤ_irrefl (at i))))
      | inr not_less ↦ rw not_less (from best (omega arith) (Least-suc at i best least not_less))
    ])

-- A new connection goes to an I/O thread that exists, and that has no more connections than any other.
pub pick_thread_lem :
    (ts : List IoThreadInfo)
    → ts ≢ []
    → let r = pick_thread ts in
      (r < length ts)
      × ((j : ℕ)
          → j < length ts
          → ltb_ℤ (get_or ts j no_thread).count (get_or ts r no_thread).count ≡ false)
unfolding pick_thread
pick_thread_lem [] some_thread = absurd (some_thread refl)
pick_thread_lem (t ∷ ts) some_thread =
    let at : ℕ → ℤ = λ k. (get_or (t ∷ ts) k no_thread).count in
    let e : 1 + length ts ≡ suc (length ts) = omega arith in
    subst (λ n. (least_loaded 0 t.count 1 ts < n) × Least at n (least_loaded 0 t.count 1 ts)) e
      (least_loaded_lem at 0 1 ts (λ k l. let f : suc k ≡ 1 + k = omega arith in ap at f)
        (omega arith)
        (λ j l.
          let z : 0 ≡ j = omega arith in
          subst (λ m. ltb_ℤ (at m) t.count ≡ false) z (ltb_ℤ_irrefl t.count)))
