-- ===== src/Prelude/Modular.antt =====
-- One step round a ring: a sum of an index and an offset, taken modulo the size.
use Prim.Native.Nat.{ℕ, ◌+◌, ◌-◌, ◌%◌, ◌≤◌, ◌<◌}
use mathlib.Core.Path.{◌≡◌, ap, ◌∙◌}
use mathlib.Core.Logic.{◌⊎◌, inl, inr}
use native.Mathlib.Nat.{mod-add-mod, mod-eq_of_lt, mod-eq-sub-mod}
use native.Mathlib.Decide.{dec_lt}
use native.Mathlib.Omega.{arith}

-- Either the sum stays below the size, or it passes the end once.
pub mod_cases :
    (h k c : ℕ)
    → h < c
    → k ≤ c
    → ((h + k < c) × ((h + k) % c ≡ h + k)) ⊎ ((c ≤ h + k) × ((h + k) % c ≡ h + k - c))
mod_cases h k c lt le = elim (dec_lt (h + k) c) [
  | yes p ↦ inl (p, mod-eq_of_lt p)
  | no p ↦ inr (
    omega arith,
    mod-eq-sub-mod {n = h + k} {m = c} (omega arith)
        ∙ mod-eq_of_lt {n = h + k - c} {m = c} (omega arith),
  )
]

pub mod_bound : (a c : ℕ) → 0 < c → a % c < c
mod_bound a c h = grind arith

pub mod_shift : (h a b c : ℕ) → ((h + a) % c + b) % c ≡ (h + (a + b)) % c
mod_shift h a b c = mod-add-mod (h + a) c b ∙ ap (λ k. k % c) (omega arith)
