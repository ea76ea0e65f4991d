-- ===== src/Prelude/Remainder.antt =====
-- Positions on a ring of `n` slots.
use Prim.Native.Nat.{ℕ, zero, suc, ◌+◌, ◌-◌, ◌%◌, ◌≤◌, ◌<◌}
use mathlib.Core.Path.{◌≡◌, ◌∙◌, ap}
use mathlib.Core.Logic.{◌≢◌}
use native.Mathlib.Nat.{mod-eq_of_lt, mod-eq-sub-mod, mod-add-mod}
use native.Mathlib.Decide.{dec_lt}
use native.Mathlib.Omega.{arith}

-- One round at most is taken off.
pub mod-below : (a n : ℕ) → a < n → a % n ≡ a
mod-below a n h = mod-eq_of_lt h

pub mod-once : (a n : ℕ) → n ≤ a → a < n + n → a % n ≡ a - n
mod-once a n h k =
    omega (arith, mod-eq-sub-mod {n = a} {m = n} h, mod-eq_of_lt {n = a - n} {m = n} (omega arith))

pub succ_mod-lt : (h n : ℕ) → h < n → (h + 1) % n < n
succ_mod-lt h n lt = omega arith

-- Fewer than `n` steps round the ring do not come back to the start.
pub add_mod-ne : (h k n : ℕ) → h < n → suc k < n → (h + suc k) % n ≢ h
add_mod-ne h k n lt small = elim (dec_lt (h + suc k) n) [
  | yes p ↦ omega (arith, mod-below (h + suc k) n p)
  | no p ↦ omega (arith, mod-once (h + suc k) n (omega arith) (omega arith))
]

pub mod_shift : (h k n : ℕ) → (h + suc k) % n ≡ ((h + 1) % n + k) % n
mod_shift h k n = rw mod-add-mod (ap (λ (t : ℕ). t % n) (omega arith))

pub succ_mod : (a n : ℕ) → (a + 1) % n ≡ (a % n + 1) % n
succ_mod a n = rw mod-add-mod

pub mod_self_sub : (a n : ℕ) → 0 < n → (a - a) % n ≡ 0
mod_self_sub a n h = omega (arith, mod-below (a - a) n (omega arith))

pub mod-add_small : (a l n : ℕ) → a % n + l < n → (a + l) % n ≡ a % n + l
mod-add_small a zero n h = let e : a + 0 ≡ a = omega arith in ap (λ (k : ℕ). k % n) e ∙ omega arith
mod-add_small a (suc l) n h =
    ap (λ (k : ℕ). k % n) (omega arith)
    ∙ succ_mod (a + l) n
    ∙ ap (λ (k : ℕ). (k + 1) % n) (mod-add_small a l n (omega arith))
    ∙ mod-below (a % n + l + 1) n (omega arith)
    ∙ omega arith
