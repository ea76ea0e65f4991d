-- ===== src/Ring.antt =====
-- Runs of slots round a ring, as lists: what lies between two cursors.
pub mod Cursor
pub mod Distance
use native.Mathlib.Nat.{add-zero}
use shm_comm.Prelude.{
  ℕ, zero, suc, ◌+◌, ◌%◌, ◌<◌, ◌≡◌, refl, ap, ap₂, sym, ◌∙◌, ◌≢◌, List, [], ◌∷◌, ◌++◌, length,
  arith,
}
use shm_comm.Prelude.Remainder.{add_mod-ne, mod_shift, mod-below}

module _ {ℓ} {A : Type ℓ} where
  -- The `k` items from slot `h` on, going round at `n`.
  unfoldable pub window : (ℕ → A) → ℕ → ℕ → ℕ → List A
  window f n h zero = []
  window f n h (suc k) = f h ∷ window f n ((h + 1) % n) k

  pub length-window : (f : ℕ → A) (n h k : ℕ) → length (window f n h k) ≡ k
  unfolding window
  length-window f n h zero = refl
  length-window f n h (suc k) = ap suc (length-window f n ((h + 1) % n) k)

  -- The same items give the same list.
  pub window_ext :
      (f g : ℕ → A) (n h k : ℕ)
      → h < n
      → ((j : ℕ) → j < n → g j ≡ f j)
      → window g n h k ≡ window f n h k
  unfolding window
  window_ext f g n h zero lt same = refl
  window_ext f g n h (suc k) lt same =
      ap₂ ◌∷◌ (same h lt) (window_ext f g n ((h + 1) % n) k (omega arith) same)

  -- Writing the slot just past a window makes it longer by that item.
  pub window_snoc :
      (f g : ℕ → A) (x : A) (n k h i : ℕ)
      → h < n
      → k < n
      → i ≡ (h + k) % n
      → ((j : ℕ) → j < n → i ≢ j → g j ≡ f j)
      → g i ≡ x
      → window g n h (suc k) ≡ window f n h k ++ x ∷ []
  unfolding window
  window_snoc f g x n zero h i lt small e same new = ap (λ y. y ∷ []) (ap g (e0 ∙ sym e) ∙ new)
    where
      e0 : h ≡ (h + 0) % n
      e0 = rw add-zero (sym (mod-below h n lt))
  window_snoc f g x n (suc k) h i lt small e same new =
      ap₂ ◌∷◌ (same h lt (λ q. add_mod-ne h k n lt small (omega arith))) (
        window_snoc f g x n k ((h + 1) % n) i (omega arith) (omega arith) (e ∙ mod_shift h k n) same
          new)

  -- Writing the slot just past a window leaves the window.
  pub window_ext_ne :
      (f g : ℕ → A) (n k h i : ℕ)
      → h < n
      → k < n
      → i ≡ (h + k) % n
      → ((j : ℕ) → j < n → i ≢ j → g j ≡ f j)
      → window g n h k ≡ window f n h k
  unfolding window
  window_ext_ne f g n zero h i lt small e same = refl
  window_ext_ne f g n (suc k) h i lt small e same =
      ap₂ ◌∷◌ (same h lt (λ q. add_mod-ne h k n lt small (omega arith))) (
        window_ext_ne f g n k ((h + 1) % n) i (omega arith) (omega arith) (e ∙ mod_shift h k n)
          same)
