-- ===== src/Race/Broadcast/Places.antt =====
-- The slots of a ring that successive payloads go to: number `k` goes to slot `(base + k) % n`.
use native.Mathlib.Nat.{mod-add-mod}
use shm_comm.Prelude.{
  ℕ, zero, suc, ◌+◌, ◌-◌, ◌%◌, ◌<◌, ◌≡◌, ◌≢◌, refl, sym, ap, ◌∙◌, some, List, [], ◌∷◌, length,
  get_elem?, arith,
}
use shm_comm.Prelude.Remainder.{add_mod-ne, succ_mod}

abbrev pub slot_of : ℕ → ℕ → ℕ → ℕ
slot_of n base k = (base + k) % n

pub slot_of-lt : (n base k : ℕ) → 0 < n → slot_of n base k < n
slot_of-lt n base k h = omega arith

-- Fewer than `n` payloads apart, two slots differ.
pub slot_of-ne : (n base k m : ℕ) → k < m → m < k + n → slot_of n base k ≢ slot_of n base m
slot_of-ne n base k m lt near e =
    add_mod-ne ((base + k) % n) (m - k - 1) n (omega arith) (omega arith)
      (mod-add-mod (base + k) n (suc (m - k - 1)) ∙ ap (λ (t : ℕ). t % n) (omega arith) ∙ sym e)

pub slot_of-suc : (n base k : ℕ) → (slot_of n base k + 1) % n ≡ slot_of n base (suc k)
slot_of-suc n base k = sym (succ_mod (base + k) n) ∙ ap (λ (t : ℕ). t % n) (omega arith)

pub get_elem?-lt :
    {A : Type 0} (xs : List A) (k : ℕ) → k < length xs → (x : A) × (get_elem? xs k ≡ some x)
get_elem?-lt [] k h = absurd (omega arith)
get_elem?-lt (x ∷ xs) zero h = (x, refl)
get_elem?-lt (x ∷ xs) (suc k) h = get_elem?-lt xs k (omega arith)

pub lt-get_elem? :
    {A : Type 0} (xs : List A) (k : ℕ) (x : A) → get_elem? xs k ≡ some x → k < length xs
lt-get_elem? [] k x h = cc
lt-get_elem? (y ∷ xs) zero x h = omega arith
lt-get_elem? (y ∷ xs) (suc k) x h = omega (arith, lt-get_elem? xs k x h)
