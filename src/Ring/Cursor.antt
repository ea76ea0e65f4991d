-- ===== src/Ring/Cursor.antt =====
-- Distances between two cursors on a ring of `n` slots.
use shm_comm.Prelude.{ℕ, suc, ◌+◌, ◌-◌, ◌%◌, ◌≤◌, ◌<◌, ◌≡◌, arith, dec_lt, dec_le}
use shm_comm.Prelude.Remainder.{mod-below, mod-once}

-- Slots from the cursor `t` up to the cursor `h`, and the cursor `d` slots before `h`.
unfoldable pub ahead : ℕ → ℕ → ℕ → ℕ
ahead n h t = (h + n - t) % n

unfoldable pub back : ℕ → ℕ → ℕ → ℕ
back n h d = (h + n - d) % n

module _ (n h : ℕ) (h_in : h < n) where
  pub ahead-of_le : (t : ℕ) → t ≤ h → ahead n h t ≡ h - t
  unfolding ahead
  ahead-of_le t le = omega (arith, mod-once (h + n - t) n (omega arith) (omega arith))

  pub ahead-of_lt : (t : ℕ) → h < t → t < n → ahead n h t ≡ h + n - t
  unfolding ahead
  ahead-of_lt t lt t_in = omega (arith, mod-below (h + n - t) n (omega arith))

  pub back-of_le : (d : ℕ) → d ≤ h → back n h d ≡ h - d
  unfolding back
  back-of_le d le = omega (arith, mod-once (h + n - d) n (omega arith) (omega arith))

  pub back-of_lt : (d : ℕ) → h < d → d ≤ n → back n h d ≡ h + n - d
  unfolding back
  back-of_lt d lt d_in = omega (arith, mod-below (h + n - d) n (omega arith))

  pub back-zero : back n h 0 ≡ h
  back-zero = omega (arith, back-of_le 0 (omega arith))

  pub succ-of_lt : suc h < n → (h + 1) % n ≡ h + 1
  succ-of_lt lt = omega (arith, mod-below (h + 1) n (omega arith))

  pub succ-of_eq : suc h ≡ n → (h + 1) % n ≡ 0
  succ-of_eq e = omega (arith, mod-once (h + 1) n (omega arith) (omega arith))

-- Walking back from the advanced cursor by one more comes to the same slot.
pub back-succ : (n h d : ℕ) → h < n → d < n → back n ((h + 1) % n) (suc d) ≡ back n h d
back-succ n h d h_in lt = elim (dec_lt (suc h) n) [
  | yes inner ↦ rw (succ-of_lt n h h_in inner) (elim (dec_le d h) [
    | yes near ↦ omega (arith, back-of_le n (h + 1) (omega arith) (suc d), back-of_le n h h_in d)
    | no far ↦ omega (arith, back-of_lt n (h + 1) (omega arith) (suc d), back-of_lt n h h_in d)
  ])
  | no outer ↦
      rw (succ-of_eq n h h_in (omega arith))
        (omega (arith, back-of_lt n 0 (omega arith) (suc d), back-of_le n h h_in d))
]

-- Going `d` slots on from `d` slots back.
pub back-add : (n h d : ℕ) → h < n → d < n → (back n h d + d) % n ≡ h
back-add n h d h_in lt = elim (dec_le d h) [
  | yes near ↦ ground (arith, back-of_le n h h_in d near, mod-below (back n h d + d) n)
  | no far ↦ ground (arith, back-of_lt n h h_in d, mod-once (back n h d + d) n)
]

-- One step on from `d + 1` slots back is `d` slots back.
pub succ-back : (n h d : ℕ) → h < n → d < n → (back n h (suc d) + 1) % n ≡ back n h d
succ-back n h d h_in lt = elim (dec_lt d h) [
  | yes near ↦ ground (
    arith,
    back-of_le n h h_in (suc d),
    back-of_le n h h_in d,
    mod-below (back n h (suc d) + 1) n,
  )
  | no far ↦ ground (
    arith,
    back-of_lt n h h_in (suc d),
    back-of_le n h h_in d,
    back-of_lt n h h_in d,
    mod-below (back n h (suc d) + 1) n,
    mod-once (back n h (suc d) + 1) n,
  )
]

pub ahead-back : (n h d : ℕ) → h < n → d < n → ahead n h (back n h d) ≡ d
ahead-back n h d h_in lt = elim (dec_le d h) [
  | yes near ↦ omega (arith, back-of_le n h h_in d, ahead-of_le n h h_in (back n h d))
  | no far ↦ omega (arith, back-of_lt n h h_in d, ahead-of_lt n h h_in (back n h d))
]

pub back-ahead : (n h t : ℕ) → h < n → t < n → back n h (ahead n h t) ≡ t
back-ahead n h t h_in lt = elim (dec_le t h) [
  | yes below ↦ omega (arith, ahead-of_le n h h_in t, back-of_le n h h_in (ahead n h t))
  | no above ↦ omega (arith, ahead-of_lt n h h_in t, back-of_lt n h h_in (ahead n h t))
]

pub ahead-lt : (n h t : ℕ) → h < n → ahead n h t < n
unfolding ahead
ahead-lt n h t h_in = omega arith

pub back-lt : (n h d : ℕ) → h < n → back n h d < n
unfolding back
back-lt n h d h_in = omega arith

-- A whole round back is the same slot.
pub back-round : (n h : ℕ) → h < n → back n h n ≡ h
back-round n h h_in = omega (arith, back-of_lt n h h_in n)
