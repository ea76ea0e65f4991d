-- ===== src/Ring/Distance.antt =====
-- How the distance between two cursors changes when one of them advances.
use shm_comm.Prelude.{ℕ, suc, ◌+◌, ◌%◌, ◌<◌, ◌≡◌, ◌≢◌, arith, dec_lt}
use shm_comm.Ring.Cursor.{
  ahead, ahead-of_le, ahead-of_lt, succ-of_lt, succ-of_eq, back-add, back-ahead, ahead-lt,
}

module _ (n h t : ℕ) (h_in : h < n) (t_in : t < n) where
  pub ahead-add : (t + ahead n h t) % n ≡ h
  ahead-add =
      ground
        (arith, back-ahead n h t h_in t_in, back-add n h (ahead n h t) h_in, ahead-lt n h t h_in)

  -- With a free slot, the head moves away from the tail by one.
  pub ahead-advance : (h + 1) % n ≢ t → ahead n ((h + 1) % n) t ≡ suc (ahead n h t)
  ahead-advance free = elim (dec_lt (suc h) n) [
    | yes inner ↦ ground (
      arith,
      succ-of_lt n h h_in inner,
      ahead-of_le n h h_in t,
      ahead-of_lt n h h_in t,
      ahead-of_le n (h + 1) (omega arith) t,
      ahead-of_lt n (h + 1) (omega arith) t,
    )
    | no outer ↦ ground (
      arith,
      succ-of_eq n h h_in (omega arith),
      ahead-of_le n h h_in t,
      ahead-of_lt n 0 (omega arith) t,
    )
  ]

  -- Without one, the ring holds all it can: one item fewer than its slots.
  pub ahead-full : (h + 1) % n ≡ t → suc (ahead n h t) ≡ n
  ahead-full full = elim (dec_lt (suc h) n) [
    | yes inner ↦
        ground (arith, succ-of_lt n h h_in inner, ahead-of_le n h h_in t, ahead-of_lt n h h_in t)
    | no outer ↦ ground (arith, succ-of_eq n h h_in (omega arith), ahead-of_le n h h_in t)
  ]

  -- A claim brings the tail nearer to the head by one.
  pub ahead-claim : t ≢ h → suc (ahead n h ((t + 1) % n)) ≡ ahead n h t
  ahead-claim ne = elim (dec_lt (suc t) n) [
    | yes inner ↦ ground (
      arith,
      succ-of_lt n t t_in inner,
      ahead-of_le n h h_in t,
      ahead-of_lt n h h_in t,
      ahead-of_le n h h_in (t + 1),
      ahead-of_lt n h h_in (t + 1),
    )
    | no outer ↦
        ground
          (arith, succ-of_eq n t t_in (omega arith), ahead-of_lt n h h_in t, ahead-of_le n h h_in 0)
  ]

  pub ahead-eq_zero : ahead n h t ≡ 0 → t ≡ h
  ahead-eq_zero e = ground (arith, ahead-of_le n h h_in t, ahead-of_lt n h h_in t)

pub ahead_self : (n h : ℕ) → h < n → ahead n h h ≡ 0
ahead_self n h h_in = omega (arith, ahead-of_le n h h_in h)
