-- ===== src/Exec/Waiting.antt =====
-- When a waiting loop ends, and with what.
use shm_comm.Prelude.{
  ℕ, ℕ_discrete, sym, zero, suc, ◌+◌, ◌≤◌, ◌<◌, ◌≡◌, refl, ap, ◌≢◌, ◌∙◌, true, false, Option, none,
  some, arith, Bool-cases, inl, inr,
}
use shm_comm.Exec.{Outcome, ok, running, Action}
use shm_comm.Exec.Spin.{World, expired, spin, spin-done, spin-late, spin-again}

-- A loop with a deadline ends, if its attempt does: once the clock has passed the deadline in round
-- `k`, `k + 1` rounds are enough, whatever the other processes do.
module _ {S A : Type 0} (w : World S) (limit : ℕ) (late : Outcome A) (attempt : Action S (Option A))
    (tries : (s : S) → (attempt s).0 ≢ running) (gives_up : late ≢ running) where
  pub spin-ends :
      (fuel round k : ℕ) (s : S)
      → round ≤ k
      → k < round + fuel
      → limit ≤ w.clock k
      → (spin w (some limit) late attempt fuel round s).0 ≢ running
  unfolding spin expired
  spin-ends zero round k s a b c = absurd (omega arith)
  spin-ends (suc fuel) round k s a b c =
      ground (arith, tries s, gives_up, spin-ends fuel (suc round) k (w.others round (attempt s).1))

module _ {S A : Type 0} (w : World S) (limit : Option ℕ) (late : Outcome A)
    (attempt : Action S (Option A)) (st mid : ℕ → S) where
  -- Round `i` finds nothing at `st i`, is before the deadline, and the next round starts from what
  -- the other processes make of the state.
  abbrev pub Waits : ℕ → Type 0
  Waits i =
      (attempt (st i) ≡ (ok none, mid i))
      × (expired limit (w.clock i) ≡ false)
      × (st (suc i) ≡ w.others i (mid i))

  module _ (k : ℕ) (waits : (i : ℕ) → i < k → Waits i) where
    step_to :
        (o : Outcome A × S) (fuel round : ℕ)
        → round < k
        → spin w limit late attempt fuel (suc round) (st (suc round)) ≡ o
        → spin w limit late attempt (suc fuel) round (st round) ≡ o
    step_to o fuel round lt next =
        let (e, x, n) = waits round lt in
        spin-again w limit late attempt fuel round (st round) (mid round) e x
        ∙ ap (spin w limit late attempt fuel (suc round)) (sym n)
        ∙ next

    last_round :
        (o : Outcome A × S)
        → ((fuel : ℕ) → spin w limit late attempt (suc fuel) k (st k) ≡ o)
        → (fuel round : ℕ) → round ≤ k
        → k < round + fuel
        → spin w limit late attempt fuel round (st round) ≡ o
    last_round o done zero round a b = absurd (omega arith)
    last_round o done (suc fuel) round a b = elim (ℕ_discrete round k) [
      | yes e ↦ rw e (done fuel)
      | no ne ↦
          step_to o fuel round (omega arith)
            (last_round o done fuel (suc round) (omega arith) (omega arith))
    ]

    -- The loop returns what the first round that finds something finds there.
    pub spin-first :
        (fuel : ℕ) (a : A) (s' : S)
        → k < fuel
        → attempt (st k) ≡ (ok (some a), s')
        → spin w limit late attempt fuel 0 (st 0) ≡ (ok a, s')
    spin-first fuel a s' enough e =
        last_round (ok a, s') (λ f. spin-done w limit late attempt f k (st k) s' a e) fuel 0
          (omega arith) (omega arith)

    -- The loop gives up in the first round that ends after the deadline.
    pub spin-gives_up :
        (fuel : ℕ) (s' : S)
        → k < fuel
        → attempt (st k) ≡ (ok none, s')
        → expired limit (w.clock k) ≡ true
        → spin w limit late attempt fuel 0 (st 0) ≡ (late, s')
    spin-gives_up fuel s' enough e x =
        last_round (late, s') (λ f. spin-late w limit late attempt f k (st k) s' e x) fuel 0
          (omega arith) (omega arith)

-- The round that ends after the deadline is still to come.
not_last :
    {S : Type 0} (w : World S) (limit round k : ℕ)
    → expired (some limit) (w.clock round) ≡ false
    → round ≤ k
    → limit ≤ w.clock k
    → suc round ≤ k
unfolding expired
not_last w limit round k early a c = ground arith

-- While every attempt fails, and the other processes keep it so, the loop waits until the deadline and
-- then gives up.
module _ {S A : Type 0} (w : World S) (limit : ℕ) (late : Outcome A) (attempt : Action S (Option A))
    (P : S → Type 0) (fails : (s : S) → P s → attempt s ≡ (ok none, s))
    (kept : (i : ℕ) (s : S) → P s → P (w.others i s)) where
  pub spin-never :
      (fuel round k : ℕ) (s : S)
      → round ≤ k
      → k < round + fuel
      → limit ≤ w.clock k
      → P s
      → (s' : S) × P s' × (spin w (some limit) late attempt fuel round s ≡ (late, s'))
  spin-never zero round k s a b c h = absurd (omega arith)
  spin-never (suc fuel) round k s a b c h =
      elim (Bool-cases (expired (some limit) (w.clock round))) [
        | inl passed ↦
            (s, h, spin-late w (some limit) late attempt fuel round s s (fails s h) passed)
        | inr early ↦
            let (s', h', e) =
              spin-never fuel (suc round) k (w.others round s) (not_last w limit round k early a c)
                (omega arith) c (kept round s h) in
            (s', h', spin-again w (some limit) late attempt fuel round s s (fails s h) early ∙ e)
      ]

-- Without a deadline such a loop waits in every number of rounds.
module _ {S A : Type 0} (w : World S) (late : Outcome A) (attempt : Action S (Option A))
    (P : S → Type 0) (fails : (s : S) → P s → attempt s ≡ (ok none, s))
    (kept : (i : ℕ) (s : S) → P s → P (w.others i s)) where
  pub spin-forever :
      (fuel round : ℕ) (s : S) → P s → (spin w none late attempt fuel round s).0 ≡ running
  unfolding spin expired
  spin-forever zero round s h = refl
  spin-forever (suc fuel) round s h =
      ap (λ r. r.0) (spin-again w none late attempt fuel round s s (fails s h) (never round))
      ∙ spin-forever fuel (suc round) (w.others round s) (kept round s h)
    where
      never : (round : ℕ) → expired none (w.clock round) ≡ false
      never round = refl
