-- ===== src/Exec/Spin.antt =====
-- The waiting loops: `while True: try once; give up at the deadline; sleep`.
-- The loop of `write_message`, of `poll_until` and of `FileLock.acquire` is `spin`, each with its
-- own attempt; `deadline is None` waits without end.
use shm_comm.Prelude.{ℕ, zero, suc, ◌+◌, ◌≡◌, Bool, true, false, Option, none, some, leb}
use shm_comm.Exec.{Exn, Outcome, ok, raised, running, Action}

-- What a waiting loop meets outside: the time when it starts, the reading of `time.monotonic()` in
-- each round, and what other processes do to the state while it sleeps after that round.
pub record World (S : Type 0) : Type 0 where
  pub started : ℕ
  pub clock : ℕ → ℕ
  pub others : ℕ → S → S

-- `deadline is not None and time.monotonic() >= deadline`
unfoldable pub expired : Option ℕ → ℕ → Bool
expired none now = false
expired (some d) now = leb d now

-- `(time.monotonic() + timeout) if timeout is not None else None`
unfoldable pub deadline : {S : Type 0} → World S → Option ℕ → Option ℕ
deadline w none = none
deadline w (some t) = some (w.started + t)

module _ {S A : Type 0} (w : World S) (limit : Option ℕ) (late : Outcome A)
    (attempt : Action S (Option A)) where
  -- One round after its attempt; `rest` is the loop from the next round on.
  abbrev after_attempt : ℕ → (S → Outcome A × S) → Outcome (Option A) → S → Outcome A × S
  after_attempt round rest (ok (some a)) s = (ok a, s)
  after_attempt round rest (ok none) s = elim (expired limit (w.clock round)) [
    | true ↦ (late, s)
    | false ↦ rest (w.others round s)
  ]
  after_attempt round rest (raised e) s = (raised e, s)
  after_attempt round rest running s = (running, s)

  -- `fuel` rounds at most, the next of which is number `round`.
  unfoldable pub spin : ℕ → ℕ → Action S A
  spin zero round s = (running, s)
  spin (suc fuel) round s =
      after_attempt round (λ s'. spin fuel (suc round) s') (attempt s).0 (attempt s).1

  pub spin-done :
      (fuel round : ℕ) (s s' : S) (a : A)
      → attempt s ≡ (ok (some a), s')
      → spin (suc fuel) round s ≡ (ok a, s')
  unfolding spin
  spin-done fuel round s s' a e = rw e

  pub spin-raised :
      (fuel round : ℕ) (s s' : S) (x : Exn)
      → attempt s ≡ (raised x, s')
      → spin (suc fuel) round s ≡ (raised x, s')
  unfolding spin
  spin-raised fuel round s s' x e = rw e

  pub spin-late :
      (fuel round : ℕ) (s s' : S)
      → attempt s ≡ (ok none, s')
      → expired limit (w.clock round) ≡ true
      → spin (suc fuel) round s ≡ (late, s')
  unfolding spin
  spin-late fuel round s s' e x = rw (e, after_attempt, x)

  pub spin-again :
      (fuel round : ℕ) (s s' : S)
      → attempt s ≡ (ok none, s')
      → expired limit (w.clock round) ≡ false
      → spin (suc fuel) round s ≡ spin fuel (suc round) (w.others round s')
  unfolding spin
  spin-again fuel round s s' e x = rw (e, after_attempt, x)
