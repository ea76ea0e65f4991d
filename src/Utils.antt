-- ===== src/Utils.antt =====
-- utils.py: the polling helper `poll_until`.
pub mod Poll
pub mod Cleanup
pub mod Platform
use shm_comm.Prelude.{ℕ, Bool, Option, none, some, if◌then◌else◌}
use shm_comm.Exec.{Action, ok, pure, ◌>>=◌}
use shm_comm.Exec.Spin.{World, deadline, spin}

module _ {S A : Type 0} (falsy : A → Bool) (check_fn : Action S (Option A)) where
  -- One round: `none` is Python's None, and so is a value that is `falsy`, the test for a returned
  -- object that is None or False itself.
  unfoldable pub poll_once : Action S (Option (Option A))
  poll_once = do
    result ← check_fn
    pure (elim result [ none ↦ none | some a ↦ if falsy a then none else some (some a) ])

  -- `poll_until(check_fn, timeout)`, with `none` on timeout.
  unfoldable pub poll_until : World S → ℕ → Option ℕ → Action S (Option A)
  poll_until w fuel timeout = spin w (deadline w timeout) (ok none) poll_once fuel 0
