-- ===== src/Utils/Poll.antt =====
-- When `poll_until` ends, and with what.
use shm_comm.Prelude.{ℕ, ◌+◌, ◌≤◌, ◌<◌, ◌≡◌, ◌≢◌, Bool, true, false, Option, none, some, arith}
use shm_comm.Exec.{Action, ok, running}
use shm_comm.Exec.Spin.{World, deadline}
use shm_comm.Exec.Waiting.{Waits, spin-ends, spin-first, spin-never}
use shm_comm.Utils.{poll_once, poll_until}

module _ {S A : Type 0} (falsy : A → Bool) (check_fn : Action S (Option A)) where
  poll_once-ends : (s : S) → (check_fn s).0 ≢ running → (poll_once falsy check_fn s).0 ≢ running
  unfolding poll_once
  poll_once-ends s h = ground arith

  -- A found value that is not None or False is passed on.
  pub poll_once-found :
      (s s' : S) (a : A)
      → check_fn s ≡ (ok (some a), s')
      → falsy a ≡ false
      → poll_once falsy check_fn s ≡ (ok (some (some a)), s')
  unfolding poll_once
  poll_once-found s s' a e h = rw (e, h)

  -- A found value that is None or False is lost: the next round starts behind it.
  pub poll_once-skipped :
      (s s' : S) (a : A)
      → check_fn s ≡ (ok (some a), s')
      → falsy a ≡ true
      → poll_once falsy check_fn s ≡ (ok none, s')
  unfolding poll_once
  poll_once-skipped s s' a e h = rw (e, h)

  pub poll_once-nothing :
      (s s' : S) → check_fn s ≡ (ok none, s') → poll_once falsy check_fn s ≡ (ok none, s')
  unfolding poll_once
  poll_once-nothing s s' e = rw e

  module _ (w : World S) where
    -- If the check always ends, and the clock has passed the deadline by round k, then a poll
    -- with that timeout and more than k rounds ends, whatever the other processes do and the
    -- check finds.
    pub poll_until-ends :
        (fuel timeout k : ℕ) (s : S)
        → ((s' : S) → (check_fn s').0 ≢ running)
        → w.started + timeout ≤ w.clock k
        → k < fuel
        → (poll_until falsy check_fn w fuel (some timeout) s).0 ≢ running
    unfolding poll_until deadline
    poll_until-ends fuel timeout k s ends late enough =
        spin-ends w (w.started + timeout) (ok none) (poll_once falsy check_fn)
          (λ s'. poll_once-ends s' (ends s')) (λ e. cc) fuel 0 k s (omega arith) (omega arith) late

    -- If rounds 0 to k - 1 find nothing or a value that counts as None or False, all before
    -- the deadline, and round k finds a value that does not, then the poll, given more than k
    -- rounds, returns that value with the state of that round.
    pub poll_until-first :
        (timeout : Option ℕ) (st mid : ℕ → S) (k fuel : ℕ) (a : A) (s' : S)
        → ((i : ℕ)
            → i < k
            → Waits w (deadline w timeout) (ok none) (poll_once falsy check_fn) st mid i)
        → k < fuel
        → check_fn (st k) ≡ (ok (some a), s')
        → falsy a ≡ false
        → poll_until falsy check_fn w fuel timeout (st 0) ≡ (ok (some a), s')
    unfolding poll_until
    poll_until-first timeout st mid k fuel a s' waits enough e h =
        spin-first w (deadline w timeout) (ok none) (poll_once falsy check_fn) st mid k waits fuel
          (some a) s' enough (poll_once-found (st k) s' a e h)

    -- If the check finds nothing, and still finds nothing after what the other processes do, the
    -- poll gives up with None in the first round that ends after the deadline.
    pub poll_until-never :
        (fuel timeout k : ℕ) (s : S)
        → check_fn s ≡ (ok none, s)
        → ((i : ℕ) (s' : S)
            → check_fn s' ≡ (ok none, s')
            → check_fn (w.others i s') ≡ (ok none, w.others i s'))
        → w.started + timeout ≤ w.clock k
        → k < fuel
        → (s' : S) × (poll_until falsy check_fn w fuel (some timeout) s ≡ (ok none, s'))
    unfolding poll_until deadline
    poll_until-never fuel timeout k s nothing kept late enough =
        let (s', h, e) =
          spin-never w (w.started + timeout) (ok none) (poll_once falsy check_fn)
            (λ u. check_fn u ≡ (ok none, u)) (λ u h. poll_once-nothing u u h) kept fuel 0 k s
            (omega arith) (omega arith) late nothing in
        (s', e)
