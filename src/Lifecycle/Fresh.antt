-- ===== src/Lifecycle/Fresh.antt =====
-- A new segment as the start of each of the three patterns.
use shm_comm.Prelude.{ℕ, ◌+◌, ◌*◌, ◌^◌, ◌≤◌, ◌<◌, ◌≡◌, refl, sym, ap, ◌∙◌, [], arith}
use shm_comm.Core.Header.{idx_head, get_field}
use shm_comm.Ring.Cursor.{back, back-zero}
use shm_comm.Feed.{Feed, pending}
use shm_comm.Mailbox
use shm_comm.Fifo.{Payload}
use shm_comm.Buffer.History.{Keeps-nil}
use shm_comm.Buffer.Subscription.{Tracks}
use shm_comm.Buffer.Exchange.{Posted}
use shm_comm.Lifecycle.Init.{zeros, initialised, fields-initialised, initialised-IsSegment}
use shm_comm.Prelude.Remainder.{mod-below}

abbrev pub no_publications : Feed Payload
no_publications = record { sent = []; place = 0 }

module _ (n z : ℕ) (some_slot : 0 < n) (few : n < 2 ^ 63) (prefix : 4 ≤ z)
    (narrow : z ≤ 2 ^ 32) where
  pub head-fresh : get_field idx_head (initialised n z (zeros (128 + n * z))) ≡ 0
  head-fresh = (fields-initialised n z (zeros (128 + n * z)) few narrow).2

  -- A subscriber that attaches to a new segment starts at the beginning of an empty feed.
  pub fresh-Tracks : Tracks n z (initialised n z (zeros (128 + n * z))) 0 no_publications
  unfolding pending
  fresh-Tracks = record {
    segment = initialised-IsSegment n z some_slot few prefix narrow;
    keeps = Keeps-nil n z _;
    due = omega arith;
    cursor =
        sym head-fresh
        ∙ sym (back-zero n _ (omega (arith, head-fresh)))
        ∙ ap (back n (get_field idx_head (initialised n z (zeros (128 + n * z)))))
            (sym (mod-below 0 n some_slot));
  }

  -- Each direction of a new service is an empty box.
  pub fresh-Posted : Posted n z (initialised n z (zeros (128 + n * z))) 0 Mailbox.fresh
  fresh-Posted = record {
    segment = initialised-IsSegment n z some_slot few prefix narrow;
    keeps = Keeps-nil n z _;
    tail = (fields-initialised n z (zeros (128 + n * z)) few narrow).3;
    head = head-fresh;
    read = omega arith;
    cursor = refl;
  }
