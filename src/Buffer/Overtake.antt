-- ===== src/Buffer/Overtake.antt =====
-- A publisher that goes on while a subscriber reads: how many publications may come between the two
-- accesses of `_read_slot`.
use shm_comm.Prelude.{
  ℕ, suc, ◌+◌, ◌-◌, ◌%◌, ◌<◌, ◌≡◌, sym, ap, ◌∙◌, some, List, ◌++◌, length, length-append, get_elem?,
  get_elem?-append, arith,
}
use shm_comm.Prelude.Remainder.{mod-add_small}
use mathlib.Core.Option.{some-injective}
use shm_comm.Exec.{ok}
use shm_comm.Exec.Spin.{World}
use shm_comm.Memory.{Memory}
use shm_comm.Fifo.{Payload}
use shm_comm.Feed.{Feed, pending, receive}
use shm_comm.Buffer.{slot_offset, unpack_from, load_slice}
use shm_comm.Buffer.Slots.{size_at, payload_at}
use shm_comm.Buffer.SlotReads.{length-payload_at, unpack_from-size_at, load_slice-payload_at}
use shm_comm.Buffer.Subscription.{Tracks, cursor-lt, found, receive-some, pending-le}
use shm_comm.Buffer.Burst.{publish_all, AllFit, publish_all-Tracks}

module _ {n z c : ℕ} {m : Memory} {f : Feed Payload} (t : Tracks n z m c f) (d : ℕ)
    (e : pending n f ≡ suc d) (w : World Memory) (fuel : ℕ) (ps : List Payload) (fit : AllFit z ps)
    (few : suc d + length ps < n) where
  abbrev later : Memory
  later = publish_all w fuel ps m

  abbrev longer : Feed Payload
  longer = record f { sent = f.sent ++ ps }

  still : Tracks n z later c longer
  still = publish_all-Tracks w fuel ps t fit

  pending-longer : pending n longer ≡ suc (d + length ps)
  unfolding pending
  pending-longer =
      ap (λ (k : ℕ). k % n) (omega (arith, length-append f.sent ps, t.due))
      ∙ mod-add_small (length f.sent - f.place) (length ps) n (omega (arith, e))
      ∙ omega (arith, e)

  -- The slot at the cursor has not been written over.
  payload-later : payload_at z later c ≡ payload_at z m c
  payload-later = some-injective _ _ (
      found still (d + length ps) pending-longer
      ∙ ap (get_elem? (f.sent ++ ps)) (omega (arith, length-append f.sent ps, pending-le t))
      ∙ get_elem?-append f.sent ps (length f.sent - suc d) (omega (arith, pending-le t))
      ∙ sym (found t d e))

  size-later : size_at z later c ≡ size_at z m c
  size-later =
      sym (length-payload_at still.segment c (cursor-lt t d e))
      ∙ ap length payload-later
      ∙ length-payload_at t.segment c (cursor-lt t d e)

  -- When a well-formed segment of n slots and a private cursor agree with a feed that has d + 1
  -- publications pending, and between the reading of the size and the reading of the payload of
  -- the slot at the cursor a list of payloads that fit is published, fewer than n - d - 1 of
  -- them, then what is read is the payload that the feed's receive gives, whole.
  pub not_overtaken :
      (p : Payload) × (payload_size : ℕ) × ((receive n f).0 ≡ some p)
      × (unpack_from (slot_offset c z) m ≡ (ok payload_size, m))
      × (load_slice (slot_offset c z + 4) payload_size (publish_all w fuel ps m)
          ≡ (ok p, publish_all w fuel ps m))
  not_overtaken = (
    payload_at z m c,
    size_at z m c,
    ap (λ r. r.0) (receive-some t d e),
    unpack_from-size_at t.segment c (cursor-lt t d e),
    ap (λ k. load_slice (slot_offset c z + 4) k later) (sym size-later)
        ∙ load_slice-payload_at z c later
        ∙ ap (λ q. (ok q, later)) payload-later,
  )
