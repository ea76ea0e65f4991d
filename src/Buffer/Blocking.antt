-- ===== src/Buffer/Blocking.antt =====
-- `write_message` with `block=True` on a full ring: the wait for a free slot.
use shm_comm.Prelude.{
  ℕ, suc, ◌+◌, ◌%◌, ◌≤◌, ◌<◌, ◌≡◌, ◌≢◌, refl, true, false, Option, none, some, arith, [], ◌∷◌, ◌++◌,
  length, le→leb,
}
use shm_comm.Exec.{ok, raised, running, shm_buffer_full_error}
use shm_comm.Exec.Spin.{World, expired, deadline, spin}
use shm_comm.Exec.Waiting.{spin-never, spin-first, spin-forever}
use shm_comm.Memory.{Memory}
use shm_comm.Core.Header.{idx_head, idx_tail, get_field}
use shm_comm.Fifo.{Payload}
use shm_comm.Buffer.{try_room, wait_for_room, write_message}
use shm_comm.Buffer.Segment.{IsSegment, committed, commit-committed, committed-IsSegment}
use shm_comm.Buffer.Queue.{contents, contents-committed}
use shm_comm.Buffer.Write.{header_inside, try_room-free, try_room-wait}

-- The next head is the tail.
abbrev pub IsFull : ℕ → Memory → Type 0
IsFull n m = (get_field idx_head m + 1) % n ≡ get_field idx_tail m

module _ {n z : ℕ} (w : World Memory) (p : Payload) (room : length p + 4 ≤ z) where
  -- If the ring is full, the other processes keep the segment well formed and full, and the
  -- clock has passed the deadline by round k, then a blocking write of a payload that fits,
  -- with more than k rounds, raises the buffer-full error and leaves the segment well formed
  -- and full.
  pub write_message-times_out :
      (fuel t k : ℕ) (m : Memory)
      → IsSegment n z m
      → IsFull n m
      → ((i : ℕ) (m' : Memory)
          → IsSegment n z m' × IsFull n m'
          → IsSegment n z (w.others i m') × IsFull n (w.others i m'))
      → w.started + t ≤ w.clock k
      → k < fuel
      → (m' : Memory) × (IsSegment n z m' × IsFull n m')
        × (write_message w fuel p true (some t) false m ≡ (raised shm_buffer_full_error, m'))
  unfolding write_message wait_for_room deadline
  write_message-times_out fuel t k m s full kept late enough =
      let (m', h, e) =
        spin-never w (w.started + t) (raised shm_buffer_full_error) (try_room n true)
          (λ u. IsSegment n z u × IsFull n u) (λ u v. try_room-wait v.0 v.1) kept fuel 0 k m
          (omega arith) (omega arith) late (s, full) in
      (
        m',
        h,
        rw (
          le→leb 128 m.size (header_inside s),
          s.slot_size,
          s.num_slots,
          le→leb (length p + 4) z room,
          e,
        ),
      )

  -- If the segment is well formed and full in rounds 0 to k - 1, all before the deadline (if
  -- there is one), and in round k the other processes have left a well-formed segment with a
  -- free slot, then a blocking write of a payload that fits, with more than k rounds, answers
  -- True, and the segment is well formed and holds what it held in round k and then the
  -- payload.
  pub write_message-waits :
      (fuel k : ℕ) (timeout : Option ℕ) (st : ℕ → Memory)
      → ((i : ℕ) → i ≤ k → IsSegment n z (st i))
      → ((i : ℕ)
          → i < k
          → IsFull n (st i)
            × (expired (deadline w timeout) (w.clock i) ≡ false)
            × (st (suc i) ≡ w.others i (st i)))
      → (get_field idx_head (st k) + 1) % n ≢ get_field idx_tail (st k)
      → k < fuel
      → (m' : Memory) × (write_message w fuel p true timeout false (st 0) ≡ (ok true, m'))
        × IsSegment n z m'
        × (contents n z m' ≡ contents n z (st k) ++ p ∷ [])
  unfolding write_message wait_for_room
  write_message-waits fuel k timeout st segment waits free enough = (
    committed n z p (st k),
    rw (
      le→leb 128 (st 0).size (header_inside (segment 0 (omega arith))),
      (segment 0 (omega arith)).slot_size,
      (segment 0 (omega arith)).num_slots,
      le→leb (length p + 4) z room,
      spin-first w (deadline w timeout) (raised shm_buffer_full_error) (try_room n true) st st k
          (λ i lt.
            let (full, early, next) = waits i lt in
            (try_room-wait (segment i (omega arith)) full, early, next))
          fuel true (st k) enough (try_room-free (segment k (omega arith)) true free),
      commit-committed (segment k (omega arith)) p room,
    ),
    committed-IsSegment (segment k (omega arith)) p room,
    contents-committed (segment k (omega arith)) p room free,
  )

  -- Without a timeout such a write does not end in any number of rounds.
  pub write_message-waits_on :
      (fuel : ℕ) (m : Memory)
      → IsSegment n z m
      → IsFull n m
      → ((i : ℕ) (m' : Memory)
          → IsSegment n z m' × IsFull n m'
          → IsSegment n z (w.others i m') × IsFull n (w.others i m'))
      → (write_message w fuel p true none false m).0 ≡ running
  unfolding write_message wait_for_room deadline
  write_message-waits_on fuel m s full kept =
      let e : (spin w none (raised shm_buffer_full_error) (try_room n true) fuel 0 m).0 ≡ running =
        spin-forever w (raised shm_buffer_full_error) (try_room n true)
          (λ u. IsSegment n z u × IsFull n u) (λ u v. try_room-wait v.0 v.1) kept fuel 0 m
          (s, full) in
      rw
        (
          le→leb 128 m.size (header_inside s),
          s.slot_size,
          s.num_slots,
          le→leb (length p + 4) z room,
          e,
        )
        refl
