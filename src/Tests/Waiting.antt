-- ===== src/Tests/Waiting.antt =====
-- Theorems on the blocking write, at a ring of three slots that holds two payloads.
use shm_comm.Prelude.{
  ℕ, zero, suc, ◌+◌, ◌*◌, ◌<◌, ◌≡◌, refl, true, false, some, [], ◌∷◌, ◌++◌, arith,
}
use shm_comm.Exec.{ok, raised, shm_buffer_full_error}
use shm_comm.Exec.Spin.{World, expired, deadline}
use shm_comm.Memory.{Memory}
use shm_comm.Core.Header.{idx_head, idx_tail, get_field}
use shm_comm.Buffer.{write_message}
use shm_comm.Buffer.Segment.{
  IsSegment, committed, committed-IsSegment, head-committed, get_field-committed,
}
use shm_comm.Buffer.Queue.{contents}
use shm_comm.Buffer.Blocking.{IsFull, write_message-times_out, write_message-waits}
use shm_comm.Lifecycle.Init.{zeros, fields-initialised}
use shm_comm.Tests.{ring, ring-IsSegment, alone}

abbrev one : Memory
one = committed 3 16 (7 ∷ []) ring

abbrev two : Memory
two = committed 3 16 (8 ∷ []) one

one-IsSegment : IsSegment 3 16 one
one-IsSegment = committed-IsSegment ring-IsSegment (7 ∷ []) (omega arith)

two-IsSegment : IsSegment 3 16 two
two-IsSegment = committed-IsSegment one-IsSegment (8 ∷ []) (omega arith)

head-ring : get_field idx_head ring ≡ 0
head-ring = (fields-initialised 3 16 (zeros (128 + 3 * 16)) (omega arith) (omega arith)).2

tail-ring : get_field idx_tail ring ≡ 0
tail-ring = (fields-initialised 3 16 (zeros (128 + 3 * 16)) (omega arith) (omega arith)).3

two-IsFull : IsFull 3 two
two-IsFull = omega (
  arith,
  head-ring,
  tail-ring,
  head-committed ring-IsSegment (7 ∷ []) (omega arith),
  head-committed one-IsSegment (8 ∷ []) (omega arith),
  get_field-committed ring-IsSegment (7 ∷ []) (omega arith) idx_tail (omega arith) (omega arith)
      (omega arith),
  get_field-committed one-IsSegment (8 ∷ []) (omega arith) idx_tail (omega arith) (omega arith)
      (omega arith),
)

write_message-times_out_example :
    (m' : Memory) × (IsSegment 3 16 m' × IsFull 3 m')
    × (write_message alone 3 (9 ∷ []) true (some 2) false two ≡ (raised shm_buffer_full_error, m'))
write_message-times_out_example =
    write_message-times_out alone (9 ∷ []) (omega arith) 3 2 2 two two-IsSegment two-IsFull
      (λ i m h. h) (omega arith) (omega arith)

-- While the writer sleeps for the first time, another process empties the ring.
abbrev emptied : World Memory
emptied = record { started = 0; clock = λ round. round; others = λ round m. ring }

abbrev stage : ℕ → Memory
stage zero = two
stage (suc i) = ring

stage-IsSegment : (i : ℕ) → IsSegment 3 16 (stage i)
stage-IsSegment zero = two-IsSegment
stage-IsSegment (suc i) = ring-IsSegment

stage-IsFull :
    (i : ℕ)
    → i < 1
    → IsFull 3 (stage i)
      × (expired (deadline emptied (some 5)) (emptied.clock i) ≡ false)
      × (stage (suc i) ≡ emptied.others i (stage i))
unfolding expired deadline
stage-IsFull zero lt = (two-IsFull, refl, refl)
stage-IsFull (suc i) lt = absurd (omega arith)

write_message-waits_example :
    (m' : Memory) × (write_message emptied 2 (9 ∷ []) true (some 5) false two ≡ (ok true, m'))
    × IsSegment 3 16 m'
    × (contents 3 16 m' ≡ contents 3 16 ring ++ (9 ∷ []) ∷ [])
write_message-waits_example =
    write_message-waits emptied (9 ∷ []) (omega arith) 2 1 (some 5) stage
      (λ i le. stage-IsSegment i) stage-IsFull (λ e. omega (arith, head-ring, tail-ring))
      (omega arith)
