-- ===== src/Buffer/Refine.antt =====
-- The push/pull side of buffer.py (`write_message` without overwriting, `read_message_shared_tail`) against
-- the abstract queue `Fifo`.
use shm_comm.Prelude.{
  ℕ, suc, ◌+◌, ◌-◌, ◌%◌, ◌≡◌, refl, false, Option, none, List, [], ◌∷◌, length, arith, le→leb,
  lt→leb, ℕ_discrete, dec_le,
}
use shm_comm.Exec.{ok}
use shm_comm.Exec.Spin.{World}
use shm_comm.Memory.{Memory}
use shm_comm.Fifo
use shm_comm.Fifo.{Payload, Call, push, pull, Answer, pushed, pulled}
use shm_comm.Buffer.{write_message, read_message_shared_tail}
use shm_comm.Buffer.Segment.{IsSegment, committed, committed-IsSegment}
use shm_comm.Buffer.Fields.{dropped, claimed, dropped-IsSegment, claimed-IsSegment}
use shm_comm.Buffer.Write.{write_message-too_large, write_message-free, write_message-full}
use shm_comm.Buffer.Read.{read_message_shared_tail-empty, read_message_shared_tail-some}
use shm_comm.Buffer.Queue.{
  head_of, tail_of, contents, contents-committed, contents-dropped, contents-claimed,
  contents-empty, at_limit, below_limit,
}

-- A client's nonblocking writes and its reads of the shared tail, in order.
unfoldable pub run : World Memory → ℕ → List Call → Memory → List Answer
run w fuel [] m = []
run w fuel (push p ∷ calls) m =
    pushed (write_message w fuel p false none false m).0
    ∷ run w fuel calls (write_message w fuel p false none false m).1
run w fuel (pull ∷ calls) m =
    pulled (read_message_shared_tail m).0 ∷ run w fuel calls (read_message_shared_tail m).1

module _ {n z : ℕ} {m : Memory} (s : IsSegment n z m) where
  open s use {some_slot, prefix}

  -- On a well-formed segment of n slots of z bytes, one nonblocking write that respects the
  -- shared tail leaves a well-formed segment, on each of its branches (too large, full,
  -- written), and does to its contents, and answers, what a push on the abstract queue of n - 1
  -- payloads of z - 4 bytes does.
  pub write_message-push_payload :
      (w : World Memory) (fuel : ℕ) (p : Payload) (t : Option ℕ)
      → (m' : Memory) × IsSegment n z m'
        × (write_message w (suc fuel) p false t false m
            ≡ ((Fifo.push_payload (n - 1) (z - 4) p (contents n z m)).0, m'))
        × (contents n z m' ≡ (Fifo.push_payload (n - 1) (z - 4) p (contents n z m)).1)
  unfolding Fifo.push_payload
  write_message-push_payload w fuel p t = elim (dec_le (length p + 4) z) [
    | no big ↦ (
      m,
      s,
      rw (lt→leb (length p) (z - 4) (omega arith))
          (write_message-too_large s w (suc fuel) p false t false (omega arith)),
      rw (lt→leb (length p) (z - 4) (omega arith)),
    )
    | yes room ↦ elim (ℕ_discrete ((head_of m + 1) % n) (tail_of m)) [
      | yes full ↦ (
        dropped m,
        dropped-IsSegment s,
        rw (le→leb (length p) (z - 4) (omega arith), at_limit s full)
            (write_message-full s w fuel p false t room full),
        rw (le→leb (length p) (z - 4) (omega arith), at_limit s full) (contents-dropped s),
      )
      | no free ↦ (
        committed n z p m,
        committed-IsSegment s p room,
        rw (le→leb (length p) (z - 4) (omega arith), below_limit s free)
            (write_message-free s w fuel p false t room free),
        rw (le→leb (length p) (z - 4) (omega arith), below_limit s free)
            (contents-committed s p room free),
      )
    ]
  ]

  -- One read of the shared tail is one pull of the abstract queue.
  pub read_message_shared_tail-pull_payload :
      (m' : Memory) × IsSegment n z m'
      × (read_message_shared_tail m ≡ (ok (Fifo.pull_payload (contents n z m)).0, m'))
      × (contents n z m' ≡ (Fifo.pull_payload (contents n z m)).1)
  unfolding Fifo.pull_payload
  read_message_shared_tail-pull_payload = elim (ℕ_discrete (tail_of m) (head_of m)) [
    | yes empty ↦ (
      m,
      s,
      rw (contents-empty s empty) (read_message_shared_tail-empty s empty),
      rw (contents-empty s empty),
    )
    | no ne ↦ (
      claimed n m,
      claimed-IsSegment s,
      rw (contents-claimed s ne) (read_message_shared_tail-some s ne),
      rw (contents-claimed s ne),
    )
  ]

-- From a well-formed segment of n slots of z bytes, any sequence of nonblocking writes that
-- respect the shared tail, and of reads of the shared tail, gives, call by call, the answers of
-- the abstract queue that starts with the segment's contents, takes at most n - 1 payloads, and
-- raises for a payload of more than z - 4 bytes. One round of the waiting loop is enough.
pub run_refines :
    {n z : ℕ} (w : World Memory) (fuel : ℕ) (calls : List Call) {m : Memory}
    → IsSegment n z m
    → run w (suc fuel) calls m ≡ Fifo.run (n - 1) (z - 4) calls (contents n z m)
unfolding run Fifo.run
run_refines w fuel [] s = refl
run_refines w fuel (push p ∷ calls) s =
    let (m', s', e, c) = write_message-push_payload s w fuel p none in
    rw (e, ← c, run_refines w fuel calls s')
run_refines w fuel (pull ∷ calls) s =
    let (m', s', e, c) = read_message_shared_tail-pull_payload s in
    rw (e, ← c, run_refines w fuel calls s')
