-- ===== src/Pipeline/Claim.antt =====
-- patterns/pipeline.py: one claim of one puller, when the lock is free.
use shm_comm.Prelude.{ℕ, suc, ◌≡◌, refl, none, some, arith, eq→==, ◌==◌, if◌then◌else◌, true, false}
use shm_comm.Exec.{ok}
use shm_comm.Exec.Spin.{World}
use shm_comm.Memory.{Memory}
use shm_comm.Names.{Name, same_refl, same→eq}
use shm_comm.Core.Segments.{System, set_object}
use shm_comm.Core.Objects.{on_object-known}
use shm_comm.Fifo
use shm_comm.Fifo.{Payload}
use shm_comm.Buffer.{read_message_shared_tail}
use shm_comm.Buffer.Segment.{IsSegment}
use shm_comm.Buffer.Queue.{contents}
use shm_comm.Buffer.Refine.{read_message_shared_tail-pull_payload}
use shm_comm.Sync
use shm_comm.Sync.{FileLock, set_holder}
use shm_comm.Sync.Laws.{acquire-free, locked}
use shm_comm.Patterns.Objects.{IsOpen, on_shm-IsOpen}
use shm_comm.Pipeline.Puller
use shm_comm.Pipeline.Puller.{Puller}

module _ {n z i : ℕ} (u : Puller) (s : System) (w : World (FileLock × System)) (fuel : ℕ)
    (open_at : IsOpen u.shm i) (free : s.locks u.lock.path ≡ none)
    (segment : IsSegment n z (s.objects i)) where
  -- The system after the claim, whose ring has become `m`.
  abbrev claimed_system : Memory → System
  claimed_system m = record s {
    objects = set_object s.objects i m;
    locks = set_holder (set_holder s.locks u.lock.path (some s.next_fd)) u.lock.path none;
    next_fd = suc s.next_fd;
    open_fds = λ k. if s.next_fd == k then false else if s.next_fd == k then true else s.open_fds k;
  }

  -- If a puller is open on a well-formed segment and nobody holds its lock, then one claim
  -- answers as one pull of the abstract queue of the segment's contents, and leaves a well-
  -- formed segment with the rest of the queue, no open lock file, and every lock as it was.
  pub try_claim_bytes-pull_payload :
      (s' : System) × (Puller.try_claim_bytes w (suc fuel) (u, s) ≡ (
        ok (Fifo.pull_payload (contents n z (s.objects i))).0,
        (record u { lock = record u.lock { fd = none } }, s'),
      ))
      × IsSegment n z (s'.objects i)
      × (contents n z (s'.objects i) ≡ (Fifo.pull_payload (contents n z (s.objects i))).1)
      × ((p : Name) → s'.locks p ≡ s.locks p)
  unfolding Puller.try_claim_bytes Sync.release
  try_claim_bytes-pull_payload =
      let (m, segment', e, c) = read_message_shared_tail-pull_payload segment in
      (
        claimed_system m,
        rw (
          acquire-free u.lock s w fuel none free,
          on_shm-IsOpen open_at read_message_shared_tail (locked u.lock.path s),
          on_object-known i read_message_shared_tail (locked u.lock.path s) _ m e,
          same_refl u.lock.path,
          eq→== s.next_fd s.next_fd refl,
        ),
        rw (eq→== i i refl) segment',
        rw (eq→== i i refl) c,
        λ p. ground (arith, same→eq u.lock.path p),
      )
