-- ===== src/Tests/Segments.antt =====
-- Theorems on segments, names, locks and waiting, at one small system.
use shm_comm.Prelude.{
  ℕ, zero, suc, ◌<◌, ◌≡◌, refl, ◌≢◌, true, false, Option, none, some, [], arith, ◌==◌, ◌&&◌, ◌||◌,
  if◌then◌else◌,
}
use shm_comm.Exec.{
  Action, ◌>>=◌, ok, raised, running, attribute_error, shm_connection_error, shm_timeout_error,
}
use shm_comm.Exec.Spin.{World, deadline, expired}
use shm_comm.Memory.{Memory}
use shm_comm.Fifo.{Payload}
use shm_comm.Exec.Waiting.{Waits}
use shm_comm.Names.{Name, codes, same, push_kind, segment_name-injective}
use shm_comm.Lifecycle.Init.{initialised}
use shm_comm.Core.Header.{set_field, idx_magic, idx_version, magic, version, get_field}
use shm_comm.Core.Segments.{System, blocked, lookup, create_segment, attach_segment}
use shm_comm.Buffer.Segment.{IsSegment}
use shm_comm.Buffer.Queue.{contents}
use shm_comm.Lifecycle.Create.{create_segment-fresh}
use shm_comm.Lifecycle.Close.{close-closed}
use shm_comm.ReqRep.Replier
use shm_comm.ReqRep.Replier.{Replier}
use shm_comm.Lifecycle.Attach.{attach_segment-ends, attach_segment-found, attach_segment-missing}
use shm_comm.Utils.{poll_once, poll_until}
use shm_comm.Utils.Poll.{poll_until-first}
use shm_comm.Sync.{FileLock, acquire, release}
use shm_comm.Sync.Laws.{acquire-held, release-acquire}
use shm_comm.Tests.{ring, ring-IsSegment, alone, system, handle, lock, service}

-- The name "a" is taken over.
create_segment-fresh_example :
    (s' : System) × (create_segment (λ name size. true) (codes "a") 3 16 system
      ≡ (ok (record { name = codes "a"; object = 2 }), s'))
    × IsSegment 3 16 (s'.objects 2)
    × (contents 3 16 (s'.objects 2) ≡ [])
    × ((other : Name)
        → lookup other s'.names
          ≡ (if same (codes "a") other then some 2 else lookup other system.names))
    × ((i : ℕ) → s'.objects i ≡ (if 2 == i then s'.objects 2 else system.objects i))
unfolding blocked lookup same initialised set_field
create_segment-fresh_example =
    create_segment-fresh (λ name size. true) (codes "a") 3 16 system (omega arith) (omega arith)
      (omega arith) (omega arith) refl refl

close-closed_example :
    (u' : Replier) × (s' : System) × (Replier.close service.replier system ≡ (ok u', s'))
    × (s'.objects ≡ system.objects)
    × ((name : Name)
        → lookup name s'.names ≡ (
            if same (codes "a") name || same (codes "a") name
            then none
            else lookup name system.names))
    × (Replier.close u' s' ≡ (ok u', s'))
    × ((w : World Memory) (fuel : ℕ) (p : Payload)
        → Replier.send_bytes w fuel u' p s' ≡ (raised attribute_error, s'))
    × (Replier.try_recv_bytes (u', s') ≡ (raised attribute_error, (u', s')))
close-closed_example = close-closed service.replier (handle 0) (handle 1) system refl refl

attach_segment-ends_example : (attach_segment alone 3 (codes "b") 2 system).0 ≢ running
attach_segment-ends_example =
    attach_segment-ends alone (codes "b") 3 2 2 system (omega arith) (omega arith)

attach_segment-found_example : attach_segment alone 1 (codes "a") 2 system ≡ (
  if get_field idx_magic ring == magic && get_field idx_version ring == version
      then ok (record { name = codes "a"; object = 0 })
      else (raised shm_connection_error),
  system,
)
unfolding lookup same
attach_segment-found_example =
    attach_segment-found alone (codes "a") 0 2 system 0 refl (omega (arith, ring-IsSegment.fits))
      (omega arith)

attach_segment-missing_example :
    (attach_segment alone 3 (codes "b") 2 system).0 ≡ raised shm_connection_error
unfolding lookup same
attach_segment-missing_example =
    attach_segment-missing alone (codes "b") 3 2 2 system (λ i t e. e) (omega arith) (omega arith)
      refl

-- The open file 0 keeps the lock.
abbrev taken : System
taken = record system { locks = λ p. some 0 }

acquire-held_example :
    (u : FileLock × System) × (acquire alone 3 (some 2) (lock, taken)
      ≡ (raised shm_timeout_error, u))
    × (u.0.fd ≡ none)
    × (u.1.open_fds 1 ≡ false)
    × (u.1.locks (codes "l") ≡ some 0)
unfolding deadline
acquire-held_example =
    acquire-held lock taken alone 2 (some 2) 0 2 2 refl (omega arith) (omega arith) refl
      (omega arith) (λ i u v. v)

release-acquire_example :
    (s' : System) × ((acquire alone 1 none >>= λ _. release) (lock, system)
      ≡ (ok tt, (record lock { fd = none }, s')))
    × (s'.objects ≡ system.objects)
    × (s'.names ≡ system.names)
    × ((p : Name) → s'.locks p ≡ system.locks p)
    × ((k : ℕ) → s'.open_fds k ≡ (if 1 == k then false else system.open_fds k))
release-acquire_example = release-acquire lock system alone 0 none refl

-- A counter that is found from 1 on.
abbrev count : Action ℕ (Option ℕ)
count n = (ok (if n == 0 then none else some n), suc n)

count-Waits :
    (i : ℕ)
    → i < 2
    → Waits alone
        (deadline {S = ℕ} alone none)
        (ok none)
        (poll_once (λ n. n == 1) count)
        (λ i. i)
        suc
        i
unfolding deadline poll_once expired
count-Waits zero lt = (refl, refl, refl)
count-Waits (suc zero) lt = (refl, refl, refl)
count-Waits (suc (suc i)) lt = absurd (omega arith)

-- Nothing is found in round 0, a falsy value in round 1, and a value in round 2.
poll_until-first_example : poll_until (λ n. n == 1) count alone 3 none 0 ≡ (ok (some 2), 3)
poll_until-first_example =
    poll_until-first (λ n. n == 1) count alone none (λ i. i) suc 2 3 2 3 count-Waits (omega arith)
      refl refl

segment_name-injective_example : (push_kind ≡ push_kind) × (codes "a" ≡ codes "a")
segment_name-injective_example =
    segment_name-injective push_kind push_kind (codes "a") (codes "a") refl
