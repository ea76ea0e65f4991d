-- ===== src/Tests/Races.antt =====
-- Theorems on turns within a call, on locks and on requests, at one small system.
use shm_comm.Prelude.{
  ℕ, ◌+◌, ◌≤◌, ◌≡◌, refl, true, false, none, some, List, [], ◌∷◌, arith, ◌++◌, ◌≢◌, if◌then◌else◌,
}
use shm_comm.Exec.{Action, ok, raised, shm_timeout_error, ◌>>=◌}
use shm_comm.Exec.Spin.{deadline}
use shm_comm.Names.{Name, codes, same, same_refl}
use shm_comm.Core.Segments.{System}
use shm_comm.Mailbox
use shm_comm.Buffer.{slot_offset, write_slot, unpack_from, load_slice}
use shm_comm.Buffer.Segment.{IsSegment}
use shm_comm.Buffer.Slots.{put_payload, slot_inside}
use shm_comm.Buffer.Queue.{contents}
use shm_comm.Buffer.Torn.{torn_read}
use shm_comm.Lifecycle.Init.{contents-initialised}
use shm_comm.Sync.{FileLock, lock_path, acquire, release, named_lock}
use shm_comm.Sync.Laws.{locked}
use shm_comm.Sync.Named.{named_lock_lem, release-acquire_held}
use shm_comm.Serialize.{pickle, serialize, deserialize}
use shm_comm.ReqRep.Requester
use shm_comm.ReqRep.Requester.{Requester}
use shm_comm.ReqRep.Service
use shm_comm.ReqRep.Service.{Service, Boxes, call, box_call, post_serialized}
use shm_comm.ReqRep.Service.Links.{Linked}
use shm_comm.ReqRep.Service.Calls.{call-box_call}
use shm_comm.ReqRep.Service.Requests.{request-unread, request-unanswered}
use shm_comm.Race.{Event, submit, write, read, run, step, WriterPc, ReaderPc}
use shm_comm.Race.Facts.{critical}
use shm_comm.Race.Safety.{start, sent-taken_contents, mutual_exclusion}
use shm_comm.Tests.{
  ring, ring-IsSegment, alone, system, library, lock, service, empty_boxes, service-Linked,
}

ring-is_empty : contents 3 16 ring ≡ []
ring-is_empty = contents-initialised 3 16 (omega arith) (omega arith) (omega arith) (omega arith)

-- Two readers and the writer take turns while the writer is in one call.
abbrev turns : List Event
turns =
    submit (7 ∷ []) false
    ∷ write
    ∷ read 4
    ∷ write
    ∷ write
    ∷ read 5
    ∷ write
    ∷ write
    ∷ read 4
    ∷ write
    ∷ write
    ∷ read 4
    ∷ write
    ∷ read 4
    ∷ read 4
    ∷ read 4
    ∷ read 4
    ∷ read 5
    ∷ []

sent-taken_contents_example :
    ((run turns (start ring)).sent
      ≡ (run turns (start ring)).taken ++ contents 3 16 (run turns (start ring)).memory)
    × IsSegment 3 16 (run turns (start ring)).memory
    × ((run turns (start ring)).writer ≢ WriterPc.failed)
    × ((i : ℕ) → (run turns (start ring)).readers i ≢ ReaderPc.failed)
sent-taken_contents_example = sent-taken_contents ring-IsSegment ring-is_empty turns

-- Reader 5 finds the lock held by reader 4.
abbrev contended : List Event
contended = submit (7 ∷ []) false ∷ write ∷ read 4 ∷ read 5 ∷ []

holds_lock : critical ((run contended (start ring)).readers 4) ≡ true
unfolding run step
holds_lock = refl

mutual_exclusion_example : ◌≡◌ {A = ℕ} 4 4
mutual_exclusion_example =
    mutual_exclusion ring-IsSegment ring-is_empty contended 4 4 holds_lock holds_lock

slot_fits : slot_offset 1 16 + 16 ≤ ring.size
slot_fits = omega (arith, slot_inside 1 3 16 (omega arith), ring-IsSegment.fits)

torn_read_example :
    (write_slot 1 16 (1 ∷ 2 ∷ 3 ∷ 4 ∷ []) >>= λ _.
    unpack_from (slot_offset 1 16) >>= λ payload_size.
    write_slot 1 16 (9 ∷ 8 ∷ []) >>= λ _. load_slice (slot_offset 1 16 + 4) payload_size)
      ring
    ≡ (
      ok (9 ∷ 8 ∷ 3 ∷ 4 ∷ []),
      put_payload 16 1 (9 ∷ 8 ∷ []) (put_payload 16 1 (1 ∷ 2 ∷ 3 ∷ 4 ∷ []) ring),
    )
torn_read_example =
    torn_read 16 1 (1 ∷ 2 ∷ 3 ∷ 4 ∷ []) (9 ∷ 8 ∷ []) ring (omega arith) (omega arith) (omega arith)
      slot_fits

abbrev five : Action (FileLock × System) ℕ
five st = (ok 5, st)

-- The system inside the block.
abbrev inside : System
inside = locked (lock_path (codes "l")) system

named_lock_lem_example :
    (s : System) × (named_lock alone 1 (codes "l") none five system ≡ (ok 5, s))
    × (s.objects ≡ system.objects)
    × (s.open_fds 1 ≡ false)
    × ((path : Name)
        → s.locks path ≡ (if same (lock_path (codes "l")) path then none else inside.locks path))
named_lock_lem_example =
    named_lock_lem alone 0 (codes "l") none five system inside (ok 5) refl refl (λ e. cc)
      (rw same_refl)

abbrev taken : System
taken = record system { locks = λ p. some 0 }

abbrev holder : FileLock
holder = record lock { fd = some 0 }

release-acquire_held_example :
    (u : FileLock × System) × (acquire alone 3 (some 2) (holder, taken)
      ≡ (raised shm_timeout_error, u))
    × ((release u).0 ≡ ok tt)
    × ((release u).1.1.locks (codes "l") ≡ some 0)
unfolding deadline
release-acquire_held_example =
    release-acquire_held holder taken alone 2 (some 2) 0 2 2 refl refl (omega arith) refl
      (omega arith) (omega arith) (λ i u v. v)

-- The service after a reply that nobody has asked for.
abbrev replied : Service
replied = (call library alone 1 (Service.send_reply (8 ∷ [])) service).1

abbrev replied_boxes : Boxes
replied_boxes = (box_call library 2 12 pickle pickle (Service.send_reply (8 ∷ [])) empty_boxes).1

replied-Linked : Linked 3 16 0 1 pickle pickle replied replied_boxes
replied-Linked = (call-box_call service-Linked library alone 0 (Service.send_reply (8 ∷ []))).1

request-unread_example :
    (q : Requester) × (s : System) × (Requester.request library alone alone 1
        (7 ∷ [])
        none
        (replied.requester, replied.system)
      ≡ (ok (8 ∷ []), (q, s)))
    × Linked 3 16 0 1 pickle pickle
        (record replied { requester = q; system = s })
        (record {
          requests =
              (post_serialized 2 12 (serialize library (7 ∷ []) pickle) replied_boxes.requests).1;
          replies = (Mailbox.take replied_boxes.replies).1;
        })
unfolding box_call serialize deserialize Mailbox.post Mailbox.take
request-unread_example =
    request-unread library replied-Linked alone 0 (7 ∷ []) alone none true (8 ∷ []) (8 ∷ []) refl
      refl refl refl

request-unanswered_example :
    (Requester.request library alone alone 3
      (7 ∷ [])
      (some 2)
      (service.requester, service.system)).0
    ≡ raised shm_timeout_error
unfolding serialize Mailbox.post Mailbox.take
request-unanswered_example =
    request-unanswered library service-Linked alone 2 (7 ∷ []) alone 2 2 true refl refl
      (λ j st h. h) (omega arith) (omega arith)
