-- ===== src/Pipeline/Queue.antt =====
-- patterns/pipeline.py: a pusher and its pullers on one channel, in any order of whole calls, and the
-- same calls on the abstract queue `Fifo`.
use shm_comm.Prelude.{ℕ, ◌≡◌, false, Bool, Option, none, List, [], ◌∷◌, ◌==◌, if◌then◌else◌}
use shm_comm.Exec.{Outcome, ok, raised, running}
use shm_comm.Exec.Spin.{World}
use shm_comm.Memory.{Memory}
use shm_comm.Names.{Name}
use shm_comm.Core.Segments.{System}
use shm_comm.Fifo
use shm_comm.Fifo.{Payload}
use shm_comm.Buffer.Segment.{IsSegment}
use shm_comm.Buffer.Queue.{contents}
use shm_comm.Serialize.{Library, Method, serialize}
use shm_comm.Sync.{FileLock}
use shm_comm.Patterns.{decode}
use shm_comm.Patterns.Objects.{IsOpen}
use shm_comm.Pipeline.Pusher
use shm_comm.Pipeline.Pusher.{Pusher}
use shm_comm.Pipeline.Puller
use shm_comm.Pipeline.Puller.{Puller}

module _ (lib : Library) where
  -- One nonblocking send, or one claim of the puller of that number.
  pub data Event : Type 0 where
    send : lib.Value → Event
    send_bytes : Payload → Event
    try_claim : ℕ → Event
    try_claim_bytes : ℕ → Event

  pub data Answer : Type 0 where
    sent : Outcome Bool → Answer
    claimed : Outcome (Option lib.Value) → Answer
    claimed_bytes : Outcome (Option Payload) → Answer

pub record Line : Type 0 where
  pub pusher : Pusher
  pub pullers : ℕ → Puller
  pub system : System

abbrev pub set_puller : (ℕ → Puller) → ℕ → Puller → ℕ → Puller
set_puller pullers k u j = if k == j then u else pullers j

abbrev pub after_send : {A : Type 0} → Line → A × System → Line
after_send c r = record c { system = r.1 }

abbrev pub after_claim : {A : Type 0} → Line → ℕ → A × (Puller × System) → Line
after_claim c k r = record c { pullers = set_puller c.pullers k r.1.0; system = r.1.1 }

module _ (lib : Library) (w : World Memory) (wl : World (FileLock × System)) (fuel : ℕ) where
  unfoldable pub call : Event lib → Line → Answer lib × Line
  call (send v) c =
      let r = Pusher.send lib w fuel c.pusher v false none c.system in (sent r.0, after_send c r)
  call (send_bytes b) c =
      let r = Pusher.send_bytes w fuel c.pusher b false none c.system in (sent r.0, after_send c r)
  call (try_claim k) c =
      let r = Puller.try_claim lib wl fuel (c.pullers k, c.system) in
      (claimed r.0, after_claim c k r)
  call (try_claim_bytes k) c =
      let r = Puller.try_claim_bytes wl fuel (c.pullers k, c.system) in
      (claimed_bytes r.0, after_claim c k r)

  unfoldable pub run : List (Event lib) → Line → List (Answer lib)
  run [] c = []
  run (e ∷ es) c = (call e c).0 ∷ run es (call e c).1

-- The same calls on the abstract queue, which does not know the pullers apart.
abbrev pub push_serialized : ℕ → ℕ → Outcome Payload → List Payload → Outcome Bool × List Payload
push_serialized limit longest (ok p) q = Fifo.push_payload limit longest p q
push_serialized limit longest (raised e) q = (raised e, q)
push_serialized limit longest running q = (running, q)

module _ (lib : Library) (limit longest : ℕ) (sm cm : Method) where
  unfoldable pub fifo_call : Event lib → List Payload → Answer lib × List Payload
  fifo_call (send v) q =
      let r = push_serialized limit longest (serialize lib v sm) q in (sent r.0, r.1)
  fifo_call (send_bytes p) q = let r = Fifo.push_payload limit longest p q in (sent r.0, r.1)
  fifo_call (try_claim k) q = let r = Fifo.pull_payload q in (claimed (decode lib cm r.0), r.1)
  fifo_call (try_claim_bytes k) q = let r = Fifo.pull_payload q in (claimed_bytes (ok r.0), r.1)

  unfoldable pub fifo_run : List (Event lib) → List Payload → List (Answer lib)
  fifo_run [] q = []
  fifo_run (e ∷ es) q = (fifo_call e q).0 ∷ fifo_run es (fifo_call e q).1

-- The pusher and every puller are open on object `i`, the lock is free, and the ring holds `q`.
pub record Serving (n z i : ℕ) (path : Name) (sm cm : Method) (c : Line) (q : List Payload)
    : Type 0 where
  pub push_open : IsOpen c.pusher.shm i
  pub pull_open : (k : ℕ) → IsOpen (c.pullers k).shm i
  pub pull_path : (k : ℕ) → (c.pullers k).lock.path ≡ path
  pub sends_by : c.pusher.serialization ≡ sm
  pub claims_by : (k : ℕ) → (c.pullers k).serialization ≡ cm
  pub free : c.system.locks path ≡ none
  pub segment : IsSegment n z (c.system.objects i)
  pub holds : contents n z (c.system.objects i) ≡ q
