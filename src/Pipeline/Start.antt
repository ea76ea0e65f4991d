-- ===== src/Pipeline/Start.antt =====
-- patterns/pipeline.py: a pusher and then its pullers, as their `__init__` makes them.
use shm_comm.Prelude.{
  false, ℕ, suc, ◌+◌, ◌-◌, ◌*◌, ◌^◌, ◌≤◌, ◌<◌, ◌≡◌, refl, ap, ◌∙◌, Bool, true, none, some, List, [],
}
use shm_comm.Exec.{ok}
use shm_comm.Exec.Spin.{World}
use shm_comm.Memory.{Memory}
use shm_comm.Names.{Name, push_segment_name, same_refl}
use shm_comm.Core.Segments.{blocked, System, SharedMemory, lookup}
use shm_comm.Buffer.Queue.{contents}
use shm_comm.Lifecycle.Init.{zeros, initialised, contents-initialised}
use shm_comm.Lifecycle.Create.{created, create_segment-created, object-created, lookup-created}
use shm_comm.Lifecycle.Reach.{object-IsSegment, attach_segment-initialised}
use shm_comm.Serialize.{Library, Method}
use shm_comm.Sync
use shm_comm.Sync.{FileLock, lock_path}
use shm_comm.Pipeline.Pusher
use shm_comm.Pipeline.Puller
use shm_comm.Pipeline.Puller.{Puller}
use shm_comm.Pipeline.Queue.{Event, Line, run, fifo_run, Serving}
use shm_comm.Pipeline.Calls.{run-fifo_run}

module _ (granted : Name → ℕ → Bool) (name : Name) (n z : ℕ) (sm cm : Method) (w : World System)
    (fuel timeout : ℕ) (s : System) (some_slot : 0 < n) (few : n < 2 ^ 63) (prefix : 4 ≤ z)
    (narrow : z ≤ 2 ^ 32) (clear : blocked (push_segment_name name) s ≡ false)
    (grant : granted (push_segment_name name) (128 + n * z) ≡ true)
    (early : w.clock 0 < w.started + timeout)
    (free : s.locks (lock_path (push_segment_name name)) ≡ none) where
  abbrev handle : SharedMemory
  handle = record { name = push_segment_name name; object = s.next }

  abbrev puller : Puller
  puller = record {
    name = name;
    serialization = cm;
    shm = some handle;
    lock = record { path = lock_path (push_segment_name name); timeout = none; fd = none };
  }

  abbrev started : Line
  started = record {
    pusher = record { name = name; serialization = sm; shm = some handle };
    pullers = λ k. puller;
    system = created (push_segment_name name) n z s;
  }

  object : started.system.objects s.next ≡ initialised n z (zeros (128 + n * z))
  object = object-created (push_segment_name name) n z s

  found : lookup (push_segment_name name) started.system.names ≡ some s.next
  found = lookup-created (push_segment_name name) n z s (push_segment_name name) ∙ rw same_refl refl

  pulled : Puller.init w (suc fuel) name timeout cm started.system ≡ (ok puller, started.system)
  unfolding Puller.init Sync.init
  pulled = rw (
      attach_segment-initialised n z some_slot few prefix narrow started.system s.next object w
        (push_segment_name name) fuel timeout found early)

  pushed : Pusher.init granted name n z sm s ≡ (ok started.pusher, started.system)
  unfolding Pusher.init
  pushed = rw (create_segment-created granted (push_segment_name name) n z s few narrow clear grant)

  started-Serving : Serving n z s.next (lock_path (push_segment_name name)) sm cm started []
  unfolding created
  started-Serving = record {
    push_open = record { handle = handle; is_open = refl; object = refl };
    pull_open = λ k. record { handle = handle; is_open = refl; object = refl };
    pull_path = λ k. refl;
    sends_by = refl;
    claims_by = λ k. refl;
    free = free;
    segment = object-IsSegment n z some_slot few prefix narrow started.system s.next object;
    holds = ap (contents n z) object ∙ contents-initialised n z some_slot few prefix narrow;
  }

  pub init-Serving :
      (c : Line) × (Pusher.init granted name n z sm s ≡ (ok c.pusher, c.system))
      × ((k : ℕ) → Puller.init w (suc fuel) name timeout cm c.system ≡ (ok (c.pullers k), c.system))
      × Serving n z s.next (lock_path (push_segment_name name)) sm cm c []
  init-Serving = (started, pushed, λ k. pulled, started-Serving)

  -- For at least one slot and fewer than 2^63, of 4 to 2^32 bytes, a segment name under which
  -- no object without bytes stands and which the operating system accepts with the size that
  -- results, and a wait to connect that has not timed out when it starts, and a free lock:
  -- Pusher's init and then Puller's init, for any number of pullers, succeed, and any sequence
  -- of nonblocking sends and of claims then gives the answers of the empty abstract queue of n
  -- - 1 payloads.
  pub init-fifo_run :
      (lib : Library) (w' : World Memory) (wl : World (FileLock × System)) (es : List (Event lib))
      → (c : Line) × (Pusher.init granted name n z sm s ≡ (ok c.pusher, c.system))
        × ((k : ℕ)
            → Puller.init w (suc fuel) name timeout cm c.system ≡ (ok (c.pullers k), c.system))
        × (run lib w' wl (suc fuel) es c ≡ fifo_run lib (n - 1) (z - 4) sm cm es [])
  init-fifo_run lib w' wl es =
      let (c, pushes, pulls, v) = init-Serving in
      (c, pushes, pulls, run-fifo_run lib w' wl fuel es v)
