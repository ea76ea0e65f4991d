-- ===== src/Pipeline/Puller.antt =====
-- patterns/pipeline.py, class Puller: it reads the shared tail under the lock of the segment.
use shm_comm.Prelude.{ℕ, false, Option, none, some, ◌||◌}
use shm_comm.Exec.{Action, Outcome, ok, raised, running, pure, lift, ◌>>=◌, ◌>>◌}
use shm_comm.Exec.Spin.{World}
use shm_comm.Names.{Name, push_segment_name}
use shm_comm.Core.Segments.{System, SharedMemory, attach_segment, close_segment}
use shm_comm.Fifo.{Payload}
use shm_comm.Buffer.{read_message_shared_tail, get_stats, Stats}
use shm_comm.Serialize.{Library, Method}
use shm_comm.Sync
use shm_comm.Sync.{FileLock}
use shm_comm.Utils.{poll_until}
use shm_comm.Patterns.{on_shm, with_system, decode}

pub record Puller : Type 0 where
  pub name : Name
  pub serialization : Method
  pub shm : Option SharedMemory
  pub lock : FileLock

-- `__init__`
unfoldable pub init : World System → ℕ → Name → ℕ → Method → Action System Puller
init w fuel name timeout_connect serialization = do
  shm ← attach_segment w fuel (push_segment_name name) timeout_connect
  pure (record {
    name = name;
    serialization = serialization;
    shm = some shm;
    lock = Sync.init (push_segment_name name) none;
  })

abbrev Self : Type 0 → Type 0
Self A = Action (Puller × System) A

-- A method of the puller's lock.
abbrev on_lock : {A : Type 0} → Action (FileLock × System) A → Self A
on_lock act st = let r = act (st.0.lock, st.1) in (r.0, (record st.0 { lock = r.1.0 }, r.1.1))

-- `with self._lock: body`: `__exit__` releases the lock also when the body raised.
abbrev exit_with : {A : Type 0} → Outcome A × (Puller × System) → Outcome A × (Puller × System)
exit_with (running, st) = (running, st)
exit_with (ok a, st) = (ok a, (on_lock Sync.release st).1)
exit_with (raised e, st) = (raised e, (on_lock Sync.release st).1)

abbrev with_lock : {A : Type 0} → World (FileLock × System) → ℕ → Self A → Self A
with_lock w fuel body = on_lock (Sync.acquire w fuel none) >>= λ _ st. exit_with (body st)

unfoldable pub try_claim_bytes : World (FileLock × System) → ℕ → Self (Option Payload)
try_claim_bytes w fuel =
    with_lock w fuel (λ st. with_system (on_shm st.0.shm read_message_shared_tail) st)

-- The bytes are deserialized after the lock was released.
unfoldable pub try_claim : (lib : Library) → World (FileLock × System) → ℕ → Self (Option lib.Value)
try_claim lib w fuel st =
    (try_claim_bytes w fuel >>= λ raw. lift (decode lib st.0.serialization raw)) st

unfoldable pub recv :
    (lib : Library)
    → World (FileLock × System)
    → World (Puller × System)
    → ℕ
    → Option ℕ
    → Self (Option lib.Value)
recv lib w w' fuel timeout =
    poll_until (λ v. lib.is_none v || lib.is_false v) (try_claim lib w fuel) w' fuel timeout

unfoldable pub recv_bytes :
    World (FileLock × System) → World (Puller × System) → ℕ → Option ℕ → Self (Option Payload)
recv_bytes w w' fuel timeout = poll_until (λ _. false) (try_claim_bytes w fuel) w' fuel timeout

unfoldable pub stats : Puller → Action System Stats
stats self = on_shm self.shm get_stats

abbrev pub close_handle : Puller → Option SharedMemory → Action System Puller
close_handle self none = pure self
close_handle self (some shm) = do close_segment shm false; pure (record self { shm = none })

unfoldable pub close : Puller → Action System Puller
close self = close_handle self self.shm
