-- ===== src/Pipeline/Pusher.antt =====
-- patterns/pipeline.py, class Pusher.
use shm_comm.Prelude.{ℕ, Bool, true, false, Option, none, some}
use shm_comm.Exec.{Action, pure, lift, ◌>>=◌, ◌>>◌}
use shm_comm.Exec.Spin.{World}
use shm_comm.Memory.{Memory}
use shm_comm.Names.{Name, push_segment_name}
use shm_comm.Core.Segments.{System, SharedMemory, create_segment, close_segment}
use shm_comm.Fifo.{Payload}
use shm_comm.Buffer.{write_message, get_stats, Stats}
use shm_comm.Serialize.{Library, Method, serialize}
use shm_comm.Patterns.{on_shm}

abbrev pub default_num_slots : ℕ
default_num_slots = 128

abbrev pub default_slot_size : ℕ
default_slot_size = 4096

pub record Pusher : Type 0 where
  pub name : Name
  pub serialization : Method
  pub shm : Option SharedMemory

-- `__init__`
unfoldable pub init : (Name → ℕ → Bool) → Name → ℕ → ℕ → Method → Action System Pusher
init granted name num_slots slot_size serialization = do
  shm ← create_segment granted (push_segment_name name) num_slots slot_size
  pure (record { name = name; serialization = serialization; shm = some shm })

-- `block` and `timeout` are passed on; while the call waits, `w` is what others do to the segment.
unfoldable pub send_bytes :
    World Memory → ℕ → Pusher → Payload → Bool → Option ℕ → Action System Bool
send_bytes w fuel self payload block timeout =
    on_shm self.shm (write_message w fuel payload block timeout false)

unfoldable pub send :
    (lib : Library) → World Memory → ℕ → Pusher → lib.Value → Bool → Option ℕ → Action System Bool
send lib w fuel self obj block timeout = do
  payload ← lift (serialize lib obj self.serialization)
  on_shm self.shm (write_message w fuel payload block timeout false)

unfoldable pub stats : Pusher → Action System Stats
stats self = on_shm self.shm get_stats

abbrev pub close_handle : Pusher → Option SharedMemory → Action System Pusher
close_handle self none = pure self
close_handle self (some shm) = do close_segment shm true; pure (record self { shm = none })

unfoldable pub close : Pusher → Action System Pusher
close self = close_handle self self.shm
