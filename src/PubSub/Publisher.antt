-- ===== src/PubSub/Publisher.antt =====
-- patterns/pubsub.py, class Publisher. `w` and `fuel` are those of `write_message`, which does not wait
-- here; `block` and `timeout` of the methods are ignored by the code.
use shm_comm.Prelude.{ℕ, Bool, true, false, Option, none, some}
use shm_comm.Exec.{Action, pure, lift, ◌>>=◌, ◌>>◌}
use shm_comm.Exec.Spin.{World}
use shm_comm.Memory.{Memory}
use shm_comm.Names.{Name, pub_segment_name}
use shm_comm.Core.Segments.{System, SharedMemory, create_segment, close_segment}
use shm_comm.Fifo.{Payload}
use shm_comm.Buffer.{write_message, get_stats, Stats}
use shm_comm.Serialize.{Library, Method, serialize}
use shm_comm.Patterns.{on_shm}

abbrev pub default_num_slots : ℕ
default_num_slots = 64

abbrev pub default_slot_size : ℕ
default_slot_size = 4096

pub record Publisher : Type 0 where
  pub name : Name
  pub serialization : Method
  pub shm : Option SharedMemory

-- `__init__`
unfoldable pub init : (Name → ℕ → Bool) → Name → ℕ → ℕ → Method → Action System Publisher
init granted name num_slots slot_size serialization = do
  shm ← create_segment granted (pub_segment_name name) num_slots slot_size
  pure (record { name = name; serialization = serialization; shm = some shm })

unfoldable pub send_bytes : World Memory → ℕ → Publisher → Payload → Action System Bool
send_bytes w fuel self payload = on_shm self.shm (write_message w fuel payload false none true)

unfoldable pub send :
    (lib : Library) → World Memory → ℕ → Publisher → lib.Value → Action System Bool
send lib w fuel self obj = do
  payload ← lift (serialize lib obj self.serialization)
  on_shm self.shm (write_message w fuel payload false none true)

unfoldable pub stats : Publisher → Action System Stats
stats self = on_shm self.shm get_stats

abbrev pub close_handle : Publisher → Option SharedMemory → Action System Publisher
close_handle self none = pure self
close_handle self (some shm) = do close_segment shm true; pure (record self { shm = none })

-- `close`, `__exit__` and `_atexit_close`: the object that the last two leave behind is the same.
unfoldable pub close : Publisher → Action System Publisher
close self = close_handle self self.shm
