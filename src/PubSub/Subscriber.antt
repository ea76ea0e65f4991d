-- ===== src/PubSub/Subscriber.antt =====
-- patterns/pubsub.py, class Subscriber. Its methods act on the object, for the private cursor, and on
-- the system.
use shm_comm.Prelude.{ℕ, false, Option, none, some, ◌||◌}
use shm_comm.Exec.{Action, ok, pure, lift, ◌>>=◌, ◌>>◌}
use shm_comm.Exec.Spin.{World}
use shm_comm.Names.{Name, pub_segment_name}
use shm_comm.Core.Header.{idx_head, get_header, field}
use shm_comm.Core.Segments.{System, SharedMemory, on_object, attach_segment, close_segment}
use shm_comm.Fifo.{Payload}
use shm_comm.Buffer.{read_message_spsc, get_stats, Stats}
use shm_comm.Serialize.{Library, Method}
use shm_comm.Utils.{poll_until}
use shm_comm.Patterns.{on_shm, with_system, decode}

pub record Subscriber : Type 0 where
  pub name : Name
  pub serialization : Method
  pub shm : Option SharedMemory
  pub tail : ℕ

-- `__init__`: the private cursor starts at the head, so that only new messages are received.
unfoldable pub init : World System → ℕ → Name → ℕ → Method → Action System Subscriber
unfolding get_header field on_object
init w fuel name timeout_connect serialization = do
  shm ← attach_segment w fuel (pub_segment_name name) timeout_connect
  head ← on_object shm.object (get_header >>= λ _. field idx_head)
  pure (record { name = name; serialization = serialization; shm = some shm; tail = head })

abbrev Self : Type 0 → Type 0
Self A = Action (Subscriber × System) A

-- A found message moves the cursor on.
abbrev pub advance : Option (Payload × ℕ) → Self (Option Payload)
advance none st = (ok none, st)
advance (some (raw, new_tail)) st = (ok (some raw), (record st.0 { tail = new_tail }, st.1))

unfoldable pub try_recv_bytes : Self (Option Payload)
try_recv_bytes st = (with_system (on_shm st.0.shm (read_message_spsc st.0.tail)) >>= advance) st

-- The cursor has moved on before the bytes are deserialized.
unfoldable pub try_recv : (lib : Library) → Self (Option lib.Value)
try_recv lib st = (try_recv_bytes >>= λ raw. lift (decode lib st.0.serialization raw)) st

unfoldable pub recv :
    (lib : Library) → World (Subscriber × System) → ℕ → Option ℕ → Self (Option lib.Value)
recv lib w fuel timeout =
    poll_until (λ v. lib.is_none v || lib.is_false v) (try_recv lib) w fuel timeout

unfoldable pub recv_bytes : World (Subscriber × System) → ℕ → Option ℕ → Self (Option Payload)
recv_bytes w fuel timeout = poll_until (λ _. false) try_recv_bytes w fuel timeout

-- The dictionary of `stats`, with the private cursor under `local_tail`.
unfoldable pub stats : Self (Stats × ℕ)
unfolding on_shm
stats st = (with_system (on_shm st.0.shm get_stats) >>= λ s. pure (s, st.0.tail)) st

abbrev pub close_handle : Subscriber → Option SharedMemory → Action System Subscriber
close_handle self none = pure self
close_handle self (some shm) = do close_segment shm false; pure (record self { shm = none })

unfoldable pub close : Subscriber → Action System Subscriber
close self = close_handle self self.shm
