-- ===== src/ReqRep/Replier.antt =====
-- patterns/reqrep.py, class Replier: it creates both segments, reads requests by a private cursor and
-- writes replies.
use shm_comm.Prelude.{ℕ, Bool, true, false, Option, none, some, ◌||◌}
use shm_comm.Exec.{Action, ok, pure, lift, ◌>>=◌, ◌>>◌}
use shm_comm.Exec.Spin.{World}
use shm_comm.Memory.{Memory}
use shm_comm.Names.{Name, req_segment_name, rep_segment_name}
use shm_comm.Core.Segments.{System, SharedMemory, create_segment, close_segment}
use shm_comm.Fifo.{Payload}
use shm_comm.Buffer.{write_message, read_message_spsc}
use shm_comm.Serialize.{Library, Method, serialize}
use shm_comm.Utils.{poll_until}
use shm_comm.Patterns.{on_shm, with_system, decode}

abbrev pub default_num_slots : ℕ
default_num_slots = 16

abbrev pub default_slot_size : ℕ
default_slot_size = 8192

pub record Replier : Type 0 where
  pub name : Name
  pub serialization : Method
  pub req_shm : Option SharedMemory
  pub rep_shm : Option SharedMemory
  pub req_tail : ℕ

-- `__init__`
unfoldable pub init : (Name → ℕ → Bool) → Name → ℕ → ℕ → Method → Action System Replier
init granted name num_slots slot_size serialization = do
  req_shm ← create_segment granted (req_segment_name name) num_slots slot_size
  rep_shm ← create_segment granted (rep_segment_name name) num_slots slot_size
  pure (record {
    name = name;
    serialization = serialization;
    req_shm = some req_shm;
    rep_shm = some rep_shm;
    req_tail = 0;
  })

abbrev Self : Type 0 → Type 0
Self A = Action (Replier × System) A

abbrev pub advance : Option (Payload × ℕ) → Self (Option Payload)
advance none st = (ok none, st)
advance (some (raw, new_tail)) st = (ok (some raw), (record st.0 { req_tail = new_tail }, st.1))

unfoldable pub try_recv_bytes : Self (Option Payload)
try_recv_bytes st =
    (with_system (on_shm st.0.req_shm (read_message_spsc st.0.req_tail)) >>= advance) st

unfoldable pub try_recv : (lib : Library) → Self (Option lib.Value)
try_recv lib st = (try_recv_bytes >>= λ raw. lift (decode lib st.0.serialization raw)) st

unfoldable pub recv :
    (lib : Library) → World (Replier × System) → ℕ → Option ℕ → Self (Option lib.Value)
recv lib w fuel timeout =
    poll_until (λ v. lib.is_none v || lib.is_false v) (try_recv lib) w fuel timeout

unfoldable pub recv_bytes : World (Replier × System) → ℕ → Option ℕ → Self (Option Payload)
recv_bytes w fuel timeout = poll_until (λ _. false) try_recv_bytes w fuel timeout

-- `block` and `timeout` of `write_message` stay at False and None.
unfoldable pub send_bytes : World Memory → ℕ → Replier → Payload → Action System Bool
send_bytes w fuel self payload = on_shm self.rep_shm (write_message w fuel payload false none false)

unfoldable pub send : (lib : Library) → World Memory → ℕ → Replier → lib.Value → Action System Bool
send lib w fuel self obj = do
  payload ← lift (serialize lib obj self.serialization)
  on_shm self.rep_shm (write_message w fuel payload false none false)

abbrev pub destroy : Option SharedMemory → Action System (Unit {0})
destroy none = pure tt
destroy (some shm) = close_segment shm true

-- `close`: each of the two handles that is still there.
unfoldable pub close : Replier → Action System Replier
close self = do
  destroy self.req_shm
  destroy self.rep_shm
  pure (record self { req_shm = none; rep_shm = none })
