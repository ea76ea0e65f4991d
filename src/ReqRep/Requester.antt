-- ===== src/ReqRep/Requester.antt =====
-- patterns/reqrep.py, class Requester: it attaches to both segments, writes requests and reads replies
-- by a private cursor.
use shm_comm.Prelude.{ℕ, Bool, false, Option, none, some, ◌||◌}
use shm_comm.Exec.{Action, ok, pure, raise, lift, shm_timeout_error, ◌>>=◌, ◌>>◌}
use shm_comm.Exec.Spin.{World}
use shm_comm.Memory.{Memory}
use shm_comm.Names.{Name, req_segment_name, rep_segment_name}
use shm_comm.Core.Segments.{System, SharedMemory, attach_segment, close_segment}
use shm_comm.Fifo.{Payload}
use shm_comm.Buffer.{write_message, read_message_spsc}
use shm_comm.Serialize.{Library, Method, serialize}
use shm_comm.Utils.{poll_until}
use shm_comm.Patterns.{on_shm, with_system, decode}

pub record Requester : Type 0 where
  pub name : Name
  pub serialization : Method
  pub req_shm : Option SharedMemory
  pub rep_shm : Option SharedMemory
  pub rep_tail : ℕ

-- `__init__`; the two waits meet their own worlds.
unfoldable pub init : World System → World System → ℕ → Name → ℕ → Method → Action System Requester
init w w' fuel name timeout_connect serialization = do
  req_shm ← attach_segment w fuel (req_segment_name name) timeout_connect
  rep_shm ← attach_segment w' fuel (rep_segment_name name) timeout_connect
  pure (record {
    name = name;
    serialization = serialization;
    req_shm = some req_shm;
    rep_shm = some rep_shm;
    rep_tail = 0;
  })

abbrev Self : Type 0 → Type 0
Self A = Action (Requester × System) A

unfoldable pub send_bytes : World Memory → ℕ → Requester → Payload → Action System Bool
send_bytes w fuel self payload = on_shm self.req_shm (write_message w fuel payload false none false)

unfoldable pub send :
    (lib : Library) → World Memory → ℕ → Requester → lib.Value → Action System Bool
send lib w fuel self obj = do
  payload ← lift (serialize lib obj self.serialization)
  on_shm self.req_shm (write_message w fuel payload false none false)

abbrev pub advance : Option (Payload × ℕ) → Self (Option Payload)
advance none st = (ok none, st)
advance (some (raw, new_tail)) st = (ok (some raw), (record st.0 { rep_tail = new_tail }, st.1))

unfoldable pub try_recv_bytes : Self (Option Payload)
try_recv_bytes st =
    (with_system (on_shm st.0.rep_shm (read_message_spsc st.0.rep_tail)) >>= advance) st

unfoldable pub try_recv : (lib : Library) → Self (Option lib.Value)
try_recv lib st = (try_recv_bytes >>= λ raw. lift (decode lib st.0.serialization raw)) st

unfoldable pub recv :
    (lib : Library) → World (Requester × System) → ℕ → Option ℕ → Self (Option lib.Value)
recv lib w fuel timeout =
    poll_until (λ v. lib.is_none v || lib.is_false v) (try_recv lib) w fuel timeout

unfoldable pub recv_bytes : World (Requester × System) → ℕ → Option ℕ → Self (Option Payload)
recv_bytes w fuel timeout = poll_until (λ _. false) try_recv_bytes w fuel timeout

abbrev pub or_timeout {ℓ} : {S A : Type ℓ} → Option A → Action S A
or_timeout none = raise shm_timeout_error
or_timeout (some reply) = pure reply

-- `request`: the result of `send` is not looked at.
unfoldable pub request :
    (lib : Library)
    → World Memory
    → World (Requester × System)
    → ℕ
    → lib.Value
    → Option ℕ
    → Self lib.Value
request lib w w' fuel obj timeout st =
    (with_system (send lib w fuel st.0 obj) >>= λ _. recv lib w' fuel timeout >>= or_timeout) st

abbrev pub detach : Option SharedMemory → Action System (Unit {0})
detach none = pure tt
detach (some shm) = close_segment shm false

unfoldable pub close : Requester → Action System Requester
close self = do
  detach self.req_shm
  detach self.rep_shm
  pure (record self { req_shm = none; rep_shm = none })
