-- ===== src/Patterns.antt =====
-- What the objects of the three patterns share: a handle that may have been closed, methods that act
-- on the object and on the system, and the step from received bytes to a received value.
pub mod Objects
use shm_comm.Prelude.{ℕ, Option, none, some}
use shm_comm.Exec.{Action, Outcome, ok, raised, running, attribute_error}
use shm_comm.Memory.{Memory}
use shm_comm.Core.Segments.{System, SharedMemory, on_object}
use shm_comm.Fifo.{Payload}
use shm_comm.Serialize.{Library, Method, deserialize}

-- A closed object holds None, which has no `buf`.
unfoldable pub on_shm {ℓ} : {A : Type ℓ} → Option SharedMemory → Action Memory A → Action System A
on_shm none act s = (raised attribute_error, s)
on_shm (some shm) act s = on_object shm.object act s

-- A method that leaves its object alone.
abbrev pub with_system {ℓ} : {O : Type 0} {A : Type ℓ} → Action System A → Action (O × System) A
with_system act st = ((act st.1).0, (st.0, (act st.1).1))

abbrev pub some_outcome : {A : Type 0} → Outcome A → Outcome (Option A)
some_outcome (ok a) = ok (some a)
some_outcome (raised e) = raised e
some_outcome running = running

-- The last lines of `_try_recv` and of `_try_claim`: None stays None, bytes are deserialized.
unfoldable pub decode : (lib : Library) → Method → Option Payload → Outcome (Option lib.Value)
decode lib method none = ok none
decode lib method (some raw) = some_outcome (deserialize lib raw method)
