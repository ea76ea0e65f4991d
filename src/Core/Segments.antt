-- ===== src/Core/Segments.antt =====
-- core.py, the life of a segment: creating, attaching and closing it under its name.
-- The operating system keeps a table of names and the memory objects behind them. An object lives on
-- for those who have it open when its name is removed or given to another object (shm_unlink of POSIX).
-- `locks` says which open file holds the exclusive lock of a lock file, and `open_fds` which numbers
-- stand for a file that is open; these are sync.py's.
use shm_comm.Prelude.{
  ℕ, zero, suc, ◌+◌, Bool, true, false, Option, none, some, List, [], ◌∷◌, ◌==◌, ◌&&◌, ltb,
  if◌then◌else◌,
}
use shm_comm.Exec.{Action, Outcome, ok, raised, running, pure, ◌>>=◌, shm_connection_error}
use shm_comm.Exec.Spin.{World}
use shm_comm.Memory.{Memory}
use shm_comm.Names.{Name, same}
use shm_comm.Core.Header.{segment_size, init_header, validate_header}

pub record System : Type 0 where
  pub names : List (Name × ℕ)
  pub objects : ℕ → Memory
  pub next : ℕ
  pub locks : Name → Option ℕ
  pub next_fd : ℕ
  pub open_fds : ℕ → Bool

-- A SharedMemory instance: the name that it was opened by, and its object.
pub record SharedMemory : Type 0 where
  pub name : Name
  pub object : ℕ

unfoldable pub lookup : Name → List (Name × ℕ) → Option ℕ
lookup name [] = none
lookup name ((key, i) ∷ rest) = if same key name then some i else lookup name rest

unfoldable pub remove : Name → List (Name × ℕ) → List (Name × ℕ)
remove name [] = []
remove name ((key, i) ∷ rest) =
    if same key name then remove name rest else (key, i) ∷ remove name rest

abbrev pub set_object : (ℕ → Memory) → ℕ → Memory → ℕ → Memory
set_object objects i m j = if i == j then m else objects j

-- Run an action on the memory of one object.
unfoldable pub on_object {ℓ} : {A : Type ℓ} → ℕ → Action Memory A → Action System A
on_object i act s =
    let r = act (s.objects i) in (r.0, record s { objects = set_object s.objects i r.1 })

abbrev absent : Option ℕ → Bool
absent none = true
absent (some i) = false

-- `SharedMemory(name=name, create=True, size=size)`: a new object of zeros. A name that is taken is
-- refused, and `granted` says which names and sizes the operating system accepts besides; every
-- exception here becomes the library's own.
unfoldable pub allocate : (Name → ℕ → Bool) → Name → ℕ → Action System ℕ
allocate granted name size s =
    if absent (lookup name s.names) && granted name size
    then (
      ok s.next,
      record s {
        names = (name, s.next) ∷ s.names;
        objects = set_object s.objects s.next (record { size = size; byte = λ _. 0 });
        next = suc s.next;
      },
    )
    else (raised shm_connection_error, s)

abbrev pub without_bytes : Option ℕ → System → Bool
without_bytes none s = false
without_bytes (some i) s = (s.objects i).size == 0

-- Whether the name stands for an object without bytes, which cannot be mapped: `SharedMemory` raises
-- ValueError on it.
unfoldable pub blocked : Name → System → Bool
blocked name s = without_bytes (lookup name s.names) s

-- A stale segment under the name is opened and unlinked; if it cannot be opened it stays.
unfoldable pub unlink_stale : Name → System → System
unfolding remove
unlink_stale name s = if blocked name s then s else record s { names = remove name s.names }

unfoldable pub create_segment : (Name → ℕ → Bool) → Name → ℕ → ℕ → Action System SharedMemory
unfolding unlink_stale allocate on_object segment_size
create_segment granted name num_slots slot_size s =
    (allocate granted name (segment_size num_slots slot_size) >>= λ i.
    on_object i (init_header num_slots slot_size) >>= λ _.
    pure (record { name = name; object = i }))
      (unlink_stale name s)

-- `validate_header` on the object that was opened: the library's own error is raised on, any other
-- is remembered for the message and tried again.
abbrev pub keep_trying :
    SharedMemory → Outcome (Unit {0}) × System → Outcome (Option SharedMemory) × System
keep_trying shm (ok _, s) = (ok (some shm), s)
keep_trying shm (raised shm_connection_error, s) = (raised shm_connection_error, s)
keep_trying shm (raised _, s) = (ok none, s)
keep_trying shm (running, s) = (running, s)

-- One round of `attach_segment`; `none` is FileNotFoundError.
abbrev pub open_found : Name → Option ℕ → Action System (Option SharedMemory)
open_found name none s = (ok none, s)
open_found name (some i) s =
    keep_trying (record { name = name; object = i }) (on_object i validate_header s)

unfoldable pub try_attach : Name → Action System (Option SharedMemory)
try_attach name s = open_found name (lookup name s.names) s

abbrev pub after_try :
    (System → Outcome SharedMemory × System)
    → Outcome (Option SharedMemory) × System
    → Outcome SharedMemory × System
after_try again (ok (some shm), s) = (ok shm, s)
after_try again (ok none, s) = again s
after_try again (raised e, s) = (raised e, s)
after_try again (running, s) = (running, s)

-- `while time.monotonic() < deadline`
unfoldable pub attach_loop : World System → ℕ → Name → ℕ → ℕ → Action System SharedMemory
attach_loop w limit name zero round s = (running, s)
attach_loop w limit name (suc fuel) round s = elim (ltb (w.clock round) limit) [
  | true ↦
      after_try (λ s'. attach_loop w limit name fuel (suc round) (w.others round s'))
        (try_attach name s)
  | false ↦ (raised shm_connection_error, s)
]

unfoldable pub attach_segment : World System → ℕ → Name → ℕ → Action System SharedMemory
attach_segment w fuel name timeout = attach_loop w (w.started + timeout) name fuel 0

-- Every error of `close` and `unlink` is logged and swallowed.
unfoldable pub close_segment : SharedMemory → Bool → Action System (Unit {0})
unfolding remove
close_segment shm destroy s =
    if destroy then (ok tt, record s { names = remove shm.name s.names }) else (ok tt, s)
