-- ===== src/Patterns/Objects.antt =====
-- An open handle acts on its object.
use shm_comm.Prelude.{ℕ, ◌≡◌, Option, some}
use shm_comm.Exec.{Action}
use shm_comm.Memory.{Memory}
use shm_comm.Core.Segments.{System, SharedMemory, on_object}
use shm_comm.Patterns.{on_shm}

module _ {A : Type 0} (act : Action Memory A) (s : System) where
  pub on_shm-open :
      {shm : Option SharedMemory} {h : SharedMemory} {i : ℕ}
      → shm ≡ some h
      → h.object ≡ i
      → on_shm shm act s ≡ on_object i act s
  unfolding on_shm
  on_shm-open e o = rw (e, o)

-- The handle is open on object `i`.
pub record IsOpen (shm : Option SharedMemory) (i : ℕ) : Type 0 where
  pub handle : SharedMemory
  pub is_open : shm ≡ some handle
  pub object : handle.object ≡ i

pub on_shm-IsOpen :
    {A : Type 0} {shm : Option SharedMemory} {i : ℕ}
    → IsOpen shm i
    → (act : Action Memory A) (s : System) → on_shm shm act s ≡ on_object i act s
on_shm-IsOpen o act s = on_shm-open act s o.is_open o.object
