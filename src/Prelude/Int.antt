-- ===== src/Prelude/Int.antt =====
-- Signed numbers, for what the code reads as an int64.
use Prim.Native.Nat.{ℕ, ◌-◌, ◌^◌}
use shm_comm.Prelude.Tests.{ltb, if◌then◌else◌}

-- `negsuc n` is -(n + 1).
pub data ℤ : Type 0 where
  pos : ℕ → ℤ
  negsuc : ℕ → ℤ

-- The int64 that a pattern of 64 bits stands for.
unfoldable pub as_int64 : ℕ → ℤ
as_int64 w = if ltb w (2 ^ 63) then pos w else negsuc (2 ^ 64 - w - 1)
