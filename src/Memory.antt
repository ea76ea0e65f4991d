-- ===== src/Memory.antt =====
-- A block of shared memory, byte by byte (the `buf` of multiprocessing.shared_memory), with the two
-- fixed-width formats that the code writes into it: int64 header words and uint32 size prefixes.
pub mod Bytes
pub mod Words
unfoldable pub use Bytes.{load_bytes, store_bytes}
unfoldable pub use Words.{encode_le, decode_le}
use shm_comm.Prelude.{ℕ}

-- `size` is the length of `buf`; `byte` is its content, of which only the indices below `size` exist.
pub record Memory : Type 0 where
  pub size : ℕ
  pub byte : ℕ → ℕ
