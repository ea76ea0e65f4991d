-- ===== src/Race/Facts.antt =====
-- What the local variables of each process say about the segment.
pub mod Calm
pub mod Cursors
pub mod Stores
pub mod Writes
pub mod Reads
use shm_comm.Prelude.{
  ℕ, ◌+◌, ◌%◌, ◌≤◌, ◌<◌, ◌≡◌, ◌≢◌, Bool, true, false, Option, none, some, List, ◌++◌, length,
}
use shm_comm.Memory.{Memory}
use shm_comm.Fifo.{Payload}
use shm_comm.Ring.Cursor.{ahead}
use shm_comm.Buffer.Slots.{size_at, payload_at}
use shm_comm.Buffer.Segment.{IsSegment}
use shm_comm.Buffer.Queue.{head_of, tail_of, contents}
use shm_comm.Race.{Locals, WriterPc, Place, ReaderPc, Race}

abbrev pub Fits : ℕ → ℕ → Locals → Type 0
Fits n z l = (l.num_slots ≡ n) × (l.slot_size ≡ z) × (length l.payload + 4 ≤ z)

-- What a writer knows that has a head `h` and a tail `t` before it; `R` is what it was told about room.
abbrev pub WriterFactIn : (R : ℕ → ℕ → Type 0) → ℕ → ℕ → Memory → WriterPc → Type 0
WriterFactIn R n z m (WriterPc.looking l) = Fits n z l
WriterFactIn R n z m (WriterPc.waiting l) = Fits n z l
WriterFactIn R n z m (WriterPc.compared l h) = Fits n z l × (h ≡ head_of m)
WriterFactIn R n z m (WriterPc.filling l) = Fits n z l × R (head_of m) (tail_of m)
WriterFactIn R n z m (WriterPc.placing l h k) =
    Fits n z l × R (head_of m) (tail_of m) × (h ≡ head_of m) × (k ≡ (head_of m + 1) % n)
WriterFactIn R n z m (WriterPc.copying l h k) =
    Fits n z l
    × R (head_of m) (tail_of m)
    × (h ≡ head_of m)
    × (k ≡ (head_of m + 1) % n)
    × (size_at z m (head_of m) ≡ length l.payload)
WriterFactIn R n z m (WriterPc.publishing l k) =
    Fits n z l
    × R (head_of m) (tail_of m)
    × (k ≡ (head_of m + 1) % n)
    × (payload_at z m (head_of m) ≡ l.payload)
WriterFactIn R n z m WriterPc.failed = ⊥
WriterFactIn R n z m _ = Unit

-- The slot at the head may be written.
abbrev pub Free : ℕ → ℕ → ℕ → Type 0
Free n h t = (h + 1) % n ≢ t

abbrev pub HasRoom : ℕ → Memory → Type 0
HasRoom n m = Free n (head_of m) (tail_of m)

abbrev pub WriterFact : ℕ → ℕ → Memory → WriterPc → Type 0
WriterFact n z m pc = WriterFactIn (Free n) n z m pc

abbrev pub AtTail : ℕ → ℕ → Memory → Place → Type 0
AtTail n z m l =
    (l.tail ≡ tail_of m) × (l.num_slots ≡ n) × (l.slot_size ≡ z) × (tail_of m ≢ head_of m)

abbrev pub ReaderFact : ℕ → ℕ → Memory → ReaderPc → Type 0
ReaderFact n z m (ReaderPc.saw_head h) =
    (h < n) × (ahead n h (tail_of m) ≤ ahead n (head_of m) (tail_of m))
ReaderFact n z m (ReaderPc.chosen l) = AtTail n z m l
ReaderFact n z m (ReaderPc.sized l k) = AtTail n z m l × (k ≡ size_at z m (tail_of m))
ReaderFact n z m (ReaderPc.moving l p) = AtTail n z m l × (p ≡ payload_at z m (tail_of m))
ReaderFact n z m ReaderPc.failed = ⊥
ReaderFact n z m _ = Unit

-- Between the return of `acquire` and the end of `release`.
abbrev pub critical : ReaderPc → Bool
critical ReaderPc.resting = false
critical _ = true

pub record Inv (n z : ℕ) (s : Race) : Type 0 where
  pub segment : IsSegment n z s.memory
  pub split : s.sent ≡ s.taken ++ contents n z s.memory
  pub writer_knows : WriterFact n z s.memory s.writer
  pub reader_knows : (i : ℕ) → ReaderFact n z s.memory (s.readers i)
  pub owner : (i : ℕ) → critical (s.readers i) ≡ true → s.holder ≡ some i
