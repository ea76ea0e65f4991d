-- ===== src/Buffer/SlotReads.antt =====
-- buffer.py, `_read_slot`: its two accesses on a well-formed segment, one by one.
use shm_comm.Prelude.{ℕ, ◌+◌, ◌<◌, ◌≡◌, refl, ◌∙◌, length, arith, le→leb}
use shm_comm.Exec.{ok}
use shm_comm.Memory.{Memory}
use shm_comm.Memory.Bytes.{length-load_bytes}
use shm_comm.Buffer.{slot_offset, unpack_from, load_slice}
use shm_comm.Buffer.Slots.{size_at, payload_at, slot_inside}
use shm_comm.Buffer.Segment.{IsSegment}

pub length-payload_at :
    {n z : ℕ} {m : Memory} (s : IsSegment n z m) (c : ℕ)
    → c < n
    → length (payload_at z m c) ≡ size_at z m c
unfolding payload_at
length-payload_at {n} {z} {m} s c lt =
    length-load_bytes m.byte (slot_offset c z + 4) _
    ∙ omega (arith, s.sizes c lt, s.fits, slot_inside c n z lt)

pub unpack_from-size_at :
    {n z : ℕ} {m : Memory} (s : IsSegment n z m) (c : ℕ)
    → c < n
    → unpack_from (slot_offset c z) m ≡ (ok (size_at z m c), m)
unfolding unpack_from size_at
unpack_from-size_at {n} {z} {m} s c lt =
    rw (le→leb (slot_offset c z + 4) m.size (omega (arith, s.prefix, s.fits, slot_inside c n z lt)))

pub load_slice-payload_at :
    (z c : ℕ) (m : Memory)
    → load_slice (slot_offset c z + 4) (size_at z m c) m ≡ (ok (payload_at z m c), m)
unfolding load_slice payload_at
load_slice-payload_at z c m = refl
