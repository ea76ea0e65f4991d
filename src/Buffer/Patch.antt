-- ===== src/Buffer/Patch.antt =====
-- Bytes written within one slot, as the two halves of `_write_slot` do.
use shm_comm.Prelude.{
  ℕ, ◌+◌, ◌^◌, ◌≤◌, ◌<◌, ◌≡◌, refl, ap, ◌∙◌, ◌≢◌, inl, inr, arith, dec_lt, List, length,
}
use shm_comm.Exec.{ok}
use shm_comm.Memory.{Memory, load_bytes, store_bytes, encode_le, decode_le}
use shm_comm.Memory.Bytes.{load_bytes-store_bytes_self, load_bytes-store_bytes_apart}
use shm_comm.Memory.Words.{length-encode_le, decode_le-encode_le}
use shm_comm.Core.Header.{get_field}
use shm_comm.Core.Fields.{get_field-store_bytes}
use shm_comm.Buffer.{slot_offset, pack_into, store_slice}
use shm_comm.Buffer.Slots.{size_at, payload_at, slot_end}

unfoldable pub patched : ℕ → List ℕ → Memory → Memory
patched o bs m = record m { byte = store_bytes m.byte o bs }

pub pack_into-patched :
    (o v : ℕ) (m : Memory)
    → v < 2 ^ 32
    → o + 4 ≤ m.size
    → pack_into o v m ≡ (ok tt, patched o (encode_le 4 v) m)
unfolding pack_into patched
pack_into-patched o v m small inside = ground arith

pub store_slice-patched :
    (o : ℕ) (bs : List ℕ) (m : Memory)
    → o + length bs ≤ m.size
    → store_slice o bs m ≡ (ok tt, patched o bs m)
unfolding store_slice patched
store_slice-patched o bs m inside = ground arith

pub size-patched : (o : ℕ) (bs : List ℕ) (m : Memory) → (patched o bs m).size ≡ m.size
unfolding patched
size-patched o bs m = refl

pub get_field-patched :
    (k o : ℕ) (bs : List ℕ) (m : Memory)
    → k < 16
    → 128 ≤ o
    → get_field k (patched o bs m) ≡ get_field k m
unfolding patched
get_field-patched k o bs m h le = get_field-store_bytes k o bs m h le

module _ (z i j o : ℕ) (bs : List ℕ) (m : Memory) (lo : slot_offset i z ≤ o)
    (hi : o + length bs ≤ slot_offset i z + z) (ne : i ≢ j) where
  -- Bytes within slot `j` stay when bytes of slot `i` are written.
  load_bytes-patched :
      (p k : ℕ)
      → slot_offset j z ≤ p
      → p + k ≤ slot_offset j z + z
      → load_bytes (patched o bs m).byte p k ≡ load_bytes m.byte p k
  unfolding patched
  load_bytes-patched p k below above = elim (dec_lt i j) [
    | yes before ↦
        load_bytes-store_bytes_apart m.byte o bs p k (inr (omega (arith, slot_end i j z before)))
    | no after ↦
        load_bytes-store_bytes_apart m.byte o bs p k
          (inl (omega (arith, slot_end j i z (omega arith))))
  ]

  pub size_at-patched_ne : 4 ≤ z → size_at z (patched o bs m) j ≡ size_at z m j
  unfolding size_at
  size_at-patched_ne room =
      ap decode_le (load_bytes-patched (slot_offset j z) 4 (omega arith) (omega arith))

  pub payload_at-patched_ne :
      size_at z m j + 4 ≤ z → payload_at z (patched o bs m) j ≡ payload_at z m j
  unfolding payload_at
  payload_at-patched_ne room =
      load_bytes-patched (slot_offset j z + 4) _ (omega arith)
        (omega (arith, size_at-patched_ne (omega arith)))
      ∙ ap (load_bytes m.byte (slot_offset j z + 4))
          (omega (arith, size_at-patched_ne (omega arith), size-patched o bs m))

-- The size prefix that was packed is read back.
pub size_at-patched_prefix :
    (z i v : ℕ) (m : Memory)
    → v < 2 ^ 32
    → size_at z (patched (slot_offset i z) (encode_le 4 v) m) i ≡ v
unfolding size_at patched
size_at-patched_prefix z i v m small =
    ap decode_le (
      ap (load_bytes (patched (slot_offset i z) (encode_le 4 v) m).byte (slot_offset i z))
        (omega (arith, length-encode_le 4 v))
      ∙ load_bytes-store_bytes_self m.byte (slot_offset i z) (encode_le 4 v))
    ∙ decode_le-encode_le 4 v (omega arith)

-- The payload's bytes leave the prefix, and are read back if it is their length.
pub size_at-patched_payload :
    (z i : ℕ) (bs : List ℕ) (m : Memory)
    → size_at z (patched (slot_offset i z + 4) bs m) i ≡ size_at z m i
unfolding size_at patched
size_at-patched_payload z i bs m = ap decode_le (
    load_bytes-store_bytes_apart m.byte (slot_offset i z + 4) bs (slot_offset i z) 4
      (inl (omega arith)))

pub payload_at-patched_payload :
    (z i : ℕ) (bs : List ℕ) (m : Memory)
    → size_at z m i ≡ length bs
    → slot_offset i z + 4 + length bs ≤ m.size
    → payload_at z (patched (slot_offset i z + 4) bs m) i ≡ bs
unfolding payload_at patched
payload_at-patched_payload z i bs m e inside =
    ap (load_bytes (patched (slot_offset i z + 4) bs m).byte (slot_offset i z + 4))
      (omega (arith, size_at-patched_payload z i bs m))
    ∙ load_bytes-store_bytes_self m.byte (slot_offset i z + 4) bs
