-- ===== src/Buffer/Slots.antt =====
-- What a slot holds, and that writing one slot leaves the header and the other slots alone.
use shm_comm.Prelude.{
  ℕ, ◌+◌, ◌-◌, ◌*◌, ◌^◌, ◌≤◌, ◌<◌, min, ◌≡◌, refl, ap, ◌∙◌, ◌≢◌, inl, inr, arith, dec_lt, List,
  length, le→leb,
}
use shm_comm.Exec.{ok}
use shm_comm.Memory.{Memory, load_bytes, store_bytes, encode_le, decode_le}
use shm_comm.Memory.Bytes.{load_bytes-store_bytes_self, load_bytes-store_bytes_apart}
use shm_comm.Memory.Words.{length-encode_le, decode_le-encode_le}
use shm_comm.Core.Header.{get_field, set_field}
use shm_comm.Core.Fields.{load_bytes-set_field, get_field-store_bytes, size-set_field}
use shm_comm.Buffer.{slot_offset, write_slot, read_slot}

-- The size prefix of slot `i`, and the payload that `_read_slot` returns for it.
unfoldable pub size_at : ℕ → Memory → ℕ → ℕ
size_at z m i = decode_le (load_bytes m.byte (slot_offset i z) 4)

unfoldable pub payload_at : ℕ → Memory → ℕ → List ℕ
unfolding size_at
payload_at z m i =
    let start = slot_offset i z + 4 in
    load_bytes m.byte start (min (size_at z m i) (m.size - start))

-- The memory after `_write_slot`.
unfoldable pub put_payload : ℕ → ℕ → List ℕ → Memory → Memory
put_payload z i p m = record m {
  byte =
      store_bytes (store_bytes m.byte (slot_offset i z) (encode_le 4 (length p)))
        (slot_offset i z + 4) p;
}

-- Slot `i` ends where the next one begins, at the latest.
pub slot_end : (i j z : ℕ) → i < j → slot_offset i z + z ≤ slot_offset j z
unfolding slot_offset
slot_end i j z h = grind arith

pub slot_inside : (i n z : ℕ) → i < n → slot_offset i z + z ≤ 128 + n * z
unfolding slot_offset
slot_inside i n z h = grind arith

pub slot_offset-le : (i z : ℕ) → 128 ≤ slot_offset i z
unfolding slot_offset
slot_offset-le i z = omega arith

module _ (z i : ℕ) (p : List ℕ) (m : Memory) (short : length p < 2 ^ 32)
    (inside : slot_offset i z + 4 + length p ≤ m.size) where
  pub write_slot-put_payload : write_slot i z p m ≡ (ok tt, put_payload z i p m)
  unfolding write_slot put_payload
  write_slot-put_payload = ground arith

  pub size_at-put_payload_self : size_at z (put_payload z i p m) i ≡ length p
  unfolding size_at put_payload
  size_at-put_payload_self =
      ap decode_le (
        load_bytes-store_bytes_apart (store_bytes m.byte (slot_offset i z) (encode_le 4 (length p)))
          (slot_offset i z + 4) p (slot_offset i z) 4 (inl (omega arith))
        ∙ ap
            (load_bytes (store_bytes m.byte (slot_offset i z) (encode_le 4 (length p)))
              (slot_offset i z))
            (omega (arith, length-encode_le 4 (length p)))
        ∙ load_bytes-store_bytes_self m.byte (slot_offset i z) (encode_le 4 (length p)))
      ∙ decode_le-encode_le 4 (length p) (omega arith)

  -- The payload that was written is read back, whole.
  pub payload_at-put_payload_self : payload_at z (put_payload z i p m) i ≡ p
  unfolding payload_at put_payload
  payload_at-put_payload_self =
      ap (load_bytes (put_payload z i p m).byte (slot_offset i z + 4))
        (omega (arith, size_at-put_payload_self))
      ∙ load_bytes-store_bytes_self (store_bytes m.byte (slot_offset i z) (encode_le 4 (length p)))
          (slot_offset i z + 4) p

  pub get_field-put_payload : (k : ℕ) → k < 16 → get_field k (put_payload z i p m) ≡ get_field k m
  unfolding put_payload
  get_field-put_payload k h =
      get_field-store_bytes k (slot_offset i z + 4) p
        (record m { byte = store_bytes m.byte (slot_offset i z) (encode_le 4 (length p)) }) h
        (omega (arith, slot_offset-le i z))
      ∙ get_field-store_bytes k (slot_offset i z) (encode_le 4 (length p)) m h
          (omega (arith, slot_offset-le i z))

pub size-put_payload : (z i : ℕ) (p : List ℕ) (m : Memory) → (put_payload z i p m).size ≡ m.size
unfolding put_payload
size-put_payload z i p m = refl

module _ (z i j : ℕ) (p : List ℕ) (m : Memory) (ne : i ≢ j) (room : length p + 4 ≤ z) where
  -- Bytes within slot `j` stay when slot `i` is written.
  load_bytes-put_payload :
      (o n : ℕ)
      → slot_offset j z ≤ o
      → o + n ≤ slot_offset j z + z
      → load_bytes (put_payload z i p m).byte o n ≡ load_bytes m.byte o n
  unfolding put_payload
  load_bytes-put_payload o n lo hi = elim (dec_lt i j) [
    | yes before ↦
        load_bytes-store_bytes_apart _ (slot_offset i z + 4) p o n
          (inr (omega (arith, slot_end i j z before)))
        ∙ load_bytes-store_bytes_apart m.byte (slot_offset i z) (encode_le 4 (length p)) o n
            (inr (omega (arith, slot_end i j z before, length-encode_le 4 (length p))))
    | no after ↦
        load_bytes-store_bytes_apart _ (slot_offset i z + 4) p o n
          (inl (omega (arith, slot_end j i z (omega arith))))
        ∙ load_bytes-store_bytes_apart m.byte (slot_offset i z) (encode_le 4 (length p)) o n
            (inl (omega (arith, slot_end j i z (omega arith))))
  ]

  pub size_at-put_payload_ne : size_at z (put_payload z i p m) j ≡ size_at z m j
  unfolding size_at
  size_at-put_payload_ne =
      ap decode_le (load_bytes-put_payload (slot_offset j z) 4 (omega arith) (omega arith))

  pub payload_at-put_payload_ne :
      size_at z m j + 4 ≤ z → payload_at z (put_payload z i p m) j ≡ payload_at z m j
  unfolding payload_at
  payload_at-put_payload_ne h =
      load_bytes-put_payload (slot_offset j z + 4) _ (omega arith)
        (omega (arith, size_at-put_payload_ne))
      ∙ ap (load_bytes m.byte (slot_offset j z + 4))
          (omega (arith, size_at-put_payload_ne, size-put_payload z i p m))

module _ (z k v : ℕ) (m : Memory) (i : ℕ) (word : k < 16) where
  pub size_at-set_field : size_at z (set_field k v m) i ≡ size_at z m i
  unfolding size_at
  size_at-set_field =
      ap decode_le (load_bytes-set_field k v (slot_offset i z) 4 m word (slot_offset-le i z))

  pub payload_at-set_field : payload_at z (set_field k v m) i ≡ payload_at z m i
  unfolding payload_at
  payload_at-set_field =
      load_bytes-set_field k v (slot_offset i z + 4) _ m word (omega (arith, slot_offset-le i z))
      ∙ ap (load_bytes m.byte (slot_offset i z + 4))
          (omega (arith, size_at-set_field, size-set_field k v m))

pub read_slot-payload_at :
    (z i : ℕ) (m : Memory)
    → slot_offset i z + 4 ≤ m.size
    → read_slot i z m ≡ (ok (payload_at z m i), m)
unfolding read_slot payload_at
read_slot-payload_at z i m h = rw (le→leb (slot_offset i z + 4) m.size h)
