-- ===== src/Buffer/Torn.antt =====
-- `_read_slot` reads a slot in two steps, first the size, then the payload. Here a `_write_slot` to the same slot
-- comes between the two.
use shm_comm.Prelude.{
  ℕ, zero, suc, ◌+◌, ◌≤◌, ◌<◌, ◌^◌, ◌≡◌, inr, refl, ap, ap₂, ◌∙◌, arith, List, [], ◌∷◌, ◌++◌,
  length, take, drop,
}
use shm_comm.Exec.{ok, ◌>>=◌}
use shm_comm.Memory.{Memory, load_bytes, store_bytes, encode_le}
use shm_comm.Memory.Bytes.{
  load_bytes_ext, load_bytes-store_bytes_self, load_bytes-store_bytes_apart,
}
use shm_comm.Memory.Words.{length-encode_le}
use shm_comm.Buffer.{slot_offset, write_slot, unpack_from, load_slice}
use shm_comm.Buffer.Slots.{size_at, put_payload, write_slot-put_payload, size_at-put_payload_self}

-- Bytes that are read from where a run of bytes was stored: the run, and what it does not cover.
load_bytes-store_bytes_over :
    (f : ℕ → ℕ) (o n : ℕ) (bs : List ℕ)
    → load_bytes (store_bytes f o bs) o n ≡ take n bs ++ drop (length bs) (load_bytes f o n)
unfolding load_bytes store_bytes
load_bytes-store_bytes_over f o zero [] = refl
load_bytes-store_bytes_over f o (suc n) [] = refl
load_bytes-store_bytes_over f o zero (b ∷ bs) = refl
load_bytes-store_bytes_over f o (suc n) (b ∷ bs) = ap₂ ◌∷◌ (ground arith) (
    load_bytes_ext (store_bytes f o (b ∷ bs)) (store_bytes f (suc o) bs) (suc o) n
      (λ q a c. ground arith)
    ∙ load_bytes-store_bytes_over f (suc o) n bs)

module _ (z i : ℕ) (p q : List ℕ) (m : Memory) (short : z < 2 ^ 32) (fits_p : length p + 4 ≤ z)
    (fits_q : length q + 4 ≤ z) (inside : slot_offset i z + z ≤ m.size) where
  -- The memory after the first write, and after the second.
  abbrev holding : Memory
  holding = put_payload z i p m

  abbrev replaced : Memory
  replaced = put_payload z i q holding

  unpack_from-size_at : unpack_from (slot_offset i z) holding ≡ (ok (length p), holding)
  unfolding unpack_from size_at put_payload
  unpack_from-size_at = ground (arith, size_at-put_payload_self z i p m (omega arith) (omega arith))

  -- The second write's prefix leaves the first payload, and its payload covers it from the front.
  load_bytes-replaced :
      load_bytes replaced.byte (slot_offset i z + 4) (length p)
      ≡ take (length p) q ++ drop (length q) p
  unfolding put_payload
  load_bytes-replaced =
      load_bytes-store_bytes_over
        (store_bytes holding.byte (slot_offset i z) (encode_le 4 (length q))) (slot_offset i z + 4)
        (length p) q
      ∙ ap (λ bs. take (length p) q ++ drop (length q) bs)
          (load_bytes-store_bytes_apart holding.byte (slot_offset i z) (encode_le 4 (length q))
              (slot_offset i z + 4) (length p) (inr (omega (arith, length-encode_le 4 (length q))))
            ∙ load_bytes-store_bytes_self
                (store_bytes m.byte (slot_offset i z) (encode_le 4 (length p)))
                (slot_offset i z + 4) p)

  size-holding : holding.size ≡ m.size
  unfolding put_payload
  size-holding = refl

  size-replaced : replaced.size ≡ m.size
  unfolding put_payload
  size-replaced = refl

  load_slice-replaced :
      load_slice (slot_offset i z + 4) (length p) replaced
      ≡ (ok (take (length p) q ++ drop (length q) p), replaced)
  unfolding load_slice
  load_slice-replaced =
      ap (λ k. (ok (load_bytes replaced.byte (slot_offset i z + 4) k), replaced))
        (omega (arith, size-replaced))
      ∙ ap (λ bs. (ok bs, replaced)) load_bytes-replaced

  -- If `_write_slot` of a payload p, the reading of its size, `_write_slot` of a payload q to
  -- the same slot and the reading of the payload follow each other, where both payloads fit the
  -- slot and the slot lies within the segment, then the last reading gives the first bytes of
  -- q, as many as p had, followed by the rest of p where q is shorter.
  pub torn_read :
      (write_slot i z p >>= λ _. unpack_from (slot_offset i z) >>= λ payload_size.
      write_slot i z q >>= λ _. load_slice (slot_offset i z + 4) payload_size)
        m
      ≡ (ok (take (length p) q ++ drop (length q) p), replaced)
  torn_read = rw (
    write_slot-put_payload z i p m (omega arith) (omega arith),
    unpack_from-size_at,
    write_slot-put_payload z i q holding (omega arith) (omega (arith, size-holding)),
    load_slice-replaced,
  )
