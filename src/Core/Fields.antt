-- ===== src/Core/Fields.antt =====
-- What writing one header field does to the others, and to the bytes behind the header.
use shm_comm.Prelude.{
  ℕ, ◌+◌, ◌*◌, ◌^◌, ◌≤◌, ◌<◌, ◌≡◌, refl, ap, ◌∙◌, ◌≢◌, ◌⊎◌, inl, inr, arith, dec_lt, List, length,
}
use shm_comm.Memory.{Memory, load_bytes, store_bytes, encode_le, decode_le}
use shm_comm.Memory.Bytes.{load_bytes-store_bytes_self, load_bytes-store_bytes_apart}
use shm_comm.Memory.Words.{length-encode_le, decode_le-encode_le}
use shm_comm.Core.Header.{get_field, set_field}

-- A word that was written is read back, as long as it fits.
pub get_field-set_field_self :
    (i v : ℕ) (m : Memory) → v < 2 ^ 64 → get_field i (set_field i v m) ≡ v
unfolding get_field set_field
get_field-set_field_self i v m h =
    ap decode_le (
      ap (load_bytes (store_bytes m.byte (8 * i) (encode_le 8 v)) (8 * i))
        (omega (arith, length-encode_le 8 v))
      ∙ load_bytes-store_bytes_self m.byte (8 * i) (encode_le 8 v))
    ∙ decode_le-encode_le 8 v h

apart : (i j v : ℕ) → i ≢ j → (8 * j + 8 ≤ 8 * i) ⊎ (8 * i + length (encode_le 8 v) ≤ 8 * j)
apart i j v ne = elim (dec_lt i j) [
  | yes p ↦ inr (omega (arith, length-encode_le 8 v))
  | no p ↦ inl (omega (arith, length-encode_le 8 v))
]

-- The other words are untouched.
pub get_field-set_field_ne :
    (i j v : ℕ) (m : Memory) → i ≢ j → get_field j (set_field i v m) ≡ get_field j m
unfolding get_field set_field
get_field-set_field_ne i j v m ne =
    ap decode_le
      (load_bytes-store_bytes_apart m.byte (8 * i) (encode_le 8 v) (8 * j) 8 (apart i j v ne))

-- Nothing behind the header is touched.
pub load_bytes-set_field :
    (i v o n : ℕ) (m : Memory)
    → i < 16
    → 128 ≤ o
    → load_bytes (set_field i v m).byte o n ≡ load_bytes m.byte o n
unfolding set_field
load_bytes-set_field i v o n m h k =
    load_bytes-store_bytes_apart m.byte (8 * i) (encode_le 8 v) o n
      (inr (omega (arith, length-encode_le 8 v)))

-- A word is untouched by what is written behind the header.
pub get_field-store_bytes :
    (i o : ℕ) (bs : List ℕ) (m : Memory)
    → i < 16
    → 128 ≤ o
    → get_field i (record m { byte = store_bytes m.byte o bs }) ≡ get_field i m
unfolding get_field
get_field-store_bytes i o bs m h k =
    ap decode_le (load_bytes-store_bytes_apart m.byte o bs (8 * i) 8 (inl (omega arith)))

pub size-set_field : (i v : ℕ) (m : Memory) → (set_field i v m).size ≡ m.size
unfolding set_field
size-set_field i v m = refl
