-- ===== src/Lifecycle/Init.antt =====
-- The header that `_init_header` writes, on a memory of zeros.
use shm_comm.Prelude.{
  ℕ, ◌+◌, ◌*◌, ◌^◌, ◌≤◌, ◌<◌, ◌≡◌, refl, sym, ◌∙◌, ◌≢◌, arith, le→leb, lt→ltb, eq→==, ne→==, [],
  ◌⊎◌, inl, inr, ℕ_discrete,
}
use shm_comm.Exec.{ok, raised, shm_connection_error}
use shm_comm.Memory.{Memory, load_bytes, decode_le}
use shm_comm.Core.Header.{
  idx_magic, idx_version, idx_head, idx_tail, idx_msg_count, idx_drop_count, idx_num_slots,
  idx_slot_size, magic, version, get_field, set_field, init_header, validate_header,
}
use shm_comm.Core.Fields.{get_field-set_field_self, get_field-set_field_ne}
use shm_comm.Buffer.Slots.{size_at, size_at-set_field}
use shm_comm.Buffer.Segment.{IsSegment}
use shm_comm.Buffer.Queue.{contents, contents-empty}

abbrev pub zeros : ℕ → Memory
zeros size = record { size = size; byte = λ _. 0 }

-- The memory after each assignment of `_init_header`.
abbrev to_version : Memory → Memory
to_version m = set_field idx_version version (set_field idx_magic magic m)

abbrev to_counts : Memory → Memory
to_counts m =
    set_field idx_drop_count 0
      (set_field idx_msg_count 0 (set_field idx_tail 0 (set_field idx_head 0 (to_version m))))

unfoldable pub initialised : ℕ → ℕ → Memory → Memory
initialised n z m = set_field idx_slot_size z (set_field idx_num_slots n (to_counts m))

ruleset words = (arith, get_field-set_field_ne, get_field-set_field_self)

module _ (n z : ℕ) (m : Memory) (few : n < 2 ^ 63) (narrow : z ≤ 2 ^ 32) where
  pub init_header-initialised : 128 ≤ m.size → init_header n z m ≡ (ok tt, initialised n z m)
  unfolding init_header initialised
  init_header-initialised h =
      rw (le→leb 128 m.size h, lt→ltb n (2 ^ 63) few, lt→ltb z (2 ^ 63) (omega arith))

  pub fields-initialised :
      (get_field idx_magic (initialised n z m) ≡ magic)
      × (get_field idx_version (initialised n z m) ≡ version)
      × (get_field idx_head (initialised n z m) ≡ 0)
      × (get_field idx_tail (initialised n z m) ≡ 0)
      × (get_field idx_msg_count (initialised n z m) ≡ 0)
      × (get_field idx_drop_count (initialised n z m) ≡ 0)
      × (get_field idx_num_slots (initialised n z m) ≡ n)
      × (get_field idx_slot_size (initialised n z m) ≡ z)
  unfolding initialised
  fields-initialised = grind words

  pub size-initialised : (initialised n z m).size ≡ m.size
  unfolding initialised set_field
  size-initialised = refl

  pub size_at-initialised : (i : ℕ) → size_at z (initialised n z m) i ≡ size_at z m i
  unfolding initialised
  size_at-initialised i = grind (arith, size_at-set_field)

size_at-zeros : (z size i : ℕ) → size_at z (zeros size) i ≡ 0
unfolding size_at load_bytes decode_le
size_at-zeros z size i = refl

-- A header that says what it should passes the check.
pub validate_header-ok :
    (m : Memory)
    → 128 ≤ m.size
    → get_field idx_magic m ≡ magic
    → get_field idx_version m ≡ version
    → validate_header m ≡ (ok tt, m)
unfolding validate_header
validate_header-ok m h a b = rw (le→leb 128 m.size h, a, b)

-- Any other is refused.
pub validate_header-refused :
    (m : Memory)
    → 128 ≤ m.size
    → (get_field idx_magic m ≢ magic) ⊎ (get_field idx_version m ≢ version)
    → validate_header m ≡ (raised shm_connection_error, m)
unfolding validate_header
validate_header-refused m h (inl a) = rw (le→leb 128 m.size h, ne→== _ magic a)
validate_header-refused m h (inr b) = elim (ℕ_discrete (get_field idx_magic m) magic) [
  | yes a ↦ rw (le→leb 128 m.size h, eq→== _ magic a, ne→== _ version b)
  | no a ↦ rw (le→leb 128 m.size h, ne→== _ magic a)
]

-- The segment that is created: `n` slots of `z` bytes, empty, with both counters at zero.
module _ (n z : ℕ) (some_slot : 0 < n) (few : n < 2 ^ 63) (prefix : 4 ≤ z)
    (narrow : z ≤ 2 ^ 32) where
  abbrev fresh : Memory
  fresh = initialised n z (zeros (128 + n * z))

  pub initialised-IsSegment : IsSegment n z fresh
  initialised-IsSegment =
      let (_, _, h, t, _, _, s, w) = fields-initialised n z (zeros (128 + n * z)) few narrow in
      record {
        num_slots = s;
        slot_size = w;
        some_slot = some_slot;
        few = few;
        prefix = prefix;
        narrow = narrow;
        fits = omega (arith, size-initialised n z (zeros (128 + n * z)) few narrow);
        head_in = omega arith;
        tail_in = omega arith;
        sizes = λ i lt. omega (
          arith,
          size_at-initialised n z (zeros (128 + n * z)) few narrow i,
          size_at-zeros z (128 + n * z) i,
        );
      }

  pub contents-initialised : contents n z fresh ≡ []
  contents-initialised =
      let (_, _, h, t, _, _, _, _) = fields-initialised n z (zeros (128 + n * z)) few narrow in
      contents-empty initialised-IsSegment (t ∙ sym h)
