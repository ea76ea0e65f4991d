-- ===== src/Examples/Arrays/Codec.antt =====
-- What `pack_array` writes is what `unpack_array` reads.
use shm_comm.Prelude.{
  ℕ, suc, ◌+◌, ◌*◌, ◌/◌, ◌%◌, ◌^◌, ◌<◌, ◌≤◌, ◌≡◌, refl, sym, ap, ◌∙◌, ◌⊎◌, inl, inr, some, List, [],
  ◌∷◌, ◌++◌, length, drop, length-append, arith, lt→ltb,
}
use shm_comm.Exec.{ok}
use shm_comm.Fifo.{Payload}
use shm_comm.Examples.Arrays.{
  Numpy, pack_two_bytes, big_endian, pack_dims, unpack_dims, pack_array, dtype_of, unpack_array,
}

-- The number of elements, and that each dimension fits a uint32.
unfoldable pub elements : List ℕ → ℕ
elements [] = 1
elements (d ∷ ds) = d * elements ds

unfoldable pub Narrow : List ℕ → Type 0
Narrow [] = Unit
Narrow (d ∷ ds) = (d < 2 ^ 32) × Narrow ds

-- The bytes of the dimensions.
unfoldable pub dim_bytes : List ℕ → Payload
dim_bytes [] = []
dim_bytes (d ∷ ds) = big_endian d ++ dim_bytes ds

pub length-dim_bytes : (ds : List ℕ) → length (dim_bytes ds) ≡ 4 * length ds
unfolding dim_bytes big_endian
length-dim_bytes [] = refl
length-dim_bytes (d ∷ ds) = omega (arith, length-dim_bytes ds)

pub pack_dims-dim_bytes : (ds : List ℕ) → Narrow ds → pack_dims ds ≡ ok (dim_bytes ds)
unfolding pack_dims dim_bytes Narrow
pack_dims-dim_bytes [] h = refl
pack_dims-dim_bytes (d ∷ ds) (lt, h) = rw (lt→ltb d (2 ^ 32) lt, pack_dims-dim_bytes ds h)

digits :
    (v : ℕ) → ((v / 16777216 * 256 + v / 65536 % 256) * 256 + v / 256 % 256) * 256 + v % 256 ≡ v
digits v = omega arith

pub unpack_dims-dim_bytes :
    (ds : List ℕ) (bs : Payload) → unpack_dims (length ds) (dim_bytes ds ++ bs) ≡ ok ds
unfolding unpack_dims dim_bytes big_endian
unpack_dims-dim_bytes [] bs = refl
unpack_dims-dim_bytes (d ∷ ds) bs = rw (unpack_dims-dim_bytes ds bs, digits d)

four_more : (n : ℕ) → suc n * 4 ≡ suc (suc (suc (suc (n * 4))))
four_more n = omega arith

two_more : (n : ℕ) → 2 + n ≡ suc (suc n)
two_more n = omega arith

pub drop-dim_bytes : (ds : List ℕ) (bs : Payload) → drop (length ds * 4) (dim_bytes ds ++ bs) ≡ bs
unfolding dim_bytes big_endian
drop-dim_bytes [] bs = refl
drop-dim_bytes (d ∷ ds) bs =
    ap (λ k. drop k (dim_bytes (d ∷ ds) ++ bs)) (four_more (length ds)) ∙ drop-dim_bytes ds bs

module _ (np : Numpy) where
  open np use {
    Array, Dtype, float32, float64, dtype, itemsize, shape, tobytes, frombuffer, reshape, copy,
  }

  -- The two dtypes that `unpack_array` makes arrays of.
  unfoldable pub IsFloat : Dtype → Type 0
  IsFloat d = (d ≡ float32) ⊎ (d ≡ float64)

  -- What the code relies on in numpy: the item sizes of the two dtypes and the number of bytes of an
  -- array; for these dtypes, that bytes of a whole number of items are an array of one dimension, and
  -- that an array takes any shape of as many elements and at most 32 dimensions, the number that all
  -- versions of numpy allow; and that these and a copy keep the bytes and the dtype.
  pub record Documented : Type 0 where
    pub float32_size : itemsize float32 ≡ 4
    pub float64_size : itemsize float64 ≡ 8
    pub length-tobytes : (a : Array) → length (tobytes a) ≡ itemsize (dtype a) * elements (shape a)
    pub from_bytes :
        (bs : Payload) (d : Dtype) (k : ℕ)
        → IsFloat d
        → 0 < k
        → length bs ≡ itemsize d * k
        → (a : Array) × (frombuffer bs d ≡ some a) × (tobytes a ≡ bs) × (dtype a ≡ d)
    pub reshaped :
        (a : Array) (s : List ℕ)
        → IsFloat (dtype a)
        → length s ≤ 32
        → length (tobytes a) ≡ itemsize (dtype a) * elements s
        → (b : Array) × (reshape a s ≡ some b)
          × (tobytes b ≡ tobytes a)
          × (dtype b ≡ dtype a)
          × (shape b ≡ s)
    pub tobytes-copy : (a : Array) → tobytes (copy a) ≡ tobytes a
    pub dtype-copy : (a : Array) → dtype (copy a) ≡ dtype a
    pub shape-copy : (a : Array) → shape (copy a) ≡ shape a

  -- The same elements of the same dtype in the same shape.
  unfoldable pub Same : Array → Array → Type 0
  Same a b = (tobytes a ≡ tobytes b) × (dtype a ≡ dtype b) × (shape a ≡ shape b)

module _ (np : Numpy) (a : np.Array) where
  open np use {dtype, shape, tobytes, itemsize}

  -- The bytes that `pack_array` gives.
  unfoldable pub packed : Payload
  packed = (length (shape a) ∷ itemsize (dtype a) ∷ dim_bytes (shape a)) ++ tobytes a

  drop-packed : drop (2 + length (shape a) * 4) packed ≡ tobytes a
  unfolding packed
  drop-packed =
      ap (λ k. drop k packed) (two_more (length (shape a) * 4))
      ∙ drop-dim_bytes (shape a) (tobytes a)

  pub length-packed : length packed ≡ 2 + 4 * length (shape a) + length (tobytes a)
  unfolding packed
  length-packed =
      omega (arith, length-append (dim_bytes (shape a)) (tobytes a), length-dim_bytes (shape a))

module _ (np : Numpy) (doc : Documented np) (a : np.Array) where
  open np use {dtype, shape, tobytes, itemsize, float32, float64}

  dtype_of-itemsize :
      IsFloat np (dtype a)
      → (itemsize (dtype a) < 256) × (dtype_of np (itemsize (dtype a)) ≡ ok (dtype a))
  unfolding dtype_of IsFloat
  dtype_of-itemsize (inl e) = rw (e, doc.float32_size) (omega arith, refl)
  dtype_of-itemsize (inr e) = rw (e, doc.float64_size) (omega arith, refl)

  module _ (known : IsFloat np (dtype a)) (flat : length (shape a) ≤ 32)
      (narrow : Narrow (shape a)) where
    pub pack_array-packed : pack_array np a ≡ ok (packed np a)
    unfolding pack_array pack_two_bytes packed
    pack_array-packed = rw (
      lt→ltb (length (shape a)) 256 (omega (arith, flat)),
      lt→ltb _ 256 (dtype_of-itemsize known).0,
      pack_dims-dim_bytes (shape a) narrow,
    )

    pub unpack_array-packed :
        0 < elements (shape a)
        → (b : np.Array) × (unpack_array np (packed np a) ≡ ok b) × Same np a b
    unfolding unpack_array packed Same
    unpack_array-packed some_element =
        let (f, e, x, y) =
          doc.from_bytes (tobytes a) (dtype a) (elements (shape a)) known some_element
            (doc.length-tobytes a) in
        let (g, e', x', y', z) = doc.reshaped f (shape a) (rw y known) flat (
          ap length x ∙ doc.length-tobytes a ∙ ap (λ d. itemsize d * elements (shape a)) (sym y)) in
        (
          np.copy g,
          rw (
            unpack_dims-dim_bytes (shape a) (tobytes a),
            (dtype_of-itemsize known).1,
            drop-packed np a,
            e,
            e',
          ),
          (
            sym (doc.tobytes-copy g ∙ x' ∙ x),
            sym (doc.dtype-copy g ∙ y' ∙ y),
            sym (doc.shape-copy g ∙ z),
          ),
        )
