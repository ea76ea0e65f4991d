-- ===== src/Memory/Bytes.antt =====
-- Reading and writing runs of bytes, and that runs which do not overlap do not affect each other.
use shm_comm.Prelude.{
  ℕ, zero, suc, ◌+◌, ◌≤◌, ◌<◌, ◌≡◌, refl, ap₂, ◌∙◌, ◌⊎◌, inl, inr, List, [], ◌∷◌, arith, ◌==◌,
  if◌then◌else◌, length,
}

abbrev update : (ℕ → ℕ) → ℕ → ℕ → ℕ → ℕ
update f p v q = if p == q then v else f q

unfoldable pub load_bytes : (ℕ → ℕ) → ℕ → ℕ → List ℕ
load_bytes f o zero = []
load_bytes f o (suc n) = f o ∷ load_bytes f (suc o) n

unfoldable pub store_bytes : (ℕ → ℕ) → ℕ → List ℕ → ℕ → ℕ
store_bytes f o [] = f
store_bytes f o (b ∷ bs) = update (store_bytes f (suc o) bs) o b

pub length-load_bytes : (f : ℕ → ℕ) (o n : ℕ) → length (load_bytes f o n) ≡ n
unfolding load_bytes
length-load_bytes f o zero = refl
length-load_bytes f o (suc n) = omega (arith, length-load_bytes f (suc o) n)

pub store_bytes_outside :
    (f : ℕ → ℕ) (o : ℕ) (bs : List ℕ) (q : ℕ)
    → (q < o) ⊎ (o + length bs ≤ q)
    → store_bytes f o bs q ≡ f q
unfolding store_bytes
store_bytes_outside f o [] q h = refl
store_bytes_outside f o (b ∷ bs) q h = ground (arith, store_bytes_outside f (suc o) bs q)

-- What is read depends on the bytes read and on nothing else.
pub load_bytes_ext :
    (f g : ℕ → ℕ) (o n : ℕ)
    → ((q : ℕ) → o ≤ q → q < o + n → f q ≡ g q)
    → load_bytes f o n ≡ load_bytes g o n
unfolding load_bytes
load_bytes_ext f g o zero h = refl
load_bytes_ext f g o (suc n) h =
    ap₂ ◌∷◌ (h o (omega arith) (omega arith))
      (load_bytes_ext f g (suc o) n (λ q a b. h q (omega arith) (omega arith)))

pub load_bytes-store_bytes_self :
    (f : ℕ → ℕ) (o : ℕ) (bs : List ℕ) → load_bytes (store_bytes f o bs) o (length bs) ≡ bs
unfolding load_bytes store_bytes
load_bytes-store_bytes_self f o [] = refl
load_bytes-store_bytes_self f o (b ∷ bs) = ap₂ ◌∷◌ (ground arith) (
    load_bytes_ext (store_bytes f o (b ∷ bs)) (store_bytes f (suc o) bs) (suc o) (length bs)
      (λ q a c. ground arith)
    ∙ load_bytes-store_bytes_self f (suc o) bs)

pub load_bytes-store_bytes_apart :
    (f : ℕ → ℕ) (p : ℕ) (bs : List ℕ) (o n : ℕ)
    → (o + n ≤ p) ⊎ (p + length bs ≤ o)
    → load_bytes (store_bytes f p bs) o n ≡ load_bytes f o n
load_bytes-store_bytes_apart f p bs o n (inl h) =
    load_bytes_ext _ _ o n (λ q a b. store_bytes_outside f p bs q (inl (omega arith)))
load_bytes-store_bytes_apart f p bs o n (inr h) =
    load_bytes_ext _ _ o n (λ q a b. store_bytes_outside f p bs q (inr (omega arith)))
