-- ===== src/Memory/Words.antt =====
-- Little-endian numbers of a fixed width: struct's "<I" with width 4, numpy's "<i8" with width 8.
use native.Mathlib.Nat.{pow-suc}
use shm_comm.Prelude.{
  ℕ, zero, suc, ◌+◌, ◌*◌, ◌/◌, ◌%◌, ◌^◌, ◌<◌, ◌≡◌, refl, List, [], ◌∷◌, arith, length,
}

unfoldable pub encode_le : ℕ → ℕ → List ℕ
encode_le zero v = []
encode_le (suc w) v = (v % 256) ∷ encode_le w (v / 256)

unfoldable pub decode_le : List ℕ → ℕ
decode_le [] = 0
decode_le (b ∷ bs) = b + 256 * decode_le bs

pub length-encode_le : (w v : ℕ) → length (encode_le w v) ≡ w
unfolding encode_le
length-encode_le zero v = refl
length-encode_le (suc w) v = omega (arith, length-encode_le w (v / 256))

-- A number that fits the width is read back.
pub decode_le-encode_le : (w v : ℕ) → v < 256 ^ w → decode_le (encode_le w v) ≡ v
unfolding encode_le decode_le
decode_le-encode_le zero v h = omega arith
decode_le-encode_le (suc w) v h =
    omega (arith, decode_le-encode_le w (v / 256) (omega (arith, pow-suc 256 w)))
