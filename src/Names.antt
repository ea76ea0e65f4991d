-- ===== src/Names.antt =====
-- Text as code points, as far as names need it, and the names that utils.py gives to segments.
use Prim.Native.Char.{code}
use Prim.Native.String.{String}
use shm_comm.Prelude.{ℕ, ◌≡◌, refl, Bool, true, false, List, [], ◌∷◌, ◌++◌, ◌==◌, arith, ◌&&◌}

abbrev pub Name : Type 0
Name = List ℕ

abbrev pub codes : String → Name
codes String.[] = []
codes (String.◌∷◌ c s) = code c ∷ codes s

unfoldable pub same : Name → Name → Bool
same [] [] = true
same [] (y ∷ ys) = false
same (x ∷ xs) [] = false
same (x ∷ xs) (y ∷ ys) = x == y && same xs ys

pub same_refl : (x : Name) → same x x ≡ true
unfolding same
same_refl [] = refl
same_refl (x ∷ xs) = ground (arith, same_refl xs)

pub same→eq : (x y : Name) → same x y ≡ true → x ≡ y
unfolding same
same→eq [] [] h = refl
same→eq [] (y ∷ ys) h = cc
same→eq (x ∷ xs) [] h = cc
same→eq (x ∷ xs) (y ∷ ys) h = ground (arith, same→eq xs ys)

pub same_comm : (x y : Name) → same x y ≡ same y x
unfolding same
same_comm [] [] = refl
same_comm [] (y ∷ ys) = refl
same_comm (x ∷ xs) [] = refl
same_comm (x ∷ xs) (y ∷ ys) = ground (arith, same_comm xs ys)

-- `entry.startswith(prefix)`
unfoldable pub starts_with : Name → Name → Bool
starts_with [] s = true
starts_with (p ∷ ps) [] = false
starts_with (p ∷ ps) (x ∷ xs) = p == x && starts_with ps xs

unfoldable pub pub_segment_name : Name → Name
pub_segment_name channel = codes "shmcomm_pub_" ++ channel

unfoldable pub req_segment_name : Name → Name
req_segment_name channel = codes "shmcomm_req_" ++ channel

unfoldable pub rep_segment_name : Name → Name
rep_segment_name channel = codes "shmcomm_rep_" ++ channel

unfoldable pub push_segment_name : Name → Name
push_segment_name channel = codes "shmcomm_push_" ++ channel

-- The four kinds of segment, and the name that each gives to a channel.
pub data Kind : Type 0 where
  pub_kind req_kind rep_kind push_kind : Kind

unfoldable pub segment_name : Kind → Name → Name
unfolding pub_segment_name req_segment_name rep_segment_name push_segment_name
segment_name pub_kind c = pub_segment_name c
segment_name req_kind c = req_segment_name c
segment_name rep_kind c = rep_segment_name c
segment_name push_kind c = push_segment_name c

-- Two channels get the same segment name only if they are the same channel of the same pattern
-- and direction.
pub segment_name-injective :
    (k l : Kind) (c d : Name) → segment_name k c ≡ segment_name l d → (k ≡ l) × (c ≡ d)
unfolding segment_name
segment_name-injective pub_kind pub_kind c d h = (refl, cc)
segment_name-injective req_kind req_kind c d h = (refl, cc)
segment_name-injective rep_kind rep_kind c d h = (refl, cc)
segment_name-injective push_kind push_kind c d h = (refl, cc)
segment_name-injective k l c d h = ground arith

-- Every one of them is listed by `list_segments`.
pub starts_with-segment_name :
    (k : Kind) (c : Name) → starts_with (codes "shmcomm_") (segment_name k c) ≡ true
unfolding starts_with segment_name
starts_with-segment_name pub_kind c = refl
starts_with-segment_name req_kind c = refl
starts_with-segment_name rep_kind c = refl
starts_with-segment_name push_kind c = refl
