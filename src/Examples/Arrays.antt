-- ===== src/Examples/Arrays.antt =====
-- examples/numpy_sharing.py: an array as bytes with its item size and shape in front. numpy is a
-- parameter; a dtype is what numpy calls one, and a call that raises ValueError gives `none`.
pub mod Codec
pub mod Stream
use shm_comm.Prelude.{
  ℕ, zero, suc, ◌+◌, ◌*◌, ◌/◌, ◌%◌, ◌^◌, Option, none, some, List, [], ◌∷◌, ◌++◌, length, drop, ltb,
  ◌==◌, if◌then◌else◌,
}
use shm_comm.Exec.{
  Action, Outcome, ok, raised, running, pure, lift, struct_error, value_error, index_error,
  key_error, ◌>>=◌, ◌>>◌,
}
use shm_comm.Exec.Spin.{World}
use shm_comm.Memory.{Memory}
use shm_comm.Core.Segments.{System}
use shm_comm.Fifo.{Payload}
use shm_comm.PubSub.Publisher
use shm_comm.PubSub.Publisher.{Publisher}
use shm_comm.PubSub.Subscriber
use shm_comm.PubSub.Subscriber.{Subscriber}

-- What the script uses of numpy; `ndim` is the length of `shape`.
pub record Numpy : Type 1 where
  pub Array : Type 0
  pub Dtype : Type 0
  pub float32 : Dtype
  pub float64 : Dtype
  pub dtype : Array → Dtype
  pub itemsize : Dtype → ℕ
  pub shape : Array → List ℕ
  pub tobytes : Array → Payload
  pub frombuffer : Payload → Dtype → Option Array
  pub reshape : Array → List ℕ → Option Array
  pub copy : Array → Array

-- An expression that may raise, and what is done with its value.
abbrev pub bind : {A B : Type 0} → Outcome A → (A → Outcome B) → Outcome B
bind (ok a) f = f a
bind (raised e) f = raised e
bind running f = running

-- `struct.pack(">B B", a, b)`
unfoldable pub pack_two_bytes : ℕ → ℕ → Outcome Payload
pack_two_bytes a b =
    if ltb a 256
    then (if ltb b 256 then ok (a ∷ b ∷ []) else raised struct_error)
    else raised struct_error

-- One ">I".
unfoldable pub big_endian : ℕ → Payload
big_endian v = (v / 16777216) ∷ (v / 65536 % 256) ∷ (v / 256 % 256) ∷ (v % 256) ∷ []

-- `struct.pack(f">{n}I", *dims)`
unfoldable pub pack_dims : List ℕ → Outcome Payload
unfolding big_endian
pack_dims [] = ok []
pack_dims (d ∷ ds) =
    let rest = pack_dims ds in
    if ltb d (2 ^ 32) then bind rest (λ bs. ok (big_endian d ++ bs)) else raised struct_error

-- `struct.unpack_behind(f">{n}I", ...)`, from the bytes behind the offset.
unfoldable pub unpack_dims : ℕ → Payload → Outcome (List ℕ)
unpack_dims zero bs = ok []
unpack_dims (suc n) (a ∷ b ∷ c ∷ d ∷ bs) =
    bind (unpack_dims n bs) (λ ds. ok ((((a * 256 + b) * 256 + c) * 256 + d) ∷ ds))
unpack_dims (suc n) bs = raised struct_error

abbrev pub or_value_error : {A : Type 0} → Option A → Outcome A
or_value_error none = raised value_error
or_value_error (some a) = ok a

module _ (np : Numpy) where
  open np use {
    Array, Dtype, float32, float64, dtype, itemsize, shape, tobytes, frombuffer, reshape, copy,
  }

  unfoldable pub pack_array : Array → Outcome Payload
  pack_array arr = bind (pack_two_bytes (length (shape arr)) (itemsize (dtype arr))) λ header.
      bind (pack_dims (shape arr)) λ shape_bytes. ok ((header ++ shape_bytes) ++ tobytes arr)

  -- `{8: np.float64, 4: np.float32}[itemsize]`
  unfoldable pub dtype_of : ℕ → Outcome Dtype
  dtype_of size =
      if size == 8 then ok float64 else (if size == 4 then ok float32 else raised key_error)

  -- From the two header bytes on.
  abbrev unpack_behind : Payload → ℕ → ℕ → Payload → Outcome Array
  unpack_behind raw ndim size behind = bind (unpack_dims ndim behind) λ shp.
      bind (dtype_of size) λ d.
        bind (or_value_error (frombuffer (drop (2 + ndim * 4) raw) d))
          λ flat. bind (or_value_error (reshape flat shp)) λ arr. ok (copy arr)

  unfoldable pub unpack_array : Payload → Outcome Array
  unpack_array (ndim ∷ size ∷ behind) = unpack_behind (ndim ∷ size ∷ behind) ndim size behind
  unpack_array raw = raised index_error

  -- A round of `run_publisher` with the joints that it has computed.
  unfoldable pub publish_round : World Memory → ℕ → Publisher → Array → Action System (Unit {0})
  publish_round w fuel publisher joints = do
    payload ← lift (pack_array joints)
    Publisher.send_bytes w fuel publisher payload
    pure tt

  abbrev pub received_array : Option Payload → Outcome (Option Array)
  received_array none = ok none
  received_array (some raw) = bind (unpack_array raw) (λ arr. ok (some arr))

  -- A round of `run_subscriber`; `none` is the round that goes on waiting.
  unfoldable pub receive_round :
      World (Subscriber × System) → ℕ → (second : ℕ) → Action (Subscriber × System) (Option Array)
  receive_round w fuel second = do
    raw ← Subscriber.recv_bytes w fuel (some second)
    lift (received_array raw)
