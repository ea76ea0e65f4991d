-- ===== src/Serialize.antt =====
-- serialize.py. The values and the two serializers are Python's and msgpack's, and are parameters.
pub mod Errors
use shm_comm.Prelude.{Bool, true, false, Option, none, some, if◌then◌else◌}
use shm_comm.Exec.{Outcome, ok, raised, shm_serialization_error}
use shm_comm.Fifo.{Payload}

-- What the code uses of Python's objects and of the two packages. `raw_bytes` is `bytes(obj)` for a
-- bytes-like object, and `none` for any other; a serializer that raises gives `none`.
pub record Library : Type 1 where
  pub Value : Type 0
  pub raw_bytes : Value → Option Payload
  pub is_none : Value → Bool
  pub is_false : Value → Bool
  pub dumps : Value → Option Payload
  pub loads : Payload → Option Value
  pub msgpack_available : Bool
  pub packb : Value → Option Payload
  pub unpackb : Payload → Option Value

-- The argument `method`; `unknown` is any other string.
pub data Method : Type 0 where
  pickle msgpack unknown : Method

-- `try: return … except Exception: raise SHMSerializationError`
abbrev pub or_serialization_error {ℓ} : {A : Type ℓ} → Option A → Outcome A
or_serialization_error none = raised shm_serialization_error
or_serialization_error (some a) = ok a

module _ (lib : Library) where
  open lib use {Value, raw_bytes, dumps, loads, msgpack_available, packb, unpackb}

  unfoldable pub serialize_by : Method → Value → Outcome Payload
  serialize_by pickle obj = or_serialization_error (dumps obj)
  serialize_by msgpack obj =
      if msgpack_available
      then or_serialization_error (packb obj)
      else (raised shm_serialization_error)
  serialize_by unknown obj = raised shm_serialization_error

  unfoldable pub serialize : Value → Method → Outcome Payload
  unfolding serialize_by
  serialize obj method = elim (raw_bytes obj) [ some b ↦ ok b | none ↦ serialize_by method obj ]

  unfoldable pub deserialize : Payload → Method → Outcome Value
  deserialize bytes pickle = or_serialization_error (loads bytes)
  deserialize bytes msgpack =
      if msgpack_available
      then or_serialization_error (unpackb bytes)
      else (raised shm_serialization_error)
  deserialize bytes unknown = raised shm_serialization_error
