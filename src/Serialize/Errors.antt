-- ===== src/Serialize/Errors.antt =====
-- serialize.py: which errors there can be.
use shm_comm.Prelude.{◌≡◌, ◌≢◌, arith}
use shm_comm.Exec.{Exn, raised, running, shm_serialization_error}
use shm_comm.Fifo.{Payload}
use shm_comm.Serialize.{Library, Method, pickle, msgpack, unknown, serialize, deserialize}

module _ (lib : Library) where
  open lib use {Value, raw_bytes}

  -- The only exception is the library's own, in both directions, and neither waits.
  pub serialize-raises_own :
      (v : Value) (method : Method) (e : Exn)
      → (serialize lib v method ≢ running)
        × (serialize lib v method ≡ raised e → e ≡ shm_serialization_error)
  unfolding serialize
  serialize-raises_own v pickle e = ground arith
  serialize-raises_own v msgpack e = ground arith
  serialize-raises_own v unknown e = ground arith

  pub deserialize-raises_own :
      (bytes : Payload) (method : Method) (e : Exn)
      → (deserialize lib bytes method ≢ running)
        × (deserialize lib bytes method ≡ raised e → e ≡ shm_serialization_error)
  unfolding deserialize
  deserialize-raises_own bytes pickle e = ground arith
  deserialize-raises_own bytes msgpack e = ground arith
  deserialize-raises_own bytes unknown e = ground arith
