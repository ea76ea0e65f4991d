-- ===== src/Lifecycle/Attach.antt =====
-- `attach_segment`: when it finds the segment, when it gives up, and that it ends.
use shm_comm.Prelude.{
  ◌&&◌, inl, inr, ℕ_discrete, ℕ, zero, suc, ◌⊎◌, ◌+◌, ◌≤◌, ◌<◌, ◌≡◌, ◌≢◌, none, some, arith, lt→ltb,
  ◌==◌, eq→==, ne→==, if◌then◌else◌,
}
use shm_comm.Exec.{ok, raised, running, shm_connection_error}
use shm_comm.Exec.Spin.{World}
use shm_comm.Names.{Name}
use shm_comm.Core.Header.{idx_magic, idx_version, magic, version, get_field, validate_header}
use shm_comm.Core.Segments.{
  System, SharedMemory, lookup, on_object, try_attach, attach_loop, attach_segment,
}
use shm_comm.Core.Objects.{on_object-same}
use shm_comm.Lifecycle.Init.{validate_header-ok, validate_header-refused}

-- A name that is not there is waited for.
try_attach-missing :
    (name : Name) (s : System) → lookup name s.names ≡ none → try_attach name s ≡ (ok none, s)
unfolding try_attach
try_attach-missing name s e = rw e

module _ (name : Name) (s : System) (i : ℕ) (e : lookup name s.names ≡ some i)
    (whole : 128 ≤ (s.objects i).size) where
  abbrev shm : SharedMemory
  shm = record { name = name; object = i }

  -- A segment whose header is valid is attached as it is.
  try_attach-valid :
      get_field idx_magic (s.objects i) ≡ magic
      → get_field idx_version (s.objects i) ≡ version
      → try_attach name s ≡ (ok (some shm), s)
  unfolding try_attach
  try_attach-valid a b =
      rw
        (e, on_object-same i validate_header s (ok tt) (validate_header-ok (s.objects i) whole a b))

  try_attach-refused :
      (get_field idx_magic (s.objects i) ≢ magic) ⊎ (get_field idx_version (s.objects i) ≢ version)
      → try_attach name s ≡ (raised shm_connection_error, s)
  unfolding try_attach
  try_attach-refused bad = rw (
    e,
    on_object-same i validate_header s (raised shm_connection_error)
        (validate_header-refused (s.objects i) whole bad),
  )

-- An attempt ends with the segment, with the library's own error, or with another try.
try_attach-ends : (name : Name) (s : System) → (try_attach name s).0 ≢ running
unfolding try_attach on_object validate_header
try_attach-ends name s = ground arith

module _ (w : World System) (name : Name) where
  attach_loop-ends :
      (limit fuel round k : ℕ) (s : System)
      → round ≤ k
      → k < round + fuel
      → limit ≤ w.clock k
      → (attach_loop w limit name fuel round s).0 ≢ running
  unfolding attach_loop
  attach_loop-ends limit zero round k s a b c = absurd (omega arith)
  attach_loop-ends limit (suc fuel) round k s a b c = ground (
    arith,
    try_attach-ends name s,
    attach_loop-ends limit fuel (suc round) k (w.others round (try_attach name s).1),
  )

  -- If the clock has passed the deadline by round k, then attaching with more than k rounds
  -- ends, whatever the other processes do meanwhile.
  pub attach_segment-ends :
      (fuel timeout k : ℕ) (s : System)
      → w.started + timeout ≤ w.clock k
      → k < fuel
      → (attach_segment w fuel name timeout s).0 ≢ running
  unfolding attach_segment
  attach_segment-ends fuel timeout k s late enough =
      attach_loop-ends (w.started + timeout) fuel 0 k s (omega arith) (omega arith) late

  -- Before the deadline, a segment of at least 128 bytes that is found under the name decides
  -- the call in the first round, and nothing changes: it is attached if its magic number and
  -- its version are right, and if one of them is not, the call raises the connection error at
  -- once, however long the timeout is.
  pub attach_segment-found :
      (fuel timeout : ℕ) (s : System) (i : ℕ)
      → lookup name s.names ≡ some i
      → 128 ≤ (s.objects i).size
      → w.clock 0 < w.started + timeout
      → attach_segment w (suc fuel) name timeout s ≡ (
        if get_field idx_magic (s.objects i) == magic
              && get_field idx_version (s.objects i) == version
            then ok (record { name = name; object = i })
            else (raised shm_connection_error),
        s,
      )
  unfolding attach_segment attach_loop
  attach_segment-found fuel timeout s i e whole early =
      elim (ℕ_discrete (get_field idx_magic (s.objects i)) magic) [
        | no bad ↦ rw (
          lt→ltb _ _ early,
          attach_loop,
          try_attach-refused name s i e whole (inl bad),
          ne→== _ _ bad,
        )
        | yes a ↦ elim (ℕ_discrete (get_field idx_version (s.objects i)) version) [
          | no bad ↦ rw (
            lt→ltb _ _ early,
            attach_loop,
            try_attach-refused name s i e whole (inr bad),
            eq→== _ _ a,
            ne→== _ _ bad,
          )
          | yes b ↦ rw (
            lt→ltb _ _ early,
            attach_loop,
            try_attach-valid name s i e whole a b,
            eq→== _ _ a,
            eq→== _ _ b,
          )
        ]
      ]

  attach_loop-missing :
      (limit fuel round k : ℕ) (s : System)
      → ((i : ℕ) (t : System)
          → lookup name t.names ≡ none
          → lookup name (w.others i t).names ≡ none)
      → round ≤ k
      → k < round + fuel
      → limit ≤ w.clock k
      → lookup name s.names ≡ none
      → (attach_loop w limit name fuel round s).0 ≡ raised shm_connection_error
  unfolding attach_loop
  attach_loop-missing limit zero round k s keep a b c e = absurd (omega arith)
  attach_loop-missing limit (suc fuel) round k s keep a b c e = ground (
    arith,
    try_attach-missing name s e,
    keep round s e,
    attach_loop-missing limit fuel (suc round) k (w.others round s) keep,
  )

  -- If the name is not there, the other processes never create it, and the clock has passed the
  -- deadline by round k, then attaching with more than k rounds raises the connection error.
  pub attach_segment-missing :
      (fuel timeout k : ℕ) (s : System)
      → ((i : ℕ) (t : System)
          → lookup name t.names ≡ none
          → lookup name (w.others i t).names ≡ none)
      → w.started + timeout ≤ w.clock k
      → k < fuel
      → lookup name s.names ≡ none
      → (attach_segment w fuel name timeout s).0 ≡ raised shm_connection_error
  unfolding attach_segment
  attach_segment-missing fuel timeout k s keep late enough e =
      attach_loop-missing (w.started + timeout) fuel 0 k s keep (omega arith) (omega arith) late e
