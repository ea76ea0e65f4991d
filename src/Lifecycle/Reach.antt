-- ===== src/Lifecycle/Reach.antt =====
-- Attaching to a segment that was just created.
use shm_comm.Prelude.{ℕ, suc, ◌+◌, ◌*◌, ◌^◌, ◌≤◌, ◌<◌, ◌≡◌, refl, ◌∙◌, some, arith}
use shm_comm.Exec.{ok}
use shm_comm.Exec.Spin.{World}
use shm_comm.Names.{Name}
use shm_comm.Core.Segments.{System, lookup, attach_segment}
use shm_comm.Buffer.Segment.{IsSegment}
use shm_comm.Lifecycle.Init.{zeros, initialised, initialised-IsSegment, fields-initialised}
use shm_comm.Lifecycle.Attach.{attach_segment-found}

module _ (n z : ℕ) (some_slot : 0 < n) (few : n < 2 ^ 63) (prefix : 4 ≤ z) (narrow : z ≤ 2 ^ 32)
    (s : System) (i : ℕ) (object : s.objects i ≡ initialised n z (zeros (128 + n * z))) where
  pub object-IsSegment : IsSegment n z (s.objects i)
  object-IsSegment = rw object (initialised-IsSegment n z some_slot few prefix narrow)

  pub object-whole : 128 ≤ (s.objects i).size
  object-whole = omega (arith, object-IsSegment.fits)

  pub attach_segment-initialised :
      (w : World System) (name : Name) (fuel timeout : ℕ)
      → lookup name s.names ≡ some i
      → w.clock 0 < w.started + timeout
      → attach_segment w (suc fuel) name timeout s ≡ (ok (record { name = name; object = i }), s)
  attach_segment-initialised w name fuel timeout found early =
      let f = fields-initialised n z (zeros (128 + n * z)) few narrow in
      attach_segment-found w name fuel timeout s i found object-whole early
      ∙ rw (object, f.0, f.1) refl
