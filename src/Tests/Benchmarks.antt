-- ===== src/Tests/Benchmarks.antt =====
-- Theorems on examples/benchmark.py, at one small system.
use shm_comm.Prelude.{ℕ, ◌≡◌, refl, Bool, true, arith}
use shm_comm.Exec.{ok, running}
use shm_comm.Names.{Name, same, push_segment_name, pub_segment_name}
use shm_comm.Core.Segments.{System, blocked, lookup}
use shm_comm.Examples.Benchmark.{pipeline_throughput, pubsub_throughput}
use shm_comm.Examples.Benchmark.Throughput.{pipeline_throughput-all, pipeline_throughput-stuck}
use shm_comm.Examples.Benchmark.Channels.{pubsub_throughput-all}
use shm_comm.Tests.{alone, system}

-- The system accepts every name and size.
abbrev any_size : Name → ℕ → Bool
any_size name size = true

pipeline_throughput-all_example :
    (s' : System) × (pipeline_throughput alone alone alone 1 1 any_size alone 500 501 system
      ≡ (ok (500, 500), s'))
unfolding blocked lookup same push_segment_name
pipeline_throughput-all_example =
    pipeline_throughput-all any_size alone alone alone alone 0 1 500 501 system refl refl
      (omega arith) refl (omega arith) (omega arith)

-- The script without `--quick`.
pipeline_throughput-stuck_example :
    (pipeline_throughput alone alone alone 1 1 any_size alone 2000 2001 system).0 ≡ running
unfolding blocked lookup same push_segment_name
pipeline_throughput-stuck_example =
    pipeline_throughput-stuck any_size alone alone alone alone 0 1 2000 2001 system refl refl
      (omega arith) refl (omega arith) (λ i m h. h)

pubsub_throughput-all_example :
    (s' : System) × (pubsub_throughput alone alone 1 1 any_size alone 64 1000 1001 system
      ≡ (ok (1000, 1000), s'))
unfolding blocked lookup same pub_segment_name
pubsub_throughput-all_example =
    pubsub_throughput-all any_size alone alone alone 0 1 (omega arith) system 64 1000 1001
      (omega arith) (omega arith) (omega arith) refl refl (omega arith)
