-- ===== src/Examples/Benchmark/Throughput.antt =====
-- examples/benchmark.py, `benchmark_pipeline_throughput` from its first line to its last.
use shm_comm.Prelude.{
  ℕ, suc, ◌+◌, ◌*◌, ◌≤◌, ◌<◌, ◌≡◌, refl, ap, ◌∙◌, Bool, true, false, Option, none, some, arith,
}
use shm_comm.Exec.{ok, running}
use shm_comm.Exec.Spin.{World}
use shm_comm.Memory.{Memory}
use shm_comm.Names.{Name, push_segment_name}
use shm_comm.Core.Segments.{System, blocked, lookup, remove, close_segment}
use shm_comm.Lifecycle.Table.{lookup-remove_self}
use shm_comm.Serialize.{pickle}
use shm_comm.Sync.{FileLock, lock_path}
use shm_comm.Utils.Cleanup.{force_unlink, unlink_found, found}
use shm_comm.Patterns.Objects.{IsOpen}
use shm_comm.Pipeline.Pusher
use shm_comm.Pipeline.Pusher.{Pusher}
use shm_comm.Pipeline.Puller
use shm_comm.Pipeline.Puller.{Puller}
use shm_comm.Pipeline.Queue.{Line}
use shm_comm.Pipeline.Start.{init-Serving}
use shm_comm.Examples.Benchmark.{bench_pipeline, push_and_pull, pipeline_throughput}
use shm_comm.Examples.Benchmark.Loops.{with_object-ok, with_object-running}
use shm_comm.Examples.Benchmark.Pushed.{
  one-puller, Holds, KeepsFull, push_and_pull-all, push_and_pull-stuck,
}

blocked-remove :
    (name : Name) (s : System) → blocked name (record s { names = remove name s.names }) ≡ false
unfolding blocked
blocked-remove name s = rw (lookup-remove_self name s.names) refl

pub unlinked :
    (name : Name) (s : System)
    → blocked name s ≡ false
    → (s' : System) × (force_unlink name s ≡ (ok (found (lookup name s.names)), s'))
      × (s'.locks ≡ s.locks)
      × (blocked name s' ≡ false)
unfolding force_unlink
unlinked name s free =
    let (s', e, same, clear) = go (lookup name s.names) refl in (s', rw (free, e) refl, same, clear)
  where
    go :
        (o : Option ℕ)
        → lookup name s.names ≡ o
        → (s' : System) × (unlink_found name o s ≡ (ok (found o), s'))
          × (s'.locks ≡ s.locks)
          × (blocked name s' ≡ false)
    go none e = (s, refl, refl, free)
    go (some i) e = (record s { names = remove name s.names }, refl, refl, blocked-remove name s)

closed_puller :
    (u : Puller) (i : ℕ) (s : System)
    → IsOpen u.shm i
    → (u' : Puller) × (s' : System) × (Puller.close u s ≡ (ok u', s'))
unfolding Puller.close close_segment
closed_puller u i s o = (record u { shm = none }, s, rw o.is_open refl)

closed_pusher :
    (u : Pusher) (i : ℕ) (s : System)
    → IsOpen u.shm i
    → (u' : Pusher) × (s' : System) × (Pusher.close u s ≡ (ok u', s'))
unfolding Pusher.close close_segment
closed_pusher u i s o =
    (record u { shm = none }, record s { names = remove o.handle.name s.names }, rw o.is_open refl)

module _ (granted : Name → ℕ → Bool) (ws : World System) (w : World Memory)
    (wl : World (FileLock × System)) (wp : World (Puller × System)) (fuel second n_msgs rounds : ℕ)
    (s : System) (clean : blocked (push_segment_name bench_pipeline) s ≡ false)
    (grant : granted (push_segment_name bench_pipeline) (128 + 512 * 256) ≡ true)
    (early : ws.clock 0 < ws.started + 5 * second)
    (free : s.locks (lock_path (push_segment_name bench_pipeline)) ≡ none) where
  begun :
      (s' : System) × (c : Line) × (force_unlink (push_segment_name bench_pipeline) s
        ≡ (ok (found (lookup (push_segment_name bench_pipeline) s.names)), s'))
      × (Pusher.init granted bench_pipeline 512 256 pickle s' ≡ (ok c.pusher, c.system))
      × (Puller.init ws (suc fuel) bench_pipeline (5 * second) pickle c.system
          ≡ (ok (c.pullers 0), c.system))
      × (i : ℕ) × Holds c.pusher 512 256 i
          (lock_path (push_segment_name bench_pipeline))
          pickle
          pickle
          0
          (c.pullers 0, c.system)
  begun =
      let (s', e, same, clear) = unlinked (push_segment_name bench_pipeline) s clean in
      let (c, pushes, pulls, v) =
        init-Serving granted bench_pipeline 512 256 pickle pickle ws fuel (5 * second) s'
          (omega arith) (omega arith) (omega arith) (omega arith) clear grant early
          (ap (λ l. l (lock_path (push_segment_name bench_pipeline))) same ∙ free) in
      (s', c, e, pushes, pulls 0, s'.next, one-puller v)

  -- If no object without bytes stands under the segment's name, the operating system accepts
  -- that name with the size, and the wait to connect has not timed out when it starts, and the
  -- lock is free, then `benchmark_pipeline_throughput` with fewer than 512 messages, and more
  -- rounds of its receiving loop than that, ends with all messages sent and all received, one
  -- round of each waiting loop being enough.
  pub pipeline_throughput-all :
      n_msgs < 512
      → n_msgs < rounds
      → (s' : System) × (pipeline_throughput w wl wp (suc fuel) second granted ws n_msgs rounds s
          ≡ (ok (n_msgs, n_msgs), s'))
  unfolding pipeline_throughput
  pipeline_throughput-all few enough =
      let (s', c, e, pushes, pulls, i, v) = begun in
      let (st, worked, v') =
        push_and_pull-all w wl wp fuel second n_msgs rounds (omega arith) (c.pullers 0, c.system) v
          (omega arith) enough in
      let (u, s2, a) = closed_puller st.0 i st.1 (v'.pull_open 0) in
      let (u', s3, b) = closed_pusher c.pusher i s2 v'.push_open in
      (
        s3,
        rw (e, pushes)
            (with_object-ok Pusher.close _ c.pusher c.system (n_msgs, n_msgs) c.pusher u' s2 s3
              (rw
                (
                  pulls,
                  with_object-ok Puller.close
                      (push_and_pull w wl wp (suc fuel) second c.pusher n_msgs rounds) (c.pullers 0)
                      c.system (n_msgs, n_msgs) st.0 u st.1 s2 worked a,
                )
                refl)
              b),
      )

  -- If no object without bytes stands under the segment's name, the operating system accepts
  -- that name with the size, and the wait to connect has not timed out when it starts, the lock
  -- is free and other processes leave a full ring full, then `benchmark_pipeline_throughput`
  -- with 512 messages or more does not end in any number of rounds: its blocking pushes go to a
  -- ring of 512 slots that it reads only afterwards.
  pub pipeline_throughput-stuck :
      512 ≤ n_msgs
      → KeepsFull 512 256 w
      → (pipeline_throughput w wl wp (suc fuel) second granted ws n_msgs rounds s).0 ≡ running
  unfolding pipeline_throughput
  pipeline_throughput-stuck many kept =
      let (s', c, e, pushes, pulls, i, v) = begun in
      rw (e, pushes)
        (with_object-running Pusher.close _ c.pusher c.system (
          rw pulls (
            with_object-running Puller.close
              (push_and_pull w wl wp (suc fuel) second c.pusher n_msgs rounds) (c.pullers 0)
              c.system
              (push_and_pull-stuck w wl wp fuel second n_msgs rounds (omega arith)
                (c.pullers 0, c.system) v (omega arith) kept))))
