-- ===== src/Examples/Benchmark/Channels.antt =====
-- examples/benchmark.py, `benchmark_pubsub_throughput` and `benchmark_pubsub_latency` from the first line
-- to the last.
use shm_comm.Prelude.{
  false, ℕ, zero, suc, ◌+◌, ◌*◌, ◌^◌, ◌≤◌, ◌<◌, ◌≡◌, refl, ap, ◌∙◌, Bool, true, none, some, ◌∷◌,
  length, arith,
}
use shm_comm.Exec.{ok, Action}
use shm_comm.Exec.Spin.{World}
use shm_comm.Memory.{Memory}
use shm_comm.Names.{Name, pub_segment_name}
use shm_comm.Core.Segments.{blocked, System, SharedMemory, remove, close_segment}
use shm_comm.Fifo.{Payload}
use shm_comm.Feed.{Feed}
use shm_comm.Serialize.{pickle}
use shm_comm.PubSub.Publisher
use shm_comm.PubSub.Publisher.{Publisher}
use shm_comm.PubSub.Subscriber
use shm_comm.PubSub.Subscriber.{Subscriber}
use shm_comm.PubSub.Channel.{Channel, Joined}
use shm_comm.PubSub.Channel.Start.{init-Joined}
use shm_comm.Examples.Benchmark.{
  latency_loop, x_bytes, bench_throughput, publish_and_receive, pubsub_throughput, pubsub_latency,
  with_channel, bench_latency,
}
use shm_comm.Examples.Benchmark.Loops.{with_object-ok}
use shm_comm.Examples.Benchmark.Throughput.{unlinked}
use shm_comm.Lifecycle.Fresh.{no_publications}
use shm_comm.Examples.Benchmark.Published.{publish_and_receive-all, latency_loop-all}

x_bytes-some : (size : ℕ) → 0 < size → (bs : Payload) × (x_bytes size ≡ b'x' ∷ bs)
x_bytes-some zero h = absurd (omega arith)
x_bytes-some (suc size) h = (x_bytes size, refl)

length-x_bytes : (size : ℕ) → length (x_bytes size) ≡ size
length-x_bytes zero = refl
length-x_bytes (suc size) = omega (arith, length-x_bytes size)

closed_subscriber :
    (u : Subscriber) (h : SharedMemory) (s : System)
    → u.shm ≡ some h
    → Subscriber.close u s ≡ (ok (record u { shm = none }), s)
unfolding Subscriber.close close_segment
closed_subscriber u h s e = rw e refl

closed_publisher :
    (u : Publisher) (h : SharedMemory) (s : System)
    → u.shm ≡ some h
    → Publisher.close u s
      ≡ (ok (record u { shm = none }), record s { names = remove h.name s.names })
unfolding Publisher.close close_segment
closed_publisher u h s e = rw e refl

module _ (granted : Name → ℕ → Bool) (ws : World System) (fuel second : ℕ) (ch : Name) (n z : ℕ)
    (some_slot : 0 < n) (few : n < 2 ^ 63) (prefix : 4 ≤ z) (narrow : z ≤ 2 ^ 32)
    (grant : granted (pub_segment_name ch) (128 + n * z) ≡ true)
    (early : ws.clock 0 < ws.started + 5 * second) {A : Type 0}
    (body : Publisher → Action (Subscriber × System) A) (a : A)
    (works : (i : ℕ) (c : Channel)
      → Joined n z i pickle pickle c no_publications
      → (st : Subscriber × System) × (f : Feed Payload) × (body c.publisher (c.subscriber, c.system)
          ≡ (ok a, st))
        × Joined n z i pickle pickle
            (record { publisher = c.publisher; subscriber = st.0; system = st.1 })
            f) where
  -- What a body comes to that keeps the channel's two sides in agreement.
  with_channel-ok :
      (s : System)
      → blocked (pub_segment_name ch) s ≡ false
      → (s' : System) × (with_channel granted ws (suc fuel) second ch n z body s ≡ (ok a, s'))
  unfolding with_channel
  with_channel-ok s clean =
      let (s0, e, same, clear) = unlinked (pub_segment_name ch) s clean in
      let (c, publishes, subscribes, j) =
        init-Joined granted ch n z pickle pickle ws fuel (5 * second) s0 some_slot few prefix narrow
          clear grant early in
      let (st, f, worked, j') = works s0.next c j in
      (
        record st.1 { names = remove j'.pub_shm.name st.1.names },
        rw (e, publishes)
            (with_object-ok Publisher.close _ c.publisher c.system a c.publisher
              (record c.publisher { shm = none }) st.1 _
              (rw
                (
                  subscribes,
                  with_object-ok Subscriber.close (body c.publisher) c.subscriber c.system a st.0
                      (record st.0 { shm = none }) st.1 st.1 worked
                      (closed_subscriber st.0 j'.sub_shm st.1 j'.sub_open),
                )
                refl)
              (closed_publisher c.publisher j'.pub_shm st.1 j'.pub_open)),
      )

module _ (granted : Name → ℕ → Bool) (ws : World System) (w : World Memory)
    (wp : World (Subscriber × System)) (fuel second : ℕ)
    (early : ws.clock 0 < ws.started + 5 * second) (s : System) where
  -- If no object without bytes stands under the segment's name, the operating system accepts
  -- that name with the size, and the wait to connect has not timed out when it starts, the
  -- messages have 1 to 4092 bytes, and there are fewer than 2^63 slots, then
  -- `benchmark_pubsub_throughput` ends, for each size and number of messages, with all of them
  -- sent and all received, if its receiving loop is given more rounds than there are messages.
  pub pubsub_throughput-all :
      (size n_msgs rounds : ℕ)
      → 0 < size
      → size ≤ 4092
      → n_msgs + 64 < 2 ^ 63
      → blocked (pub_segment_name bench_throughput) s ≡ false
      → granted (pub_segment_name bench_throughput) (128 + (n_msgs + 64) * 4096) ≡ true
      → n_msgs < rounds
      → (s' : System) × (pubsub_throughput w wp (suc fuel) second granted ws size n_msgs rounds s
          ≡ (ok (n_msgs, n_msgs), s'))
  unfolding pubsub_throughput
  pubsub_throughput-all size n_msgs rounds nonempty fit few clean grant enough =
      let (bs, cons) = x_bytes-some size nonempty in
      with_channel-ok granted ws fuel second bench_throughput (n_msgs + 64) 4096 (omega arith) few
        (omega arith) (omega arith) grant early
        (λ publisher.
          publish_and_receive w wp (suc fuel) second publisher (x_bytes size) n_msgs rounds)
        (n_msgs, n_msgs)
        (λ i c j.
          let (st, e, j') =
            publish_and_receive-all w wp fuel second n_msgs rounds
              (omega (arith, length-x_bytes size)) b'x' bs cons (c.subscriber, c.system) j
              (omega arith) enough in
          (st, _, e, j'))
        s clean

  pub pubsub_latency-all :
      (n : ℕ)
      → blocked (pub_segment_name bench_latency) s ≡ false
      → granted (pub_segment_name bench_latency) (128 + 512 * 128) ≡ true
      → (s' : System) × (pubsub_latency w wp (suc fuel) second granted ws n s ≡ (ok n, s'))
  unfolding pubsub_latency
  pubsub_latency-all n clean grant =
      with_channel-ok granted ws fuel second bench_latency 512 128 (omega arith) (omega arith)
        (omega arith) (omega arith) grant early
        (λ publisher. latency_loop w wp (suc fuel) second publisher n 0) n
        (λ i c j.
          let (st, e, j') =
            latency_loop-all w wp fuel second (omega arith) (omega arith) n 0 0
              (c.subscriber, c.system) j in
          (st, _, e ∙ ap (λ (t : ℕ). (ok t, st)) (omega arith), j'))
        s clean
