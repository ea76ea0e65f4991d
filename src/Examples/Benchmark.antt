-- ===== src/Examples/Benchmark.antt =====
-- examples/benchmark.py: what its benchmarks send and receive, without the readings of the clock and the
-- printing. `second` is a second in the unit of the clock.
pub mod Loops
pub mod Pushed
pub mod Throughput
pub mod Published
pub mod Channels
use shm_comm.Prelude.{
  ℕ, zero, suc, ◌+◌, ◌*◌, Bool, true, false, Option, none, some, List, [], ◌∷◌, ltb, if◌then◌else◌,
}
use shm_comm.Exec.{Action, Outcome, ok, raised, running, pure, ◌>>=◌, ◌>>◌}
use shm_comm.Exec.Spin.{World}
use shm_comm.Memory.{Memory}
use shm_comm.Names.{Name, codes, pub_segment_name, push_segment_name}
use shm_comm.Core.Segments.{System}
use shm_comm.Fifo.{Payload}
use shm_comm.Serialize.{pickle}
use shm_comm.Sync.{FileLock}
use shm_comm.Utils.Cleanup.{force_unlink}
use shm_comm.Patterns.{with_system}
use shm_comm.PubSub.Publisher
use shm_comm.PubSub.Publisher.{Publisher}
use shm_comm.PubSub.Subscriber
use shm_comm.PubSub.Subscriber.{Subscriber}
use shm_comm.Pipeline.Pusher
use shm_comm.Pipeline.Pusher.{Pusher}
use shm_comm.Pipeline.Puller
use shm_comm.Pipeline.Puller.{Puller}

-- `if …: count += 1`
abbrev pub counted : Bool → ℕ → ℕ
counted b count = if b then count + 1 else count

-- A received message counts if it is neither None nor empty.
abbrev pub truthy : Option Payload → Bool
truthy none = false
truthy (some []) = false
truthy (some (b ∷ bs)) = true

-- `for _ in range(n_msgs): if …send_bytes(payload): sent += 1`
unfoldable pub send_loop : {S : Type 0} → Action S Bool → ℕ → ℕ → Action S ℕ
send_loop send_bytes zero sent = pure sent
send_loop send_bytes (suc n_msgs) sent =
    send_bytes >>= λ b. send_loop send_bytes n_msgs (counted b sent)

abbrev pub repeat_if : {S : Type 0} → Bool → Action S ℕ → ℕ → Action S ℕ
repeat_if true round received = round
repeat_if false round received = pure received

-- `while received < sent: if …recv_bytes(timeout=2.0): received += 1`, for a number of rounds at most
unfoldable pub recv_loop : {S : Type 0} → Action S (Option Payload) → ℕ → ℕ → ℕ → Action S ℕ
recv_loop recv_bytes zero sent received = λ s. (running, s)
recv_loop recv_bytes (suc rounds) sent received =
    repeat_if (ltb received sent)
      (recv_bytes >>= λ m. recv_loop recv_bytes rounds sent (counted (truthy m) received)) received

-- `with … as self: body`: the object is closed whatever the body came to, if it came to an end.
abbrev pub closing :
    {O A : Type 0} → (O → Action System O) → Outcome A × (O × System) → Outcome A × System
closing close (running, st) = (running, st.1)
closing close (ok a, st) = (close st.0 >>= λ _. pure a) st.1
closing close (raised e, st) = (close st.0 >>= λ _ s. (raised e, s)) st.1

unfoldable pub with_object :
    {O A : Type 0} → (O → Action System O) → Action (O × System) A → O → Action System A
with_object close body self s = closing close (body (self, s))

abbrev pub job : Payload
job = codes "job"

abbrev pub bench_pipeline : Name
bench_pipeline = codes "bench_pipeline"

module _ (w : World Memory) (wl : World (FileLock × System)) (wp : World (Puller × System))
    (fuel second : ℕ) where
  -- The two loops of `benchmark_pipeline_throughput`: a push waits without end for a free slot.
  unfoldable pub push_and_pull : Pusher → ℕ → ℕ → Action (Puller × System) (ℕ × ℕ)
  push_and_pull push n_msgs rounds = do
    sent ← with_system (send_loop (Pusher.send_bytes w fuel push job true none) n_msgs 0)
    received ← recv_loop (Puller.recv_bytes wl wp fuel (some (2 * second))) rounds sent 0
    pure (sent, received)

  module _ (granted : Name → ℕ → Bool) (ws : World System) where
    unfoldable pub pipeline_throughput : ℕ → ℕ → Action System (ℕ × ℕ)
    pipeline_throughput n_msgs rounds = do
      force_unlink (push_segment_name bench_pipeline)
      push ← Pusher.init granted bench_pipeline 512 256 pickle
      with_object Pusher.close
          (with_system (do
            pull ← Puller.init ws fuel bench_pipeline (5 * second) pickle
            with_object Puller.close (push_and_pull push n_msgs rounds) pull))
          push

-- The frame that `benchmark_pubsub_throughput` and `benchmark_pubsub_latency` share: the two `with` lines
-- and what goes before them.
unfoldable pub with_channel :
    {A : Type 0} (granted : Name → ℕ → Bool) (ws : World System) (fuel second : ℕ) (ch : Name)
    (num_slots slot_size : ℕ)
    → (Publisher → Action (Subscriber × System) A)
    → Action System A
with_channel granted ws fuel second ch num_slots slot_size body = do
  force_unlink (pub_segment_name ch)
  publisher ← Publisher.init granted ch num_slots slot_size pickle
  with_object Publisher.close
      (with_system (do
        sub ← Subscriber.init ws fuel ch (5 * second) pickle
        with_object Subscriber.close (body publisher) sub))
      publisher

abbrev pub bench_throughput : Name
bench_throughput = codes "bench_throughput"

-- `b"x" * size`
abbrev pub x_bytes : ℕ → Payload
x_bytes zero = []
x_bytes (suc size) = b'x' ∷ x_bytes size

module _ (w : World Memory) (wp : World (Subscriber × System)) (fuel second : ℕ) where
  -- The two loops of `benchmark_pubsub_throughput` for one size.
  unfoldable pub publish_and_receive :
      Publisher → Payload → ℕ → ℕ → Action (Subscriber × System) (ℕ × ℕ)
  publish_and_receive publisher payload n_msgs rounds = do
    sent ← with_system (send_loop (Publisher.send_bytes w fuel publisher payload) n_msgs 0)
    received ← recv_loop (Subscriber.recv_bytes wp fuel (some (2 * second))) rounds sent 0
    pure (sent, received)

  module _ (granted : Name → ℕ → Bool) (ws : World System) where
    unfoldable pub pubsub_throughput : ℕ → ℕ → ℕ → Action System (ℕ × ℕ)
    pubsub_throughput size n_msgs rounds =
        with_channel granted ws fuel second bench_throughput (n_msgs + 64) 4096
          λ publisher. publish_and_receive publisher (x_bytes size) n_msgs rounds

abbrev pub bench_latency : Name
bench_latency = codes "bench_latency"

abbrev pub ping : Payload
ping = codes "ping"

-- The loop of `benchmark_pubsub_latency`, which appends a latency after each receive; `count` is how many
-- there are.
module _ (w : World Memory) (wp : World (Subscriber × System)) (fuel second : ℕ) where
  unfoldable pub latency_loop : Publisher → ℕ → ℕ → Action (Subscriber × System) ℕ
  latency_loop publisher zero count = pure count
  latency_loop publisher (suc n) count = do
    with_system (Publisher.send_bytes w fuel publisher ping)
    Subscriber.recv_bytes wp fuel (some second)
    latency_loop publisher n (count + 1)

  unfoldable pub pubsub_latency : (Name → ℕ → Bool) → World System → ℕ → Action System ℕ
  pubsub_latency granted ws n =
      with_channel granted ws fuel second bench_latency 512 128
        λ publisher. latency_loop publisher n 0
