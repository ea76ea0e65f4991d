-- ===== src/Examples/Benchmark/Pushed.antt =====
-- examples/benchmark.py, `benchmark_pipeline_throughput`: as many jobs as fit the ring come back, and one
-- more holds the script for good.
use shm_comm.Prelude.{
  ℕ, suc, ◌+◌, ◌-◌, ◌*◌, ◌%◌, ◌≤◌, ◌<◌, ◌≡◌, ◌≢◌, refl, ap, subst, ◌∙◌, Bool, true, false, Option,
  none, some, List, [], ◌∷◌, ◌++◌, length, arith, lt→ltb, ltb→lt, ℕ_discrete,
}
use shm_comm.Exec.{Outcome, ok, running}
use shm_comm.Exec.Spin.{World}
use shm_comm.Memory.{Memory}
use shm_comm.Names.{Name}
use shm_comm.Core.Segments.{System}
use shm_comm.Core.Objects.{on_object-outcome}
use shm_comm.Fifo
use shm_comm.Fifo.{Payload}
use shm_comm.Buffer.{write_message}
use shm_comm.Buffer.Segment.{IsSegment, committed, committed-IsSegment}
use shm_comm.Buffer.Queue.{head_of, tail_of, contents, contents-committed, at_limit, below_limit}
use shm_comm.Buffer.Write.{write_message-free}
use shm_comm.Buffer.Blocking.{IsFull, write_message-waits_on}
use shm_comm.Serialize.{Method}
use shm_comm.Sync.{FileLock}
use shm_comm.Utils.Poll.{poll_until-first}
use shm_comm.Patterns.Objects.{on_shm-IsOpen}
use shm_comm.Pipeline.Pusher
use shm_comm.Pipeline.Pusher.{Pusher}
use shm_comm.Pipeline.Puller
use shm_comm.Pipeline.Puller.{Puller}
use shm_comm.Pipeline.Queue.{Line, Serving}
use shm_comm.Pipeline.Calls.{write-Serving, claim-pull_payload}
use shm_comm.Examples.Benchmark.{job, truthy, push_and_pull}
use shm_comm.Examples.Benchmark.Loops.{
  copies, copies-snoc, length-copies, send_loop-whole, send_loop-stuck, recv_loop-whole,
}

-- Other processes leave a full ring full.
abbrev pub KeepsFull : ℕ → ℕ → World Memory → Type 0
KeepsFull n z w =
    (i : ℕ) (m : Memory)
    → IsSegment n z m × IsFull n m
    → IsSegment n z (w.others i m) × IsFull n (w.others i m)

module _ {n z i : ℕ} {path : Name} {sm cm : Method} {c : Line} {q : List Payload}
    (v : Serving n z i path sm cm c q) (w : World Memory) (p : Payload)
    (room : length p + 4 ≤ z) where
  -- A blocking push below the limit.
  pub push-free :
      (fuel : ℕ)
      → length q < n - 1
      → (s : System) × (Pusher.send_bytes w (suc fuel) c.pusher p true none c.system ≡ (ok true, s))
        × Serving n z i path sm cm (record c { system = s }) (q ++ p ∷ [])
  unfolding Pusher.send_bytes
  push-free fuel lt =
      let m = c.system.objects i in
      let free : (head_of m + 1) % n ≢ tail_of m =
        λ full. cc (at_limit v.segment full, lt→ltb (length q) (n - 1) lt, v.holds) in
      let (e, t) =
        write-Serving v (write_message w (suc fuel) p true none false) (ok true) (committed n z p m)
          (q ++ p ∷ []) (write_message-free v.segment w fuel p true none room free)
          (committed-IsSegment v.segment p room)
          (contents-committed v.segment p room free ∙ ap (λ x. x ++ p ∷ []) v.holds) in
      (
        _,
        e,
        subst
            (λ (r : Outcome Bool × System).
              Serving n z i path sm cm (record c { system = r.1 }) (q ++ p ∷ []))
            e t,
      )

  at_the_limit : length q ≡ n - 1 → IsFull n (c.system.objects i)
  at_the_limit last =
      elim (ℕ_discrete ((head_of (c.system.objects i) + 1) % n) (tail_of (c.system.objects i))) [
        | yes full ↦ full
        | no free ↦ absurd (
            omega (
              arith,
              ltb→lt (length (contents n z (c.system.objects i))) (n - 1)
                  (below_limit v.segment free),
              ap length v.holds,
              last,
            ))
      ]

  -- A blocking push at the limit.
  pub push-full :
      (fuel : ℕ)
      → length q ≡ n - 1
      → KeepsFull n z w
      → (Pusher.send_bytes w fuel c.pusher p true none c.system).0 ≡ running
  unfolding Pusher.send_bytes
  push-full fuel last kept =
      let m = c.system.objects i in
      ap (λ r. r.0) (on_shm-IsOpen v.push_open (write_message w fuel p true none false) c.system)
      ∙ on_object-outcome i (write_message w fuel p true none false) c.system
      ∙ write_message-waits_on w p room fuel m v.segment (at_the_limit last) kept

-- All pullers are the first one.
pub one-puller :
    {n z i : ℕ} {path : Name} {sm cm : Method} {c : Line} {q : List Payload}
    → Serving n z i path sm cm c q
    → Serving n z i path sm cm (record c { pullers = λ _. c.pullers 0 }) q
one-puller v = record {
  push_open = v.push_open;
  pull_open = λ k. v.pull_open 0;
  pull_path = λ k. v.pull_path 0;
  sends_by = v.sends_by;
  claims_by = λ k. v.claims_by 0;
  free = v.free;
  segment = v.segment;
  holds = v.holds;
}

module _ (push : Pusher) (n z i : ℕ) (path : Name) (sm cm : Method) where
  abbrev pub Holds : ℕ → Puller × System → Type 0
  Holds k st =
      Serving n z i path sm cm (record { pusher = push; pullers = λ _. st.0; system = st.1 })
        (copies job k)

  module _ (w : World Memory) (fuel : ℕ) (room : 7 ≤ z) where
    pushed :
        (pull : Puller) (k : ℕ) (s : System)
        → k < n - 1
        → Holds k (pull, s)
        → (s' : System) × (Pusher.send_bytes w (suc fuel) push job true none s ≡ (ok true, s'))
          × Holds (suc k) (pull, s')
    pushed pull k s lt v =
        let (s', e, v') = push-free v w job room fuel (omega (arith, length-copies job k)) in
        (
          s',
          e,
          subst
              (Serving n z i path sm cm
                (record { pusher = push; pullers = λ _. pull; system = s' }))
              (copies-snoc job k) v',
        )

  module _ (wl : World (FileLock × System)) (wp : World (Puller × System)) (fuel : ℕ)
      (timeout : Option ℕ) where
    pulled :
        (k : ℕ) (st : Puller × System)
        → Holds (suc k) st
        → (st' : Puller × System) × (m : Option Payload) × (Puller.recv_bytes wl wp
              (suc fuel)
              timeout
              st
            ≡ (ok m, st'))
          × (truthy m ≡ true)
          × Holds k st'
    unfolding Puller.recv_bytes Fifo.pull_payload
    pulled k st v =
        let r = Puller.try_claim_bytes wl (suc fuel) st in
        let (e, v') = claim-pull_payload v wl fuel 0 in
        (
          r.1,
          some job,
          poll_until-first (λ _. false) (Puller.try_claim_bytes wl (suc fuel)) wp timeout (λ _. st)
              (λ _. st) 0 (suc fuel) job r.1 (λ i lt. absurd (omega arith)) (omega arith)
              (ap (λ o. (o, r.1)) e) refl,
          refl,
          one-puller v',
        )

module _ {push : Pusher} {n z i : ℕ} {path : Name} {sm cm : Method} (w : World Memory)
    (wl : World (FileLock × System)) (wp : World (Puller × System)) (fuel second n_msgs rounds : ℕ)
    (room : 7 ≤ z) (st : Puller × System) (v : Holds push n z i path sm cm 0 st) where
  -- Below the limit both loops end, with as many messages as were asked for.
  pub push_and_pull-all :
      n_msgs ≤ n - 1
      → n_msgs < rounds
      → (st' : Puller × System) × (push_and_pull w wl wp (suc fuel) second push n_msgs rounds st
          ≡ (ok (n_msgs, n_msgs), st'))
        × Holds push n z i path sm cm 0 st'
  unfolding push_and_pull
  push_and_pull-all few enough =
      let (s', e, v') =
        send_loop-whole (Pusher.send_bytes w (suc fuel) push job true none) (n - 1)
          (λ k s. Holds push n z i path sm cm k (st.0, s))
          (pushed push n z i path sm cm w fuel room st.0) n_msgs st.1 few v in
      let (st'', e', v'') =
        recv_loop-whole (Puller.recv_bytes wl wp (suc fuel) (some (2 * second)))
          (Holds push n z i path sm cm)
          (pulled push n z i path sm cm wl wp fuel (some (2 * second))) rounds n_msgs (st.0, s')
          enough v' in
      (st'', rw (e, e') refl, v'')

  -- One message more holds the first loop for good.
  pub push_and_pull-stuck :
      n - 1 < n_msgs
      → KeepsFull n z w
      → (push_and_pull w wl wp (suc fuel) second push n_msgs rounds st).0 ≡ running
  unfolding push_and_pull
  push_and_pull-stuck many kept =
      rw
        (send_loop-stuck (Pusher.send_bytes w (suc fuel) push job true none) (n - 1)
          (λ k s. Holds push n z i path sm cm k (st.0, s))
          (pushed push n z i path sm cm w fuel room st.0)
          (λ s u. push-full u w job room (suc fuel) (length-copies job (n - 1)) kept) n_msgs 0 0
          st.1 (omega arith) (omega arith) v)
        refl
