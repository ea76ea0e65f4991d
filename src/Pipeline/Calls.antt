-- ===== src/Pipeline/Calls.antt =====
-- patterns/pipeline.py: the calls on a line against the abstract queue.
use shm_comm.Prelude.{
  ℕ, suc, ◌-◌, ◌≡◌, refl, ap, ap₂, ◌∙◌, false, none, List, [], ◌∷◌, ◌==◌, Bool-cases, inl, inr,
  Bool, eq→==,
}
use shm_comm.Exec.{Action, Outcome, continue, ok, raised, running}
use shm_comm.Exec.Spin.{World}
use shm_comm.Memory.{Memory}
use shm_comm.Names.{Name}
use shm_comm.Core.Segments.{System, set_object}
use shm_comm.Core.Objects.{on_object-known}
use shm_comm.Fifo
use shm_comm.Fifo.{Payload}
use shm_comm.Buffer.{write_message}
use shm_comm.Buffer.Segment.{IsSegment}
use shm_comm.Buffer.Queue.{contents}
use shm_comm.Buffer.Refine.{write_message-push_payload}
use shm_comm.Serialize.{Library, Method, serialize}
use shm_comm.Sync.{FileLock}
use shm_comm.Patterns.{on_shm, decode}
use shm_comm.Patterns.Objects.{IsOpen, on_shm-IsOpen}
use shm_comm.Pipeline.Pusher
use shm_comm.Pipeline.Puller
use shm_comm.Pipeline.Puller.{Puller}
use shm_comm.Pipeline.Claim.{try_claim_bytes-pull_payload}
use shm_comm.Pipeline.Queue.{
  Event, send, send_bytes, try_claim, try_claim_bytes, sent, claimed_bytes, Line, set_puller,
  after_send, after_claim, call, run, push_serialized, fifo_call, fifo_run, Serving,
}

-- A puller that differs from the old one in its lock's open file alone.
abbrev reopened : Puller → Puller
reopened u = record u { lock = record u.lock { fd = none } }

-- What holds of every puller, and of the reopened one, holds after the latter has replaced its old self.
set_puller-all :
    (P : Puller → Type 0) (pullers : ℕ → Puller) (k : ℕ) (u : Puller)
    → P u
    → ((j : ℕ) → P (pullers j))
    → (j : ℕ) → P (set_puller pullers k u j)
set_puller-all P pullers k u h all j = elim (Bool-cases (k == j)) [
  | inl e ↦ rw e h
  | inr e ↦ rw e (all j)
]

module _ {n z i : ℕ} {path : Name} {sm cm : Method} {c : Line} {q : List Payload}
    (v : Serving n z i path sm cm c q) where
  open v use {push_open, pull_open, pull_path, sends_by, claims_by, free, segment, holds}

  -- What a write to the pusher's segment comes to.
  pub write-Serving :
      (act : Action Memory Bool) (o : Outcome Bool) (m : Memory) (q' : List Payload)
      → act (c.system.objects i) ≡ (o, m)
      → IsSegment n z m
      → contents n z m ≡ q'
      → (on_shm c.pusher.shm act c.system
          ≡ (o, record c.system { objects = set_object c.system.objects i m }))
        × Serving n z i path sm cm (after_send c (on_shm c.pusher.shm act c.system)) q'
  write-Serving act o m q' e segment' holds' =
      let r : on_shm c.pusher.shm act c.system
          ≡ (o, record c.system { objects = set_object c.system.objects i m }) =
        on_shm-IsOpen push_open act c.system ∙ on_object-known i act c.system o m e in
      (
        r,
        rw r (record {
          push_open = push_open;
          pull_open = pull_open;
          pull_path = pull_path;
          sends_by = sends_by;
          claims_by = claims_by;
          free = free;
          segment = rw (eq→== i i refl) segment';
          holds = rw (eq→== i i refl) holds';
        }),
      )

  push-push_payload :
      (w : World Memory) (fuel : ℕ) (p : Payload)
      → let r = on_shm c.pusher.shm (write_message w (suc fuel) p false none false) c.system in
        let a = Fifo.push_payload (n - 1) (z - 4) p q in
        (r.0 ≡ a.0) × Serving n z i path sm cm (after_send c r) a.1
  push-push_payload w fuel p =
      let (m, segment', e, holds') = write_message-push_payload segment w fuel p none in
      let (r, v') =
        write-Serving (write_message w (suc fuel) p false none false) _ m _ e segment' holds' in
      rw (← holds) (ap (λ x. x.0) r, v')

  pub claim-pull_payload :
      (wl : World (FileLock × System)) (fuel k : ℕ)
      → let r = Puller.try_claim_bytes wl (suc fuel) (c.pullers k, c.system) in
        let a = Fifo.pull_payload q in
        (r.0 ≡ ok a.0) × Serving n z i path sm cm (after_claim c k r) a.1
  claim-pull_payload wl fuel k =
      let u = reopened (c.pullers k) in
      let (s', e, segment', holds', same) =
        try_claim_bytes-pull_payload (c.pullers k) c.system wl fuel (pull_open k)
          (ap c.system.locks (pull_path k) ∙ free) segment in
      rw (e, ← holds)
        (
          refl,
          record {
            push_open = push_open;
            pull_open =
                set_puller-all (λ u. IsOpen u.shm i) c.pullers k u
                  (record {
                    handle = (pull_open k).handle;
                    is_open = (pull_open k).is_open;
                    object = (pull_open k).object;
                  })
                  pull_open;
            pull_path =
                set_puller-all (λ u. u.lock.path ≡ path) c.pullers k u (pull_path k) pull_path;
            sends_by = sends_by;
            claims_by =
                set_puller-all (λ u. u.serialization ≡ cm) c.pullers k u (claims_by k) claims_by;
            free = same path ∙ free;
            segment = segment';
            holds = holds';
          },
        )

  push-push_serialized :
      (w : World Memory) (fuel : ℕ) (o : Outcome Payload)
      → let r =
          continue o c.system
            (λ p. on_shm c.pusher.shm (write_message w (suc fuel) p false none false)) in
        let a = push_serialized (n - 1) (z - 4) o q in
        (r.0 ≡ a.0) × Serving n z i path sm cm (after_send c r) a.1
  push-push_serialized w fuel (ok p) = push-push_payload w fuel p
  push-push_serialized w fuel (raised e) = (refl, v)
  push-push_serialized w fuel running = (refl, v)

  -- Each call answers as the queue does, and leaves the two sides in agreement.
  pub call-fifo_call :
      (lib : Library) (w : World Memory) (wl : World (FileLock × System)) (fuel : ℕ) (e : Event lib)
      → let r = call lib w wl (suc fuel) e c in
        let a = fifo_call lib (n - 1) (z - 4) sm cm e q in
        (r.0 ≡ a.0) × Serving n z i path sm cm r.1 a.1
  unfolding call fifo_call Pusher.send Pusher.send_bytes Puller.try_claim
  call-fifo_call lib w wl fuel (send x) =
      let (e, t) = push-push_serialized w fuel (serialize lib x c.pusher.serialization) in
      rw (← ap (serialize lib x) sends_by) (ap sent e, t)
  call-fifo_call lib w wl fuel (send_bytes p) =
      let (e, t) = push-push_payload w fuel p in (ap sent e, t)
  call-fifo_call lib w wl fuel (try_claim k) =
      let (e, t) = claim-pull_payload wl fuel k in
      rw (e, ← ap (λ m. decode lib m (Fifo.pull_payload q).0) (claims_by k)) (refl, t)
  call-fifo_call lib w wl fuel (try_claim_bytes k) =
      let (e, t) = claim-pull_payload wl fuel k in (ap claimed_bytes e, t)

-- When the pusher and every puller are open on one well-formed segment and nobody holds the lock,
-- any sequence of nonblocking sends and of claims by any of the pullers gives, call by call, the
-- answers of the abstract queue that starts with the segment's contents, with the serialization
-- of the pusher and the deserialization of the pullers around it. It does not matter which puller
-- makes a claim, and one round of each waiting loop is enough.
pub run-fifo_run :
    (lib : Library) {n z i : ℕ} {path : Name} {sm cm : Method} (w : World Memory)
    (wl : World (FileLock × System)) (fuel : ℕ) (es : List (Event lib)) {c : Line}
    {q : List Payload}
    → Serving n z i path sm cm c q
    → run lib w wl (suc fuel) es c ≡ fifo_run lib (n - 1) (z - 4) sm cm es q
unfolding run fifo_run
run-fifo_run lib w wl fuel [] v = refl
run-fifo_run lib w wl fuel (e ∷ es) v =
    let (a, v') = call-fifo_call v lib w wl fuel e in ap₂ ◌∷◌ a (run-fifo_run lib w wl fuel es v')
