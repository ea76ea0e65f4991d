-- ===== src/Lifecycle/Close.antt =====
-- patterns/reqrep.py, `Replier.close`: the end of a service.
use shm_comm.Prelude.{ℕ, ◌≡◌, refl, ap, ◌∙◌, Bool, true, false, none, some, ◌||◌, if◌then◌else◌}
use shm_comm.Exec.{ok, raised, attribute_error}
use shm_comm.Exec.Spin.{World}
use shm_comm.Memory.{Memory}
use shm_comm.Names.{Name, same}
use shm_comm.Core.Segments.{System, SharedMemory, lookup, remove, close_segment}
use shm_comm.Fifo.{Payload}
use shm_comm.Lifecycle.Table.{lookup-remove}
use shm_comm.Patterns.{on_shm}
use shm_comm.ReqRep.Replier
use shm_comm.ReqRep.Replier.{Replier}

either-none :
    {A : Type 0} (p q : Bool) (x : A) (z : A)
    → (if q then z else (if p then z else x)) ≡ (if p || q then z else x)
either-none true true x z = refl
either-none true false x z = refl
either-none false true x z = refl
either-none false false x z = refl

module _ (u : Replier) (a b : SharedMemory) (s : System) (requests : u.req_shm ≡ some a)
    (replies : u.rep_shm ≡ some b) where
  abbrev closed : Replier
  closed = record u { req_shm = none; rep_shm = none }

  abbrev left : System
  left = record s { names = remove b.name (remove a.name s.names) }

  -- Closing a replier that is open on two segments succeeds, takes away the names that they
  -- were opened by and no other, and changes no object. A second close changes nothing, and a
  -- send or a poll on the closed replier raises AttributeError and changes nothing.
  pub close-closed :
      (u' : Replier) × (s' : System) × (Replier.close u s ≡ (ok u', s'))
      × (s'.objects ≡ s.objects)
      × ((name : Name)
          → lookup name s'.names
            ≡ (if same a.name name || same b.name name then none else lookup name s.names))
      × (Replier.close u' s' ≡ (ok u', s'))
      × ((w : World Memory) (fuel : ℕ) (p : Payload)
          → Replier.send_bytes w fuel u' p s' ≡ (raised attribute_error, s'))
      × (Replier.try_recv_bytes (u', s') ≡ (raised attribute_error, (u', s')))
  unfolding Replier.close Replier.send_bytes Replier.try_recv_bytes close_segment on_shm
  close-closed = (
    closed,
    left,
    rw (requests, replies) refl,
    refl,
    λ name.
        lookup-remove b.name name (remove a.name s.names)
        ∙ ap (λ o. if same b.name name then none else o) (lookup-remove a.name name s.names)
        ∙ either-none (same a.name name) (same b.name name) (lookup name s.names) none,
    refl,
    λ w fuel p. refl,
    refl,
  )
