-- ===== src/ReqRep/Service/Start.antt =====
-- patterns/reqrep.py: a replier and then a requester, as their `__init__` makes them.
use shm_comm.Prelude.{
  ℕ, suc, ◌+◌, ◌-◌, ◌*◌, ◌^◌, ◌≤◌, ◌<◌, ◌≡◌, refl, ◌∙◌, Bool, true, false, some, List, arith, ne→==,
}
use shm_comm.Exec.{continue, ok}
use shm_comm.Exec.Spin.{World}
use shm_comm.Memory.{Memory}
use shm_comm.Names.{Name, same, req_segment_name, rep_segment_name, same_refl, same_comm}
use shm_comm.Core.Segments.{blocked, System, SharedMemory, lookup, attach_segment}
use shm_comm.Mailbox
use shm_comm.Lifecycle.Init.{zeros, initialised}
use shm_comm.Lifecycle.Create.{
  blocked-created, created, create_segment-created, object-created, objects-created, lookup-created,
}
use shm_comm.Lifecycle.Fresh.{fresh-Posted}
use shm_comm.Lifecycle.Reach.{attach_segment-initialised}
use shm_comm.Serialize.{Library, Method}
use shm_comm.ReqRep.Replier
use shm_comm.ReqRep.Requester
use shm_comm.ReqRep.Service.{Event, Service, Boxes, run, box_run}
use shm_comm.ReqRep.Service.Links.{Linked}
use shm_comm.ReqRep.Service.Calls.{run-box_run}

rep-req_differ : (name : Name) → same (rep_segment_name name) (req_segment_name name) ≡ false
unfolding same rep_segment_name req_segment_name
rep-req_differ name = refl

next-created : (name : Name) (n z : ℕ) (s : System) → (created name n z s).next ≡ suc s.next
unfolding created
next-created name n z s = refl

abbrev pub no_messages : Boxes
no_messages = record { requests = Mailbox.fresh; replies = Mailbox.fresh }

module _ (granted : Name → ℕ → Bool) (name : Name) (n z : ℕ) (qm pm : Method) (w w' : World System)
    (fuel timeout : ℕ) (s : System) (some_slot : 0 < n) (few : n < 2 ^ 63) (prefix : 4 ≤ z)
    (narrow : z ≤ 2 ^ 32) (clear : blocked (req_segment_name name) s ≡ false)
    (clear' : blocked (rep_segment_name name) s ≡ false)
    (grant : granted (req_segment_name name) (128 + n * z) ≡ true)
    (grant' : granted (rep_segment_name name) (128 + n * z) ≡ true)
    (early : w.clock 0 < w.started + timeout) (early' : w'.clock 0 < w'.started + timeout) where
  abbrev req_handle : SharedMemory
  req_handle = record { name = req_segment_name name; object = s.next }

  abbrev between : System
  between = created (req_segment_name name) n z s

  abbrev rep_handle : SharedMemory
  rep_handle = record { name = rep_segment_name name; object = between.next }

  abbrev started : Service
  started = record {
    requester = record {
      name = name;
      serialization = qm;
      req_shm = some req_handle;
      rep_shm = some rep_handle;
      rep_tail = 0;
    };
    replier = record {
      name = name;
      serialization = pm;
      req_shm = some req_handle;
      rep_shm = some rep_handle;
      req_tail = 0;
    };
    system = created (rep_segment_name name) n z between;
  }

  rep_object : started.system.objects between.next ≡ initialised n z (zeros (128 + n * z))
  rep_object = object-created (rep_segment_name name) n z between

  req_object : started.system.objects s.next ≡ initialised n z (zeros (128 + n * z))
  req_object =
      objects-created (rep_segment_name name) n z between s.next
      ∙ rw (ne→== between.next s.next (omega (arith, next-created (req_segment_name name) n z s)))
          (object-created (req_segment_name name) n z s)

  rep_found : lookup (rep_segment_name name) started.system.names ≡ some between.next
  rep_found =
      lookup-created (rep_segment_name name) n z between (rep_segment_name name) ∙ rw same_refl refl

  req_found : lookup (req_segment_name name) started.system.names ≡ some s.next
  req_found =
      lookup-created (rep_segment_name name) n z between (req_segment_name name)
      ∙ rw (rep-req_differ name)
          (lookup-created (req_segment_name name) n z s (req_segment_name name) ∙ rw same_refl refl)

  replied : Replier.init granted name n z pm s ≡ (ok started.replier, started.system)
  unfolding Replier.init
  replied = rw (
    create_segment-created granted (req_segment_name name) n z s few narrow clear grant,
    continue,
    create_segment-created granted (rep_segment_name name) n z between few narrow
        (blocked-created (req_segment_name name) (rep_segment_name name) n z s
          (same_comm (req_segment_name name) (rep_segment_name name) ∙ rep-req_differ name) clear')
        grant',
  )

  req_attached :
      attach_segment w (suc fuel) (req_segment_name name) timeout started.system
      ≡ (ok req_handle, started.system)
  req_attached =
      attach_segment-initialised n z some_slot few prefix narrow started.system s.next req_object w
        (req_segment_name name) fuel timeout req_found early

  rep_attached :
      attach_segment w' (suc fuel) (rep_segment_name name) timeout started.system
      ≡ (ok rep_handle, started.system)
  rep_attached =
      attach_segment-initialised n z some_slot few prefix narrow started.system between.next
        rep_object w' (rep_segment_name name) fuel timeout rep_found early'

  requested :
      Requester.init w w' (suc fuel) name timeout qm started.system
      ≡ (ok started.requester, started.system)
  unfolding Requester.init
  requested = rw (req_attached, continue, rep_attached)

  started-Linked : Linked n z s.next between.next qm pm started no_messages
  started-Linked = record {
    apart = λ e. omega (arith, next-created (req_segment_name name) n z s);
    req_out = record { handle = req_handle; is_open = refl; object = refl };
    req_in = record { handle = req_handle; is_open = refl; object = refl };
    rep_out = record { handle = rep_handle; is_open = refl; object = refl };
    rep_in = record { handle = rep_handle; is_open = refl; object = refl };
    requests_by = refl;
    replies_by = refl;
    requests = rw req_object (fresh-Posted n z some_slot few prefix narrow);
    replies = rw rep_object (fresh-Posted n z some_slot few prefix narrow);
  }

  -- For at least one slot and fewer than 2^63, of 4 to 2^32 bytes, a segment name under which
  -- no object without bytes stands and which the operating system accepts with the size that
  -- results, and a wait to connect that has not timed out when it starts, each for both
  -- segments: Replier's init and then Requester's init succeed, and any sequence of sends and
  -- polls of either side then gives the answers of two empty boxes of n - 1 payloads.
  pub init-box_run :
      (lib : Library) (w'' : World Memory) (es : List (Event lib))
      → (c : Service) × (Replier.init granted name n z pm s ≡ (ok c.replier, c.system))
        × (Requester.init w w' (suc fuel) name timeout qm c.system ≡ (ok c.requester, c.system))
        × (run lib w'' (suc fuel) es c ≡ box_run lib (n - 1) (z - 4) qm pm es no_messages)
  init-box_run lib w'' es =
      (started, replied, requested, run-box_run lib w'' fuel es started-Linked)
