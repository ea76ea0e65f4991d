-- ===== src/Lifecycle/Refused.antt =====
-- core.py and the `__init__` of Publisher, Pusher and Replier, for channel names that contain a slash,
-- as "robot/pose" does. The functions of utils.py that name segments keep the slash.
use shm_comm.Prelude.{◌≡◌, Bool, false, [], ◌∷◌, ◌==◌, ◌||◌}
use shm_comm.Exec.{Action, raised, shm_connection_error}
use shm_comm.Names.{Name}
use shm_comm.Core.Segments.{System, lookup}
use shm_comm.PubSub.Publisher
use shm_comm.Pipeline.Pusher
use shm_comm.ReqRep.Replier

unfoldable pub has_slash : Name → Bool
has_slash [] = false
has_slash (c ∷ cs) = c == b'/' || has_slash cs

-- The action raises the connection error. It changes no object, and every name without a slash keeps
-- its object.
unfoldable pub IsRefused : {A : Type 0} → Action System A → System → Type 0
IsRefused act s =
    (s' : System) × (act s ≡ (raised shm_connection_error, s'))
    × (s'.objects ≡ s.objects)
    × ((other : Name) → has_slash other ≡ false → lookup other s'.names ≡ lookup other s.names)
