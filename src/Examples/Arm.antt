-- ===== src/Examples/Arm.antt =====
-- examples/reqrep_example.py: a server that answers the commands of a client.
pub mod Served
use shm_comm.Prelude.{
  ℕ, zero, suc, ◌*◌, Bool, true, false, Option, none, some, List, [], ◌∷◌, if◌then◌else◌,
}
use shm_comm.Exec.{
  Action, Outcome, ok, raised, running, shm_timeout_error, modify, pure, lift, ◌>>=◌, ◌>>◌,
}
use shm_comm.Exec.Spin.{World}
use shm_comm.Memory.{Memory}
use shm_comm.Names.{Name, codes}
use shm_comm.Core.Segments.{System}
use shm_comm.Serialize.{Library, pickle}
use shm_comm.Patterns.{with_system}
use shm_comm.ReqRep.Replier
use shm_comm.ReqRep.Replier.{Replier}
use shm_comm.ReqRep.Requester
use shm_comm.ReqRep.Requester.{Requester}
use shm_comm.Examples.Benchmark.{with_object}

-- Python's dictionaries among the values. `get` is `request.get`, which raises where the value is no
-- dictionary; `equals` is a comparison with a string; then the values that the script writes down.
pub record Dicts (lib : Library) : Type 0 where
  pub get : lib.Value → Name → Outcome (Option lib.Value)
  pub equals : lib.Value → Name → Bool
  pub string : Name → lib.Value
  pub zero_joint : lib.Value
  pub zero_angle : lib.Value
  pub status : lib.Value
  pub moved : lib.Value → lib.Value → lib.Value
  pub stopped : lib.Value
  pub unknown_command : lib.Value → lib.Value

abbrev pub service_name : Name
service_name = codes "example_arm_control"

module _ (lib : Library) (dicts : Dicts lib) where
  open dicts use {
    get, equals, string, zero_joint, zero_angle, status, moved, stopped, unknown_command,
  }

  abbrev or_default : Option lib.Value → lib.Value → lib.Value
  or_default none v = v
  or_default (some u) v = u

  -- `request.get(key, default)`
  abbrev get_or : {S : Type 0} → lib.Value → Name → lib.Value → Action S lib.Value
  get_or request key v = lift (get request key) >>= λ o. pure (or_default o v)

  abbrev move : {S : Type 0} → lib.Value → Action S lib.Value
  move request = do
    joint ← get_or request (codes "joint") zero_joint
    angle ← get_or request (codes "angle") zero_angle
    pure (moved joint angle)

  -- The response to a request.
  unfoldable pub respond : {S : Type 0} → lib.Value → Action S lib.Value
  respond request = do
    cmd ← get_or request (codes "command") (string (codes "unknown"))
    if equals cmd (codes "get_status")
        then pure status
        else if equals cmd (codes "move_joint")
        then move request
        else if equals cmd (codes "stop")
        then pure stopped
        else pure (unknown_command cmd)

  module _ (w : World Memory) (wr : World (Replier × System)) (fuel second : ℕ) where
    abbrev answered : Option lib.Value → Action (Replier × System) (Unit {0})
    answered none = pure tt
    answered (some request) = respond request >>= λ response st.
        (with_system (Replier.send lib w fuel st.0 response) >>= λ _. pure tt) st

    -- A round of `run_server`.
    unfoldable pub serve_round : Action (Replier × System) (Unit {0})
    serve_round = Replier.recv lib wr fuel (some (5 * second)) >>= answered

    unfoldable pub serve : ℕ → Action (Replier × System) (Unit {0})
    serve zero = λ st. (running, st)
    serve (suc rounds) = serve_round >>= λ _. serve rounds

    unfoldable pub run_server : (Name → ℕ → Bool) → ℕ → Action System (Unit {0})
    run_server granted rounds =
        Replier.init granted service_name 16 2048 pickle
        >>= with_object Replier.close (serve rounds)

  -- `except SHMTimeoutError`: no reply is printed.
  abbrev pub tried :
      Outcome lib.Value × (Requester × System) → Outcome (Option lib.Value) × (Requester × System)
  tried (ok reply, st) = (ok (some reply), st)
  tried (raised shm_timeout_error, st) = (ok none, st)
  tried (raised e, st) = (raised e, st)
  tried (running, st) = (running, st)

  module _ (w : World Memory) (fuel second : ℕ) where
    unfoldable pub ask :
        World (Requester × System) → lib.Value → Action (Requester × System) (Option lib.Value)
    ask wq cmd st = tried (Requester.request lib w wq fuel cmd (some (3 * second)) st)

    -- The replies that `run_client` prints. Request number `k` meets the world `wq k`, and while the
    -- script sleeps after it, the other processes do `others k`.
    unfoldable pub client :
        (ℕ → World (Requester × System))
        → (ℕ → System → System)
        → ℕ
        → List lib.Value
        → Action (Requester × System) (List (Option lib.Value))
    client wq others k [] = pure []
    client wq others k (cmd ∷ commands) = do
      reply ← ask (wq k) cmd
      modify (λ st. (st.0, others k st.1))
      replies ← client wq others (suc k) commands
      pure (reply ∷ replies)

    unfoldable pub run_client :
        World System
        → World System
        → (ℕ → World (Requester × System))
        → (ℕ → System → System)
        → List lib.Value
        → Action System (List (Option lib.Value))
    run_client wa wb wq others commands =
        Requester.init wa wb fuel service_name (10 * second) pickle
        >>= with_object Requester.close (client wq others 0 commands)
