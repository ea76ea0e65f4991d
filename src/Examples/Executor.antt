-- ===== src/Examples/Executor.antt =====
-- examples/command_executor.py: a thread that receives commands into a queue, and the main loop, which
-- executes and answers them. The two take turns: a turn is one round of either loop.
pub mod Order
pub mod Answer
use shm_comm.Prelude.{ℕ, Bool, true, false, Option, none, some, List, [], ◌∷◌, ◌++◌, if◌then◌else◌}
use shm_comm.Exec.{Outcome, ok, raised, running}
use shm_comm.Exec.Spin.{World}
use shm_comm.Memory.{Memory}
use shm_comm.Names.{Name, codes, same}
use shm_comm.Core.Segments.{System}
use shm_comm.Serialize.{Library}
use shm_comm.ReqRep.Replier
use shm_comm.ReqRep.Replier.{Replier}

-- Python's strings among the values: `command if isinstance(command, str) else str(command)`,
-- `str.upper`, and a string as a value.
pub record Strings (lib : Library) : Type 0 where
  pub as_string : lib.Value → Name
  pub upper : Name → Name
  pub string : Name → lib.Value

module _ (lib : Library) where
  -- `listening` and `looping` tell whether the thread and the main loop still run. `received` and
  -- `executed` record the commands that the thread put into the queue and that the loop took from it.
  pub record Executor : Type 0 where
    pub replier : Replier
    pub system : System
    pub command_queue : List lib.Value
    pub stop_event : Bool
    pub listening : Bool
    pub looping : Bool
    pub received : List lib.Value
    pub executed : List lib.Value

  abbrev put : Option lib.Value → Executor → Executor
  put none x = x
  put (some command) x = record x {
    command_queue = x.command_queue ++ command ∷ [];
    received = x.received ++ command ∷ [];
  }

  -- An exception ends the thread, and a receive that does not end holds it for good.
  abbrev pub heard : Outcome (Option lib.Value) → Executor → Executor
  heard (ok command) x = put command x
  heard (raised e) x = record x { listening = false }
  heard running x = record x { listening = false }

  -- A round of `shm_listener`.
  unfoldable pub listen : World (Replier × System) → ℕ → (half_second : ℕ) → Executor → Executor
  listen w fuel half_second x =
      if x.listening
      then (if x.stop_event
          then record x { listening = false }
          else (let r = Replier.recv lib w fuel (some half_second) (x.replier, x.system) in
              heard r.0 (record x { replier = r.1.0; system = r.1.1 })))
      else x

  abbrev after_close : Outcome Replier → Replier → Replier
  after_close (ok closed) replier = closed
  after_close (raised e) replier = replier
  after_close running replier = replier

  -- `finally: stop_event.set()`, and the end of the `with` block, which closes the replier.
  abbrev pub shut : Executor → Executor
  shut x =
      let r = Replier.close x.replier x.system in
      record x {
        replier = after_close r.0 x.replier;
        system = r.1;
        stop_event = true;
        looping = false;
      }

  -- `cmd_str.upper() == "ESTOP"`
  unfoldable pub is_estop : Strings lib → lib.Value → Bool
  is_estop strings command = same (strings.upper (strings.as_string command)) (codes "ESTOP")

  module _ (strings : Strings lib) (w : World Memory) (fuel : ℕ) where
    open strings use {string}

    abbrev pub answer : Name → Executor → Executor
    answer reply x = record x {
      system = (Replier.send lib w fuel x.replier (string reply) x.system).1;
    }

    -- The exceptions of the confirmation are caught; that of "ESTOP_ACK" ends the loop as `break` does.
    unfoldable pub execute : lib.Value → Executor → Executor
    execute command x =
        if is_estop strings command
        then shut (answer (codes "ESTOP_ACK") x)
        else answer (codes "done") x

    abbrev pub next_command : List lib.Value → Executor → Executor
    next_command [] x = x
    next_command (command ∷ rest) x =
        execute command (record x { command_queue = rest; executed = x.executed ++ command ∷ [] })

    -- A round of the main loop.
    unfoldable pub work : Executor → Executor
    work x = if x.looping then next_command x.command_queue x else x

  -- One turn of either, or Ctrl+C between two rounds of the main loop; between two turns other processes may act on the system.
  pub data Turn : Type 0 where
    listener : World (Replier × System) → (fuel half_second : ℕ) → Turn
    main : World Memory → (fuel : ℕ) → Turn
    interrupt : Turn
    others : (System → System) → Turn

  unfoldable pub turn : Strings lib → Turn → Executor → Executor
  turn strings (listener w fuel half_second) x = listen w fuel half_second x
  turn strings (main w fuel) x = work strings w fuel x
  turn strings interrupt x = if x.looping then shut x else x
  turn strings (others f) x = record x { system = f x.system }

  unfoldable pub run : Strings lib → List Turn → Executor → Executor
  run strings [] x = x
  run strings (t ∷ ts) x = run strings ts (turn strings t x)
