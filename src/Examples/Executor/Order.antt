-- ===== src/Examples/Executor/Order.antt =====
-- The commands are executed in the order in which they were received, and none after an ESTOP.
use shm_comm.Prelude.{
  ℕ, ◌≡◌, refl, sym, ap, ◌∙◌, Bool, true, false, not, Option, none, some, List, [], ◌∷◌, ◌++◌,
  append_assoc, if◌then◌else◌, ◌⊎◌, inl, inr,
}
use shm_comm.Exec.{Outcome, ok, raised, running}
use shm_comm.Exec.Spin.{World}
use shm_comm.Memory.{Memory}
use shm_comm.Core.Segments.{System}
use shm_comm.Serialize.{Library}
use shm_comm.ReqRep.Replier
use shm_comm.ReqRep.Replier.{Replier}
use shm_comm.Examples.Executor.{
  Strings, Executor, Turn, listener, main, interrupt, others, turn, run, listen, work, execute,
  heard, is_estop, shut, next_command,
}

if-elim :
    {A : Type 0} (P : A → Type 0) (b : Bool) (x y : A)
    → (b ≡ true → P x)
    → (b ≡ false → P y)
    → P (if b then x else y)
if-elim P true x y f g = f refl
if-elim P false x y f g = g refl

module _ (lib : Library) (strings : Strings lib) where
  abbrev estop : lib.Value → Bool
  estop = is_estop lib strings

  -- No command of the list is an ESTOP; only the last one is.
  unfoldable pub Ordinary : List lib.Value → Type 0
  Ordinary [] = Unit
  Ordinary (c ∷ cs) = (estop c ≡ false) × Ordinary cs

  unfoldable pub Stopped : List lib.Value → Type 0
  Stopped [] = ⊥
  Stopped (c ∷ []) = estop c ≡ true
  Stopped (c ∷ d ∷ cs) = (estop c ≡ false) × Stopped (d ∷ cs)

  pub record Orderly (x : Executor lib) : Type 0 where
    pub split : x.received ≡ x.executed ++ x.command_queue
    pub before : x.looping ≡ true → Ordinary x.executed
    pub behind : (Ordinary x.executed) ⊎ (Stopped x.executed)
    pub told : x.stop_event ≡ not x.looping

  Ordinary-append :
      (cs : List lib.Value) (c : lib.Value)
      → Ordinary cs
      → estop c ≡ false
      → Ordinary (cs ++ c ∷ [])
  unfolding Ordinary
  Ordinary-append [] c h e = (e, tt)
  Ordinary-append (d ∷ cs) c (f, h) e = (f, Ordinary-append cs c h e)

  Stopped-append :
      (cs : List lib.Value) (c : lib.Value) → Ordinary cs → estop c ≡ true → Stopped (cs ++ c ∷ [])
  unfolding Ordinary Stopped
  Stopped-append [] c h e = e
  Stopped-append (d ∷ []) c (f, h) e = (f, e)
  Stopped-append (d ∷ b ∷ cs) c (f, h) e = (f, Stopped-append (b ∷ cs) c h e)

  -- What the invariant does not look at may change.
  elsewhere :
      (x : Executor lib) (r : Replier) (s : System) (on : Bool)
      → Orderly x
      → Orderly (record x { replier = r; system = s; listening = on })
  elsewhere x r s on v = record {
    split = v.split;
    before = v.before;
    behind = v.behind;
    told = v.told;
  }

  heard-Orderly :
      (o : Outcome (Option lib.Value)) (x : Executor lib) → Orderly x → Orderly (heard lib o x)
  heard-Orderly (ok none) x v = v
  heard-Orderly (ok (some c)) x v = record {
    split = ap (λ cs. cs ++ c ∷ []) v.split ∙ append_assoc x.executed x.command_queue (c ∷ []);
    before = v.before;
    behind = v.behind;
    told = v.told;
  }
  heard-Orderly (raised e) x v = elsewhere x x.replier x.system false v
  heard-Orderly running x v = elsewhere x x.replier x.system false v

  listen-Orderly :
      (w : World (Replier × System)) (fuel half_second : ℕ) (x : Executor lib)
      → Orderly x
      → Orderly (listen lib w fuel half_second x)
  unfolding listen
  listen-Orderly w fuel half_second x v =
      let r = Replier.recv lib w fuel (some half_second) (x.replier, x.system) in
      if-elim Orderly x.listening _ x
        (λ _.
          if-elim Orderly x.stop_event _ _ (λ _. elsewhere x x.replier x.system false v)
            (λ _. heard-Orderly r.0 _ (elsewhere x r.1.0 r.1.1 x.listening v)))
        (λ _. v)

  shut-Orderly :
      (x : Executor lib) (s : System)
      → x.received ≡ x.executed ++ x.command_queue
      → (Ordinary x.executed) ⊎ (Stopped x.executed)
      → Orderly (shut lib (record x { system = s }))
  shut-Orderly x s split behind = record {
    split = split;
    before = λ e. cc;
    behind = behind;
    told = refl;
  }

  -- The command that is taken from the queue is the next one of those received.
  taken :
      (x : Executor lib) (c : lib.Value) (cs : List lib.Value)
      → x.command_queue ≡ c ∷ cs
      → x.received ≡ x.executed ++ x.command_queue
      → x.received ≡ (x.executed ++ c ∷ []) ++ cs
  taken x c cs e split =
      split ∙ ap (λ q. x.executed ++ q) e ∙ sym (append_assoc x.executed (c ∷ []) cs)

  next_command-Orderly :
      (w : World Memory) (fuel : ℕ) (x : Executor lib) (queue : List lib.Value)
      → x.command_queue ≡ queue
      → x.looping ≡ true
      → Orderly x
      → Orderly (next_command lib strings w fuel queue x)
  unfolding execute
  next_command-Orderly w fuel x [] e on v = v
  next_command-Orderly w fuel x (c ∷ cs) e on v =
      if-elim Orderly (estop c) _ _
        (λ stop.
          shut-Orderly (record x { command_queue = cs; executed = x.executed ++ c ∷ [] }) _
            (taken x c cs e v.split) (inr (Stopped-append x.executed c (v.before on) stop)))
        (λ go. record {
          split = taken x c cs e v.split;
          before = λ _. Ordinary-append x.executed c (v.before on) go;
          behind = inl (Ordinary-append x.executed c (v.before on) go);
          told = v.told;
        })

  turn-Orderly : (t : Turn lib) (x : Executor lib) → Orderly x → Orderly (turn lib strings t x)
  unfolding turn work
  turn-Orderly (listener w fuel half_second) x v = listen-Orderly w fuel half_second x v
  turn-Orderly (main w fuel) x v =
      if-elim Orderly x.looping _ x (λ on. next_command-Orderly w fuel x x.command_queue refl on v)
        (λ _. v)
  turn-Orderly interrupt x v =
      if-elim Orderly x.looping _ x (λ _. shut-Orderly x x.system v.split v.behind) (λ _. v)
  turn-Orderly (others f) x v = elsewhere x x.replier (f x.system) x.listening v

  run_from : (ts : List (Turn lib)) (x : Executor lib) → Orderly x → Orderly (run lib strings ts x)
  unfolding run
  run_from [] x v = v
  run_from (t ∷ ts) x v = run_from ts (turn lib strings t x) (turn-Orderly t x v)

  -- Both loops begin, with an empty queue.
  abbrev pub started : Replier → System → Executor lib
  started r s = record {
    replier = r;
    system = s;
    command_queue = [];
    stop_event = false;
    listening = true;
    looping = true;
    received = [];
    executed = [];
  }

  -- From the start of the executor, after any rounds of its listener and of its main loop in
  -- any order, with interrupts between the rounds and any changes by other processes: the
  -- commands received are those executed and then those in the queue, in order; none of those
  -- executed is an ESTOP but possibly the last; none at all while the main loop runs; and the
  -- stop event is set when the main loop has ended, and only then.
  pub run-Orderly :
      (r : Replier) (s : System) (ts : List (Turn lib)) → Orderly (run lib strings ts (started r s))
  unfolding Ordinary
  run-Orderly r s ts =
      run_from ts (started r s)
        (record { split = refl; before = λ _. tt; behind = inl tt; told = refl })
