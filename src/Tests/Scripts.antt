-- ===== src/Tests/Scripts.antt =====
-- Theorems on the scripts of examples/, at one small system and a small numpy.
use shm_comm.Prelude.{
  ℕ, zero, suc, ◌*◌, ◌/◌, ◌≡◌, refl, subst, inl, Bool, true, false, Option, none, some, List, [],
  ◌∷◌, length, get_elem?, arith, ℕ_discrete, if◌then◌else◌,
}
use mathlib.Core.Option.{some-injective}
use shm_comm.Exec.{ok}
use shm_comm.Names.{codes, same}
use shm_comm.Core.Segments.{System}
use shm_comm.Fifo.{Payload}
use shm_comm.Feed.{pending}
use shm_comm.Mailbox
use shm_comm.Serialize.{pickle, serialize, deserialize}
use shm_comm.Lifecycle.Fresh.{no_publications}
use shm_comm.ReqRep.Replier.{Replier}
use shm_comm.ReqRep.Requester
use shm_comm.ReqRep.Requester.{Requester}
use shm_comm.ReqRep.Service.Links.{Linked}
use shm_comm.Examples.Arrays.{Numpy}
use shm_comm.Examples.Arrays.Codec.{Documented, IsFloat, elements, Narrow}
use shm_comm.Examples.Arrays.Stream.{Carried, rounds, Returned, rounds-Returned}
use shm_comm.Examples.Executor.{Strings, listener, main, interrupt, run, listen, work, is_estop}
use shm_comm.Examples.Executor.Order.{Orderly, started, run-Orderly}
use shm_comm.ReqRep.Service.Rounds.{HasRoom, exchanged}
use shm_comm.ReqRep.Service.RoundTrip.{Exchange}
use shm_comm.Examples.Executor.Answer.{idle, command-answered}
use shm_comm.Tests.{
  alone, system, library, channel, channel-Joined, service, empty_boxes, service-Linked,
}

-- A dtype is true for float64.
abbrev item : Bool → ℕ
item d = if d then 8 else 4

-- An array is its dtype, its shape and its bytes, as many as these two say.
record Array : Type 0 where
  wide : Bool
  dims : List ℕ
  bytes : Payload
  whole : length bytes ≡ item wide * elements dims

abbrev as_array :
    (bs : Payload) (d : Bool) (s : List ℕ) → Dec (length bs ≡ item d * elements s) → Option Array
as_array bs d s (yes e) = some (record { wide = d; dims = s; bytes = bs; whole = e })
as_array bs d s (no ne) = none

-- The number of items in a run of bytes.
abbrev items : Bool → ℕ → ℕ
items true k = k / 8
items false k = k / 4

abbrev numpy : Numpy
numpy = record {
  Array = Array;
  Dtype = Bool;
  float32 = false;
  float64 = true;
  dtype = λ a. a.wide;
  itemsize = item;
  shape = λ a. a.dims;
  tobytes = λ a. a.bytes;
  frombuffer = λ bs d. as_array bs d (items d (length bs) ∷ []) (ℕ_discrete _ _);
  reshape = λ a s. as_array a.bytes a.wide s (ℕ_discrete _ _);
  copy = λ a. a;
}

as_array-some :
    (bs : Payload) (d : Bool) (s : List ℕ) (dec : Dec (length bs ≡ item d * elements s))
    → length bs ≡ item d * elements s
    → (a : Array) × (as_array bs d s dec ≡ some a) × (a.bytes ≡ bs) × (a.wide ≡ d) × (a.dims ≡ s)
as_array-some bs d s (yes e) h =
    (record { wide = d; dims = s; bytes = bs; whole = e }, refl, refl, refl, refl)
as_array-some bs d s (no ne) h = absurd (ne h)

items-item :
    (d : Bool) (bs : Payload) (k : ℕ)
    → length bs ≡ item d * k
    → length bs ≡ item d * elements (items d (length bs) ∷ [])
unfolding elements
items-item true bs k e = omega arith
items-item false bs k e = omega arith

numpy-Documented : Documented numpy
numpy-Documented = record {
  float32_size = refl;
  float64_size = refl;
  length-tobytes = λ a. a.whole;
  from_bytes = λ bs d k known some_item e.
      let (a, x, y, w, _) =
        as_array-some bs d (items d (length bs) ∷ []) (ℕ_discrete _ _) (items-item d bs k e) in
      (a, x, y, w);
  reshaped = λ a s known flat e. as_array-some a.bytes a.wide s (ℕ_discrete _ _) e;
  tobytes-copy = λ a. refl;
  dtype-copy = λ a. refl;
  shape-copy = λ a. refl;
}

one_item : length {A = ℕ} (0 ∷ 0 ∷ 128 ∷ 63 ∷ []) ≡ item false * elements (1 ∷ [])
unfolding elements
one_item = refl

-- A float32 array with one element.
abbrev one_float : Array
one_float = record { wide = false; dims = 1 ∷ []; bytes = 0 ∷ 0 ∷ 128 ∷ 63 ∷ []; whole = one_item }

one_float-Carried : Carried numpy 16 one_float
unfolding Narrow elements IsFloat
one_float-Carried = record {
  known = inl refl;
  flat = omega arith;
  narrow = (omega arith, tt);
  some_element = omega arith;
  room = omega arith;
}

two_floats-Carried :
    (k : ℕ) (a : Array) → get_elem? (one_float ∷ one_float ∷ []) k ≡ some a → Carried numpy 16 a
two_floats-Carried zero a e =
    subst (Carried numpy 16) (some-injective one_float a e) one_float-Carried
two_floats-Carried (suc zero) a e =
    subst (Carried numpy 16) (some-injective one_float a e) one_float-Carried
two_floats-Carried (suc (suc k)) a e = cc

nothing_pending : pending 3 no_publications ≡ 0
unfolding pending
nothing_pending = refl

rounds-Returned_example :
    Returned numpy
      (one_float ∷ one_float ∷ [])
      (rounds numpy alone alone 1 2 (one_float ∷ one_float ∷ []) channel)
unfolding rounds
rounds-Returned_example =
    rounds-Returned numpy numpy-Documented alone alone 0 2 (one_float ∷ one_float ∷ [])
      channel-Joined (omega arith) nothing_pending two_floats-Carried

-- The values are strings, which are in upper case already.
abbrev strings : Strings library
strings = record { as_string = λ v. v; upper = λ s. s; string = λ s. s }

run-Orderly_example : Orderly library strings (
    run library strings
      (main alone 1 ∷ listener alone 3 2 ∷ main alone 1 ∷ interrupt ∷ listener alone 3 2 ∷ [])
      (started library strings service.replier system))
run-Orderly_example =
    run-Orderly library strings service.replier system
      (main alone 1 ∷ listener alone 3 2 ∷ main alone 1 ∷ interrupt ∷ listener alone 3 2 ∷ [])

seven-Exchange :
    Exchange library 16 pickle pickle
      (7 ∷ [])
      (7 ∷ [])
      (codes "done")
      (codes "done")
      (7 ∷ [])
      (codes "done")
unfolding serialize deserialize
seven-Exchange = record {
  command_bytes = refl;
  command_fits = omega arith;
  command_read = refl;
  command_truthy = refl;
  reply_bytes = refl;
  reply_fits = omega arith;
  reply_read = refl;
  reply_truthy = refl;
}

seven_ordinary : is_estop library strings (7 ∷ []) ≡ false
unfolding is_estop same
seven_ordinary = refl

fresh-HasRoom : HasRoom 2 Mailbox.fresh
fresh-HasRoom = record { all_read = refl; room = omega arith }

command-answered_example :
    (replier : Replier) × (s : System) × (q : Requester) × (s' : System) × (work library strings
        alone 1
        (listen library alone 1 2 (
          idle library service.replier
            (Requester.send library alone 1 service.requester (7 ∷ []) service.system).1
            []
            []))
      ≡ idle library replier s ((7 ∷ []) ∷ []) ((7 ∷ []) ∷ []))
    × (Requester.recv library alone 1 (some 5) (service.requester, s)
        ≡ (ok (some (codes "done")), (q, s')))
    × Linked 3 16 0 1 pickle pickle
        (record { requester = q; replier = replier; system = s' })
        (record {
          requests = exchanged (7 ∷ []) empty_boxes.requests;
          replies = exchanged (codes "done") empty_boxes.replies;
        })
command-answered_example =
    command-answered library strings service-Linked seven-Exchange seven_ordinary fresh-HasRoom
      fresh-HasRoom alone 0 alone 2 [] [] alone (some 5)
