-- ===== src/Examples/Arrays/Stream.antt =====
-- An array that one round of the publisher sends is what the next round of the subscriber receives.
use shm_comm.Prelude.{
  ℕ, suc, ◌+◌, ◌-◌, ◌*◌, ◌%◌, ◌<◌, ◌≤◌, ◌≡◌, refl, ap, subst, ◌∙◌, Bool, true, false, Option, some,
  List, [], ◌∷◌, ◌++◌, length, get_elem?, get_elem?_last, arith, le→leb, length-append,
}
use shm_comm.Prelude.Remainder.{mod-below}
use shm_comm.Exec.{Outcome, ok}
use shm_comm.Exec.Spin.{World}
use shm_comm.Memory.{Memory}
use shm_comm.Core.Segments.{System}
use shm_comm.Fifo.{Payload}
use shm_comm.Feed.{Feed, publish, pending, receive}
use shm_comm.Buffer.Subscription.{pending-publish}
use shm_comm.Serialize.{Method}
use shm_comm.Utils.Poll.{poll_until-first}
use shm_comm.PubSub.Publisher
use shm_comm.PubSub.Subscriber
use shm_comm.PubSub.Subscriber.{Subscriber}
use shm_comm.PubSub.Channel.{Channel, Joined, publish_payload, after_send, after_recv}
use shm_comm.PubSub.Channel.Calls.{on_shm-publish_payload, try_recv_bytes-receive}
use shm_comm.Examples.Arrays.{Numpy, publish_round, receive_round}
use shm_comm.Examples.Arrays.Codec.{
  Documented, IsFloat, Same, Narrow, elements, packed, length-packed, pack_array-packed,
  unpack_array-packed,
}

-- A reader that is due one publication receives the newest and is due none.
receive-one :
    {A : Type 0} (n : ℕ) (g : Feed A)
    → pending n g ≡ 1
    → receive n g
      ≡ (get_elem? g.sent (length g.sent - 1), record g { place = length g.sent - 1 + 1 })
unfolding receive pending
receive-one n g one = rw one

receive-publish :
    {A : Type 0} (n : ℕ) (f : Feed A) (p : A)
    → pending n (publish p f) ≡ 1
    → (receive n (publish p f)).0 ≡ some p
unfolding publish
receive-publish n f p one =
    ap (λ r. r.0) (receive-one n (publish p f) one)
    ∙ ap (get_elem? (f.sent ++ p ∷ [])) (omega (arith, length-append f.sent (p ∷ [])))
    ∙ get_elem?_last f.sent p

pending-receive :
    {A : Type 0} (n : ℕ) (f : Feed A) (p : A)
    → 0 < n
    → pending n (publish p f) ≡ 1
    → pending n (receive n (publish p f)).1 ≡ 0
unfolding publish pending
pending-receive n f p some_slot one =
    ap (λ r. pending n r.1) (receive-one n (publish p f) one)
    ∙ ap (λ (k : ℕ). k % n) (omega (arith, length-append f.sent (p ∷ [])))
    ∙ mod-below 0 n some_slot

module _ (np : Numpy) where
  -- An array that the script can carry: of one of its two dtypes, not empty, of at most 32
  -- dimensions that fit a uint32 each, and with the header and the prefix no longer than a slot of `z` bytes.
  pub record Carried (z : ℕ) (a : np.Array) : Type 0 where
    pub known : IsFloat np (np.dtype a)
    pub flat : length (np.shape a) ≤ 32
    pub narrow : Narrow (np.shape a)
    pub some_element : 0 < elements (np.shape a)
    pub room : 2 + 4 * length (np.shape a) + length (np.tobytes a) + 4 ≤ z

  module _ (w : World Memory) (w' : World (Subscriber × System)) (fuel second : ℕ) where
    -- A round of the publisher and then one of the subscriber, for each array.
    unfoldable pub rounds : List np.Array → Channel → List (Outcome (Option np.Array))
    rounds [] c = []
    rounds (a ∷ rest) c =
        let s = (publish_round np w fuel c.publisher a c.system).1 in
        let r = receive_round np w' fuel second (c.subscriber, s) in
        r.0 ∷ rounds rest (record c { subscriber = r.1.0; system = r.1.1 })

  -- Each array comes back.
  unfoldable pub Returned : List np.Array → List (Outcome (Option np.Array)) → Type 0
  Returned [] [] = Unit
  Returned (a ∷ rest) (o ∷ os) =
      ((b : np.Array) × (o ≡ ok (some b)) × Same np a b) × Returned rest os
  Returned _ _ = ⊥

module _ (np : Numpy) (doc : Documented np) {n z i : ℕ} {sm rm : Method} (w : World Memory)
    (w' : World (Subscriber × System)) (fuel second : ℕ) where
  module _ (a : np.Array) {c : Channel} {f : Feed Payload} (j : Joined n z i sm rm c f)
      (h : Carried np z a) (some_slots : 1 < n) (caught_up : pending n f ≡ 0) where
    abbrev payload : Payload
    payload = packed np a

    abbrev written : Outcome Bool × System
    written = Publisher.send_bytes w (suc fuel) c.publisher payload c.system

    abbrev waiting : Channel
    waiting = after_send c written

    abbrev polled : Outcome (Option Payload) × (Subscriber × System)
    polled = Subscriber.try_recv_bytes (c.subscriber, written.1)

    one_pending : pending n (publish payload f) ≡ 1
    one_pending =
        pending-publish j.tracks payload
        ∙ ap (λ (k : ℕ). (k + 1) % n) caught_up
        ∙ mod-below 1 n some_slots

    payload-fits : publish_payload z payload f ≡ (ok true, publish payload f)
    unfolding publish_payload
    payload-fits = rw (le→leb (length payload + 4) z (omega (arith, length-packed np a, h.room)))

    written-publish : (written.0 ≡ ok true) × Joined n z i sm rm waiting (publish payload f)
    unfolding Publisher.send_bytes
    written-publish =
        let (e, t) = on_shm-publish_payload j w (suc fuel) payload in
        (
          e ∙ ap (λ r. r.0) payload-fits,
          subst (Joined n z i sm rm waiting) (ap (λ r. r.1) payload-fits) t,
        )

    publish_round-written :
        publish_round np w (suc fuel) c.publisher a c.system ≡ (ok tt, written.1)
    unfolding publish_round
    publish_round-written =
        rw (pack_array-packed np doc a h.known h.flat h.narrow, written-publish.0)

    polled-receive :
        (polled ≡ (ok (some payload), polled.1))
        × Joined n z i sm rm (after_recv waiting polled) (receive n (publish payload f)).1
    polled-receive =
        let (e, t) = try_recv_bytes-receive written-publish.1 in
        (ap (λ o. (o, polled.1)) (e ∙ ap ok (receive-publish n f payload one_pending)), t)

    -- One round after the other: the array comes back, and nothing is pending again.
    receive_round-publish_round :
        (b : np.Array) × (receive_round np w' (suc fuel) second (c.subscriber, written.1)
          ≡ (ok (some b), polled.1))
        × Same np a b
    unfolding receive_round Subscriber.recv_bytes
    receive_round-publish_round =
        let (b, e, same) = unpack_array-packed np doc a h.known h.flat h.narrow h.some_element in
        (
          b,
          rw (
            poll_until-first (λ _. false) Subscriber.try_recv_bytes w' (some second)
                (λ _. (c.subscriber, written.1)) (λ _. (c.subscriber, written.1)) 0 (suc fuel)
                payload polled.1 (λ i lt. absurd (omega arith)) (omega arith) polled-receive.0 refl,
            e,
          ),
          same,
        )

  -- If numpy does as documented, the publisher and the subscriber are open on one well-formed
  -- segment of more than one slot, and the subscriber has seen all publications, then of any
  -- list of arrays, each of float32 or float64, with at least one element, at most 32
  -- dimensions below 2^32, and small enough for a slot, where each is sent by a round of the
  -- publisher and followed by a round of the subscriber, each comes back with its dtype, shape
  -- and bytes.
  pub rounds-Returned :
      (arrays : List np.Array) {c : Channel} {f : Feed Payload}
      → Joined n z i sm rm c f
      → 1 < n
      → pending n f ≡ 0
      → ((k : ℕ) (a : np.Array) → get_elem? arrays k ≡ some a → Carried np z a)
      → Returned np arrays (rounds np w w' (suc fuel) second arrays c)
  unfolding rounds Returned
  rounds-Returned [] j some_slots caught_up h = tt
  rounds-Returned (a ∷ rest) {c} {f} j some_slots caught_up h =
      let ha : Carried np z a = h 0 a refl in
      let (b, e, same) = receive_round-publish_round a j ha some_slots caught_up in
      rw (publish_round-written a j ha some_slots caught_up, e)
        (
          (b, refl, same),
          rounds-Returned rest (polled-receive a j ha some_slots caught_up).1 some_slots
              (pending-receive n f (packed np a) (omega arith)
                (one_pending a j ha some_slots caught_up))
              (λ k x q. h (suc k) x q),
        )
