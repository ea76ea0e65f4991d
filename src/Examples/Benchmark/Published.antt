-- ===== src/Examples/Benchmark/Published.antt =====
-- examples/benchmark.py: the loops of the two benchmarks of publish/subscribe, on an open channel.
use shm_comm.Prelude.{
  ℕ, zero, suc, ◌+◌, ◌-◌, ◌*◌, ◌%◌, ◌≤◌, ◌<◌, ◌≡◌, refl, ap, subst, ◌∙◌, true, Option, some, ◌∷◌,
  length, ap₂, false, arith, le→leb, ne→==,
}
use shm_comm.Prelude.Remainder.{mod-below}
use shm_comm.Exec.{ok}
use shm_comm.Exec.Spin.{World}
use shm_comm.Memory.{Memory}
use shm_comm.Names.{codes}
use shm_comm.Core.Segments.{System}
use shm_comm.Fifo.{Payload}
use shm_comm.Feed.{pending, receive, publish}
use shm_comm.Serialize.{Method}
use shm_comm.Utils.Poll.{poll_until-first}
use shm_comm.PubSub.Publisher
use shm_comm.PubSub.Publisher.{Publisher}
use shm_comm.PubSub.Subscriber
use shm_comm.PubSub.Subscriber.{Subscriber}
use shm_comm.PubSub.Channel.{Joined, publish_payload}
use shm_comm.PubSub.Channel.Calls.{on_shm-publish_payload, try_recv_bytes-receive}
use shm_comm.Examples.Benchmark.{ping, latency_loop, truthy, publish_and_receive}
use shm_comm.Examples.Benchmark.Loops.{
  copies, copies-snoc, length-copies, get_elem?-copies, send_loop-whole, recv_loop-whole,
}

module _ (publisher : Publisher) (n z i : ℕ) (sm rm : Method) (p : Payload) where
  -- `k` of the messages are out, and the subscriber has seen all but `d` of them.
  abbrev pub Out : ℕ → ℕ → Subscriber × System → Type 0
  Out k d st =
      Joined n z i sm rm (record { publisher = publisher; subscriber = st.0; system = st.1 })
        (record { sent = copies p k; place = k - d })

  module _ (w : World Memory) (fuel : ℕ) (room : length p + 4 ≤ z) (sub : Subscriber) where
    publish-copies :
        (k d : ℕ)
        → publish_payload z p (record { sent = copies p k; place = k - d })
          ≡ (ok true, record { sent = copies p (suc k); place = suc k - suc d })
    unfolding publish_payload publish
    publish-copies k d =
        rw (le→leb (length p + 4) z room)
          (ap₂ (λ xs x. (ok true, record { sent = xs; place = x })) (copies-snoc p k) (omega arith))

    published :
        (k d : ℕ) (s : System)
        → Out k d (sub, s)
        → (s' : System) × (Publisher.send_bytes w fuel publisher p s ≡ (ok true, s'))
          × Out (suc k) (suc d) (sub, s')
    unfolding Publisher.send_bytes
    published k d s j =
        let r = Publisher.send_bytes w fuel publisher p s in
        let (e, j') = on_shm-publish_payload j w fuel p in
        (
          r.1,
          ap (λ o. (o, r.1)) (e ∙ ap (λ x. x.0) (publish-copies k d)),
          subst
              (Joined n z i sm rm
                (record { publisher = publisher; subscriber = sub; system = r.1 }))
              (ap (λ x. x.1) (publish-copies k d)) j',
        )

  module _ (wp : World (Subscriber × System)) (fuel : ℕ) (timeout : Option ℕ) (b : ℕ) (bs : Payload)
      (some_bytes : p ≡ b ∷ bs) (k : ℕ) where
    receive-copies :
        (d : ℕ)
        → suc d ≤ k
        → suc d < n
        → receive n (record { sent = copies p k; place = k - suc d })
          ≡ (some p, record { sent = copies p k; place = k - d })
    unfolding receive pending
    receive-copies d le few =
        let pend : (length (copies p k) - (k - suc d)) % n ≡ suc d =
          ap (λ (t : ℕ). t % n) (omega (arith, length-copies p k))
          ∙ mod-below (suc d) n (omega arith) in
        rw (pend, ne→== (suc d) 0 (omega arith))
          (ap₂ (λ x y. (x, record { sent = copies p k; place = y }))
            (get_elem?-copies p k _ (omega (arith, length-copies p k)))
            (omega (arith, length-copies p k)))

    received :
        (d : ℕ) (st : Subscriber × System)
        → suc d ≤ k
        → suc d < n
        → Out k (suc d) st
        → (st' : Subscriber × System) × (m : Option Payload) × (Subscriber.recv_bytes wp
              (suc fuel)
              timeout
              st
            ≡ (ok m, st'))
          × (truthy m ≡ true)
          × Out k d st'
    unfolding Subscriber.recv_bytes
    received d st le few j =
        let r = Subscriber.try_recv_bytes st in
        let (e, j') = try_recv_bytes-receive j in
        (
          r.1,
          some p,
          poll_until-first (λ _. false) Subscriber.try_recv_bytes wp timeout (λ _. st) (λ _. st) 0
              (suc fuel) p r.1 (λ i lt. absurd (omega arith)) (omega arith)
              (ap (λ o. (o, r.1)) (e ∙ ap (λ x. ok x.0) (receive-copies d le few))) refl,
          ap (λ x. truthy (some x)) some_bytes,
          subst
              (Joined n z i sm rm
                (record { publisher = publisher; subscriber = r.1.0; system = r.1.1 }))
              (ap (λ x. x.1) (receive-copies d le few)) j',
        )

module _ {publisher : Publisher} {n z i : ℕ} {sm rm : Method} {p : Payload} (w : World Memory)
    (wp : World (Subscriber × System)) (fuel second n_msgs rounds : ℕ) (room : length p + 4 ≤ z)
    (b : ℕ) (bs : Payload) (some_bytes : p ≡ b ∷ bs) (st : Subscriber × System)
    (j : Out publisher n z i sm rm p 0 0 st) where
  pub publish_and_receive-all :
      n_msgs < n
      → n_msgs < rounds
      → (st' : Subscriber × System) × (publish_and_receive w wp
            (suc fuel)
            second
            publisher
            p
            n_msgs
            rounds
            st
          ≡ (ok (n_msgs, n_msgs), st'))
        × Out publisher n z i sm rm p n_msgs 0 st'
  unfolding publish_and_receive
  publish_and_receive-all few enough =
      let (s', e, j') =
        send_loop-whole (Publisher.send_bytes w (suc fuel) publisher p) n_msgs
          (λ k s. Out publisher n z i sm rm p k k (st.0, s))
          (λ k s lt. published publisher n z i sm rm p w (suc fuel) room st.0 k k s) n_msgs st.1
          (omega arith) j in
      let (st'', e', (le, j'')) =
        recv_loop-whole (Subscriber.recv_bytes wp (suc fuel) (some (2 * second)))
          (λ d u. (d ≤ n_msgs) × Out publisher n z i sm rm p n_msgs d u)
          (λ d u h.
            let (u', m, e, found, out) =
              received publisher n z i sm rm p wp fuel (some (2 * second)) b bs some_bytes n_msgs d
                u h.0 (omega (arith, h.0, few)) h.1 in
            (u', m, e, found, (omega (arith, h.0), out)))
          rounds n_msgs (st.0, s') enough (omega arith, j') in
      (st'', rw (e, e') refl, j'')

module _ {publisher : Publisher} {n z i : ℕ} {sm rm : Method} (w : World Memory)
    (wp : World (Subscriber × System)) (fuel second : ℕ) (room : 8 ≤ z) (slots : 1 < n) where
  -- Each message is received at once.
  pub latency_loop-all :
      (left k count : ℕ) (st : Subscriber × System)
      → Out publisher n z i sm rm ping k 0 st
      → (st' : Subscriber × System) × (latency_loop w wp (suc fuel) second publisher left count st
          ≡ (ok (count + left), st'))
        × Out publisher n z i sm rm ping (k + left) 0 st'
  unfolding latency_loop
  latency_loop-all zero k count st j = (
    st,
    ap (λ (t : ℕ). (ok t, st)) (omega arith),
    subst (λ (t : ℕ). Out publisher n z i sm rm ping t 0 st) (omega arith) j,
  )
  latency_loop-all (suc left) k count st j =
      let (s', e, j') = published publisher n z i sm rm ping w (suc fuel) room st.0 k 0 st.1 j in
      let (st', m, e', found, j'') =
        received publisher n z i sm rm ping wp fuel (some second) b'p' (codes "ing") refl (suc k) 0
          (st.0, s') (omega arith) slots j' in
      let (u, e'', v) = latency_loop-all left (suc k) (count + 1) st' j'' in
      (
        u,
        rw (e, e') (e'' ∙ ap (λ (t : ℕ). (ok t, u)) (omega arith)),
        subst (λ (t : ℕ). Out publisher n z i sm rm ping t 0 u) (omega arith) v,
      )
