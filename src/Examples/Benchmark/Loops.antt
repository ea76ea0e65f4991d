-- ===== src/Examples/Benchmark/Loops.antt =====
-- examples/benchmark.py: the two loops, for a `send_bytes` and a `recv_bytes` that keep count.
use shm_comm.Prelude.{
  ℕ, zero, suc, ◌+◌, ◌≤◌, ◌<◌, ◌≡◌, refl, ap, subst, sym, ℕ_discrete, ◌∙◌, Bool, true, Option, some,
  List, [], ◌∷◌, ◌++◌, length, get_elem?, arith, lt→ltb, le→ltb,
}
use shm_comm.Exec.{Action, ok, running, ◌>>=◌}
use shm_comm.Core.Segments.{System}
use shm_comm.Fifo.{Payload}
use shm_comm.Examples.Benchmark.{with_object, closing, counted, truthy, send_loop, recv_loop}

-- So many messages of the same bytes.
abbrev pub copies : Payload → ℕ → List Payload
copies p zero = []
copies p (suc k) = p ∷ copies p k

pub copies-snoc : (p : Payload) (k : ℕ) → copies p k ++ p ∷ [] ≡ copies p (suc k)
copies-snoc p zero = refl
copies-snoc p (suc k) = ap (λ q. p ∷ q) (copies-snoc p k)

pub length-copies : (p : Payload) (k : ℕ) → length (copies p k) ≡ k
length-copies p zero = refl
length-copies p (suc k) = omega (arith, length-copies p k)

pub get_elem?-copies : (p : Payload) (k i : ℕ) → i < k → get_elem? (copies p k) i ≡ some p
get_elem?-copies p zero i h = absurd (omega arith)
get_elem?-copies p (suc k) zero h = refl
get_elem?-copies p (suc k) (suc i) h = get_elem?-copies p k i (omega arith)

module _ {S : Type 0} (send : Action S Bool) (limit : ℕ) (P : ℕ → S → Type 0)
    (accepts : (k : ℕ) (s : S)
      → k < limit
      → P k s
      → (s' : S) × (send s ≡ (ok true, s')) × P (suc k) s') where
  -- While the limit is not reached, every message is accepted.
  send_loop-all :
      (n k c : ℕ) (s : S)
      → k + n ≤ limit
      → P k s
      → (s' : S) × (send_loop send n c s ≡ (ok (c + n), s')) × P (k + n) s'
  unfolding send_loop
  send_loop-all zero k c s h v =
      (s, ap (λ (t : ℕ). (ok t, s)) (omega arith), subst (λ t. P t s) (omega arith) v)
  send_loop-all (suc n) k c s h v =
      let (s', e, v') = accepts k s (omega arith) v in
      let (s'', e', v'') = send_loop-all n (suc k) (c + 1) s' (omega arith) v' in
      (
        s'',
        rw e (e' ∙ ap (λ (t : ℕ). (ok t, s'')) (omega arith)),
        subst (λ t. P t s'') (omega arith) v'',
      )

  pub send_loop-whole :
      (n : ℕ) (s : S) → n ≤ limit → P 0 s → (s' : S) × (send_loop send n 0 s ≡ (ok n, s')) × P n s'
  send_loop-whole n s h v =
      subst (λ (t : ℕ). (s' : S) × (send_loop send n 0 s ≡ (ok t, s')) × P t s') (omega arith)
        (send_loop-all n 0 0 s (omega arith) v)

  ends_there :
      (s : S) → (send s).0 ≡ running → (f : Bool → Action S ℕ) → ((send >>= f) s).0 ≡ running
  ends_there s e f = rw e refl

  -- At the limit a send that does not end holds the loop.
  pub send_loop-stuck :
      ((s : S) → P limit s → (send s).0 ≡ running)
      → (n k c : ℕ) (s : S) → k ≤ limit
      → limit < k + n
      → P k s
      → (send_loop send n c s).0 ≡ running
  unfolding send_loop
  send_loop-stuck stuck zero k c s le lt v = absurd (omega arith)
  send_loop-stuck stuck (suc n) k c s le lt v = elim (ℕ_discrete k limit) [
    | yes last ↦
        ends_there s (stuck s (subst (λ t. P t s) last v)) (λ b. send_loop send n (counted b c))
    | no other ↦
        let (s', e, v') = accepts k s (omega arith) v in
        rw e (send_loop-stuck stuck n (suc k) (c + 1) s' (omega arith) (omega arith) v')
  ]

module _ {S : Type 0} (recv : Action S (Option Payload)) (Q : ℕ → S → Type 0)
    (gives : (k : ℕ) (s : S)
      → Q (suc k) s
      → (s' : S) × (m : Option Payload) × (recv s ≡ (ok m, s')) × (truthy m ≡ true) × Q k s') where
  -- As many messages as are due are received, in as many rounds and one more.
  recv_loop-all :
      (rounds k received : ℕ) (s : S)
      → k < rounds
      → Q k s
      → (s' : S) × (recv_loop recv rounds (received + k) received s ≡ (ok (received + k), s'))
        × Q 0 s'
  unfolding recv_loop
  recv_loop-all zero k received s h v = absurd (omega arith)
  recv_loop-all (suc rounds) zero received s h v = (
    s,
    rw (recv_loop, le→ltb received (received + 0) (omega arith))
        (ap (λ (t : ℕ). (ok t, s)) (omega arith)),
    v,
  )
  recv_loop-all (suc rounds) (suc k) received s h v =
      let (s', m, e, found, v') = gives k s v in
      let (s'', e', v'') = recv_loop-all rounds k (received + 1) s' (omega arith) v' in
      let one_on : received + 1 + k ≡ received + suc k = omega arith in
      (
        s'',
        rw (recv_loop, lt→ltb received (received + suc k) (omega arith), e, found)
            (subst (λ t. recv_loop recv rounds t (received + 1) s' ≡ (ok t, s'')) one_on e'),
        v'',
      )

  pub recv_loop-whole :
      (rounds n : ℕ) (s : S)
      → n < rounds
      → Q n s
      → (s' : S) × (recv_loop recv rounds n 0 s ≡ (ok n, s')) × Q 0 s'
  recv_loop-whole rounds n s h v =
      subst (λ (t : ℕ). (s' : S) × (recv_loop recv rounds t 0 s ≡ (ok t, s')) × Q 0 s')
        (omega arith) (recv_loop-all rounds n 0 s h v)

module _ {O A : Type 0} (close : O → Action System O) (body : Action (O × System) A) (self : O)
    (s : System) where
  pub with_object-ok :
      (a : A) (o o' : O) (s' s'' : System)
      → body (self, s) ≡ (ok a, (o, s'))
      → close o s' ≡ (ok o', s'')
      → with_object close body self s ≡ (ok a, s'')
  unfolding with_object
  with_object-ok a o o' s' s'' e f = rw (e, f) refl

  pub with_object-running :
      (body (self, s)).0 ≡ running → (with_object close body self s).0 ≡ running
  unfolding with_object
  with_object-running e =
      subst (λ o. (closing close (o, (body (self, s)).1)).0 ≡ running) (sym e) refl
