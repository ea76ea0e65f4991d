-- ===== src/Buffer/History.antt =====
-- What the slots behind the head hold: the latest publications, as many as there are slots.
use shm_comm.Prelude.{
  ℕ, zero, suc, ◌+◌, ◌-◌, ◌≤◌, ◌<◌, ◌≡◌, refl, sym, ap, ◌∙◌, List, [], ◌∷◌, ◌++◌, length,
  length-append, drop, drop_all, drop-append, last, first, get_elem?, get_elem?-drop, some, arith,
}
use shm_comm.Memory.{Memory}
use shm_comm.Core.Header.{idx_head, idx_drop_count, get_field}
use shm_comm.Core.Fields.{get_field-set_field_ne}
use shm_comm.Buffer.Fields.{dropped}
use shm_comm.Ring.{window, window_snoc, window_ext}
use shm_comm.Ring.Cursor.{back, back-lt, back-succ, back-add}
use shm_comm.Fifo.{Payload}
use shm_comm.Buffer.Slots.{payload_at, payload_at-set_field}
use shm_comm.Buffer.Segment.{
  IsSegment, committed, head-committed, payload_at-committed_self, payload_at-committed_ne,
}

-- The `d` payloads behind the head of `m`.
unfoldable pub recent : ℕ → ℕ → Memory → ℕ → List Payload
recent n z m d = window (payload_at z m) n (back n (get_field idx_head m) d) d

-- `sent` ends with what the slots behind the head hold, as far back as there are slots.
pub record Keeps (n z : ℕ) (m : Memory) (sent : List Payload) : Type 0 where
  pub latest : (d : ℕ) → d ≤ n → d ≤ length sent → recent n z m d ≡ last d sent

module _ {n z : ℕ} {m : Memory} (s : IsSegment n z m) (p : Payload) (room : length p + 4 ≤ z) where
  open s use {some_slot, head_in}

  recent-zero : (m : Memory) → recent n z m 0 ≡ []
  unfolding recent window
  recent-zero m = refl

  recent-committed :
      (d : ℕ) → d < n → recent n z (committed n z p m) (suc d) ≡ recent n z m d ++ p ∷ []
  unfolding recent
  recent-committed d lt =
      ap (λ h. window (payload_at z (committed n z p m)) n (back n h (suc d)) (suc d))
        (head-committed s p room)
      ∙ ap (λ c. window (payload_at z (committed n z p m)) n c (suc d))
          (back-succ n (get_field idx_head m) d head_in lt)
      ∙ window_snoc (payload_at z m) (payload_at z (committed n z p m)) p n d
          (back n (get_field idx_head m) d) (get_field idx_head m)
          (back-lt n (get_field idx_head m) d head_in) lt
          (sym (back-add n (get_field idx_head m) d head_in lt))
          (λ j j_in ne. payload_at-committed_ne s p room j j_in ne)
          (payload_at-committed_self s p room)

  last-snoc :
      (d : ℕ) (sent : List Payload)
      → d ≤ length sent
      → last (suc d) (sent ++ p ∷ []) ≡ last d sent ++ p ∷ []
  last-snoc d sent le =
      ap (λ k. drop k (sent ++ p ∷ [])) (omega (arith, length-append sent (p ∷ [])))
      ∙ drop-append sent (p ∷ []) (length sent - d) (omega arith)

  -- A committed write is one more publication.
  pub Keeps-committed :
      (sent : List Payload) → Keeps n z m sent → Keeps n z (committed n z p m) (sent ++ p ∷ [])
  Keeps-committed sent k = record { latest = go }
    where
      go :
          (d : ℕ)
          → d ≤ n
          → d ≤ length (sent ++ p ∷ [])
          → recent n z (committed n z p m) d ≡ last d (sent ++ p ∷ [])
      go zero a b =
          recent-zero (committed n z p m) ∙ sym (drop_all (sent ++ p ∷ []) _ (omega arith))
      go (suc d) a b =
          recent-committed d (omega arith)
          ∙ ap (λ q. q ++ p ∷ [])
              (k.latest d (omega arith) (omega (arith, length-append sent (p ∷ []))))
          ∙ sym (last-snoc d sent (omega (arith, length-append sent (p ∷ []))))

-- The payload `d + 1` slots behind the head is the publication that many from the end.
pub Keeps-payload_at :
    {n z : ℕ} {m : Memory} {sent : List Payload} (d : ℕ)
    → Keeps n z m sent
    → d < n
    → d < length sent
    → some (payload_at z m (back n (get_field idx_head m) (suc d)))
      ≡ get_elem? sent (length sent - suc d)
unfolding recent window
Keeps-payload_at {sent} d k a b =
    ap first (k.latest (suc d) a b) ∙ get_elem?-drop sent (length sent - suc d)

-- Nothing is asked of the slots while nothing was sent.
pub Keeps-nil : (n z : ℕ) (m : Memory) → Keeps n z m []
unfolding recent window
Keeps-nil n z m = record { latest = λ d a b. nothing d (omega arith) }
  where
    nothing : (d : ℕ) → d ≡ 0 → recent n z m d ≡ last d []
    nothing zero e = refl
    nothing (suc d) e = absurd (omega arith)

-- Counting a refused write changes no slot and no cursor.
pub Keeps-dropped :
    {n z : ℕ} {m : Memory} {sent : List Payload}
    → get_field idx_head m < n
    → Keeps n z m sent
    → Keeps n z (dropped m) sent
unfolding recent dropped
Keeps-dropped {n} {z} {m} {sent} h_in k = record {
  latest = λ d a b.
      ap (λ h. window (payload_at z (dropped m)) n (back n h d) d)
        (get_field-set_field_ne idx_drop_count idx_head _ m (omega arith))
      ∙ window_ext (payload_at z m) (payload_at z (dropped m)) n (back n (get_field idx_head m) d) d
          (back-lt n (get_field idx_head m) d h_in)
          (λ j lt. payload_at-set_field z idx_drop_count _ m j (omega arith))
      ∙ k.latest d a b;
}
