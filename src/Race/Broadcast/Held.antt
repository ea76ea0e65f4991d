-- ===== src/Race/Broadcast/Held.antt =====
-- What the ring holds while the writer goes on: the newest payloads, each in its slot.
use shm_comm.Prelude.{
  ℕ, ◌+◌, ◌%◌, ◌<◌, ◌≡◌, inl, inr, refl, sym, ap, subst, ◌∙◌, Bool, true, false, some, List, [],
  ◌∷◌, ◌++◌, append-nil, length, length-append, get_elem?, get_elem?-append, get_elem?_last, arith,
  le→leb, lt→leb, dec_le, ℕ_discrete,
}
use shm_comm.Memory.{Memory}
use shm_comm.Core.Header.{idx_head, get_header, field}
use shm_comm.Fifo.{Payload}
use shm_comm.Buffer.Slots.{payload_at, payload_at-set_field}
use shm_comm.Buffer.Segment.{IsSegment}
use shm_comm.Buffer.Queue.{head_of}
use shm_comm.Race.{WriterPc, published}
use shm_comm.Race.Facts.{Free, WriterFactIn}
use shm_comm.Race.Facts.Cursors.{advanced, head-advanced, advanced-IsSegment}
use mathlib.Core.Option.{some-injective}
use shm_comm.Race.Facts.Calm.{Calm, Calm-IsSegment}
use shm_comm.Race.Facts.Stores.{Stepped, looked, writer_turn-Stepped}
use shm_comm.Race.Broadcast.{any_turn, start_turn}
use shm_comm.Race.Broadcast.Places.{slot_of, slot_of-lt, slot_of-ne, slot_of-suc, lt-get_elem?}

-- What the writer was told about room: with `overwrite` nothing.
abbrev pub Room : Bool → ℕ → ℕ → ℕ → Type 0
Room true n h t = Unit
Room false n h t = Free n h t

pub record Held (n z base : ℕ) (m : Memory) (sent : List Payload) : Type 0 where
  pub segment : IsSegment n z m
  pub head : head_of m ≡ slot_of n base (length sent)
  pub kept :
      (k : ℕ) (p : Payload)
      → get_elem? sent k ≡ some p
      → length sent < k + n
      → payload_at z m (slot_of n base k) ≡ p

module _ (overwrite : Bool) {n z : ℕ} {m : Memory} (s : IsSegment n z m) where
  give : (o : Bool) (h t : ℕ) → Free n h t → Room o n h t
  give true h t f = tt
  give false h t f = f

  start_turn-Stepped :
      (o : Bool) (p : Payload) (b : Bool)
      → Stepped (Room o n) n z m (WriterPc.starting p b) (start_turn o p b m)
  unfolding get_header field
  start_turn-Stepped false p b =
      writer_turn-Stepped (Room false n) s (give false) (WriterPc.starting p b) tt
  start_turn-Stepped true p b = elim (dec_le (length p + 4) z) [
    | yes room ↦
        rw (le→leb 128 m.size (omega arith), s.slot_size, le→leb (length p + 4) z room, s.num_slots)
          (looked (Room true n) s (WriterPc.starting p b) _ refl ((refl, refl, room), tt))
    | no big ↦
        rw (le→leb 128 m.size (omega arith), s.slot_size, lt→leb (length p + 4) z (omega arith))
          (looked (Room true n) s (WriterPc.starting p b) _ refl tt)
  ]

  pub any_turn-Stepped :
      (pc : WriterPc)
      → WriterFactIn (Room overwrite n) n z m pc
      → Stepped (Room overwrite n) n z m pc (any_turn overwrite pc m)
  unfolding any_turn
  any_turn-Stepped (WriterPc.starting p b) f = start_turn-Stepped overwrite p b
  any_turn-Stepped WriterPc.ready f =
      writer_turn-Stepped (Room overwrite n) s (give overwrite) WriterPc.ready f
  any_turn-Stepped (WriterPc.looking l) f =
      writer_turn-Stepped (Room overwrite n) s (give overwrite) (WriterPc.looking l) f
  any_turn-Stepped (WriterPc.compared l h) f =
      writer_turn-Stepped (Room overwrite n) s (give overwrite) (WriterPc.compared l h) f
  any_turn-Stepped (WriterPc.waiting l) f =
      writer_turn-Stepped (Room overwrite n) s (give overwrite) (WriterPc.waiting l) f
  any_turn-Stepped WriterPc.dropping f =
      writer_turn-Stepped (Room overwrite n) s (give overwrite) WriterPc.dropping f
  any_turn-Stepped (WriterPc.filling l) f =
      writer_turn-Stepped (Room overwrite n) s (give overwrite) (WriterPc.filling l) f
  any_turn-Stepped (WriterPc.placing l h k) f =
      writer_turn-Stepped (Room overwrite n) s (give overwrite) (WriterPc.placing l h k) f
  any_turn-Stepped (WriterPc.copying l h k) f =
      writer_turn-Stepped (Room overwrite n) s (give overwrite) (WriterPc.copying l h k) f
  any_turn-Stepped (WriterPc.publishing l k) f =
      writer_turn-Stepped (Room overwrite n) s (give overwrite) (WriterPc.publishing l k) f
  any_turn-Stepped WriterPc.counting f =
      writer_turn-Stepped (Room overwrite n) s (give overwrite) WriterPc.counting f
  any_turn-Stepped WriterPc.failed f =
      writer_turn-Stepped (Room overwrite n) s (give overwrite) WriterPc.failed f

module _ {n z base : ℕ} {m : Memory} {sent : List Payload} (v : Held n z base m sent) where
  pub Calm-Held : {m' : Memory} → Calm n z m m' → Held n z base m' sent
  Calm-Held c = record {
    segment = Calm-IsSegment v.segment c;
    head = c.head ∙ v.head;
    kept = λ k p e near.
        c.payloads (slot_of n base k) (slot_of-lt n base k (omega (arith, v.segment.some_slot)))
          (λ q. slot_of-ne n base k (length sent) (lt-get_elem? sent k p e) near (sym q ∙ v.head))
        ∙ v.kept k p e near;
  }

  kept_on :
      (p : Payload)
      → payload_at z m (head_of m) ≡ p
      → (k : ℕ) (q : Payload) → get_elem? (sent ++ p ∷ []) k ≡ some q
      → length (sent ++ p ∷ []) < k + n
      → payload_at z m (slot_of n base k) ≡ q
  kept_on p e k q h near = elim (ℕ_discrete k (length sent)) [
    | yes last ↦
        ap (λ j. payload_at z m (slot_of n base j)) last
        ∙ ap (payload_at z m) (sym v.head)
        ∙ e
        ∙ some-injective _ _
            (sym (get_elem?_last sent p) ∙ ap (get_elem? (sent ++ p ∷ [])) (sym last) ∙ h)
    | no other ↦
        let lt : k < length sent =
          omega (arith, lt-get_elem? (sent ++ p ∷ []) k q h, length-append sent (p ∷ [])) in
        v.kept k q (sym (get_elem?-append sent (p ∷ []) k lt) ∙ h)
          (omega (arith, length-append sent (p ∷ [])))
  ]

  advanced-Held :
      (p : Payload)
      → payload_at z m (head_of m) ≡ p
      → Held n z base (advanced v.segment) (sent ++ p ∷ [])
  advanced-Held p e = record {
    segment = advanced-IsSegment v.segment;
    head =
        head-advanced v.segment
        ∙ ap (λ (h : ℕ). (h + 1) % n) v.head
        ∙ slot_of-suc n base (length sent)
        ∙ ap (slot_of n base) (omega (arith, length-append sent (p ∷ [])));
    kept =
        λ k q h near. payload_at-set_field z idx_head _ m _ (omega arith) ∙ kept_on p e k q h near;
  }

  pub Stepped-Held :
      (R : ℕ → ℕ → Type 0) (pc : WriterPc) (r : WriterPc × Memory)
      → Stepped R n z m pc r
      → Held n z base r.1 (sent ++ published pc) × WriterFactIn R n z r.1 r.0
  Stepped-Held R pc r (inl (c, e, f)) = (rw (e, append-nil) (Calm-Held c), f)
  Stepped-Held R pc r (inr p) = (
    subst (λ ps. Held n z base r.1 (sent ++ ps)) (sym p.named)
        (subst (λ (x : WriterPc × Memory). Held n z base x.1 (sent ++ p.payload ∷ [])) (sym p.turn)
          (advanced-Held p.payload p.held)),
    subst (λ (x : WriterPc × Memory). WriterFactIn R n z x.1 x.0) (sym p.turn) tt,
  )
