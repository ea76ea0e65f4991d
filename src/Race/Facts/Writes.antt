-- ===== src/Race/Facts/Writes.antt =====
-- A turn of the writer, for the queue and for the others.
use shm_comm.Prelude.{ℕ, ◌≡◌, sym, subst, inl, inr, ◌++◌, append-nil}
use shm_comm.Memory.{Memory}
use shm_comm.Buffer.Segment.{IsSegment}
use shm_comm.Buffer.Queue.{contents}
use shm_comm.Race.{WriterPc, ReaderPc, writer_turn, published}
use shm_comm.Race.Facts.{Free, WriterFact, ReaderFact}
use shm_comm.Race.Facts.Calm.{Calm-IsSegment, Calm-contents, Calm-ReaderFact}
use shm_comm.Race.Facts.Cursors.{advanced-IsSegment, contents-advanced, advanced-ReaderFact}
use shm_comm.Race.Facts.Stores.{Stepped, writer_turn-Stepped}

-- What a turn from `pc` on `m` leaves behind.
pub record Wrote (n z : ℕ) (m : Memory) (pc : WriterPc) (r : WriterPc × Memory) : Type 0 where
  pub segment : IsSegment n z r.1
  pub grown : contents n z r.1 ≡ contents n z m ++ published pc
  pub knows : WriterFact n z r.1 r.0
  pub others : (pc' : ReaderPc) → ReaderFact n z m pc' → ReaderFact n z r.1 pc'

module _ {n z : ℕ} {m : Memory} (s : IsSegment n z m) where
  wrote : (pc : WriterPc) (r : WriterPc × Memory) → Stepped (Free n) n z m pc r → Wrote n z m pc r
  wrote pc r (inl (c, e, f)) = record {
    segment = Calm-IsSegment s c;
    grown = rw (e, append-nil (contents n z m)) (Calm-contents s c);
    knows = f;
    others = Calm-ReaderFact s c;
  }
  wrote pc r (inr p) = subst (Wrote n z m pc) (sym p.turn) (record {
    segment = advanced-IsSegment s;
    grown = rw (p.named, ← p.held) (contents-advanced s p.room);
    knows = tt;
    others = advanced-ReaderFact s p.room;
  })

  pub writer_turn-Wrote : (pc : WriterPc) → WriterFact n z m pc → Wrote n z m pc (writer_turn pc m)
  writer_turn-Wrote pc f =
      wrote pc (writer_turn pc m) (writer_turn-Stepped (Free n) s (λ h t room. room) pc f)
