-- ===== src/ReqRep/Service/Links.antt =====
-- One write and one read on an object of the system that is a box.
use shm_comm.Prelude.{ℕ, suc, ◌+◌, ◌-◌, ◌%◌, ◌≡◌, ◌∙◌, ◌≢◌, false, Option, none}
use shm_comm.Exec.{ok}
use shm_comm.Exec.Spin.{World}
use shm_comm.Memory.{Memory}
use shm_comm.Core.Segments.{System, SharedMemory}
use shm_comm.Core.Objects.{
  on_object-outcome, objects-on_object_self, objects-on_object_ne, on_object-same,
}
use shm_comm.Fifo.{Payload}
use shm_comm.Mailbox
use shm_comm.Mailbox.{Mailbox}
use shm_comm.Buffer.{write_message, read_message_spsc}
use shm_comm.Buffer.Exchange.{Posted, write_message-post, read_message_spsc-take}
use shm_comm.Buffer.Subscription.{with_cursor}
use shm_comm.Serialize.{Method}
use shm_comm.Patterns.{on_shm}
use shm_comm.Patterns.Objects.{IsOpen, on_shm-IsOpen}
use shm_comm.ReqRep.Service.{Service, Boxes}

-- The two objects of the service are open at both ends, and hold the two boxes.
pub record Linked (n z i k : ℕ) (req_method rep_method : Method) (c : Service) (b : Boxes)
    : Type 0 where
  pub apart : i ≢ k
  pub req_out : IsOpen c.requester.req_shm i
  pub req_in : IsOpen c.replier.req_shm i
  pub rep_out : IsOpen c.replier.rep_shm k
  pub rep_in : IsOpen c.requester.rep_shm k
  pub requests_by : c.requester.serialization ≡ req_method
  pub replies_by : c.replier.serialization ≡ rep_method
  pub requests : Posted n z (c.system.objects i) c.replier.req_tail b.requests
  pub replies : Posted n z (c.system.objects k) c.requester.rep_tail b.replies

module _ {n z i cursor : ℕ} {shm : Option SharedMemory} {b : Mailbox} (s : System)
    (open_at : IsOpen shm i) (t : Posted n z (s.objects i) cursor b) where
  -- A write posts, and touches no other object.
  pub on_shm-post :
      (w : World Memory) (fuel : ℕ) (p : Payload)
      → let r = on_shm shm (write_message w (suc fuel) p false none false) s in
        (r.0 ≡ (Mailbox.post (n - 1) (z - 4) p b).0)
        × Posted n z (r.1.objects i) cursor (Mailbox.post (n - 1) (z - 4) p b).1
        × ((j : ℕ) → i ≢ j → r.1.objects j ≡ s.objects j)
  on_shm-post w fuel p =
      let act = write_message w (suc fuel) p false none false in
      let (e, t') = write_message-post t w fuel p none in
      rw (on_shm-IsOpen open_at act s) (
        on_object-outcome i act s ∙ e,
        rw (objects-on_object_self i act s) t',
        objects-on_object_ne i act s,
      )

  -- A read takes, and changes nothing in the system.
  pub on_shm-take :
      on_shm shm (read_message_spsc cursor) s
      ≡ (ok (with_cursor (Mailbox.take b).0 ((cursor + 1) % n)), s)
  on_shm-take =
      on_shm-IsOpen open_at (read_message_spsc cursor) s
      ∙ on_object-same i (read_message_spsc cursor) s _ (read_message_spsc-take t).0
