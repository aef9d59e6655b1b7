-- ===== src/Connection/Conn/Nonces.antt =====
-- crates/connection/src/connection.rs: the nonces under which payloads are processed.
use riftnet_rust.Base.{
  ℕ, ◌+◌, ◌%◌, ◌^◌, ◌<◌, ◌≡◌, Bool, true, false, Option, none, some, List, [], ◌∷◌, ◌++◌, length,
  arith, if◌then◌else◌,
}
use riftnet_rust.Base.Bytes.{to_le_bytes, take_bytes}
use riftnet_rust.Core.{ok}
use riftnet_rust.Float.{F32}
use riftnet_rust.Protocol.Reliable
use riftnet_rust.Protocol.Reliable.{resend_loop, process_retransmissions}
use riftnet_rust.Connection.Pipeline.{NetworkPipeline}
use riftnet_rust.Connection.Conn.{
  Connection, new, queue_pending_send, get_tx_nonce, reliable_frame, flush_reliable,
  flush_unreliable, flush_one, flush_queue, swap_pipeline, update,
}
use riftnet_rust.Connection.Conn.Queue.{IsValid}
use riftnet_rust.Connection.Conn.Flush.{update-Updated}
use riftnet_rust.Connection.Conn.Numbers.{sendable}

module _ {A F : Type 0} ⦃f : F32 F⦄ where
  -- The nonces of unreliable packets are odd on a server's connection and even on a client's.
  abbrev pub HasParity : Connection A F → Type 0
  HasParity c = c.tx_nonce % 2 ≡ (if c.is_server then 1 else 0)

  -- The counter of a new connection is odd for a server and even for a client. Queueing a payload
  -- keeps this, and so does a flush of a valid queue in which every unreliable payload has its
  -- header, with counters in the range of their types.
  pub parity_kept :
      (now later : ℕ) (a : A) (is_server : Bool) (p : NetworkPipeline) (c : Connection A F)
      (payload : List ℕ) (reliable : Bool)
      → HasParity c
      → IsValid c
      → c.state.next_outgoing_sequence < 2 ^ 16
      → c.tx_nonce < 2 ^ 64
      → sendable c.pending_queue ≡ true
      → HasParity (new {F = F} now a is_server p)
        × HasParity (queue_pending_send c payload reliable)
        × ((c' : Connection A F) × (sent : List (List ℕ)) × (update c later ≡ some (c', sent))
            × HasParity c')
  unfolding new queue_pending_send
  parity_kept now later a is_server p c payload reliable par v hn ht ready =
      let (c', sent, e, up, _) = update-Updated c later v hn ht ready in
      (ground arith, ground arith, (c', sent, e, ground (arith, up)))

  -- The payloads that an update sends.
  abbrev pub sent_by : Option (Connection A F × List (List ℕ)) → Option (List (List ℕ))
  sent_by none = none
  sent_by (some (c, sent)) = some sent

-- On a new server's connection with a payload sent reliably and then one sent unreliably, less than
-- 1000 bytes together, one flush sends both, each processed by the same pipeline under the nonce 1.
pub nonce_shared :
    {A : Type 0} (F : Type 0) ⦃f : F32 F⦄ (now later : ℕ) (a : A) (p : NetworkPipeline)
    (first body sealed_first sealed_body : List ℕ) (code : ℕ)
    → length first + length body < 1000
    → p.process first 1 ≡ ok sealed_first
    → p.process body 1 ≡ ok sealed_body
    → let c = new {F = F} now a true p in
      sent_by
        (update (queue_pending_send (queue_pending_send c first true) (code ∷ body) false) later)
      ≡ some
          (reliable_frame c sealed_first ∷ ((code ∷ []) ++ (to_le_bytes 8 1 ++ sealed_body)) ∷ [])
unfolding new Reliable.new queue_pending_send update process_retransmissions resend_loop flush_queue
    flush_one flush_reliable flush_unreliable take_bytes get_tx_nonce swap_pipeline reliable_frame
nonce_shared F now later a p first body s1 s2 code small e1 e2 = ground arith
