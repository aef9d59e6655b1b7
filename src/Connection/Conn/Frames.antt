-- ===== src/Connection/Conn/Frames.antt =====
-- crates/connection/src/connection.rs: the datagrams that a flush of the queue sends.
use riftnet_rust.Base.{ℕ, ◌+◌, ◌≡◌, Option, none, some, List, [], ◌∷◌, ◌++◌, arith, if◌then◌else◌}
use riftnet_rust.Base.Bits.{u16, u64}
use riftnet_rust.Base.Bytes.{to_le_bytes, take_bytes}
use riftnet_rust.Core.{ok, err}
use riftnet_rust.Float.{F32}
use riftnet_rust.Protocol.Packet.{reliability_bytes, general_bytes}
use riftnet_rust.Connection.Pipeline.{NetworkPipeline}
use riftnet_rust.Connection.Conn.{
  PendingSend, Connection, get_tx_nonce, reliable_frame, flush_reliable, flush_unreliable,
  flush_one, send_some, flush_queue,
}
use riftnet_rust.Connection.Conn.Numbers.{flush_one-Numbers}
use riftnet_rust.Connection.Conn.Numbers.{flush_queue-cons}

-- What the reliable packet of number `seq` is on the wire: the general header, the number with the
-- acknowledgement, and the payload processed under the number. Nothing is sent if that fails.
abbrev pub reliable_datagram : NetworkPipeline → ℕ → ℕ → ℕ → List ℕ → Option (List ℕ)
reliable_datagram p ack bits seq payload = elim (p.process payload seq) [
  | err e ↦ none
  | ok processed ↦
      some (1 ∷ (to_le_bytes 2 seq ++ (to_le_bytes 2 ack ++ (to_le_bytes 4 bits ++ processed))))
]

-- What an unreliable packet is: its first byte, the nonce, and the rest processed under the nonce.
abbrev pub unreliable_datagram : NetworkPipeline → ℕ → List ℕ → Option (List ℕ)
unreliable_datagram p nonce [] = none
unreliable_datagram p nonce (packet_type ∷ body) = elim (p.process body nonce) [
  | err e ↦ none
  | ok processed ↦ some (packet_type ∷ (to_le_bytes 8 nonce ++ processed))
]

-- The datagrams of a queue: reliable packets are numbered from `seq` on, modulo 2^16, and
-- unreliable ones take every second nonce from `nonce` on, modulo 2^64.
abbrev pub datagrams : NetworkPipeline → ℕ → ℕ → ℕ → ℕ → List PendingSend → List (List ℕ)
datagrams p ack bits seq nonce [] = []
datagrams p ack bits seq nonce (ps ∷ rest) =
    if ps.reliable
    then send_some (reliable_datagram p ack bits seq ps.payload)
        (datagrams p ack bits (u16 (seq + 1)) nonce rest)
    else send_some (unreliable_datagram p nonce ps.payload)
        (datagrams p ack bits seq (u64 (nonce + 2)) rest)

module _ {A F : Type 0} ⦃f : F32 F⦄ where
  -- Those of a connection's flush.
  abbrev pub datagrams_of : Connection A F → List PendingSend → List (List ℕ)
  datagrams_of c q =
      datagrams c.pipeline c.state.highest_received_sequence c.state.received_sequence_bitfield
        c.state.next_outgoing_sequence c.tx_nonce q

  flush_one-datagram :
      (c c' : Connection A F) (now : ℕ) (ps : PendingSend) (out : Option (List ℕ))
      → flush_one c now ps ≡ some (c', out)
      → out ≡ (
          if ps.reliable
          then reliable_datagram c.pipeline c.state.highest_received_sequence
              c.state.received_sequence_bitfield c.state.next_outgoing_sequence ps.payload
          else unreliable_datagram c.pipeline c.tx_nonce ps.payload)
  unfolding flush_one flush_reliable flush_unreliable get_tx_nonce take_bytes reliable_frame
      general_bytes reliability_bytes to_le_bytes
  flush_one-datagram c c' now ps out e = ground (arith, e)

  pub flush_queue-datagrams :
      (q : List PendingSend) (c c' : Connection A F) (now : ℕ) (sent : List (List ℕ))
      → flush_queue c now q ≡ some (c', sent)
      → sent ≡ datagrams_of c q
  unfolding flush_queue
  flush_queue-datagrams [] c c' now sent e = ground (arith, e)
  flush_queue-datagrams (ps ∷ rest) c c' now sent e =
      let (m, out, sent', first, others, split) = flush_queue-cons c c' now ps rest sent e in
      let n = flush_one-Numbers (record c { pending_queue = rest }) m now ps out first in
      let one = flush_one-datagram (record c { pending_queue = rest }) m now ps out first in
      let tail = flush_queue-datagrams rest m c' now sent' others in
      ground (arith, n, one, tail, split)
