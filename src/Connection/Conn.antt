-- ===== src/Connection/Conn.antt =====
-- crates/connection/src/connection.rs: `Connection`, one peer with its queue, pipeline and state.
-- `usize` has 64 bits. A panic is `none`; what `send_func` is called with is a list, in order.
pub mod Queue
pub mod Numbers
pub mod Frames
pub mod Flush
pub mod Nonces
use riftnet_rust.Base.{
  ℕ, zero, suc, ◌+◌, ◌-◌, ◌*◌, ◌%◌, ◌^◌, Bool, true, false, Option, none, some, List, [], ◌∷◌, ◌++◌,
  length, ltb, if◌then◌else◌,
}
use riftnet_rust.Base.Bits.{u16, u64}
use riftnet_rust.Base.Bytes.{to_le_bytes, take_bytes}
use riftnet_rust.Core.{Result, ok, err}
use riftnet_rust.Float.{F32}
use riftnet_rust.Protocol.Packet.{
  PacketType, packet_code, GeneralPacketHeader, ReliabilityPacketHeader, as_bytes, general_wire,
  reliability_wire, size_of,
}
use riftnet_rust.Protocol.Reliable
use riftnet_rust.Protocol.Reliable.{ReliableConnectionState, UnackedPacket, process_retransmissions}
use riftnet_rust.Connection.Replay.{AntiReplayWindow}
use riftnet_rust.Connection.Pipeline.{NetworkPipeline}

pub record PendingSend : Type 0 where
  pub payload : List ℕ
  pub reliable : Bool

-- `A` is the type of socket addresses.
pub record Connection (A F : Type 0) : Type 0 where
  pub endpoint : A
  pub is_server : Bool
  pub state : ReliableConnectionState F
  pub last_seen : ℕ
  pub rx_nonce_tracker : AntiReplayWindow
  pub tx_nonce : ℕ
  pub pending_queue : List PendingSend
  pub pending_bytes : ℕ
  pub handshake_sent : Bool
  pub max_pending_bytes : ℕ
  pub pipeline : NetworkPipeline
  pub pending_pipeline_swap : Option NetworkPipeline
  pub is_authenticated : Bool

-- A packet that was dropped is not sent.
abbrev pub send_some : Option (List ℕ) → List (List ℕ) → List (List ℕ)
send_some none sent = sent
send_some (some out) sent = out ∷ sent

module _ {A F : Type 0} ⦃f : F32 F⦄ where
  unfoldable pub new : ℕ → A → Bool → NetworkPipeline → Connection A F
  unfolding Reliable.new
  new now endpoint is_server pipeline = record {
    endpoint = endpoint;
    is_server = is_server;
    state = Reliable.new now;
    last_seen = now;
    rx_nonce_tracker = record { highest_nonce = 0; window = 0 };
    tx_nonce = if is_server then 1 else 0;
    pending_queue = [];
    pending_bytes = 0;
    handshake_sent = false;
    max_pending_bytes = 1024 * 1024;
    pipeline = pipeline;
    pending_pipeline_swap = none;
    is_authenticated = false;
  }

  unfoldable pub queue_pending_send : Connection A F → List ℕ → Bool → Connection A F
  queue_pending_send c payload reliable =
      let size = length payload in
      if ltb c.max_pending_bytes (u64 (c.pending_bytes + size)) then c else record c {
        pending_queue = c.pending_queue ++ (record { payload = payload; reliable = reliable } ∷ []);
        pending_bytes = u64 (c.pending_bytes + size);
      }

  -- The nonce, and the connection afterwards.
  unfoldable pub get_tx_nonce : Connection A F → ℕ × Connection A F
  get_tx_nonce c = (c.tx_nonce, record c { tx_nonce = u64 (c.tx_nonce + 2) })

  -- The bytes of a reliable packet: both headers, then the processed payload.
  unfoldable pub reliable_frame : Connection A F → List ℕ → List ℕ
  reliable_frame c encrypted =
      let gen_hdr : GeneralPacketHeader = record {
        packet_type = packet_code PacketType.reliable;
      } in
      let rel_hdr : ReliabilityPacketHeader = record {
        sequence = c.state.next_outgoing_sequence;
        ack = c.state.highest_received_sequence;
        ack_bitfield = c.state.received_sequence_bitfield;
      } in
      as_bytes gen_hdr ++ (as_bytes rel_hdr ++ encrypted)

  -- A reliable packet of the queue: the connection afterwards, and what is sent if the pipeline
  -- does not fail.
  unfoldable pub flush_reliable : Connection A F → ℕ → List ℕ → Connection A F × Option (List ℕ)
  flush_reliable c now payload =
      let seq = c.state.next_outgoing_sequence in
      let state = record c.state { next_outgoing_sequence = u16 (seq + 1) } in
      elim (c.pipeline.process payload seq) [
        | err e ↦ (record c { state = state }, none)
        | ok encrypted ↦
            (let out = reliable_frame c encrypted in
              (
                record c {
                  state = record state {
                    unacknowledged_packets =
                        state.unacknowledged_packets
                        ++ (record { sequence = seq; time_sent = now; payload = out; retries = 0 }
                            ∷ []);
                  };
                },
                some out,
              ))
      ]

  -- An unreliable packet: its first byte is the header, and a payload without one panics.
  unfoldable pub flush_unreliable :
      Connection A F → List ℕ → Option (Connection A F × Option (List ℕ))
  flush_unreliable c payload = elim (take_bytes (size_of GeneralPacketHeader) payload) [
    | none ↦ none
    | some (gen_hdr, body) ↦
        (let (nonce, c') = get_tx_nonce c in
          elim (c.pipeline.process body nonce) [
            | err e ↦ some (c', none)
            | ok encrypted ↦ some (c', some (gen_hdr ++ (to_le_bytes 8 nonce ++ encrypted)))
          ])
  ]

  -- One round of the loop, on the packet that was popped.
  unfoldable pub flush_one :
      Connection A F → ℕ → PendingSend → Option (Connection A F × Option (List ℕ))
  flush_one c now ps =
      let c' = record c { pending_bytes = u64 (c.pending_bytes + 2 ^ 64 - length ps.payload) } in
      if ps.reliable
      then some (flush_reliable c' now ps.payload)
      else flush_unreliable c' ps.payload

  -- The loop over the queue.
  unfoldable pub flush_queue :
      Connection A F → ℕ → List PendingSend → Option (Connection A F × List (List ℕ))
  flush_queue c now [] = some (record c { pending_queue = [] }, [])
  flush_queue c now (ps ∷ rest) = elim (flush_one (record c { pending_queue = rest }) now ps) [
    | none ↦ none
    | some (c', out) ↦ elim (flush_queue c' now rest) [
      | none ↦ none
      | some (c'', sent) ↦ some (c'', send_some out sent)
    ]
  ]

  -- The swap of the pipeline waits for the end of the flush.
  unfoldable pub swap_pipeline : Connection A F → Connection A F
  swap_pipeline c = elim c.pending_pipeline_swap [
    | none ↦ c
    | some p ↦ record c { pipeline = p; pending_pipeline_swap = none }
  ]

  unfoldable pub update : Connection A F → ℕ → Option (Connection A F × List (List ℕ))
  update c now =
      let (state, resends) = process_retransmissions c.state now in
      elim (flush_queue (record c { state = state }) now c.pending_queue) [
        | none ↦ none
        | some (c', sent) ↦ some (swap_pipeline c', resends ++ sent)
      ]
