-- ===== src/Tests/Managers.antt =====
-- The manager on concrete peers and packets.
use riftnet_rust.Base.{ℕ, ◌≡◌, refl, true, false, Option, none, some, List, [], ◌∷◌, arith}
use riftnet_rust.Base.Bytes.{to_le_bytes, from_le_bytes, take_bytes}
use riftnet_rust.Protocol.Packet.{read_general, general_bytes, reliability_bytes}
use riftnet_rust.Protocol.Packet.RoundTrip.{FitsReliabilityPacketHeader}
use riftnet_rust.Protocol.Reliable
use riftnet_rust.Connection.Pipeline.{null_pipeline}
use riftnet_rust.Connection.Conn.{Connection, new, flush_reliable, reliable_frame}
use riftnet_rust.Connection.Table.{lookup, put}
use riftnet_rust.Connection.Receive.{read_inner_handshake}
use riftnet_rust.Connection.Manager.{ConnectionManager, handle_packet}
use riftnet_rust.Connection.Manager.Safety.{handle_packet_total}
use riftnet_rust.Connection.Manager.Delivery.{Undoes}
use riftnet_rust.Connection.Manager.ReliableDelivery.{
  next_header, note_header, reliable_delivered, reliable_duplicated,
}
use riftnet_rust.Tests.{thousandths, stored, tagged, numbered}

-- A client's connection to the server at address 1, seen at 0, and a manager that knows it.
abbrev client_side : Connection ℕ ℕ
client_side = new 0 1 false null_pipeline

abbrev one_peer : ConnectionManager ℕ ℕ
one_peer = record { connections = (1, client_side) ∷ [] }

-- The sender, and the frame of its first unreliable packet.
abbrev server_side : Connection ℕ ℕ
server_side = new 0 2 true null_pipeline

handle_packet_total_example :
    (m' : ConnectionManager ℕ ℕ) × (reply : Option (List ℕ)) × (handle_packet one_peer 5
        (1 ∷ 2 ∷ [])
        0
        77
      ≡ some (m', reply))
handle_packet_total_example = handle_packet_total one_peer 5 (1 ∷ 2 ∷ []) 0 77

plain-Undoes : Undoes client_side.pipeline server_side.pipeline
unfolding new
plain-Undoes bytes nonce sent e = ground arith

client_found : lookup 1 one_peer.connections ≡ some client_side
unfolding lookup
client_found = refl

-- The frame of the first reliable packet, with the payload 8, 9.
abbrev reliable_bytes : List ℕ
reliable_bytes = 1 ∷ (1 ∷ 0 ∷ 0 ∷ 0 ∷ 0 ∷ 0 ∷ 0 ∷ 0 ∷ 8 ∷ 9 ∷ [])

reliable_sent :
    flush_reliable server_side 3 (8 ∷ 9 ∷ [])
    ≡ ((flush_reliable server_side 3 (8 ∷ 9 ∷ [])).0, some reliable_bytes)
unfolding new Reliable.new flush_reliable reliable_frame general_bytes reliability_bytes to_le_bytes
reliable_sent = refl

header_fits : FitsReliabilityPacketHeader (next_header server_side)
unfolding new Reliable.new
header_fits = record {
  sequence_fits = omega arith;
  ack_fits = omega arith;
  ack_bitfield_fits = omega arith;
}

no_handshake : read_inner_handshake (8 ∷ 9 ∷ []) ≡ some none
unfolding read_inner_handshake read_general take_bytes from_le_bytes
no_handshake = refl

reliable_delivered_example :
    handle_packet one_peer 1 reliable_bytes 20 0
    ≡ some (
      record {
        connections =
            put 1
              (note_header (record client_side { last_seen = 20 }) (next_header server_side) 20)
              one_peer.connections;
      },
      some (8 ∷ 9 ∷ []),
    )
reliable_delivered_example =
    reliable_delivered server_side (flush_reliable server_side 3 (8 ∷ 9 ∷ [])).0 client_side
      one_peer 1 (8 ∷ 9 ∷ []) reliable_bytes 3 20 0 header_fits plain-Undoes no_handshake
      reliable_sent client_found

reliable_duplicated_example :
    (m1 : ConnectionManager ℕ ℕ) × (m2 : ConnectionManager ℕ ℕ) × (handle_packet one_peer 1
        reliable_bytes 20 0
      ≡ some (m1, some (8 ∷ 9 ∷ [])))
    × (handle_packet m1 1 reliable_bytes 30 0 ≡ some (m2, some (8 ∷ 9 ∷ [])))
reliable_duplicated_example =
    reliable_duplicated server_side (flush_reliable server_side 3 (8 ∷ 9 ∷ [])).0 client_side
      one_peer 1 (8 ∷ 9 ∷ []) reliable_bytes 3 20 0 30 0 header_fits plain-Undoes no_handshake
      reliable_sent client_found
