-- ===== src/Tests/Conns.antt =====
-- Connections, pipelines and structs on concrete values.
use riftnet_rust.Base.{
  ℕ, ◌≡◌, ◌↔◌, refl, true, false, none, some, List, [], ◌∷◌, ◌++◌, replicate, arith,
}
use riftnet_rust.Base.Bytes.{to_le_bytes}
use riftnet_rust.Protocol.Packet.{
  SnapshotHeader, InputPacket, ReliabilityPacketHeader, HandshakePacket, snapshot_wire, input_wire,
  general_wire, reliability_wire, disconnect_wire, handshake_wire,
}
use riftnet_rust.Connection.Pipeline.{null_pipeline}
use riftnet_rust.Connection.Conn.{Connection, new, queue_pending_send, reliable_frame, update}
use riftnet_rust.Connection.Conn.Queue.{IsValid, new-IsValid, queue_pending_send_lem}
use riftnet_rust.Protocol.Reliable.{process_retransmissions}
use riftnet_rust.Connection.Conn.Frames.{datagrams_of}
use riftnet_rust.Connection.Conn.Flush.{Updated, update_panics_iff, update-Updated}
use riftnet_rust.Connection.Conn.Numbers.{sendable}
use riftnet_rust.Connection.Conn.Nonces.{sent_by, nonce_shared}
use riftnet_rust.Tests.{thousandths, stored, tagged}

-- A server's connection to peer 7, with a plain pipeline, and one with a payload in its queue.
abbrev server_side : Connection ℕ ℕ
server_side = new 0 7 true null_pipeline

abbrev server_busy : Connection ℕ ℕ
server_busy = queue_pending_send server_side (3 ∷ 1 ∷ 2 ∷ []) false

server_side-IsValid : IsValid server_side
server_side-IsValid = new-IsValid 0 7 true null_pipeline

server_busy-IsValid : IsValid server_busy
server_busy-IsValid =
    (queue_pending_send_lem server_side (3 ∷ 1 ∷ 2 ∷ []) false server_side-IsValid (omega arith)).0

update_panics_iff_example :
    (update server_busy 5 ≡ none) ↔ (sendable server_busy.pending_queue ≡ false)
update_panics_iff_example = update_panics_iff server_busy 5

update-Updated_example :
    (c' : Connection ℕ ℕ) × (sent : List (List ℕ)) × (update server_busy 5 ≡ some (c', sent))
    × Updated server_busy c'
    × (sent
        ≡ (process_retransmissions server_busy.state 5).1
          ++ datagrams_of server_busy server_busy.pending_queue)
unfolding new queue_pending_send
update-Updated_example =
    update-Updated server_busy 5 server_busy-IsValid (omega arith) (omega arith) refl

nonce_shared_example :
    let c = new {A = ℕ} {F = ℕ} 0 7 true null_pipeline in
    sent_by
      (update (queue_pending_send (queue_pending_send c (1 ∷ 9 ∷ []) true) (3 ∷ 8 ∷ []) false) 5)
    ≡ some (reliable_frame c (1 ∷ 9 ∷ []) ∷ ((3 ∷ []) ++ (to_le_bytes 8 1 ++ (8 ∷ []))) ∷ [])
nonce_shared_example =
    nonce_shared ℕ 0 5 7 null_pipeline (1 ∷ 9 ∷ []) (8 ∷ []) (1 ∷ 9 ∷ []) (8 ∷ []) 3 (omega arith)
      refl refl

abbrev snapshot : SnapshotHeader
snapshot = record { tick = 70000; state_hash = 12345; last_input_tick = 69999 }

abbrev input : InputPacket
input = record { tick = 70000; input_bitmask = 5 }

abbrev reliability : ReliabilityPacketHeader
reliability = record { sequence = 65535; ack = 2; ack_bitfield = 1 }

abbrev greeting : HandshakePacket
greeting = record { session_key = replicate 32 7 }
