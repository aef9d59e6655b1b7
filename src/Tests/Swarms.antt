-- ===== src/Tests/Swarms.antt =====
-- The swarm on concrete values.
use riftnet_rust.Base.{
  ℕ, ◌≤◌, ◌≡◌, refl, true, false, none, some, List, [], ◌∷◌, arith, length, drop,
}
use riftnet_rust.Base.Bytes.{to_le_bytes, take_bytes}
use riftnet_rust.Protocol.Packet.{general_bytes, snapshot_bytes}
use riftnet_rust.Connection.Conn.{Connection, new, flush_unreliable, get_tx_nonce}
use riftnet_rust.Connection.Receive.{static_poc_key}
use riftnet_rust.Connection.Manager.{ConnectionManager}
use riftnet_rust.Game.World.{origin}
use riftnet_rust.Game.Client.{snapshot_packet}
use riftnet_rust.Game.Swarm.{SwarmClient, Swarm, process_packet, swarm_rounds}
use riftnet_rust.Game.Swarm.Total.{swarm_rounds_total}
use riftnet_rust.Game.Swarm.Wire.{swarm_reads_nonce}
use riftnet_rust.Tests.{thousandths, stored, tagged, numbered, whole}
use riftnet_rust.Tests.Games.{summed, snap}
use riftnet_rust.Tests.Servers.{scripted, peer, snap_sent, snap_frame, snap_flushed, nonce_fits}
use riftnet_rust.Tests.Handshakes.{keyed}

abbrev client : SwarmClient ℕ
client = record {
  world = record { positions = record { x = 0; y = 0; z = 0 } ∷ [] };
  history = record { buffer = none ∷ []; mask = 0 };
  input_dispatch_times = [];
  predicted_tick = 7;
  last_server_tick = 3;
  current_rtt_ms = 0;
}

-- The server has not been found yet, and its first packet waits.
abbrev nobody : Swarm ℕ ℕ (List (List ℕ × ℕ))
nobody = record { reactor = (snap_frame, 1) ∷ []; swarm = []; discovered_server = false }

swarm_rounds_total_example :
    (s' : Swarm ℕ ℕ (List (List ℕ × ℕ))) × (swarm_rounds 1 ((λ i. 5, 6) ∷ (λ i. 7, 8) ∷ []) nobody
      ≡ some s')
swarm_rounds_total_example = swarm_rounds_total 1 ((λ i. 5, 6) ∷ (λ i. 7, 8) ∷ []) nobody refl

long_frame : 25 ≤ length snap_frame
unfolding flush_unreliable snapshot_packet general_bytes to_le_bytes take_bytes get_tx_nonce new
    snapshot_bytes
long_frame = omega arith

-- What follows the packet type of the server's snapshot.
abbrev snap_body : List ℕ
snap_body = drop 1 (snapshot_packet snap origin)

body_flushed : flush_unreliable peer (3 ∷ snap_body) ≡ some (snap_sent.0, some snap_frame)
unfolding snapshot_packet general_bytes to_le_bytes
body_flushed = snap_flushed

swarm_reads_nonce_example :
    (c' : SwarmClient ℕ) × (process_packet client 9 snap_frame ≡ some c')
    × (c'.last_server_tick ≡ peer.tx_nonce)
swarm_reads_nonce_example =
    swarm_reads_nonce peer snap_sent.0 client 3 9 snap_body snap_frame
      (0, record { mask_ones = refl; slots = refl }) nonce_fits body_flushed long_frame

-- A server that knows the swarm's address under the initial key.
abbrev swarm_side : Connection ℕ ℕ
swarm_side = new 0 2 true (keyed static_poc_key)

abbrev server : ConnectionManager ℕ ℕ
server = record { connections = (2, swarm_side) ∷ [] }
