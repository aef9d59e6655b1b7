-- ===== src/Tests/Servers.antt =====
-- The server's loop on a concrete network.
use mathlib.Core.List.{Permᴰ}
use riftnet_rust.Base.{
  ℕ, ◌<◌, ◌^◌, ◌≡◌, refl, true, Option, none, some, List, [], ◌∷◌, length, arith,
}
use riftnet_rust.Core.{ok}
use riftnet_rust.Connection.Pipeline.{null_pipeline}
use riftnet_rust.Connection.Conn.{Connection, new, flush_unreliable, get_tx_nonce}
use riftnet_rust.Connection.Table.{contains_key, lookup, put, Distinct}
use riftnet_rust.Transport.Interpolator.{back}
use riftnet_rust.Transport.Interpolator.Search.{IsValid}
use riftnet_rust.Transport.Transporter.{NetworkReactor}
use riftnet_rust.Game.World.{origin}
use riftnet_rust.Game.Server.{Clock, Server, start, serve_round, serve, broadcast}
use riftnet_rust.Game.Server.Total.{IsReady, serve_round_total, serve_total}
use riftnet_rust.Game.Server.Clients.{same_clients}
use riftnet_rust.Game.Server.Simulation.{all_asked, serve_simulates}
use riftnet_rust.Game.Client.Agreement.{world_after}
use riftnet_rust.Game.Server.Newest.{serve_newest}
use riftnet_rust.Game.Server.Broadcast.{told, broadcast_lem, snapshot_delivered}
use riftnet_rust.Game.Sessions.{ClientSession, run_tick}
use riftnet_rust.Game.Sessions.Order.{SameTick, tick_order}
use riftnet_rust.Game.Client.{snapshot_packet, read_snapshot_packet}
use riftnet_rust.Protocol.Packet.{SnapshotHeader, InputPacket, general_bytes}
use riftnet_rust.Base.Bytes.{to_le_bytes, take_bytes}
use riftnet_rust.Connection.Manager.{ConnectionManager, handle_packet, send_to_client}
use riftnet_rust.Connection.Manager
use riftnet_rust.Connection.Manager.Delivery.{Undoes}
use riftnet_rust.Tests.{thousandths, stored, tagged, numbered, or_else, made}
use riftnet_rust.Tests.Games.{summed}

-- A network that has the packets of the first poll, and takes whatever is sent.
instance abbrev pub scripted : NetworkReactor ℕ (List (List ℕ × ℕ))
scripted = record {
  poll_packets = λ packets. (ok packets, []);
  send_packet = λ packets bytes addr. (ok tt, packets);
}

abbrev clock : Clock
clock = record { received = λ i. 5; nanos = λ i. 99; queued = 6; evicted = 7; flushed = 8 }

serve_total_example :
    (srv : Server ℕ ℕ (List (List ℕ × ℕ))) × (serve
        (clock ∷ clock ∷ [])
        (start ((4 ∷ 1 ∷ [], 2) ∷ []))
      ≡ some srv)
serve_total_example = serve_total (clock ∷ clock ∷ []) ((4 ∷ 1 ∷ [], 2) ∷ [])

-- A new server to which address 2 sends a packet.
abbrev begun : Server ℕ ℕ (List (List ℕ × ℕ))
begun = start ((4 ∷ 1 ∷ [], 2) ∷ [])

abbrev after : Server ℕ ℕ (List (List ℕ × ℕ))
after = or_else (serve_round clock begun) begun

one_round : serve_round clock begun ≡ some after
unfolding start Manager.new
one_round =
    let ready : IsReady begun = record {
      sendable = tt;
      inhabited = (record { x = 0; y = 0; z = 0 }, [], refl);
    } in
    let (srv, e, _) = serve_round_total clock begun ready in
    made (serve_round clock begun) begun (srv, e)

same_clients_example :
    contains_key 2 after.client_sessions ≡ contains_key 2 after.manager.connections
same_clients_example = same_clients clock begun after 2 one_round

serve_one :
    (srv srv' : Server ℕ ℕ (List (List ℕ × ℕ)))
    → serve_round clock srv ≡ some srv'
    → serve (clock ∷ []) srv ≡ some srv'
unfolding serve
serve_one srv srv' e = ground (arith, e)

one_round_served : serve (clock ∷ []) begun ≡ some after
one_round_served = serve_one begun after one_round

serve_newest_example :
    (after.current_tick ≡ 1)
    × IsValid after.transporter.interpolator
    × (back after.transporter.interpolator.buffer ≡ some (record { tick = 1; state = after.world }))
serve_newest_example =
    serve_newest clock [] ((4 ∷ 1 ∷ [], 2) ∷ []) after (omega arith) one_round_served

abbrev session : ℕ → ClientSession
session v = record { input_buffer = (4, v) ∷ []; last_known_input = 0; latest_input_tick = 4 }

abbrev pub two_sessions : List (ℕ × ClientSession)
two_sessions = (1, session 2) ∷ (2, session 3) ∷ []

tick_order_example :
    SameTick {A = ℕ}
      (run_tick 4 two_sessions origin)
      (run_tick 4 ((2, session 3) ∷ (1, session 2) ∷ []) origin)
tick_order_example = tick_order 4 origin (Permᴰ.swap refl refl)

-- Two clients, of which one has a connection.
abbrev pub peer : Connection ℕ ℕ
peer = new 0 1 true null_pipeline

abbrev pub peers : ConnectionManager ℕ ℕ
peers = record { connections = (1, peer) ∷ [] }

abbrev pub told_peers : ConnectionManager ℕ ℕ
told_peers = or_else (broadcast 6 4 77 origin two_sessions peers) peers

told_made : broadcast 6 4 77 origin two_sessions peers ≡ some told_peers
unfolding broadcast send_to_client lookup put
told_made = refl

two_sessions-Distinct : Distinct two_sessions
unfolding lookup
two_sessions-Distinct = (refl, (refl, tt))

broadcast_example :
    lookup 1 told_peers.connections
    ≡ told 4 77 origin (lookup 1 two_sessions) (lookup 1 peers.connections)
broadcast_example =
    broadcast_lem 6 4 77 origin two_sessions peers told_peers 1 two_sessions-Distinct told_made

-- A snapshot of the server for a client, and an input of the client for the server.
abbrev snap : SnapshotHeader
snap = record { tick = 5; state_hash = 77; last_input_tick = 4 }

abbrev pub snap_sent : Connection ℕ ℕ × Option (List ℕ)
snap_sent = or_else (flush_unreliable peer (snapshot_packet snap origin)) (peer, none)

abbrev pub snap_frame : List ℕ
snap_frame = or_else snap_sent.1 []

pub snap_flushed :
    flush_unreliable peer (snapshot_packet snap origin) ≡ some (snap_sent.0, some snap_frame)
unfolding flush_unreliable snapshot_packet general_bytes to_le_bytes take_bytes get_tx_nonce new
snap_flushed = refl

client_knows : lookup 1 peers.connections ≡ some peer
unfolding lookup
client_knows = refl

null-Undoes : Undoes peer.pipeline peer.pipeline
unfolding new
null-Undoes bytes nonce sent e = ground (arith, e)

pub nonce_fits : peer.tx_nonce < 2 ^ 64
unfolding new
nonce_fits = omega arith

snapshot_delivered_example :
    (m' : ConnectionManager ℕ ℕ) × (app_data : List ℕ) × (handle_packet peers 1 snap_frame 9 99
      ≡ some (m', some app_data))
    × (read_snapshot_packet app_data ≡ some (some (snap, record { x = 0; y = 0; z = 0 })))
snapshot_delivered_example =
    snapshot_delivered peer snap_sent.0 peer peers 1 snap (record { x = 0; y = 0; z = 0 }) []
      snap_frame 9 99
      (record {
        tick_fits = omega arith;
        state_hash_fits = omega arith;
        last_input_tick_fits = omega arith;
      })
      (record { x_fits = omega arith; y_fits = omega arith; z_fits = omega arith }) nonce_fits
      null-Undoes snap_flushed client_knows

abbrev input : InputPacket
input = record { tick = 9; input_bitmask = 1 }

serve_simulates_example :
    (srv : Server ℕ ℕ (List (List ℕ × ℕ))) × (serve (clock ∷ clock ∷ []) begun ≡ some srv)
    × (length (all_asked (clock ∷ clock ∷ []) begun) ≡ 2)
    × (world_after (all_asked (clock ∷ clock ∷ []) begun) origin ≡ some srv.world)
serve_simulates_example = serve_simulates (clock ∷ clock ∷ []) ((4 ∷ 1 ∷ [], 2) ∷ [])
