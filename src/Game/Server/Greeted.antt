-- ===== src/Game/Server/Greeted.antt =====
-- bin/server.rs, bin/client.rs and crates/connection/src/manager.rs: from the handshake to the
-- client's input in the server's sessions.
use riftnet_rust.Base.{ℕ, ◌^◌, ◌<◌, ◌≡◌, ◌∙◌, ap, sym, Option, none, some, List, ◌∷◌, arith}
use riftnet_rust.Float.{F32}
use riftnet_rust.Compression.{Lz4, IsLz4}
use riftnet_rust.Encryption.{Aead, IsAead}
use riftnet_rust.Protocol.Packet.{InputPacket}
use riftnet_rust.Protocol.Packet.RoundTrip.{FitsInputPacket}
use riftnet_rust.Connection.Pipeline.{secure_pipeline}
use riftnet_rust.Connection.Pipeline.RoundTrip.{secure_pipeline-RoundTrips}
use riftnet_rust.Connection.Conn.{Connection, flush_unreliable, update}
use riftnet_rust.Connection.Table.{SocketAddr, lookup}
use riftnet_rust.Connection.Receive.{static_poc_key}
use riftnet_rust.Connection.Manager.{ConnectionManager, open_connection, handle_packet}
use riftnet_rust.Connection.Manager.Delivery.{Undoes}
use riftnet_rust.Connection.Manager.Handshake.{handshake_agrees}
use riftnet_rust.Game.Sessions.{ClientSession}
use riftnet_rust.Game.Ticks.{input_packet}
use riftnet_rust.Game.Server.{take_input}
use riftnet_rust.Game.Server.Broadcast.{stored_input, input_delivered}

module _ {A F : Type 0} ⦃f : F32 F⦄ ⦃lz4 : Lz4⦄ ⦃aead : Aead⦄ ⦃addrs : SocketAddr A⦄ where
  -- Under the laws of LZ4 and of the cipher, an input reaches the server after the handshake: let a
  -- server open a connection for a client that it does not know, let its greeting reach a client
  -- that knows the server under the initial key, and let the client then flush an input packet,
  -- with fields in the range of their types and a nonce of 64 bits. The server that has flushed the
  -- connection reads the frame and stores the input in the client's session.
  pub first_input :
      (lz4_laws : IsLz4 lz4) (aead_laws : IsAead aead) (ms ms' mc mc' : ConnectionManager A F)
      (client server : A) (cli cli' cli'' sc sc' : Connection A F) (greeting frame : List ℕ)
      (rest : List (List ℕ)) (sessions : List (A × ClientSession)) (pkt : InputPacket)
      (reply : Option (List ℕ)) (now nanos flushed heard nanos' now' nanos'' : ℕ)
      → lookup client ms.connections ≡ none
      → open_connection ms client now nanos ≡ some sc
      → update sc flushed ≡ some (sc', greeting ∷ rest)
      → lookup server mc.connections ≡ some cli
      → secure_pipeline static_poc_key ≡ some cli.pipeline
      → handle_packet mc server greeting heard nanos' ≡ some (mc', reply)
      → lookup server mc'.connections ≡ some cli'
      → FitsInputPacket pkt
      → cli'.tx_nonce < 2 ^ 64
      → flush_unreliable cli' (input_packet pkt) ≡ some (cli'', some frame)
      → lookup client ms'.connections ≡ some sc'
      → (m : ConnectionManager A F) × (answer : Option (List ℕ)) × (sessions' : List
          (A × ClientSession))
        × (handle_packet ms' client frame now' nanos'' ≡ some (m, answer))
        × (take_input client answer sessions ≡ some sessions')
        × (lookup client sessions' ≡ some (stored_input (lookup client sessions) pkt))
  first_input lz4_laws aead_laws ms ms' mc mc' client server cli cli' cli'' sc sc' greeting frame
        rest sessions pkt reply now nanos flushed heard nanos' now' nanos'' fresh opened update_sent
        found static handled found' fits small sent known =
      let (m1, c1, key, handled1, found1, _, keyed, made, same) =
        handshake_agrees lz4_laws aead_laws ms mc client server cli sc sc' greeting rest now nanos
          flushed heard nanos' fresh opened update_sent found static in
      let same_manager : m1 ≡ mc' = ground (arith, handled1, handled) in
      let same_client : some c1 ≡ some cli' =
        sym found1 ∙ (ap (λ m. lookup server m.connections) same_manager ∙ found') in
      let undoes : Undoes sc'.pipeline sc'.pipeline =
        secure_pipeline-RoundTrips lz4_laws aead_laws key sc'.pipeline made in
      let pipeline : cli'.pipeline ≡ sc'.pipeline = ground (arith, same_client, same) in
      input_delivered cli' cli'' sc' ms' client pkt frame sessions now' nanos'' fits small
        (rw pipeline undoes) sent known
