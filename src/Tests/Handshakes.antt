-- ===== src/Tests/Handshakes.antt =====
-- The handshake between a server and a client at concrete addresses.
use riftnet_rust.Base.{
  ℕ, inl, inr, ◌<◌, ◌^◌, Option, arith, ◌≡◌, refl, true, false, replicate, ◌++◌, none, some, List,
  [], ◌∷◌,
}
use riftnet_rust.Base.Bytes.{to_le_bytes}
use riftnet_rust.Compression.{compress}
use riftnet_rust.Encryption.{Cipher, encrypt}
use riftnet_rust.Encryption
use riftnet_rust.Protocol.Packet.{general_bytes, reliability_bytes}
use riftnet_rust.Protocol.Reliable
use riftnet_rust.Protocol.Reliable.{process_retransmissions, resend_loop}
use riftnet_rust.Connection.Pipeline.{
  NetworkPipeline, nonce_bytes, secure_process, secure_inverse_process, secure_pipeline,
}
use riftnet_rust.Connection.Conn.{
  Connection, new, flush_reliable, reliable_frame, flush_one, flush_queue, swap_pipeline, update,
}
use riftnet_rust.Connection.Table.{lookup}
use riftnet_rust.Connection.Receive.{static_poc_key, session_key, write_bytes, xor_byte, xor_bytes}
use riftnet_rust.Connection.Manager.{ConnectionManager, handle_packet, open_connection}
use riftnet_rust.Connection.Manager.Handshake.{
  greeting, greeting_flushed, open_connection-new, handshake_agrees,
}
use riftnet_rust.Protocol.Packet.{InputPacket, as_bytes, input_wire}
use riftnet_rust.Game.Server.{take_input}
use riftnet_rust.Game.Server.Broadcast.{stored_input}
use riftnet_rust.Game.Server.Greeted.{first_input}
use riftnet_rust.Game.Ticks.{input_packet}
use riftnet_rust.Connection.Conn.{flush_unreliable}
use riftnet_rust.Encryption.{decrypt}
use riftnet_rust.Compression.{decompress}
use riftnet_rust.Protocol.Packet.{read_general, read_reliability, read_handshake}
use riftnet_rust.Protocol.Reliable.{process_incoming_header}
use riftnet_rust.Connection.Conn.{get_tx_nonce}
use riftnet_rust.Connection.Receive.{
  receive_body, receive_packet, receive_reliable, is_blocked, take_payload, read_inner_handshake,
}
use riftnet_rust.Base.Bytes.{from_le_bytes, read_le, take_bytes}
use riftnet_rust.Connection.Table.{put}
use riftnet_rust.Game.Sessions.{ClientSession}
use riftnet_rust.Core.{Result-cases}
use riftnet_rust.Tests.{or_else, thousandths, stored, tagged, numbered, stored-IsLz4, tagged-IsAead}

-- The pipeline of a key.
abbrev pub keyed : List ℕ → NetworkPipeline
keyed key = record {
  process = secure_process (record { key = key });
  inverse_process = secure_inverse_process (record { key = key });
}

-- The key that the server makes for the client at address 2.
abbrev agreed_key : List ℕ
agreed_key = or_else (session_key (2 ∷ []) 99) []

key_made : session_key (2 ∷ []) 99 ≡ some agreed_key
unfolding session_key write_bytes xor_bytes xor_byte to_le_bytes
key_made = refl

pub static_made : secure_pipeline static_poc_key ≡ some (keyed static_poc_key)
unfolding secure_pipeline Encryption.new
static_made = refl

agreed_made : secure_pipeline agreed_key ≡ some (keyed agreed_key)
unfolding secure_pipeline Encryption.new session_key write_bytes xor_bytes xor_byte to_le_bytes
agreed_made = refl

-- A server that knows nobody, and a client at address 2 that knows the server at address 1.
abbrev server : ConnectionManager ℕ ℕ
server = record { connections = [] }

abbrev client_side : Connection ℕ ℕ
client_side = new 0 1 false (keyed static_poc_key)

abbrev client : ConnectionManager ℕ ℕ
client = record { connections = (1, client_side) ∷ [] }

abbrev server_side : Connection ℕ ℕ
server_side = greeting 5 2 (keyed static_poc_key) (keyed agreed_key) agreed_key

abbrev server_flushed : Connection ℕ ℕ
server_flushed =
    swap_pipeline
      (flush_reliable (greeting_flushed 5 2 (keyed static_poc_key) (keyed agreed_key) agreed_key) 6
        (1 ∷ agreed_key)).0

server_opened : open_connection server 2 5 99 ≡ some server_side
unfolding lookup session_key to_le_bytes
server_opened =
    open_connection-new server 2 server_side 5 99 (keyed static_poc_key) (keyed agreed_key)
      agreed_key refl static_made key_made refl agreed_made

abbrev greeting_frame : List ℕ
greeting_frame =
    1 ∷ 1 ∷ 0 ∷ 0 ∷ 0 ∷ 0 ∷ 0 ∷ 0 ∷ 0 ∷ 2112 ∷ 1 ∷ (replicate 14 0 ++ (0 ∷ 1 ∷ agreed_key))

greeting_sent : update server_side 6 ≡ some (server_flushed, greeting_frame ∷ [])
unfolding update process_retransmissions resend_loop flush_queue flush_one flush_reliable
    reliable_frame swap_pipeline new Reliable.new secure_process compress encrypt nonce_bytes
    general_bytes reliability_bytes to_le_bytes session_key write_bytes xor_bytes xor_byte
greeting_sent = refl

client_knows : lookup 1 client.connections ≡ some client_side
unfolding lookup
client_knows = refl

unknown_client : lookup 2 server.connections ≡ none
unfolding lookup
unknown_client = refl

client_static : secure_pipeline static_poc_key ≡ some client_side.pipeline
unfolding new
client_static = static_made

handshake_agrees_example :
    (m : ConnectionManager ℕ ℕ) × (cli' : Connection ℕ ℕ) × (key : List ℕ) × (handle_packet client 1
        greeting_frame 8 0
      ≡ some (m, none))
    × (lookup 1 m.connections ≡ some cli')
    × (cli'.is_authenticated ≡ true)
    × (session_key (2 ∷ []) 99 ≡ some key)
    × (secure_pipeline key ≡ some server_flushed.pipeline)
    × (cli'.pipeline ≡ server_flushed.pipeline)
handshake_agrees_example =
    handshake_agrees stored-IsLz4 tagged-IsAead server client 2 1 client_side server_side
      server_flushed greeting_frame [] 5 99 6 8 0 unknown_client server_opened greeting_sent
      client_knows client_static

-- The client, greeted, sends an input.
made_first :
    (o : Option (ConnectionManager ℕ ℕ × Option (List ℕ))) (a m : ConnectionManager ℕ ℕ)
    → o ≡ some (m, none)
    → o ≡ some ((or_else o (a, none)).0, none)
made_first o a m e = ground (arith, e)

abbrev greeted : ConnectionManager ℕ ℕ
greeted = (or_else (handle_packet client 1 greeting_frame 8 0) (client, none)).0

greeted_made : handle_packet client 1 greeting_frame 8 0 ≡ some (greeted, none)
greeted_made =
    let (m, cli', key, e, found, known, made, secure, same) = handshake_agrees_example in
    made_first (handle_packet client 1 greeting_frame 8 0) client m e

abbrev greeted_side : Connection ℕ ℕ
greeted_side = or_else (lookup 1 greeted.connections) client_side

greeted_known : lookup 1 greeted.connections ≡ some greeted_side
unfolding handle_packet lookup put receive_packet read_general receive_reliable
    process_incoming_header session_key to_le_bytes read_reliability new secure_inverse_process
    decrypt nonce_bytes decompress take_payload read_inner_handshake read_handshake from_le_bytes
    read_le take_bytes write_bytes xor_bytes xor_byte secure_pipeline Encryption.new get_tx_nonce
    open_connection is_blocked receive_body
greeted_known = refl

nonce_fits : greeted_side.tx_nonce < 2 ^ 64
unfolding handle_packet lookup put receive_packet read_general receive_reliable
    process_incoming_header session_key to_le_bytes read_reliability new secure_inverse_process
    decrypt nonce_bytes decompress take_payload read_inner_handshake read_handshake from_le_bytes
    read_le take_bytes write_bytes xor_bytes xor_byte secure_pipeline Encryption.new get_tx_nonce
    open_connection is_blocked receive_body
nonce_fits = omega arith

abbrev first : InputPacket
first = record { tick = 5; input_bitmask = 1 }

abbrev first_sent : Connection ℕ ℕ × Option (List ℕ)
first_sent = or_else (flush_unreliable greeted_side (input_packet first)) (greeted_side, none)

abbrev first_frame : List ℕ
first_frame = or_else first_sent.1 []

greeted_pipeline : greeted_side.pipeline ≡ keyed agreed_key
unfolding handle_packet lookup put receive_packet read_general receive_reliable
    process_incoming_header session_key to_le_bytes read_reliability new secure_inverse_process
    decrypt nonce_bytes decompress take_payload read_inner_handshake read_handshake from_le_bytes
    read_le take_bytes write_bytes xor_bytes xor_byte secure_pipeline Encryption.new get_tx_nonce
    open_connection is_blocked receive_body
greeted_pipeline = refl

-- The pipeline of the session key does not fail on the input.
sent_input :
    (c : Connection ℕ ℕ)
    → c.pipeline ≡ keyed agreed_key
    → (c' : Connection ℕ ℕ) × (frame : List ℕ) × (flush_unreliable c (input_packet first)
        ≡ some (c', some frame))
unfolding flush_unreliable input_packet general_bytes to_le_bytes take_bytes secure_process encrypt
    compress
sent_input c e = elim (Result-cases (c.pipeline.process (as_bytes first) (get_tx_nonce c).0)) [
  | inl (sealed, d) ↦ (
    (get_tx_nonce c).1,
    4 ∷ (to_le_bytes 8 (get_tx_nonce c).0 ++ sealed),
    rw (flush_unreliable, d) refl,
  )
  | inr (failed, d) ↦ absurd (ground (arith, rw e at d))
]

made_frame :
    (o : Option (Connection ℕ ℕ × Option (List ℕ))) (a c : Connection ℕ ℕ) (frame : List ℕ)
    → o ≡ some (c, some frame)
    → o ≡ some ((or_else o (a, none)).0, some (or_else (or_else o (a, none)).1 []))
made_frame o a c frame e = ground (arith, e)

first_flushed :
    flush_unreliable greeted_side (input_packet first) ≡ some (first_sent.0, some first_frame)
first_flushed =
    let (c', frame, e) = sent_input greeted_side greeted_pipeline in
    made_frame (flush_unreliable greeted_side (input_packet first)) greeted_side c' frame e

abbrev no_sessions : List (ℕ × ClientSession)
no_sessions = []

abbrev server_after : ConnectionManager ℕ ℕ
server_after = record { connections = (2, server_flushed) ∷ [] }

server_knows : lookup 2 server_after.connections ≡ some server_flushed
unfolding lookup
server_knows = refl

first_input_example :
    (m : ConnectionManager ℕ ℕ) × (answer : Option (List ℕ)) × (sessions' : List
      (ℕ × ClientSession))
    × (handle_packet server_after 2 first_frame 9 0 ≡ some (m, answer))
    × (take_input 2 answer no_sessions ≡ some sessions')
    × (lookup 2 sessions' ≡ some (stored_input (lookup 2 no_sessions) first))
first_input_example =
    first_input stored-IsLz4 tagged-IsAead server server_after client greeted 2 1 client_side
      greeted_side first_sent.0 server_side server_flushed greeting_frame first_frame [] no_sessions
      first none 5 99 6 8 0 9 0 unknown_client server_opened greeting_sent client_knows
      client_static greeted_made greeted_known
      (record { tick_fits = omega arith; input_bitmask_fits = omega arith }) nonce_fits
      first_flushed server_knows
