-- ===== src/Game/Swarm.antt =====
-- bin/client_swarm.rs: a client of the swarm, which has one for each address that sends to it, and
-- a round of the loop. What is logged is left out; a panic is `none`.
pub mod Wire
pub mod Total
use riftnet_rust.Base.{
  ℕ, suc, ◌+◌, ◌-◌, ◌*◌, ◌/◌, ◌%◌, ◌^◌, max, Bool, true, false, not, List, [], ◌∷◌, ◌++◌, Option,
  none, some, ltb, ◌==◌, if◌then◌else◌, length, drop, bit_and,
}
use riftnet_rust.Base.Bits.{u64}
use riftnet_rust.Base.Bytes.{take_bytes, ◌>>=◌}
use riftnet_rust.Core.{Result, ok, err}
use riftnet_rust.Float.{F32, F32Cast}
use riftnet_rust.Protocol.Packet.{
  InputPacket, SnapshotHeader, GeneralPacketHeader, read_from_prefix, general_wire, snapshot_wire,
  size_of,
}
use riftnet_rust.Protocol.History.{FrameRecord, HistoryBuffer, in_bounds, insert, get}
use riftnet_rust.Protocol.History
use riftnet_rust.Connection.Table.{SocketAddr, lookup, put}
use riftnet_rust.Transport.Transporter.{NetworkReactor}
use riftnet_rust.Game.World.{Position, Hasher}
use riftnet_rust.Game.Ticks.{find_time, put_time, remove_time, input_packet}

pub record FloatWorld (F : Type 0) : Type 0 where
  pub positions : List (Position F)

pub record SwarmClient (F : Type 0) : Type 0 where
  pub world : FloatWorld F
  pub history : HistoryBuffer (FloatWorld F) ℕ
  pub input_dispatch_times : List (ℕ × ℕ)
  pub predicted_tick : ℕ
  pub last_server_tick : ℕ
  pub current_rtt_ms : ℕ

module _ {F : Type 0} ⦃f : F32 F⦄ ⦃cast : F32Cast F⦄ where
  -- The words that are hashed.
  pub float_bits : List (Position F) → List ℕ
  float_bits [] = []
  float_bits (p ∷ ps) = cast.to_bits p.x ∷ cast.to_bits p.y ∷ cast.to_bits p.z ∷ float_bits ps

  unfoldable pub hash_floats : ⦃hasher : Hasher⦄ → FloatWorld F → ℕ
  unfolding float_bits
  hash_floats ⦃hasher⦄ w = hasher.hash_words (float_bits w.positions)

  -- The first position moves; with none the index panics.
  abbrev pub move_float : List (Position F) → Option (List (Position F))
  move_float [] = none
  move_float (p ∷ ps) = some (record p { x = f.add p.x (f.lit 1 100) } ∷ ps)

  unfoldable pub step_floats : FloatWorld F → ℕ → Option (FloatWorld F)
  step_floats w input = if bit_and input 1 == 0 then some w else elim (move_float w.positions) [
    | none ↦ none
    | some moved ↦ some (record { positions = moved })
  ]

module _ {F : Type 0} ⦃f : F32 F⦄ where
  unfoldable pub new_swarm_client : Option (SwarmClient F)
  new_swarm_client = elim (History.new {T = FloatWorld F} {I = ℕ} 128) [
    | none ↦ none
    | some history ↦ some (record {
      world = record { positions = record { x = f.lit 0 1; y = f.lit 0 1; z = f.lit 0 1 } ∷ [] };
      history = history;
      input_dispatch_times = [];
      predicted_tick = 0;
      last_server_tick = 0;
      current_rtt_ms = 0;
    })
  ]

-- The ticks that a correction leads the server by.
abbrev pub padding : ℕ → ℕ
padding rtt_ms = max (u64 (rtt_ms / 2) / 16 + 1) 2

module _ {F : Type 0} where
  -- The server's tick, and the round-trip time of an input that the client sent.
  unfoldable pub note_snapshot : SwarmClient F → ℕ → SnapshotHeader → SwarmClient F
  note_snapshot c now snap = elim (find_time snap.last_input_tick c.input_dispatch_times) [
    | none ↦ record c { last_server_tick = snap.tick }
    | some dispatch_time ↦ record c {
      last_server_tick = snap.tick;
      input_dispatch_times = remove_time snap.last_input_tick c.input_dispatch_times;
      current_rtt_ms = (now - dispatch_time) / 10 ^ 6;
    }
  ]

  unfoldable pub correct : SwarmClient F → SnapshotHeader → Option (SwarmClient F)
  correct c snap =
      if not (in_bounds c.history snap.tick) then none else elim (get c.history snap.tick) [
        | none ↦ some c
        | some local ↦
            if local.state_hash == snap.state_hash
            then some c
            else some (record c { predicted_tick = u64 (snap.tick + padding c.current_rtt_ms) })
      ]

  -- `&packet[offset..]` panics where it begins past the end.
  unfoldable pub process_packet : SwarmClient F → ℕ → List ℕ → Option (SwarmClient F)
  process_packet c now packet =
      let offset = size_of GeneralPacketHeader in
      if ltb (length packet) (offset + size_of SnapshotHeader)
      then some c
      else elim (take_bytes offset packet) [
        | none ↦ none
        | some (header, rest) ↦ elim (read_from_prefix ⦃w = snapshot_wire⦄ rest) [
          | none ↦ some c
          | some snap ↦ correct (note_snapshot c now snap) snap
        ]
      ]

  unfoldable pub prepare_packet : SwarmClient F → List ℕ
  prepare_packet c = input_packet (record { tick = c.predicted_tick; input_bitmask = 1 })

module _ {F : Type 0} ⦃f : F32 F⦄ ⦃cast : F32Cast F⦄ ⦃hasher : Hasher⦄ where
  -- The step of the control loop: the error is a difference of 64 bits with its sign.
  unfoldable pub tick_step : SwarmClient F → F → ℕ
  tick_step c gain =
      let error = u64 (c.last_server_tick + 2 ^ 64 - c.predicted_tick) in
      cast.as_u64 (cast.round (f.add (f.lit 1 1) (f.mul (cast.of_i64 error) gain)))

  unfoldable pub tick : SwarmClient F → F → ℕ → Option (SwarmClient F)
  tick c gain now =
      let predicted = u64 (c.predicted_tick + tick_step c gain) in
      do
        world ← step_floats c.world 1
        if in_bounds c.history predicted
            then some (record c {
              world = world;
              predicted_tick = predicted;
              history = insert c.history (record {
                tick = predicted;
                state = world;
                state_hash = hash_floats world;
                input = 1;
              });
              input_dispatch_times = put_time predicted now c.input_dispatch_times;
            })
            else none

-- The loop's state.
pub record Swarm (A F R : Type 0) : Type 0 where
  pub reactor : R
  pub swarm : List (A × SwarmClient F)
  pub discovered_server : Bool

-- `0.05`
abbrev pub swarm_gain : {F : Type 0} ⦃f : F32 F⦄ → F
swarm_gain ⦃f⦄ = f.lit 5 100

module _ {A F : Type 0} ⦃f : F32 F⦄ ⦃addrs : SocketAddr A⦄ where
  -- `entry(sender).or_insert_with(SwarmClient::new)`
  unfoldable pub client_of : A → List (A × SwarmClient F) → Option (SwarmClient F)
  client_of sender swarm = elim (lookup sender swarm) [ none ↦ new_swarm_client | some c ↦ some c ]

  -- The packets of a poll, packet `i` at its instant.
  unfoldable pub ingest :
      (ℕ → ℕ) → ℕ → List (List ℕ × A) → List (A × SwarmClient F) → Option (List (A × SwarmClient F))
  ingest received i [] swarm = some swarm
  ingest received i ((packet, sender) ∷ rest) swarm = elim (client_of sender swarm) [
    | none ↦ none
    | some c ↦ elim (process_packet c (received i) packet) [
      | none ↦ none
      | some c' ↦ ingest received (suc i) rest (put sender c' swarm)
    ]
  ]

module _ {A F R : Type 0} ⦃f : F32 F⦄ ⦃cast : F32Cast F⦄ ⦃hasher : Hasher⦄ ⦃addrs : SocketAddr A⦄
    ⦃net : NetworkReactor A R⦄ where
  -- A client that knows a tick of the server advances and sends.
  unfoldable pub tick_client : ℕ → A → SwarmClient F → R → Option (SwarmClient F × R)
  tick_client now addr c r = if c.last_server_tick == 0 then some (c, r) else (do
    c' ← tick c swarm_gain now
    some (c', (net.send_packet r (prepare_packet c') addr).1))

  -- The loop over the clients.
  unfoldable pub tick_clients :
      ℕ → List (A × SwarmClient F) → R → Option (List (A × SwarmClient F) × R)
  tick_clients now [] r = some ([], r)
  tick_clients now ((a, c) ∷ rest) r = elim (tick_client now a c r) [
    | none ↦ none
    | some (c', r1) ↦ elim (tick_clients now rest r1) [
      | none ↦ none
      | some (rest', r2) ↦ some ((a, c') ∷ rest', r2)
    ]
  ]

  -- A round of the loop, at the instants of its packets and of its ticks.
  unfoldable pub swarm_round : A → (ℕ → ℕ) → ℕ → Swarm A F R → Option (Swarm A F R)
  swarm_round server_addr received now s =
      let greeting = input_packet (record { tick = 0; input_bitmask = 0 }) in
      let r =
        if s.discovered_server
        then s.reactor
        else (net.send_packet s.reactor greeting server_addr).1 in
      let (polled, r') = net.poll_packets r in
      elim polled [
        | err e ↦ do
          (swarm, r'') ← tick_clients now s.swarm r'
          some (record s { swarm = swarm; reactor = r'' })
        | ok packets ↦ do
          heard ← ingest received 0 packets s.swarm
          (swarm, r'') ← tick_clients now heard r'
          some (record {
            swarm = swarm;
            reactor = r'';
            discovered_server = if length packets == 0 then s.discovered_server else true;
          })
      ]

  -- Rounds of the loop, one for each pair of instants.
  unfoldable pub swarm_rounds : A → List ((ℕ → ℕ) × ℕ) → Swarm A F R → Option (Swarm A F R)
  swarm_rounds server_addr [] s = some s
  swarm_rounds server_addr ((received, now) ∷ rest) s =
      elim (swarm_round server_addr received now s) [
        | none ↦ none
        | some s' ↦ swarm_rounds server_addr rest s'
      ]
