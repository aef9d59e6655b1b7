-- ===== src/Game/Client/Loop/RoundTripTime.antt =====
-- bin/client.rs: the round-trip time that the client measures.
use riftnet_rust.Base.{ℕ, ◌-◌, ◌/◌, ◌^◌, ◌≡◌, inl, inr, false, some, arith, Option-cases}
use riftnet_rust.Float.{F32}
use riftnet_rust.Compression.{Lz4}
use riftnet_rust.Encryption.{Aead}
use riftnet_rust.Protocol.Packet.{SnapshotHeader}
use riftnet_rust.Connection.Table.{SocketAddr}
use riftnet_rust.Connection.Manager.{send_to_client}
use riftnet_rust.Transport.Transporter.{NetworkReactor}
use riftnet_rust.Game.World.{Hasher}
use riftnet_rust.Game.Ticks.{put_time, find-put_time, find-remove_time, input_packet}
use riftnet_rust.Game.Client.{predict}
use riftnet_rust.Game.Client.Loop.{dispatch}
use riftnet_rust.Game.Client.State.{Client, take_rtt}

module _ {A F R : Type 0} ⦃f : F32 F⦄ ⦃lz4 : Lz4⦄ ⦃aead : Aead⦄ ⦃addrs : SocketAddr A⦄
    ⦃hasher : Hasher⦄ ⦃net : NetworkReactor A R⦄ (server_addr : A) where
  -- The round-trip time of an input: let a step of the prediction be sent, and let a snapshot
  -- name its tick as the last input later. Then the client has the milliseconds in between as its
  -- round-trip time, and a second snapshot that names the tick does not change it.
  pub rtt_measured :
      (c c' : Client A F R) (now later again : ℕ) (snap snap' : SnapshotHeader)
      → dispatch server_addr now c ≡ some c'
      → snap.last_input_tick ≡ c'.predictor.predicted_tick
      → snap'.last_input_tick ≡ c'.predictor.predicted_tick
      → ((take_rtt c' later snap).current_rtt_ms ≡ (later - now) / 10 ^ 6)
        × ((take_rtt (take_rtt c' later snap) again snap').current_rtt_ms ≡ (later - now) / 10 ^ 6)
  unfolding dispatch take_rtt
  rtt_measured c c' now later again snap snap' e q q' =
      elim (Option-cases (predict c.predictor 1)) [
        | inl d ↦ absurd (ground (arith, d, e))
        | inr (p, d) ↦
            elim (Option-cases (
              send_to_client c.manager server_addr
                (input_packet (record { tick = p.predicted_tick; input_bitmask = 1 })) false false
                now)) [
                  | inl d' ↦ absurd (ground (arith, d, d', e))
                  | inr (m, d') ↦ ground (
                    arith,
                    d,
                    d',
                    e,
                    q,
                    q',
                    find-put_time p.predicted_tick p.predicted_tick now c.input_dispatch_times,
                    find-remove_time p.predicted_tick p.predicted_tick
                        (put_time p.predicted_tick now c.input_dispatch_times),
                  )
                ]
      ]
