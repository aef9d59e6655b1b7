-- ===== src/Game/Client/Loop/Panics.antt =====
-- bin/client.rs: a round of either loop panics on a truncated snapshot alone.
use riftnet_rust.Base.{
  ℕ, ◌≡◌, ◌&&◌, ◌⊎◌, false, not, ◌-◌, ◌^◌, inl, inr, refl, true, Option, none, some, [], ◌∷◌, ltb,
  arith, Bool-cases,
}
use riftnet_rust.Core.{Result-cases}
use riftnet_rust.Game.Client.State.{start}
use riftnet_rust.Game.Client.Loop.Ready.{IsReady}
use riftnet_rust.Protocol.History
use riftnet_rust.Float.{F32, F32Cast}
use riftnet_rust.Compression.{Lz4}
use riftnet_rust.Encryption.{Aead}
use riftnet_rust.Protocol.Packet.{InputPacket}
use riftnet_rust.Connection.Table.{SocketAddr}
use riftnet_rust.Connection.Manager.Sendable.{send_to_client_total}
use riftnet_rust.Transport.Transporter.{NetworkReactor, poll}
use riftnet_rust.Game.World.{Hasher}
use riftnet_rust.Game.Client.Loop.{ClientClock, play_round}
use riftnet_rust.Game.Client.State.{Client}
use riftnet_rust.Game.Ticks.{input_packet}
use riftnet_rust.Game.Client.Loop.{ask_again, sync_round}
use riftnet_rust.Game.Client.Loop.Ready.{flush_client-Further, IsReady, advance_client-Further}
use riftnet_rust.Game.Client.Loop.Taken.{poll_legible, take_packets_cases}

module _ {A F R : Type 0} ⦃addrs : SocketAddr A⦄ where
  -- The client that starts is ready.
  pub start-IsReady :
      (reactor : R) (now : ℕ) → (c : Client A F R) × (start reactor now ≡ some c) × IsReady c
  unfolding start History.new
  start-IsReady reactor now = (
    _,
    refl,
    record {
      sendable = tt;
      inhabited = (record { x = 0; y = 0; z = 0 }, [], refl);
      ring = (7, record { mask_ones = refl; slots = refl });
    },
  )

module _ {A F R : Type 0} ⦃f : F32 F⦄ ⦃lz4 : Lz4⦄ ⦃aead : Aead⦄ ⦃addrs : SocketAddr A⦄
    ⦃hasher : Hasher⦄ ⦃net : NetworkReactor A R⦄ ⦃cast : F32Cast F⦄ where
  -- What a round from a client that is ready comes to: it does not panic exactly if no packet that
  -- the manager hands over is a truncated snapshot, and then the next round may follow.
  abbrev pub Goes : ClientClock → Client A F R → Option (Client A F R) → Type 0
  Goes clock c result =
      ((c' : Client A F R) × (poll_legible clock (poll {A = A} c.transporter).0 c.manager ≡ true)
        × (result ≡ some c')
        × IsReady c')
      ⊎ ((poll_legible clock (poll {A = A} c.transporter).0 c.manager ≡ false) × (result ≡ none))

  play_round_cases :
      (server_addr : A) (clock : ClientClock) (c : Client A F R)
      → IsReady c
      → Goes clock c (play_round server_addr clock c)
  unfolding play_round
  play_round_cases server_addr clock c ready =
      let polled = poll {A = A} c.transporter in
      let c1 = record c { transporter = polled.1 } in
      let ready1 : IsReady c1 = record {
        sendable = ready.sendable;
        inhabited = ready.inhabited;
        ring = ready.ring;
      } in
      elim (Result-cases polled.0) [
        | inr (e, d) ↦
            (let (c3, e3, more) = advance_client-Further server_addr clock c1 ready1 in
              inl (c3, rw d refl, ground (arith, d, e3), more.ready))
        | inl (packets, d) ↦ elim (take_packets_cases true clock 0 packets c1 ready1) [
          | inr (l, d') ↦ inr (rw d l, ground (arith, d, d'))
          | inl (c2, l, d', ready2) ↦
              (let (c3, e3, more) = advance_client-Further server_addr clock c2 ready2 in
                inl (c3, rw d l, ground (arith, d, d', e3), more.ready))
        ]
      ]

  ask_again_total :
      (server_addr : A) (clock : ClientClock) (c : Client A F R)
      → IsReady c
      → (c' : Client A F R) × (ask_again server_addr clock c ≡ some c') × IsReady c'
  unfolding ask_again
  ask_again_total server_addr clock c ready =
      elim (Bool-cases (not c.synced && ltb (10 ^ 9) (clock.checked - c.last_seen_packet_time))) [
        | inr d ↦ (c, rw (ask_again, d) refl, ready)
        | inl d ↦
            (let pkt : InputPacket = record { tick = 0; input_bitmask = 0 } in
              let (m, e, sendable) =
                send_to_client_total c.manager server_addr (input_packet pkt) true false
                  clock.checked refl ready.sendable in
              let c1 = record c { manager = m } in
              let ready1 : IsReady c1 = record {
                sendable = sendable;
                inhabited = ready.inhabited;
                ring = ready.ring;
              } in
              let (c2, e2, more) = flush_client-Further server_addr clock c1 ready1 in
              (
                record c2 { last_seen_packet_time = clock.renewed },
                rw (ask_again, d, e, e2) refl,
                record {
                  sendable = more.ready.sendable;
                  inhabited = more.ready.inhabited;
                  ring = more.ready.ring;
                },
              ))
      ]

  sync_round_cases :
      (server_addr : A) (clock : ClientClock) (c : Client A F R)
      → IsReady c
      → Goes clock c (sync_round server_addr clock c)
  unfolding sync_round
  sync_round_cases server_addr clock c ready =
      let polled = poll {A = A} c.transporter in
      let c1 = record c { transporter = polled.1 } in
      let ready1 : IsReady c1 = record {
        sendable = ready.sendable;
        inhabited = ready.inhabited;
        ring = ready.ring;
      } in
      let (c3, e3, more) = ask_again_total server_addr clock c1 ready1 in
      elim (Result-cases polled.0) [
        | inr (e, d) ↦ inl (c3, rw d refl, ground (arith, d, e3), more)
        | inl ([], d) ↦ inl (c3, rw d refl, ground (arith, d, e3), more)
        | inl (p ∷ ps, d) ↦
            (let c2 = record c1 { last_seen_packet_time = clock.polled } in
              let ready2 : IsReady c2 = record {
                sendable = ready.sendable;
                inhabited = ready.inhabited;
                ring = ready.ring;
              } in
              elim (take_packets_cases false clock 0 (p ∷ ps) c2 ready2) [
                | inr (l, d') ↦ inr (rw d l, ground (arith, d, d'))
                | inl (c4, l, d', ready4) ↦
                    (let (c5, e5, more') = ask_again_total server_addr clock c4 ready4 in
                      inl (c5, rw d l, ground (arith, d, d', e5), more'))
              ])
      ]

  -- A round of either loop from a client that is ready, whatever arrives: where no packet that the
  -- manager hands over is a truncated snapshot, the round does not panic and leaves the client
  -- ready; where some is, the round panics.
  pub rounds_panic_iff :
      (server_addr : A) (clock : ClientClock) (c : Client A F R)
      → IsReady c
      → Goes clock c (sync_round server_addr clock c)
        × Goes clock c (play_round server_addr clock c)
  rounds_panic_iff server_addr clock c ready =
      (sync_round_cases server_addr clock c ready, play_round_cases server_addr clock c ready)
