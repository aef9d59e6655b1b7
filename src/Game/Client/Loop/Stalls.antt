-- ===== src/Game/Client/Loop/Stalls.antt =====
-- bin/client.rs: rounds of the client to which nothing arrives.
use riftnet_rust.Base.{
  ◌+◌, ◌^◌, ◌<◌, ◌≤◌, ◌≡◌, refl, Option, none, some, List, [], ◌∷◌, length, min, arith,
}
use riftnet_rust.Float.{F32, F32Cast}
use riftnet_rust.Compression.{Lz4}
use riftnet_rust.Encryption.{Aead}
use riftnet_rust.Connection.Table.{SocketAddr}
use riftnet_rust.Transport.Transporter.{NetworkReactor}
use riftnet_rust.Game.World.{Hasher}
use riftnet_rust.Game.Client.{steps_this_loop}
use riftnet_rust.Game.Client.Loop.{ClientClock, advance_client}
use riftnet_rust.Game.Client.State.{Client, target_tick}
use riftnet_rust.Game.Client.Loop.Lead.{steps_cases}
use riftnet_rust.Game.Client.Loop.Ready.{IsReady, stepped_lem, advance_client-Further}

module _ {A F R : Type 0} ⦃f : F32 F⦄ ⦃lz4 : Lz4⦄ ⦃aead : Aead⦄ ⦃addrs : SocketAddr A⦄
    ⦃hasher : Hasher⦄ ⦃net : NetworkReactor A R⦄ ⦃cast : F32Cast F⦄ (server_addr : A) where
  -- Rounds of the client without packets, one for each clock.
  abbrev pub advance_many : List ClientClock → Client A F R → Option (Client A F R)
  advance_many [] c = some c
  advance_many (clock ∷ clocks) c = elim (advance_client server_addr clock c) [
    | none ↦ none
    | some c' ↦ advance_many clocks c'
  ]

  -- A client with a position, a history with a slot for every tick, and queues whose flush does not
  -- panic, to which nothing arrives, does not panic in any number of rounds. If it is at most three ticks beyond its target, it
  -- stays so, and after as many rounds as it lacks ticks it stands three ticks beyond.
  pub stalls :
      (clocks : List ClientClock) (c : Client A F R)
      → IsReady c
      → target_tick c + 3 < 2 ^ 64
      → c.predictor.predicted_tick ≤ target_tick c + 3
      → (c' : Client A F R) × (advance_many clocks c ≡ some c')
        × (c'.predictor.predicted_tick ≤ target_tick c + 3)
        × (min (target_tick c + 3) (c.predictor.predicted_tick + length clocks)
            ≤ c'.predictor.predicted_tick)
  stalls [] c ready small within = (c, refl, within, omega arith)
  stalls (clock ∷ clocks) c ready small within =
      let (c1, e, v) = advance_client-Further server_addr clock c ready in
      let ticked =
        stepped_lem (steps_this_loop c.predictor.predicted_tick (target_tick c))
          c.predictor.predicted_tick (omega (arith, small, within)) in
      let steps = steps_cases c.predictor.predicted_tick (target_tick c) (omega (arith, small)) in
      let (c2, e', high, low) =
        stalls clocks c1 v.ready (omega (arith, small, v.same_target))
          (ground (arith, steps, v.ticked, ticked, v.same_target)) in
      (
        c2,
        rw (advance_many, e) e',
        omega (arith, high, v.same_target),
        ground (arith, steps, v.ticked, ticked, v.same_target, low),
      )
