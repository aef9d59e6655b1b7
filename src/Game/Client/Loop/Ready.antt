-- ===== src/Game/Client/Loop/Ready.antt =====
-- bin/client.rs: the part of a round of the client that follows its packets does not panic.
use riftnet_rust.Base.{
  ℕ, zero, suc, ◌+◌, ◌%◌, ◌^◌, ◌<◌, ◌≡◌, inl, inr, refl, ap, ◌∙◌, true, false, some, length, ltb,
  ◌==◌, ◌&&◌, arith, Bool-cases,
}
use riftnet_rust.Base.Bits.{u64}
use riftnet_rust.Base.Bytes.{to_le_bytes}
use riftnet_rust.Float.{F32, F32Cast}
use riftnet_rust.Compression.{Lz4}
use riftnet_rust.Encryption.{Aead}
use riftnet_rust.Protocol.Packet.{InputPacket, general_bytes}
use riftnet_rust.Connection.Conn.Numbers.{has_header}
use riftnet_rust.Connection.Table.{SocketAddr, Every}
use riftnet_rust.Connection.Manager.Sendable.{send_to_client_total, flush_all_total}
use riftnet_rust.Connection.Receive.Sendable.{Sendable}
use riftnet_rust.Transport.Transporter.{NetworkReactor, send_all}
use riftnet_rust.Protocol.History.{FrameRecord, insert}
use riftnet_rust.Protocol.History.Lookup.{IsRing, insert-IsRing, in_bounds-IsRing}
use riftnet_rust.Game.World.{WorldState, calculate_hash, Hasher}
use riftnet_rust.Game.World.Inhabited.{Inhabited, step_physics_total}
use riftnet_rust.Game.Ticks.{input_packet, put_time}
use riftnet_rust.Game.Client.{Predictor, predict, steps_this_loop}
use riftnet_rust.Game.Client.Loop.{
  ClientClock, flush_client, dispatch, dispatch_steps, advance_client,
}
use riftnet_rust.Game.Client.State.{Client, target_tick, prune, pulse}

input_packet_header : (pkt : InputPacket) → has_header (input_packet pkt) ≡ true
unfolding input_packet general_bytes to_le_bytes
input_packet_header pkt = refl

-- A tick after `n` steps.
abbrev pub stepped : ℕ → ℕ → ℕ
stepped zero t = t
stepped (suc n) t = stepped n (u64 (t + 1))

pub stepped_lem : (n t : ℕ) → t < 2 ^ 64 → stepped n t ≡ u64 (t + n)
stepped_lem zero t small = omega (arith, small)
stepped_lem (suc n) t small = omega (arith, stepped_lem n (u64 (t + 1)) (omega arith))

module _ {A F R : Type 0} ⦃addrs : SocketAddr A⦄ where
  -- What a round relies on, and keeps: flushes of the connections do not panic, the world has a
  -- position, and the history a slot for every tick.
  pub record IsReady (c : Client A F R) : Type 0 where
    pub sendable : Every Sendable c.manager.connections
    pub inhabited : Inhabited c.predictor.world
    pub ring : IsRing c.predictor.history

  -- Some steps further in the prediction, with the same knowledge of the server.
  pub record Further (n : ℕ) (c c' : Client A F R) : Type 0 where
    pub ready : IsReady c'
    pub ticked : c'.predictor.predicted_tick ≡ stepped n c.predictor.predicted_tick
    pub same_target : target_tick c' ≡ target_tick c

module _ ⦃hasher : Hasher⦄ where
  pub predict_total :
      (p : Predictor) (input : ℕ)
      → Inhabited p.world
      → IsRing p.history
      → (p' : Predictor) × (predict p input ≡ some p')
        × Inhabited p'.world
        × IsRing p'.history
        × (p'.predicted_tick ≡ u64 (p.predicted_tick + 1))
  unfolding predict
  predict_total p input there ring =
      let (w, e, there') = step_physics_total p.world input there in
      let tick = u64 (p.predicted_tick + 1) in
      let frame : FrameRecord WorldState ℕ = record {
        tick = tick;
        state = w;
        state_hash = calculate_hash w;
        input = 1;
      } in
      (
        record p { world = w; predicted_tick = tick; history = insert p.history frame },
        rw (predict, e, in_bounds-IsRing p.history tick ring) refl,
        there',
        insert-IsRing p.history frame ring,
        refl,
      )

module _ {A F R : Type 0} ⦃f : F32 F⦄ ⦃lz4 : Lz4⦄ ⦃aead : Aead⦄ ⦃addrs : SocketAddr A⦄
    ⦃hasher : Hasher⦄ ⦃net : NetworkReactor A R⦄ ⦃cast : F32Cast F⦄ (server_addr : A) where
  dispatch-Further :
      (now : ℕ) (c : Client A F R)
      → IsReady c
      → (c' : Client A F R) × (dispatch server_addr now c ≡ some c') × Further 1 c c'
  unfolding dispatch target_tick
  dispatch-Further now c ready =
      let (p, e, there, ring, ticked) = predict_total c.predictor 1 ready.inhabited ready.ring in
      let pkt : InputPacket = record { tick = p.predicted_tick; input_bitmask = 1 } in
      let (m, e', sendable) =
        send_to_client_total c.manager server_addr (input_packet pkt) false false now
          (input_packet_header pkt) ready.sendable in
      (
        record c {
          predictor = p;
          manager = m;
          input_dispatch_times = put_time p.predicted_tick now c.input_dispatch_times;
        },
        rw (dispatch, e, e') refl,
        record {
          ready = record { sendable = sendable; inhabited = there; ring = ring };
          ticked = ticked;
          same_target = refl;
        },
      )

  dispatch_steps-Further :
      (clock : ClientClock) (n : ℕ) (c : Client A F R)
      → IsReady c
      → (c' : Client A F R) × (dispatch_steps server_addr clock n c ≡ some c') × Further n c c'
  unfolding dispatch_steps
  dispatch_steps-Further clock zero c ready =
      (c, refl, record { ready = ready; ticked = refl; same_target = refl })
  dispatch_steps-Further clock (suc n) c ready =
      let (c1, e, v) = dispatch-Further (clock.dispatched n) c ready in
      let (c2, e', v') = dispatch_steps-Further clock n c1 v.ready in
      (
        c2,
        rw (dispatch_steps, e) e',
        record {
          ready = v'.ready;
          ticked = v'.ticked ∙ ap (stepped n) v.ticked;
          same_target = v'.same_target ∙ v.same_target;
        },
      )

  pub flush_client-Further :
      (clock : ClientClock) (c : Client A F R)
      → IsReady c
      → (c' : Client A F R) × (flush_client clock c ≡ some c') × Further 0 c c'
  unfolding flush_client target_tick
  flush_client-Further clock c ready =
      let (m, sent, e, sendable) = flush_all_total c.manager clock.flushed ready.sendable in
      (
        record c { manager = m; transporter = send_all sent c.transporter },
        rw (flush_client, e) refl,
        record {
          ready = record { sendable = sendable; inhabited = ready.inhabited; ring = ready.ring };
          ticked = refl;
          same_target = refl;
        },
      )

  prune-Further : (c : Client A F R) → IsReady c → Further 0 c (prune c)
  unfolding prune target_tick
  prune-Further c ready = elim (Bool-cases (ltb 128 (length c.input_dispatch_times))) [
    | inl d ↦
        rw (prune, d)
          (record {
            ready = record {
              sendable = ready.sendable;
              inhabited = ready.inhabited;
              ring = ready.ring;
            };
            ticked = refl;
            same_target = refl;
          })
    | inr d ↦ rw (prune, d) (record { ready = ready; ticked = refl; same_target = refl })
  ]

  pulse-Further : (n : ℕ) (c : Client A F R) → IsReady c → Further 0 c (pulse n c)
  unfolding pulse target_tick
  pulse-Further n c ready = elim (Bool-cases (ltb 0 n && (c.predictor.predicted_tick % 60 == 0))) [
    | inl d ↦
        rw (pulse, d)
          (record {
            ready = record {
              sendable = ready.sendable;
              inhabited = ready.inhabited;
              ring = ready.ring;
            };
            ticked = refl;
            same_target = refl;
          })
    | inr d ↦ rw (pulse, d) (record { ready = ready; ticked = refl; same_target = refl })
  ]

  -- A round after its packets goes on by the steps that the tick and its target ask for.
  pub advance_client-Further :
      (clock : ClientClock) (c : Client A F R)
      → IsReady c
      → (c' : Client A F R) × (advance_client server_addr clock c ≡ some c')
        × Further (steps_this_loop c.predictor.predicted_tick (target_tick c)) c c'
  unfolding advance_client
  advance_client-Further clock c ready =
      let steps = steps_this_loop c.predictor.predicted_tick (target_tick c) in
      let (c1, e1, v1) = dispatch_steps-Further clock steps c ready in
      let v2 = prune-Further c1 v1.ready in
      let (c3, e3, v3) = flush_client-Further clock (prune c1) v2.ready in
      let v4 = pulse-Further steps c3 v3.ready in
      (
        pulse steps c3,
        rw (advance_client, e1, e3) refl,
        record {
          ready = v4.ready;
          ticked = v4.ticked ∙ (v3.ticked ∙ (v2.ticked ∙ v1.ticked));
          same_target = v4.same_target ∙ (v3.same_target ∙ (v2.same_target ∙ v1.same_target));
        },
      )
