-- ===== src/Game/Swarm/Total.antt =====
-- bin/client_swarm.rs: the loop of the swarm does not panic.
use riftnet_rust.Base.{
  ◌+◌, ltb, ℕ, suc, ◌≡◌, inl, inr, refl, true, some, List, [], ◌∷◌, ◌==◌, if◌then◌else◌, arith,
  Option-cases, Bool-cases, length,
}
use riftnet_rust.Base.Bytes.{take_bytes_cases}
use riftnet_rust.Core.{Result-cases}
use riftnet_rust.Float.{F32, F32Cast}
use riftnet_rust.Protocol.History
use riftnet_rust.Connection.Table.{SocketAddr, lookup, put, Every}
use riftnet_rust.Connection.Table.Keys.{Every-put, Every-lookup}
use riftnet_rust.Transport.Transporter.{NetworkReactor}
use riftnet_rust.Game.World.{Position, Hasher}
use riftnet_rust.Game.Ticks.{input_packet}
use riftnet_rust.Base.Bits.{u64}
use riftnet_rust.Game.Ticks.{find_time}
use riftnet_rust.Protocol.Packet.{SnapshotHeader, read_snapshot}
use riftnet_rust.Protocol.History.{FrameRecord, insert, get}
use riftnet_rust.Protocol.History.Lookup.{IsRing, insert-IsRing, in_bounds-IsRing}
use riftnet_rust.Game.Swarm.{
  FloatWorld, hash_floats, tick_step, padding, SwarmClient, Swarm, new_swarm_client, note_snapshot,
  correct, process_packet, prepare_packet, step_floats, tick, swarm_gain, client_of, ingest,
  tick_client, tick_clients, swarm_round, swarm_rounds,
}

-- A client's world has a position, and its history a slot for every tick.
pub record IsReady {F : Type 0} (c : SwarmClient F) : Type 0 where
  pub inhabited : (p : Position F) × (ps : List (Position F)) × (c.world.positions ≡ p ∷ ps)
  pub ring : IsRing c.history

module _ {F : Type 0} where
  correct_total :
      (c : SwarmClient F) (snap : SnapshotHeader)
      → IsReady c
      → (c' : SwarmClient F) × (correct c snap ≡ some c') × IsReady c'
  unfolding correct
  correct_total c snap ready =
      let inside = in_bounds-IsRing c.history snap.tick ready.ring in
      elim (Option-cases (get c.history snap.tick)) [
        | inl d ↦ (c, rw (correct, inside, d) refl, ready)
        | inr (local, d) ↦ elim (Bool-cases (local.state_hash == snap.state_hash)) [
          | inl same ↦ (c, rw (correct, inside, d, same) refl, ready)
          | inr differs ↦ (
            record c { predicted_tick = u64 (snap.tick + padding c.current_rtt_ms) },
            rw (correct, inside, d, differs) refl,
            record { inhabited = ready.inhabited; ring = ready.ring },
          )
        ]
      ]

  note_snapshot-IsReady :
      (c : SwarmClient F) (now : ℕ) (snap : SnapshotHeader)
      → IsReady c
      → IsReady (note_snapshot c now snap)
  unfolding note_snapshot
  note_snapshot-IsReady c now snap ready =
      elim (Option-cases (find_time snap.last_input_tick c.input_dispatch_times)) [
        | inl d ↦ rw (note_snapshot, d) (record { inhabited = ready.inhabited; ring = ready.ring })
        | inr (sent, d) ↦
            rw (note_snapshot, d) (record { inhabited = ready.inhabited; ring = ready.ring })
      ]

  -- The slice and the access of the history are in bounds, whatever the packet is.
  process_packet_total :
      (c : SwarmClient F) (now : ℕ) (packet : List ℕ)
      → IsReady c
      → (c' : SwarmClient F) × (process_packet c now packet ≡ some c') × IsReady c'
  unfolding process_packet
  process_packet_total c now packet ready = elim (Bool-cases (ltb (length packet) 25)) [
    | inl short ↦ (c, rw (process_packet, short) refl, ready)
    | inr long ↦ elim (take_bytes_cases 1 packet) [
      | inl (short, d) ↦ absurd (ground (arith, long, short))
      | inr (header, rest, d, len) ↦ elim (Option-cases (read_snapshot rest)) [
        | inl d' ↦ (c, rw (process_packet, long, d, d') refl, ready)
        | inr (snap, d') ↦
            (let (c', e, ready') =
                correct_total (note_snapshot c now snap) snap
                  (note_snapshot-IsReady c now snap ready) in
              (c', rw (process_packet, long, d, d') e, ready'))
      ]
    ]
  ]

module _ {F : Type 0} ⦃f : F32 F⦄ where
  new_swarm_client_total : (c : SwarmClient F) × (new_swarm_client ≡ some c) × IsReady c
  unfolding new_swarm_client History.new
  new_swarm_client_total = (
    _,
    refl,
    record { inhabited = (_, [], refl); ring = (7, record { mask_ones = refl; slots = refl }) },
  )

  module _ ⦃cast : F32Cast F⦄ ⦃hasher : Hasher⦄ where
    tick_total :
        (c : SwarmClient F) (gain : F) (now : ℕ)
        → IsReady c
        → (c' : SwarmClient F) × (tick c gain now ≡ some c') × IsReady c'
    unfolding tick step_floats
    tick_total c gain now ready =
        let (p, ps, e) = ready.inhabited in
        let inside =
          in_bounds-IsRing c.history (u64 (c.predicted_tick + tick_step c gain)) ready.ring in
        elim (Option-cases (tick c gain now)) [
          | inl d ↦ absurd (ground (arith, e, inside, d))
          | inr (c', d) ↦
              (let moved : FloatWorld F = record {
                positions = record p { x = f.add p.x (f.lit 1 100) } ∷ ps;
              } in
                let predicted = u64 (c.predicted_tick + tick_step c gain) in
                let frame : FrameRecord (FloatWorld F) ℕ = record {
                  tick = predicted;
                  state = moved;
                  state_hash = hash_floats moved;
                  input = 1;
                } in
                let kept : c'.history ≡ insert c.history frame = ground (arith, e, inside, d) in
                (
                  c',
                  d,
                  record {
                    inhabited = (
                      record p { x = f.add p.x (f.lit 1 100) },
                      ps,
                      ground (arith, e, inside, d),
                    );
                    ring = rw kept (insert-IsRing c.history frame ready.ring);
                  },
                ))
        ]

    module _ {A : Type 0} ⦃addrs : SocketAddr A⦄ where
      ingest_total :
          (received : ℕ → ℕ) (i : ℕ) (packets : List (List ℕ × A))
          (swarm : List (A × SwarmClient F))
          → Every IsReady swarm
          → (swarm' : List (A × SwarmClient F)) × (ingest received i packets swarm ≡ some swarm')
            × Every IsReady swarm'
      unfolding ingest client_of
      ingest_total received i [] swarm ready = (swarm, refl, ready)
      ingest_total received i ((packet, sender) ∷ rest) swarm ready =
          let known : (c : SwarmClient F) × (client_of sender swarm ≡ some c) × IsReady c =
            elim (Option-cases (lookup sender swarm)) [
              | inl d ↦
                  (let (c, e, there) = new_swarm_client_total in (c, rw (client_of, d) e, there))
              | inr (c, d) ↦
                  (c, rw (client_of, d) refl, Every-lookup IsReady sender c swarm ready d)
            ] in
          let (c, e, there) = known in
          let (c1, d, there1) = process_packet_total c (received i) packet there in
          let (swarm', e', ready') =
            ingest_total received (suc i) rest (put sender c1 swarm)
              (Every-put IsReady sender c1 swarm there1 ready) in
          (swarm', rw (ingest, e, d) e', ready')

      module _ {R : Type 0} ⦃net : NetworkReactor A R⦄ where
        tick_client_total :
            (now : ℕ) (addr : A) (c : SwarmClient F) (r : R)
            → IsReady c
            → (c' : SwarmClient F) × (r' : R) × (tick_client now addr c r ≡ some (c', r'))
              × IsReady c'
        unfolding tick_client
        tick_client_total now addr c r there = elim (Bool-cases (c.last_server_tick == 0)) [
          | inl d ↦ (c, r, rw (tick_client, d) refl, there)
          | inr d ↦
              (let (c', e, there') = tick_total c swarm_gain now there in
                (
                  c',
                  (net.send_packet r (prepare_packet c') addr).1,
                  rw (tick_client, d, e) refl,
                  there',
                ))
        ]

        tick_clients_total :
            (now : ℕ) (swarm : List (A × SwarmClient F)) (r : R)
            → Every IsReady swarm
            → (swarm' : List (A × SwarmClient F)) × (r' : R) × (tick_clients now swarm r
                ≡ some (swarm', r'))
              × Every IsReady swarm'
        unfolding tick_clients
        tick_clients_total now [] r ready = ([], r, refl, tt)
        tick_clients_total now ((a, c) ∷ rest) r ready =
            let (c', r1, e, there) = tick_client_total now a c r ready.0 in
            let (rest', r2, e', ready') = tick_clients_total now rest r1 ready.1 in
            ((a, c') ∷ rest', r2, rw (tick_clients, e, e') refl, (there, ready'))

        swarm_round_total :
            (server_addr : A) (received : ℕ → ℕ) (now : ℕ) (s : Swarm A F R)
            → Every IsReady s.swarm
            → (s' : Swarm A F R) × (swarm_round server_addr received now s ≡ some s')
              × Every IsReady s'.swarm
        unfolding swarm_round
        swarm_round_total server_addr received now s ready =
            let greeting = input_packet (record { tick = 0; input_bitmask = 0 }) in
            let polled = net.poll_packets (
              if s.discovered_server
              then s.reactor
              else (net.send_packet s.reactor greeting server_addr).1) in
            elim (Result-cases polled.0) [
              | inl (packets, d) ↦
                  (let (heard, e, ready1) = ingest_total received 0 packets s.swarm ready in
                    let (swarm, r, e', ready2) = tick_clients_total now heard polled.1 ready1 in
                    (
                      record {
                        swarm = swarm;
                        reactor = r;
                        discovered_server =
                            if length packets == 0 then s.discovered_server else true;
                      },
                      rw (swarm_round, d, e, e') refl,
                      ready2,
                    ))
              | inr (fault, d) ↦
                  (let (swarm, r, e', ready2) = tick_clients_total now s.swarm polled.1 ready in
                    (record s { swarm = swarm; reactor = r }, rw (swarm_round, d, e') refl, ready2))
            ]

        swarm_rounds-ready :
            (server_addr : A) (clocks : List ((ℕ → ℕ) × ℕ)) (s : Swarm A F R)
            → Every IsReady s.swarm
            → (s' : Swarm A F R) × (swarm_rounds server_addr clocks s ≡ some s')
        unfolding swarm_rounds
        swarm_rounds-ready server_addr [] s ready = (s, refl)
        swarm_rounds-ready server_addr ((received, now) ∷ rest) s ready =
            let (s1, e, ready1) = swarm_round_total server_addr received now s ready in
            let (s', e') = swarm_rounds-ready server_addr rest s1 ready1 in
            (s', rw (swarm_rounds, e) e')

        -- However many rounds the swarm runs from no clients, over whatever reactor and at whatever
        -- instants, none panics.
        pub swarm_rounds_total :
            (server_addr : A) (clocks : List ((ℕ → ℕ) × ℕ)) (s : Swarm A F R)
            → s.swarm ≡ []
            → (s' : Swarm A F R) × (swarm_rounds server_addr clocks s ≡ some s')
        swarm_rounds_total server_addr clocks s e =
            swarm_rounds-ready server_addr clocks s (rw e tt)
