-- ===== src/Tests/Players.antt =====
-- The client's prediction, rollback and loops on concrete values.
use riftnet_rust.Base.{
  none, ℕ, ◌+◌, ◌<◌, ◌≤◌, ◌≡◌, ◌⊎◌, inl, inr, refl, false, some, List, [], ◌∷◌, arith, min,
}
use riftnet_rust.Protocol.History.{FrameRecord, HistoryBuffer, get}
use riftnet_rust.Protocol.History.Lookup.{IsValid}
use riftnet_rust.Base.Bytes.{to_le_bytes, from_le_bytes, take_bytes}
use riftnet_rust.Protocol.Packet.{general_bytes, read_general, read_snapshot, snapshot_bytes}
use riftnet_rust.Connection.Conn
use riftnet_rust.Connection.Conn.{flush_unreliable, get_tx_nonce}
use riftnet_rust.Connection.Receive.{receive_packet, receive_unreliable}
use riftnet_rust.Connection.Manager.{handle_packet, open_connection}
use riftnet_rust.Connection.Table.{lookup, put}
use riftnet_rust.Transport.Transporter.{poll}
use riftnet_rust.Transport.Transporter
use riftnet_rust.Game.World.{WorldState, calculate_hash, step_physics}
use riftnet_rust.Game.Client.{
  Predictor, reconcile, snapshot_packet, read_snapshot_packet, read_position,
}
use riftnet_rust.Game.Client.Agreement.{world_after, predict_many, no_rollback}
use riftnet_rust.Game.Client.CatchUp.{Moving, rollback_catches_up}
use riftnet_rust.Game.Client.Loop.{
  ClientClock, sync, sync_round, ask_again, take_packets, play_round,
}
use riftnet_rust.Game.Client.State.{Client, target_tick, take_packet, take_sync}
use riftnet_rust.Game.Client.Loop.Lead.{follow, lead_settles}
use riftnet_rust.Game.Client.Loop.Ready.{IsReady}
use riftnet_rust.Game.Client.Loop.Stalls.{advance_many, stalls}
use riftnet_rust.Game.Client.Loop.Panics.{Goes, rounds_panic_iff}
use riftnet_rust.Game.Client.Loop.Sync.{newest_heard, Synced, sync-Synced}
use riftnet_rust.Tests.{thousandths, stored, tagged, numbered, whole, or_else}
use riftnet_rust.Tests.Games.{summed, spot, world, predictor, history-IsValid, snap}
use riftnet_rust.Tests.Servers.{scripted, snap_frame, peers}

lead_settles_example : (10 + 3 ≤ follow 3 10 8) × (follow 3 10 8 ≤ 10 + 3 + 2)
lead_settles_example = lead_settles 3 10 8 (omega arith) (omega arith) (omega arith)

-- The server moves the world twice.
two_ticks : world_after (1 ∷ 3 ∷ []) world ≡ some (record { positions = spot 30 ∷ [] })
unfolding step_physics
two_ticks = refl

no_rollback_example :
    (c1 : Predictor) × (c2 : Predictor) × (predict_many 2 predictor ≡ some c1)
    × (predict_many 1 c1 ≡ some c2)
    × (c1.predicted_tick ≡ 9)
    × (reconcile c2
          (record {
            tick = c1.predicted_tick;
            state_hash = calculate_hash (record { positions = spot 30 ∷ [] });
            last_input_tick = 4;
          })
          (spot 30)
        ≡ some c2)
no_rollback_example =
    no_rollback 2 1 1 (3 ∷ []) predictor (record { positions = spot 30 ∷ [] }) 4 (spot 30) refl
      history-IsValid (omega arith) (omega arith) (refl, (refl, tt)) two_ticks

-- A client with a frame for each tick from 5 to 8.
abbrev frame : ℕ → FrameRecord WorldState ℕ
frame t = record { tick = t; state = world; state_hash = 15; input = 1 }

abbrev frames : HistoryBuffer WorldState ℕ
frames = record {
  buffer = some (frame 8) ∷ some (frame 5) ∷ some (frame 6) ∷ some (frame 7) ∷ [];
  mask = 3;
}

frames-IsValid : IsValid 2 frames
frames-IsValid = record { mask_ones = refl; slots = refl }

ahead_cases : (t : ℕ) → 5 < t → t ≤ 8 → (t ≡ 6) ⊎ ((t ≡ 7) ⊎ (t ≡ 8))
ahead_cases t above below = omega arith

frames_found :
    (get frames 5 ≡ some (frame 5))
    × (get frames 6 ≡ some (frame 6))
    × (get frames 7 ≡ some (frame 7))
    × (get frames 8 ≡ some (frame 8))
unfolding get
frames_found = (refl, refl, refl, refl)

frames_move : Moving frames 5 3
frames_move t above below = elim (ahead_cases t above below) [
  | inl e ↦ rw e (frame 6, frames_found.1, refl)
  | inr (inl e) ↦ rw e (frame 7, frames_found.2, refl)
  | inr (inr e) ↦ rw e (frame 8, frames_found.3, refl)
]

three_ticks :
    world_after (1 ∷ 1 ∷ 3 ∷ []) (record { positions = spot 12 ∷ [] })
    ≡ some (record { positions = spot 42 ∷ [] })
unfolding step_physics
three_ticks = refl

abbrev diverged : Predictor
diverged = record { world = world; history = frames; predicted_tick = 8; rollbacks_this_sec = 0 }

rollback_catches_up_example :
    (c' : Predictor) × (reconcile diverged snap (spot 12) ≡ some c')
    × (c'.predicted_tick ≡ 8)
    × (c'.world ≡ record { positions = spot 42 ∷ [] })
rollback_catches_up_example =
    rollback_catches_up 2 1 1 3 diverged snap (spot 12) (frame 5)
      (record { positions = spot 42 ∷ [] }) frames-IsValid (omega arith) (omega arith)
      frames_found.0 refl frames_move (refl, (refl, (refl, tt))) three_ticks

-- A client to which nothing arrives.
abbrev playing : Client ℕ ℕ (List (List ℕ × ℕ))
playing = record {
  transporter = Transporter.new [] 128;
  manager = record { connections = [] };
  predictor = predictor;
  input_dispatch_times = [];
  last_server_tick = 5;
  current_rtt_ms = 70;
  last_seen_packet_time = 0;
  last_ema = 0;
  synced = false;
}

abbrev clock : ClientClock
clock = record {
  polled = 4;
  received = λ i. 5;
  nanos = λ i. 99;
  checked = 2000000000;
  dispatched = λ n. 6;
  flushed = 8;
  renewed = 9;
}

playing-IsReady : IsReady playing
playing-IsReady = record {
  sendable = tt;
  inhabited = (spot 10, [], refl);
  ring = (2, history-IsValid);
}

playing_target : target_tick playing ≡ 10
unfolding target_tick
playing_target = refl

stalls_example :
    (c' : Client ℕ ℕ (List (List ℕ × ℕ))) × (advance_many {A = ℕ} {F = ℕ} 1
        (clock ∷ clock ∷ [])
        playing
      ≡ some c')
    × (c'.predictor.predicted_tick ≤ target_tick playing + 3)
    × (min (target_tick playing + 3) 9 ≤ c'.predictor.predicted_tick)
stalls_example =
    stalls 1 (clock ∷ clock ∷ []) playing playing-IsReady (omega (arith, playing_target))
      (omega (arith, playing_target))

-- A client that waits, and the server's first snapshot.
abbrev waiting : Client ℕ ℕ (List (List ℕ × ℕ))
waiting = record playing {
  transporter = Transporter.new ((snap_frame, 1) ∷ []) 128;
  manager = peers;
}

abbrev greeted : Client ℕ ℕ (List (List ℕ × ℕ))
greeted = or_else (sync 1 (clock ∷ clock ∷ []) waiting) waiting

greeted_made :
    (sync 1 (clock ∷ clock ∷ []) waiting ≡ some greeted) × (greeted.predictor.predicted_tick ≡ 8)
unfolding sync sync_round poll Transporter.new take_packets handle_packet open_connection lookup put
    receive_packet receive_unreliable read_general take_bytes from_le_bytes to_le_bytes
    flush_unreliable get_tx_nonce snapshot_packet general_bytes read_snapshot_packet read_snapshot
    read_position take_packet take_sync ask_again Conn.new snapshot_bytes
greeted_made = (refl, refl)

sync-Synced_example : Synced (newest_heard {A = ℕ} 1 (clock ∷ clock ∷ []) waiting none) greeted
sync-Synced_example = sync-Synced 1 (clock ∷ clock ∷ []) none waiting greeted refl greeted_made.0

-- A client that plays and takes the snapshot.
waiting-IsReady : IsReady waiting
unfolding Conn.new
waiting-IsReady = record {
  sendable = (refl, tt);
  inhabited = (spot 10, [], refl);
  ring = (2, history-IsValid);
}

rounds_panic_iff_example :
    Goes clock waiting (sync_round 1 clock waiting)
    × Goes clock waiting (play_round 1 clock waiting)
rounds_panic_iff_example = rounds_panic_iff 1 clock waiting waiting-IsReady
