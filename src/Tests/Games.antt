-- ===== src/Tests/Games.antt =====
-- The world, the server's sessions and the client's rollback on concrete values.
use riftnet_rust.Base.{ℕ, ◌+◌, ◌<◌, ◌≡◌, ◌↔◌, refl, List, [], ◌∷◌, none, some}
use riftnet_rust.Protocol.Packet.{SnapshotHeader, InputPacket}
use riftnet_rust.Protocol.History.{FrameRecord, HistoryBuffer}
use riftnet_rust.Protocol.History.Lookup.{IsValid}
use riftnet_rust.Game.World.{FixedVec3, WorldState, Hasher}
use riftnet_rust.Game.Sessions.{
  ClientSession, fresh_session, store_input, current_input, advance_session,
}
use riftnet_rust.Game.Sessions.Inputs.{advance_many, input_at_its_tick}
use riftnet_rust.Game.Client.{Predictor, read_snapshot_packet}
use riftnet_rust.Game.Client.Snapshots.{read_snapshot_packet-none}

-- The sum of the words as their hash.
abbrev total : List ℕ → ℕ
total [] = 0
total (w ∷ ws) = w + total ws

instance abbrev pub summed : Hasher
summed = record { hash_words = total }

abbrev pub spot : ℕ → FixedVec3
spot x = record { x = x; y = 2; z = 3 }

abbrev pub world : WorldState
world = record { positions = spot 10 ∷ [] }

-- An input for tick 9 that arrives in tick 6.
abbrev early : InputPacket
early = record { tick = 9; input_bitmask = 1 }

input_at_its_tick_example :
    (current_input 9 (advance_many 6 2 (store_input fresh_session early)) ≡ 1)
    × ((advance_session 9 (advance_many 6 2 (store_input fresh_session early))).last_known_input
        ≡ 1)
input_at_its_tick_example = input_at_its_tick 6 2 fresh_session early refl

abbrev session : ℕ → ClientSession
session v = record { input_buffer = (4, v) ∷ []; last_known_input = 0; latest_input_tick = 4 }

abbrev sessions : List (ℕ × ClientSession)
sessions = (1, session 2) ∷ (2, session 3) ∷ []

abbrev pub snap : SnapshotHeader
snap = record { tick = 5; state_hash = 77; last_input_tick = 4 }

read_snapshot_packet-none_example : (read_snapshot_packet (3 ∷ 1 ∷ 2 ∷ []) ≡ none) ↔ (2 < 36)
read_snapshot_packet-none_example = read_snapshot_packet-none (1 ∷ 2 ∷ [])

-- A client whose frame for tick 5 has the hash 15.
abbrev local : FrameRecord WorldState ℕ
local = record { tick = 5; state = world; state_hash = 15; input = 1 }

abbrev history : HistoryBuffer WorldState ℕ
history = record { buffer = none ∷ some local ∷ none ∷ none ∷ []; mask = 3 }

pub history-IsValid : IsValid 2 history
history-IsValid = record { mask_ones = refl; slots = refl }

abbrev pub predictor : Predictor
predictor = record { world = world; history = history; predicted_tick = 7; rollbacks_this_sec = 0 }
