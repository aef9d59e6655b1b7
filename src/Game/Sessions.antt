-- ===== src/Game/Sessions.antt =====
-- bin/server.rs: the sessions of the clients, and the inputs of a tick. The `HashMap` of sessions is
-- the list of its entries in the order of an iteration; the `BTreeMap` of inputs is the list of its
-- entries.
pub mod Inputs
pub mod Order
use riftnet_rust.Base.{
  ℕ, ◌≡◌, Bool, true, false, List, [], ◌∷◌, Option, none, some, ltb, ◌==◌, if◌then◌else◌, bit_or,
}
use riftnet_rust.Protocol.Packet.{InputPacket}
use riftnet_rust.Connection.Table.{SocketAddr, lookup, put}
use riftnet_rust.Game.World.{WorldState, step_physics}

pub record ClientSession : Type 0 where
  pub input_buffer : List (ℕ × ℕ)
  pub last_known_input : ℕ
  pub latest_input_tick : ℕ

abbrev pub fresh_session : ClientSession
fresh_session = record { input_buffer = []; last_known_input = 0; latest_input_tick = 0 }

-- `BTreeMap::get`, and `insert`, which replaces the value of its key.
abbrev pub find_input : ℕ → List (ℕ × ℕ) → Option ℕ
find_input t [] = none
find_input t ((k, v) ∷ m) = if k == t then some v else find_input t m

abbrev pub put_input : ℕ → ℕ → List (ℕ × ℕ) → List (ℕ × ℕ)
put_input t v [] = (t, v) ∷ []
put_input t v ((k, w) ∷ m) =
    let rest = put_input t v m in if k == t then (k, v) ∷ m else (k, w) ∷ rest

-- `retain` of the ticks that are still to come.
abbrev pub future : ℕ → List (ℕ × ℕ) → List (ℕ × ℕ)
future now [] = []
future now ((k, v) ∷ m) = let rest = future now m in if ltb now k then (k, v) ∷ rest else rest

-- An input packet in the session of its sender.
unfoldable pub store_input : ClientSession → InputPacket → ClientSession
store_input s pkt = record s {
  input_buffer = put_input pkt.tick pkt.input_bitmask s.input_buffer;
  latest_input_tick = pkt.tick;
}

-- The session of a sender, made if there is none.
unfoldable pub receive_input :
    {A : Type 0} ⦃addrs : SocketAddr A⦄
    → List (A × ClientSession)
    → A
    → InputPacket
    → List (A × ClientSession)
receive_input sessions sender pkt = elim (lookup sender sessions) [
  | none ↦ put sender (store_input fresh_session pkt) sessions
  | some s ↦ put sender (store_input s pkt) sessions
]

-- What a session contributes to a tick.
abbrev pub current_input : ℕ → ClientSession → ℕ
current_input now s = elim (find_input now s.input_buffer) [
  | none ↦ s.last_known_input
  | some v ↦ v
]

-- A session in the loop of a tick. The entry of the tick itself is removed with those before it.
unfoldable pub advance_session : ℕ → ClientSession → ClientSession
advance_session now s = record s {
  last_known_input = current_input now s;
  input_buffer = future now s.input_buffer;
}

-- The loop over the sessions: the sessions afterwards and `inputs_this_tick`, from its value before.
unfoldable pub run_sessions :
    {A : Type 0} → ℕ → List (A × ClientSession) → ℕ → List (A × ClientSession) × ℕ
run_sessions now [] inputs = ([], inputs)
run_sessions now ((a, s) ∷ rest) inputs =
    let s' = advance_session now s in
    let (rest', inputs') = run_sessions now rest (bit_or inputs s'.last_known_input) in
    ((a, s') ∷ rest', inputs')

-- Step 3 of the server's loop.
unfoldable pub run_tick :
    {A : Type 0}
    → ℕ
    → List (A × ClientSession)
    → WorldState
    → Option (List (A × ClientSession) × WorldState)
run_tick now sessions world =
    let (sessions', inputs) = run_sessions now sessions 0 in
    elim (step_physics world inputs) [ none ↦ none | some world' ↦ some (sessions', world') ]
