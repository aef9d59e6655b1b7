-- ===== src/Game/Sessions/Inputs.antt =====
-- bin/server.rs: which input moves the world.
use riftnet_rust.Base.{
  ℕ, zero, suc, ◌+◌, ◌%◌, ◌<◌, ◌≡◌, ◌⊎◌, inl, inr, refl, ◌∙◌, Bool, true, false, List, [], ◌∷◌,
  none, some, ltb, ◌==◌, if◌then◌else◌, bit_or, ◌||◌, arith, Bool-cases,
}
use riftnet_rust.Base.Bits.{bit-bit_or, bit_and-one}
use riftnet_rust.Protocol.Packet.{InputPacket}
use riftnet_rust.Game.World.{FixedVec3, WorldState, step_physics, move_first}
use riftnet_rust.Game.Sessions.{
  ClientSession, find_input, put_input, future, store_input, current_input, advance_session,
  run_sessions, run_tick,
}

move_cases :
    (ps : List FixedVec3)
    → ((ps ≡ []) × (move_first ps ≡ none))
      ⊎ ((moved : List FixedVec3) × (move_first ps ≡ some moved))
move_cases [] = inl (refl, refl)
move_cases (p ∷ ps) = inr (_, refl)

step_physics_still :
    (w : WorldState) (input : ℕ) → (input % 2 == 1) ≡ false → step_physics w input ≡ some w
unfolding step_physics
step_physics_still w input still = ground (arith, bit_and-one input)

step_physics_moves :
    (w : WorldState) (input : ℕ) (moved : List FixedVec3)
    → (input % 2 == 1) ≡ true
    → move_first w.positions ≡ some moved
    → step_physics w input ≡ some (record { positions = moved })
unfolding step_physics
step_physics_moves w input moved moves found = ground (arith, bit_and-one input)

step_physics_panics :
    (w : WorldState) (input : ℕ)
    → (input % 2 == 1) ≡ true
    → move_first w.positions ≡ none
    → step_physics w input ≡ none
unfolding step_physics
step_physics_panics w input moves stuck = ground (arith, bit_and-one input)

find-put_input :
    (t k v : ℕ) (m : List (ℕ × ℕ))
    → find_input t (put_input k v m) ≡ (if k == t then some v else find_input t m)
find-put_input t k v [] = refl
find-put_input t k v ((j, w) ∷ m) = ground (arith, find-put_input t k v m)

find-future :
    (t now : ℕ) (m : List (ℕ × ℕ))
    → find_input t (future now m) ≡ (if ltb now t then find_input t m else none)
find-future t now [] = ground arith
find-future t now ((k, v) ∷ m) = ground (arith, find-future t now m)

-- A session after `n` ticks that follow the tick `now`.
abbrev pub advance_many : ℕ → ℕ → ClientSession → ClientSession
advance_many now zero s = s
advance_many now (suc n) s = advance_many (suc now) n (advance_session (suc now) s)

kept_until :
    (n now t v : ℕ) (s : ClientSession)
    → find_input t s.input_buffer ≡ some v
    → now + n < t
    → find_input t (advance_many now n s).input_buffer ≡ some v
unfolding advance_session
kept_until zero now t v s found later = found
kept_until (suc n) now t v s found later =
    kept_until n (suc now) t v (advance_session (suc now) s)
      (ground (arith, find-future t (suc now) s.input_buffer)) (omega arith)

-- An input packet for a tick that is still to come is what its session contributes to that tick,
-- however many ticks pass in between, if no other packet arrives; after that tick it is the last
-- input known.
pub input_at_its_tick :
    (now n : ℕ) (s : ClientSession) (pkt : InputPacket)
    → pkt.tick ≡ now + n + 1
    → (current_input pkt.tick (advance_many now n (store_input s pkt)) ≡ pkt.input_bitmask)
      × ((advance_session pkt.tick (advance_many now n (store_input s pkt))).last_known_input
          ≡ pkt.input_bitmask)
unfolding store_input advance_session
input_at_its_tick now n s pkt e =
    let found : find_input pkt.tick (advance_many now n (store_input s pkt)).input_buffer
        ≡ some pkt.input_bitmask =
      kept_until n now pkt.tick pkt.input_bitmask (store_input s pkt)
        (ground (arith, find-put_input pkt.tick pkt.tick pkt.input_bitmask s.input_buffer))
        (omega (arith, e)) in
    (rw (current_input, found) refl, rw (advance_session, current_input, found) refl)

module _ {A : Type 0} where
  -- Some session's input for the tick has its lowest bit set.
  abbrev pub any_moves : ℕ → List (A × ClientSession) → Bool
  any_moves now [] = false
  any_moves now ((a, s) ∷ rest) = current_input now s % 2 == 1 || any_moves now rest

  inputs_lowest :
      (now : ℕ) (sessions : List (A × ClientSession)) (inputs : ℕ)
      → (run_sessions now sessions inputs).1 % 2 == 1 ≡ (inputs % 2 == 1 || any_moves now sessions)
  unfolding run_sessions advance_session
  inputs_lowest now [] inputs = ground arith
  inputs_lowest now ((a, s) ∷ rest) inputs = ground (
    arith,
    inputs_lowest now rest (bit_or inputs (current_input now s)),
    bit-bit_or inputs (current_input now s) 0,
  )

  -- Whatever the order of the sessions, a tick moves the world exactly if the input of some session
  -- for that tick has its lowest bit set, and leaves it alone otherwise.
  pub run_tick-world :
      (now : ℕ) (sessions : List (A × ClientSession)) (world : WorldState)
      → let result = run_tick now sessions world in
        ((any_moves now sessions ≡ false)
          × (result ≡ some ((run_sessions now sessions 0).0, world)))
        ⊎ ((any_moves now sessions ≡ true)
            × (((world.positions ≡ []) × (result ≡ none))
                ⊎ ((moved : WorldState) × (move_first world.positions ≡ some moved.positions)
                    × (result ≡ some ((run_sessions now sessions 0).0, moved)))))
  unfolding run_tick
  run_tick-world now sessions world =
      let inputs = (run_sessions now sessions 0).1 in
      let lowest = inputs_lowest now sessions 0 in
      elim (Bool-cases (any_moves now sessions)) [
        | inl moves ↦ elim (move_cases world.positions) [
          | inl (none_there, stuck) ↦ inr (
            moves,
            inl (
              none_there,
              rw (run_tick, step_physics_panics world inputs (lowest ∙ moves) stuck) refl,
            ),
          )
          | inr (moved, found) ↦ inr (
            moves,
            inr (
              record { positions = moved },
              found,
              rw (run_tick, step_physics_moves world inputs moved (lowest ∙ moves) found) refl,
            ),
          )
        ]
        | inr still ↦
            inl (still, rw (run_tick, step_physics_still world inputs (lowest ∙ still)) refl)
      ]
