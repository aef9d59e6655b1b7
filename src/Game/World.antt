-- ===== src/Game/World.antt =====
-- bin/server.rs and bin/client.rs: `WorldState`, which both have, on the vector of
-- crates/core/src/fixed_vec3.rs. An `i32` is its 32-bit pattern, and addition wraps.
pub mod Inhabited
pub mod Lerp
use riftnet_rust.Base.{ℕ, ◌+◌, List, [], ◌∷◌, Option, none, some, ◌==◌, if◌then◌else◌, bit_and}
use riftnet_rust.Base.Bits.{u32}

pub record FixedVec3 : Type 0 where
  pub x : ℕ
  pub y : ℕ
  pub z : ℕ

-- `[f32; 3]`
pub record Position (F : Type 0) : Type 0 where
  pub x : F
  pub y : F
  pub z : F

pub record WorldState : Type 0 where
  pub positions : List FixedVec3

-- The standard library's `DefaultHasher` on the words that are written to it, in order.
pub record Hasher : Type 0 where
  pub hash_words : List ℕ → ℕ

pub coordinates : List FixedVec3 → List ℕ
coordinates [] = []
coordinates (p ∷ ps) = p.x ∷ p.y ∷ p.z ∷ coordinates ps

unfoldable pub calculate_hash : ⦃hasher : Hasher⦄ → WorldState → ℕ
unfolding coordinates
calculate_hash ⦃hasher⦄ w = hasher.hash_words (coordinates w.positions)

-- The first position moves; with none the index panics: `none`.
abbrev pub move_first : List FixedVec3 → Option (List FixedVec3)
move_first [] = none
move_first (p ∷ ps) = some (record p { x = u32 (p.x + 10) } ∷ ps)

unfoldable pub step_physics : WorldState → ℕ → Option WorldState
step_physics w input = if bit_and input 1 == 0 then some w else elim (move_first w.positions) [
  | none ↦ none
  | some moved ↦ some (record { positions = moved })
]

-- The world that the server and the client begin with.
abbrev pub origin : WorldState
origin = record { positions = record { x = 0; y = 0; z = 0 } ∷ [] }
