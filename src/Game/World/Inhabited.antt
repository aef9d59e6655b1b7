-- ===== src/Game/World/Inhabited.antt =====
-- bin/server.rs and bin/client.rs: a world with a position steps without a panic.
use riftnet_rust.Base.{ℕ, ◌+◌, ◌≡◌, inl, inr, refl, some, List, ◌∷◌, Bool-cases, ◌==◌, bit_and}
use riftnet_rust.Base.Bits.{u32}
use riftnet_rust.Game.World.{FixedVec3, WorldState, step_physics}

-- The world has a first position.
abbrev pub Inhabited : WorldState → Type 0
Inhabited w = (p : FixedVec3) × (ps : List FixedVec3) × (w.positions ≡ p ∷ ps)

pub step_physics_total :
    (w : WorldState) (input : ℕ)
    → Inhabited w
    → (w' : WorldState) × (step_physics w input ≡ some w') × Inhabited w'
unfolding step_physics
step_physics_total w input (p, ps, e) = elim (Bool-cases (bit_and input 1 == 0)) [
  | inl d ↦ (w, rw (step_physics, d) refl, (p, ps, e))
  | inr d ↦ (
    record { positions = record p { x = u32 (p.x + 10) } ∷ ps },
    rw (step_physics, d, e) refl,
    (record p { x = u32 (p.x + 10) }, ps, refl),
  )
]
