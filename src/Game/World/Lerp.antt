-- ===== src/Game/World/Lerp.antt =====
-- bin/server.rs and bin/client.rs: the interpolation of a world, and the conversions of
-- crates/core/src/fixed_vec3.rs.
use riftnet_rust.Base.{
  ℕ, ◌+◌, ◌-◌, ◌^◌, ◌<◌, ◌≤◌, ◌≡◌, ◌⊎◌, inl, inr, refl, ◌∙◌, ap, List, [], ◌∷◌, arith,
}
use riftnet_rust.Base.Bits.{u32}
use riftnet_rust.Float.{F32, F32Cast, IsF32Cast}
use riftnet_rust.Transport.Interpolator.{Interpolatable}
use riftnet_rust.Game.World.{FixedVec3, Position, WorldState}

module _ {F : Type 0} ⦃f : F32 F⦄ ⦃cast : F32Cast F⦄ where
  -- `FixedVec3::SCALE as f32`
  abbrev pub scale : F
  scale = f.lit 1000 1

  -- `(x * Self::SCALE as f32).round() as i32`
  abbrev pub to_fixed : F → ℕ
  to_fixed x = cast.as_i32 (cast.round (f.mul x scale))

  unfoldable pub new_fixed : F → F → F → FixedVec3
  new_fixed x y z = record { x = to_fixed x; y = to_fixed y; z = to_fixed z }

  unfoldable pub to_f32 : FixedVec3 → Position F
  to_f32 v = record {
    x = cast.div (cast.of_i32 v.x) scale;
    y = cast.div (cast.of_i32 v.y) scale;
    z = cast.div (cast.of_i32 v.z) scale;
  }

  -- `a.x + ((b.x - a.x) as f32 * factor).round() as i32`, on 32-bit patterns.
  unfoldable pub lerp_coordinate : ℕ → ℕ → F → ℕ
  lerp_coordinate a b factor =
      u32 (a + cast.as_i32 (cast.round (f.mul (cast.of_i32 (u32 (b + 2 ^ 32 - a))) factor)))

  -- The positions of both worlds in pairs; the longer world's others are left out.
  unfoldable pub lerp_positions : List FixedVec3 → List FixedVec3 → F → List FixedVec3
  lerp_positions [] bs factor = []
  lerp_positions (a ∷ as') [] factor = []
  lerp_positions (a ∷ as') (b ∷ bs) factor =
      record {
        x = lerp_coordinate a.x b.x factor;
        y = lerp_coordinate a.y b.y factor;
        z = lerp_coordinate a.z b.z factor;
      }
      ∷ lerp_positions as' bs factor

  instance abbrev pub lerp_world : Interpolatable WorldState F
  lerp_world = record {
    lerp = λ a b factor. record { positions = lerp_positions a.positions b.positions factor };
  }

-- Two 32-bit patterns whose difference has at most 24 bits.
abbrev pub Near : ℕ → ℕ → Type 0
Near a b =
    (a < 2 ^ 32)
    × (b < 2 ^ 32)
    × ((u32 (b + 2 ^ 32 - a) ≤ 2 ^ 24) ⊎ (2 ^ 32 ≤ u32 (b + 2 ^ 32 - a) + 2 ^ 24))

-- As many positions, each near the other world's.
abbrev pub NearPositions : List FixedVec3 → List FixedVec3 → Type 0
NearPositions [] [] = Unit
NearPositions [] (b ∷ bs) = ⊥
NearPositions (a ∷ as') [] = ⊥
NearPositions (a ∷ as') (b ∷ bs) =
    (Near a.x b.x × Near a.y b.y × Near a.z b.z) × NearPositions as' bs

module _ {F : Type 0} ⦃f : F32 F⦄ ⦃cast : F32Cast F⦄ (law : IsF32Cast f cast) where
  lerp_coordinate_ends :
      (a b : ℕ)
      → Near a b
      → (lerp_coordinate a b (f.lit 0 1) ≡ a) × (lerp_coordinate a b (f.lit 1 1) ≡ b)
  unfolding lerp_coordinate
  lerp_coordinate_ends a b (ha, hb, near) =
      let d = u32 (b + 2 ^ 32 - a) in
      let exact : cast.as_i32 (cast.round (cast.of_i32 d)) ≡ d = elim near [
        | inl small ↦ law.small_exact d small
        | inr negative ↦ law.negative_exact d negative (omega arith)
      ] in
      (
        ap u32 (ap (λ r. a + r) (law.times_zero d)) ∙ omega (arith, ha),
        ap (λ x. u32 (a + cast.as_i32 (cast.round x))) (law.times_one d)
            ∙ (ap (λ r. u32 (a + r)) exact ∙ omega (arith, ha, hb)),
      )

  lerp_positions_ends :
      (as' bs : List FixedVec3)
      → NearPositions as' bs
      → (lerp_positions as' bs (f.lit 0 1) ≡ as') × (lerp_positions as' bs (f.lit 1 1) ≡ bs)
  unfolding lerp_positions
  lerp_positions_ends [] [] near = (refl, refl)
  lerp_positions_ends [] (b ∷ bs) near = absurd near
  lerp_positions_ends (a ∷ as') [] near = absurd near
  lerp_positions_ends (a ∷ as') (b ∷ bs) ((nx, ny, nz), others) =
      let x = lerp_coordinate_ends a.x b.x nx in
      let y = lerp_coordinate_ends a.y b.y ny in
      let z = lerp_coordinate_ends a.z b.z nz in
      let rest = lerp_positions_ends as' bs others in
      (rw (x.0, y.0, z.0, rest.0) refl, rw (x.1, y.1, z.1, rest.1) refl)

  -- Between two worlds with as many positions, whose coordinates differ by at most 24 bits, the
  -- interpolation is the first world at factor 0 and the second at factor 1.
  pub lerp_ends :
      (a b : WorldState)
      → NearPositions a.positions b.positions
      → ((lerp_world {F = F}).lerp a b (f.lit 0 1) ≡ a)
        × ((lerp_world {F = F}).lerp a b (f.lit 1 1) ≡ b)
  lerp_ends a b near =
      let ends = lerp_positions_ends a.positions b.positions near in
      (ap (λ ps. record { positions = ps }) ends.0, ap (λ ps. record { positions = ps }) ends.1)
