-- ===== src/Transport/Interpolator.antt =====
-- crates/transport/src/interpolator.rs: the buffer of snapshots, oldest first.
pub mod Search
use riftnet_rust.Base.{
  ℕ, zero, suc, ◌&&◌, Bool, false, List, [], ◌∷◌, ◌++◌, Option, none, some, ltb, leb, if◌then◌else◌,
  length,
}

pub record Snapshot (T : Type 0) : Type 0 where
  pub tick : ℕ
  pub state : T

pub record Interpolator (T : Type 0) : Type 0 where
  pub buffer : List (Snapshot T)
  pub buffer_size : ℕ

-- The trait: a state between two others, at a factor.
pub record Interpolatable (T F : Type 0) : Type 0 where
  pub lerp : T → T → F → T

-- `VecDeque::back` and `pop_front`.
abbrev pub back {ℓ} : {A : Type ℓ} → List A → Option A
back [] = none
back (x ∷ []) = some x
back (x ∷ y ∷ xs) = back (y ∷ xs)

abbrev pub pop_front {ℓ} : {A : Type ℓ} → List A → List A
pop_front [] = []
pop_front (x ∷ xs) = xs

module _ {T : Type 0} where
  unfoldable pub new : ℕ → Interpolator T
  new buffer_size = record { buffer = []; buffer_size = buffer_size }

  -- Whether the snapshot is no newer than the last of the buffer.
  abbrev pub is_stale : Option (Snapshot T) → Snapshot T → Bool
  is_stale none s = false
  is_stale (some last) s = leb s.tick last.tick

  unfoldable pub push_snapshot : Interpolator T → Snapshot T → Interpolator T
  push_snapshot it s = if is_stale (back it.buffer) s then it else record it {
    buffer =
        (if leb it.buffer_size (length it.buffer) then pop_front it.buffer else it.buffer)
        ++ (s ∷ []);
  }

  module _ {F : Type 0} ⦃trait : Interpolatable T F⦄ where
    -- The loop over neighbours; with fewer than two snapshots there are none.
    unfoldable pub search : List (Snapshot T) → ℕ → F → Option T
    search [] render_tick factor = none
    search (a ∷ []) render_tick factor = none
    search (a ∷ b ∷ rest) render_tick factor =
        let later = search (b ∷ rest) render_tick factor in
        if leb a.tick render_tick && ltb render_tick b.tick
        then some (trait.lerp a.state b.state factor)
        else later

    unfoldable pub interpolate : Interpolator T → ℕ → F → Option T
    interpolate it render_tick factor =
        if ltb (length it.buffer) 2 then none else search it.buffer render_tick factor
