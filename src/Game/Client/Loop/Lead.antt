-- ===== src/Game/Client/Loop/Lead.antt =====
-- bin/client.rs: how far ahead of the server the client predicts.
use riftnet_rust.Base.{ℕ, zero, suc, ◌+◌, ◌^◌, ◌<◌, ◌≤◌, ◌≡◌, ltb, if◌then◌else◌, arith}
use riftnet_rust.Base.Bits.{u64}
use riftnet_rust.Game.Client.{steps_this_loop}

-- The predicted tick after `n` rounds, while the target moves by one tick a round.
abbrev pub follow : ℕ → ℕ → ℕ → ℕ
follow zero target predicted = predicted
follow (suc n) target predicted =
    follow n (suc target) (u64 (predicted + steps_this_loop predicted target))

-- The steps of a round, by where the client stands.
pub steps_cases :
    (predicted target : ℕ)
    → target + 2 < 2 ^ 64
    → steps_this_loop predicted target
      ≡ (if ltb predicted target then 2 else if ltb (target + 2) predicted then 0 else 1)
unfolding steps_this_loop
steps_cases predicted target small = ground arith

-- While the target moves by one tick a round, with ticks in the range of their type, a client that
-- is at most `n` ticks behind the target, or at most `n` ticks ahead of the two that it may lead by,
-- is within these two ticks after `n` rounds.
pub lead_settles :
    (n target predicted : ℕ)
    → target ≤ predicted + n
    → predicted ≤ target + 2 + n
    → target + n + n + 4 < 2 ^ 64
    → (target + n ≤ follow n target predicted) × (follow n target predicted ≤ target + n + 2)
lead_settles zero target predicted behind ahead small = (omega arith, omega arith)
lead_settles (suc n) target predicted behind ahead small =
    let steps = steps_cases predicted target (omega arith) in
    let next = u64 (predicted + steps_this_loop predicted target) in
    let (low, high) =
      lead_settles n (suc target) next (ground (arith, steps)) (ground (arith, steps))
        (omega arith) in
    (omega (arith, low), omega (arith, high))
