-- ===== src/Protocol/Window/Spec.antt =====
-- What the receive window of crates/protocol/src/protocol.rs promises, over sequence numbers that
-- do not wrap: a packet is new if it is ahead of all others, or at most 31 behind the highest and
-- not seen before.
use riftnet_rust.Base.{
  ℕ, ◌-◌, ◌||◌, ◌&&◌, not, Bool, Option, none, some, List, [], ◌∷◌, ltb, leb, ◌==◌, if◌then◌else◌,
}

pub record Receiver : Type 0 where
  pub highest : ℕ
  pub seen : ℕ → Bool

abbrev pub see : ℕ → (ℕ → Bool) → ℕ → Bool
see a seen n = a == n || seen n

-- The next receiver, or `none` for a packet that is refused.
unfoldable pub accept : Receiver → ℕ → Option Receiver
accept r a =
    if ltb r.highest a
    then some (record { highest = a; seen = see a r.seen })
    else if leb (r.highest - a) 31 && not (r.seen a)
    then some (record r { seen = see a r.seen })
    else none

-- The packets of a sequence that are accepted, in order.
unfoldable pub accepted : Receiver → List ℕ → List ℕ
accepted r [] = []
accepted r (a ∷ rest) = elim (accept r a) [
  | none ↦ accepted r rest
  | some r' ↦ a ∷ accepted r' rest
]
