-- ===== src/Tests/Sequences.antt =====
-- Sequence numbers, the receive window, the replay window and the history buffer on concrete values.
use riftnet_rust.Base.{ℕ, ◌+◌, ◌^◌, ◌≤◌, ◌≡◌, List, [], ◌∷◌, ◌==◌, arith, count}
use riftnet_rust.Protocol.Window.Spec.{Receiver, accepted}
use riftnet_rust.Protocol.Window.Bitfield.{Represents}
use riftnet_rust.Protocol.Window.Delivery.{received, received_refines, receive_first}
use riftnet_rust.Protocol.History.{FrameRecord}
use riftnet_rust.Connection.Replay.Once

-- A connection that has seen packet 5 alone.
abbrev pub five_seen : Receiver
five_seen = record { highest = 2 ^ 16 + 5; seen = λ n. (2 ^ 16 + 5) == n }

pub five_seen-Represents : Represents five_seen 5 1
five_seen-Represents = (receive_first 5 (omega arith) (omega arith)).1

-- Packets 7, 6, 7 and 5, in this order.
abbrev arrivals : List ℕ
arrivals = 65543 ∷ 65542 ∷ 65543 ∷ 65541 ∷ []

received_refines_example : received 5 1 arrivals ≡ accepted five_seen arrivals
received_refines_example =
    received_refines five_seen 5 1 arrivals five_seen-Represents (omega arith)

abbrev frame : ℕ → FrameRecord ℕ ℕ
frame t = record { tick = t; state = t + 100; state_hash = 0; input = 1 }

admit_once_example :
    count 9 (Once.admit (record { highest_nonce = 0; window = 0 }) (3 ∷ 9 ∷ 4 ∷ 9 ∷ [])) ≤ 1
admit_once_example = Once.admit_once (3 ∷ 9 ∷ 4 ∷ 9 ∷ []) 9
