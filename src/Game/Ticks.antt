-- ===== src/Game/Ticks.antt =====
-- The standard library's `HashMap` from ticks, in which bin/client.rs and bin/client_swarm.rs keep
-- the instants of their sends, and the packet of an input that both send.
use riftnet_rust.Base.{
  ℕ, ◌≡◌, refl, List, [], ◌∷◌, ◌++◌, Option, none, some, ◌==◌, if◌then◌else◌, leb, arith,
}
use riftnet_rust.Protocol.Packet.{
  PacketType, packet_code, GeneralPacketHeader, InputPacket, as_bytes, general_wire, input_wire,
}

abbrev pub find_time : ℕ → List (ℕ × ℕ) → Option ℕ
find_time t [] = none
find_time t ((k, v) ∷ m) = if k == t then some v else find_time t m

abbrev pub put_time : ℕ → ℕ → List (ℕ × ℕ) → List (ℕ × ℕ)
put_time t v [] = (t, v) ∷ []
put_time t v ((k, w) ∷ m) =
    let rest = put_time t v m in if k == t then (k, v) ∷ m else (k, w) ∷ rest

abbrev pub remove_time : ℕ → List (ℕ × ℕ) → List (ℕ × ℕ)
remove_time t [] = []
remove_time t ((k, w) ∷ m) = let rest = remove_time t m in if k == t then rest else (k, w) ∷ rest

-- `retain(|&k, _| k >= t)`
abbrev pub times_from : ℕ → List (ℕ × ℕ) → List (ℕ × ℕ)
times_from t [] = []
times_from t ((k, w) ∷ m) = let rest = times_from t m in if leb t k then (k, w) ∷ rest else rest

pub find-put_time :
    (t k v : ℕ) (m : List (ℕ × ℕ))
    → find_time t (put_time k v m) ≡ (if k == t then some v else find_time t m)
find-put_time t k v [] = refl
find-put_time t k v ((j, w) ∷ m) = ground (arith, find-put_time t k v m)

pub find-remove_time :
    (t k : ℕ) (m : List (ℕ × ℕ))
    → find_time t (remove_time k m) ≡ (if k == t then none else find_time t m)
find-remove_time t k [] = ground arith
find-remove_time t k ((j, w) ∷ m) = ground (arith, find-remove_time t k m)

pub find-times_from :
    (t now : ℕ) (m : List (ℕ × ℕ))
    → find_time t (times_from now m) ≡ (if leb now t then find_time t m else none)
find-times_from t now [] = ground arith
find-times_from t now ((k, v) ∷ m) = ground (arith, find-times_from t now m)

-- `[GeneralPacketHeader { .. }.as_bytes(), InputPacket { .. }.as_bytes()].concat()`
unfoldable pub input_packet : InputPacket → List ℕ
input_packet pkt =
    let gen_hdr : GeneralPacketHeader = record { packet_type = packet_code PacketType.input } in
    as_bytes gen_hdr ++ as_bytes pkt
