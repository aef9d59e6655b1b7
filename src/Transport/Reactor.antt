-- ===== src/Transport/Reactor.antt =====
-- crates/transport/src/reactor.rs: `TokioReactor`, over a socket that is a parameter with its state.
pub mod Drain
use Prim.Native.String.{String}
use riftnet_rust.Base.{
  ℕ, zero, suc, ◌+◌, ◌<◌, ◌≡◌, ◌⊎◌, inl, inr, List, [], ◌∷◌, ◌++◌, Option, none, some,
}
use riftnet_rust.Core.{Result, ok, err, network_error}

-- What `try_recv_from` gives: the bytes `buf[..len]` and their sender, or an error of one of the two
-- kinds that the code tells apart, the second with its text.
pub data Received (A : Type 0) : Type 0 where
  datagram : List ℕ → A → Received A
  would_block : Received A
  failed : String → Received A

-- `tokio::net::UdpSocket`: an error is its text, and `send_to` gives one or none.
pub record UdpSocket (A S : Type 0) : Type 0 where
  pub bind : A → String ⊎ S
  pub try_recv_from : S → ℕ → Received A × S
  pub send_to : S → List ℕ → A → Option String × S

pub record TokioReactor (S : Type 0) : Type 0 where
  pub socket : S

-- The size of the buffer.
abbrev pub buf_len : ℕ
buf_len = 2048

module _ {A S : Type 0} ⦃udp : UdpSocket A S⦄ where
  unfoldable pub new : A → Result (TokioReactor S)
  new addr = elim (udp.bind addr) [
    | inl e ↦ err (network_error e)
    | inr socket ↦ ok (record { socket = socket })
  ]

  -- The loop, on fuel, with the packets so far; `none` is fuel that ran out.
  unfoldable pub poll_loop : ℕ → List (List ℕ × A) → S → Option (Result (List (List ℕ × A)) × S)
  poll_loop zero packets s = none
  poll_loop (suc fuel) packets s =
      let (received, s') = udp.try_recv_from s buf_len in
      elim received [
        | datagram bytes addr ↦ poll_loop fuel (packets ++ ((bytes, addr) ∷ [])) s'
        | would_block ↦ some (ok packets, s')
        | failed e ↦ some (err (network_error e), s')
      ]

  unfoldable pub poll_packets :
      ℕ → TokioReactor S → Option (Result (List (List ℕ × A)) × TokioReactor S)
  poll_packets fuel r = elim (poll_loop fuel [] r.socket) [
    | none ↦ none
    | some (result, s) ↦ some (result, record { socket = s })
  ]

  unfoldable pub send_packet : TokioReactor S → List ℕ → A → Result {0} Unit × TokioReactor S
  send_packet r bytes addr =
      let (sent, s) = udp.send_to r.socket bytes addr in
      elim sent [
        | some e ↦ (err (network_error e), record { socket = s })
        | none ↦ (ok tt, record { socket = s })
      ]
