-- ===== src/Transport/Transporter.antt =====
-- crates/transport/src/transporter.rs and the trait of crates/transport/src/reactor.rs. The sockets
-- behind the trait are a parameter, with their state.
use riftnet_rust.Base.{ℕ, List, [], ◌∷◌}
use riftnet_rust.Core.{Result}
use riftnet_rust.Transport.Interpolator.{Interpolator}
use riftnet_rust.Transport.Interpolator

pub record NetworkReactor (A R : Type 0) : Type 0 where
  pub poll_packets : R → Result (List (List ℕ × A)) × R
  pub send_packet : R → List ℕ → A → Result {0} Unit × R

pub record Transporter (T R : Type 0) : Type 0 where
  pub reactor : R
  pub interpolator : Interpolator T

module _ {T R : Type 0} where
  unfoldable pub new : R → ℕ → Transporter T R
  new reactor buffer_size = record {
    reactor = reactor;
    interpolator = Interpolator.new buffer_size;
  }

module _ {A T R : Type 0} ⦃net : NetworkReactor A R⦄ where
  unfoldable pub poll : Transporter T R → Result (List (List ℕ × A)) × Transporter T R
  poll t =
      let (packets, reactor) = net.poll_packets t.reactor in
      (packets, record t { reactor = reactor })

  unfoldable pub send : Transporter T R → List ℕ → A → Result {0} Unit × Transporter T R
  send t bytes addr =
      let (sent, reactor) = net.send_packet t.reactor bytes addr in
      (sent, record t { reactor = reactor })

  -- The calls of the closure of `flush_all`; a failed send is passed over.
  unfoldable pub send_all : List (List ℕ × A) → Transporter T R → Transporter T R
  send_all [] t = t
  send_all ((bytes, addr) ∷ rest) t = send_all rest (send t bytes addr).1
