-- ===== src/Transport/Reactor/Drain.antt =====
-- crates/transport/src/reactor.rs: a poll ends, and what it gives.
use mathlib.Core.List.{append_assoc, append-nil}
use Prim.Native.String.{String}
use riftnet_rust.Base.{
  ℕ, zero, suc, ◌<◌, ◌≡◌, ◌⊎◌, inl, inr, refl, ap, sym, List, [], ◌∷◌, ◌++◌, some, arith,
}
use riftnet_rust.Core.{Result, ok, err, network_error}
use riftnet_rust.Transport.Reactor.{
  Received, datagram, would_block, failed, UdpSocket, TokioReactor, buf_len, poll_loop,
  poll_packets,
}

-- A measure of what waits in the socket: each datagram that it gives is one less. It holds of a
-- socket while nothing arrives.
pub record Drains {A S : Type 0} (udp : UdpSocket A S) (backlog : S → ℕ) : Type 0 where
  pub less :
      (s s' : S) (bytes : List ℕ) (addr : A)
      → udp.try_recv_from s buf_len ≡ (datagram bytes addr, s')
      → backlog s' < backlog s

module _ {A S : Type 0} ⦃udp : UdpSocket A S⦄ where
  -- The datagrams that a socket gives one after the other.
  pub data Gives : S → List (List ℕ × A) → S → Type 0 where
    nothing : {s : S} → Gives s [] s
    next :
        {s s' s'' : S} {bytes : List ℕ} {addr : A} {rest : List (List ℕ × A)}
        → udp.try_recv_from s buf_len ≡ (datagram bytes addr, s')
        → Gives s' rest s''
        → Gives s ((bytes, addr) ∷ rest) s''

  -- How a poll ended that took the packets `got` and left the socket in the state `s`.
  abbrev pub Ended : List (List ℕ × A) → S → Result (List (List ℕ × A)) → S → Type 0
  Ended got s result s' =
      ((udp.try_recv_from s buf_len ≡ (would_block, s')) × (result ≡ ok got))
      ⊎ ((e : String) × (udp.try_recv_from s buf_len ≡ (failed e, s'))
          × (result ≡ err (network_error e)))

  received_cases :
      (r : Received A × S)
      → ((bytes : List ℕ) × (addr : A) × (s' : S) × (r ≡ (datagram bytes addr, s')))
        ⊎ (((s' : S) × (r ≡ (would_block, s'))) ⊎ ((e : String) × (s' : S) × (r ≡ (failed e, s'))))
  received_cases (datagram bytes addr, s') = inl (bytes, addr, s', refl)
  received_cases (would_block, s') = inr (inl (s', refl))
  received_cases (failed e, s') = inr (inr (e, s', refl))

  poll_loop_ends :
      (backlog : S → ℕ) (fuel : ℕ) (packets : List (List ℕ × A)) (s : S)
      → Drains udp backlog
      → backlog s < fuel
      → (got : List (List ℕ × A)) × (mid : S) × (result : Result (List (List ℕ × A))) × (s' : S)
        × (poll_loop fuel packets s ≡ some (result, s'))
        × Gives s got mid
        × Ended (packets ++ got) mid result s'
  unfolding poll_loop
  poll_loop_ends backlog zero packets s law enough = absurd (omega arith)
  poll_loop_ends backlog (suc fuel) packets s law enough =
      elim (received_cases (udp.try_recv_from s buf_len)) [
        | inl (bytes, addr, s1, d) ↦
            (let less = law.less s s1 bytes addr d in
              let more = packets ++ ((bytes, addr) ∷ []) in
              let (got, mid, result, s', e, gives, ended) =
                poll_loop_ends backlog fuel more s1 law (omega (arith, less, enough)) in
              (
                (bytes, addr) ∷ got,
                mid,
                result,
                s',
                ground (arith, d, e),
                next d gives,
                rw (sym (append_assoc packets ((bytes, addr) ∷ []) got)) ended,
              ))
        | inr (inl (s', d)) ↦ (
          [],
          s,
          ok packets,
          s',
          ground (arith, d),
          nothing,
          inl (d, ap ok (sym (append-nil packets))),
        )
        | inr (inr (e, s', d)) ↦
            ([], s, err (network_error e), s', ground (arith, d), nothing, inr (e, d, refl))
      ]

  -- With more fuel than datagrams wait in a socket to which nothing arrives meanwhile, a poll ends.
  -- It takes datagrams in the order in which the socket gives them, up to the first that would
  -- block, and returns them all; or up to the first error, and returns the error alone.
  pub poll_packets_ends :
      (backlog : S → ℕ) (fuel : ℕ) (r : TokioReactor S)
      → Drains udp backlog
      → backlog r.socket < fuel
      → (got : List (List ℕ × A)) × (mid : S) × (result : Result (List (List ℕ × A))) × (s' : S)
        × (poll_packets fuel r ≡ some (result, record { socket = s' }))
        × Gives r.socket got mid
        × Ended got mid result s'
  unfolding poll_packets
  poll_packets_ends backlog fuel r law enough =
      let (got, mid, result, s', e, gives, ended) =
        poll_loop_ends backlog fuel [] r.socket law enough in
      (got, mid, result, s', rw (poll_packets, e) refl, gives, ended)
