-- ===== src/Tests/Runs.antt =====
-- A run of the manager, a poll of a socket, a history and an interpolated world, on concrete values.
use riftnet_rust.Base.{ℕ, ◌<◌, ◌≡◌, inr, refl, Option, none, some, List, [], ◌∷◌, arith, length}
use riftnet_rust.Core.{Result}
use riftnet_rust.Protocol.History.{FrameRecord, HistoryBuffer, new, get}
use riftnet_rust.Protocol.History.Reference.{latest, insert_records, get-latest}
use riftnet_rust.Base.Bytes.{to_le_bytes, take_bytes}
use riftnet_rust.Protocol.Packet.{general_bytes, snapshot_bytes}
use riftnet_rust.Connection.Conn
use riftnet_rust.Connection.Conn.{
  Connection, update, flush_queue, queue_pending_send, flush_one, flush_unreliable,
}
use riftnet_rust.Game.Client.{snapshot_packet}
use riftnet_rust.Connection.Table.{lookup, put, Distinct}
use riftnet_rust.Connection.Manager.{
  ConnectionManager, handle_packet, send_to_client, flush_connections, flush_all,
  evict_stale_connections,
}
use riftnet_rust.Game.Server.{broadcast}
use riftnet_rust.Connection.Manager.Safety.{handle_packet_total}
use riftnet_rust.Connection.Manager
use riftnet_rust.Connection.Manager.Flush.{sent_to, flushed, flush_all_lem}
use riftnet_rust.Connection.Manager.Run.{fresh, more, evicted, packet, IsValid, Reached-IsValid}
use riftnet_rust.Transport.Reactor.{
  Received, datagram, would_block, UdpSocket, TokioReactor, poll_packets,
}
use riftnet_rust.Transport.Reactor.Drain.{Gives, Drains, Ended, poll_packets_ends}
use riftnet_rust.Game.World.Lerp.{lerp_world}
use riftnet_rust.Tests.{thousandths, stored, tagged, numbered, whole, or_else, made}
use riftnet_rust.Tests.Games.{summed}
use riftnet_rust.Tests.Servers.{told_peers}

-- A socket is the datagrams that wait in it.
abbrev take_first : List (List ℕ × ℕ) → Received ℕ × List (List ℕ × ℕ)
take_first [] = (would_block, [])
take_first ((bytes, addr) ∷ rest) = (datagram bytes addr, rest)

instance abbrev queued : UdpSocket ℕ (List (List ℕ × ℕ))
queued = record {
  bind = λ addr. inr [];
  try_recv_from = λ s size. take_first s;
  send_to = λ s bytes addr. (none, s);
}

queued-Drains : Drains queued length
queued-Drains = record { less = one_less }
  where
    one_less :
        (s s' : List (List ℕ × ℕ)) (bytes : List ℕ) (addr : ℕ)
        → take_first s ≡ (datagram bytes addr, s')
        → length s' < length s
    one_less [] s' bytes addr e = absurd (ground arith)
    one_less (p ∷ rest) s' bytes addr e = ground (arith, e)

abbrev reactor : TokioReactor (List (List ℕ × ℕ))
reactor = record { socket = (1 ∷ [], 2) ∷ (3 ∷ [], 4) ∷ [] }

poll_packets_ends_example :
    (got : List (List ℕ × ℕ)) × (mid : List (List ℕ × ℕ)) × (result : Result (List (List ℕ × ℕ)))
    × (s' : List (List ℕ × ℕ)) × (poll_packets 3 reactor ≡ some (result, record { socket = s' }))
    × Gives reactor.socket got mid
    × Ended got mid result s'
poll_packets_ends_example = poll_packets_ends length 3 reactor queued-Drains (omega arith)

abbrev record_at : ℕ → FrameRecord ℕ ℕ
record_at t = record { tick = t; state = t; state_hash = t; input = 1 }

abbrev four : HistoryBuffer ℕ ℕ
four = record { buffer = none ∷ none ∷ none ∷ none ∷ []; mask = 3 }

four_made : new 4 ≡ some four
unfolding new
four_made = refl

get-latest_example :
    get (insert_records four (record_at 9 ∷ record_at 6 ∷ record_at 5 ∷ [])) 5
    ≡ latest 4 (record_at 9 ∷ record_at 6 ∷ record_at 5 ∷ []) 5
get-latest_example = get-latest 4 four (record_at 9 ∷ record_at 6 ∷ record_at 5 ∷ []) 5 four_made

-- A flush of two connections' worth of snapshots.
abbrev flushed_peers : ConnectionManager ℕ ℕ × List (List ℕ × ℕ)
flushed_peers = or_else (flush_all told_peers 8) (told_peers, [])

peers_flushed : flush_all told_peers 8 ≡ some (flushed_peers.0, flushed_peers.1)
unfolding flush_all flush_connections broadcast lookup send_to_client put update flush_queue
    queue_pending_send Conn.new snapshot_packet general_bytes to_le_bytes snapshot_bytes flush_one
    flush_unreliable take_bytes
peers_flushed = refl

told_peers-Distinct : Distinct told_peers.connections
unfolding lookup broadcast send_to_client put
told_peers-Distinct = (refl, tt)

flush_all_example :
    (lookup 1 flushed_peers.0.connections, sent_to 1 flushed_peers.1)
    ≡ flushed (lookup 1 told_peers.connections) 8
flush_all_example =
    flush_all_lem told_peers flushed_peers.0 8 flushed_peers.1 1 told_peers-Distinct peers_flushed

-- A packet of a new peer, and an eviction.
abbrev heard : ConnectionManager ℕ ℕ × Option (List ℕ)
heard = or_else (handle_packet Manager.new 2 (4 ∷ 1 ∷ []) 5 99) (Manager.new, none)

heard_made : handle_packet Manager.new 2 (4 ∷ 1 ∷ []) 5 99 ≡ some (heard.0, heard.1)
heard_made =
    let (m, reply, e) = handle_packet_total Manager.new 2 (4 ∷ 1 ∷ []) 5 99 in
    made (handle_packet Manager.new 2 (4 ∷ 1 ∷ []) 5 99) (Manager.new, none) ((m, reply), e)

Reached-IsValid_example : IsValid (evict_stale_connections heard.0 10 30)
Reached-IsValid_example =
    Reached-IsValid (evict_stale_connections heard.0 10 30)
      (more (more fresh (packet 2 (4 ∷ 1 ∷ []) 5 99 heard.1 heard_made)) (evicted 10 30))
