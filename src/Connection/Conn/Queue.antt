-- ===== src/Connection/Conn/Queue.antt =====
-- crates/connection/src/connection.rs: the bytes that wait in a connection's queue.
use riftnet_rust.Base.{
  ℕ, ◌+◌, ◌*◌, ◌^◌, ◌<◌, ◌≤◌, ◌≡◌, ◌⊎◌, Bool, List, [], ◌∷◌, ◌++◌, length, arith,
}
use riftnet_rust.Float.{F32}
use riftnet_rust.Connection.Pipeline.{NetworkPipeline}
use riftnet_rust.Connection.Conn.{PendingSend, Connection, new, queue_pending_send}

abbrev pub total_bytes : List PendingSend → ℕ
total_bytes [] = 0
total_bytes (ps ∷ rest) = length ps.payload + total_bytes rest

pub total_bytes-append :
    (xs ys : List PendingSend) → total_bytes (xs ++ ys) ≡ total_bytes xs + total_bytes ys
total_bytes-append [] ys = omega arith
total_bytes-append (x ∷ xs) ys = omega (arith, total_bytes-append xs ys)

-- The counter is the number of bytes in the queue, and within the limit of one MiB.
pub record IsValid {A F : Type 0} (c : Connection A F) : Type 0 where
  pub counted : c.pending_bytes ≡ total_bytes c.pending_queue
  pub within : c.pending_bytes ≤ c.max_pending_bytes
  pub limit : c.max_pending_bytes ≡ 1024 * 1024

module _ {A F : Type 0} ⦃f : F32 F⦄ where
  -- A new connection counts no bytes, and its limit is one MiB.
  pub new-IsValid :
      (now : ℕ) (endpoint : A) (is_server : Bool) (p : NetworkPipeline)
      → IsValid {F = F} (new now endpoint is_server p)
  unfolding new
  new-IsValid now endpoint is_server p = ground arith

  -- In a connection whose counter is the number of queued bytes, within the limit of one MiB: a
  -- payload (shorter than 2^63 bytes) that would take the queue above the limit is dropped and
  -- changes nothing, any other is put at the end, and either way the counter stays the number of
  -- queued bytes and within the limit.
  pub queue_pending_send_lem :
      (c : Connection A F) (payload : List ℕ) (reliable : Bool)
      → IsValid c
      → length payload < 2 ^ 63
      → let c' = queue_pending_send c payload reliable in
        IsValid c'
        × (((c.max_pending_bytes < total_bytes c.pending_queue + length payload) × (c' ≡ c))
            ⊎ ((total_bytes c.pending_queue + length payload ≤ c.max_pending_bytes)
                × (c'.pending_queue
                    ≡ c.pending_queue ++ (record { payload = payload; reliable = reliable } ∷ []))))
  unfolding queue_pending_send
  queue_pending_send_lem c payload reliable v small = ground (
    arith,
    total_bytes-append c.pending_queue (record { payload = payload; reliable = reliable } ∷ []),
  )
