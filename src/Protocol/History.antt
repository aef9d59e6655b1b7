-- ===== src/Protocol/History.antt =====
-- crates/protocol/src/history.rs: the ring of frame records that a client keeps for rollback.
pub mod Lookup
pub mod Reference
use riftnet_rust.Base.{
  length, ℕ, zero, suc, ◌+◌, ◌-◌, ◌≡◌, ◌&&◌, Bool, List, [], ◌∷◌, Option, none, some, ltb, ◌==◌,
  if◌then◌else◌, get_elem?, set, replicate, bit_and,
}
use riftnet_rust.Base.Bytes.{◌>>=◌}

module _ (T I : Type 0) where
  pub record FrameRecord : Type 0 where
    pub tick : ℕ
    pub state : T
    pub state_hash : ℕ
    pub input : I

  pub record HistoryBuffer : Type 0 where
    pub buffer : List (Option FrameRecord)
    pub mask : ℕ

-- `usize::is_power_of_two`: one bit is set.
abbrev pub is_power_of_two : ℕ → Bool
is_power_of_two n = ltb 0 n && bit_and n (n - 1) == 0

module _ {T I : Type 0} where
  -- The assertion on the capacity panics: `none`.
  unfoldable pub new : ℕ → Option (HistoryBuffer T I)
  new capacity =
      if is_power_of_two capacity
      then some (record { buffer = replicate capacity none; mask = capacity - 1 })
      else none

  -- `usize` is as wide as a tick. An access at a tick panics where its index is past the end of the
  -- vector; the callers of `insert` and `get` are `none` there.
  unfoldable pub in_bounds : HistoryBuffer T I → ℕ → Bool
  in_bounds h tick = ltb (bit_and tick h.mask) (length h.buffer)

  -- The write, at an index in bounds.
  unfoldable pub insert : HistoryBuffer T I → FrameRecord T I → HistoryBuffer T I
  insert h r = record h { buffer = set h.buffer (bit_and r.tick h.mask) (some r) }

  same_tick : ℕ → FrameRecord T I → Option (FrameRecord T I)
  same_tick tick r = if r.tick == tick then some r else none

  -- The read, at an index in bounds.
  unfoldable pub get : HistoryBuffer T I → ℕ → Option (FrameRecord T I)
  unfolding same_tick
  get h tick = do slot ← get_elem? h.buffer (bit_and tick h.mask); r ← slot; same_tick tick r
