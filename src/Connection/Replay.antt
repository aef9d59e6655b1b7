-- ===== src/Connection/Replay.antt =====
-- crates/connection/src/connection.rs: `AntiReplayWindow`, the nonces of the last 64 that came in.
pub mod Once
use riftnet_rust.Base.{
  ℕ, ◌-◌, ◌*◌, ◌%◌, ◌^◌, Bool, true, false, ltb, leb, ◌==◌, if◌then◌else◌, bit_and, bit_or,
}
use riftnet_rust.Base.Bits.{u64, ◌<<<◌}

pub record AntiReplayWindow : Type 0 where
  pub highest_nonce : ℕ
  pub window : ℕ

unfoldable pub check : AntiReplayWindow → ℕ → Bool
check w nonce =
    if ltb w.highest_nonce nonce
    then true
    else (let diff = w.highest_nonce - nonce in
        if leb 64 diff then false else bit_and w.window (u64 (1 <<< diff)) == 0)

-- The source's `record`.
unfoldable pub record_nonce : AntiReplayWindow → ℕ → AntiReplayWindow
record_nonce w nonce =
    if ltb w.highest_nonce nonce
    then (let diff = nonce - w.highest_nonce in
        record {
          highest_nonce = nonce;
          window = if leb 64 diff then 1 else bit_or (u64 (w.window <<< diff)) 1;
        })
    else (let diff = w.highest_nonce - nonce in
        if ltb diff 64 then record w { window = bit_or w.window (u64 (1 <<< diff)) } else w)
