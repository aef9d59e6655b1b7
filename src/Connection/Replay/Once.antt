-- ===== src/Connection/Replay/Once.antt =====
-- crates/connection/src/connection.rs: the window implements the set of the nonces recorded.
use riftnet_rust.Base.{
  ℕ, suc, ◌+◌, ◌-◌, ◌*◌, ◌^◌, ◌<◌, ◌≤◌, ◌≡◌, inl, inr, refl, ap, ◌∙◌, Bool, true, false, not, ◌&&◌,
  ◌||◌, List, [], ◌∷◌, ltb, leb, ◌==◌, if◌then◌else◌, arith, bit_and, bit_or, max, Bool-cases,
  count, ==→eq,
}
use native.Mathlib.Nat.{mod-eq_of_lt, pow-le-pow_right, pow-suc}
use riftnet_rust.Base.Bits.{
  bit, u64, ◌<<<◌, bit-mod, bit-bit_or, bit-shl_lt, bit-shl_ge, bit-zero, bit-pow_self, bit-pow_ne,
  bit_and-pow, pow_pos,
}
use riftnet_rust.Protocol.Window.Spec.{see}
use riftnet_rust.Protocol.Window.Bitfield.{to_bit, bit-one}
use riftnet_rust.Connection.Replay.{AntiReplayWindow, check, record_nonce}

-- Bit `d` of the window tells whether the nonce `d` below the highest has been recorded.
pub record Represents (seen : ℕ → Bool) (w : AntiReplayWindow) : Type 0 where
  pub bounded : (n : ℕ) → w.highest_nonce < n → seen n ≡ false
  pub bits :
      (d : ℕ) → d < 64 → d ≤ w.highest_nonce → bit w.window d ≡ to_bit (seen (w.highest_nonce - d))

one_shl : (d : ℕ) → d < 64 → u64 (1 <<< d) ≡ 2 ^ d
one_shl d h =
    ap u64 {x = 1 <<< d} {y = 2 ^ d} (omega arith)
    ∙ mod-eq_of_lt {n = 2 ^ d} {m = 2 ^ 64} (
        omega (
          arith,
          pow-le-pow_right {n = 2} (omega arith) {i = suc d} {j = 64} h,
          pow-suc 2 d,
          pow_pos d,
        ))

bit-advance :
    (x diff i : ℕ)
    → 0 < diff
    → i < 64
    → bit (bit_or (u64 (x <<< diff)) 1) i
      ≡ (if i == 0 then 1 else if ltb i diff then 0 else bit x (i - diff))
bit-advance x diff i p r = ground (
  arith,
  bit-bit_or (u64 (x <<< diff)) 1 i,
  bit-mod (x <<< diff) 64 i r,
  bit-shl_lt x diff i,
  bit-shl_ge x diff i (i - diff),
  bit-one i,
)

bit-mark : (x d i : ℕ) → bit (bit_or x (2 ^ d)) i ≡ max (bit x i) (to_bit (i == d))
bit-mark x d i = ground (arith, bit-bit_or x (2 ^ d) i, bit-pow_self d, bit-pow_ne d i)

-- The test of one bit of the window.
mask_test :
    (x d : ℕ) (v : Bool) → d < 64 → bit x d ≡ to_bit v → (bit_and x (u64 (1 <<< d)) == 0) ≡ not v
mask_test x d true h e =
    rw (one_shl d h) (ground (arith, bit_and-pow x d, ap (λ (t : ℕ). t * 2 ^ d) e, pow_pos d))
mask_test x d false h e =
    rw (one_shl d h) (ground (arith, bit_and-pow x d, ap (λ (t : ℕ). t * 2 ^ d) e))

module _ {seen : ℕ → Bool} {w : AntiReplayWindow} (rep : Represents seen w) (n : ℕ) where
  -- A nonce passes exactly if it is above all others, or less than 64 below the highest and not
  -- yet recorded.
  pub check_iff :
      check w n ≡ (ltb w.highest_nonce n || (ltb (w.highest_nonce - n) 64 && not (seen n)))
  unfolding check
  check_iff = elim (Bool-cases (ltb w.highest_nonce n)) [
    | inl above ↦ ground arith
    | inr below ↦ elim (Bool-cases (ltb (w.highest_nonce - n) 64)) [
      | inl inside ↦ ground (
        arith,
        mask_test w.window (w.highest_nonce - n) (seen (w.highest_nonce - (w.highest_nonce - n)))
            (ground arith) (rep.bits (w.highest_nonce - n) (ground arith) (omega arith)),
        same below,
      )
      | inr outside ↦ ground arith
    ]
  ]
    where
      same : ltb w.highest_nonce n ≡ false → w.highest_nonce - (w.highest_nonce - n) ≡ n
      same below = ground arith

  above-Represents :
      w.highest_nonce < n
      → Represents (see n seen) (record {
        highest_nonce = n;
        window =
            if leb 64 (n - w.highest_nonce)
            then 1
            else bit_or (u64 (w.window <<< (n - w.highest_nonce))) 1;
      })
  above-Represents above = record {
    bounded = λ m lt. ground (arith, rep.bounded m (omega arith));
    bits = λ d small le. elim (Bool-cases (d == 0)) [
      | inl e ↦
          rw (==→eq d 0 e) (
            ground
              (arith, bit-advance w.window (n - w.highest_nonce) 0 (omega arith) (omega arith)))
      | inr e ↦ ground (
        arith,
        bit-one d,
        bit-advance w.window (n - w.highest_nonce) d (omega arith) small,
        rep.bounded (n - d),
        rep.bits (d - (n - w.highest_nonce)) (omega arith) (omega arith),
        same d,
      )
    ];
  }
    where
      same :
          (d : ℕ)
          → n - w.highest_nonce ≤ d
          → d ≤ n
          → seen (w.highest_nonce - (d - (n - w.highest_nonce))) ≡ seen (n - d)
      same d le small =
          ap seen {x = w.highest_nonce - (d - (n - w.highest_nonce))} {y = n - d} (omega arith)

  below-Represents :
      n ≤ w.highest_nonce
      → w.highest_nonce - n < 64
      → Represents (see n seen) (record w { window = bit_or w.window (2 ^ (w.highest_nonce - n)) })
  below-Represents le inside = record {
    bounded = λ m lt. ground (arith, rep.bounded m lt);
    bits = λ d small within.
        ground (arith, bit-mark w.window (w.highest_nonce - n) d, rep.bits d small within);
  }

  far-Represents : n ≤ w.highest_nonce → 64 ≤ w.highest_nonce - n → Represents (see n seen) w
  far-Represents le far = record {
    bounded = λ m lt. ground (arith, rep.bounded m lt);
    bits = λ d small within. ground (arith, rep.bits d small within);
  }

  -- Recording a nonce adds it, and only it, to the nonces recorded.
  pub record_nonce-Represents : Represents (see n seen) (record_nonce w n)
  unfolding record_nonce
  record_nonce-Represents = elim (Bool-cases (ltb w.highest_nonce n)) [
    | inl above ↦ rw above (above-Represents (ground arith))
    | inr below ↦ elim (Bool-cases (ltb (w.highest_nonce - n) 64)) [
      | inl inside ↦
          rw (below, inside, one_shl (w.highest_nonce - n) (ground arith))
            (below-Represents (ground arith) (ground arith))
      | inr outside ↦ rw (below, outside) (far-Represents (ground arith) (ground arith))
    ]
  ]

-- A nonce that passes the check and is then recorded, as a connection would take a packet.
abbrev pub admit : AntiReplayWindow → List ℕ → List ℕ
admit w [] = []
admit w (n ∷ rest) = elim (check w n) [
  | true ↦ n ∷ admit (record_nonce w n) rest
  | false ↦ admit w rest
]

fresh-Represents : Represents (λ _. false) (record { highest_nonce = 0; window = 0 })
fresh-Represents = record { bounded = λ n lt. refl; bits = λ d small le. bit-zero d }

to_bit-le_one : (v : Bool) → to_bit v ≤ 1
to_bit-le_one true = omega arith
to_bit-le_one false = omega arith

count-admit :
    (seen : ℕ → Bool) (w : AntiReplayWindow) (nonces : List ℕ) (n : ℕ)
    → Represents seen w
    → count n (admit w nonces) + to_bit (seen n) ≤ 1
count-admit seen w [] n rep = omega (arith, to_bit-le_one (seen n))
count-admit seen w (m ∷ rest) n rep = elim (Bool-cases (check w m)) [
  | inl passes ↦
      rw (passes, admit)
        (ground (
          arith,
          count-admit (see m seen) (record_nonce w m) rest n (record_nonce-Represents rep m),
          check_iff rep m,
          rep.bounded m,
          ap seen {x = m} {y = n},
        ))
  | inr refused ↦ rw (refused, admit) (count-admit seen w rest n rep)
]

-- Over any sequence of nonces, each checked and recorded if it passes, a new window lets each nonce
-- pass at most once.
pub admit_once :
    (nonces : List ℕ) (n : ℕ)
    → count n (admit (record { highest_nonce = 0; window = 0 }) nonces) ≤ 1
admit_once nonces n = omega (arith, count-admit _ _ nonces n fresh-Represents)
