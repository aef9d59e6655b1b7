-- ===== src/Protocol/History/Lookup.antt =====
-- crates/protocol/src/history.rs: what `get` returns after any sequence of `insert`s.
use riftnet_rust.Base.{
  true, ℕ, ◌∙◌, ap, ◌⊎◌, inl, inr, Bool-cases, get_elem?_beyond, ◌+◌, ◌-◌, ◌%◌, ◌^◌, ◌<◌, ◌≡◌, ◌≢◌,
  List, [], ◌∷◌, Option, none, some, ◌==◌, if◌then◌else◌, replicate, bit_and, length, arith,
  length-set, get_elem?-set_self, get_elem?-set_ne, length-replicate, get_elem?-replicate,
}
use native.Mathlib.Decide.{dec_lt}
use native.Mathlib.Nat.{mod-lt, div-add-mod}
use riftnet_rust.Base.Bits.{bit_and-mask, pow_pos}
use riftnet_rust.Base.Powers.{power_of_two_lem, bit_and-pow_pred}
use riftnet_rust.Protocol.History.{
  in_bounds, FrameRecord, HistoryBuffer, new, insert, get, is_power_of_two,
}

pub other_slot : (p t u : ℕ) → t < u → u < t + p → u % p ≢ t % p
other_slot p t u below above e = grind (arith, div-add-mod t p, div-add-mod u p)

module _ {T I : Type 0} where
  -- The mask selects the low `k` bits, and there is a slot for each value of them.
  pub record IsValid (k : ℕ) (h : HistoryBuffer T I) : Type 0 where
    pub mask_ones : h.mask ≡ 2 ^ k - 1
    pub slots : length h.buffer ≡ 2 ^ k

  pub insert-IsValid :
      (k : ℕ) (h : HistoryBuffer T I) (r : FrameRecord T I) → IsValid k h → IsValid k (insert h r)
  unfolding insert
  insert-IsValid k h r v = ground (arith, length-set h.buffer (bit_and r.tick h.mask) (some r))

  slot_index : (k : ℕ) (h : HistoryBuffer T I) (t : ℕ) → IsValid k h → bit_and t h.mask ≡ t % 2 ^ k
  slot_index k h t v = rw v.mask_ones (bit_and-mask k t)

  -- Both accesses stay inside the vector: no index panics.
  pub index_in_bounds :
      (k : ℕ) (h : HistoryBuffer T I) (t : ℕ) → IsValid k h → bit_and t h.mask < length h.buffer
  index_in_bounds k h t v = omega (arith, slot_index k h t v, mod-lt t (pow_pos k))

  pub in_bounds-IsValid :
      (k : ℕ) (h : HistoryBuffer T I) (t : ℕ) → IsValid k h → in_bounds h t ≡ true
  unfolding in_bounds
  in_bounds-IsValid k h t v = ground (arith, index_in_bounds k h t v)

  -- A buffer that is valid for some capacity.
  abbrev pub IsRing : HistoryBuffer T I → Type 0
  IsRing h = (k : ℕ) × IsValid k h

  pub insert-IsRing : (h : HistoryBuffer T I) (r : FrameRecord T I) → IsRing h → IsRing (insert h r)
  insert-IsRing h r (k, v) = (k, insert-IsValid k h r v)

  pub in_bounds-IsRing : (h : HistoryBuffer T I) (t : ℕ) → IsRing h → in_bounds h t ≡ true
  in_bounds-IsRing h t (k, v) = in_bounds-IsValid k h t v

  -- In a valid buffer, a record is found under its own tick, hides the ticks that share its slot,
  -- and leaves what is found under every other tick.
  pub get-insert :
      (k : ℕ) (h : HistoryBuffer T I) (r : FrameRecord T I) (t : ℕ)
      → IsValid k h
      → get (insert h r) t
        ≡ (if r.tick == t then some r else if r.tick % 2 ^ k == t % 2 ^ k then none else get h t)
  unfolding get insert
  get-insert k h r t v = ground (
    arith,
    slot_index k h t v,
    slot_index k h r.tick v,
    index_in_bounds k h t v,
    index_in_bounds k h r.tick v,
    get_elem?-set_self h.buffer (bit_and r.tick h.mask) (some r),
    get_elem?-set_ne h.buffer (bit_and r.tick h.mask) (bit_and t h.mask) (some r),
  )

  -- The records inserted one after the other.
  abbrev pub insert_all : HistoryBuffer T I → List (FrameRecord T I) → HistoryBuffer T I
  insert_all h [] = h
  insert_all h (r ∷ rs) = insert_all (insert h r) rs

  abbrev pub AllRecords : (FrameRecord T I → Type 0) → List (FrameRecord T I) → Type 0
  AllRecords P [] = Unit
  AllRecords P (r ∷ rs) = P r × AllRecords P rs

  pub insert_all-IsValid :
      (k : ℕ) (h : HistoryBuffer T I) (rs : List (FrameRecord T I))
      → IsValid k h
      → IsValid k (insert_all h rs)
  insert_all-IsValid k h [] v = v
  insert_all-IsValid k h (r ∷ rs) v = insert_all-IsValid k (insert h r) rs (insert-IsValid k h r v)

  -- A record stays as long as the ticks inserted after it are less than a capacity ahead of it.
  pub get-insert_all :
      (k : ℕ) (h : HistoryBuffer T I) (r : FrameRecord T I) (rs : List (FrameRecord T I))
      → IsValid k h
      → get h r.tick ≡ some r
      → AllRecords (λ q. (r.tick < q.tick) × (q.tick < r.tick + 2 ^ k)) rs
      → get (insert_all h rs) r.tick ≡ some r
  get-insert_all k h r [] v e later = e
  get-insert_all k h r (q ∷ rs) v e later =
      get-insert_all k (insert h q) r rs (insert-IsValid k h q v)
        (ground
          (arith, get-insert k h q r.tick v, other_slot (2 ^ k) r.tick q.tick later.0.0 later.0.1))
        later.1

  -- In a valid buffer of 2^k slots, a record that has been inserted is found under its tick as long
  -- as every record inserted after it is ahead of it by less than 2^k.
  pub get_retained :
      (k : ℕ) (h : HistoryBuffer T I) (r : FrameRecord T I) (rs : List (FrameRecord T I))
      → IsValid k h
      → AllRecords (λ q. (r.tick < q.tick) × (q.tick < r.tick + 2 ^ k)) rs
      → get (insert_all h (r ∷ rs)) r.tick ≡ some r
  get_retained k h r rs v later =
      get-insert_all k (insert h r) r rs (insert-IsValid k h r v)
        (ground (arith, get-insert k h r r.tick v)) later

  get_empty :
      (n i : ℕ) (m : ℕ)
      → get {T = T} {I = I} (record { buffer = replicate n none; mask = m }) i ≡ none
  unfolding get
  get_empty n i m = elim (dec_lt (bit_and i m) n) [
    | yes p ↦
        ground (arith, get_elem?-replicate {A = Option (FrameRecord T I)} n (bit_and i m) none p)
    | no p ↦ ground (
      arith,
      get_elem?_beyond {A = Option (FrameRecord T I)} (replicate n none) (bit_and i m),
      length-replicate {A = Option (FrameRecord T I)} n none,
    )
  ]

  -- A buffer is made exactly for a power of two; it is valid and holds no record.
  pub new_lem :
      (c : ℕ)
      → ((new {T = T} {I = I} c ≡ none) × ((k : ℕ) → c ≢ 2 ^ k))
        ⊎ ((h : HistoryBuffer T I) × (k : ℕ) × (new c ≡ some h)
            × (c ≡ 2 ^ k)
            × IsValid k h
            × ((t : ℕ) → get h t ≡ none))
  unfolding new
  new_lem c = elim (Bool-cases (is_power_of_two c)) [
    | inl e ↦
        let (k, p) = power_of_two_lem c (ground arith) (ground arith) in
        inr (
          record { buffer = replicate c none; mask = c - 1 },
          k,
          rw e,
          p,
          record { mask_ones = ap (λ n. n - 1) p; slots = length-replicate c none ∙ p },
          λ t. get_empty c t (c - 1),
        )
    | inr e ↦ inl (rw e, λ k p. ground (arith, pow_pos k, bit_and-pow_pred k))
  ]
