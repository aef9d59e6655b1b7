-- ===== src/Protocol/History/Reference.antt =====
-- crates/protocol/src/history.rs: the ring of frames against a list that forgets none.
use riftnet_rust.Base.{
  ℕ, ◌%◌, ◌^◌, ◌≡◌, inl, inr, ◌∙◌, ap, sym, List, [], ◌∷◌, Option, none, some, ◌==◌, if◌then◌else◌,
  arith,
}
use riftnet_rust.Protocol.History.{FrameRecord, HistoryBuffer, new, insert, get}
use riftnet_rust.Protocol.History.Lookup.{IsValid, insert-IsValid, get-insert, new_lem}

module _ {T I : Type 0} where
  -- The reference: of all records, newest first, the newest whose tick is the one asked for modulo
  -- the capacity, if it has that tick.
  abbrev pub latest : ℕ → List (FrameRecord T I) → ℕ → Option (FrameRecord T I)
  latest capacity [] t = none
  latest capacity (r ∷ older) t =
      let before = latest capacity older t in
      if r.tick == t then some r else if r.tick % capacity == t % capacity then none else before

  -- The records inserted, the last of the list first.
  abbrev pub insert_records : HistoryBuffer T I → List (FrameRecord T I) → HistoryBuffer T I
  insert_records h [] = h
  insert_records h (r ∷ older) = insert (insert_records h older) r

  insert_records-IsValid :
      (k : ℕ) (h : HistoryBuffer T I) (rs : List (FrameRecord T I))
      → IsValid k h
      → IsValid k (insert_records h rs)
  insert_records-IsValid k h [] v = v
  insert_records-IsValid k h (r ∷ older) v =
      insert-IsValid k (insert_records h older) r (insert_records-IsValid k h older v)

  get-insert_records :
      (k : ℕ) (h : HistoryBuffer T I) (rs : List (FrameRecord T I)) (t : ℕ)
      → IsValid k h
      → get h t ≡ none
      → get (insert_records h rs) t ≡ latest (2 ^ k) rs t
  get-insert_records k h [] t v empty = empty
  get-insert_records k h (r ∷ older) t v empty = ground (
    arith,
    get-insert k (insert_records h older) r t (insert_records-IsValid k h older v),
    get-insert_records k h older t v empty,
  )

  -- A new buffer, into which any records are inserted in any order of their ticks, returns for
  -- every tick what the reference returns: the newest record of the tick's slot, if it has the tick.
  pub get-latest :
      (capacity : ℕ) (h : HistoryBuffer T I) (rs : List (FrameRecord T I)) (t : ℕ)
      → new capacity ≡ some h
      → get (insert_records h rs) t ≡ latest capacity rs t
  get-latest capacity h rs t e = elim (new_lem {T = T} {I = I} capacity) [
    | inl (d, _) ↦ absurd (ground (arith, d, e))
    | inr (h', k, d, c, v, empty) ↦
        let same : h' ≡ h = ground (arith, d, e) in
        ap (λ x. get (insert_records x rs) t) (sym same)
        ∙ (get-insert_records k h' rs t v (empty t) ∙ ap (λ n. latest n rs t) (sym c))
  ]
