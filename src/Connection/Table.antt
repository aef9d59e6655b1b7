-- ===== src/Connection/Table.antt =====
-- The standard library's `HashMap` from socket addresses, as an association list in the order in
-- which an iteration meets the entries. An address is a value with an equality test and the text
-- of its IP address.
pub mod Keys
use riftnet_rust.Base.{
  ℕ, ◌≡◌, ◌↔◌, refl, Bool, true, false, Option, none, some, List, [], ◌∷◌, if◌then◌else◌, arith,
}

pub record SocketAddr (A : Type 0) : Type 0 where
  pub same_addr : A → A → Bool
  pub same_addr_iff : (a b : A) → (same_addr a b ≡ true) ↔ (a ≡ b)
  pub ip_string : A → List ℕ

-- What a lookup finds after `retain`.
abbrev pub kept : {V : Type 0} → (V → Bool) → Option V → Option V
kept keep none = none
kept keep (some v) = if keep v then some v else none

module _ {A V : Type 0} ⦃addrs : SocketAddr A⦄ where
  unfoldable pub lookup : A → List (A × V) → Option V
  lookup k [] = none
  lookup k ((j, v) ∷ m) = if addrs.same_addr j k then some v else lookup k m

  -- A value in place of the one under its key, or at the end.
  unfoldable pub put : A → V → List (A × V) → List (A × V)
  put k v [] = (k, v) ∷ []
  put k v ((j, w) ∷ m) = if addrs.same_addr j k then (j, v) ∷ m else (j, w) ∷ put k v m

  unfoldable pub erase : A → List (A × V) → List (A × V)
  erase k [] = []
  erase k ((j, w) ∷ m) = let rest = erase k m in if addrs.same_addr j k then rest else (j, w) ∷ rest

  -- The entries whose value passes a test.
  unfoldable pub retain : (V → Bool) → List (A × V) → List (A × V)
  retain keep [] = []
  retain keep ((j, w) ∷ m) = let rest = retain keep m in if keep w then (j, w) ∷ rest else rest

  -- Whether a key has an entry.
  abbrev pub contains_key : A → List (A × V) → Bool
  contains_key k m = elim (lookup k m) [ none ↦ false | some v ↦ true ]

  -- `entry(k).or_insert(v)`
  unfoldable pub or_insert : A → V → List (A × V) → List (A × V)
  or_insert k v m = elim (lookup k m) [ none ↦ put k v m | some w ↦ m ]

  -- Every value of the map satisfies a predicate.
  abbrev pub Every : (V → Type 0) → List (A × V) → Type 0
  Every P [] = Unit
  Every P ((j, w) ∷ m) = P w × Every P m

  -- Every key stands in one entry.
  abbrev pub Distinct : List (A × V) → Type 0
  Distinct [] = Unit
  Distinct ((j, w) ∷ m) = (lookup j m ≡ none) × Distinct m

  pub lookup-put :
      (k j : A) (v : V) (m : List (A × V))
      → lookup j (put k v m) ≡ (if addrs.same_addr k j then some v else lookup j m)
  unfolding lookup put
  lookup-put k j v [] = refl
  lookup-put k j v ((i, w) ∷ m) = ground (
    arith,
    addrs.same_addr_iff i k,
    addrs.same_addr_iff i j,
    addrs.same_addr_iff k j,
    lookup-put k j v m,
  )

  pub lookup-put_self : (k : A) (v : V) (m : List (A × V)) → lookup k (put k v m) ≡ some v
  lookup-put_self k v m = ground (arith, addrs.same_addr_iff k k, lookup-put k k v m)

  pub lookup-erase :
      (k j : A) (m : List (A × V))
      → lookup j (erase k m) ≡ (if addrs.same_addr k j then none else lookup j m)
  unfolding lookup erase
  lookup-erase k j [] = ground arith
  lookup-erase k j ((i, w) ∷ m) = ground (
    arith,
    addrs.same_addr_iff i k,
    addrs.same_addr_iff i j,
    addrs.same_addr_iff k j,
    lookup-erase k j m,
  )

  pub lookup-retain :
      (keep : V → Bool) (j : A) (m : List (A × V))
      → Distinct m
      → lookup j (retain keep m) ≡ kept keep (lookup j m)
  unfolding lookup retain
  lookup-retain keep j [] d = refl
  lookup-retain keep j ((i, w) ∷ m) d =
      ground (arith, addrs.same_addr_iff i j, lookup-retain keep j m d.1)

  pub put-Distinct : (k : A) (v : V) (m : List (A × V)) → Distinct m → Distinct (put k v m)
  unfolding put
  put-Distinct k v [] d = (unfold lookup in refl, tt)
  put-Distinct k v ((i, w) ∷ m) d = ground (
    arith,
    addrs.same_addr_iff k i,
    addrs.same_addr_iff i k,
    lookup-put k i v m,
    put-Distinct k v m d.1,
  )

  pub erase-Distinct : (k : A) (m : List (A × V)) → Distinct m → Distinct (erase k m)
  unfolding erase
  erase-Distinct k [] d = tt
  erase-Distinct k ((i, w) ∷ m) d = ground (arith, lookup-erase k i m, erase-Distinct k m d.1)

  pub retain-Distinct : (keep : V → Bool) (m : List (A × V)) → Distinct m → Distinct (retain keep m)
  unfolding retain
  retain-Distinct keep [] d = tt
  retain-Distinct keep ((i, w) ∷ m) d =
      ground (arith, lookup-retain keep i m d.1, retain-Distinct keep m d.1)
