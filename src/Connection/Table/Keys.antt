-- ===== src/Connection/Table/Keys.antt =====
-- The standard library's `HashMap` from socket addresses: which keys an operation leaves, and what
-- it keeps of a property of all values.
use riftnet_rust.Base.{◌≡◌, Bool, true, some, List, [], ◌∷◌, arith, ◌||◌}
use riftnet_rust.Connection.Table.{
  SocketAddr, lookup, put, erase, retain, contains_key, or_insert, Every, lookup-put,
}

module _ {A V : Type 0} ⦃addrs : SocketAddr A⦄ where
  pub contains_key-put :
      (k j : A) (v : V) (m : List (A × V))
      → contains_key j (put k v m) ≡ (addrs.same_addr k j || contains_key j m)
  contains_key-put k j v m = ground (arith, lookup-put k j v m)

  pub contains_key-or_insert :
      (k j : A) (v : V) (m : List (A × V))
      → contains_key j (or_insert k v m) ≡ (addrs.same_addr k j || contains_key j m)
  unfolding or_insert
  contains_key-or_insert k j v m = ground (arith, lookup-put k j v m, addrs.same_addr_iff k j)

  -- A value in place of one that is there leaves the keys as they are.
  pub contains_key-put_found :
      (k j : A) (v w : V) (m : List (A × V))
      → lookup k m ≡ some w
      → contains_key j (put k v m) ≡ contains_key j m
  contains_key-put_found k j v w m found =
      ground (arith, lookup-put k j v m, addrs.same_addr_iff k j)

  pub contains_key-retain :
      (keep : V → Bool) (j : A) (m : List (A × V))
      → contains_key j (retain keep m) ≡ true
      → contains_key j m ≡ true
  unfolding lookup retain
  contains_key-retain keep j [] e = e
  contains_key-retain keep j ((i, w) ∷ m) e = ground (arith, contains_key-retain keep j m)

  module _ (P : V → Type 0) where
    pub Every-put : (k : A) (v : V) (m : List (A × V)) → P v → Every P m → Every P (put k v m)
    unfolding put
    Every-put k v [] p ps = (p, tt)
    Every-put k v ((j, w) ∷ m) p ps = ground (arith, Every-put k v m p ps.1)

    pub Every-erase : (k : A) (m : List (A × V)) → Every P m → Every P (erase k m)
    unfolding erase
    Every-erase k [] ps = tt
    Every-erase k ((j, w) ∷ m) ps = ground (arith, Every-erase k m ps.1)

    pub Every-retain : (keep : V → Bool) (m : List (A × V)) → Every P m → Every P (retain keep m)
    unfolding retain
    Every-retain keep [] ps = tt
    Every-retain keep ((j, w) ∷ m) ps = ground (arith, Every-retain keep m ps.1)

    pub Every-lookup : (k : A) (v : V) (m : List (A × V)) → Every P m → lookup k m ≡ some v → P v
    unfolding lookup
    Every-lookup k v [] ps e = absurd (ground arith)
    Every-lookup k v ((j, w) ∷ m) ps e = ground (arith, Every-lookup k v m ps.1)
