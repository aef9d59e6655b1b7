-- ===== src/Transport/Interpolator/Search.antt =====
-- crates/transport/src/interpolator.rs: the buffer stays sorted and bounded, and what is rendered.
use riftnet_rust.Base.{
  ◌&&◌, ℕ, suc, ◌<◌, ◌≤◌, ◌≡◌, ◌⊎◌, inl, inr, refl, ap, true, false, List, [], ◌∷◌, ◌++◌, none,
  some, length, length-append, arith, max, ltb, leb, Bool-cases, if◌then◌else◌,
}
use riftnet_rust.Transport.Interpolator.{
  Snapshot, Interpolator, Interpolatable, back, pop_front, new, is_stale, push_snapshot, search,
  interpolate,
}

module _ {T : Type 0} where
  -- Ticks grow strictly, all from a bound on.
  abbrev pub SortedFrom : ℕ → List (Snapshot T) → Type 0
  SortedFrom low [] = Unit
  SortedFrom low (s ∷ rest) = (low ≤ s.tick) × SortedFrom (suc s.tick) rest

  -- The buffer is sorted, and holds at most its size, but never needs to hold none.
  pub record IsValid (it : Interpolator T) : Type 0 where
    pub sorted : SortedFrom 0 it.buffer
    pub bounded : length it.buffer ≤ max it.buffer_size 1

  SortedFrom-le :
      (low low' : ℕ) (xs : List (Snapshot T)) → low' ≤ low → SortedFrom low xs → SortedFrom low' xs
  SortedFrom-le low low' [] le s = tt
  SortedFrom-le low low' (x ∷ xs) le s = (omega (arith, s.0), s.1)

  pop_front-SortedFrom : (xs : List (Snapshot T)) → SortedFrom 0 xs → SortedFrom 0 (pop_front xs)
  pop_front-SortedFrom [] s = tt
  pop_front-SortedFrom (x ∷ xs) s = SortedFrom-le (suc x.tick) 0 xs (omega arith) s.1

  -- A snapshot that is newer than the last is above every bound of the buffer.
  fresh_above :
      (low : ℕ) (x : Snapshot T) (xs : List (Snapshot T)) (s : Snapshot T)
      → SortedFrom low (x ∷ xs)
      → is_stale (back (x ∷ xs)) s ≡ false
      → low ≤ s.tick
  fresh_above low x [] s sorted fresh = ground arith
  fresh_above low x (y ∷ xs) s sorted fresh =
      omega (arith, fresh_above (suc x.tick) y xs s sorted.1 fresh, sorted.0)

  append-SortedFrom :
      (low : ℕ) (xs : List (Snapshot T)) (s : Snapshot T)
      → SortedFrom low xs
      → low ≤ s.tick
      → is_stale (back xs) s ≡ false
      → SortedFrom low (xs ++ (s ∷ []))
  append-SortedFrom low [] s sorted le fresh = (le, tt)
  append-SortedFrom low (x ∷ []) s sorted le fresh = (sorted.0, (ground arith, tt))
  append-SortedFrom low (x ∷ y ∷ xs) s sorted le fresh = (
    sorted.0,
    append-SortedFrom (suc x.tick) (y ∷ xs) s sorted.1
        (fresh_above (suc x.tick) y xs s sorted.1 fresh) fresh,
  )

  back-pop_front :
      (xs : List (Snapshot T)) (s : Snapshot T)
      → is_stale (back xs) s ≡ false
      → is_stale (back (pop_front xs)) s ≡ false
  back-pop_front [] s fresh = refl
  back-pop_front (x ∷ []) s fresh = refl
  back-pop_front (x ∷ y ∷ xs) s fresh = fresh

  length-pop_front : (xs : List (Snapshot T)) → suc (length (pop_front xs)) ≤ max (length xs) 1
  length-pop_front [] = omega arith
  length-pop_front (x ∷ xs) = omega arith

  back-append : (xs : List (Snapshot T)) (s : Snapshot T) → back (xs ++ (s ∷ [])) ≡ some s
  back-append [] s = refl
  back-append (x ∷ []) s = refl
  back-append (x ∷ y ∷ xs) s = back-append (y ∷ xs) s

  -- The buffer that the new snapshot is put behind.
  abbrev room : Interpolator T → List (Snapshot T)
  room it = if leb it.buffer_size (length it.buffer) then pop_front it.buffer else it.buffer

  append-IsValid :
      (it : Interpolator T) (s : Snapshot T)
      → IsValid it
      → is_stale (back it.buffer) s ≡ false
      → IsValid (record it { buffer = room it ++ (s ∷ []) })
  append-IsValid it s v fresh = elim (Bool-cases (leb it.buffer_size (length it.buffer))) [
    | inl full ↦ rw full (record {
      sorted =
          append-SortedFrom 0 (pop_front it.buffer) s (pop_front-SortedFrom it.buffer v.sorted)
            (omega arith) (back-pop_front it.buffer s fresh);
      bounded = omega (
        arith,
        length-append (pop_front it.buffer) (s ∷ []),
        length-pop_front it.buffer,
        v.bounded,
      );
    })
    | inr free ↦ rw free (record {
      sorted = append-SortedFrom 0 it.buffer s v.sorted (omega arith) fresh;
      bounded = ground (arith, length-append it.buffer (s ∷ []));
    })
  ]

  -- A new interpolator is valid: its buffer is sorted by tick and holds no more than its size, or
  -- than one. A push keeps that; a snapshot no newer than the last changes nothing, and a newer one
  -- becomes the last.
  pub push_snapshot_lem :
      (it : Interpolator T) (s : Snapshot T) (size : ℕ)
      → IsValid it
      → IsValid (new {T = T} size)
        × IsValid (push_snapshot it s)
        × (((is_stale (back it.buffer) s ≡ true) × (push_snapshot it s ≡ it))
            ⊎ ((is_stale (back it.buffer) s ≡ false) × (back (push_snapshot it s).buffer ≡ some s)))
  unfolding push_snapshot new
  push_snapshot_lem it s size v = (
    record { sorted = tt; bounded = omega arith },
    elim (Bool-cases (is_stale (back it.buffer) s)) [
      | inl old ↦ rw (push_snapshot, old) v
      | inr fresh ↦ rw (push_snapshot, fresh) (append-IsValid it s v fresh)
    ],
    elim (Bool-cases (is_stale (back it.buffer) s)) [
      | inl old ↦ inl (old, rw (push_snapshot, old) refl)
      | inr fresh ↦ inr (fresh, rw (push_snapshot, fresh) (back-append (room it) s))
    ],
  )

  -- The tick of the last of a list that begins with `a`.
  abbrev pub newest : Snapshot T → List (Snapshot T) → ℕ
  newest a [] = a.tick
  newest a (b ∷ rest) = newest b rest

  -- A tick before the first snapshot, or not before the last.
  abbrev pub IsOutside : ℕ → List (Snapshot T) → Type 0
  IsOutside t [] = Unit
  IsOutside t (a ∷ rest) = (t < a.tick) ⊎ (newest a rest ≤ t)

  le-newest :
      (low : ℕ) (a : Snapshot T) (rest : List (Snapshot T))
      → SortedFrom low (a ∷ rest)
      → a.tick ≤ newest a rest
  le-newest low a [] sorted = omega arith
  le-newest low a (b ∷ rest) sorted =
      omega (arith, le-newest (suc a.tick) b rest sorted.1, sorted.1.0)

  module _ {F : Type 0} ⦃trait : Interpolatable T F⦄ where
    -- Nothing is found for a tick outside, or two neighbours around the tick are found.
    search_cases :
        (low : ℕ) (a : Snapshot T) (rest : List (Snapshot T)) (t : ℕ) (factor : F)
        → SortedFrom low (a ∷ rest)
        → (IsOutside t (a ∷ rest) × (search (a ∷ rest) t factor ≡ none))
          ⊎ ((older : List (Snapshot T)) × (newer : List (Snapshot T)) × (x : Snapshot T)
              × (y : Snapshot T) × (a ∷ rest ≡ older ++ (x ∷ y ∷ newer))
              × (x.tick ≤ t)
              × (t < y.tick)
              × (search (a ∷ rest) t factor ≡ some (trait.lerp x.state y.state factor)))
    unfolding search
    search_cases low a [] t factor sorted = elim (Bool-cases (leb a.tick t)) [
      | inl from_a ↦ inl (inr (ground arith), refl)
      | inr before_a ↦ inl (inl (ground arith), refl)
    ]
    search_cases low a (b ∷ rest) t factor sorted =
        elim (Bool-cases (leb a.tick t && ltb t b.tick)) [
          | inl between ↦ inr ([], rest, a, b, refl, ground arith, ground arith, rw between refl)
          | inr beside ↦ elim (search_cases (suc a.tick) b rest t factor sorted.1) [
            | inl (outside, nothing) ↦ inl (
              ground (arith, le-newest (suc a.tick) b rest sorted.1, sorted.1.0),
              rw beside nothing,
            )
            | inr (older, newer, x, y, e, le, lt, found) ↦
                inr (a ∷ older, newer, x, y, ap (λ xs. a ∷ xs) e, le, lt, rw beside found)
          ]
        ]

    -- The test for fewer than two snapshots changes nothing.
    search_short :
        (xs : List (Snapshot T)) (t : ℕ) (factor : F)
        → (if ltb (length xs) 2 then none else search xs t factor) ≡ search xs t factor
    unfolding search
    search_short [] t factor = refl
    search_short (a ∷ []) t factor = refl
    search_short (a ∷ b ∷ rest) t factor = ground arith

    buffer_cases :
        (xs : List (Snapshot T)) (t : ℕ) (factor : F)
        → SortedFrom 0 xs
        → (IsOutside t xs × (search xs t factor ≡ none))
          ⊎ ((older : List (Snapshot T)) × (newer : List (Snapshot T)) × (x : Snapshot T)
              × (y : Snapshot T) × (xs ≡ older ++ (x ∷ y ∷ newer))
              × (x.tick ≤ t)
              × (t < y.tick)
              × (search xs t factor ≡ some (trait.lerp x.state y.state factor)))
    unfolding search
    buffer_cases [] t factor sorted = inl (tt, refl)
    buffer_cases (a ∷ rest) t factor sorted = search_cases 0 a rest t factor sorted

    -- In a valid buffer, either the tick is outside the snapshots, before the first or not before
    -- the last, and nothing is rendered, or it is from one snapshot on and before the next one, and
    -- these two are interpolated.
    pub interpolate_lem :
        (it : Interpolator T) (t : ℕ) (factor : F)
        → IsValid it
        → (IsOutside t it.buffer × (interpolate it t factor ≡ none))
          ⊎ ((older : List (Snapshot T)) × (newer : List (Snapshot T)) × (x : Snapshot T)
              × (y : Snapshot T) × (it.buffer ≡ older ++ (x ∷ y ∷ newer))
              × (x.tick ≤ t)
              × (t < y.tick)
              × (interpolate it t factor ≡ some (trait.lerp x.state y.state factor)))
    unfolding interpolate
    interpolate_lem it t factor v =
        rw (interpolate, search_short it.buffer t factor) (buffer_cases it.buffer t factor v.sorted)
