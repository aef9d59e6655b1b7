-- ===== src/Game/Sessions/Order.antt =====
-- bin/server.rs: the order in which the server goes through the `HashMap` of its sessions.
use mathlib.Core.List.{Permᴰ}
use mathlib.Core.List as Library
use riftnet_rust.Base.{
  ℕ, ◌≡◌, inl, inr, refl, ◌∙◌, ap, List, [], ◌∷◌, Option, none, some, bit_or, arith,
}
use riftnet_rust.Game.World.{WorldState}
use riftnet_rust.Game.Sessions.{ClientSession, advance_session, run_sessions, run_tick}
use riftnet_rust.Game.Sessions.Inputs.{any_moves, run_tick-world}

module _ {A : Type 0} where
  -- The same sessions in some order, and the same world; or a panic of both.
  abbrev pub SameTick :
      Option (List (A × ClientSession) × WorldState)
      → Option (List (A × ClientSession) × WorldState)
      → Type 0
  SameTick none none = Unit
  SameTick none (some r) = ⊥
  SameTick (some r) none = ⊥
  SameTick (some (s1, w1)) (some (s2, w2)) = Permᴰ s1 s2 × (w1 ≡ w2)

  any_moves-perm :
      {s1 s2 : List (A × ClientSession)} (now : ℕ)
      → Permᴰ s1 s2
      → any_moves now s1 ≡ any_moves now s2
  any_moves-perm now Permᴰ.nil = refl
  any_moves-perm now (Permᴰ.cons {a} {b} e d) = ground (arith, any_moves-perm now d)
  any_moves-perm now (Permᴰ.swap {a} {b} {a'} {b'} e1 e2) = ground arith
  any_moves-perm now (Permᴰ.trans d1 d2) = any_moves-perm now d1 ∙ any_moves-perm now d2

  -- The sessions afterwards do not depend on the inputs so far.
  sessions_alone :
      (now i j : ℕ) (s : List (A × ClientSession))
      → (run_sessions now s i).0 ≡ (run_sessions now s j).0
  unfolding run_sessions
  sessions_alone now i j [] = refl
  sessions_alone now i j ((a, s) ∷ rest) = ground (
    arith,
    sessions_alone now (bit_or i (advance_session now s).last_known_input)
        (bit_or j (advance_session now s).last_known_input) rest,
  )

  sessions_alone-perm :
      (now i j : ℕ) (s : List (A × ClientSession))
      → Permᴰ (run_sessions now s i).0 (run_sessions now s j).0
  sessions_alone-perm now i j s = rw (sessions_alone now i j s) (Library.Permᴰ.refl _)

  run_sessions-perm :
      {s1 s2 : List (A × ClientSession)} (now i j : ℕ)
      → Permᴰ s1 s2
      → Permᴰ (run_sessions now s1 i).0 (run_sessions now s2 j).0
  unfolding run_sessions
  run_sessions-perm now i j Permᴰ.nil = Permᴰ.nil
  run_sessions-perm now i j (Permᴰ.cons {a} {b} e d) =
      Permᴰ.cons (ap (λ x. (x.0, advance_session now x.1)) e) (
        run_sessions-perm now (bit_or i (advance_session now a.1).last_known_input)
          (bit_or j (advance_session now b.1).last_known_input) d)
  run_sessions-perm now i j (Permᴰ.swap {l} e1 e2) =
      Permᴰ.trans
        (Permᴰ.swap (ap (λ x. (x.0, advance_session now x.1)) e1)
          (ap (λ x. (x.0, advance_session now x.1)) e2))
        (Permᴰ.cons refl (Permᴰ.cons refl (sessions_alone-perm now _ _ l)))
  run_sessions-perm now i j (Permᴰ.trans d1 d2) =
      Permᴰ.trans (run_sessions-perm now i i d1) (run_sessions-perm now i j d2)

  -- Sessions in another order give the same tick: the same sessions afterwards, in some order, and
  -- the same world, or no world for either.
  pub tick_order :
      {s1 s2 : List (A × ClientSession)} (now : ℕ) (w : WorldState)
      → Permᴰ s1 s2
      → SameTick (run_tick now s1 w) (run_tick now s2 w)
  tick_order {s1} {s2} now w d =
      let moves = any_moves-perm now d in
      let same = run_sessions-perm now 0 0 d in
      elim (run_tick-world now s1 w) [
        | inl (m1, e1) ↦ elim (run_tick-world now s2 w) [
          | inl (m2, e2) ↦ rw (e1, e2) (same, refl)
          | inr (m2, _) ↦ absurd (ground (arith, m1, m2, moves))
        ]
        | inr (m1, r1) ↦ elim (run_tick-world now s2 w) [
          | inl (m2, _) ↦ absurd (ground (arith, m1, m2, moves))
          | inr (m2, r2) ↦ elim r1 [
            | inl (none1, e1) ↦ elim r2 [
              | inl (_, e2) ↦ rw (e1, e2) tt
              | inr (w2, f2, _) ↦ absurd (ground (arith, none1, f2))
            ]
            | inr (w1, f1, e1) ↦ elim r2 [
              | inl (none2, _) ↦ absurd (ground (arith, none2, f1))
              | inr (w2, f2, e2) ↦ rw (e1, e2) (same, ground (arith, f1, f2))
            ]
          ]
        ]
      ]
