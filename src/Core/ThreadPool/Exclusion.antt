-- ===== src/Core/ThreadPool/Exclusion.antt =====
-- crates/core/src/threading.rs: the mutex, and when a worker returns.
use riftnet_rust.Base.{
  Bool, Bool-cases, true, false, not, ◌&&◌, ◌||◌, ℕ, zero, suc, ◌+◌, ◌≤◌, ◌≡◌, ◌≢◌, ◌⊎◌, refl, ap,
  List, [], ◌∷◌, some, get_elem?, set, map, max, replicate, arith, inl, inr,
}
use riftnet_rust.Core.ThreadPool.{
  Worker, awake, checked, settled, waiting, running, left, Pool, Event, new, holds, holders, woken,
  Step, WorkerStep, look, choose, wait, wake, finish, worker, enqueue, stop_set, pause_set,
  notified, clear, Run, done, step, check_stop, check_paused, notify_all, push_job, set_stop,
  set_paused, clear_queue,
}

holders-replicate : (J : Type 0) (n : ℕ) → holders (replicate {A = Worker J} n awake) ≡ 0
holders-replicate J zero = refl
holders-replicate J (suc n) = omega (arith, holders-replicate J n)

none_left : (J : Type 0) (n k : ℕ) → get_elem? (replicate {A = Worker J} n awake) k ≢ some left
none_left J zero k e = cc
none_left J (suc n) zero e = absurd (ground arith)
none_left J (suc n) (suc k) e = none_left J n k e

module _ {J : Type 0} where
  abbrev pub is_left : Worker J → Bool
  is_left left = true
  is_left w = false

  is_left-left : (w : Worker J) → is_left w ≡ true → w ≡ left
  is_left-left awake e = absurd (ground arith)
  is_left-left checked e = absurd (ground arith)
  is_left-left settled e = absurd (ground arith)
  is_left-left waiting e = absurd (ground arith)
  is_left-left (running j) e = absurd (ground arith)
  is_left-left left e = refl

  holders-set :
      (ws : List (Worker J)) (i : ℕ) (old w : Worker J)
      → get_elem? ws i ≡ some old
      → holders (set ws i w) + holds old ≡ holders ws + holds w
  holders-set [] i old w e = absurd (ground arith)
  holders-set (v ∷ ws) zero old w e = ground arith
  holders-set (v ∷ ws) (suc i) old w e = omega (arith, holders-set ws i old w e)

  holds-woken : (w : Worker J) → holds (woken w) ≡ holds w
  holds-woken awake = refl
  holds-woken checked = refl
  holds-woken settled = refl
  holds-woken waiting = refl
  holds-woken (running j) = refl
  holds-woken left = refl

  holders-woken : (ws : List (Worker J)) → holders (map woken ws) ≡ holders ws
  holders-woken [] = refl
  holders-woken (w ∷ ws) = omega (arith, holds-woken w, holders-woken ws)

  check_paused-holders :
      (p : Pool J) (i : ℕ) (js : List J)
      → get_elem? p.workers i ≡ some checked
      → holders p.workers ≤ 1
      → holders (check_paused p i js).0.workers ≤ 1
  unfolding check_paused
  check_paused-holders p i [] at h = omega (arith, holders-set p.workers i checked settled at)
  check_paused-holders p i (j ∷ rest) at h = ground (
    arith,
    holders-set p.workers i checked settled at,
    holders-set p.workers i checked (running j) at,
  )

  WorkerStep-holders :
      {p q : Pool J} {e : Event J}
      → WorkerStep p e q
      → holders p.workers ≤ 1
      → holders q.workers ≤ 1
  unfolding check_stop
  WorkerStep-holders {p} (look i at free) h =
      ground
        (arith, holders-set p.workers i awake left at, holders-set p.workers i awake checked at)
  WorkerStep-holders {p} (choose i at) h = check_paused-holders p i p.tasks at h
  WorkerStep-holders {p} (wait i at) h = omega (arith, holders-set p.workers i settled waiting at)
  WorkerStep-holders {p} (wake i at) h = omega (arith, holders-set p.workers i waiting awake at)
  WorkerStep-holders {p} (finish i j at) h =
      omega (arith, holders-set p.workers i (running j) awake at)

  Step-holders :
      {p q : Pool J} {e : Event J} → Step p e q → holders p.workers ≤ 1 → holders q.workers ≤ 1
  unfolding push_job set_stop set_paused notify_all clear_queue
  Step-holders (worker s) h = WorkerStep-holders s h
  Step-holders (enqueue j free) h = h
  Step-holders stop_set h = h
  Step-holders (pause_set b) h = h
  Step-holders {p} notified h = omega (arith, holders-woken p.workers)
  Step-holders (clear free) h = h

  Run-holders :
      {p q : Pool J} {es : List (Event J)}
      → Run p es q
      → holders p.workers ≤ 1
      → holders q.workers ≤ 1
  Run-holders done h = h
  Run-holders (step s run) h = Run-holders run (Step-holders s h)

  -- A worker that has returned did so at its last move, or before.
  pub left-set :
      (ws : List (Worker J)) (i k : ℕ) (w : Worker J)
      → get_elem? (set ws i w) k ≡ some left
      → (w ≡ left) ⊎ (get_elem? ws k ≡ some left)
  left-set [] i k w e = inr e
  left-set (v ∷ ws) zero zero w e = inl (ground arith)
  left-set (v ∷ ws) zero (suc k) w e = inr e
  left-set (v ∷ ws) (suc i) zero w e = inr e
  left-set (v ∷ ws) (suc i) (suc k) w e = left-set ws i k w e

  woken-left : (w : Worker J) → woken w ≡ left → w ≡ left
  woken-left awake e = cc
  woken-left checked e = cc
  woken-left settled e = cc
  woken-left waiting e = absurd (ground arith)
  woken-left (running j) e = cc
  woken-left left e = refl

  left-woken :
      (ws : List (Worker J)) (k : ℕ)
      → get_elem? (map woken ws) k ≡ some left
      → get_elem? ws k ≡ some left
  left-woken [] k e = e
  left-woken (w ∷ ws) zero e = ap some (woken-left w (ground arith))
  left-woken (w ∷ ws) (suc k) e = left-woken ws k e

  -- `stop` was set before any worker returned.
  abbrev pub LeftAfterStop : Pool J → Type 0
  LeftAfterStop p = (k : ℕ) → get_elem? p.workers k ≡ some left → p.stop ≡ true

  check_paused-LeftAfterStop :
      (p : Pool J) (i : ℕ) (js : List J) → LeftAfterStop p → LeftAfterStop (check_paused p i js).0
  unfolding check_paused
  check_paused-LeftAfterStop p i [] h k e = ground (arith, left-set p.workers i k settled, h k)
  check_paused-LeftAfterStop p i (j ∷ rest) h k e =
      ground (arith, left-set p.workers i k settled, left-set p.workers i k (running j), h k)

  WorkerStep-LeftAfterStop :
      {p q : Pool J} {e : Event J} → WorkerStep p e q → LeftAfterStop p → LeftAfterStop q
  unfolding check_stop
  WorkerStep-LeftAfterStop {p} (look i at free) h =
      λ k e. ground (arith, left-set p.workers i k checked, h k)
  WorkerStep-LeftAfterStop {p} (choose i at) h = check_paused-LeftAfterStop p i p.tasks h
  WorkerStep-LeftAfterStop {p} (wait i at) h =
      λ k e. ground (arith, left-set p.workers i k waiting e, h k)
  WorkerStep-LeftAfterStop {p} (wake i at) h =
      λ k e. ground (arith, left-set p.workers i k awake e, h k)
  WorkerStep-LeftAfterStop {p} (finish i j at) h =
      λ k e. ground (arith, left-set p.workers i k awake e, h k)

  Step-LeftAfterStop : {p q : Pool J} {e : Event J} → Step p e q → LeftAfterStop p → LeftAfterStop q
  unfolding push_job set_stop set_paused notify_all clear_queue
  Step-LeftAfterStop (worker s) h = WorkerStep-LeftAfterStop s h
  Step-LeftAfterStop (enqueue j free) h = h
  Step-LeftAfterStop stop_set h = λ k e. refl
  Step-LeftAfterStop (pause_set b) h = h
  Step-LeftAfterStop {p} notified h = λ k e. h k (left-woken p.workers k e)
  Step-LeftAfterStop (clear free) h = h

  Run-LeftAfterStop :
      {p q : Pool J} {es : List (Event J)} → Run p es q → LeftAfterStop p → LeftAfterStop q
  Run-LeftAfterStop done h = h
  Run-LeftAfterStop (step s run) h = Run-LeftAfterStop run (Step-LeftAfterStop s h)

  abbrev pub any_left : List (Worker J) → Bool
  any_left [] = false
  any_left (w ∷ ws) = is_left w || any_left ws

  some_left : (ws : List (Worker J)) → any_left ws ≡ true → (k : ℕ) × (get_elem? ws k ≡ some left)
  some_left [] e = absurd (ground arith)
  some_left (w ∷ ws) e = elim (Bool-cases (is_left w)) [
    | inl here ↦ (0, ap some (is_left-left w here))
    | inr there ↦ (let (k, found) = some_left ws (ground arith) in (suc k, found))
  ]

  -- In every run from a new pool of any size, at most one worker holds the lock at a time, and no
  -- worker has returned while `stop` is not set.
  pub Run-exclusive :
      (n : ℕ) {q : Pool J} {es : List (Event J)}
      → Run (new n) es q
      → (holders q.workers ≤ 1) × ((any_left q.workers && not q.stop) ≡ false)
  unfolding new
  Run-exclusive n {q} run = (
    Run-holders run (omega (arith, holders-replicate J (max n 1))),
    elim (Bool-cases (any_left q.workers)) [
      | inl found ↦
          (let (k, at) = some_left q.workers found in
            let stopped = Run-LeftAfterStop run (λ k e. absurd (none_left J (max n 1) k e)) k at in
            rw (found, stopped) refl)
      | inr none_found ↦ rw none_found refl
    ],
  )
