-- ===== src/Core/ThreadPool/Stopping.antt =====
-- crates/core/src/threading.rs: the workers after `stop`, which waits for all of them to return.
use riftnet_rust.Base.{
  if◌then◌else◌, ◌∙◌, ap, zero, suc, set, false, some, get_elem?, ℕ, ◌≡◌, refl, true, List, [], ◌∷◌,
  get_elem?-set_self, map, ◌<◌, arith, length,
}
use riftnet_rust.Core.ThreadPool.{
  Worker, awake, checked, settled, waiting, Pool, Event, nothing, is_empty, move, woken, WorkerStep,
  look, choose, wait, wake, finish, worker, stop_set, notified, Run, done, step, check_stop,
  check_paused, notify_all, set_stop,
}
use riftnet_rust.Core.ThreadPool.Exclusion.{is_left}

-- A run in which the workers act, and no caller does.
pub data WorkerRun {J : Type 0} : Pool J → Pool J → Type 0 where
  idle : {p : Pool J} → WorkerRun p p
  act : {p q r : Pool J} {e : Event J} → WorkerStep p e q → WorkerRun q r → WorkerRun p r

module _ {J : Type 0} where
  -- How many workers have returned.
  abbrev pub returned : List (Worker J) → ℕ
  returned [] = 0
  returned (w ∷ ws) = if is_left w then suc (returned ws) else returned ws

  returned-set :
      (ws : List (Worker J)) (i : ℕ) (old w : Worker J)
      → get_elem? ws i ≡ some old
      → is_left old ≡ false
      → is_left w ≡ false
      → returned (set ws i w) ≡ returned ws
  returned-set [] i old w e a b = refl
  returned-set (v ∷ ws) zero old w e a b = ground (arith, ap is_left {x = v} {y = old})
  returned-set (v ∷ ws) (suc i) old w e a b = ground (arith, returned-set ws i old w e a b)

  -- A paused pool with a job in its queue, and who has returned from another pool.
  abbrev pub Stuck : Pool J → Pool J → Type 0
  Stuck start p =
      (p.paused ≡ true)
      × (is_empty p.tasks ≡ false)
      × (p.tasks ≡ start.tasks)
      × (returned p.workers ≡ returned start.workers)

  check_paused-Stuck :
      (start p : Pool J) (i : ℕ) (js : List J)
      → js ≡ p.tasks
      → get_elem? p.workers i ≡ some checked
      → Stuck start p
      → Stuck start (check_paused p i js).0
  unfolding check_paused
  check_paused-Stuck start p i [] same at h = absurd (ground arith)
  check_paused-Stuck start p i (j ∷ rest) same at h =
      rw h.0 (refl, h.1, h.2, returned-set p.workers i _ settled at refl refl ∙ h.3)

  check_stop-full :
      (p : Pool J) (i : ℕ) → is_empty p.tasks ≡ false → check_stop p i ≡ move p i checked
  unfolding check_stop
  check_stop-full p i full = ground arith

  WorkerStep-Stuck :
      (start : Pool J) {p q : Pool J} {e : Event J}
      → WorkerStep p e q
      → Stuck start p
      → Stuck start q
  WorkerStep-Stuck start {p} (look i at free) h =
      rw (check_stop-full p i h.1)
        (h.0, h.1, h.2, returned-set p.workers i _ checked at refl refl ∙ h.3)
  WorkerStep-Stuck start {p} (choose i at) h = check_paused-Stuck start p i p.tasks refl at h
  WorkerStep-Stuck start {p} (wait i at) h =
      (h.0, h.1, h.2, returned-set p.workers i _ waiting at refl refl ∙ h.3)
  WorkerStep-Stuck start {p} (wake i at) h =
      (h.0, h.1, h.2, returned-set p.workers i _ awake at refl refl ∙ h.3)
  WorkerStep-Stuck start {p} (finish i j at) h =
      (h.0, h.1, h.2, returned-set p.workers i _ awake at refl refl ∙ h.3)

  WorkerRun-Stuck : (start : Pool J) {p q : Pool J} → WorkerRun p q → Stuck start p → Stuck start q
  WorkerRun-Stuck start idle h = h
  WorkerRun-Stuck start (act s run) h = WorkerRun-Stuck start run (WorkerStep-Stuck start s h)

  -- In a paused pool with a job in its queue, whether `stop` is set or not, no job is taken
  -- and no worker returns, however long the workers run without a call from outside.
  pub paused_never_returns :
      {p q : Pool J}
      → WorkerRun p q
      → p.paused ≡ true
      → is_empty p.tasks ≡ false
      → (q.tasks ≡ p.tasks) × (returned q.workers ≡ returned p.workers)
  paused_never_returns {p} run paused full =
      let (_, _, tasks, same) = WorkerRun-Stuck p run (paused, full, refl, refl) in (tasks, same)

  settled-woken :
      (ws : List (Worker J)) (i : ℕ)
      → get_elem? ws i ≡ some settled
      → get_elem? (map woken ws) i ≡ some settled
  settled-woken [] i e = e
  settled-woken (w ∷ ws) zero e = ground arith
  settled-woken (w ∷ ws) (suc i) e = settled-woken ws i e

  get_elem?-lt :
      (ws : List (Worker J)) (i : ℕ) (w : Worker J) → get_elem? ws i ≡ some w → i < length ws
  get_elem?-lt [] i w e = absurd (ground arith)
  get_elem?-lt (v ∷ ws) zero w e = omega arith
  get_elem?-lt (v ∷ ws) (suc i) w e = omega (arith, get_elem?-lt ws i w e)

  -- A worker that has found nothing to do and has not yet begun to wait misses the signal of
  -- `stop`: `stop` may be set and all workers notified, and then the worker waits, in a pool whose
  -- `stop` is set and whose queue is as it was.
  pub stop_signal_lost :
      (p : Pool J) (i : ℕ)
      → get_elem? p.workers i ≡ some settled
      → (q : Pool J) × (es : List (Event J)) × Run p es q
        × (get_elem? q.workers i ≡ some waiting)
        × (q.stop ≡ true)
        × (q.tasks ≡ p.tasks)
  unfolding notify_all set_stop
  stop_signal_lost p i at =
      let still = settled-woken p.workers i at in
      (
        move (notify_all (set_stop p)) i waiting,
        nothing ∷ nothing ∷ nothing ∷ [],
        step stop_set (step notified (step (worker (wait i still)) done)),
        get_elem?-set_self (map woken p.workers) i waiting
            (get_elem?-lt (map woken p.workers) i settled still),
        refl,
        refl,
      )
