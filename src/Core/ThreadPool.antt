-- ===== src/Core/ThreadPool.antt =====
-- crates/core/src/threading.rs: `TaskThreadPool`, as the steps that its threads take in turn. A
-- step is what one thread does to the shared state between two points at which others may act. The
-- mutex is held by a worker from its look at `stop` until it takes a job or waits, so the steps
-- that lock are made while no worker holds it. A job that panics ends as any other, by
-- `catch_unwind`; its result, sent through the channel, is left out.
pub mod Queue
pub mod Exclusion
pub mod Stopping
use riftnet_rust.Base.{
  ℕ, zero, suc, ◌≡◌, Bool, true, false, not, ◌&&◌, List, [], ◌∷◌, ◌++◌, Option, none, some,
  if◌then◌else◌, get_elem?, set, replicate, max, map, ◌+◌, ◌==◌,
}

-- Where a worker is in its loop: about to lock the queue; holding the lock, with `stop` looked at;
-- holding it with nothing to do; in `condvar.wait`; in a job; returned.
pub data Worker (J : Type 0) : Type 0 where
  awake checked settled waiting : Worker J
  running : J → Worker J
  left : Worker J

pub record Pool (J : Type 0) : Type 0 where
  pub tasks : List J
  pub stop : Bool
  pub paused : Bool
  pub workers : List (Worker J)

-- What a step does to the queue.
pub data Event (J : Type 0) : Type 0 where
  enqueued started : J → Event J
  cleared nothing : Event J

module _ {J : Type 0} where
  unfoldable pub new : ℕ → Pool J
  new num_threads = record {
    tasks = [];
    stop = false;
    paused = false;
    workers = replicate (max num_threads 1) awake;
  }

  abbrev pub is_empty : List J → Bool
  is_empty [] = true
  is_empty (j ∷ js) = false

  -- 1 for a worker that holds the lock.
  abbrev pub holds : Worker J → ℕ
  holds awake = 0
  holds checked = 1
  holds settled = 1
  holds waiting = 0
  holds (running j) = 0
  holds left = 0

  abbrev pub holders : List (Worker J) → ℕ
  holders [] = 0
  holders (w ∷ ws) = holds w + holders ws

  abbrev pub move : Pool J → ℕ → Worker J → Pool J
  move p i w = record p { workers = set p.workers i w }

  -- The first test under the lock.
  unfoldable pub check_stop : Pool J → ℕ → Pool J
  check_stop p i = if p.stop && is_empty p.tasks then move p i left else move p i checked

  -- The second test: the pool afterwards, and what was taken.
  unfoldable pub check_paused : Pool J → ℕ → List J → Pool J × Event J
  check_paused p i [] = (move p i settled, nothing)
  check_paused p i (j ∷ rest) =
      if p.paused
      then (move p i settled, nothing)
      else (record (move p i (running j)) { tasks = rest }, started j)

  -- A waiting worker is woken.
  abbrev pub woken : Worker J → Worker J
  woken waiting = awake
  woken w = w

  unfoldable pub notify_all : Pool J → Pool J
  notify_all p = record p { workers = map woken p.workers }

  unfoldable pub push_job : Pool J → J → Pool J
  push_job p j = record p { tasks = p.tasks ++ (j ∷ []) }

  unfoldable pub set_stop : Pool J → Pool J
  set_stop p = record p { stop = true }

  unfoldable pub set_paused : Pool J → Bool → Pool J
  set_paused p b = record p { paused = b }

  unfoldable pub clear_queue : Pool J → Pool J
  clear_queue p = record p { tasks = [] }

  -- What the workers do by themselves. `wake` is a notification to one worker, or a wake-up
  -- without any, which `Condvar` allows.
  pub data WorkerStep : Pool J → Event J → Pool J → Type 0 where
    look :
        {p : Pool J} (i : ℕ)
        → get_elem? p.workers i ≡ some awake
        → holders p.workers ≡ 0
        → WorkerStep p nothing (check_stop p i)
    choose :
        {p : Pool J} (i : ℕ)
        → get_elem? p.workers i ≡ some checked
        → WorkerStep p (check_paused p i p.tasks).1 (check_paused p i p.tasks).0
    wait :
        {p : Pool J} (i : ℕ)
        → get_elem? p.workers i ≡ some settled
        → WorkerStep p nothing (move p i waiting)
    wake :
        {p : Pool J} (i : ℕ)
        → get_elem? p.workers i ≡ some waiting
        → WorkerStep p nothing (move p i awake)
    finish :
        {p : Pool J} (i : ℕ) (j : J)
        → get_elem? p.workers i ≡ some (running j)
        → WorkerStep p nothing (move p i awake)

  -- With what the callers of `enqueue`, `stop`, `pause`, `resume` and `clear_queue` do.
  pub data Step : Pool J → Event J → Pool J → Type 0 where
    worker : {p q : Pool J} {e : Event J} → WorkerStep p e q → Step p e q
    enqueue : {p : Pool J} (j : J) → holders p.workers ≡ 0 → Step p (enqueued j) (push_job p j)
    stop_set : {p : Pool J} → Step p nothing (set_stop p)
    pause_set : {p : Pool J} (b : Bool) → Step p nothing (set_paused p b)
    notified : {p : Pool J} → Step p nothing (notify_all p)
    clear : {p : Pool J} → holders p.workers ≡ 0 → Step p cleared (clear_queue p)

  pub data Run : Pool J → List (Event J) → Pool J → Type 0 where
    done : {p : Pool J} → Run p [] p
    step :
        {p q r : Pool J} {e : Event J} {es : List (Event J)}
        → Step p e q
        → Run q es r
        → Run p (e ∷ es) r
