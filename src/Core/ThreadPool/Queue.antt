-- ===== src/Core/ThreadPool/Queue.antt =====
-- crates/core/src/threading.rs: in which order the jobs are taken.
use riftnet_rust.Base.{ℕ, ◌≡◌, refl, sym, List, [], ◌∷◌, ◌++◌, arith, inl, inr, Bool-cases}
use riftnet_rust.Core.ThreadPool.{
  Pool, Event, enqueued, started, cleared, nothing, Step, WorkerStep, look, choose, wait, wake,
  finish, worker, enqueue, stop_set, pause_set, notified, clear, Run, done, step, check_stop,
  check_paused, notify_all, push_job, set_stop, set_paused, clear_queue,
}
use mathlib.Core.List.{append_assoc, append-nil}
use mathlib.Core.Path.{subst}

-- One list within another, in order.
pub data Within {J : Type 0} : List J → List J → Type 0 where
  end_of : Within [] []
  keep : (j : J) {xs ys : List J} → Within xs ys → Within (j ∷ xs) (j ∷ ys)
  skip : (j : J) {xs ys : List J} → Within xs ys → Within xs (j ∷ ys)

module _ {J : Type 0} where
  -- The jobs that a run takes, and those that it puts into the queue.
  abbrev pub taken : List (Event J) → List J
  taken [] = []
  taken (started j ∷ es) = j ∷ taken es
  taken (enqueued j ∷ es) = taken es
  taken (cleared ∷ es) = taken es
  taken (nothing ∷ es) = taken es

  abbrev pub given : List (Event J) → List J
  given [] = []
  given (started j ∷ es) = given es
  given (enqueued j ∷ es) = j ∷ given es
  given (cleared ∷ es) = given es
  given (nothing ∷ es) = given es

  -- What an event makes of the queue.
  pub data Queued : List J → Event J → List J → Type 0 where
    added : (js : List J) (j : J) → Queued js (enqueued j) (js ++ (j ∷ []))
    removed : (j : J) (js : List J) → Queued (j ∷ js) (started j) js
    dropped : (js : List J) → Queued js cleared []
    same : (js : List J) → Queued js nothing js

  check_stop-tasks : (p : Pool J) (i : ℕ) → (check_stop p i).tasks ≡ p.tasks
  unfolding check_stop
  check_stop-tasks p i = ground arith

  check_paused-Queued :
      (p : Pool J) (i : ℕ) (js : List J)
      → p.tasks ≡ js
      → Queued js (check_paused p i js).1 (check_paused p i js).0.tasks
  unfolding check_paused
  check_paused-Queued p i [] e = rw e (same [])
  check_paused-Queued p i (j ∷ rest) e = elim (Bool-cases p.paused) [
    | inl d ↦ rw (d, e) (same (j ∷ rest))
    | inr d ↦ rw d (removed j rest)
  ]

  WorkerStep-Queued : {p q : Pool J} {e : Event J} → WorkerStep p e q → Queued p.tasks e q.tasks
  WorkerStep-Queued {p} (look i at free) =
      subst (Queued p.tasks nothing) (sym (check_stop-tasks p i)) (same p.tasks)
  WorkerStep-Queued {p} (choose i at) = check_paused-Queued p i p.tasks refl
  WorkerStep-Queued {p} (wait i at) = same p.tasks
  WorkerStep-Queued {p} (wake i at) = same p.tasks
  WorkerStep-Queued {p} (finish i j at) = same p.tasks

  pub Step-Queued : {p q : Pool J} {e : Event J} → Step p e q → Queued p.tasks e q.tasks
  unfolding push_job set_stop set_paused notify_all clear_queue
  Step-Queued (worker s) = WorkerStep-Queued s
  Step-Queued {p} (enqueue j free) = added p.tasks j
  Step-Queued {p} stop_set = same p.tasks
  Step-Queued {p} (pause_set b) = same p.tasks
  Step-Queued {p} notified = same p.tasks
  Step-Queued {p} (clear free) = dropped p.tasks

  Within-refl : (xs : List J) → Within xs xs
  Within-refl [] = end_of
  Within-refl (x ∷ xs) = keep x (Within-refl xs)

  Within-append : (front xs ys : List J) → Within xs ys → Within xs (front ++ ys)
  Within-append [] xs ys w = w
  Within-append (j ∷ front) xs ys w = skip j (Within-append front xs ys w)

  -- One event before the rest of a run.
  Queued-Within :
      {before : List J} {e : Event J} {after : List J} (es : List (Event J)) (rest : List J)
      → Queued before e after
      → Within (taken es ++ rest) (after ++ given es)
      → Within (taken (e ∷ es) ++ rest) (before ++ given (e ∷ es))
  Queued-Within es rest (added js j) w =
      subst (Within (taken es ++ rest)) (append_assoc js (j ∷ []) (given es)) w
  Queued-Within es rest (removed j js) w = keep j w
  Queued-Within es rest (dropped js) w = Within-append js _ _ w
  Queued-Within es rest (same js) w = w

  -- Whatever the threads do, in whatever order: the jobs that a run takes, followed by those still
  -- in the queue at its end, are among the jobs of the queue at its start, followed by those put in
  -- during the run, in the same order and each at most once.
  pub taken_in_order :
      {p q : Pool J} {es : List (Event J)}
      → Run p es q
      → Within (taken es ++ q.tasks) (p.tasks ++ given es)
  taken_in_order {p} done = subst (Within p.tasks) (sym (append-nil p.tasks)) (Within-refl p.tasks)
  taken_in_order {es = e ∷ es} (step s run) =
      Queued-Within es _ (Step-Queued s) (taken_in_order run)
