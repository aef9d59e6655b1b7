-- ===== src/Tests/Transports.antt =====
-- The interpolator and the thread pool on concrete values.
use riftnet_rust.Base.{
  ◌&&◌, not, ℕ, ◌+◌, ◌-◌, ◌*◌, ◌/◌, ◌<◌, ◌≤◌, ◌≡◌, ◌⊎◌, refl, true, false, List, [], ◌∷◌, ◌++◌,
  none, some, arith,
}
use riftnet_rust.Core.ThreadPool.{
  Worker, awake, waiting, Pool, enqueued, started, nothing, new, holders, look, choose, wait,
  finish, worker, enqueue, Run, done, step, check_stop, check_paused, push_job,
}
use riftnet_rust.Core.ThreadPool.Queue.{Within, taken_in_order}
use riftnet_rust.Core.ThreadPool.Exclusion.{any_left, Run-exclusive}
use riftnet_rust.Core.ThreadPool.Stopping.{
  returned, returned, WorkerRun, idle, act, paused_never_returns,
}
use riftnet_rust.Transport.Interpolator.{Snapshot, Interpolator, Interpolatable, interpolate}
use riftnet_rust.Transport.Interpolator.Search.{IsValid, IsOutside, interpolate_lem}

-- Whole numbers, at a factor in thousandths.
instance abbrev rising : Interpolatable ℕ ℕ
rising = record { lerp = λ a b factor. a + (b - a) * factor / 1000 }

abbrev snap : ℕ → Snapshot ℕ
snap t = record { tick = t; state = t * 10 }

abbrev full : Interpolator ℕ
full = record { buffer = snap 3 ∷ snap 5 ∷ snap 9 ∷ []; buffer_size = 3 }

full-IsValid : IsValid full
full-IsValid = record { sorted = omega arith; bounded = omega arith }

interpolate_example :
    (IsOutside 6 full.buffer × (interpolate {F = ℕ} full 6 500 ≡ none))
    ⊎ ((older : List (Snapshot ℕ)) × (newer : List (Snapshot ℕ)) × (x : Snapshot ℕ) × (y : Snapshot
          ℕ)
        × (full.buffer ≡ older ++ (x ∷ y ∷ newer))
        × (x.tick ≤ 6)
        × (6 < y.tick)
        × (interpolate {F = ℕ} full 6 500 ≡ some (rising.lerp x.state y.state 500)))
interpolate_example = interpolate_lem full 6 500 full-IsValid

-- A pool of one worker, in which job 8 is put in, taken and done.
abbrev one : List (Worker ℕ) → List ℕ → Pool ℕ
one ws js = record { tasks = js; stop = false; paused = false; workers = ws }

eight :
    Run
      (one (awake ∷ []) [])
      (enqueued 8 ∷ nothing ∷ started 8 ∷ nothing ∷ [])
      (one (awake ∷ []) [])
unfolding push_job check_stop check_paused
eight = step (enqueue 8 refl) (
    step (worker (look 0 refl refl))
      (step (worker (choose 0 refl)) (step (worker (finish 0 8 refl)) done)))

eight_new : Run (new 1) (enqueued 8 ∷ nothing ∷ started 8 ∷ nothing ∷ []) (one (awake ∷ []) [])
unfolding new
eight_new = eight

taken_in_order_example : Within {J = ℕ} (8 ∷ []) (8 ∷ [])
taken_in_order_example = taken_in_order eight

Run-exclusive_example :
    (holders (one (awake ∷ []) []).workers ≤ 1)
    × ((any_left (one (awake ∷ []) []).workers && not false) ≡ false)
Run-exclusive_example = Run-exclusive 1 eight_new

-- A paused pool that is stopped, with a job in its queue.
abbrev paused_pool : List (Worker ℕ) → Pool ℕ
paused_pool ws = record { tasks = 8 ∷ []; stop = true; paused = true; workers = ws }

look_and_wait : WorkerRun (paused_pool (awake ∷ [])) (paused_pool (waiting ∷ []))
unfolding check_stop check_paused
look_and_wait = act (look 0 refl refl) (act (choose 0 refl) (act (wait 0 refl) idle))

paused_never_returns_example :
    ((paused_pool (waiting ∷ [])).tasks ≡ 8 ∷ [])
    × (returned (paused_pool (waiting ∷ [])).workers ≡ returned (paused_pool (awake ∷ [])).workers)
paused_never_returns_example = paused_never_returns look_and_wait refl refl
