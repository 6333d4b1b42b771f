-- ===== src/Tests/Locks.antt =====
-- Threads that share two workers, and the theorems on the lock pool at them.
use mathlib.Core.List.{Perm, Nodup}
use libmc.Prelude.{ℕ, ◌≡◌, ◌⊎◌, refl, true, false, List, [], ◌∷◌, ◌++◌, none, arith}
use libmc.LockPool.{
  LockPool, Begun, numbers, add_workers, begin_acquire, resume, release_worker, unlock, pop_worker,
}
use libmc.LockPool.Threads.{System, Step, Reach}
use libmc.LockPool.Safety.{owned, Reach-Nodup}
use libmc.LockPool.Progress.{
  Returns, Wakes, begin_acquire-returns, resume-Returns, resume-unnotified, waiter-served,
}

-- The threads 1 and 2 have the workers 0 and 1, and the threads 3 and 4 wait.
abbrev waiting : System
waiting = record {
  pool = record {
    locked = true;
    fifo = record { thread = 3; notified = false } ∷ record { thread = 4; notified = false } ∷ [];
    available = [];
    n_workers = 2;
  };
  held = (2, 1) ∷ (1, 0) ∷ [];
}

waiting-Reach : Reach waiting
unfolding add_workers numbers unlock begin_acquire pop_worker
waiting-Reach =
    Reach.later
      (Reach.later
        (Reach.later
          (Reach.later (Reach.later Reach.begin (Step.grow 2 (omega arith))) (Step.take 1 0 _ refl))
          (Step.take 2 1 _ refl))
        (Step.wait 3 _ refl))
      (Step.wait 4 _ refl)

-- The threads 1 and 2 have given their workers back.
abbrev given : System
given = record {
  pool = record {
    locked = true;
    fifo = record { thread = 3; notified = true } ∷ record { thread = 4; notified = false } ∷ [];
    available = 1 ∷ 0 ∷ [];
    n_workers = 2;
  };
  held = [];
}

given-Reach : Reach given
unfolding release_worker unlock
given-Reach =
    Reach.later (Reach.later waiting-Reach (Step.give 1 0 ((2, 1) ∷ []) [] refl))
      (Step.give 2 1 [] [] refl)

Reach-Nodup_example : Perm (owned waiting) (numbers 0 2) × Nodup (owned waiting)
Reach-Nodup_example = Reach-Nodup waiting waiting-Reach

begin_acquire-returns_example :
    ((q : LockPool) × (begin_acquire 5 given.pool ≡ Begun.waits q)
      × (q.fifo ≡ given.pool.fifo ++ (record { thread = 5; notified = false }) ∷ []))
    ⊎ ((w : ℕ) × (q : LockPool) × (begin_acquire 5 given.pool ≡ Begun.has w q)
        × (given.pool.available ≡ w ∷ q.available))
begin_acquire-returns_example = begin_acquire-returns given 5 given-Reach

resume-Returns_example : (◌≡◌ {A = ℕ} 0 0) × Returns given.pool (resume given.pool)
resume-Returns_example = resume-Returns given 0 3 given-Reach refl

resume-unnotified_example : resume waiting.pool ≡ none
resume-unnotified_example =
    resume-unnotified waiting (record { thread = 3; notified = false })
      (record { thread = 4; notified = false } ∷ []) waiting-Reach refl refl

waiter-served_example :
    (t : System) × (v : ℕ) × (hs : List (ℕ × ℕ)) × Wakes given t × (t.held ≡ (4, v) ∷ hs)
waiter-served_example = waiter-served 1 given 4 given-Reach refl (omega arith)
