-- ===== src/LockPool/Threads.antt =====
-- Threads that call `LockPool` in any order: each step is what one thread does while it holds
-- `m_fifo_access`. A waiting thread wakes once it is notified; no other wake is a step here.
use libmc.Prelude.{ℕ, ◌<◌, ◌≡◌, true, List, [], ◌∷◌, ◌++◌, some, get_elem?}
use libmc.LockPool.{
  LockPool, Begun, new_lock_pool, add_workers, begin_acquire, resume, release_worker,
}

-- The pool, and the workers that threads hold: a thread and a worker each.
pub record System : Type 0 where
  pub pool : LockPool
  pub held : List (ℕ × ℕ)

abbrev pub start : System
start = record { pool = new_lock_pool; held = [] }

-- The workers that are held.
abbrev pub workers_of : List (ℕ × ℕ) → List ℕ
workers_of [] = []
workers_of ((i, w) ∷ hs) = w ∷ workers_of hs

pub data Step (s : System) : System → Type 0 where
  grow : (n : ℕ) → 0 < n → Step s (record s { pool = add_workers n s.pool })
  wait :
      (i : ℕ) (p : LockPool)
      → begin_acquire i s.pool ≡ Begun.waits p
      → Step s (record s { pool = p })
  take :
      (i w : ℕ) (p : LockPool)
      → begin_acquire i s.pool ≡ Begun.has w p
      → Step s (record { pool = p; held = (i, w) ∷ s.held })
  wake :
      (k i w : ℕ) (p : LockPool)
      → get_elem? s.pool.fifo k ≡ some (record { thread = i; notified = true })
      → resume s.pool ≡ some (w, p)
      → Step s (record { pool = p; held = (i, w) ∷ s.held })
  give :
      (i w : ℕ) (xs ys : List (ℕ × ℕ))
      → s.held ≡ xs ++ (i, w) ∷ ys
      → Step s (record { pool = release_worker w s.pool; held = xs ++ ys })

pub data Reach : System → Type 0 where
  begin : Reach start
  later : {s t : System} → Reach s → Step s t → Reach t
