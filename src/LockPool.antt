-- ===== src/LockPool.antt =====
-- The locks of the client pool in include/LockPool.h: the queue of waiting threads that `OrderedLock`
-- keeps, and the workers that `LockPool` lends. Each operation holds `m_fifo_access` throughout, but
-- for the wait in `lock`, so that one is a `begin_acquire` and, for a thread that waits, a `resume`
-- later.
pub mod Threads
pub mod Invariant
pub mod Safety
pub mod Progress
use libmc.Prelude.{
  ℕ, zero, suc, ◌+◌, Bool, true, false, List, [], ◌∷◌, ◌++◌, Option, none, some, if◌then◌else◌,
}

-- A thread's condition variable in `m_fifo_locks`, and whether it has been notified.
pub record Waiter : Type 0 where
  pub thread : ℕ
  pub notified : Bool

-- The workers are numbered, `n_workers` is the size of `m_thread_workers`.
pub record LockPool : Type 0 where
  pub locked : Bool
  pub fifo : List Waiter
  pub available : List ℕ
  pub n_workers : ℕ

-- `LockPool()`.
abbrev pub new_lock_pool : LockPool
new_lock_pool = record { locked = true; fifo = []; available = []; n_workers = 0 }

-- `m_fifo_locks.front()->notify_all()`.
abbrev pub notify : Waiter → Waiter
notify w = record w { notified = true }

abbrev pub unlock_at : List Waiter → LockPool → LockPool
unlock_at [] p = record p { locked = false }
unlock_at (w ∷ ws) p = record p { fifo = notify w ∷ ws }

-- `unlock`.
unfoldable pub unlock : LockPool → LockPool
unlock p = unlock_at p.fifo p

-- The numbers of `n` workers from the first on.
unfoldable pub numbers : ℕ → ℕ → List ℕ
numbers first zero = []
numbers first (suc n) = first ∷ numbers (suc first) n

-- `addWorkers`.
unfoldable pub add_workers : ℕ → LockPool → LockPool
unfolding unlock numbers
add_workers n p =
    unlock
      (record p { available = p.available ++ numbers p.n_workers n; n_workers = p.n_workers + n })

-- The rest of `acquireWorker`, behind `lock`. There is no worker to return where the deque is empty,
-- of which `front` may not be asked.
abbrev pop_from : List ℕ → LockPool → Option (ℕ × LockPool)
pop_from [] p = none
pop_from (w ∷ []) p = some (w, record p { available = [] })
pop_from (w ∷ v ∷ ws) p = some (w, unlock (record p { available = v ∷ ws }))

unfoldable pub pop_worker : LockPool → Option (ℕ × LockPool)
unfolding unlock
pop_worker p = pop_from p.available p

-- What a call of `acquireWorker` comes to before it has to wait: it waits, it has a worker, or it
-- reads the front of an empty deque.
pub data Begun : Type 0 where
  waits : LockPool → Begun
  has : ℕ → LockPool → Begun
  fails : Begun

abbrev begun : Option (ℕ × LockPool) → Begun
begun none = fails
begun (some (w, p)) = has w p

abbrev begin_at : Bool → ℕ → LockPool → Begun
begin_at true i p =
    waits (record p { fifo = p.fifo ++ (record { thread = i; notified = false }) ∷ [] })
begin_at false i p = begun (pop_worker (record p { locked = true }))

unfoldable pub begin_acquire : ℕ → LockPool → Begun
unfolding pop_worker
begin_acquire i p = begin_at p.locked i p

-- `m_fifo_locks.pop()`, which drops the front, whichever thread was woken.
abbrev pub pop_fifo : List Waiter → List Waiter
pop_fifo [] = []
pop_fifo (w ∷ ws) = ws

-- The rest of a call that waited.
unfoldable pub resume : LockPool → Option (ℕ × LockPool)
unfolding pop_worker
resume p = pop_worker (record p { fifo = pop_fifo p.fifo })

-- `releaseWorker`.
unfoldable pub release_worker : ℕ → LockPool → LockPool
unfolding unlock
release_worker w p = unlock (record p { available = w ∷ p.available })
