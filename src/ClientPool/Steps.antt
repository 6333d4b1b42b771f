-- ===== src/ClientPool/Steps.antt =====
-- Threads that share a ClientPool: each takes clients and gives them back, in any order, while others
-- grow the pool, configure it and change its servers. A step is one operation on the pool.
use libmc.Prelude.{ℕ, ◌≡◌, Bool, true, List, [], ◌∷◌, ◌++◌, some, get_elem?}
use libmc.Pool.Setup.{Address, Updated}
use libmc.LockPool.{LockPool, Begun, resume}
use libmc.LockPool.Threads
use libmc.LockPool.Threads.{workers_of}
use libmc.ClientPool
use libmc.ClientPool.{
  ClientPool, IndexedClient, Setting, new_client_pool, auto_grow, acquire, client_of, release,
  update_servers,
}
use libmc.Client.{ConfigOption}
use libmc.ClientPool.Options.{Allowed}

-- The pool, and the clients that threads hold, each by the number of its worker.
pub record Sharing (W : Type 0) : Type 0 where
  pub pool : ClientPool W
  pub held : List (ℕ × ℕ)

-- The threads as those of the LockPool.
abbrev pub lock_view : {W : Type 0} → Sharing W → Threads.System
lock_view s = record { pool = s.pool.lock_pool; held = s.held }

pub data Step {W : Type 0} (setting : Setting W) (s : Sharing W) : Sharing W → Type 0 where
  grow :
      (rv : ℕ) (p : ClientPool W)
      → auto_grow setting s.pool ≡ some (rv, p)
      → Step setting s (record s { pool = p })
  configure :
      (opt : ConfigOption) (val : ℕ) (p : ClientPool W)
      → Allowed opt val
      → ClientPool.config setting opt val s.pool ≡ some p
      → Step setting s (record s { pool = p })
  update :
      (addresses : List Address) (u : Updated) (p : ClientPool W)
      → update_servers setting addresses s.pool ≡ some (u, p)
      → Step setting s (record s { pool = p })
  init_again :
      (addresses : List Address) (rv : ℕ) (p : ClientPool W)
      → ClientPool.init setting addresses s.pool ≡ some (rv, p)
      → Step setting s (record s { pool = p })
  wait :
      (i : ℕ) (grows : Bool) (l : LockPool)
      → acquire i s.pool ≡ (grows, Begun.waits l)
      → Step setting s (record s { pool = record (s.pool) { lock_pool = l } })
  take :
      (i w : ℕ) (grows : Bool) (l : LockPool)
      → acquire i s.pool ≡ (grows, Begun.has w l)
      → Step setting s (record { pool = record (s.pool) { lock_pool = l }; held = (i, w) ∷ s.held })
  wake :
      (k i w : ℕ) (l : LockPool)
      → get_elem? s.pool.lock_pool.fifo k ≡ some (record { thread = i; notified = true })
      → resume s.pool.lock_pool ≡ some (w, l)
      → Step setting s (record { pool = record (s.pool) { lock_pool = l }; held = (i, w) ∷ s.held })
  give :
      (i w : ℕ) (xs ys : List (ℕ × ℕ)) (c : IndexedClient W)
      → s.held ≡ xs ++ (i, w) ∷ ys
      → client_of w s.pool ≡ some c
      → Step setting s (record { pool = release c s.pool; held = xs ++ ys })

-- A new pool, with the options that `config` has set.
pub data Prepared {W : Type 0} (setting : Setting W) : ClientPool W → Type 0 where
  fresh : Prepared setting new_client_pool
  configured :
      {p : ClientPool W}
      → Prepared setting p
      → (opt : ConfigOption) (val : ℕ) (q : ClientPool W) → Allowed opt val
      → ClientPool.config setting opt val p ≡ some q
      → Prepared setting q

-- A pool that `init` has then set up, and what threads make of it.
pub data Reach {W : Type 0} (setting : Setting W) : Sharing W → Type 0 where
  begin :
      {p : ClientPool W}
      → Prepared setting p
      → (addresses : List Address) (rv : ℕ) (q : ClientPool W)
      → ClientPool.init setting addresses p ≡ some (rv, q)
      → Reach setting (record { pool = q; held = [] })
  later : {s t : Sharing W} → Reach setting s → Step setting s t → Reach setting t
