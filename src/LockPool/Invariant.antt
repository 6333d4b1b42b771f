-- ===== src/LockPool/Invariant.antt =====
-- The states of `LockPool` between two operations, and that each operation leads from one to another.
use mathlib.Core.Option.{none-ne-some}
use libmc.Prelude.{
  ℕ, zero, suc, ◌+◌, ◌<◌, ◌≡◌, refl, ap, ap₂, map, sym, true, false, List, [], ◌∷◌, ◌++◌, some, All,
  All-append, get_elem?, arith,
}
use libmc.LockPool.{
  LockPool, Waiter, Begun, add_workers, begin_acquire, resume, release_worker, unlock, numbers,
  pop_worker,
}

-- No thread of the list has been notified.
abbrev pub AllAsleep : List Waiter → Type 0
AllAsleep = All (λ w. w.notified ≡ false)

abbrev pub threads : List Waiter → List ℕ
threads ts = map (λ w. w.thread) ts

pub data Mode : LockPool → Type 0 where
  -- A worker is to be had, and no thread waits.
  vacant :
      (w : ℕ) (ws : List ℕ) (n : ℕ)
      → Mode (record { locked = false; fifo = []; available = w ∷ ws; n_workers = n })
  -- No worker is to be had.
  drained :
      (ts : List Waiter) (n : ℕ)
      → AllAsleep ts
      → Mode (record { locked = true; fifo = ts; available = []; n_workers = n })
  -- A worker is to be had, and the first thread that waits has been notified.
  called :
      (i w : ℕ) (ts : List Waiter) (ws : List ℕ) (n : ℕ)
      → AllAsleep ts
      → Mode (record {
        locked = true;
        fifo = (record { thread = i; notified = true }) ∷ ts;
        available = w ∷ ws;
        n_workers = n;
      })

-- With a worker to be had, `unlock` lets in the next thread, whether it waits or not.
unlock-Mode :
    (ts : List Waiter) (w : ℕ) (ws : List ℕ) (n : ℕ)
    → AllAsleep ts
    → Mode (unlock (record { locked = true; fifo = ts; available = w ∷ ws; n_workers = n }))
unfolding unlock
unlock-Mode [] w ws n h = vacant w ws n
unlock-Mode (t ∷ ts) w ws n h = called t.thread w ts ws n h.1

pub release_worker-Mode : {p : LockPool} (w : ℕ) → Mode p → Mode (release_worker w p)
unfolding release_worker unlock
release_worker-Mode w (vacant v vs n) = vacant w (v ∷ vs) n
release_worker-Mode w (drained ts n h) = unlock-Mode ts w [] n h
release_worker-Mode w (called i v ts vs n h) = called i w ts (v ∷ vs) n h

pub add_workers-Mode : {p : LockPool} (n : ℕ) → 0 < n → Mode p → Mode (add_workers n p)
unfolding add_workers numbers unlock
add_workers-Mode zero h m = absurd (omega arith)
add_workers-Mode (suc n) h (vacant v vs k) = vacant v (vs ++ numbers k (suc n)) (k + suc n)
add_workers-Mode (suc n) h (drained ts k a) = unlock-Mode ts k (numbers (suc k) n) (k + suc n) a
add_workers-Mode (suc n) h (called i v ts vs k a) =
    called i v ts (vs ++ numbers k (suc n)) (k + suc n) a

-- What a call that gets a worker does: the first to be had.
pub record Pops (p : LockPool) (w : ℕ) (q : LockPool) : Type 0 where
  pub mode : Mode q
  pub first : p.available ≡ w ∷ q.available
  pub same : q.n_workers ≡ p.n_workers

pop_worker_lem :
    (ts : List Waiter) (w : ℕ) (ws : List ℕ) (n : ℕ)
    → AllAsleep ts
    → let p : LockPool = record { locked = true; fifo = ts; available = w ∷ ws; n_workers = n } in
      (q : LockPool) × (pop_worker p ≡ some (w, q)) × Pops p w q × (threads q.fifo ≡ threads ts)
unfolding pop_worker unlock
pop_worker_lem ts w [] n h =
    (_, refl, record { mode = drained ts n h; first = refl; same = refl }, refl)
pop_worker_lem [] w (v ∷ vs) n h =
    (_, refl, record { mode = vacant v vs n; first = refl; same = refl }, refl)
pop_worker_lem (t ∷ ts) w (v ∷ vs) n h =
    (_, refl, record { mode = called t.thread v ts vs n h.1; first = refl; same = refl }, refl)

-- What a call that has to wait does: it queues up behind the others.
pub record Queues (i : ℕ) (p q : LockPool) : Type 0 where
  pub mode : Mode q
  pub behind : q.fifo ≡ p.fifo ++ (record { thread = i; notified = false }) ∷ []
  pub same_available : q.available ≡ p.available
  pub same : q.n_workers ≡ p.n_workers

AllAsleep-last :
    (i : ℕ) (ts : List Waiter)
    → AllAsleep ts
    → AllAsleep (ts ++ (record { thread = i; notified = false }) ∷ [])
AllAsleep-last i ts h = All-append _ ts _ h (refl, tt)

pub data Begins (i : ℕ) (p : LockPool) : Type 0 where
  queued : (q : LockPool) → begin_acquire i p ≡ Begun.waits q → Queues i p q → Begins i p
  popped : (w : ℕ) (q : LockPool) → begin_acquire i p ≡ Begun.has w q → Pops p w q → Begins i p

pub begin_acquire_lem : (i : ℕ) {p : LockPool} → Mode p → Begins i p
unfolding begin_acquire
begin_acquire_lem i (vacant w ws n) =
    let (q, e, h, _) = pop_worker_lem [] w ws n tt in
    Begins.popped w q (rw e refl) (record { mode = h.mode; first = h.first; same = h.same })
begin_acquire_lem i (drained ts n h) = Begins.queued _ refl (record {
  mode = drained _ n (AllAsleep-last i ts h);
  behind = refl;
  same_available = refl;
  same = refl;
})
begin_acquire_lem i (called j w ts ws n h) = Begins.queued _ refl (record {
  mode = called j w _ ws n (AllAsleep-last i ts h);
  behind = refl;
  same_available = refl;
  same = refl;
})

asleep-at :
    (ts : List Waiter) (k i : ℕ)
    → AllAsleep ts
    → get_elem? ts k ≡ some (record { thread = i; notified = true })
    → ⊥
asleep-at [] k i h e = cc
asleep-at (t ∷ ts) zero i h e = cc
asleep-at (t ∷ ts) (suc k) i h e = asleep-at ts k i h.1 e

-- A thread that was notified is the first that waits, and gets a worker.
pub record Resumes (k i : ℕ) (p : LockPool) : Type 0 where
  pub worker : ℕ
  pub after : LockPool
  pub returns : resume p ≡ some (worker, after)
  pub pops : Pops p worker after
  pub is_first : k ≡ 0
  pub order : threads p.fifo ≡ i ∷ threads after.fifo

pub resume_lem :
    (k i : ℕ) {p : LockPool}
    → Mode p
    → get_elem? p.fifo k ≡ some (record { thread = i; notified = true })
    → Resumes k i p
unfolding resume
resume_lem k i (vacant w ws n) e = absurd (none-ne-some _ e)
resume_lem k i (drained ts n h) e = absurd (asleep-at ts k i h e)
resume_lem (suc k) i (called j w ts ws n h) e = absurd (asleep-at ts k i h e)
resume_lem zero i (called j w ts ws n h) e =
    let (q, e', p, o) = pop_worker_lem ts w ws n h in
    record {
      worker = w;
      after = q;
      returns = e';
      pops = record { mode = p.mode; first = p.first; same = p.same };
      is_first = refl;
      order = ap₂ (λ j js. j ∷ js) (cc) (sym o);
    }

-- With a worker to be had, the first of the threads that wait has been notified.
pub first-called :
    {p : LockPool} {i : ℕ} {is : List ℕ} {w : ℕ} {ws : List ℕ}
    → Mode p
    → threads p.fifo ≡ i ∷ is
    → p.available ≡ w ∷ ws
    → get_elem? p.fifo 0 ≡ some (record { thread = i; notified = true })
first-called (vacant v vs n) e f = cc
first-called (drained ts n h) e f = cc
first-called {i} (called j v ts vs n h) e f =
    let e' : j ≡ i = cc in ap (λ j. some (record { thread = j; notified = true })) e'
