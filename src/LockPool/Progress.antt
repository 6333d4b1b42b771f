-- ===== src/LockPool/Progress.antt =====
-- That calls return, in the order in which they came, and that no thread waits while a worker that
-- it could have is to be had.
use mathlib.Core.Option.{none-ne-some, some-injective}
use libmc.Prelude.{
  ℕ, zero, suc, ◌<◌, ◌≡◌, ◌⊎◌, inl, inr, refl, ap, true, false, List, [], ◌∷◌, ◌++◌, Option, some,
  none, length, get_elem?, arith,
}
use libmc.LockPool.{LockPool, Waiter, Begun, begin_acquire, resume, pop_worker}
use libmc.LockPool.Threads.{System, Step, Reach}
use libmc.LockPool.Invariant.{
  threads, first-called, Mode, vacant, drained, called, Begins, begin_acquire_lem, resume_lem,
}
use libmc.LockPool.Safety.{reach-Inv}

-- A call that returns: it takes the first worker that is to be had.
pub record Returns (p : LockPool) (result : Option (ℕ × LockPool)) : Type 0 where
  pub worker : ℕ
  pub after : LockPool
  pub returns : result ≡ some (worker, after)
  pub first : p.available ≡ worker ∷ after.available

begin_cases :
    (i : ℕ) {p : LockPool}
    → Begins i p
    → ((q : LockPool) × (begin_acquire i p ≡ Begun.waits q)
        × (q.fifo ≡ p.fifo ++ (record { thread = i; notified = false }) ∷ []))
      ⊎ ((w : ℕ) × (q : LockPool) × (begin_acquire i p ≡ Begun.has w q)
          × (p.available ≡ w ∷ q.available))
begin_cases i (Begins.queued q e h) = inl (q, e, h.behind)
begin_cases i (Begins.popped w q e h) = inr (w, q, e, h.first)

-- In every state that threads reach, a call of `acquireWorker` either queues up behind all threads
-- that wait, or takes the first worker that is to be had: it never asks an empty deque for its front.
pub begin_acquire-returns :
    (s : System) (i : ℕ)
    → Reach s
    → ((q : LockPool) × (begin_acquire i s.pool ≡ Begun.waits q)
        × (q.fifo ≡ s.pool.fifo ++ (record { thread = i; notified = false }) ∷ []))
      ⊎ ((w : ℕ) × (q : LockPool) × (begin_acquire i s.pool ≡ Begun.has w q)
          × (s.pool.available ≡ w ∷ q.available))
begin_acquire-returns s i r = begin_cases i (begin_acquire_lem i (reach-Inv r).mode)

-- In every state that threads reach, a waiting thread that has been notified is the one that has
-- waited longest, and its call returns the first worker that is to be had.
pub resume-Returns :
    (s : System) (k i : ℕ)
    → Reach s
    → get_elem? s.pool.fifo k ≡ some (record { thread = i; notified = true })
    → (k ≡ 0) × Returns s.pool (resume s.pool)
resume-Returns s k i r e =
    let h = resume_lem k i (reach-Inv r).mode e in
    (
      h.is_first,
      record { worker = h.worker; after = h.after; returns = h.returns; first = h.pops.first },
    )

resume-none :
    {p : LockPool}
    → Mode p
    → (k : ℕ) (w : Waiter) (ts : List Waiter) → p.fifo ≡ w ∷ ts
    → w.notified ≡ false
    → resume p ≡ none
unfolding resume pop_worker
resume-none (vacant v vs n) k w ts e f = cc
resume-none (drained us n h) k w ts e f = refl
resume-none (called i v us vs n h) k w ts e f = cc

-- In every state that threads reach in which the thread that has waited longest has not been
-- notified, a wait that ends all the same, as that of a condition variable may, has `acquireWorker`
-- ask an empty deque for its front.
pub resume-unnotified :
    (s : System) (w : Waiter) (ts : List Waiter)
    → Reach s
    → s.pool.fifo ≡ w ∷ ts
    → w.notified ≡ false
    → resume s.pool ≡ none
resume-unnotified s w ts r e f = resume-none (reach-Inv r).mode 0 w ts e f

-- Steps in which threads that wait, and have been notified, wake, one after the other.
pub data Wakes : System → System → Type 0 where
  here : {s : System} → Wakes s s
  then :
      {s t : System} (i w : ℕ) (p : LockPool)
      → get_elem? s.pool.fifo 0 ≡ some (record { thread = i; notified = true })
      → resume s.pool ≡ some (w, p)
      → Wakes (record { pool = p; held = (i, w) ∷ s.held }) t
      → Wakes s t

-- What it comes to that the first thread that waits wakes.
record Woken (i : ℕ) (is : List ℕ) (s : System) : Type 0 where
  worker : ℕ
  after : LockPool
  notified : get_elem? s.pool.fifo 0 ≡ some (record { thread = i; notified = true })
  returns : resume s.pool ≡ some (worker, after)
  reached : Reach (record { pool = after; held = (i, worker) ∷ s.held })
  rest : threads after.fifo ≡ is
  fewer : length s.pool.available ≡ suc (length after.available)

wakes-first :
    (s : System) (i : ℕ) (is : List ℕ) (w : ℕ) (ws : List ℕ)
    → Reach s
    → threads s.pool.fifo ≡ i ∷ is
    → s.pool.available ≡ w ∷ ws
    → Woken i is s
wakes-first s i is w ws r e f =
    let m = (reach-Inv r).mode in
    let c = first-called m e f in
    let h = resume_lem 0 i m c in
    record {
      worker = h.worker;
      after = h.after;
      notified = c;
      returns = h.returns;
      reached = Reach.later r (Step.wake 0 i h.worker h.after c h.returns);
      rest = cc (e, h.order);
      fewer = ap length h.pops.first;
    }

-- In every state that threads reach, if there are more workers to be had than threads in front of a
-- thread that waits, it needs nothing but that the threads which have been notified wake: then it
-- has a worker.
pub waiter-served :
    (k : ℕ) (s : System) (i : ℕ)
    → Reach s
    → get_elem? (threads s.pool.fifo) k ≡ some i
    → k < length s.pool.available
    → (t : System) × (v : ℕ) × (hs : List (ℕ × ℕ)) × Wakes s t × (t.held ≡ (i, v) ∷ hs)
waiter-served k s i r e l = served k (threads s.pool.fifo) s.pool.available s i r refl refl e l
  where
    served :
        (k : ℕ) (is ws : List ℕ) (s : System) (i : ℕ)
        → Reach s
        → threads s.pool.fifo ≡ is
        → s.pool.available ≡ ws
        → get_elem? is k ≡ some i
        → k < length ws
        → (t : System) × (v : ℕ) × (hs : List (ℕ × ℕ)) × Wakes s t × (t.held ≡ (i, v) ∷ hs)
    served k [] ws s i r a b e l = absurd (none-ne-some _ e)
    served k (j ∷ is) [] s i r a b e l = absurd (omega arith)
    served zero (j ∷ is) (w ∷ ws) s i r a b e l =
        let h = wakes-first s j is w ws r a b in
        let e' : j ≡ i = some-injective _ _ e in
        (
          record { pool = h.after; held = (j, h.worker) ∷ s.held },
          h.worker,
          s.held,
          then j h.worker h.after h.notified h.returns here,
          ap (λ j. (j, h.worker) ∷ s.held) e',
        )
    served (suc k) (j ∷ is) (w ∷ ws) s i r a b e l =
        let h = wakes-first s j is w ws r a b in
        let t : System = record { pool = h.after; held = (j, h.worker) ∷ s.held } in
        let n : length h.after.available ≡ length ws = omega (arith, h.fewer, ap length b) in
        let (u, v, hs, steps, f) =
          served k is h.after.available t i h.reached h.rest refl e (omega (arith, n)) in
        (u, v, hs, then j h.worker h.after h.notified h.returns steps, f)
