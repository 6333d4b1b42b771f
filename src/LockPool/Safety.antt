-- ===== src/LockPool/Safety.antt =====
-- What holds however the threads are interleaved.
use mathlib.Core.Logic.Or
use mathlib.Core.HLevel.{⊥_prop}
use mathlib.Core.List.{
  not-mem-nil, eq-or-mem_of_mem-cons, Nodup, Nodup-cons, Nodup-nil, Mem, Perm, perm_middle,
  perm_append_comm,
}
use mathlib.Core.Option.{some-injective}
use mathlib.Core.List.Perm
use libmc.Prelude.{
  ℕ, zero, suc, ◌+◌, ◌<◌, ◌≡◌, refl, ap, sym, ◌∙◌, subst, subst₂, List, [], ◌∷◌, ◌++◌, some,
  append_assoc, arith,
}
use libmc.LockPool.{
  LockPool, Waiter, Begun, add_workers, begin_acquire, resume, release_worker, unlock, numbers,
  unlock_at,
}
use libmc.LockPool.Threads.{System, workers_of, Step, Reach}
use libmc.LockPool.Invariant.{
  Mode, drained, Pops, Queues, Begins, Resumes, begin_acquire_lem, resume_lem, release_worker-Mode,
  add_workers-Mode,
}

-- The workers that are to be had, and those that are held, are all the workers.
abbrev pub owned : System → List ℕ
owned s = s.pool.available ++ workers_of s.held

pub record Inv (s : System) : Type 0 where
  pub mode : Mode s.pool
  pub all : Perm (owned s) (numbers 0 s.pool.n_workers)

workers_of-middle :
    (i w : ℕ) (xs ys : List (ℕ × ℕ))
    → Perm (workers_of (xs ++ (i, w) ∷ ys)) (w ∷ workers_of (xs ++ ys))
workers_of-middle i w [] ys = Perm.refl _
workers_of-middle i w ((j, v) ∷ xs) ys =
    Perm.trans (Perm.cons v (workers_of-middle i w xs ys)) (Perm.swap w v _)

numbers-append : (a m n : ℕ) → numbers a (m + n) ≡ numbers a m ++ numbers (a + m) n
unfolding numbers
numbers-append a zero n =
    let e : 0 + n ≡ n = omega arith in let f : a + 0 ≡ a = omega arith in rw (e, f) refl
numbers-append a (suc m) n =
    let e : suc m + n ≡ suc (m + n) = omega arith in
    let f : a + suc m ≡ suc a + m = omega arith in
    rw (e, f) (ap (λ l. a ∷ l) (numbers-append (suc a) m n))

numbers-after : (m n : ℕ) → numbers 0 (m + n) ≡ numbers 0 m ++ numbers m n
numbers-after m n =
    let e : 0 + m ≡ m = omega arith in numbers-append 0 m n ∙ ap (λ k. numbers 0 m ++ numbers k n) e

-- What unlocking leaves as it is.
unlock_at-same :
    (ts : List Waiter) (p : LockPool)
    → ((unlock_at ts p).available ≡ p.available) × ((unlock_at ts p).n_workers ≡ p.n_workers)
unlock_at-same [] p = (refl, refl)
unlock_at-same (t ∷ ts) p = (refl, refl)

pub release_worker-same :
    (w : ℕ) (p : LockPool)
    → ((release_worker w p).available ≡ w ∷ p.available)
      × ((release_worker w p).n_workers ≡ p.n_workers)
unfolding release_worker unlock
release_worker-same w p = unlock_at-same p.fifo _

add_workers-same :
    (n : ℕ) (p : LockPool)
    → ((add_workers n p).available ≡ p.available ++ numbers p.n_workers n)
      × ((add_workers n p).n_workers ≡ p.n_workers + n)
unfolding add_workers unlock
add_workers-same n p = unlock_at-same p.fifo _

-- A worker that a thread gets is one that was to be had.
lend-Inv :
    (s : System) (i w : ℕ) (p : LockPool)
    → Inv s
    → Pops s.pool w p
    → Inv (record { pool = p; held = (i, w) ∷ s.held })
lend-Inv s i w p inv h = record {
  mode = h.mode;
  all = rw h.same (
      Perm.trans (perm_middle p.available (workers_of s.held))
        (subst (λ l. Perm (l ++ workers_of s.held) (numbers 0 s.pool.n_workers)) h.first inv.all));
}

pub begun_worker :
    (i w : ℕ) {p q : LockPool} → Begins i p → begin_acquire i p ≡ Begun.has w q → Pops p w q
begun_worker i w (Begins.queued q' e h) f = cc
begun_worker i w {p} {q} (Begins.popped w' q' e h) f =
    let a : w' ≡ w = cc in let b : q' ≡ q = cc in subst₂ (λ v r. Pops p v r) a b h

pub begun_queue :
    (i : ℕ) {p q : LockPool} → Begins i p → begin_acquire i p ≡ Begun.waits q → Queues i p q
begun_queue i {p} {q} (Begins.queued q' e h) f = let b : q' ≡ q = cc in subst (Queues i p) b h
begun_queue i (Begins.popped w' q' e h) f = cc

pub resume_worker :
    (w : ℕ) {k i : ℕ} {p q : LockPool} → Resumes k i p → resume p ≡ some (w, q) → Pops p w q
resume_worker w {p} {q} r f =
    let e = some-injective _ _ (sym r.returns ∙ f) in
    subst₂ (λ v q. Pops p v q) (ap (λ x. x.0) e) (ap (λ x. x.1) e) r.pops

-- New workers come behind those to be had, in front of those that are held.
grow-Perm : (xs ns hs : List ℕ) → Perm ((xs ++ ns) ++ hs) ((xs ++ hs) ++ ns)
grow-Perm xs ns hs =
    rw (append_assoc xs ns hs, append_assoc xs hs ns) (Perm.append_left xs (perm_append_comm ns hs))

give-Perm :
    (i w : ℕ) (vs : List ℕ) (xs ys : List (ℕ × ℕ))
    → Perm (w ∷ vs ++ workers_of (xs ++ ys)) (vs ++ workers_of (xs ++ (i, w) ∷ ys))
give-Perm i w vs xs ys =
    Perm.trans (Perm.symm (perm_middle vs _))
      (Perm.append_left vs (Perm.symm (workers_of-middle i w xs ys)))

pub step-Inv : {s t : System} → Inv s → Step s t → Inv t
step-Inv {s} inv (Step.grow n h) = record {
  mode = add_workers-Mode n h inv.mode;
  all =
      let (e, f) = add_workers-same n s.pool in
      rw (e, f, numbers-after s.pool.n_workers n)
        (Perm.trans (grow-Perm s.pool.available (numbers s.pool.n_workers n) _)
          (Perm.append_right _ inv.all));
}
step-Inv {s} inv (Step.wait i p e) =
    let h = begun_queue i (begin_acquire_lem i inv.mode) e in
    record { mode = h.mode; all = rw (h.same, h.same_available) inv.all }
step-Inv {s} inv (Step.take i w p e) =
    lend-Inv s i w p inv (begun_worker i w (begin_acquire_lem i inv.mode) e)
step-Inv {s} inv (Step.wake k i w p e f) =
    lend-Inv s i w p inv (resume_worker w (resume_lem k i inv.mode e) f)
step-Inv {s} inv (Step.give i w xs ys e) = record {
  mode = release_worker-Mode w inv.mode;
  all =
      let (f, g) = release_worker-same w s.pool in
      rw (f, g)
        (Perm.trans (give-Perm i w s.pool.available xs ys) (
          subst (λ h. Perm (s.pool.available ++ workers_of h) (numbers 0 s.pool.n_workers)) e
            inv.all));
}

pub reach-Inv : {s : System} → Reach s → Inv s
unfolding numbers
reach-Inv Reach.begin = record { mode = drained [] 0 tt; all = Perm.refl [] }
reach-Inv (Reach.later r e) = step-Inv (reach-Inv r) e

pub numbers-below : (a n x : ℕ) → x < a → Mem x (numbers a n) → ⊥
unfolding numbers
numbers-below a zero x l h = not-mem-nil h
numbers-below a (suc n) x l h =
    Or.elim ⊥_prop (eq-or-mem_of_mem-cons h) (λ e. omega arith)
      (numbers-below (suc a) n x (omega arith))

numbers-Nodup : (a n : ℕ) → Nodup (numbers a n)
unfolding numbers
numbers-Nodup a zero = Nodup-nil
numbers-Nodup a (suc n) =
    Nodup-cons.1 (numbers-below (suc a) n a (omega arith), numbers-Nodup (suc a) n)

-- In every state that threads reach in any order of their calls, the workers that are to be had
-- and the workers that threads hold are together the workers of the pool, from 0 on, each once: no
-- worker is lent to two threads, or to be had while it is lent, and none is lost.
pub Reach-Nodup :
    (s : System) → Reach s → Perm (owned s) (numbers 0 s.pool.n_workers) × Nodup (owned s)
Reach-Nodup s r =
    let h = (reach-Inv r).all in (h, Perm.nodup (Perm.symm h) (numbers-Nodup 0 s.pool.n_workers))
