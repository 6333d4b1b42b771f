-- ===== src/ClientPool/Threads.antt =====
-- What holds in every state of threads that share a ClientPool: their locks are as those of a
-- LockPool, and each has the client of its worker.
use mathlib.Core.List.{
  Mem, Nodup, mem-cons_self, mem-cons_of_mem, mem-append_right, eq-or-mem_of_mem-cons, not-mem-nil,
}
use mathlib.Core.List.Perm
use mathlib.Core.Logic.Or
use mathlib.Core.HLevel.{⊥_prop}
use libmc.Prelude.{
  ℕ, zero, suc, ◌+◌, ◌≤◌, ◌<◌, ◌≡◌, sym, ap, ◌∙◌, subst, List, [], ◌∷◌, ◌++◌, some, length,
  get_elem?-some, inl, inr, Bool-cases, ltb, All, arith,
}
use libmc.LockPool.{LockPool, numbers, release_worker}
use libmc.LockPool.Invariant.{begin_acquire_lem, resume_lem}
use libmc.LockPool.Threads
use libmc.LockPool.Threads.{workers_of}
use libmc.LockPool.Safety.{
  owned, Reach-Nodup, reach-Inv, begun_queue, begun_worker, resume_worker, release_worker-same,
}
use libmc.ClientPool.{ClientPool, IndexedClient, Setting, acquire, client_of, release}
use libmc.ClientPool.Ready.{IsReady, Adjusted, new_client_pool-IsReady}
use libmc.ClientPool.Adjust.{
  auto_grow-Adjusted, config-Adjusted, update_servers-Adjusted, init-Adjusted,
}
use libmc.ClientPool.Clients.{IsPool}
use libmc.ClientPool.Steps.{Sharing, lock_view, Step, Prepared, Reach}

record Simulates {W : Type 0} (s : Sharing W) : Type 0 where
  locks : Threads.Reach (lock_view s)
  ready : IsReady s.pool

-- Other locks for as many workers.
with_lock-IsPool :
    {W : Type 0} (p : ClientPool W) (l : LockPool)
    → IsPool p
    → l.n_workers ≡ p.lock_pool.n_workers
    → IsPool (record p { lock_pool = l })
with_lock-IsPool p l v e = record { workers = e ∙ v.workers; numbered = v.numbered }

with_lock-Simulates :
    {W : Type 0} (s : Sharing W) (l : LockPool) (hs : List (ℕ × ℕ))
    → Simulates s
    → l.n_workers ≡ s.pool.lock_pool.n_workers
    → Threads.Reach (record { pool = l; held = hs })
    → Simulates (record { pool = record (s.pool) { lock_pool = l }; held = hs })
with_lock-Simulates s l hs m e r = record {
  locks = r;
  ready = record {
    is_pool = with_lock-IsPool s.pool l m.ready.is_pool e;
    fit = m.ready.fit;
    initial = m.ready.initial;
    growth = m.ready.growth;
  };
}

-- A pool that has been adjusted is as if workers had been added.
Adjusted-Simulates :
    {W : Type 0} (s : Sharing W) (q : ClientPool W)
    → Simulates s
    → Adjusted s.pool q
    → Simulates (record s { pool = q })
Adjusted-Simulates s q m a = record {
  locks = elim a.lock [
    | inl same ↦ subst (λ l. Threads.Reach (record { pool = l; held = s.held })) (sym same) m.locks
    | inr (n, more, added) ↦
        subst (λ l. Threads.Reach (record { pool = l; held = s.held })) (sym added)
          (Threads.Reach.later m.locks (Threads.Step.grow n more))
  ];
  ready = a.ready;
}

-- And it has a client still.
abbrev Lives : {W : Type 0} → Sharing W → Type 0
Lives s = Simulates s × (0 < length s.pool.clients)

adjusted :
    {W : Type 0} (s : Sharing W) (q : ClientPool W)
    → Lives s
    → Adjusted s.pool q
    → Lives (record s { pool = q })
adjusted s q (m, k) a = (Adjusted-Simulates s q m a, omega (arith, a.more, k))

step-Lives :
    {W : Type 0} (setting : Setting W) {s t : Sharing W} → Lives s → Step setting s t → Lives t
unfolding acquire release
step-Lives setting {s} (m, k) (Step.grow rv p e) =
    adjusted s p (m, k) (auto_grow-Adjusted setting rv s.pool p m.ready k e)
step-Lives setting {s} (m, k) (Step.configure opt val p h e) =
    adjusted s p (m, k) (config-Adjusted setting opt val s.pool p m.ready h e)
step-Lives setting {s} (m, k) (Step.update addresses u p e) =
    adjusted s p (m, k) (update_servers-Adjusted setting addresses u s.pool p m.ready e).0
step-Lives setting {s} (m, k) (Step.init_again addresses rv p e) =
    adjusted s p (m, k) (init-Adjusted setting addresses rv s.pool p m.ready e).0
step-Lives setting {s} (m, k) (Step.wait i grows l e) =
    let f = ap (λ x. x.1) e in
    (
      with_lock-Simulates s l s.held m
          (begun_queue i (begin_acquire_lem i (reach-Inv m.locks).mode) f).same
          (Threads.Reach.later m.locks (Threads.Step.wait i l f)),
      k,
    )
step-Lives setting {s} (m, k) (Step.take i w grows l e) =
    let f = ap (λ x. x.1) e in
    (
      with_lock-Simulates s l ((i, w) ∷ s.held) m
          (begun_worker i w (begin_acquire_lem i (reach-Inv m.locks).mode) f).same
          (Threads.Reach.later m.locks (Threads.Step.take i w l f)),
      k,
    )
step-Lives setting {s} (m, k) (Step.wake j i w l e f) = (
  with_lock-Simulates s l ((i, w) ∷ s.held) m
      (resume_worker w (resume_lem j i (reach-Inv m.locks).mode e) f).same
      (Threads.Reach.later m.locks (Threads.Step.wake j i w l e f)),
  k,
)
step-Lives setting {s} (m, k) (Step.give i w xs ys c e f) =
    let at : w ≡ c.index = sym (m.ready.is_pool.numbered w c f) in
    (
      with_lock-Simulates s (release_worker c.index s.pool.lock_pool) (xs ++ ys) m
          (release_worker-same c.index s.pool.lock_pool).1
          (subst
            (λ v.
              Threads.Reach (record { pool = release_worker v s.pool.lock_pool; held = xs ++ ys }))
            at (Threads.Reach.later m.locks (Threads.Step.give i w xs ys e))),
      k,
    )

Prepared-Simulates :
    {W : Type 0} (setting : Setting W) {p : ClientPool W}
    → Prepared setting p
    → Simulates (record { pool = p; held = [] })
Prepared-Simulates setting Prepared.fresh = record {
  locks = Threads.Reach.begin;
  ready = new_client_pool-IsReady;
}
Prepared-Simulates setting (Prepared.configured {p} r opt val q h e) =
    let m = Prepared-Simulates setting r in
    Adjusted-Simulates (record { pool = p; held = [] }) q m
      (config-Adjusted setting opt val p q m.ready h e)

reach-Lives : {W : Type 0} (setting : Setting W) {s : Sharing W} → Reach setting s → Lives s
reach-Lives setting (Reach.begin {p} r addresses rv q e) =
    let m = Prepared-Simulates setting r in
    let (a, k) = init-Adjusted setting addresses rv p q m.ready e in
    (Adjusted-Simulates (record { pool = p; held = [] }) q m a, k)
reach-Lives setting (Reach.later r e) = step-Lives setting (reach-Lives setting r) e

numbers-above : (a n x : ℕ) → a + n ≤ x → Mem x (numbers a n) → ⊥
unfolding numbers
numbers-above a zero x l h = not-mem-nil h
numbers-above a (suc n) x l h =
    Or.elim ⊥_prop (eq-or-mem_of_mem-cons h) (λ e. omega arith)
      (numbers-above (suc a) n x (omega arith))

numbers-bound : (n x : ℕ) → Mem x (numbers 0 n) → x < n
numbers-bound n x h = elim (Bool-cases (ltb x n)) [
  | inl less ↦ ground (arith, less)
  | inr more ↦ absurd (numbers-above 0 n x (ground (arith, more)) h)
]

-- The client of a worker that is held.
abbrev pub HasClient : {W : Type 0} → ClientPool W → ℕ × ℕ → Type 0
HasClient {W} p (i, w) = (c : IndexedClient W) × (client_of w p ≡ some c) × (c.index ≡ w)

has-HasClient :
    {W : Type 0} (p : ClientPool W) (hs : List (ℕ × ℕ))
    → IsPool p
    → ((w : ℕ) → Mem w (workers_of hs) → w < length p.clients)
    → All (HasClient p) hs
has-HasClient p [] v h = tt
has-HasClient p ((i, w) ∷ hs) v h =
    let (c, e) = get_elem?-some p.clients w (h w mem-cons_self) in
    ((c, e, v.numbered w c e), has-HasClient p hs v (λ x m. h x (mem-cons_of_mem w m)))

-- If a new pool has been given options by any calls of `config`, and has then been set up by `init`,
-- then in every state to which threads take it, each taking clients, waiting for them and giving
-- them back, while others call `autoGrow`, `config`, `updateServers` and `init`, the threads are in a
-- state of the LockPool that threads can reach there; each thread that holds a worker has the client
-- of the same number, and no two hold the same one. Each `config` is of a value that its option may
-- have: a hash function below 4, a failover of 0 or 1, and above 0 for the initial clients and the
-- growth.
pub Reach-HasClient :
    {W : Type 0} (setting : Setting W) (s : Sharing W)
    → Reach setting s
    → Threads.Reach (lock_view s) × All (HasClient s.pool) s.held × Nodup (owned (lock_view s))
Reach-HasClient setting s r =
    let m = (reach-Lives setting r).0 in
    let (all, distinct) = Reach-Nodup (lock_view s) m.locks in
    (
      m.locks,
      has-HasClient s.pool s.held m.ready.is_pool (λ w h.
          subst (λ n. w < n) m.ready.is_pool.workers
            (numbers-bound s.pool.lock_pool.n_workers w
              (Perm.subset all w (mem-append_right s.pool.lock_pool.available h)))),
      distinct,
    )
