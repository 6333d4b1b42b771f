-- ===== src/ClientPool/Clients.antt =====
-- The clients of a pool, of which each belongs to the worker of its number, and how many there are.
use libmc.Prelude.{
  ℕ, zero, suc, ◌+◌, ◌-◌, ◌≤◌, ◌<◌, ◌≡◌, ◌⊎◌, refl, sym, ap, ◌∙◌, Bool, true, false, not, List, [],
  ◌∷◌, ◌++◌, Option, some, length, length-append, get_elem?, get_elem?-append_left,
  get_elem?-append_right, inl, inr, Bool-cases, if◌then◌else◌, ltb, ◌==◌, ◌&&◌, min, arith,
}
use mathlib.Core.Option.{none-ne-some, some-injective}
use mathlib.Core.Bool.{true≢false}
use libmc.Pool.Setup.{Address}
use libmc.LockPool.{LockPool, add_workers, unlock, unlock_at}
use libmc.Client.{Client, ConfigOption, debug_assert}
use libmc.ClientPool
use libmc.ClientPool.{
  ClientPool, IndexedClient, Setting, setup, new_clients, grow_pool, should_grow_unsafe, auto_grow,
  option_number,
}
use libmc.ClientPool.Settings.{AllFit, setup-HasDefaults}

abbrev pub Numbered : {W : Type 0} → ℕ → List (IndexedClient W) → Type 0
Numbered {W} i cs = (j : ℕ) (c : IndexedClient W) → get_elem? cs j ≡ some c → c.index ≡ i + j

-- There are as many clients as workers, and each client has the number at which it stands.
pub record IsPool {W : Type 0} (p : ClientPool W) : Type 0 where
  pub workers : p.lock_pool.n_workers ≡ length p.clients
  pub numbered : (j : ℕ) (c : IndexedClient W) → get_elem? p.clients j ≡ some c → c.index ≡ j

debug_assert-holds : (debug b : Bool) → b ≡ true → debug_assert debug b ≡ some tt
debug_assert-holds true b e = rw e refl
debug_assert-holds false b e = refl

add_workers-n_workers : (n : ℕ) (p : LockPool) → (add_workers n p).n_workers ≡ p.n_workers + n
unfolding add_workers unlock
add_workers-n_workers n p = unlock_at-n_workers p.fifo _
  where
    unlock_at-n_workers : (ts : List _) (q : LockPool) → (unlock_at ts q).n_workers ≡ q.n_workers
    unlock_at-n_workers [] q = refl
    unlock_at-n_workers (t ∷ ts) q = refl

pub Numbered-cons :
    {W : Type 0} (i : ℕ) (c : Client W) (cs : List (IndexedClient W))
    → Numbered (suc i) cs
    → Numbered i (record { c = c; index = i } ∷ cs)
Numbered-cons i c cs h zero d e =
    let f : d ≡ record { c = c; index = i } = some-injective _ _ (sym e) in
    ap (λ (x : IndexedClient _). x.index) f ∙ omega arith
Numbered-cons i c cs h (suc j) d e = h j d e ∙ omega arith

module _ {W : Type 0} (setting : Setting W) where
  new_clients_lem :
      (saved : ConfigOption → Option ℕ) (addresses : List Address) (i n rv : ℕ)
      → AllFit saved
      → (rv' : ℕ) × (cs : List (IndexedClient W)) × (new_clients setting saved addresses i n rv
          ≡ some (rv', cs))
        × (length cs ≡ n)
        × Numbered i cs
  unfolding new_clients
  new_clients_lem saved addresses i zero rv fit =
      (rv, [], refl, refl, λ j c e. absurd (none-ne-some _ e))
  new_clients_lem saved addresses i (suc n) rv fit =
      let (c, e, _, _, _) = setup-HasDefaults setting saved addresses fit in
      let err = length addresses in
      let (rv', cs, f, l, h) =
        new_clients_lem saved addresses (suc i) n (if not (err == 0) then err else rv) fit in
      (rv', record { c = c; index = i } ∷ cs, rw (e, f) refl, ap suc l, Numbered-cons i c cs h)

  room_of : (p : ClientPool W) → should_grow_unsafe p ≡ true → length p.clients < p.max_clients
  room_of p e = elim (Bool-cases (ltb (length p.clients) p.max_clients)) [
    | inl less ↦ ground (arith, less)
    | inr more ↦ absurd (true≢false (sym e ∙ ap (λ b. b && p.lock_pool.locked) more))
  ]

  -- The pool has grown by so many clients, behind those that it had.
  pub record Grown (n : ℕ) (p q : ClientPool W) : Type 0 where
    pub is_pool : IsPool q
    pub more : length q.clients ≡ length p.clients + n
    pub kept : (j : ℕ) → j < length p.clients → get_elem? q.clients j ≡ get_elem? p.clients j
    pub same_max : q.max_clients ≡ p.max_clients
    pub same_initial : q.initial_clients ≡ p.initial_clients
    pub same_growth : q.max_growth ≡ p.max_growth
    pub same_saved : q.saved ≡ p.saved
    pub lock : (q.lock_pool ≡ p.lock_pool) ⊎ ((0 < n) × (q.lock_pool ≡ add_workers n p.lock_pool))

  Numbered-append :
      (xs ys : List (IndexedClient W))
      → ((j : ℕ) (c : IndexedClient W) → get_elem? xs j ≡ some c → c.index ≡ j)
      → Numbered (length xs) ys
      → (j : ℕ) (c : IndexedClient W) → get_elem? (xs ++ ys) j ≡ some c
      → c.index ≡ j
  Numbered-append xs ys h k j c e = elim (Bool-cases (ltb j (length xs))) [
    | inl before ↦
        let lt : j < length xs = ground (arith, before) in
        h j c (sym (get_elem?-append_left xs ys j lt) ∙ e)
    | inr behind ↦
        let ge : length xs ≤ j = ground (arith, behind) in
        k (j - length xs) c (sym (get_elem?-append_right xs ys j ge) ∙ e) ∙ omega arith
  ]

  pub grow_pool-Grown :
      (by : ℕ) (p : ClientPool W)
      → IsPool p
      → AllFit p.saved
      → 0 < by
      → (rv : ℕ) × (q : ClientPool W) × (grow_pool setting by p ≡ some (rv, q)) × Grown by p q
  unfolding grow_pool
  grow_pool-Grown by p v fit h =
      let (rv, cs, e, l, n) = new_clients_lem p.saved p.addresses (length p.clients) by 0 fit in
      let d = debug_assert-holds setting.build.debug (ltb 0 by) (ground arith) in
      let more : length (p.clients ++ cs) ≡ length p.clients + by =
        length-append p.clients cs ∙ ap (λ k. length p.clients + k) l in
      let q : ClientPool W = record p {
        clients = p.clients ++ cs;
        lock_pool = add_workers by p.lock_pool;
      } in
      (
        rv,
        q,
        rw (d, e) refl,
        record {
          is_pool = record {
            workers = add_workers-n_workers by p.lock_pool ∙ ap (λ k. k + by) v.workers ∙ sym more;
            numbered = Numbered-append p.clients cs v.numbered n;
          };
          more = more;
          kept = λ j lt. get_elem?-append_left p.clients cs j lt;
          same_max = refl;
          same_initial = refl;
          same_growth = refl;
          same_saved = refl;
          lock = inr (h, refl);
        },
      )

  -- If each client has the number of its worker, each value that the pool has saved is one that its
  -- option may have, and the pool has a client and may grow by at least one, then `autoGrow` returns.
  -- It keeps the clients that there are, and each new one has the number of its worker. Where no
  -- worker is free and there are fewer clients than their maximum there are more clients than before,
  -- at most twice as many, and no more than the maximum; else the pool is as before.
  pub auto_grow-Grown :
      (p : ClientPool W)
      → IsPool p
      → AllFit p.saved
      → 0 < length p.clients
      → 0 < p.max_growth
      → (rv n : ℕ) × (q : ClientPool W) × (auto_grow setting p ≡ some (rv, q))
        × Grown n p q
        × (should_grow_unsafe p ≡ true
            → (0 < n) × (n ≤ length p.clients) × (length q.clients ≤ p.max_clients))
        × (should_grow_unsafe p ≡ false → q ≡ p)
  unfolding auto_grow
  auto_grow-Grown p v fit h g = elim (Bool-cases (should_grow_unsafe p)) [
    | inl grows ↦
        let by = min (p.max_clients - length p.clients) (min p.max_growth (length p.clients)) in
        let room : length p.clients < p.max_clients = room_of p grows in
        let (rv, q, e, k) = grow_pool-Grown by p v fit (omega arith) in
        (
          rv,
          by,
          q,
          rw grows e,
          k,
          (λ _. (omega arith, omega arith, omega (arith, k.more))),
          λ no. absurd (true≢false (sym grows ∙ no)),
        )
    | inr stays ↦ (
      0,
      0,
      p,
      rw stays refl,
      record {
        is_pool = v;
        more = omega arith;
        kept = λ j lt. refl;
        same_max = refl;
        same_initial = refl;
        same_growth = refl;
        same_saved = refl;
        lock = inl refl;
      },
      (λ yes. absurd (true≢false (sym yes ∙ stays))),
      λ _. refl,
    )
  ]

  -- If each client has the number of its worker, each value that the pool has saved is one that its
  -- option may have, and CFG_INITIAL_CLIENTS is set to more clients than there are, then `config`
  -- returns, and adds that many clients to those that there are, instead of adding those that are
  -- missing; where there were clients already there are now more than initial clients.
  pub config-Overgrown :
      (val : ℕ) (p : ClientPool W)
      → IsPool p
      → AllFit p.saved
      → length p.clients < val
      → (q : ClientPool W) × (ClientPool.config setting ConfigOption.cfg_initial_clients val p
          ≡ some q)
        × IsPool q
        × (q.initial_clients ≡ val)
        × (length q.clients ≡ length p.clients + val)
  unfolding ClientPool.config ClientPool.config_pool option_number
  config-Overgrown val p v fit h =
      let few : ltb (length p.clients) val ≡ true = ground arith in
      let p' : ClientPool W = record p {
        initial_clients = val;
        max_clients = if ltb p.max_clients val then val else p.max_clients;
      } in
      let (rv, q, e, k) =
        grow_pool-Grown val p' (record { workers = v.workers; numbered = v.numbered }) fit
          (omega arith) in
      (q, rw (few, e) refl, k.is_pool, k.same_initial, k.more)
