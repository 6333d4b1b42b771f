-- ===== src/ClientPool/Adjust.antt =====
-- `config`, `updateServers`, `init` and `autoGrow` of a pool.
use libmc.Prelude.{
  ℕ, ◌<◌, ◌≡◌, refl, sym, ap, ◌∙◌, subst, List, some, length, inl, inr, Bool-cases, Option-cases,
  ltb, if◌then◌else◌, map, arith,
}
use mathlib.Core.Option.{some-injective}
use libmc.Pool.Setup.{Address, Updated}
use libmc.Client.{ConfigOption}
use libmc.ClientPool
use libmc.ClientPool.{
  ClientPool, IndexedClient, Setting, save, option_number, config_clients, config_pool,
  update_client, update_clients, update_servers, grow_pool, auto_grow, duplicate, last_result,
  new_client_pool,
}
use libmc.ClientPool.Clients.{auto_grow-Grown, grow_pool-Grown}
use libmc.ClientPool.Options.{Allowed, Allowed-Fits, save-AllFit}
use libmc.ClientPool.Ready.{
  IsReady, Adjusted, Renewed, Yields, yielded, kept, all-Numbered, unchanged, Grown-Adjusted,
  config_clients-Renewed, update_clients-Renewed, with_same_lock,
}

module _ {W : Type 0} (setting : Setting W) where
  -- The options of the pool.
  config_pool-Adjusted :
      (opt : ConfigOption) (val : ℕ) (p : ClientPool W)
      → IsReady p
      → Allowed opt val
      → Yields (config_pool setting opt val p) (Adjusted p)
  unfolding config_pool
  config_pool-Adjusted ConfigOption.cfg_initial_clients val p v h =
      let q : ClientPool W = record p {
        initial_clients = val;
        max_clients = if ltb p.max_clients val then val else p.max_clients;
      } in
      let w : IsReady q = record {
        is_pool = record { workers = v.is_pool.workers; numbered = v.is_pool.numbered };
        fit = v.fit;
        initial = h;
        growth = v.growth;
      } in
      elim (Bool-cases (ltb (length p.clients) val)) [
        | inl few ↦
            let (rv, r, e, g) = grow_pool-Grown setting val q w.is_pool w.fit h in
            let a = Grown-Adjusted setting val q r w g in
            rw (few, e) (record { ready = a.ready; more = a.more; lock = a.lock })
        | inr enough ↦ rw enough (record { ready = w; more = omega arith; lock = inl refl })
      ]
  config_pool-Adjusted ConfigOption.cfg_max_clients val p v h =
      kept p (record p { max_clients = val }) v refl (refl, all-Numbered p v) v.fit v.initial
        v.growth
  config_pool-Adjusted ConfigOption.cfg_max_growth val p v h =
      kept p (record p { max_growth = val }) v refl (refl, all-Numbered p v) v.fit v.initial h
  config_pool-Adjusted ConfigOption.cfg_poll_timeout val p v h = unchanged p v
  config_pool-Adjusted ConfigOption.cfg_connect_timeout val p v h = unchanged p v
  config_pool-Adjusted ConfigOption.cfg_retry_timeout val p v h = unchanged p v
  config_pool-Adjusted ConfigOption.cfg_hash_function val p v h = unchanged p v
  config_pool-Adjusted ConfigOption.cfg_max_retries val p v h = unchanged p v
  config_pool-Adjusted ConfigOption.cfg_set_failover val p v h = unchanged p v

  config_yields :
      (opt : ConfigOption) (val : ℕ) (p : ClientPool W)
      → IsReady p
      → Allowed opt val
      → Yields (ClientPool.config setting opt val p) (Adjusted p)
  unfolding ClientPool.config
  config_yields opt val p v h = elim (Bool-cases (ltb (option_number opt) 6)) [
    | inr of_pool ↦ rw of_pool (config_pool-Adjusted opt val p v h)
    | inl of_clients ↦ elim (Option-cases (config_clients setting opt val p.clients)) [
      | inl fails ↦ rw (of_clients, fails) tt
      | inr (ds, f) ↦
          let r =
            yielded (Renewed 0 p.clients) (config_clients setting opt val p.clients) ds
              (config_clients-Renewed setting opt val 0 p.clients (all-Numbered p v)) f in
          rw (of_clients, f)
            (kept p (record p { saved = save opt val p.saved; clients = ds }) v refl r
              (save-AllFit opt val p.saved (Allowed-Fits opt val h) v.fit) v.initial v.growth)
    ]
  ]

  pub config-Adjusted :
      (opt : ConfigOption) (val : ℕ) (p q : ClientPool W)
      → IsReady p
      → Allowed opt val
      → ClientPool.config setting opt val p ≡ some q
      → Adjusted p q
  config-Adjusted opt val p q v h e =
      yielded (Adjusted p) (ClientPool.config setting opt val p) q (config_yields opt val p v h) e

  pub auto_grow-Adjusted :
      (rv : ℕ) (p q : ClientPool W)
      → IsReady p
      → 0 < length p.clients
      → auto_grow setting p ≡ some (rv, q)
      → Adjusted p q
  auto_grow-Adjusted rv p q v h e =
      let (rv', n, q', e', g, _, _) = auto_grow-Grown setting p v.is_pool v.fit h v.growth in
      subst (Adjusted p) (ap (λ r. r.1) (some-injective _ _ (sym e' ∙ e)))
        (Grown-Adjusted setting n p q' v g)

  update_yields :
      (addresses : List Address) (p : ClientPool W)
      → IsReady p
      → Yields
          (update_servers setting addresses p)
          (λ r. Adjusted p (r.1) × ((r.1).lock_pool ≡ p.lock_pool))
  unfolding update_servers
  update_yields addresses p v =
      let stored = map duplicate addresses in
      let all = update_clients setting stored p.clients (Updated.updated 0) in
      elim (Option-cases all) [
        | inl fails ↦ rw fails tt
        | inr ((rv, ds), f) ↦
            let r =
              yielded (λ x. Renewed 0 p.clients (x.1)) all (rv, ds)
                (update_clients-Renewed setting stored 0 p.clients (Updated.updated 0)
                  (all-Numbered p v))
                f in
            rw f (
              kept p (record p { addresses = stored; clients = ds }) v refl r v.fit v.initial
                  v.growth,
              refl,
            )
      ]

  pub update_servers-Adjusted :
      (addresses : List Address) (u : Updated) (p q : ClientPool W)
      → IsReady p
      → update_servers setting addresses p ≡ some (u, q)
      → Adjusted p q × (q.lock_pool ≡ p.lock_pool)
  update_servers-Adjusted addresses u p q v e =
      yielded (λ r. Adjusted p (r.1) × ((r.1).lock_pool ≡ p.lock_pool))
        (update_servers setting addresses p) (u, q) (update_yields addresses p v) e

  init_yields :
      (addresses : List Address) (p : ClientPool W)
      → IsReady p
      → Yields
          (ClientPool.init setting addresses p)
          (λ r. Adjusted p (r.1) × (0 < length (r.1).clients))
  unfolding ClientPool.init
  init_yields addresses p v = elim (Option-cases (update_servers setting addresses p)) [
    | inl fails ↦ rw fails tt
    | inr ((u, q), e) ↦
        let (a, l) = update_servers-Adjusted addresses u p q v e in
        let (rv, r, f, g) =
          grow_pool-Grown setting q.initial_clients q a.ready.is_pool a.ready.fit a.ready.initial in
        let b = Grown-Adjusted setting q.initial_clients q r a.ready g in
        rw (e, f) (with_same_lock p q r a l b, omega (arith, g.more, a.ready.initial))
  ]

  -- A pool that `init` has set up has a client.
  pub init-Adjusted :
      (addresses : List Address) (rv : ℕ) (p q : ClientPool W)
      → IsReady p
      → ClientPool.init setting addresses p ≡ some (rv, q)
      → Adjusted p q × (0 < length q.clients)
  init-Adjusted addresses rv p q v e =
      yielded (λ r. Adjusted p (r.1) × (0 < length (r.1).clients))
        (ClientPool.init setting addresses p) (rv, q) (init_yields addresses p v) e
