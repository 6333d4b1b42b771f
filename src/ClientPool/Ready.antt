-- ===== src/ClientPool/Ready.antt =====
-- What `config`, `updateServers`, `init` and `autoGrow` keep of a pool: the clients keep the numbers of
-- their workers, and workers are only added.
use libmc.Prelude.{
  ℕ, suc, ◌≤◌, ◌<◌, ◌≡◌, ◌⊎◌, refl, sym, ap, ◌∙◌, subst, List, [], ◌∷◌, Option, none, some, length,
  inl, inr, Option-cases, arith,
}
use mathlib.Core.Option.{none-ne-some, some-injective}
use libmc.Pool.Setup.{Address, Updated}
use libmc.LockPool.{add_workers}
use libmc.Client
use libmc.Client.{Client, ConfigOption}
use libmc.ClientPool.{
  ClientPool, IndexedClient, Setting, config_clients, update_client, update_clients, last_result,
  new_client_pool,
}
use libmc.ClientPool.Settings.{AllFit}
use libmc.ClientPool.Clients.{IsPool, Grown, Numbered, Numbered-cons}

-- A pool that may be configured, set up, and grown.
pub record IsReady {W : Type 0} (p : ClientPool W) : Type 0 where
  pub is_pool : IsPool p
  pub fit : AllFit p.saved
  pub initial : 0 < p.initial_clients
  pub growth : 0 < p.max_growth

-- What is left of one pool in another: at least as many clients, and the locks, to which workers may
-- have been added.
pub record Adjusted {W : Type 0} (p q : ClientPool W) : Type 0 where
  pub ready : IsReady q
  pub more : length p.clients ≤ length q.clients
  pub lock :
      (q.lock_pool ≡ p.lock_pool) ⊎ ((n : ℕ) × (0 < n) × (q.lock_pool ≡ add_workers n p.lock_pool))

pub new_client_pool-IsReady : {W : Type 0} → IsReady (new_client_pool {W = W})
new_client_pool-IsReady = record {
  is_pool = record { workers = refl; numbered = λ j c e. absurd (none-ne-some c e) };
  fit = λ opt val e. absurd (none-ne-some val e);
  initial = omega arith;
  growth = omega arith;
}

Numbered-tail :
    {W : Type 0} (i : ℕ) (c : IndexedClient W) (cs : List (IndexedClient W))
    → Numbered i (c ∷ cs)
    → (c.index ≡ i) × Numbered (suc i) cs
Numbered-tail i c cs h = (h 0 c refl ∙ omega arith, λ j d e. h (suc j) d e ∙ omega arith)

-- Other clients with the same numbers.
abbrev pub Renewed : {W : Type 0} → ℕ → List (IndexedClient W) → List (IndexedClient W) → Type 0
Renewed i cs ds = (length ds ≡ length cs) × Numbered i ds

Renewed-cons :
    {W : Type 0} (i : ℕ) (c : IndexedClient W) (d : Client W) (cs ds : List (IndexedClient W))
    → c.index ≡ i
    → Renewed (suc i) cs ds
    → Renewed i (c ∷ cs) (record c { c = d } ∷ ds)
Renewed-cons i c d cs ds e (l, h) = (
  ap suc l,
  subst (λ n. Numbered i (record { c = d; index = n } ∷ ds)) (sym e) (Numbered-cons i d ds h),
)

-- A result of a pool, and what it must then be.
abbrev pub Yields : {A : Type 0} → Option A → (A → Type 0) → Type 0
Yields none P = Unit
Yields (some x) P = P x

pub yielded : {A : Type 0} (P : A → Type 0) (o : Option A) (x : A) → Yields o P → o ≡ some x → P x
yielded P none x y e = absurd (none-ne-some x e)
yielded P (some z) x y e = subst P (some-injective z x e) y

-- A pool with the same workers, and clients with the same numbers.
pub kept :
    {W : Type 0} (p q : ClientPool W)
    → IsReady p
    → q.lock_pool ≡ p.lock_pool
    → Renewed 0 p.clients q.clients
    → AllFit q.saved
    → 0 < q.initial_clients
    → 0 < q.max_growth
    → Adjusted p q
kept p q v l (n, h) fit i g = record {
  ready = record {
    is_pool = record {
      workers = ap (λ x. x.n_workers) l ∙ v.is_pool.workers ∙ sym n;
      numbered = λ j c e. h j c e ∙ omega arith;
    };
    fit = fit;
    initial = i;
    growth = g;
  };
  more = omega arith;
  lock = inl l;
}

-- The clients of a pool have the numbers from 0 on.
pub all-Numbered : {W : Type 0} (p : ClientPool W) → IsReady p → Numbered 0 p.clients
all-Numbered p v j c e = v.is_pool.numbered j c e ∙ omega arith

pub unchanged : {W : Type 0} (p : ClientPool W) → IsReady p → Adjusted p p
unchanged p v = record { ready = v; more = omega arith; lock = inl refl }

pub Grown-Adjusted :
    {W : Type 0} (setting : Setting W) (n : ℕ) (p q : ClientPool W)
    → IsReady p
    → Grown setting n p q
    → Adjusted p q
Grown-Adjusted setting n p q v g = record {
  ready = record {
    is_pool = g.is_pool;
    fit = subst AllFit (sym g.same_saved) v.fit;
    initial = omega (arith, g.same_initial, v.initial);
    growth = omega (arith, g.same_growth, v.growth);
  };
  more = omega (arith, g.more);
  lock = elim g.lock [ inl l ↦ inl l | inr (h, l) ↦ inr (n, h, l) ];
}

pub with_same_lock :
    {W : Type 0} (p q r : ClientPool W)
    → Adjusted p q
    → q.lock_pool ≡ p.lock_pool
    → Adjusted q r
    → Adjusted p r
with_same_lock p q r a l b = record {
  ready = b.ready;
  more = omega (arith, a.more, b.more);
  lock = elim b.lock [
    | inl same ↦ inl (same ∙ l)
    | inr (n, h, added) ↦ inr (n, h, added ∙ ap (add_workers n) l)
  ];
}

module _ {W : Type 0} (setting : Setting W) where
  pub config_clients-Renewed :
      (opt : ConfigOption) (val i : ℕ) (cs : List (IndexedClient W))
      → Numbered i cs
      → Yields (config_clients setting opt val cs) (Renewed i cs)
  unfolding config_clients
  config_clients-Renewed opt val i [] h = (refl, h)
  config_clients-Renewed opt val i (c ∷ cs) h =
      let (e, t) = Numbered-tail i c cs h in
      let rest = config_clients-Renewed opt val (suc i) cs t in
      elim (Option-cases (Client.config setting.build.debug setting.hashes opt val c.c)) [
        | inl fails ↦ rw fails tt
        | inr (d, f) ↦ elim (Option-cases (config_clients setting opt val cs)) [
          | inl fails ↦ rw (f, fails) tt
          | inr (ds, g) ↦
              let r = yielded (Renewed (suc i) cs) (config_clients setting opt val cs) ds rest g in
              rw (f, g) (Renewed-cons i c d cs ds e r)
        ]
      ]

  pub update_clients-Renewed :
      (addresses : List Address) (i : ℕ) (cs : List (IndexedClient W)) (rv : Updated)
      → Numbered i cs
      → Yields (update_clients setting addresses cs rv) (λ r. Renewed i cs (r.1))
  unfolding update_clients
  update_clients-Renewed addresses i [] rv h = (refl, h)
  update_clients-Renewed addresses i (c ∷ cs) rv h =
      let (e, t) = Numbered-tail i c cs h in
      elim (Option-cases (update_client setting addresses c.c.pool)) [
        | inl fails ↦ rw fails tt
        | inr ((err, p), f) ↦
            let next = update_clients setting addresses cs (last_result setting rv err) in
            let rest = update_clients-Renewed addresses (suc i) cs (last_result setting rv err) t in
            elim (Option-cases next) [
              | inl fails ↦ rw (f, fails) tt
              | inr ((rv', ds), g) ↦
                  let r = yielded (λ x. Renewed (suc i) cs (x.1)) next (rv', ds) rest g in
                  rw (f, g) (Renewed-cons i c (record (c.c) { pool = p }) cs ds e r)
            ]
      ]
