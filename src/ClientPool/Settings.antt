-- ===== src/ClientPool/Settings.antt =====
-- What the options that a pool has saved do to a new client.
use libmc.Prelude.{
  ℕ, zero, suc, ◌<◌, ◌≡◌, refl, ap, ◌∙◌, Bool, true, false, List, [], ◌∷◌, Option, none, some,
  length, map, length-map, All, inl, inr, Option-cases, arith,
}
use libmc.Hashkit.Ketama
use libmc.Connection
use libmc.Connection.{Connection}
use libmc.Pool.Setup
use libmc.Pool.Setup.{Address, init_conn}
use libmc.Client
use libmc.Client.{
  Client, ConfigOption, HashFunctions, new_client, config_pool, set_hash_function, debug_assert,
}
use libmc.ClientPool.{Setting, config_saved, setup, client_options, option_number}

-- A value that an option may have.
abbrev pub Fits : ConfigOption → ℕ → Type 0
Fits ConfigOption.cfg_hash_function val = val < 4
Fits ConfigOption.cfg_set_failover val = val < 2
Fits _ val = Unit

-- The poll timeout behind an option.
abbrev pub timeout_after : ConfigOption → ℕ → ℕ → ℕ
timeout_after ConfigOption.cfg_poll_timeout val t = val
timeout_after _ val t = t

abbrev Configured : {W : Type 0} → ConfigOption → ℕ → Client W → Client W → Type 0
Configured opt val c c' = c'.pool.poll_timeout ≡ timeout_after opt val c.pool.poll_timeout

debug_assert-true : (debug : Bool) → debug_assert debug true ≡ some tt
debug_assert-true true = refl
debug_assert-true false = refl

module _ {W : Type 0} (debug : Bool) (hs : HashFunctions) where
  config-Configured :
      (opt : ConfigOption) (val : ℕ) (c : Client W)
      → Fits opt val
      → (c' : Client W) × (Client.config debug hs opt val c ≡ some c') × Configured opt val c c'
  unfolding Client.config config_pool set_hash_function
  config-Configured ConfigOption.cfg_poll_timeout val c h = (_, refl, refl)
  config-Configured ConfigOption.cfg_connect_timeout val c h = (_, refl, refl)
  config-Configured ConfigOption.cfg_retry_timeout val c h = (_, refl, refl)
  config-Configured ConfigOption.cfg_hash_function zero c h = (_, refl, refl)
  config-Configured ConfigOption.cfg_hash_function (suc zero) c h = (_, refl, refl)
  config-Configured ConfigOption.cfg_hash_function (suc (suc zero)) c h = (_, refl, refl)
  config-Configured ConfigOption.cfg_hash_function (suc (suc (suc zero))) c h = (_, refl, refl)
  config-Configured ConfigOption.cfg_hash_function (suc (suc (suc (suc n)))) c h =
      absurd (omega arith)
  config-Configured ConfigOption.cfg_max_retries val c h = (_, refl, refl)
  config-Configured ConfigOption.cfg_set_failover zero c h =
      let c' : Client W = record c {
        pool = record (c.pool) { selector = Ketama.disable_failover c.pool.selector };
      } in
      (c', rw (debug_assert-true debug) refl, refl)
  config-Configured ConfigOption.cfg_set_failover (suc zero) c h =
      let c' : Client W = record c {
        pool = record (c.pool) { selector = Ketama.enable_failover c.pool.selector };
      } in
      (c', rw (debug_assert-true debug) refl, refl)
  config-Configured ConfigOption.cfg_set_failover (suc (suc n)) c h = absurd (omega arith)
  config-Configured ConfigOption.cfg_initial_clients val c h = (_, refl, refl)
  config-Configured ConfigOption.cfg_max_clients val c h = (_, refl, refl)
  config-Configured ConfigOption.cfg_max_growth val c h = (_, refl, refl)

abbrev pub AllFit : (ConfigOption → Option ℕ) → Type 0
AllFit saved = (opt : ConfigOption) (val : ℕ) → saved opt ≡ some val → Fits opt val

-- The poll timeout behind an option that may have been saved.
abbrev pub timeout_by : ConfigOption → Option ℕ → ℕ → ℕ
timeout_by opt none t = t
timeout_by opt (some val) t = timeout_after opt val t

abbrev timeout_all : (ConfigOption → Option ℕ) → List ConfigOption → ℕ → ℕ
timeout_all saved [] t = t
timeout_all saved (opt ∷ opts) t = timeout_all saved opts (timeout_by opt (saved opt) t)

module _ {W : Type 0} (setting : Setting W) (saved : ConfigOption → Option ℕ)
    (fit : AllFit saved) where
  config_saved_lem :
      (opts : List ConfigOption) (c : Client W)
      → (c' : Client W) × (config_saved setting saved opts c ≡ some c')
        × (c'.pool.poll_timeout ≡ timeout_all saved opts c.pool.poll_timeout)
  unfolding config_saved
  config_saved_lem [] c = (c, refl, refl)
  config_saved_lem (opt ∷ opts) c = elim (Option-cases (saved opt)) [
    | inl none_saved ↦
        let (c', e, g) = config_saved_lem opts c in (c', rw none_saved e, rw none_saved g)
    | inr (val, is_saved) ↦
        let (d, e, k) =
          config-Configured setting.build.debug setting.hashes opt val c (fit opt val is_saved) in
        let (c', e', g) = config_saved_lem opts d in
        (c', rw (is_saved, e) e', rw is_saved (g ∙ ap (timeout_all saved opts) k))
  ]

-- The timeouts, and the number of tries, that a connection has which no option has reached.
pub record HasDefaults (c : Connection) : Type 0 where
  pub connect_timeout : c.connect_timeout ≡ 10
  pub retry_timeout : c.retry_timeout ≡ 5
  pub max_retries : c.max_retries ≡ 0

init_conn-HasDefaults :
    (print : List ℕ → ℕ → List ℕ) (a : Address)
    → HasDefaults (init_conn print a Connection.new_connection)
unfolding Connection.init
init_conn-HasDefaults print a = elim (Option-cases a.alias) [
  | inl none_given ↦
      rw none_given (record { connect_timeout = refl; retry_timeout = refl; max_retries = refl })
  | inr (name, given) ↦
      rw given (record { connect_timeout = refl; retry_timeout = refl; max_retries = refl })
]

All-map-HasDefaults :
    (print : List ℕ → ℕ → List ℕ) (as_given : List Address)
    → All HasDefaults (map (λ a. init_conn print a Connection.new_connection) as_given)
All-map-HasDefaults print [] = tt
All-map-HasDefaults print (a ∷ as_given) =
    (init_conn-HasDefaults print a, All-map-HasDefaults print as_given)

timeout_by-other :
    (opt : ConfigOption) (o : Option ℕ) (t : ℕ)
    → (option_number opt ≡ 0 → ⊥)
    → timeout_by opt o t ≡ t
unfolding option_number
timeout_by-other opt none t h = refl
timeout_by-other ConfigOption.cfg_poll_timeout (some val) t h = absurd (h refl)
timeout_by-other ConfigOption.cfg_connect_timeout (some val) t h = refl
timeout_by-other ConfigOption.cfg_retry_timeout (some val) t h = refl
timeout_by-other ConfigOption.cfg_hash_function (some val) t h = refl
timeout_by-other ConfigOption.cfg_max_retries (some val) t h = refl
timeout_by-other ConfigOption.cfg_set_failover (some val) t h = refl
timeout_by-other ConfigOption.cfg_initial_clients (some val) t h = refl
timeout_by-other ConfigOption.cfg_max_clients (some val) t h = refl
timeout_by-other ConfigOption.cfg_max_growth (some val) t h = refl

timeout_all-other :
    (saved : ConfigOption → Option ℕ) (opts : List ConfigOption) (t : ℕ)
    → All (λ opt. option_number opt ≡ 0 → ⊥) opts
    → timeout_all saved opts t ≡ t
timeout_all-other saved [] t h = refl
timeout_all-other saved (opt ∷ opts) t h =
    rw (timeout_by-other opt (saved opt) t (h.0)) (timeout_all-other saved opts t h.1)

-- Of the options of a client, only the first is about it.
timeout_all-client_options :
    (saved : ConfigOption → Option ℕ) (t : ℕ)
    → timeout_all saved client_options t
      ≡ timeout_by ConfigOption.cfg_poll_timeout (saved ConfigOption.cfg_poll_timeout) t
unfolding option_number
timeout_all-client_options saved t =
    timeout_all-other saved
      (ConfigOption.cfg_connect_timeout ∷ ConfigOption.cfg_retry_timeout
        ∷ ConfigOption.cfg_hash_function ∷ ConfigOption.cfg_max_retries
        ∷ ConfigOption.cfg_set_failover ∷ [])
      _
      (
        (λ e. omega arith),
        ((λ e. omega arith), ((λ e. omega arith), ((λ e. omega arith), ((λ e. omega arith), tt)))),
      )

-- If each value that the pool has saved is one that its option may have, then `setup` of a new client
-- gives it a connection for each server, and its result is -1 for each. The timeouts of these
-- connections and their number of tries are the default ones, whatever the pool has saved for
-- CFG_CONNECT_TIMEOUT, CFG_RETRY_TIMEOUT and CFG_MAX_RETRIES; the client's poll timeout is the one
-- saved, or 300 if none is.
pub setup-HasDefaults :
    {W : Type 0} (setting : Setting W) (saved : ConfigOption → Option ℕ) (addresses : List Address)
    → AllFit saved
    → (c : Client W) × (setup setting saved addresses (new_client setting.world)
        ≡ some (length addresses, c))
      × (length c.pool.conns ≡ length addresses)
      × All HasDefaults c.pool.conns
      × (c.pool.poll_timeout
          ≡ timeout_by ConfigOption.cfg_poll_timeout (saved ConfigOption.cfg_poll_timeout) 300)
unfolding setup Setup.init
setup-HasDefaults setting saved addresses fit =
    let (c, e, g) = config_saved_lem setting saved fit client_options (new_client setting.world) in
    let n =
      length-map addresses (λ a. init_conn setting.host_and_port a Connection.new_connection) in
    let d : Client _ = record c {
      pool =
          (Setup.init setting.build setting.formats setting.host_and_port setting.sort addresses
            c.pool).1;
    } in
    (
      d,
      rw e (ap (λ k. some (k, d)) n),
      n,
      All-map-HasDefaults setting.host_and_port addresses,
      g ∙ timeout_all-client_options saved 300,
    )
