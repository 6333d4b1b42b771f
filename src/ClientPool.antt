-- ===== src/ClientPool.antt =====
-- src/ClientPool.cpp and include/ClientPool.h: the clients that threads share, one for each worker of
-- the `LockPool`. What a client sees of the system is a state of its own. The threads are in
-- LockPool: here is what one of them does to the pool, while it holds the mutexes. `none` is a failed
-- assertion, or `strcmp` of NULL. The mutex of a worker is only taken by the thread that has it, and
-- by `updateServers`.
pub mod Clients
pub mod Settings
pub mod Options
pub mod Ready
pub mod Adjust
pub mod Steps
pub mod Threads
use libmc.Prelude.{
  ℕ, zero, suc, ◌+◌, ◌-◌, min, Bool, true, false, not, List, [], ◌∷◌, ◌++◌, Option, none, some, ltb,
  ◌==◌, ◌&&◌, if◌then◌else◌, length, map, get_elem?, ◌>>=◌, ◌>>◌, assert,
}
use libmc.Hashkit.Ketama.{ContinuumItem, Formats}
use libmc.Connection.{Connection, print_into, max_host, max_name}
use libmc.Pool.State.{Pool, Build}
use libmc.Pool.Setup
use libmc.Pool.Setup.{Address, Updated, alias_changes}
use libmc.LockPool.{LockPool, Begun, new_lock_pool, add_workers, begin_acquire, release_worker}
use libmc.Client
use libmc.Client.{Client, ConfigOption, HashFunctions, new_client, debug_assert}

-- `IndexedClient`.
pub record IndexedClient (W : Type 0) : Type 0 where
  pub c : Client W
  pub index : ℕ

-- `saved` is `m_opt_value` where `m_opt_changed`, and `addresses` the arrays of hosts, ports and
-- aliases.
pub record ClientPool (W : Type 0) : Type 0 where
  pub lock_pool : LockPool
  pub saved : ConfigOption → Option ℕ
  pub clients : List (IndexedClient W)
  pub initial_clients : ℕ
  pub max_clients : ℕ
  pub max_growth : ℕ
  pub addresses : List Address

-- `ClientPool()`.
abbrev pub new_client_pool : {W : Type 0} → ClientPool W
new_client_pool = record {
  lock_pool = new_lock_pool;
  saved = λ opt. none;
  clients = [];
  initial_clients = 1;
  max_clients = 4;
  max_growth = 4;
  addresses = [];
}

-- What a client is built with: the system, formats and sort as in `ConnectionPool`, and the state of
-- the system that a new client begins with.
pub record Setting (W : Type 0) : Type 0 where
  pub build : Build W
  pub formats : Formats
  pub host_and_port : List ℕ → ℕ → List ℕ
  pub sort : List ContinuumItem → List ContinuumItem
  pub hashes : HashFunctions
  pub world : W

-- The numbers of `config_options_t`, in which 6 is `CLIENT_CONFIG_OPTION_COUNT`.
unfoldable pub option_number : ConfigOption → ℕ
option_number ConfigOption.cfg_poll_timeout = 0
option_number ConfigOption.cfg_connect_timeout = 1
option_number ConfigOption.cfg_retry_timeout = 2
option_number ConfigOption.cfg_hash_function = 3
option_number ConfigOption.cfg_max_retries = 4
option_number ConfigOption.cfg_set_failover = 5
option_number ConfigOption.cfg_initial_clients = 7
option_number ConfigOption.cfg_max_clients = 8
option_number ConfigOption.cfg_max_growth = 9

abbrev pub client_options : List ConfigOption
client_options =
    ConfigOption.cfg_poll_timeout ∷ ConfigOption.cfg_connect_timeout
    ∷ ConfigOption.cfg_retry_timeout ∷ ConfigOption.cfg_hash_function ∷ ConfigOption.cfg_max_retries
    ∷ ConfigOption.cfg_set_failover ∷ []

unfoldable pub save : ConfigOption → ℕ → (ConfigOption → Option ℕ) → ConfigOption → Option ℕ
unfolding option_number
save opt val saved o = if option_number o == option_number opt then some val else saved o

-- `duplicate_strings`, for one address: the host and the alias are cut to their arrays.
abbrev duplicate_alias : Option (List ℕ) → Option (List ℕ)
duplicate_alias none = none
duplicate_alias (some name) = some (print_into max_name name)

abbrev pub duplicate : Address → Address
duplicate a = record a { host = print_into max_host a.host; alias = duplicate_alias a.alias }

-- Whether `updateServers` of a client reads no alias that is NULL: the array of them is never NULL
-- here.
unfoldable pub aliases_readable : List Connection → List Address → Bool
unfolding alias_changes
aliases_readable (c ∷ cs) (a ∷ addresses) =
    let rest = aliases_readable cs addresses in
    elim a.alias [
      | none ↦ if c.has_alias then false else rest
      | some name ↦ if alias_changes c a then true else rest
    ]
aliases_readable _ _ = true

-- `shouldGrowUnsafe`.
abbrev pub should_grow_unsafe : {W : Type 0} → ClientPool W → Bool
should_grow_unsafe p = ltb (length p.clients) p.max_clients && p.lock_pool.locked

module _ {W : Type 0} (setting : Setting W) where
  abbrev build : Build W
  build = setting.build

  -- The options that have been saved, in their order.
  unfoldable pub config_saved :
      (ConfigOption → Option ℕ) → List ConfigOption → Client W → Option (Client W)
  config_saved saved [] c = some c
  config_saved saved (opt ∷ opts) c = do
    c' ← elim (saved opt) [
      | none ↦ some c
      | some val ↦ Client.config build.debug setting.hashes opt val c
    ]
    config_saved saved opts c'

  -- `setup`; its result is negated, as that of `init`.
  unfoldable pub setup : (ConfigOption → Option ℕ) → List Address → Client W → Option (ℕ × Client W)
  unfolding config_saved
  setup saved addresses c = do
    c' ← config_saved saved client_options c
    let (rv, p) =
        Setup.init build setting.formats setting.host_and_port setting.sort addresses c'.pool
    some (rv, record c' { pool = p })

  -- The loop of `growPool`: the new clients from the number `i` on, and the last result that is not 0.
  unfoldable pub new_clients :
      (ConfigOption → Option ℕ) → List Address → ℕ → ℕ → ℕ → Option (ℕ × List (IndexedClient W))
  unfolding setup
  new_clients saved addresses i zero rv = some (rv, [])
  new_clients saved addresses i (suc n) rv = do
    (err, c) ← setup saved addresses (new_client setting.world)
    (rv', cs) ← new_clients saved addresses (suc i) n (if not (err == 0) then err else rv)
    some (rv', record { c = c; index = i } ∷ cs)

  unfoldable pub grow_pool : ℕ → ClientPool W → Option (ℕ × ClientPool W)
  unfolding new_clients
  grow_pool by p = do
    debug_assert build.debug (ltb 0 by)
    (rv, cs) ← new_clients p.saved p.addresses (length p.clients) by 0
    some (rv, record p { clients = p.clients ++ cs; lock_pool = add_workers by p.lock_pool })

  -- `config` of each client.
  unfoldable pub config_clients :
      ConfigOption → ℕ → List (IndexedClient W) → Option (List (IndexedClient W))
  config_clients opt val [] = some []
  config_clients opt val (c ∷ cs) = do
    c' ← Client.config build.debug setting.hashes opt val c.c
    cs' ← config_clients opt val cs
    some (record c { c = c' } ∷ cs')

  abbrev grown : Option (ℕ × ClientPool W) → Option (ClientPool W)
  grown none = none
  grown (some (rv, p)) = some p

  abbrev config_initial : ℕ → ClientPool W → Option (ClientPool W)
  config_initial val p =
      let q : ClientPool W = record p {
        initial_clients = val;
        max_clients = if ltb p.max_clients val then val else p.max_clients;
      } in
      if ltb (length q.clients) val then grown (grow_pool val q) else some q

  unfoldable pub config_pool : ConfigOption → ℕ → ClientPool W → Option (ClientPool W)
  unfolding grow_pool
  config_pool ConfigOption.cfg_initial_clients val p = config_initial val p
  config_pool ConfigOption.cfg_max_clients val p = some (record p { max_clients = val })
  config_pool ConfigOption.cfg_max_growth val p = some (record p { max_growth = val })
  config_pool _ val p = some p

  unfoldable pub config : ConfigOption → ℕ → ClientPool W → Option (ClientPool W)
  unfolding config_clients config_pool
  config opt val p =
      if ltb (option_number opt) 6
      then (do
        cs ← config_clients opt val p.clients
        some (record p { saved = save opt val p.saved; clients = cs }))
      else config_pool opt val p

  -- The result of `updateServers` is the last of the clients' that is not 0.
  abbrev last_result : Updated → Updated → Updated
  last_result rv (Updated.updated zero) = rv
  last_result rv u = u

  unfoldable pub update_client : List Address → Pool W → Option (Updated × Pool W)
  unfolding aliases_readable
  update_client addresses p = do
    assert (if length p.conns == length addresses then aliases_readable p.conns addresses else true)
    Setup.update_servers build setting.host_and_port addresses p

  unfoldable pub update_clients :
      List Address → List (IndexedClient W) → Updated → Option (Updated × List (IndexedClient W))
  unfolding update_client
  update_clients addresses [] rv = some (rv, [])
  update_clients addresses (c ∷ cs) rv = do
    (err, p) ← update_client addresses c.c.pool
    (rv', cs') ← update_clients addresses cs (last_result rv err)
    some (rv', record c { c = record (c.c) { pool = p } } ∷ cs')

  unfoldable pub update_servers : List Address → ClientPool W → Option (Updated × ClientPool W)
  unfolding update_clients
  update_servers addresses p = do
    let stored = map duplicate addresses
    (rv, cs) ← update_clients stored p.clients (Updated.updated 0)
    some (rv, record p { addresses = stored; clients = cs })

  unfoldable pub init : List Address → ClientPool W → Option (ℕ × ClientPool W)
  unfolding grow_pool update_servers
  init addresses p = do (rv, q) ← update_servers addresses p; grow_pool q.initial_clients q

  unfoldable pub auto_grow : ClientPool W → Option (ℕ × ClientPool W)
  unfolding grow_pool
  auto_grow p =
      if should_grow_unsafe p
      then grow_pool (min (p.max_clients - length p.clients) (min p.max_growth (length p.clients)))
          p
      else some (0, p)

-- `_acquire`, up to the wait of `acquireWorker`: whether it starts a thread that runs `autoGrow`.
unfoldable pub acquire : {W : Type 0} → ℕ → ClientPool W → Bool × Begun
acquire i p = (should_grow_unsafe p, begin_acquire i p.lock_pool)

-- The client of a worker.
abbrev pub client_of : {W : Type 0} → ℕ → ClientPool W → Option (IndexedClient W)
client_of idx p = get_elem? p.clients idx

-- `_release`.
unfoldable pub release : {W : Type 0} → IndexedClient W → ClientPool W → ClientPool W
release c p = record p { lock_pool = release_worker c.index p.lock_pool }
