-- ===== src/Tests/Clients.antt =====
-- A client and a pool of clients, and the theorems at them.
use libmc.Prelude.{
  ℕ, zero, suc, ◌<◌, ◌≡◌, ◌≤◌, refl, true, false, List, [], ◌∷◌, Option, none, some, All, length,
  get_elem?, arith, sym, ap,
}
use mathlib.Core.Option.{some-injective, none-ne-some}
use libmc.Types.{ErrCode}
use libmc.Utility.{is_valid_key}
use libmc.Connection.{new_connection}
use libmc.Pool.Poll.{Poller, PollAnswer}
use libmc.Pool.Setup.{Address}
use libmc.LockPool.{new_lock_pool}
use libmc.Client.{Client, ConfigOption, new_client, destroy_retrieval_result}
use libmc.Client.Commands
use libmc.Client.Refused.{AtRest, get-refused}
use libmc.ClientPool
use libmc.ClientPool.{
  ClientPool, IndexedClient, Setting, new_client_pool, setup, auto_grow, should_grow_unsafe,
}
use libmc.Client
use libmc.ClientPool.{
  save, option_number, config_clients, update_clients, grow_pool, new_clients, config_saved,
  acquire,
}
use libmc.ClientPool.Steps
use libmc.ClientPool.Steps.{Sharing, lock_view}
use libmc.ClientPool.Threads.{HasClient, Reach-HasClient}
use libmc.LockPool.Threads as LockThreads
use libmc.LockPool.Safety.{owned}
use libmc.LockPool.{begin_acquire, pop_worker, add_workers, unlock, numbers}
use libmc.Hashkit.Ketama
use libmc.Pool.Setup
use libmc.Pool.Setup.{new_pool}
use mathlib.Core.List.{Nodup}
use libmc.ClientPool.Settings.{AllFit, HasDefaults, setup-HasDefaults}
use libmc.ClientPool.Clients.{IsPool, Grown, auto_grow-Grown, config-Overgrown}
use libmc.Tests.Pool.{build}
use libmc.Tests.Servers.{two_servers, formats}
use libmc.Tests.Sorting.{sort}

abbrev poller : Poller ℕ
poller = record {
  build = build;
  min_capacity = 8;
  fuel = 9;
  poll = λ fds timeout w. (PollAnswer.poll_timeout, w);
}

-- A client with two servers.
abbrev client : Client ℕ
client = record (new_client 3) {
  pool = record {
    n_active = 0;
    n_invalid = 0;
    active = [];
    selector = two_servers;
    conns = new_connection ∷ new_connection ∷ [];
    poll_timeout = 300;
    world = 3;
  };
}

client-AtRest : AtRest client
client-AtRest =
    AtRest.at_rest two_servers (new_connection ∷ new_connection ∷ []) 300 3 false
      (record { no_count = refl; no_keys = refl }, (record { no_count = refl; no_keys = refl }, tt))

-- Two keys with a space.
abbrev bad_keys : List (List ℕ)
bad_keys = (107 ∷ 32 ∷ []) ∷ (32 ∷ []) ∷ []

get-refused_example :
    (c' : Client ℕ) × (Commands.get poller 5 bad_keys client ≡ some (ErrCode.invalid_key_err, c'))
    × (c'.out_retrieval ≡ [])
    × (destroy_retrieval_result c' ≡ some client)
unfolding is_valid_key
get-refused_example = get-refused poller 5 bad_keys client client-AtRest (refl, (refl, tt))

abbrev setting : Setting ℕ
setting = record {
  build = build;
  formats = formats;
  host_and_port = λ host port. port ∷ host;
  sort = sort;
  hashes = record { md5 = length; fnv1_32 = length; fnv1a_32 = length; crc_32 = length };
  world = 3;
}

-- CFG_RETRY_TIMEOUT has been set to 7, and CFG_POLL_TIMEOUT to 50.
abbrev saved : ConfigOption → Option ℕ
saved ConfigOption.cfg_retry_timeout = some 7
saved ConfigOption.cfg_poll_timeout = some 50
saved _ = none

saved-AllFit : AllFit saved
saved-AllFit ConfigOption.cfg_poll_timeout val e = tt
saved-AllFit ConfigOption.cfg_connect_timeout val e = tt
saved-AllFit ConfigOption.cfg_retry_timeout val e = tt
saved-AllFit ConfigOption.cfg_hash_function val e = absurd (none-ne-some val e)
saved-AllFit ConfigOption.cfg_max_retries val e = tt
saved-AllFit ConfigOption.cfg_set_failover val e = absurd (none-ne-some val e)
saved-AllFit ConfigOption.cfg_initial_clients val e = tt
saved-AllFit ConfigOption.cfg_max_clients val e = tt
saved-AllFit ConfigOption.cfg_max_growth val e = tt

abbrev addresses : List Address
addresses = record { host = 97 ∷ []; port = 11211; alias = none } ∷ []

setup-HasDefaults_example :
    (c : Client ℕ) × (setup setting saved addresses (new_client 3) ≡ some (1, c))
    × (length c.pool.conns ≡ 1)
    × All HasDefaults c.pool.conns
    × (c.pool.poll_timeout ≡ 50)
setup-HasDefaults_example = setup-HasDefaults setting saved addresses saved-AllFit

-- One client, which a thread has.
abbrev client_pool : ClientPool ℕ
client_pool = record (new_client_pool {W = ℕ}) {
  saved = saved;
  clients = record { c = client; index = 0 } ∷ [];
  addresses = addresses;
  lock_pool = record new_lock_pool { n_workers = 1 };
}

numbered : (j : ℕ) (c : IndexedClient ℕ) → get_elem? client_pool.clients j ≡ some c → c.index ≡ j
numbered zero c e =
    ap (λ (x : IndexedClient ℕ). x.index)
      (some-injective c (record { c = client; index = 0 }) (sym e))
numbered (suc j) c e = absurd (none-ne-some c e)

client_pool-IsPool : IsPool client_pool
client_pool-IsPool = record { workers = refl; numbered = numbered }

auto_grow-Grown_example :
    (rv n : ℕ) × (q : ClientPool ℕ) × (auto_grow setting client_pool ≡ some (rv, q))
    × Grown setting n client_pool q
    × (should_grow_unsafe client_pool ≡ true → (0 < n) × (n ≤ 1) × (length q.clients ≤ 4))
    × (should_grow_unsafe client_pool ≡ false → q ≡ client_pool)
auto_grow-Grown_example =
    auto_grow-Grown setting client_pool client_pool-IsPool saved-AllFit (omega arith) (omega arith)

config-Overgrown_example :
    (q : ClientPool ℕ) × (ClientPool.config setting ConfigOption.cfg_initial_clients 3 client_pool
      ≡ some q)
    × IsPool q
    × (q.initial_clients ≡ 3)
    × (length q.clients ≡ 4)
config-Overgrown_example =
    config-Overgrown setting 3 client_pool client_pool-IsPool saved-AllFit (omega arith)

-- CFG_POLL_TIMEOUT has been set to 50, then a pool without servers has been set up, then
-- CFG_MAX_CLIENTS has been set to 2, and the thread 1 has taken its client.
abbrev lone_client : IndexedClient ℕ
lone_client = record {
  c = record (new_client 3) {
    pool = record (new_pool 3) {
      selector = Ketama.add_servers formats build.hash_md5 sort [] (Ketama.reset Ketama.empty);
      poll_timeout = 50;
    };
  };
  index = 0;
}

abbrev lone_pool : ClientPool ℕ
lone_pool = record (new_client_pool {W = ℕ}) {
  saved = save ConfigOption.cfg_poll_timeout 50 (λ opt. none);
  clients = lone_client ∷ [];
  lock_pool = record new_lock_pool { n_workers = 1 };
  max_clients = 2;
}

abbrev taken : Sharing ℕ
taken = record { pool = lone_pool; held = (1, 0) ∷ [] }

taken-Reach : Steps.Reach setting taken
unfolding ClientPool.init ClientPool.update_servers update_clients grow_pool new_clients setup
    config_saved add_workers numbers unlock acquire begin_acquire pop_worker Setup.init
    ClientPool.config ClientPool.config_pool config_clients option_number save Client.config
    Client.config_pool
taken-Reach =
    let prepared =
      Steps.Prepared.configured Steps.Prepared.fresh ConfigOption.cfg_poll_timeout 50 _ tt refl in
    let begun = Steps.Reach.begin prepared [] 0 _ refl in
    let configured =
      Steps.Reach.later begun (Steps.Step.configure ConfigOption.cfg_max_clients 2 _ tt refl) in
    Steps.Reach.later configured (Steps.Step.take 1 0 false _ refl)

Reach-HasClient_example :
    LockThreads.Reach (lock_view taken)
    × All (HasClient lone_pool) taken.held
    × Nodup (owned (lock_view taken))
Reach-HasClient_example = Reach-HasClient setting taken taken-Reach
