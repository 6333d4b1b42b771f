-- ===== src/Client.antt =====
-- src/Client.cpp and include/Client.h: the client, whose commands dispatch their requests to the
-- pool's connections, wait for the responses and collect the results. The lists of results hold what
-- their pointers point at. `none` is a failed assertion, or as in `waitPoll`.
pub mod Commands
pub mod Refused
use libmc.Prelude.{
  ℕ, ◌+◌, Bool, true, false, not, List, [], ◌∷◌, ◌++◌, Option, none, some, ◌==◌, ◌||◌,
  if◌then◌else◌, length, ◌>>=◌, ◌>>◌, assert,
}
use libmc.Types.{ErrCode}
use libmc.Hashkit.Ketama
use libmc.Hashkit.Ketama.{KetamaSelector}
use libmc.Connection.{set_connect_timeout, set_retry_timeout, set_max_retries}
use libmc.Result.{RetrievalView, MessageResult, UnsignedResult}
use libmc.Pool.State.{Pool, Build}
use libmc.Pool.Poll.{Poller}
use libmc.Pool.Setup.{new_pool, set_poll_timeout, for_each_conn}
use libmc.Pool.Collect
use libmc.Pool.Collect.{BroadcastResult}

-- The members behind those of `ConnectionPool`.
pub record Client (W : Type 0) : Type 0 where
  pub pool : Pool W
  pub out_retrieval : List RetrievalView
  pub out_message : List MessageResult
  pub out_broadcast : List BroadcastResult
  pub out_unsigned : List (Option UnsignedResult)
  pub flush_all_enabled : Bool

-- `Client()`.
abbrev pub new_client : {W : Type 0} → W → Client W
new_client w = record {
  pool = new_pool w;
  out_retrieval = [];
  out_message = [];
  out_broadcast = [];
  out_unsigned = [];
  flush_all_enabled = false;
}

-- `toggleFlushAllFeature`.
abbrev pub toggle_flush_all_feature : {W : Type 0} → Bool → Client W → Client W
toggle_flush_all_feature enabled c = record c { flush_all_enabled = enabled }

-- `config_options_t`, but for the separator.
pub data ConfigOption : Type 0 where
  cfg_poll_timeout cfg_connect_timeout cfg_retry_timeout cfg_hash_function : ConfigOption
  cfg_max_retries cfg_set_failover : ConfigOption
  cfg_initial_clients cfg_max_clients cfg_max_growth : ConfigOption

-- The hash functions of `hash_function_options_t`, in its order.
pub record HashFunctions : Type 0 where
  pub md5 : List ℕ → ℕ
  pub fnv1_32 : List ℕ → ℕ
  pub fnv1a_32 : List ℕ → ℕ
  pub crc_32 : List ℕ → ℕ

abbrev with_selector : {W : Type 0} → (KetamaSelector → KetamaSelector) → Pool W → Pool W
with_selector f p = record p { selector = f p.selector }

-- An assertion, which is only checked in a debug build.
abbrev pub debug_assert : Bool → Bool → Option (Unit {0})
debug_assert debug b = assert (not debug || b)

-- `ConnectionPool::setHashFunction`.
unfoldable pub set_hash_function :
    {W : Type 0} → Bool → HashFunctions → ℕ → Pool W → Option (Pool W)
set_hash_function debug hs fn_opt p =
    if fn_opt == 0
    then some (with_selector (Ketama.set_hash_function hs.md5) p)
    else if fn_opt == 1
    then some (with_selector (Ketama.set_hash_function hs.fnv1_32) p)
    else if fn_opt == 2
    then some (with_selector (Ketama.set_hash_function hs.fnv1a_32) p)
    else if fn_opt == 3
    then some (with_selector (Ketama.set_hash_function hs.crc_32) p)
    else (do debug_assert debug false; some p)

-- `config` of the pool that the client is.
unfoldable pub config_pool :
    {W : Type 0} → Bool → HashFunctions → ConfigOption → ℕ → Pool W → Option (Pool W)
unfolding set_hash_function
config_pool debug hs ConfigOption.cfg_poll_timeout val p = some (set_poll_timeout val p)
config_pool debug hs ConfigOption.cfg_connect_timeout val p =
    some (for_each_conn (set_connect_timeout val) p)
config_pool debug hs ConfigOption.cfg_retry_timeout val p =
    some (for_each_conn (set_retry_timeout val) p)
config_pool debug hs ConfigOption.cfg_hash_function val p = set_hash_function debug hs val p
config_pool debug hs ConfigOption.cfg_max_retries val p =
    some (for_each_conn (set_max_retries val) p)
config_pool debug hs ConfigOption.cfg_set_failover val p = do
  debug_assert debug (val == 0 || val == 1)
  some (with_selector (if val == 0 then Ketama.disable_failover else Ketama.enable_failover) p)
config_pool debug hs _ val p = some p

unfoldable pub config :
    {W : Type 0} → Bool → HashFunctions → ConfigOption → ℕ → Client W → Option (Client W)
unfolding config_pool
config debug hs opt val c = do p ← config_pool debug hs opt val c.pool; some (record c { pool = p })

-- `empty()`.
abbrev pub is_empty {ℓ} : {A : Type ℓ} → List A → Bool
is_empty [] = true
is_empty (x ∷ xs) = false

-- `collectRetrievalResult`, and below the others: what they give is the list of results.
unfoldable pub collect_retrieval_result : {W : Type 0} → Bool → Client W → Option (Client W)
collect_retrieval_result debug c = do
  debug_assert debug (is_empty c.out_retrieval)
  (views, p) ← Collect.collect_retrieval_result c.pool
  some (record c { pool = p; out_retrieval = c.out_retrieval ++ views })

unfoldable pub collect_message_result : {W : Type 0} → Bool → Client W → Option (Client W)
collect_message_result debug c = do
  debug_assert debug (is_empty c.out_message)
  messages ← Collect.collect_message_result c.pool
  some (record c { out_message = c.out_message ++ messages })

unfoldable pub collect_unsigned_result : {W : Type 0} → Bool → Client W → Option (Client W)
collect_unsigned_result debug c = do
  debug_assert debug (is_empty c.out_unsigned)
  numbers ← Collect.collect_unsigned_result c.pool
  some (record c { out_unsigned = c.out_unsigned ++ numbers })

-- A client without servers has no first result to point at.
unfoldable pub collect_broadcast_result : {W : Type 0} → Bool → Bool → Client W → Option (Client W)
collect_broadcast_result debug is_flush_all c = do
  debug_assert debug (is_empty c.out_broadcast)
  (results, conns) ← Collect.collect_broadcast_of is_flush_all c.pool.conns
  assert (not (is_empty results))
  some (record c { pool = record (c.pool) { conns = conns }; out_broadcast = results })

-- `destroyRetrievalResult`, and below the others.
unfoldable pub destroy_retrieval_result : {W : Type 0} → Client W → Option (Client W)
destroy_retrieval_result c = do
  p ← Collect.reset c.pool
  some (record c { pool = p; out_retrieval = [] })

unfoldable pub destroy_message_result : {W : Type 0} → Client W → Option (Client W)
destroy_message_result c = do
  p ← Collect.reset c.pool
  some (record c { pool = p; out_message = [] })

unfoldable pub destroy_unsigned_result : {W : Type 0} → Client W → Option (Client W)
destroy_unsigned_result c = do
  p ← Collect.reset c.pool
  some (record c { pool = p; out_unsigned = [] })

unfoldable pub destroy_broadcast_result : {W : Type 0} → Client W → Option (Client W)
destroy_broadcast_result c = do
  p ← Collect.reset c.pool
  some (record c { pool = p; out_broadcast = [] })
