-- ===== src/Tests/Pool.antt =====
-- A pool of two connections, and the theorems on the dispatches at it.
use libmc.Prelude.{
  arith, ℕ, zero, suc, ◌+◌, ◌≡◌, refl, sym, ap, subst, true, false, List, [], ◌∷◌, some, none,
  Option, get_elem?, inl,
}
use mathlib.Core.Option.{some-injective, none-ne-some}
use libmc.Types.{OpCode}
use libmc.Keywords
use libmc.Connection.{Connection, System, new_connection}
use libmc.Pool.State.{Pool, Build}
use libmc.Pool.Requests.{StorageItem, storage_word, retrieval_word}
use libmc.Hashkit.Ketama.{ContinuumItem, select_it}
use libmc.Hashkit.Ketama.Alive.{Chosen}
use libmc.Pool.Alive.{alive_at, get_conn-Chosen}
use libmc.Pool.State.{get_conn}
use libmc.Pool.Extends.{Ready, reply_keys}
use libmc.Pool.Routes.{Route, IsPool}
use libmc.Pool.Commands.{Complete, storage_text, dispatch_storage-Complete}
use libmc.Pool.Retrievals.{Retrieving, dispatch_retrieval-Retrieving}
use libmc.Pool.Changes.{Changed, change_text, dispatch_incr_decr-Changed}
use libmc.Pool.KeyCommands.{deletion_text, touch_text, key_commands-Complete}
use libmc.Pool.Dispatch.{dispatch_incr_decr}
use libmc.Pool.Requests.{change_word}
use libmc.Pool.Dispatch.{dispatch_storage, dispatch_deletion, dispatch_touch, dispatch_retrieval}
use libmc.Tests.Servers.{two_servers, two_servers-IsValid}

-- Time does not pass, each connection gets a socket, and nothing can be sent or received.
abbrev system : System ℕ
system = record {
  time = λ w. (7, w);
  open_socket = λ c w. (some (w + 1), w + 1);
  sendmsg = λ fd pieces more w. (none, w);
  recv = λ fd n peek w. (none, w);
}

abbrev pub build : Build ℕ
build = record { debug = true; system = system; hash_md5 = λ key. 1; print = λ n. (48 + n) ∷ [] }

abbrev pool : Pool ℕ
pool = record {
  n_active = 0;
  n_invalid = 0;
  active = [];
  selector = two_servers;
  conns = new_connection ∷ new_connection ∷ [];
  poll_timeout = 300;
  world = 3;
}

new_connection-Ready : Ready new_connection
new_connection-Ready = record { valid = record { counts = refl; kept = inl refl }; uncut = refl }

pool-Ready : (j : ℕ) (c : Connection) → get_elem? pool.conns j ≡ some c → Ready c
pool-Ready zero c e = subst Ready (some-injective new_connection c e) new_connection-Ready
pool-Ready (suc zero) c e = subst Ready (some-injective new_connection c e) new_connection-Ready
pool-Ready (suc (suc j)) c e = absurd (none-ne-some c e)

pool-IsPool : IsPool pool
pool-IsPool = record {
  selector = two_servers-IsValid;
  servers = refl;
  counted = refl;
  ready = pool-Ready;
}

-- A good key, and one with a space.
abbrev items : List StorageItem
items =
    record { key = b'k' ∷ []; flags = 1; value = b'x' ∷ []; cas_unique = 5 }
    ∷ record { key = b'a' ∷ 32 ∷ []; flags = 0; value = []; cas_unique = 0 }
    ∷ []

dispatch_storage-Complete_example :
    (p' : Pool ℕ) × (rs : List Route) × (dispatch_storage build OpCode.cas_op 9 false items pool
      ≡ some p')
    × Complete
        (λ (x : StorageItem). x.key)
        (storage_text build.print Keywords.cas_ OpCode.cas_op 9 false)
        (λ x. reply_keys false (x.key))
        pool
        p'
        items
        rs
unfolding storage_word
dispatch_storage-Complete_example =
    dispatch_storage-Complete build OpCode.cas_op Keywords.cas_ 9 false items pool refl pool-IsPool

abbrev keys : List (List ℕ)
keys = (b'k' ∷ []) ∷ (32 ∷ []) ∷ (b'a' ∷ b'b' ∷ []) ∷ []

key_commands-Complete_example :
    ((p' : Pool ℕ) × (rs : List Route) × (dispatch_deletion build false keys pool ≡ some p')
      × Complete (λ key. key) (deletion_text false) (reply_keys false) pool p' keys rs)
    × ((p' : Pool ℕ) × (rs : List Route) × (dispatch_touch build 60 false keys pool ≡ some p')
        × Complete
            (λ key. key)
            (touch_text build.print 60 false)
            (reply_keys false)
            pool
            p'
            keys
            rs)
key_commands-Complete_example = key_commands-Complete build 60 false keys pool pool-IsPool

-- No connection of the pool counts a request.
pool-counts : (j : ℕ) (c : Connection) → get_elem? pool.conns j ≡ some c → c.counter ≡ 0
pool-counts zero c e = ap (λ (x : Connection). x.counter) (sym (some-injective new_connection c e))
pool-counts (suc zero) c e =
    ap (λ (x : Connection). x.counter) (sym (some-injective new_connection c e))
pool-counts (suc (suc j)) c e = absurd (none-ne-some c e)

dispatch_retrieval-Retrieving_example :
    (p' : Pool ℕ) × (rs : List Route) × (dispatch_retrieval build OpCode.gets_op keys pool
      ≡ some p')
    × Retrieving Keywords.gets pool p' keys rs
unfolding retrieval_word
dispatch_retrieval-Retrieving_example =
    dispatch_retrieval-Retrieving build OpCode.gets_op Keywords.gets keys pool refl pool-IsPool
      pool-counts

dispatch_incr_decr-Changed_example :
    (p' : Pool ℕ) × (r : Route) × (dispatch_incr_decr build OpCode.decr_op 5 false (b'k' ∷ []) pool
      ≡ some p')
    × Changed
        (change_text build.print Keywords.decr_ 5 false (b'k' ∷ []))
        (reply_keys false (b'k' ∷ []))
        (b'k' ∷ [])
        pool
        p'
        r
unfolding change_word
dispatch_incr_decr-Changed_example =
    dispatch_incr_decr-Changed build OpCode.decr_op Keywords.decr_ 5 false (b'k' ∷ []) pool refl
      pool-IsPool

-- The connection 1, of the point that "k" selects, may not be tried before the time 100.
abbrev backing_off : Pool ℕ
backing_off = record pool {
  conns = new_connection ∷ record new_connection { dead_until = 100 } ∷ [];
}

get_conn-Chosen_example :
    (x : ContinuumItem) × (it : Option ℕ) × (p' : Pool ℕ) × (get_elem? two_servers.continuum
        (select_it build.hash_md5 (b'k' ∷ []) two_servers).0
      ≡ some x)
    × (get_conn build (b'k' ∷ []) backing_off ≡ some (it, p'))
    × Chosen alive_at two_servers.continuum true x.conn_idx it (p'.conns, p'.world)
get_conn-Chosen_example =
    get_conn-Chosen build (b'k' ∷ []) backing_off two_servers-IsValid (omega arith)
