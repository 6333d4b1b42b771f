-- ===== src/Client/Refused.antt =====
-- Commands on a client that is at rest, with keys that it refuses.
use libmc.Prelude.{
  ℕ, suc, ◌+◌, ◌≡◌, refl, sym, ap, ◌∙◌, Bool, true, false, List, [], ◌∷◌, Option, some,
  if◌then◌else◌, ltb, length, map, All, arith,
}
use libmc.Types.{OpCode, ErrCode}
use libmc.Utility.{is_valid_key}
use libmc.Hashkit.Ketama.{KetamaSelector}
use libmc.Connection.{Connection}
use libmc.Pool.State.{
  Pool, Build, dispatch_items, dispatch_one, activate, expect_replies, end_retrieval, counted_from,
}
use libmc.Pool.Poll.{Poller}
use libmc.Pool.Requests.{StorageItem, storage_request, retrieval_request}
use libmc.Pool.Wait.{wait_poll}
use libmc.Pool.Dispatch.{dispatch_retrieval, dispatch_storage}
use libmc.Pool.Collect
use libmc.Client.{
  Client, collect_retrieval_result, collect_message_result, destroy_retrieval_result,
  destroy_message_result, debug_assert,
}
use libmc.Client.Commands
use libmc.Client.Commands.{run}

-- A connection that awaits no reply.
pub record IsQuiet (c : Connection) : Type 0 where
  pub no_count : c.counter ≡ 0
  pub no_keys : c.parser.request_keys ≡ []

-- A client between two commands: all results have been destroyed.
pub data AtRest {W : Type 0} : Client W → Type 0 where
  at_rest :
      (selector : KetamaSelector) (conns : List Connection) (timeout : ℕ) (world : W) (flush : Bool)
      → All IsQuiet conns
      → AtRest (record {
        pool = record {
          n_active = 0;
          n_invalid = 0;
          active = [];
          selector = selector;
          conns = conns;
          poll_timeout = timeout;
          world = world;
        };
        out_retrieval = [];
        out_message = [];
        out_broadcast = [];
        out_unsigned = [];
        flush_all_enabled = flush;
      })

-- Keys that are not valid are only counted.
dispatch_items-refused :
    {W A : Type 0} (build : Build W) (key : A → List ℕ)
    (request : A → Connection → Option Connection) (xs : List A) (p : Pool W)
    → All (λ x. is_valid_key (key x) ≡ false) xs
    → dispatch_items build key request xs p
      ≡ some (record p { n_invalid = p.n_invalid + length xs })
unfolding dispatch_items dispatch_one
dispatch_items-refused build key request [] p h =
    let e : p.n_invalid + 0 ≡ p.n_invalid = omega arith in
    ap (λ n. some (record p { n_invalid = n })) (sym e)
dispatch_items-refused build key request (x ∷ xs) p h =
    let e : (p.n_invalid + 1) + length xs ≡ p.n_invalid + suc (length xs) = omega arith in
    rw (h.0) (
      dispatch_items-refused build key request xs (record p { n_invalid = p.n_invalid + 1 }) h.1
      ∙ ap (λ n. some (record p { n_invalid = n })) e)

counted_from-quiet : (i : ℕ) (cs : List Connection) → All IsQuiet cs → counted_from i cs ≡ []
unfolding counted_from
counted_from-quiet i [] h = refl
counted_from-quiet i (c ∷ cs) h = rw (h.0.no_count) (counted_from-quiet (suc i) cs h.1)

-- The last loops of the dispatches leave a connection that awaits no reply.
expect_replies-quiet : (c : Connection) → IsQuiet c → expect_replies c ≡ c
unfolding expect_replies
expect_replies-quiet c h =
    let idle : ltb 0 c.counter ≡ false = ap (ltb 0) (h.no_count) in
    rw idle (ap (λ n. record c { counter = n }) (ap length (h.no_keys) ∙ sym (h.no_count)))

end_retrieval-quiet : (c : Connection) → IsQuiet c → end_retrieval c ≡ c
unfolding end_retrieval
end_retrieval-quiet c h = rw (h.no_count) refl

map-quiet :
    (f : Connection → Connection) (cs : List Connection)
    → ((c : Connection) → IsQuiet c → f c ≡ c)
    → All IsQuiet cs
    → map f cs ≡ cs
map-quiet f [] same h = refl
map-quiet f (c ∷ cs) same h = rw (same c h.0, map-quiet f cs same h.1) refl

-- What `waitPoll` gives if no request has been sent.
abbrev pub unsent : ℕ → ErrCode
unsent n = if ltb 0 n then ErrCode.invalid_key_err else ErrCode.mc_server_err

-- A pool at rest but for the number of refused keys.
abbrev pool_with : {W : Type 0} → ℕ → KetamaSelector → List Connection → ℕ → W → Pool W
pool_with n s cs t w = record {
  n_active = 0;
  n_invalid = n;
  active = [];
  selector = s;
  conns = cs;
  poll_timeout = t;
  world = w;
}

activate-quiet :
    {W : Type 0} (f : Connection → Connection) (n : ℕ) (s : KetamaSelector) (cs : List Connection)
    (t : ℕ) (w : W)
    → ((c : Connection) → IsQuiet c → f c ≡ c)
    → All IsQuiet cs
    → activate f (pool_with n s cs t w) ≡ pool_with n s cs t w
activate-quiet f n s cs t w same h = rw (counted_from-quiet 0 cs h, map-quiet f cs same h) refl

dispatch_items-rest :
    {W A : Type 0} (build : Build W) (key : A → List ℕ)
    (request : A → Connection → Option Connection) (xs : List A) (s : KetamaSelector)
    (cs : List Connection) (t : ℕ) (w : W)
    → All (λ x. is_valid_key (key x) ≡ false) xs
    → dispatch_items build key request xs (pool_with 0 s cs t w)
      ≡ some (pool_with (length xs) s cs t w)
dispatch_items-rest build key request xs s cs t w h =
    let e : 0 + length xs ≡ length xs = omega arith in
    dispatch_items-refused build key request xs (pool_with 0 s cs t w) h
    ∙ ap (λ n. some (pool_with n s cs t w)) e

wait_poll-unsent :
    {W : Type 0} (poller : Poller W) (fuel n : ℕ) (s : KetamaSelector) (cs : List Connection)
    (t : ℕ) (w : W)
    → wait_poll poller fuel (pool_with n s cs t w) ≡ some (unsent n, pool_with n s cs t w)
unfolding wait_poll
wait_poll-unsent poller fuel n s cs t w = refl

abbrev client_with : {W : Type 0} → ℕ → KetamaSelector → List Connection → ℕ → W → Bool → Client W
client_with n s cs t w f = record {
  pool = pool_with n s cs t w;
  out_retrieval = [];
  out_message = [];
  out_broadcast = [];
  out_unsigned = [];
  flush_all_enabled = f;
}

debug_assert-true : (debug : Bool) → debug_assert debug true ≡ some tt
debug_assert-true true = refl
debug_assert-true false = refl

-- A client at rest runs a command of which all items are refused.
run-unsent :
    {W : Type 0} (poller : Poller W) (fuel n : ℕ) (dispatch : Pool W → Option (Pool W))
    (collect : Client W → Option (Client W)) (s : KetamaSelector) (cs : List Connection) (t : ℕ)
    (w : W) (f : Bool)
    → dispatch (pool_with 0 s cs t w) ≡ some (pool_with n s cs t w)
    → collect (client_with n s cs t w f) ≡ some (client_with n s cs t w f)
    → run poller fuel dispatch collect (client_with 0 s cs t w f)
      ≡ some (unsent n, client_with n s cs t w f)
unfolding run
run-unsent poller fuel n dispatch collect s cs t w f d e =
    rw (d, wait_poll-unsent poller fuel n s cs t w, e) refl

module _ {W : Type 0} (build : Build W) (s : KetamaSelector) (cs : List Connection) (t : ℕ) (w : W)
    (f : Bool) (h : All IsQuiet cs) where
  dispatch_retrieval-refused :
      (op : OpCode) (keys : List (List ℕ))
      → All (λ key. is_valid_key key ≡ false) keys
      → dispatch_retrieval build op keys (pool_with 0 s cs t w)
        ≡ some (pool_with (length keys) s cs t w)
  unfolding dispatch_retrieval
  dispatch_retrieval-refused op keys k =
      rw (dispatch_items-rest build (λ key. key) (retrieval_request op) keys s cs t w k)
        (ap some (activate-quiet end_retrieval (length keys) s cs t w end_retrieval-quiet h))

  dispatch_storage-refused :
      (op : OpCode) (exptime : ℕ) (noreply : Bool) (items : List StorageItem)
      → All (λ (x : StorageItem). is_valid_key x.key ≡ false) items
      → dispatch_storage build op exptime noreply items (pool_with 0 s cs t w)
        ≡ some (pool_with (length items) s cs t w)
  unfolding dispatch_storage
  dispatch_storage-refused op exptime noreply items k =
      rw
        (dispatch_items-rest build (λ (x : StorageItem). x.key)
          (storage_request build.print op exptime noreply) items s cs t w k)
        (ap some (activate-quiet expect_replies (length items) s cs t w expect_replies-quiet h))

  collect_retrieval_result-none :
      (n : ℕ)
      → collect_retrieval_result build.debug (client_with n s cs t w f)
        ≡ some (client_with n s cs t w f)
  unfolding collect_retrieval_result Collect.collect_retrieval_result
  collect_retrieval_result-none n = rw (debug_assert-true build.debug) refl

  collect_message_result-none :
      (n : ℕ)
      → collect_message_result build.debug (client_with n s cs t w f)
        ≡ some (client_with n s cs t w f)
  unfolding collect_message_result Collect.collect_message_of
  collect_message_result-none n = rw (debug_assert-true build.debug) refl

-- If the client is at rest and all keys of a `get` are refused, it gives no result, and
-- RET_INVALID_KEY_ERR, or RET_MC_SERVER_ERR if there is no key; once the result is destroyed the
-- client is as before.
pub get-refused :
    {W : Type 0} (poller : Poller W) (fuel : ℕ) (keys : List (List ℕ)) (c : Client W)
    → AtRest c
    → All (λ key. is_valid_key key ≡ false) keys
    → (c' : Client W) × (Commands.get poller fuel keys c ≡ some (unsent (length keys), c'))
      × (c'.out_retrieval ≡ [])
      × (destroy_retrieval_result c' ≡ some c)
unfolding Commands.get destroy_retrieval_result Collect.reset
get-refused poller fuel keys c (at_rest s cs t w f h) k = (
  client_with (length keys) s cs t w f,
  run-unsent poller fuel (length keys) (dispatch_retrieval poller.build OpCode.get_op keys)
      (collect_retrieval_result poller.build.debug) s cs t w f
      (dispatch_retrieval-refused poller.build s cs t w f h OpCode.get_op keys k)
      (collect_retrieval_result-none poller.build s cs t w f h (length keys)),
  refl,
  refl,
)

-- If the client is at rest and all keys of a storage command are refused, it gives no result, and
-- RET_INVALID_KEY_ERR, or RET_MC_SERVER_ERR if there is no item; once the result is destroyed the
-- client is as before.
pub store-refused :
    {W : Type 0} (poller : Poller W) (fuel : ℕ) (op : OpCode) (exptime : ℕ) (noreply : Bool)
    (items : List StorageItem) (c : Client W)
    → AtRest c
    → All (λ (x : StorageItem). is_valid_key x.key ≡ false) items
    → (c' : Client W) × (Commands.store poller fuel op exptime noreply items c
        ≡ some (unsent (length items), c'))
      × (c'.out_message ≡ [])
      × (destroy_message_result c' ≡ some c)
unfolding Commands.store destroy_message_result Collect.reset
store-refused poller fuel op exptime noreply items c (at_rest s cs t w f h) k = (
  client_with (length items) s cs t w f,
  run-unsent poller fuel (length items) (dispatch_storage poller.build op exptime noreply items)
      (collect_message_result poller.build.debug) s cs t w f
      (dispatch_storage-refused poller.build s cs t w f h op exptime noreply items k)
      (collect_message_result-none poller.build s cs t w f h (length items)),
  refl,
  refl,
)
