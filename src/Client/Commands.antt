-- ===== src/Client/Commands.antt =====
-- The client's commands.
use libmc.Prelude.{
  ℕ, Bool, true, false, not, List, [], ◌∷◌, Option, some, if◌then◌else◌, get_elem?, set, ◌>>=◌,
}
use libmc.Types.{OpCode, ErrCode}
use libmc.Keywords
use libmc.Connection.{Connection, System, mark_dead}
use libmc.Pool.State.{Pool, Build}
use libmc.Pool.Poll.{Poller}
use libmc.Pool.Wait.{wait_poll}
use libmc.Pool.Requests.{StorageItem}
use libmc.Pool.Setup.{broadcast_command}
use libmc.Pool.Dispatch.{
  dispatch_storage, dispatch_deletion, dispatch_touch, dispatch_retrieval, dispatch_incr_decr,
}
use libmc.Client.{
  Client, collect_retrieval_result, collect_message_result, collect_unsigned_result,
  collect_broadcast_result,
}

-- `markDeadAll(NULL, kCONN_QUIT)`, for the given connections.
unfoldable pub quit_from :
    {W : Type 0} → Bool → System W → List ℕ → List Connection → W → Option (List Connection × W)
quit_from debug sys [] cs w = some (cs, w)
quit_from debug sys (i ∷ is) cs w = do
  c ← get_elem? cs i
  (c', w') ← mark_dead debug sys true 0 c w
  quit_from debug sys is (set cs i c') w'

-- The poller has a fuel of its own for each parser; `fuel` is that of `waitPoll`.
module _ {W : Type 0} (poller : Poller W) (fuel : ℕ) where
  abbrev build : Build W
  build = poller.build

  -- What the commands share: the requests, `waitPoll`, and the results.
  unfoldable pub run :
      (Pool W → Option (Pool W))
      → (Client W → Option (Client W))
      → Client W
      → Option (ErrCode × Client W)
  run dispatch collect c = do
    p ← dispatch c.pool
    (rv, p') ← wait_poll poller fuel p
    c' ← collect (record c { pool = p' })
    some (rv, c')

  unfoldable pub get : List (List ℕ) → Client W → Option (ErrCode × Client W)
  unfolding run
  get keys =
      run (dispatch_retrieval build OpCode.get_op keys) (collect_retrieval_result build.debug)

  unfoldable pub gets : List (List ℕ) → Client W → Option (ErrCode × Client W)
  unfolding run
  gets keys =
      run (dispatch_retrieval build OpCode.gets_op keys) (collect_retrieval_result build.debug)

  -- `IMPL_STORAGE_CMD`: `set`, `add`, `replace`, `append`, `prepend` and `cas` by their operation.
  unfoldable pub store :
      OpCode → ℕ → Bool → List StorageItem → Client W → Option (ErrCode × Client W)
  unfolding run
  store op exptime noreply items =
      run (dispatch_storage build op exptime noreply items) (collect_message_result build.debug)

  unfoldable pub delete : Bool → List (List ℕ) → Client W → Option (ErrCode × Client W)
  unfolding run
  delete noreply keys =
      run (dispatch_deletion build noreply keys) (collect_message_result build.debug)

  unfoldable pub touch : ℕ → Bool → List (List ℕ) → Client W → Option (ErrCode × Client W)
  unfolding run
  touch exptime noreply keys =
      run (dispatch_touch build exptime noreply keys) (collect_message_result build.debug)

  unfoldable pub incr : ℕ → Bool → List ℕ → Client W → Option (ErrCode × Client W)
  unfolding run
  incr delta noreply key =
      run (dispatch_incr_decr build OpCode.incr_op delta noreply key)
        (collect_unsigned_result build.debug)

  unfoldable pub decr : ℕ → Bool → List ℕ → Client W → Option (ErrCode × Client W)
  unfolding run
  decr delta noreply key =
      run (dispatch_incr_decr build OpCode.decr_op delta noreply key)
        (collect_unsigned_result build.debug)

  abbrev broadcast : List ℕ → Bool → Pool W → Option (Pool W)
  broadcast cmd noreply p = some (broadcast_command build cmd noreply p)

  unfoldable pub version : Client W → Option (ErrCode × Client W)
  unfolding run
  version = run (broadcast Keywords.version false) (collect_broadcast_result build.debug false)

  unfoldable pub stats : Client W → Option (ErrCode × Client W)
  unfolding run
  stats = run (broadcast Keywords.stats false) (collect_broadcast_result build.debug false)

  -- Its results are none where it is not enabled.
  unfoldable pub flush_all : Client W → Option (ErrCode × Client W)
  unfolding run
  flush_all c =
      if not c.flush_all_enabled
      then some (ErrCode.programming_err, c)
      else run (broadcast Keywords.flush_all false) (collect_broadcast_result build.debug true) c

  unfoldable pub quit : Client W → Option (ErrCode × Client W)
  unfolding run quit_from
  quit = run (broadcast Keywords.quit true) (λ c. do
    (cs, w) ← quit_from build.debug build.system c.pool.active c.pool.conns c.pool.world
    some (record c { pool = record (c.pool) { conns = cs; world = w } }))
