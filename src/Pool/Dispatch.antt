-- ===== src/Pool/Dispatch.antt =====
-- The dispatches of a command over the connections.
use libmc.Prelude.{ℕ, ◌+◌, Bool, true, false, List, [], ◌∷◌, ◌++◌, Option, none, some, ◌>>=◌}
use libmc.Types.{OpCode, ParserMode}
use libmc.Utility.{is_valid_key}
use libmc.Connection.{set_parser_mode, request_key_count}
use libmc.Pool.State.{
  Pool, Build, get_conn, request_at, dispatch_items, activate, expect_replies, end_retrieval,
}
use libmc.Pool.Requests.{
  StorageItem, storage_request, deletion_request, touch_request, change_request, retrieval_request,
}

module _ {W : Type 0} (build : Build W) where
  unfoldable pub dispatch_storage : OpCode → ℕ → Bool → List StorageItem → Pool W → Option (Pool W)
  unfolding dispatch_items expect_replies
  dispatch_storage op exptime noreply items p = do
    p' ←
        dispatch_items build (λ (x : StorageItem). x.key)
          (storage_request build.print op exptime noreply) items p
    some (activate expect_replies p')

  unfoldable pub dispatch_deletion : Bool → List (List ℕ) → Pool W → Option (Pool W)
  unfolding dispatch_items expect_replies
  dispatch_deletion noreply keys p = do
    p' ← dispatch_items build (λ key. key) (deletion_request noreply) keys p
    some (activate expect_replies p')

  unfoldable pub dispatch_touch : ℕ → Bool → List (List ℕ) → Pool W → Option (Pool W)
  unfolding dispatch_items expect_replies
  dispatch_touch exptime noreply keys p = do
    p' ← dispatch_items build (λ key. key) (touch_request build.print exptime noreply) keys p
    some (activate expect_replies p')

  unfoldable pub dispatch_retrieval : OpCode → List (List ℕ) → Pool W → Option (Pool W)
  unfolding dispatch_items end_retrieval
  dispatch_retrieval op keys p = do
    p' ← dispatch_items build (λ key. key) (retrieval_request op) keys p
    some (activate end_retrieval p')

  unfoldable pub dispatch_incr_decr : OpCode → ℕ → Bool → List ℕ → Pool W → Option (Pool W)
  unfolding get_conn request_at
  dispatch_incr_decr op delta noreply key p = elim (is_valid_key key) [
    | false ↦ some (record p { n_invalid = p.n_invalid + 1 })
    | true ↦ do
      (it, p1) ← get_conn build key p
      elim it [
        | none ↦ some p1
        | some i ↦ do
          p2 ←
              request_at
                (λ c. do
                  c' ← change_request build.print op delta noreply key c
                  let c'' = set_parser_mode ParserMode.counting c'
                  some (record c'' { counter = request_key_count c'' }))
                i p1
          some (record p2 { n_active = p2.n_active + 1; active = p2.active ++ i ∷ [] })
      ]
  ]
