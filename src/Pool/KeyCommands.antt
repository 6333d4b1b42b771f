-- ===== src/Pool/KeyCommands.antt =====
-- The dispatches of `delete` and `touch`, whose items are keys.
use libmc.Prelude.{ℕ, ◌≡◌, refl, Bool, List, ◌++◌, some}
use libmc.Keywords
use libmc.Connection.{Connection, take_buffer}
use libmc.Pool.State.{Pool, Build, activate, expect_replies}
use libmc.Pool.Extends.{
  bytes_to_send, Extends, Extends-trans, Ready, take_buffer-Extends, take_field-Extends, field,
  await_reply-Extends, count_request-Extends, reply_text, reply_keys,
}
use libmc.Pool.Requests.{deletion_request, touch_request, take_field, await_reply, count_request}
use libmc.Pool.Routes.{Route, IsPool}
use libmc.Pool.Shares.{dispatch_items-Dispatched}
use libmc.Pool.Commands.{Complete, activate-Complete, no_keys}
use libmc.Pool.Dispatch.{dispatch_deletion, dispatch_touch}

-- "delete <key>[ noreply]\r\n".
abbrev pub deletion_text : Bool → List ℕ → List ℕ
deletion_text noreply key = Keywords.delete_ ++ (key ++ (reply_text noreply ++ Keywords.crlf))

deletion_request-Extends :
    (noreply : Bool) (key : List ℕ) (c : Connection)
    → Ready c
    → (c' : Connection) × (deletion_request noreply key c ≡ some c')
      × Extends (deletion_text noreply key) (reply_keys noreply key) 1 c c'
unfolding deletion_request
deletion_request-Extends noreply key c r =
    let e1 = take_buffer-Extends Keywords.delete_ c r in
    let c1 = take_buffer Keywords.delete_ c in
    let e2 = take_buffer-Extends key c1 e1.ready in
    let c2 = take_buffer key c1 in
    let e3 = await_reply-Extends noreply key c2 e2.ready in
    let e4 = count_request-Extends (await_reply noreply key c2) e3.ready in
    let c4 = count_request (await_reply noreply key c2) in
    let e5 = take_buffer-Extends Keywords.crlf c4 e4.ready in
    (
      take_buffer Keywords.crlf c4,
      refl,
      no_keys noreply key
          (Extends-trans e1 (Extends-trans e2 (Extends-trans e3 (Extends-trans e4 e5)))),
    )

dispatch_deletion-Complete :
    {W : Type 0} (build : Build W) (noreply : Bool) (keys : List (List ℕ)) (p : Pool W)
    → IsPool p
    → (p' : Pool W) × (rs : List Route) × (dispatch_deletion build noreply keys p ≡ some p')
      × Complete (λ key. key) (deletion_text noreply) (reply_keys noreply) p p' keys rs
unfolding dispatch_deletion
dispatch_deletion-Complete build noreply keys p v =
    let (q, rs, e, d) =
      dispatch_items-Dispatched build bytes_to_send (λ key. key) (deletion_request noreply)
        (deletion_text noreply) (reply_keys noreply) (deletion_request-Extends noreply) keys p v in
    (activate expect_replies q, rs, rw e refl, activate-Complete _ _ _ p q keys rs d)

-- "touch <key> <exptime>[ noreply]\r\n".
abbrev pub touch_text : (ℕ → List ℕ) → ℕ → Bool → List ℕ → List ℕ
touch_text print exptime noreply key =
    Keywords.touch_ ++ (key ++ (field print exptime ++ (reply_text noreply ++ Keywords.crlf)))

touch_request-Extends :
    (print : ℕ → List ℕ) (exptime : ℕ) (noreply : Bool) (key : List ℕ) (c : Connection)
    → Ready c
    → (c' : Connection) × (touch_request print exptime noreply key c ≡ some c')
      × Extends (touch_text print exptime noreply key) (reply_keys noreply key) 1 c c'
unfolding touch_request
touch_request-Extends print exptime noreply key c r =
    let e1 = take_buffer-Extends Keywords.touch_ c r in
    let c1 = take_buffer Keywords.touch_ c in
    let e2 = take_buffer-Extends key c1 e1.ready in
    let c2 = take_buffer key c1 in
    let e3 = take_field-Extends print exptime c2 e2.ready in
    let c3 = take_field print exptime c2 in
    let e4 = await_reply-Extends noreply key c3 e3.ready in
    let e5 = count_request-Extends (await_reply noreply key c3) e4.ready in
    let c5 = count_request (await_reply noreply key c3) in
    let e6 = take_buffer-Extends Keywords.crlf c5 e5.ready in
    (
      take_buffer Keywords.crlf c5,
      refl,
      no_keys noreply key (
          Extends-trans e1
            (Extends-trans e2 (Extends-trans e3 (Extends-trans e4 (Extends-trans e5 e6))))),
    )

dispatch_touch-Complete :
    {W : Type 0} (build : Build W) (exptime : ℕ) (noreply : Bool) (keys : List (List ℕ))
    (p : Pool W)
    → IsPool p
    → (p' : Pool W) × (rs : List Route) × (dispatch_touch build exptime noreply keys p ≡ some p')
      × Complete
          (λ key. key)
          (touch_text build.print exptime noreply)
          (reply_keys noreply)
          p
          p'
          keys
          rs
unfolding dispatch_touch
dispatch_touch-Complete build exptime noreply keys p v =
    let (q, rs, e, d) =
      dispatch_items-Dispatched build bytes_to_send (λ key. key)
        (touch_request build.print exptime noreply) (touch_text build.print exptime noreply)
        (reply_keys noreply) (touch_request-Extends build.print exptime noreply) keys p v in
    (activate expect_replies q, rs, rw e refl, activate-Complete _ _ _ p q keys rs d)

-- If a pool is valid, then `dispatchDeletion` returns, and each key has a route: it is refused exactly
-- if it is invalid, and then counted as such, or it goes to one connection or to none. Each connection
-- gets, behind what it had to send, the "delete" of each key that goes to it, in their order, and
-- awaits the replies for them (none with noreply), as many as its counter says; it counts replies if
-- it has a request; and the connections with a request become active. `dispatchTouch` does the same
-- with the "touch" and the expiry time of each key.
pub key_commands-Complete :
    {W : Type 0} (build : Build W) (exptime : ℕ) (noreply : Bool) (keys : List (List ℕ))
    (p : Pool W)
    → IsPool p
    → ((p' : Pool W) × (rs : List Route) × (dispatch_deletion build noreply keys p ≡ some p')
        × Complete (λ key. key) (deletion_text noreply) (reply_keys noreply) p p' keys rs)
      × ((p' : Pool W) × (rs : List Route) × (dispatch_touch build exptime noreply keys p ≡ some p')
          × Complete
              (λ key. key)
              (touch_text build.print exptime noreply)
              (reply_keys noreply)
              p
              p'
              keys
              rs)
key_commands-Complete build exptime noreply keys p v = (
  dispatch_deletion-Complete build noreply keys p v,
  dispatch_touch-Complete build exptime noreply keys p v,
)
