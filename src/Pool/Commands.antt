-- ===== src/Pool/Commands.antt =====
-- What the dispatches that count replies do to the connections.
use libmc.Prelude.{
  ℕ, ◌+◌, ◌≡◌, refl, ◌∙◌, true, false, Bool, List, [], ◌++◌, some, arith, length, get_elem?,
  get_elem?-map, length-map, if◌then◌else◌, length-append,
}
use libmc.Types.{OpCode}
use libmc.Keywords
use libmc.Connection.{Connection, take_buffer}
use libmc.Pool.State.{Pool, Build, activate, counted_from, expect_replies}
use libmc.Pool.Extends.{
  bytes_to_send, Extends, Extends-nil, Extends-trans, Ready, take_buffer-Extends,
  take_field-Extends, field, await_reply-Extends, count_request-Extends, reply_text, reply_keys,
}
use libmc.Pool.Requests.{
  StorageItem, storage_word, is_cas, storage_request, take_field, await_reply, count_request,
}
use libmc.Pool.Routes.{Route, share, gather, AreRoutes, refusals, IsPool}
use libmc.Pool.Shares.{
  Dispatched, dispatch_items-Dispatched, Dispatched-active, Awaits, expect_replies-Awaits,
  busy_from,
}
use libmc.Pool.Dispatch.{dispatch_storage}

-- The command has been dispatched: the items have gone by their routes, each connection has the
-- requests for its share and awaits their replies, and those with some are active.
pub record Complete {A W : Type 0} (key : A → List ℕ) (text : A → List ℕ)
    (replies : A → List (List ℕ)) (p p' : Pool W) (xs : List A) (rs : List Route) : Type 0 where
  pub routes : AreRoutes (length p.conns) key xs rs
  pub refused : p'.n_invalid ≡ p.n_invalid + refusals rs
  pub active : p'.active ≡ p.active ++ busy_from 0 p.conns (λ j. length (share j rs xs))
  pub each :
      (j : ℕ) (c : Connection)
      → get_elem? p.conns j ≡ some c
      → (c' : Connection) × (get_elem? p'.conns j ≡ some c')
        × Awaits
            (gather text (share j rs xs))
            (gather replies (share j rs xs))
            (length (share j rs xs))
            c
            c'
  pub same_length : length p'.conns ≡ length p.conns
  pub counted : p'.n_active ≡ length p'.active

pub activate-Complete :
    {A W : Type 0} (key : A → List ℕ) (text : A → List ℕ) (replies : A → List (List ℕ))
    (p q : Pool W) (xs : List A) (rs : List Route)
    → Dispatched bytes_to_send key text replies p q xs rs
    → Complete key text replies p (activate expect_replies q) xs rs
activate-Complete key text replies p q xs rs d = record {
  routes = d.routes;
  refused = d.refused;
  active = Dispatched-active p q xs rs d;
  each = λ j c e.
      let (c', f, x) = d.gets.each j c e in
      (
        expect_replies c',
        get_elem?-map expect_replies q.conns j c' f,
        expect_replies-Awaits c c' x,
      );
  same_length = length-map q.conns expect_replies ∙ d.gets.same_length;
  counted = omega (arith, d.pool.counted, length-append q.active (counted_from 0 q.conns));
}

-- "<word> <key> <flags> <exptime> <bytes>[ <cas unique>][ noreply]\r\n<value>\r\n".
abbrev pub storage_text : (ℕ → List ℕ) → List ℕ → OpCode → ℕ → Bool → StorageItem → List ℕ
storage_text print word op exptime noreply x =
    word
    ++ (x.key
        ++ (field print (x.flags)
            ++ (field print exptime
                ++ (field print (length x.value)
                    ++ ((if is_cas op then field print (x.cas_unique) else [])
                        ++ (reply_text noreply
                            ++ (Keywords.crlf ++ (x.value ++ Keywords.crlf))))))))

-- The steps behind the reply's key add no key.
pub no_keys :
    {t : List ℕ} {c d : Connection} (noreply : Bool) (key : List ℕ)
    → Extends t (reply_keys noreply key ++ []) 1 c d
    → Extends t (reply_keys noreply key) 1 c d
no_keys true key e = e
no_keys false key e = e

cas_field-Extends :
    (b : Bool) (print : ℕ → List ℕ) (n : ℕ) (c : Connection)
    → Ready c
    → Extends (if b then field print n else []) [] 0 c (if b then take_field print n c else c)
cas_field-Extends true print n c r = take_field-Extends print n c r
cas_field-Extends false print n c r = Extends-nil c r

storage_request-Extends :
    (print : ℕ → List ℕ) (op : OpCode) (word : List ℕ) (exptime : ℕ) (noreply : Bool)
    → storage_word op ≡ some word
    → (x : StorageItem) (c : Connection) → Ready c
    → (c' : Connection) × (storage_request print op exptime noreply x c ≡ some c')
      × Extends (storage_text print word op exptime noreply x) (reply_keys noreply (x.key)) 1 c c'
unfolding storage_request
storage_request-Extends print op word exptime noreply known x c r =
    let e1 = take_buffer-Extends word c r in
    let c1 = take_buffer word c in
    let e2 = take_buffer-Extends (x.key) c1 e1.ready in
    let c2 = take_buffer (x.key) c1 in
    let e3 = take_field-Extends print (x.flags) c2 e2.ready in
    let c3 = take_field print (x.flags) c2 in
    let e4 = take_field-Extends print exptime c3 e3.ready in
    let c4 = take_field print exptime c3 in
    let e5 = take_field-Extends print (length x.value) c4 e4.ready in
    let c5 = take_field print (length x.value) c4 in
    let e6 = cas_field-Extends (is_cas op) print (x.cas_unique) c5 e5.ready in
    let c6 = if is_cas op then take_field print (x.cas_unique) c5 else c5 in
    let e7 = await_reply-Extends noreply (x.key) c6 e6.ready in
    let e8 = count_request-Extends (await_reply noreply (x.key) c6) e7.ready in
    let c8 = count_request (await_reply noreply (x.key) c6) in
    let e9 = take_buffer-Extends Keywords.crlf c8 e8.ready in
    let c9 = take_buffer Keywords.crlf c8 in
    let e10 = take_buffer-Extends (x.value) c9 e9.ready in
    let c10 = take_buffer (x.value) c9 in
    let e11 = take_buffer-Extends Keywords.crlf c10 e10.ready in
    (
      take_buffer Keywords.crlf c10,
      rw known refl,
      no_keys noreply (x.key) (
          Extends-trans e1 (
            Extends-trans e2 (
              Extends-trans e3 (
                Extends-trans e4 (
                  Extends-trans e5 (
                    Extends-trans e6 (
                      Extends-trans e7
                        (Extends-trans e8 (Extends-trans e9 (Extends-trans e10 e11)))))))))),
    )

-- If a pool is valid, and the operation is one that stores, then `dispatchStorage` returns. Each item
-- has a route: it is refused exactly if its key is invalid, and then counted as such, or it goes to
-- one connection or to none. Each connection gets, behind what it had to send, the text of each item
-- that goes to it, in their order, and awaits the replies for their keys (none with noreply), as many
-- as its counter says; it counts replies if it has a request; and the connections with a request
-- become active.
pub dispatch_storage-Complete :
    {W : Type 0} (build : Build W) (op : OpCode) (word : List ℕ) (exptime : ℕ) (noreply : Bool)
    (items : List StorageItem) (p : Pool W)
    → storage_word op ≡ some word
    → IsPool p
    → (p' : Pool W) × (rs : List Route) × (dispatch_storage build op exptime noreply items p
        ≡ some p')
      × Complete
          (λ x. x.key)
          (storage_text build.print word op exptime noreply)
          (λ x. reply_keys noreply (x.key))
          p
          p'
          items
          rs
unfolding dispatch_storage
dispatch_storage-Complete build op word exptime noreply items p known v =
    let (q, rs, e, d) =
      dispatch_items-Dispatched build bytes_to_send (λ (x : StorageItem). x.key)
        (storage_request build.print op exptime noreply)
        (storage_text build.print word op exptime noreply) (λ x. reply_keys noreply (x.key))
        (storage_request-Extends build.print op word exptime noreply known) items p v in
    (activate expect_replies q, rs, rw e refl, activate-Complete _ _ _ p q items rs d)
