-- ===== src/Pool/Changes.antt =====
-- The dispatch of `incr` and `decr`, of one key.
use mathlib.Core.Option.{some-injective}
use libmc.Prelude.{
  ℕ, ◌+◌, ◌<◌, ◌≡◌, refl, sym, ap, ◌∙◌, subst, true, inl, inr, Bool, List, [], ◌∷◌, ◌++◌, Option,
  none, some, arith, length, get_elem?, set, get_elem?-set_self, get_elem?-set_ne, get_elem?-some,
  Bool-cases, ◌==◌, length-append, append-nil,
}
use libmc.Types.{OpCode, ParserMode}
use libmc.Utility.{is_valid_key}
use libmc.Keywords
use libmc.Connection.{Connection, take_buffer, set_parser_mode, request_key_count}
use libmc.Hashkit.Ketama.Keeps.{IsChoice}
use libmc.Pool.State.{Pool, Build, get_conn, request_at}
use libmc.Pool.Kept.{SameEach, get_conn-SameEach}
use libmc.Pool.Extends.{
  Extends, Extends-nil, Extends-trans, Ready, take_buffer-Extends, take_field-Extends, field,
  await_reply-Extends, count_request-Extends, reply_text, reply_keys,
}
use libmc.Pool.Requests.{change_word, change_request, take_field, await_reply, count_request}
use libmc.Pool.Routes.{
  Route, refused, unrouted, sent_to, hit, IsRoute, refusal, IsPool, Same-Extends,
}
use libmc.Pool.Shares.{Awaits}
use libmc.Pool.Commands.{no_keys}
use libmc.Pool.Dispatch.{dispatch_incr_decr}

-- "<word> <key> <delta>[ noreply]\r\n".
abbrev pub change_text : (ℕ → List ℕ) → List ℕ → ℕ → Bool → List ℕ → List ℕ
change_text print word delta noreply key =
    word ++ (key ++ (field print delta ++ (reply_text noreply ++ Keywords.crlf)))

change_request-Extends :
    (print : ℕ → List ℕ) (op : OpCode) (word : List ℕ) (delta : ℕ) (noreply : Bool) (key : List ℕ)
    (c : Connection)
    → change_word op ≡ some word
    → Ready c
    → (c' : Connection) × (change_request print op delta noreply key c ≡ some c')
      × Extends (change_text print word delta noreply key) (reply_keys noreply key) 1 c c'
unfolding change_request
change_request-Extends print op word delta noreply key c w r =
    let e1 = take_buffer-Extends word c r in
    let c1 = take_buffer word c in
    let e2 = take_buffer-Extends key c1 e1.ready in
    let c2 = take_buffer key c1 in
    let e3 = take_field-Extends print delta c2 e2.ready in
    let c3 = take_field print delta c2 in
    let e4 = await_reply-Extends noreply key c3 e3.ready in
    let c4 = await_reply noreply key c3 in
    let e5 = count_request-Extends c4 e4.ready in
    let c5 = count_request c4 in
    let e6 = take_buffer-Extends Keywords.crlf c5 e5.ready in
    (
      take_buffer Keywords.crlf c5,
      rw w refl,
      no_keys noreply key (
          Extends-trans e1
            (Extends-trans e2 (Extends-trans e3 (Extends-trans e4 (Extends-trans e5 e6))))),
    )

-- It counts the replies that it awaits.
abbrev counting : Connection → Connection
counting c = record (set_parser_mode ParserMode.counting c) { counter = request_key_count c }

counting-Awaits :
    {t : List ℕ} {ks : List (List ℕ)} {n : ℕ} (c c' : Connection)
    → Extends t ks n c c'
    → Awaits t ks n c (counting c')
counting-Awaits c c' e = record {
  sends = e.sends;
  awaits = e.awaits;
  counts = refl;
  mode = λ h. refl;
  ready = record { valid = e.ready.valid; uncut = e.ready.uncut };
}

-- The pool in which the connection `i` has been sent the request, and is active.
abbrev sent : {W : Type 0} → ℕ → Connection → Pool W → Pool W
sent i c q = record q {
  conns = set q.conns i (counting c);
  n_active = q.n_active + 1;
  active = q.active ++ i ∷ [];
}

dispatch_incr_decr-sent :
    {W : Type 0} (build : Build W) (op : OpCode) (delta : ℕ) (noreply : Bool) (key : List ℕ)
    (p q : Pool W) (i : ℕ) (c c' : Connection)
    → is_valid_key key ≡ true
    → get_conn build key p ≡ some (some i, q)
    → get_elem? q.conns i ≡ some c
    → change_request build.print op delta noreply key c ≡ some c'
    → dispatch_incr_decr build op delta noreply key p ≡ some (sent i c' q)
unfolding dispatch_incr_decr request_at
dispatch_incr_decr-sent build op delta noreply key p q i c c' good e h f =
    rw (good, e, h, f, dispatch_incr_decr) refl

-- A connection gets the request if its share is not empty.
abbrev pub Changes : List ℕ → List (List ℕ) → List (List ℕ) → Connection → Connection → Type 0
Changes text keys [] c c' = Extends [] [] 0 c c'
Changes text keys (key ∷ share) c c' = Awaits text keys 1 c c'

abbrev pub sent_index : Route → List ℕ
sent_index (Route.sent_to i) = i ∷ []
sent_index _ = []

pub record Changed {W : Type 0} (text : List ℕ) (keys : List (List ℕ)) (key : List ℕ)
    (p p' : Pool W) (r : Route) : Type 0 where
  pub route : IsRoute (length p.conns) key r
  pub refused : p'.n_invalid ≡ p.n_invalid + refusal r
  pub active : p'.active ≡ p.active ++ sent_index r
  pub counted : p'.n_active ≡ length p'.active
  pub each :
      (j : ℕ) (c : Connection)
      → get_elem? p.conns j ≡ some c
      → (c' : Connection) × (get_elem? p'.conns j ≡ some c') × Changes text keys (hit j r key) c c'

-- If a pool is valid, and the operation is `incr` or `decr`, then `dispatchIncrDecr` returns. Its key
-- is refused exactly if it is invalid, and then counted as such, or it goes to one connection or to
-- none. The connection to which it goes gets the request with the delta behind what it had to send,
-- awaits the reply for the key (none with noreply), counts as many replies as it awaits, and becomes
-- active; each other connection gets nothing.
pub dispatch_incr_decr-Changed :
    {W : Type 0} (build : Build W) (op : OpCode) (word : List ℕ) (delta : ℕ) (noreply : Bool)
    (key : List ℕ) (p : Pool W)
    → change_word op ≡ some word
    → IsPool p
    → (p' : Pool W) × (r : Route) × (dispatch_incr_decr build op delta noreply key p ≡ some p')
      × Changed (change_text build.print word delta noreply key) (reply_keys noreply key) key p p' r
unfolding dispatch_incr_decr request_at
dispatch_incr_decr-Changed {W} build op word delta noreply key p w v =
    elim (Bool-cases (is_valid_key key)) [
      | inr bad ↦ (
        record p { n_invalid = p.n_invalid + 1 },
        refused,
        rw (bad, dispatch_incr_decr) refl,
        record {
          route = bad;
          refused = refl;
          active = sym (append-nil p.active);
          counted = v.counted;
          each = λ j c e. (c, e, Extends-nil c (v.ready j c e));
        },
      )
      | inl good ↦
          let (it, q, e, s, b, sel, n, inv, na, act) =
            get_conn-SameEach build key p v.selector v.servers in
          routed it q e s b inv (omega (arith, na, ap length act, v.counted)) act good
    ]
  where
    routed :
        (it : Option ℕ) (q : Pool W)
        → get_conn build key p ≡ some (it, q)
        → SameEach p.conns q.conns
        → IsChoice (length q.conns) it
        → q.n_invalid ≡ p.n_invalid
        → q.n_active ≡ length q.active
        → q.active ≡ p.active
        → is_valid_key key ≡ true
        → (p' : Pool W) × (r : Route) × (dispatch_incr_decr build op delta noreply key p ≡ some p')
          × Changed
              (change_text build.print word delta noreply key)
              (reply_keys noreply key)
              key
              p
              p'
              r
    routed none q e s b inv count act good = (
      q,
      unrouted,
      rw (good, e, dispatch_incr_decr) refl,
      record {
        route = good;
        refused = omega (arith, inv);
        active = act ∙ sym (append-nil p.active);
        counted = count;
        each = λ j c f.
            let (c', g, same) = s.each j c f in (c', g, Same-Extends c c' (v.ready j c f) same);
      },
    )
    routed (some i) q e s b inv count act good =
        let (c1, h) = get_elem?-some q.conns i b in
        let inside : i < length p.conns = omega (arith, b, s.same_length) in
        let (c0, h0) = get_elem?-some p.conns i inside in
        let (d, g0, same0) = s.each i c0 h0 in
        let at : d ≡ c1 = some-injective d c1 (sym g0 ∙ h) in
        let kept =
          subst (λ y. Extends [] [] 0 c0 y) at (Same-Extends c0 d (v.ready i c0 h0) same0) in
        let (c2, f, x) =
          change_request-Extends build.print op word delta noreply key c1 w kept.ready in
        (
          sent i c2 q,
          sent_to i,
          dispatch_incr_decr-sent build op delta noreply key p q i c1 c2 good e h f,
          record {
            route = (good, inside);
            refused = omega (arith, inv);
            active = ap (λ t. t ++ i ∷ []) act;
            counted = omega (arith, count, length-append q.active (i ∷ []));
            each = λ j c g. elim (Bool-cases (i == j)) [
              | inl here ↦
                  let same : i ≡ j = ground (arith, here) in
                  let begins : c0 ≡ c =
                    some-injective c0 c (sym h0 ∙ ap (get_elem? p.conns) same ∙ g) in
                  let awaits = counting-Awaits c0 c2 (Extends-trans kept x) in
                  (
                    counting c2,
                    ap (get_elem? (set q.conns i (counting c2))) (sym same)
                        ∙ get_elem?-set_self q.conns i (counting c2) b,
                    rw here (
                        subst
                          (λ y.
                            Awaits (change_text build.print word delta noreply key)
                              (reply_keys noreply key) 1 y (counting c2))
                          begins awaits),
                  )
              | inr there ↦
                  let (c', k, same) = s.each j c g in
                  (
                    c',
                    get_elem?-set_ne q.conns (counting c2) (λ z. absurd (ground (arith, there, z)))
                        ∙ k,
                    rw there (Same-Extends c c' (v.ready j c g) same),
                  )
            ];
          },
        )
