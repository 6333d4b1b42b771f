-- ===== src/Pool/Retrievals.antt =====
-- The dispatch of `get` and `gets`: one line for each connection, in which the word stands in front of
-- the first key.
use mathlib.Core.List.{append_cancel_right}
use libmc.Prelude.{
  ℕ, zero, suc, ◌+◌, ◌<◌, ◌≡◌, refl, sym, ap, ◌∙◌, true, false, inl, inr, List, [], ◌∷◌, ◌++◌, some,
  arith, length, get_elem?, get_elem?-map, length-map, length-append, append-nil, append_assoc,
  Bool-cases, ltb, ◌==◌,
}
use libmc.Types.{OpCode, ParserMode}
use libmc.Keywords
use libmc.BufferWriter.{BufferWriter}
use libmc.BufferWriter.Stream.{pending}
use libmc.Connection.{Connection, take_buffer}
use libmc.Pool.State.{Pool, Build, activate, counted_from, end_retrieval}
use libmc.Pool.Extends.{
  View, ExtendsBy, Extends, Extends-trans, Ready, take_buffer-Extends, count_request-Extends,
}
use libmc.Pool.Requests.{retrieval_word, retrieval_request, count_request}
use libmc.Pool.Routes.{Route, share, gather, AreRoutes, refusals, IsPool}
use libmc.Pool.Shares.{dispatch_items-Dispatched, Dispatched-active, busy_from}
use libmc.Pool.Dispatch.{dispatch_retrieval}

-- The bytes to send, with the word that is yet to come in front of the first key.
abbrev with_word : List ℕ → View
with_word word zero writer = pending writer ++ word
with_word word (suc n) writer = pending writer

with_word-positive :
    (word : List ℕ) (n : ℕ) (writer : BufferWriter)
    → 0 < n
    → with_word word n writer ≡ pending writer
with_word-positive word zero writer h = absurd (omega arith)
with_word-positive word (suc n) writer h = refl

with_word-zero :
    (word : List ℕ) (n : ℕ) (writer : BufferWriter)
    → n ≡ 0
    → with_word word n writer ≡ pending writer ++ word
with_word-zero word zero writer h = refl
with_word-zero word (suc n) writer h = absurd (omega arith)

-- " <key>".
abbrev pub key_text : List ℕ → List ℕ
key_text key = Keywords.space ++ key

key-Extends :
    (key : List ℕ) (c : Connection)
    → Ready c
    → Extends (key_text key) [] 0 c (take_buffer key (take_buffer Keywords.space c))
key-Extends key c r =
    let e = take_buffer-Extends Keywords.space c r in
    Extends-trans e (take_buffer-Extends key (take_buffer Keywords.space c) e.ready)

module _ (op : OpCode) (word : List ℕ) (is_word : retrieval_word op ≡ some word) where
  first-ExtendsBy :
      (key : List ℕ) (c c' : Connection)
      → c.counter ≡ 0
      → Extends (word ++ key_text key) [] 1 c c'
      → ExtendsBy (with_word word) (key_text key) [] 1 c c'
  first-ExtendsBy key c c' z e = record {
    sends =
        with_word-positive word c'.counter c'.writer (omega (arith, e.counts))
        ∙ e.sends
        ∙ sym (append_assoc (pending c.writer) word (key_text key))
        ∙ ap (λ t. t ++ key_text key) (sym (with_word-zero word c.counter c.writer z));
    awaits = e.awaits;
    counts = e.counts;
    ready = e.ready;
  }

  next-ExtendsBy :
      (key : List ℕ) (c c' : Connection)
      → 0 < c.counter
      → Extends (key_text key) [] 1 c c'
      → ExtendsBy (with_word word) (key_text key) [] 1 c c'
  next-ExtendsBy key c c' z e = record {
    sends =
        with_word-positive word c'.counter c'.writer (omega (arith, e.counts))
        ∙ e.sends
        ∙ ap (λ t. t ++ key_text key) (sym (with_word-positive word c.counter c.writer z));
    awaits = e.awaits;
    counts = e.counts;
    ready = e.ready;
  }

  retrieval_request-ExtendsBy :
      (key : List ℕ) (c : Connection)
      → Ready c
      → (c' : Connection) × (retrieval_request op key c ≡ some c')
        × ExtendsBy (with_word word) (key_text key) [] 1 c c'
  unfolding retrieval_request
  retrieval_request-ExtendsBy key c r =
      let counted = count_request-Extends c r in
      let c1 = count_request c in
      elim (Bool-cases (c.counter + 1 == 1)) [
        | inl first ↦
            let worded = take_buffer-Extends word c1 counted.ready in
            let c2 = take_buffer word c1 in
            let asked = key-Extends key c2 worded.ready in
            (
              take_buffer key (take_buffer Keywords.space c2),
              rw (first, is_word) refl,
              first-ExtendsBy key c _ (ground (arith, first))
                  (Extends-trans counted (Extends-trans worded asked)),
            )
        | inr next ↦ (
          take_buffer key (take_buffer Keywords.space c1),
          rw next refl,
          next-ExtendsBy key c _ (ground (arith, next))
              (Extends-trans counted (key-Extends key c1 counted.ready)),
        )
      ]

-- "get <key> … <key>\r\n", and nothing without a key.
abbrev pub retrieval_text : List ℕ → List (List ℕ) → List ℕ
retrieval_text word [] = []
retrieval_text word (key ∷ keys) = word ++ (gather key_text (key ∷ keys) ++ Keywords.crlf)

-- The connection has the line for its keys to send, and gets the items up to the end of the response.
pub record Asked (word : List ℕ) (keys : List (List ℕ)) (c c' : Connection) : Type 0 where
  pub sends : pending c'.writer ≡ pending c.writer ++ retrieval_text word keys
  pub awaits : c'.parser.request_keys ≡ c.parser.request_keys
  pub counts : c'.counter ≡ length keys
  pub mode : 0 < length keys → c'.parser.mode ≡ ParserMode.end_state
  pub ready : Ready c'

no_replies : List ℕ → List (List ℕ)
no_replies key = []

gather-no_replies : (keys : List (List ℕ)) → gather no_replies keys ≡ []
unfolding no_replies
gather-no_replies [] = refl
gather-no_replies (key ∷ keys) = gather-no_replies keys

end_retrieval-Asked :
    (word : List ℕ) (keys : List (List ℕ)) (c c' : Connection)
    → c.counter ≡ 0
    → ExtendsBy (with_word word) (gather key_text keys) (gather no_replies keys) (length keys) c c'
    → Asked word keys c (end_retrieval c')
unfolding end_retrieval
end_retrieval-Asked word [] c c' z e =
    let idle : ltb 0 c'.counter ≡ false = ground (arith, e.counts) in
    let none_left : c'.counter ≡ 0 = omega (arith, e.counts) in
    let same : pending c'.writer ++ word ≡ pending c.writer ++ word =
      sym (with_word-zero word c'.counter c'.writer none_left)
      ∙ e.sends
      ∙ append-nil _
      ∙ with_word-zero word c.counter c.writer z in
    rw idle (record {
      sends =
          append_cancel_right (pending c'.writer) (pending c.writer) word same
          ∙ sym (append-nil (pending c.writer));
      awaits = e.awaits ∙ append-nil c.parser.request_keys;
      counts = none_left;
      mode = λ h. absurd (omega arith);
      ready = e.ready;
    })
end_retrieval-Asked word (key ∷ keys) c c' z e =
    let busy : ltb 0 c'.counter ≡ true = ground (arith, e.counts) in
    let text = gather key_text (key ∷ keys) in
    let ends = take_buffer-Extends Keywords.crlf c' e.ready in
    rw busy (record {
      sends =
          ends.sends
          ∙ ap (λ t. t ++ Keywords.crlf)
              (sym (with_word-positive word c'.counter c'.writer (omega (arith, e.counts)))
                ∙ e.sends
                ∙ ap (λ t. t ++ text) (with_word-zero word c.counter c.writer z)
                ∙ append_assoc (pending c.writer) word text)
          ∙ append_assoc (pending c.writer) (word ++ text) Keywords.crlf
          ∙ ap (λ t. pending c.writer ++ t) (append_assoc word text Keywords.crlf);
      awaits =
          ends.awaits
          ∙ append-nil c'.parser.request_keys
          ∙ e.awaits
          ∙ ap (λ ks. c.parser.request_keys ++ ks) (gather-no_replies (key ∷ keys))
          ∙ append-nil c.parser.request_keys;
      counts = omega (arith, ends.counts, e.counts);
      mode = λ h. refl;
      ready = record { valid = ends.ready.valid; uncut = ends.ready.uncut };
    })

-- What a dispatch of `get` or `gets` leaves.
pub record Retrieving {W : Type 0} (word : List ℕ) (p p' : Pool W) (keys : List (List ℕ))
    (rs : List Route) : Type 0 where
  pub routes : AreRoutes (length p.conns) (λ key. key) keys rs
  pub refused : p'.n_invalid ≡ p.n_invalid + refusals rs
  pub active : p'.active ≡ p.active ++ busy_from 0 p.conns (λ j. length (share j rs keys))
  pub each :
      (j : ℕ) (c : Connection)
      → get_elem? p.conns j ≡ some c
      → (c' : Connection) × (get_elem? p'.conns j ≡ some c') × Asked word (share j rs keys) c c'
  pub same_length : length p'.conns ≡ length p.conns
  pub counted : p'.n_active ≡ length p'.active

-- If a pool is valid, no connection counts a request, and the operation is `get` or `gets`, then
-- `dispatchRetrieval` returns. Each key has a route: it is refused exactly if it is invalid, and then
-- counted as such, or it goes to one connection or to none. Each connection to which keys go gets,
-- behind what it had to send, one line of the word and these keys in their order, counts as many and
-- reads up to the end of the response; the others get nothing; no reply's key is awaited; and the
-- connections with a line become active.
pub dispatch_retrieval-Retrieving :
    {W : Type 0} (build : Build W) (op : OpCode) (word : List ℕ) (keys : List (List ℕ)) (p : Pool W)
    → retrieval_word op ≡ some word
    → IsPool p
    → ((j : ℕ) (c : Connection) → get_elem? p.conns j ≡ some c → c.counter ≡ 0)
    → (p' : Pool W) × (rs : List Route) × (dispatch_retrieval build op keys p ≡ some p')
      × Retrieving word p p' keys rs
unfolding dispatch_retrieval no_replies
dispatch_retrieval-Retrieving build op word keys p w v quiet =
    let (q, rs, e, d) =
      dispatch_items-Dispatched build (with_word word) (λ key. key) (retrieval_request op) key_text
        no_replies (retrieval_request-ExtendsBy op word w) keys p v in
    (
      activate end_retrieval q,
      rs,
      rw e refl,
      record {
        routes = d.routes;
        refused = d.refused;
        active = Dispatched-active p q keys rs d;
        each = λ j c e.
            let (c', f, x) = d.gets.each j c e in
            (
              end_retrieval c',
              get_elem?-map end_retrieval q.conns j c' f,
              end_retrieval-Asked word (share j rs keys) c c' (quiet j c e) x,
            );
        same_length = length-map q.conns end_retrieval ∙ d.gets.same_length;
        counted = omega (arith, d.pool.counted, length-append q.active (counted_from 0 q.conns));
      },
    )
